-- ===== src/Project.antt =====
-- src/config/project.rs and the deploy types of src/domain/deploy.rs: how the configuration that the
-- deploy center sends becomes a project.
pub mod Remote
pub mod Load
mod Tests
use xjp_deploy_agent.Prelude.{
  if◌then◌else◌, unwrap_or, ◌==◌, nat_eq, string_eq, ℕ, ◌-◌, ◌/◌, String, Bool, ◌||◌, Option, none,
  some, List, [], ◌∷◌,
}

-- Ports are `u16` in the code; only the values that a configuration gives are passed on.
pub data DeployType : Type 0 where
  script : String → DeployType
  docker_compose :
      (compose_file image : String) (git_repo_dir service : Option String) (health_port : Option ℕ)
      → DeployType
  docker_build :
      (dockerfile build_context : Option String) (image : String) (tag : Option String)
      (push_latest : Bool) (branch : Option String)
      → DeployType
  xiaojincut :
      (task_type : String) (input_path output_dir prompt : Option String) (port : Option ℕ)
      → DeployType

unfoldable pub name : DeployType → String
name (script _) = "script"
name (docker_compose _ _ _ _ _) = "docker_compose"
name (docker_build _ _ _ _ _ _) = "docker_build"
name (xiaojincut _ _ _ _ _) = "xiaojincut"

pub record ProjectConfig : Type 0 where
  pub work_dir : String
  pub deploy_type : DeployType

-- The fields that the conversion reads.
pub record RemoteAgentConfig : Type 0 where
  pub deploy_type : String
  pub script : Option String
  pub work_dir : Option String
  pub dockerfile : Option String
  pub build_context : Option String
  pub image : Option String
  pub tag : Option String
  pub push_latest : Bool
  pub branch : Option String
  pub compose_file : Option String
  pub services : Option (List String)
  pub health_port : Option ℕ
  pub xjc_task_type : Option String
  pub xjc_input_path : Option String
  pub xjc_output_dir : Option String
  pub xjc_prompt : Option String
  pub xjc_port : Option ℕ

infixl 5 ◌>>=◌
abbrev ◌>>=◌ {ℓ κ} : {A : Type ℓ} {B : Type κ} → Option A → (A → Option B) → Option B
none >>= f = none
some a >>= f = f a

abbrev first : List String → Option String
first [] = none
first (x ∷ xs) = some x

unfoldable pub is_docker_build : String → Bool
is_docker_build kind = kind == "docker_build" || kind == "docker-build"

unfoldable pub is_docker_compose : String → Bool
is_docker_compose kind = kind == "docker_compose" || kind == "docker-compose"

-- The `match` on the deploy type, in a known working directory.
unfoldable pub to_deploy_type : RemoteAgentConfig → String → Option DeployType
to_deploy_type c work_dir =
    if is_docker_build c.deploy_type
    then (do
      image ← c.image
      some (docker_build c.dockerfile c.build_context image c.tag c.push_latest c.branch))
    else if is_docker_compose c.deploy_type
    then (do
      image ← c.image
      some (
          docker_compose (unwrap_or c.compose_file "docker-compose.yml") image (some work_dir)
            (c.services >>= first) c.health_port))
    else if c.deploy_type == "xiaojincut"
    then some (
        xiaojincut (unwrap_or c.xjc_task_type "import") c.xjc_input_path c.xjc_output_dir
          c.xjc_prompt c.xjc_port)
    else some (script (unwrap_or c.script "./deploy.sh"))

unfoldable pub to_project_config : RemoteAgentConfig → Option ProjectConfig
to_project_config c = do
  work_dir ← c.work_dir
  deploy_type ← to_deploy_type c work_dir
  some (record { work_dir = work_dir; deploy_type = deploy_type })
