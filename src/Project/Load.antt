-- ===== src/Project/Load.antt =====
-- src/config/project.rs: the projects that the environment lists. The case conversions of Rust's
-- `String` are parameters.
pub mod Found
use Prim.Native.Char.{Char, code}
use xjp_deploy_agent.Prelude.{
  nat_beq, if◌then◌else◌, is_some, map_option, unwrap_or, ◌==◌, nat_eq, string_eq, ℕ, ◌-◌, ◌/◌,
  String, Bool, true, false, ◌&&◌, ◌||◌, Option, none, some, [], ◌∷◌,
}
use xjp_deploy_agent.Prelude.Text.{◌⊕◌, starts_with, parse_uint}
use xjp_deploy_agent.HashMap
use xjp_deploy_agent.HashMap.{HashMap}
use xjp_deploy_agent.Project.{
  DeployType, ProjectConfig, script, docker_compose, docker_build, xiaojincut, is_docker_compose,
  is_docker_build,
}

-- The variables with their values: `env::var` is a lookup, `env::vars` goes through them.
abbrev pub Env : Type 0
Env = HashMap String String

pub record Case : Type 0 where
  pub to_lowercase : String → String
  pub to_uppercase : String → String

-- `s.replace(from, to)` for two characters.
unfoldable pub replace_char : Char → Char → String → String
replace_char from to String.[] = String.[]
replace_char from to (String.◌∷◌ c s) =
    String.◌∷◌ (if nat_beq (code c) (code from) then to else c) (replace_char from to s)

unfoldable pub strip_prefix : (prefix : String) → String → Option String
strip_prefix String.[] s = some s
strip_prefix (String.◌∷◌ p prefix) String.[] = none
strip_prefix (String.◌∷◌ p prefix) (String.◌∷◌ c s) =
    let rest = strip_prefix prefix s in if nat_beq (code p) (code c) then rest else none

unfoldable pub strip_suffix : (suffix : String) → String → Option String
strip_suffix suffix String.[] = if "" == suffix then some "" else none
strip_suffix suffix (String.◌∷◌ c s) = elim (strip_suffix suffix s) [
  | some rest ↦ some (String.◌∷◌ c rest)
  | none ↦ if String.◌∷◌ c s == suffix then some "" else none
]

unfoldable pub insert_project :
    HashMap String ProjectConfig → Option (String × ProjectConfig) → HashMap String ProjectConfig
insert_project projects none = projects
insert_project projects (some (name, config)) = HashMap.insert projects name config

abbrev pub port_of : Option String → Option ℕ
port_of none = none
port_of (some v) = parse_uint 65535 v

abbrev is_on : Option String → Bool
is_on none = false
is_on (some v) = v == "true" || v == "1"

module _ (case_of : Case) where
  -- The name of a project from the middle of its variable, and back.
  unfoldable pub project_name : String → String
  project_name middle = replace_char "_" "-" (case_of.to_lowercase middle)

  unfoldable pub env_name : String → String
  env_name name = replace_char "-" "_" (case_of.to_uppercase name)

  unfoldable pub name_of_key : (key : String) → Option String
  name_of_key key =
      if starts_with "PROJECT_" key && is_some (strip_suffix "_DIR" key)
      then elim (strip_prefix "PROJECT_" key) [
        | none ↦ none
        | some rest ↦ map_option project_name (strip_suffix "_DIR" rest)
      ]
      else none

  module _ (env : Env) where
    unfoldable pub project_var : (name what : String) → Option String
    project_var name what = HashMap.get env ("PROJECT_" ⊕ env_name name ⊕ "_" ⊕ what)

    -- The `match` on the type of the project; a docker project without an image is skipped.
    unfoldable pub deploy_type_of : (name : String) → Option DeployType
    deploy_type_of name =
        let kind = unwrap_or (project_var name "TYPE") "script" in
        let image = project_var name "IMAGE" in
        if is_docker_compose kind
        then map_option
            (λ i.
              docker_compose (unwrap_or (project_var name "COMPOSE_FILE") "docker-compose.yml") i
                (project_var name "GIT_REPO") (project_var name "SERVICE")
                (port_of (project_var name "HEALTH_PORT")))
            image
        else if is_docker_build kind
        then map_option
            (λ i.
              docker_build (project_var name "DOCKERFILE") (project_var name "BUILD_CONTEXT") i
                (project_var name "TAG") (is_on (project_var name "PUSH_LATEST"))
                (project_var name "BRANCH"))
            image
        else if kind == "xiaojincut"
        then some (
            xiaojincut (unwrap_or (project_var name "TASK_TYPE") "import")
              (project_var name "INPUT_PATH") (project_var name "OUTPUT_DIR")
              (project_var name "PROMPT") (port_of (project_var name "PORT")))
        else some (script (unwrap_or (project_var name "SCRIPT") "./deploy.sh"))

    unfoldable pub project_of_var : String × String → Option (String × ProjectConfig)
    project_of_var (key, value) = elim (name_of_key key) [
      | none ↦ none
      | some name ↦
          map_option (λ t. (name, record { work_dir = value; deploy_type = t }))
            (deploy_type_of name)
    ]

    unfoldable pub collect : Env → HashMap String ProjectConfig → HashMap String ProjectConfig
    collect [] projects = projects
    collect (var ∷ vars) projects = collect vars (insert_project projects (project_of_var var))

    -- The project of `BACKEND_WORK_DIR`.
    unfoldable pub legacy_project : HashMap String ProjectConfig
    legacy_project = elim (HashMap.get env "BACKEND_WORK_DIR") [
      | none ↦ []
      | some work_dir ↦
          (
            "xiaojinpro-backend",
            record { work_dir = work_dir; deploy_type = script "./build-and-push-backend.sh" },
          )
          ∷ []
    ]

    unfoldable pub load_projects_from_env : HashMap String ProjectConfig
    load_projects_from_env = collect env legacy_project
