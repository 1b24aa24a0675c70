-- ===== src/Project/Load/Found.antt =====
-- src/config/project.rs: which projects the environment gives.
use xjp_deploy_agent.Prelude.{
  Bool-cases, unwrap_or, ◌==◌, nat_eq, string_eq, All, String, ◌≡◌, refl, ap, ◌∙◌, ◌⊎◌, inl, inr,
  false, Option, none, some, [], ◌∷◌, arith, eq_iff,
}
use xjp_deploy_agent.Prelude.Text.{◌⊕◌, starts_with}
use xjp_deploy_agent.HashMap
use xjp_deploy_agent.HashMap.{HashMap}
use xjp_deploy_agent.HashMap.Laws.{get-insert, get-insert_self}
use xjp_deploy_agent.Project.{
  ProjectConfig, DeployType, script, is_docker_compose, is_docker_build, xiaojincut,
}
use xjp_deploy_agent.Project.Load
use xjp_deploy_agent.Project.Load.{
  Env, Case, strip_prefix, strip_suffix, project_name, env_name, name_of_key, project_var,
  deploy_type_of, project_of_var, insert_project, collect, legacy_project, load_projects_from_env,
}

strip_suffix-append : (s : String) → strip_suffix "_DIR" (s ⊕ "_DIR") ≡ some s
unfolding strip_suffix
strip_suffix-append String.[] = refl
strip_suffix-append (String.◌∷◌ c s) = rw (strip_suffix-append s) refl

⊕_assoc : (s t u : String) → (s ⊕ t) ⊕ u ≡ s ⊕ (t ⊕ u)
⊕_assoc String.[] t u = refl
⊕_assoc (String.◌∷◌ c s) t u = ap (String.◌∷◌ c) (⊕_assoc s t u)

-- The variable that gives the directory of a project.
abbrev pub dir_var : (middle : String) → String
dir_var middle = "PROJECT_" ⊕ (middle ⊕ "_DIR")

abbrev pub output_dir_of : DeployType → Option String
output_dir_of (xiaojincut task_type input_path output_dir prompt port) = output_dir
output_dir_of other = none

module _ (case_of : Case) where
  name_of_key-dir_var :
      (middle : String) → name_of_key case_of (dir_var middle) ≡ some (project_name case_of middle)
  unfolding name_of_key strip_prefix starts_with
  name_of_key-dir_var middle =
      let whole : strip_suffix "_DIR" (dir_var middle) ≡ some ("PROJECT_" ⊕ middle) =
        strip_suffix-append ("PROJECT_" ⊕ middle) in
      rw (whole, strip_suffix-append middle) refl

  module _ (env : Env) where
    project_of_dir_var :
        (middle value : String) (t : DeployType)
        → deploy_type_of case_of env (project_name case_of middle) ≡ some t
        → project_of_var case_of env (dir_var middle, value)
          ≡ some (project_name case_of middle, record { work_dir = value; deploy_type = t })
    unfolding project_of_var
    project_of_dir_var middle value t h = rw (name_of_key-dir_var middle, project_of_var, h) refl

    -- The variable gives no project of this name, or this very project.
    abbrev pub Agrees : String → ProjectConfig → String × String → Type 0
    Agrees name config var =
        (project_of_var case_of env var ≡ some (name, config))
        ⊎ ((n : String) × (c : ProjectConfig) × (project_of_var case_of env var ≡ some (n, c))
            × ((n == name) ≡ false))
        ⊎ (project_of_var case_of env var ≡ none)

    collect-keeps :
        (name : String) (config : ProjectConfig) (vars : Env) (m : HashMap String ProjectConfig)
        → All (Agrees name config) vars
        → HashMap.get m name ≡ some config
        → HashMap.get (collect case_of env vars m) name ≡ some config
    unfolding collect insert_project
    collect-keeps name config [] m a h = h
    collect-keeps name config (var ∷ vars) m (inl same, a) h = rw same (
        collect-keeps name config vars (HashMap.insert m name config) a
          (get-insert_self m name config))
    collect-keeps name config (var ∷ vars) m (inr (inl (n, c, other, ne)), a) h =
        rw other (
          collect-keeps name config vars (HashMap.insert m n c) a (get-insert m n name c ∙ rw ne h))
    collect-keeps name config (var ∷ vars) m (inr (inr no_project), a) h =
        rw no_project (collect-keeps name config vars m a h)

    collect-finds :
        (key value name : String) (config : ProjectConfig) (vars : Env)
        (m : HashMap String ProjectConfig)
        → HashMap.get vars key ≡ some value
        → project_of_var case_of env (key, value) ≡ some (name, config)
        → All (Agrees name config) vars
        → HashMap.get (collect case_of env vars m) name ≡ some config
    unfolding collect insert_project HashMap.get
    collect-finds key value name config [] m there gives a = absurd (ground (arith, there))
    collect-finds key value name config ((k, v) ∷ vars) m there gives a =
        elim (Bool-cases (k == key)) [
          | inl same ↦
              let same_key = (eq_iff k key).0 same in
              let same_value : v ≡ value = ground (arith, there, same) in
              let here : project_of_var case_of env (k, v) ≡ some (name, config) =
                rw (same_key, same_value) gives in
              rw here (
                collect-keeps name config vars (HashMap.insert m name config) a.1
                  (get-insert_self m name config))
          | inr other ↦
              collect-finds key value name config vars
                (insert_project m (project_of_var case_of env (k, v)))
                (ground (arith, there, other)) gives a.1
        ]

    -- A variable PROJECT_x_DIR gives a project with its value as the directory and the type that the
    -- other variables describe, which is not a docker type without an image, when no other variable
    -- gives another project of the same name.
    pub get-load_projects_from_env :
        (middle value : String) (t : DeployType)
        → let name = project_name case_of middle in
          let config : ProjectConfig = record { work_dir = value; deploy_type = t } in
          HashMap.get env (dir_var middle) ≡ some value
          → deploy_type_of case_of env name ≡ some t
          → All (Agrees name config) env
          → HashMap.get (load_projects_from_env case_of env) name ≡ some config
    unfolding load_projects_from_env
    get-load_projects_from_env middle value t there known a =
        collect-finds (dir_var middle) value (project_name case_of middle)
          (record { work_dir = value; deploy_type = t }) env (legacy_project case_of env) there
          (project_of_dir_var middle value t known) a

    xiaojincut_output_dir :
        (name : String)
        → project_var case_of env name "TYPE" ≡ some "xiaojincut"
        → (t : DeployType) × (deploy_type_of case_of env name ≡ some t)
          × (output_dir_of t ≡ project_var case_of env name "OUTPUT_DIR")
    unfolding deploy_type_of is_docker_compose is_docker_build
    xiaojincut_output_dir name h = (
      xiaojincut (unwrap_or (project_var case_of env name "TASK_TYPE") "import")
          (project_var case_of env name "INPUT_PATH") (project_var case_of env name "OUTPUT_DIR")
          (project_var case_of env name "PROMPT")
          (Load.port_of (project_var case_of env name "PORT")),
      rw (h, deploy_type_of) refl,
      refl,
    )

    script_type :
        (name : String)
        → project_var case_of env name "TYPE" ≡ none
        → deploy_type_of case_of env name
          ≡ some (script (unwrap_or (project_var case_of env name "SCRIPT") "./deploy.sh"))
    unfolding deploy_type_of is_docker_compose is_docker_build
    script_type name h = rw (h, deploy_type_of) refl

    -- The variable PROJECT_x_OUTPUT_DIR, which names the output directory of the video project x, is
    -- taken for the directory of a project of its own as well: there is a script project with the name
    -- of x followed by "-output" in that directory. No other variable describes such a project, and x is
    -- spelled in the way that the names of variables are made from it.
    pub output_dir_is_project :
        (middle dir : String)
        → let name = project_name case_of middle in
          let spurious = project_name case_of (middle ⊕ "_OUTPUT") in
          let config : ProjectConfig = record {
            work_dir = dir;
            deploy_type =
                script (unwrap_or (project_var case_of env spurious "SCRIPT") "./deploy.sh");
          } in
          HashMap.get env ("PROJECT_" ⊕ (middle ⊕ "_OUTPUT_DIR")) ≡ some dir
          → env_name case_of name ≡ middle
          → project_var case_of env name "TYPE" ≡ some "xiaojincut"
          → project_var case_of env spurious "TYPE" ≡ none
          → All (Agrees spurious config) env
          → ((t : DeployType) × (deploy_type_of case_of env name ≡ some t)
              × (output_dir_of t ≡ some dir))
            × (HashMap.get (load_projects_from_env case_of env) spurious ≡ some config)
    unfolding project_var
    output_dir_is_project middle dir there spelled video unset a =
        let (t, known, reads) = xiaojincut_output_dir (project_name case_of middle) video in
        let same_var : dir_var (middle ⊕ "_OUTPUT") ≡ "PROJECT_" ⊕ (middle ⊕ "_OUTPUT_DIR") =
          ap (λ s. "PROJECT_" ⊕ s) (⊕_assoc middle "_OUTPUT" "_DIR") in
        (
          (t, known, reads ∙ rw spelled there),
          get-load_projects_from_env (middle ⊕ "_OUTPUT") dir _ (rw same_var there)
              (script_type (project_name case_of (middle ⊕ "_OUTPUT")) unset) a,
        )
