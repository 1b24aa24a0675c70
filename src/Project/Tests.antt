-- ===== src/Project/Tests.antt =====
-- The theorems on the projects of the environment at concrete inputs.
use xjp_deploy_agent.Prelude.{
  if◌then◌else◌, ◌==◌, nat_eq, string_eq, ◌≡◌, refl, inl, inr, none, some, [], ◌∷◌,
}
use xjp_deploy_agent.Prelude.Text.{starts_with}
use xjp_deploy_agent.HashMap
use xjp_deploy_agent.Project.{
  ProjectConfig, DeployType, script, xiaojincut, is_docker_compose, is_docker_build,
}
use xjp_deploy_agent.Project.Load.{
  Env, Case, replace_char, strip_prefix, strip_suffix, project_name, env_name, name_of_key,
  project_var, deploy_type_of, project_of_var, load_projects_from_env,
}
use xjp_deploy_agent.Project.Load.Found.{output_dir_of, output_dir_is_project}

-- The conversions for the words below.
abbrev cases : Case
cases = record {
  to_lowercase = λ s. if s == "CUT" then "cut" else if s == "CUT_OUTPUT" then "cut_output" else s;
  to_uppercase = λ s. if s == "cut" then "CUT" else if s == "cut-output" then "CUT-OUTPUT" else s;
}

abbrev env : Env
env =
    ("PROJECT_CUT_DIR", "/srv/cut")
    ∷ ("PROJECT_CUT_TYPE", "xiaojincut")
    ∷ ("PROJECT_CUT_OUTPUT_DIR", "/videos")
    ∷ []

abbrev video : DeployType
video = xiaojincut "import" none (some "/videos") none none

abbrev spurious : ProjectConfig
spurious = record { work_dir = "/videos"; deploy_type = script "./deploy.sh" }

abbrev cut : ProjectConfig
cut = record { work_dir = "/srv/cut"; deploy_type = video }

from_dir : project_of_var cases env ("PROJECT_CUT_DIR", "/srv/cut") ≡ some ("cut", cut)
unfolding project_of_var name_of_key starts_with strip_suffix strip_prefix project_name replace_char
    deploy_type_of project_var env_name HashMap.get is_docker_compose is_docker_build
from_dir = refl

from_type : project_of_var cases env ("PROJECT_CUT_TYPE", "xiaojincut") ≡ none
unfolding project_of_var name_of_key starts_with strip_suffix
from_type = refl

from_output :
    project_of_var cases env ("PROJECT_CUT_OUTPUT_DIR", "/videos") ≡ some ("cut-output", spurious)
unfolding project_of_var name_of_key starts_with strip_suffix strip_prefix project_name replace_char
    deploy_type_of project_var env_name HashMap.get is_docker_compose is_docker_build
from_output = refl

cut_type : deploy_type_of cases env "cut" ≡ some video
unfolding deploy_type_of project_var env_name replace_char HashMap.get is_docker_compose
    is_docker_build
cut_type = refl

output_dir_is_project_example :
    ((t : DeployType) × (deploy_type_of cases env "cut" ≡ some t)
      × (output_dir_of t ≡ some "/videos"))
    × (HashMap.get (load_projects_from_env cases env) "cut-output" ≡ some spurious)
unfolding HashMap.get project_name replace_char env_name project_var
output_dir_is_project_example =
    output_dir_is_project cases env "CUT" "/videos" refl refl refl refl
      (inr (inl ("cut", cut, from_dir, refl)), (inr (inr from_type), (inl from_output, tt)))
