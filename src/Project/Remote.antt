-- ===== src/Project/Remote.antt =====
-- Which configurations of the deploy center are accepted.
use xjp_deploy_agent.Prelude.{is_some, ◌≡◌, Bool, not, ◌&&◌, ◌||◌, some, arith}
use xjp_deploy_agent.Project.{
  RemoteAgentConfig, ProjectConfig, DeployType, to_project_config, to_deploy_type, is_docker_build,
  is_docker_compose, docker_compose, docker_build,
}

-- What a configuration has to name before it can be used.
abbrev pub is_complete : RemoteAgentConfig → Bool
is_complete c =
    is_some c.work_dir
    && (not (is_docker_build c.deploy_type || is_docker_compose c.deploy_type) || is_some c.image)

-- A configuration is accepted exactly if it has a working directory and, for the two docker
-- types, an image.
pub to_project_config_iff : (c : RemoteAgentConfig) → is_some (to_project_config c) ≡ is_complete c
unfolding to_project_config to_deploy_type
to_project_config_iff c = ground arith

-- What an accepted configuration keeps.
abbrev pub Keeps : RemoteAgentConfig → ProjectConfig → Type 0
Keeps c p = (c.work_dir ≡ some p.work_dir) × KeepsImage p.deploy_type
  where
    KeepsImage : DeployType → Type 0
    KeepsImage (docker_compose _ image _ _ _) = c.image ≡ some image
    KeepsImage (docker_build _ _ image _ _ _) = c.image ≡ some image
    KeepsImage _ = Unit

-- An accepted configuration keeps its working directory, and the image of a docker type.
pub to_project_config-Keeps :
    (c : RemoteAgentConfig) (p : ProjectConfig) → to_project_config c ≡ some p → Keeps c p
unfolding to_project_config to_deploy_type
to_project_config-Keeps c p h = ground arith
