-- ===== src/Config/Tests.antt =====
-- The flags of the configuration at a concrete input.
use xjp_deploy_agent.Prelude.{nat_eq, string_eq, ◌≡◌, refl, true}
use xjp_deploy_agent.Config.{eq_ignore_ascii_case}

flag_run : eq_ignore_ascii_case "TrUe" "true" ≡ true
unfolding eq_ignore_ascii_case
flag_run = refl
