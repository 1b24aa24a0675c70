-- ===== src/Update/Tests.antt =====
-- The theorems on the automatic update at concrete inputs.
use xjp_deploy_agent.Prelude.{ℕ, String, ◌≡◌, refl, true, false, none, some, List, [], ◌∷◌, arith}
use xjp_deploy_agent.Prelude.Text.{starts_with, split, parse_uint, parse_digits, parsed}
use xjp_deploy_agent.Update.{
  UpdateMetadata, AutoUpdateConfig, Updater, new, complete, answers, gone_late, returned, World,
  client,
}
use xjp_deploy_agent.Update.Version.{is_newer_version, is_newer_parts, compare_parts, parse_version}
use xjp_deploy_agent.Update.Source.{
  resolve_binary_url, resolved_url, binary_url, binary_path, replace_from, trim_end_slash,
}
use xjp_deploy_agent.Update.Apply.{download_and_apply_update}
use xjp_deploy_agent.Update.Check.{check_round, trigger_pending_update}
use xjp_deploy_agent.Update.Safety.{with_binaries, IsSafe, download_and_apply_update_lem}
use xjp_deploy_agent.Update.Flags.{check_round-deferred}

abbrev latest : UpdateMetadata
latest = record { version = "1.2.0"; released_at = "today"; changelog = none; sha256 = some "AB" }

abbrev world : World
world = record {
  download = complete (1 ∷ 2 ∷ []);
  reads_temp = true;
  canary = answers 200;
  knows_current_exe = true;
  backs_up = true;
  replaces = true;
  restores = true;
  sets_permissions = true;
  removes_temp = true;
  removes_backup = true;
  on_windows = false;
  is_service = false;
  tunnel_mode = client;
  new_process = gone_late;
  schedules_restart = λ mode. true;
}

abbrev oss : AutoUpdateConfig
oss = record {
  enabled = true;
  endpoint = "https://oss";
  metadata_path = "latest.json";
  binary_path_template = "agent-{version}-linux";
  check_interval_secs = 3600;
}

abbrev sha : List ℕ → String
sha bytes = "ab"

abbrev lower : String → String
lower s = "ab"

abbrev idle : Updater
idle = with_binaries new (some (7 ∷ [])) none none

url_run :
    resolve_binary_url
      (some (record {
        url = "http://10.0.0.2:9000/";
        source = xjp_deploy_agent.Router.EndpointSource.lan_peer;
        healthy = true;
      }))
      none
      oss
      "1.2.0"
    ≡ "http://10.0.0.2:9000/agent-1.2.0-linux"
unfolding resolve_binary_url resolved_url binary_path replace_from starts_with trim_end_slash
url_run = refl

config_url_run : resolve_binary_url none none oss "1.2.0" ≡ "https://oss/agent-1.2.0-linux"
unfolding resolve_binary_url binary_url binary_path replace_from starts_with
config_url_run = refl

newer_run : is_newer_version "1.10.0" "1.9.9" ≡ true
unfolding is_newer_version parse_version is_newer_parts compare_parts parsed split parse_uint
    parse_digits
newer_run = refl

download_and_apply_update_lem_example :
    IsSafe sha lower world latest
      (7 ∷ [])
      (download_and_apply_update sha lower world latest idle).0.binaries.current
download_and_apply_update_lem_example =
    download_and_apply_update_lem sha lower world latest new (7 ∷ []) none none

check_round-deferred_example :
    let r = check_round sha lower "1.0.0" world oss (some latest) 1 50 idle in
    (r.0.binaries ≡ idle.binaries)
    × (r.1 ≡ returned)
    × (trigger_pending_update sha lower world (some oss) 0 1 r.0 ≡ (r.0, returned))
unfolding is_newer_version parse_version is_newer_parts compare_parts parsed split parse_uint
    parse_digits
check_round-deferred_example =
    check_round-deferred sha lower "1.0.0" world world oss oss latest 1 50 0 1 idle refl
      (omega arith)
