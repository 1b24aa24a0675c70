-- ===== src/Mesh/Tests.antt =====
-- The theorems on the mesh client at concrete inputs.
use xjp_deploy_agent.Prelude.{
  nat_eq, string_eq, ◌-◌, ◌<◌, ◌≡◌, refl, true, none, some, List, [], ◌∷◌, arith,
}
use xjp_deploy_agent.HashMap
use xjp_deploy_agent.Http.{answered, is_success}
use xjp_deploy_agent.Mesh.{
  MeshConfig, LocalServiceConfig, ResolvedEndpoint, Reading, new, resolve, read_answer, fresh,
  remember, parse_local_services,
}
use xjp_deploy_agent.Mesh.Services.{print_services, IsListable, parse_local_services-print_services}
use xjp_deploy_agent.Mesh.Cache.{Call, resolves, Some, run, run_all, resolve-run_all}

abbrev store : LocalServiceConfig
store = record { service_id = "store"; local_url = "http://localhost:80"; health_check_url = none }

abbrev mail : LocalServiceConfig
mail = record { service_id = "mail"; local_url = "smtp://home"; health_check_url = none }

print_run : print_services (store ∷ mail ∷ []) ≡ "store:http://localhost:80,mail:smtp://home"
print_run = refl

store-IsListable : IsListable store
store-IsListable = (ground arith, ground arith, ground arith, refl)

mail-IsListable : IsListable mail
mail-IsListable = (ground arith, ground arith, ground arith, refl)

parse_local_services-print_services_example :
    parse_local_services (print_services (store ∷ mail ∷ [])) ≡ store ∷ mail ∷ []
parse_local_services-print_services_example =
    parse_local_services-print_services store (mail ∷ []) (store-IsListable, (mail-IsListable, tt))

abbrev config : MeshConfig
config = record {
  registry_url = "https://registry";
  api_key = "";
  agent_id = "home";
  agent_name = none;
  local_services = [];
  heartbeat_interval_secs = 60;
  enabled = true;
}

abbrev endpoint : ResolvedEndpoint
endpoint = record {
  primary = record {
    endpoint_id = "e";
    url = "http://10.0.0.2";
    zone_id = "z";
    zone_name = "z";
    zone_type = "lan";
    protocol = "http";
    healthy = true;
  };
  fallbacks = [];
  resolution_reason = "";
}

abbrev reading : Reading ResolvedEndpoint
reading = record {
  read = λ body. some endpoint;
  read_error = λ body. "bad";
  status_text = λ code. "status";
}

abbrev calls : List Call
calls = resolves "store" 1000 (answered 200 "") ∷ []

resolve-run_all_example :
    Some
      (λ g. (g.service_id ≡ "store") × (g.endpoint ≡ endpoint) × (60000 - g.at < 60000))
      (run reading
        (run_all reading (new config, []) calls)
        (resolves "store" 60000 (answered 500 ""))).1
unfolding run_all run resolve read_answer fresh remember new HashMap.get HashMap.insert is_success
resolve-run_all_example =
    resolve-run_all reading config calls "store" 60000 (answered 500 "") endpoint refl
