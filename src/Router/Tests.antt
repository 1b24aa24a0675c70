-- ===== src/Router/Tests.antt =====
-- The theorems on the router at concrete inputs.
use xjp_deploy_agent.Prelude.{
  unwrap_or, nat_eq, string_eq, String, ◌≡◌, refl, false, none, some, [], ◌∷◌,
}
use xjp_deploy_agent.Prelude.Text.{decimal_port, digits}
use xjp_deploy_agent.Router.{Sources, tunnel_url, resolve_endpoint}
use xjp_deploy_agent.Router.Priority.{offers, head, unknown, IsBest, resolve_endpoint_lem}

abbrev only_mesh : String → Sources
only_mesh url = record {
  local_services = [];
  tunnel_server_state = none;
  lan_url = λ id. some "http://10.0.0.2:80";
  lan_healthy = λ id. false;
  mesh_url = λ id. some url;
  configured_endpoints = ("store", "https://store") ∷ [];
  fallback_endpoints = [];
}

decimal_run : tunnel_url 8080 ≡ "http://localhost:8080"
unfolding tunnel_url decimal_port digits
decimal_run = refl

resolve_endpoint_lem_example :
    (resolve_endpoint (only_mesh "m") "store"
      ≡ unwrap_or (head (offers (only_mesh "m") "store")) unknown)
    × IsBest (resolve_endpoint (only_mesh "m") "store") (offers (only_mesh "m") "store")
resolve_endpoint_lem_example = resolve_endpoint_lem (only_mesh "m") "store"
