-- ===== src/Router.antt =====
-- src/services/service_router.rs: the choice of the endpoint of a service, and its cache. The LAN
-- discovery and the mesh are asked through functions, which answer nothing when they are off. The
-- measured latency, the metadata and the listing of all endpoints are left out.
pub mod Priority
pub mod ServiceMap
pub mod Cache
mod Tests
use xjp_deploy_agent.Prelude.{
  ltb, if◌then◌else◌, ◌==◌, nat_eq, string_eq, ℕ, ◌+◌, ◌-◌, ◌/◌, String, Bool, true, false, Option,
  none, some, List, [], ◌∷◌, ◌++◌,
}
use xjp_deploy_agent.Prelude.Text.{◌⊕◌, decimal_port}
use xjp_deploy_agent.HashMap
use xjp_deploy_agent.HashMap.{HashMap}
use xjp_deploy_agent.Tunnel.{PortMapping}
use xjp_deploy_agent.Tunnel.Server.{ClientState, TunnelServerState}

pub data EndpointSource : Type 0 where
  local tunnel lan_peer mesh config fallback : EndpointSource

unfoldable pub priority : EndpointSource → ℕ
priority local = 0
priority tunnel = 5
priority lan_peer = 10
priority mesh = 20
priority config = 30
priority fallback = 100

pub record ServiceEndpoint : Type 0 where
  pub url : String
  pub source : EndpointSource
  pub healthy : Bool

pub record CachedEndpoint : Type 0 where
  pub endpoint : ServiceEndpoint
  pub cached_at : ℕ

-- What the router asks: its configuration, the clients of the tunnel server, if there is one, and
-- the answers of the discovery and the mesh at the moment.
pub record Sources : Type 0 where
  pub local_services : HashMap String String
  pub tunnel_server_state : Option TunnelServerState
  pub lan_url : String → Option String
  pub lan_healthy : String → Bool
  pub mesh_url : String → Option String
  pub configured_endpoints : HashMap String String
  pub fallback_endpoints : HashMap String String

abbrev pub EndpointCache : Type 0
EndpointCache = HashMap String CachedEndpoint

unfoldable pub tunnel_url : ℕ → String
tunnel_url port = "http://localhost:" ⊕ decimal_port port

-- The ports of the mappings with the service's name, of one client and of all.
unfoldable pub mapped_ports : String → List PortMapping → List ℕ
mapped_ports service_id [] = []
mapped_ports service_id (mapping ∷ mappings) =
    let rest = mapped_ports service_id mappings in
    if mapping.name == service_id then mapping.remote_port ∷ rest else rest

unfoldable pub tunnel_ports : String → HashMap String ClientState → List ℕ
tunnel_ports service_id [] = []
tunnel_ports service_id ((client_id, client) ∷ clients) =
    mapped_ports service_id client.mappings ++ tunnel_ports service_id clients

unfoldable pub first : List ℕ → Option ℕ
first [] = none
first (port ∷ ports) = some port

-- The first port that the two loops find.
unfoldable pub tunnel_port : Sources → String → Option ℕ
tunnel_port s service_id = elim s.tunnel_server_state [
  | none ↦ none
  | some state ↦ first (tunnel_ports service_id state.clients)
]

abbrev pub found : String → EndpointSource → ServiceEndpoint
found url source = record { url = url; source = source; healthy = true }

-- The choice, for what the local services, the tunnel, the discovery, the mesh, the configuration
-- and the fallbacks answer.
unfoldable pub choose :
    Option String
    → Option ℕ
    → Option String
    → Bool
    → Option String
    → Option String
    → Option String
    → ServiceEndpoint
choose (some url) port lan healthy by_mesh configured back = found url local
choose none (some port) lan healthy by_mesh configured back = found (tunnel_url port) tunnel
choose none none (some url) true by_mesh configured back = found url lan_peer
choose none none lan healthy (some url) configured back = found url mesh
choose none none lan healthy none (some url) back = found url config
choose none none lan healthy none none (some url) = found url fallback
choose none none lan healthy none none none = record {
  url = "";
  source = fallback;
  healthy = false;
}

unfoldable pub resolve_endpoint : Sources → String → ServiceEndpoint
resolve_endpoint s service_id =
    choose (HashMap.get s.local_services service_id) (tunnel_port s service_id)
      (s.lan_url service_id) (s.lan_healthy service_id) (s.mesh_url service_id)
      (HashMap.get s.configured_endpoints service_id) (HashMap.get s.fallback_endpoints service_id)

-- An endpoint that was cached less than thirty seconds ago.
unfoldable pub fresh : EndpointCache → String → ℕ → Option ServiceEndpoint
fresh cache service_id now = elim (HashMap.get cache service_id) [
  | none ↦ none
  | some c ↦ if ltb ((now - c.cached_at) / 1000) 30 then some c.endpoint else none
]

unfoldable pub get_endpoint : Sources → EndpointCache → String → ℕ → EndpointCache × ServiceEndpoint
get_endpoint s cache service_id now =
    let endpoint = resolve_endpoint s service_id in
    elim (fresh cache service_id now) [
      | some cached ↦ (cache, cached)
      | none ↦ (
        HashMap.insert cache service_id (record { endpoint = endpoint; cached_at = now }),
        endpoint,
      )
    ]

unfoldable pub get_url_or : Sources → EndpointCache → String → ℕ → String → EndpointCache × String
get_url_or s cache service_id now default =
    let (cache', endpoint) = get_endpoint s cache service_id now in
    (cache', if endpoint.url == "" then default else endpoint.url)

unfoldable pub clear_cache : EndpointCache → EndpointCache
clear_cache cache = []
