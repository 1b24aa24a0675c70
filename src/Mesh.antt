-- ===== src/Mesh.antt =====
-- src/services/mesh.rs: the client of the mesh registry. The answers of the registry, their reading as
-- JSON, the clock, the environment and the host's name are given; the measured times, which are
-- floating-point numbers, are left out.
pub mod Cache
pub mod Services
mod Tests
use xjp_deploy_agent.Prelude.{
  ltb, if◌then◌else◌, map_option, unwrap_or, filter_option, ◌==◌, nat_eq, string_eq, any, ℕ, ◌+◌,
  ◌-◌, ◌/◌, String, Bool, true, not, ◌||◌, Option, none, some, List, [], ◌∷◌, ◌++◌,
}
use xjp_deploy_agent.Prelude.Text.{◌⊕◌, split, parse_uint, parsed}
use xjp_deploy_agent.HashMap
use xjp_deploy_agent.HashMap.{HashMap}
use xjp_deploy_agent.Project.Load.{Env}
use xjp_deploy_agent.Http.{Answer, request_failed, answered, is_success}
use xjp_deploy_agent.Lan.Address.{is_private}
use xjp_deploy_agent.Prelude.Int.{ℤ, pos}

pub record LocalServiceConfig : Type 0 where
  pub service_id : String
  pub local_url : String
  pub health_check_url : Option String

pub record MeshConfig : Type 0 where
  pub registry_url : String
  pub api_key : String
  pub agent_id : String
  pub agent_name : Option String
  pub local_services : List LocalServiceConfig
  pub heartbeat_interval_secs : ℕ
  pub enabled : Bool

-- `parts.join(":")`
unfoldable pub join : List String → String
join [] = ""
join (part ∷ []) = part
join (part ∷ next ∷ parts) = part ⊕ (String.◌∷◌ ":" (join (next ∷ parts)))

-- An item has at least two parts.
unfoldable pub service_of : List String → Option LocalServiceConfig
service_of (id ∷ part ∷ parts) =
    some (record { service_id = id; local_url = join (part ∷ parts); health_check_url = none })
service_of parts = none

unfoldable pub services_of : List String → List LocalServiceConfig
services_of [] = []
services_of (item ∷ items) = elim (service_of (split 58 item)) [
  | none ↦ services_of items
  | some service ↦ service ∷ services_of items
]

unfoldable pub parse_local_services : String → List LocalServiceConfig
parse_local_services s = services_of (split 44 s)

abbrev or_else : Option String → Option String → Option String
or_else none other = other
or_else (some v) other = some v

unfoldable pub from_env : (hostname : Option String) → Env → Option MeshConfig
from_env hostname env =
    let flag = unwrap_or (HashMap.get env "MESH_ENABLED") "" in
    if not (flag == "true" || flag == "1")
    then none
    else map_option
        (λ registry_url. record {
          registry_url = registry_url;
          api_key =
              unwrap_or
                (or_else (HashMap.get env "MESH_API_KEY") (HashMap.get env "DEPLOY_AGENT_API_KEY"))
                "";
          agent_id =
              unwrap_or
                (or_else (HashMap.get env "MESH_AGENT_ID") (HashMap.get env "TUNNEL_CLIENT_ID"))
                (unwrap_or hostname "unknown");
          agent_name = HashMap.get env "MESH_AGENT_NAME";
          local_services =
              unwrap_or (map_option parse_local_services (HashMap.get env "MESH_LOCAL_SERVICES"))
                [];
          heartbeat_interval_secs = elim (HashMap.get env "MESH_HEARTBEAT_INTERVAL_SECS") [
            | none ↦ 60
            | some v ↦ unwrap_or (parse_uint 18446744073709551615 v) 60
          ];
          enabled = true;
        })
        (or_else (HashMap.get env "MESH_REGISTRY_URL")
          (HashMap.get env "DEPLOY_CENTER_CALLBACK_URL"))

pub record EndpointInfo : Type 0 where
  pub endpoint_id : String
  pub url : String
  pub zone_id : String
  pub zone_name : String
  pub zone_type : String
  pub protocol : String
  pub healthy : Bool

pub record ResolvedEndpoint : Type 0 where
  pub primary : EndpointInfo
  pub fallbacks : List EndpointInfo
  pub resolution_reason : String

pub record CachedEndpoint : Type 0 where
  pub endpoint : ResolvedEndpoint
  pub cached_at : ℕ

pub record MeshClient : Type 0 where
  pub config : MeshConfig
  pub cache : HashMap String CachedEndpoint
  pub detected_zone : Option String

unfoldable pub new : MeshConfig → MeshClient
new config = record { config = config; cache = []; detected_zone = none }

pub record NetworkInfo : Type 0 where
  pub lan_ip : Option String
  pub wan_ip : Option String
  pub capabilities : List String

unfoldable pub add_capabilities : List LocalServiceConfig → List String → List String
add_capabilities [] caps = caps
add_capabilities (svc ∷ services) caps =
    add_capabilities services
      (if any (λ c. c == svc.service_id) caps then caps else caps ++ svc.service_id ∷ [])

unfoldable pub detect_capabilities : MeshConfig → (has_docker : Bool) → List String
detect_capabilities config has_docker =
    let caps = add_capabilities config.local_services [] in
    if has_docker then caps ++ "docker" ∷ [] else caps

unfoldable pub is_private_ip : String → Bool
is_private_ip ip = is_private (parsed 255 (split 46 ip))

-- On Linux: the first word of what `hostname -I` prints, if it succeeds.
unfoldable pub get_local_ip : (first_word : Option String) → Option String
get_local_ip first_word = filter_option is_private_ip first_word

pub data Result {ℓ} (A : Type ℓ) : Type ℓ where
  ok : A → Result A
  err : String → Result A

pub record AgentRegistration : Type 0 where
  pub agent_id : String
  pub agent_name : Option String
  pub lan_ip : Option String
  pub wan_ip : Option String
  pub api_port : ℤ
  pub capabilities : List String
  pub local_services : List LocalServiceConfig

-- `port` is what the variable PORT is read as, an `i32`.
unfoldable pub registration : MeshConfig → NetworkInfo → (port : Option ℤ) → AgentRegistration
registration config info port = record {
  agent_id = config.agent_id;
  agent_name = config.agent_name;
  lan_ip = info.lan_ip;
  wan_ip = info.wan_ip;
  api_port = unwrap_or port (pos 9876);
  capabilities = info.capabilities;
  local_services = config.local_services;
}

-- How a body is read, an error of it, and how a status is written.
pub record Reading (A : Type 0) : Type 0 where
  pub read : String → Option A
  pub read_error : String → String
  pub status_text : ℕ → String

-- The body of a success, read.
unfoldable pub read_answer : {A : Type 0} → (what : String) → Reading A → Answer → Result A
read_answer what reading (request_failed e) = err e
read_answer what reading (answered code body) =
    if not (is_success code)
    then err (what ⊕ reading.status_text code ⊕ " - " ⊕ body)
    else elim (reading.read body) [ none ↦ err (reading.read_error body) | some a ↦ ok a ]

-- `register`: the zone in the answer, if it names one.
unfoldable pub register : Reading (Option String) → Answer → Result (Option String)
register reading answer = read_answer "Registration failed: " reading answer

-- `start`, with the error that it returns, if it does.
unfoldable pub start : MeshClient → Reading (Option String) → Answer → MeshClient × Option String
start c reading answer =
    if not c.config.enabled then (c, none) else elim (register reading answer) [
      | ok zone ↦ (record c { detected_zone = zone }, none)
      | err e ↦ (c, some e)
    ]

unfoldable pub send_heartbeat : (status_text : ℕ → String) → Answer → Option String
send_heartbeat status_text (request_failed e) = some e
send_heartbeat status_text (answered code body) =
    if is_success code then none else some ("Heartbeat failed: " ⊕ status_text code ⊕ " - " ⊕ body)

abbrev zone_param : Option String → String
zone_param none = ""
zone_param (some zone) = "&zone_id=" ⊕ zone

unfoldable pub resolve_url : MeshClient → (service_id : String) → String
resolve_url c service_id =
    c.config.registry_url
    ⊕ "/mesh/resolve/"
    ⊕ service_id
    ⊕ "?agent_id="
    ⊕ c.config.agent_id
    ⊕ zone_param c.detected_zone

-- The endpoint that was cached less than sixty seconds ago; times are milliseconds.
unfoldable pub fresh : HashMap String CachedEndpoint → String → (now : ℕ) → Option ResolvedEndpoint
fresh cache service_id now = elim (HashMap.get cache service_id) [
  | none ↦ none
  | some cached ↦ if ltb (now - cached.cached_at) 60000 then some cached.endpoint else none
]

unfoldable pub remember :
    MeshClient → (service_id : String) → (now : ℕ) → Result ResolvedEndpoint → MeshClient
remember c service_id now (err e) = c
remember c service_id now (ok endpoint) = record c {
  cache = HashMap.insert c.cache service_id (record { endpoint = endpoint; cached_at = now });
}

-- `resolve`, with the address of the request that it sends, if it does.
unfoldable pub resolve :
    Reading ResolvedEndpoint
    → MeshClient
    → (service_id : String) → (now : ℕ) → Answer
    → MeshClient × Result ResolvedEndpoint × Option String
resolve reading c service_id now answer =
    let result = read_answer ("Resolve failed for " ⊕ service_id ⊕ ": ") reading answer in
    elim (fresh c.cache service_id now) [
      | some endpoint ↦ (c, ok endpoint, none)
      | none ↦ (remember c service_id now result, result, some (resolve_url c service_id))
    ]

abbrev url_or : Result ResolvedEndpoint → String → String
url_or (ok endpoint) fallback = endpoint.primary.url
url_or (err e) fallback = fallback

unfoldable pub get_service_url_or :
    Reading ResolvedEndpoint
    → MeshClient
    → (service_id : String) → (now : ℕ) → Answer
    → (fallback : String) → MeshClient × String
get_service_url_or reading c service_id now answer fallback =
    let (c', result, sent) = resolve reading c service_id now answer in (c', url_or result fallback)

unfoldable pub clear_cache : MeshClient → MeshClient
clear_cache c = record c { cache = [] }
