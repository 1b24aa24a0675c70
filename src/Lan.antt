-- ===== src/Lan.antt =====
-- src/services/lan_discovery/mod.rs: the agents that find each other by broadcasts in a local
-- network, and the choice of the one that serves a service. bincode and the health request of a peer
-- are parameters; a latency is the whole nanoseconds that were measured, in whose order the
-- milliseconds stand. The sockets and the local address's discovery are left out.
pub mod Address
pub mod Broadcast
pub mod Discovery
pub mod Provider
pub mod Routing
mod Tests
use xjp_deploy_agent.Prelude.{
  take, ltb, leb, nat_beq, if◌then◌else◌, map_option, unwrap_or, ◌==◌, nat_eq, string_eq, retain,
  length, ℕ, ◌+◌, ◌-◌, ◌*◌, ◌/◌, String, Bool, true, false, ◌&&◌, Option, none, some, List, [], ◌∷◌,
}
use xjp_deploy_agent.Prelude.Text.{◌⊕◌, decimal_port}
use xjp_deploy_agent.HashMap
use xjp_deploy_agent.HashMap.{HashMap, values, len}

pub record LocalService : Type 0 where
  pub service_id : String
  pub port : ℕ
  pub protocol : String
  pub health_path : Option String

abbrev pub Services : Type 0
Services = HashMap String LocalService

pub record LanDiscoveryConfig : Type 0 where
  pub enabled : Bool
  pub broadcast_port : ℕ
  pub agent_id : String
  pub api_port : ℕ
  pub local_services : List LocalService
  pub capabilities : List String

pub record DiscoveryPacket : Type 0 where
  pub magic : List ℕ
  pub version : ℕ
  pub agent_id : String
  pub lan_ip : String
  pub api_port : ℕ
  pub capabilities : List String
  pub services : Services
  pub timestamp : ℕ

pub record DiscoveredPeer : Type 0 where
  pub agent_id : String
  pub lan_ip : String
  pub api_port : ℕ
  pub capabilities : List String
  pub services : Services
  pub discovered_at : ℕ
  pub last_seen : ℕ
  pub healthy : Bool
  pub latency_ms : Option ℕ

abbrev pub Peers : Type 0
Peers = HashMap String DiscoveredPeer

pub record LanDiscovery : Type 0 where
  pub config : LanDiscoveryConfig
  pub discovered_peers : Peers
  pub local_ip : Option String

-- The text of a whole URL, for a protocol, a host and a port.
unfoldable pub url_of : (protocol host : String) → ℕ → String
url_of protocol host port = protocol ⊕ ("://" ⊕ (host ⊕ (":" ⊕ decimal_port port)))

unfoldable pub peer_service_url : DiscoveredPeer → String → Option String
peer_service_url peer service_id =
    map_option (λ svc. url_of svc.protocol peer.lan_ip svc.port)
      (HashMap.get peer.services service_id)

unfoldable pub api_url : DiscoveredPeer → String
api_url peer = url_of "http" peer.lan_ip peer.api_port

unfoldable pub new : LanDiscoveryConfig → Option String → LanDiscovery
new config local_ip = record { config = config; discovered_peers = []; local_ip = local_ip }

-- The bytes of "XJPA".
abbrev pub broadcast_magic : List ℕ
broadcast_magic = 88 ∷ 74 ∷ 80 ∷ 65 ∷ []

abbrev pub peer_timeout : ℕ
peer_timeout = 120 * 1000

-- A later service with the same id replaces an earlier one.
unfoldable pub services_of : List LocalService → Services → Services
services_of [] found = found
services_of (s ∷ ss) found = services_of ss (HashMap.insert found s.service_id s)

unfoldable pub build_discovery_packet : LanDiscovery → (now : ℕ) → DiscoveryPacket
build_discovery_packet d now = record {
  magic = broadcast_magic;
  version = 1;
  agent_id = d.config.agent_id;
  lan_ip = unwrap_or d.local_ip "0.0.0.0";
  api_port = d.config.api_port;
  capabilities = d.config.capabilities;
  services = services_of d.config.local_services [];
  timestamp = now / 1000;
}

-- The answer to a request for `/health`: its status and the time it took, or none.
abbrev pub Probe : Type 0
Probe = String → ℕ → Option (ℕ × ℕ)

unfoldable pub verify_peer : Probe → (ip : String) → (port : ℕ) → Bool × Option ℕ
verify_peer probe ip port = elim (probe ip port) [
  | none ↦ (false, none)
  | some response ↦ (leb 200 response.0 && ltb response.0 300, some response.1)
]

unfoldable pub new_peer : DiscoveryPacket → Bool × Option ℕ → (now : ℕ) → DiscoveredPeer
new_peer packet verified now = record {
  agent_id = packet.agent_id;
  lan_ip = packet.lan_ip;
  api_port = packet.api_port;
  capabilities = packet.capabilities;
  services = packet.services;
  discovered_at = now;
  last_seen = now;
  healthy = verified.0;
  latency_ms = verified.1;
}

-- The fields that a further packet of a known peer sets.
unfoldable pub updated :
    DiscoveryPacket → Bool × Option ℕ → (now : ℕ) → DiscoveredPeer → DiscoveredPeer
updated packet verified now existing = record existing {
  last_seen = now;
  healthy = verified.0;
  latency_ms = verified.1;
  services = packet.services;
  capabilities = packet.capabilities;
}

unfoldable pub handle_discovery : Probe → Peers → DiscoveryPacket → (now : ℕ) → Peers
handle_discovery probe peers packet now =
    let verified = verify_peer probe packet.lan_ip packet.api_port in
    elim (HashMap.get peers packet.agent_id) [
      | some existing ↦ HashMap.modify peers packet.agent_id (updated packet verified now)
      | none ↦ HashMap.insert peers packet.agent_id (new_peer packet verified now)
    ]

-- The first test of a datagram.
unfoldable pub has_magic : List ℕ → Bool
has_magic (a ∷ b ∷ c ∷ d ∷ rest) = nat_beq a 88 && nat_beq b 74 && nat_beq c 80 && nat_beq d 65
has_magic bytes = false

abbrev pub buffer_size : ℕ
buffer_size = 4096

-- One round of `receive_loop`, for a datagram whose bytes in the buffer `deserialize` reads or not.
-- The system cuts a longer one off, or reports an error, and then nothing is received.
unfoldable pub receive :
    (deserialize : List ℕ → Option DiscoveryPacket)
    → Probe
    → LanDiscovery
    → (datagram : List ℕ) → (now : ℕ) → LanDiscovery
receive deserialize probe d datagram now =
    let received = take buffer_size datagram in
    if has_magic received
    then (elim (deserialize received) [
      | none ↦ d
      | some packet ↦
          if packet.agent_id == d.config.agent_id
          then d
          else record d { discovered_peers = handle_discovery probe d.discovered_peers packet now }
    ])
    else d

unfoldable pub is_alive : (now : ℕ) → String → DiscoveredPeer → Bool
is_alive now id peer = leb (now - peer.last_seen) peer_timeout

-- One round of `cleanup_loop`.
unfoldable pub cleanup : LanDiscovery → (now : ℕ) → LanDiscovery
cleanup d now = record d {
  discovered_peers = HashMap.retain_entries (is_alive now) d.discovered_peers;
}

unfoldable pub get_peers : LanDiscovery → List DiscoveredPeer
get_peers d = values d.discovered_peers

unfoldable pub get_healthy_peers : LanDiscovery → List DiscoveredPeer
get_healthy_peers d = retain (λ p. p.healthy) (values d.discovered_peers)

unfoldable pub offers_service : String → DiscoveredPeer → Bool
offers_service service_id p = p.healthy && HashMap.contains_key p.services service_id

-- `a` is slower than `b`, where a missing latency is `f64::MAX`.
unfoldable pub is_slower : Option ℕ → Option ℕ → Bool
is_slower none none = false
is_slower none (some b) = true
is_slower (some a) none = false
is_slower (some a) (some b) = ltb b a

-- `Iterator::min_by`, which keeps the first of several least ones.
unfoldable pub fastest : DiscoveredPeer → List DiscoveredPeer → DiscoveredPeer
fastest best [] = best
fastest best (p ∷ ps) = fastest (if is_slower best.latency_ms p.latency_ms then p else best) ps

unfoldable pub min_by_latency : List DiscoveredPeer → Option DiscoveredPeer
min_by_latency [] = none
min_by_latency (p ∷ ps) = some (fastest p ps)

unfoldable pub get_service_provider : LanDiscovery → String → Option DiscoveredPeer
get_service_provider d service_id =
    min_by_latency (retain (offers_service service_id) (values d.discovered_peers))

unfoldable pub get_service_url : LanDiscovery → String → Option String
get_service_url d service_id = elim (get_service_provider d service_id) [
  | none ↦ none
  | some peer ↦ peer_service_url peer service_id
]

pub record LanDiscoveryStats : Type 0 where
  pub enabled : Bool
  pub local_ip : Option String
  pub agent_id : String
  pub broadcast_port : ℕ
  pub total_peers : ℕ
  pub healthy_peers : ℕ
  pub total_services : ℕ
  pub local_services : ℕ

unfoldable pub count_services : List DiscoveredPeer → ℕ
count_services [] = 0
count_services (p ∷ ps) = len p.services + count_services ps

unfoldable pub get_stats : LanDiscovery → LanDiscoveryStats
get_stats d = record {
  enabled = d.config.enabled;
  local_ip = d.local_ip;
  agent_id = d.config.agent_id;
  broadcast_port = d.config.broadcast_port;
  total_peers = len d.discovered_peers;
  healthy_peers = length (get_healthy_peers d);
  total_services = count_services (values d.discovered_peers);
  local_services = length d.config.local_services;
}
