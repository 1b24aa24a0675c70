-- ===== src/Lan/Tests.antt =====
-- The theorems on the discovery at concrete inputs.
use mathlib.Core.List.{Memᴰ}
use xjp_deploy_agent.Prelude.{
  nat_eq, string_eq, ℕ, String, ◌≡◌, refl, true, false, Option, none, some, List, [], ◌∷◌, arith,
}
use xjp_deploy_agent.Prelude.Text.{split, parse_uint, parse_digits, parsed}
use xjp_deploy_agent.HashMap
use xjp_deploy_agent.HashMap.{values}
use xjp_deploy_agent.Lan.{
  LocalService, DiscoveredPeer, DiscoveryPacket, LanDiscovery, LanDiscoveryConfig, Probe, url_of,
  offers_service, is_slower, get_service_provider, receive, has_magic, build_discovery_packet, new,
  broadcast_magic,
}
use xjp_deploy_agent.Lan.Address.{is_private_ip, is_private}
use xjp_deploy_agent.Lan.Discovery.{IsValid, arrives, cleans_up, run, run-new-IsValid}
use xjp_deploy_agent.Lan.Provider.{IsProvider, get_service_provider_lem}
use xjp_deploy_agent.Lan.Routing.{with_lan, resolve_endpoint-with_lan}
use xjp_deploy_agent.Lan.Broadcast.{receive-broadcast}
use xjp_deploy_agent.Router.{Sources, tunnel_port, resolve_endpoint, found, lan_peer}

abbrev store : LocalService
store = record { service_id = "store"; port = 9000; protocol = "http"; health_path = none }

abbrev config_of : String → LanDiscoveryConfig
config_of id = record {
  enabled = true;
  broadcast_port = 19998;
  agent_id = id;
  api_port = 9876;
  local_services = store ∷ [];
  capabilities = [];
}

abbrev slow : DiscoveredPeer
slow = record {
  agent_id = "slow";
  lan_ip = "10.0.0.2";
  api_port = 9876;
  capabilities = [];
  services = ("store", store) ∷ [];
  discovered_at = 0;
  last_seen = 0;
  healthy = true;
  latency_ms = some 7;
}

abbrev with_slow : LanDiscovery
with_slow = record (new (config_of "b") none) { discovered_peers = ("slow", slow) ∷ [] }

abbrev moved : DiscoveryPacket
moved = record {
  magic = broadcast_magic;
  version = 1;
  agent_id = "slow";
  lan_ip = "10.0.0.9";
  api_port = 9876;
  capabilities = [];
  services = ("store", store) ∷ [];
  timestamp = 1;
}

abbrev always : Probe
always ip port = some (200, 3)

abbrev no_sources : Sources
no_sources = record {
  local_services = [];
  tunnel_server_state = none;
  lan_url = λ id. none;
  lan_healthy = λ id. false;
  mesh_url = λ id. none;
  configured_endpoints = [];
  fallback_endpoints = [];
}

private_run : is_private_ip "172.16.0.1" ≡ true
unfolding is_private_ip is_private parsed split parse_uint parse_digits
private_run = refl

public_run : is_private_ip "8.8.8.8" ≡ false
unfolding is_private_ip is_private parsed split parse_uint parse_digits
public_run = refl

run-new-IsValid_example : IsValid (
    run
      (λ bytes. some moved)
      always
      (new (config_of "b") none)
      ((0, arrives broadcast_magic) ∷ (130000, cleans_up) ∷ []))
run-new-IsValid_example =
    run-new-IsValid (λ bytes. some moved) always (config_of "b") none
      ((0, arrives broadcast_magic) ∷ (130000, cleans_up) ∷ [])

get_service_provider_lem_example :
    IsProvider "store" (values with_slow.discovered_peers) (get_service_provider with_slow "store")
get_service_provider_lem_example = get_service_provider_lem with_slow "store"

resolve_endpoint-with_lan_example :
    (p : DiscoveredPeer) × (svc : LocalService) × Memᴰ p (values with_slow.discovered_peers)
    × (p.healthy ≡ true)
    × (HashMap.get p.services "store" ≡ some svc)
    × (is_slower p.latency_ms (some 7) ≡ false)
    × (resolve_endpoint (with_lan no_sources with_slow) "store"
        ≡ found (url_of svc.protocol p.lan_ip svc.port) lan_peer)
unfolding HashMap.get HashMap.contains_key tunnel_port new offers_service
resolve_endpoint-with_lan_example =
    resolve_endpoint-with_lan no_sources with_slow "store" slow refl refl refl (Memᴰ.head refl) refl

abbrev agent : String → LanDiscovery
agent id = new (config_of id) (some "10.0.0.1")

-- Stands for bincode: it writes the magic number alone, which suffices for one packet.
abbrev write : DiscoveryPacket → List ℕ
write packet = packet.magic

abbrev read : List ℕ → Option DiscoveryPacket
read bytes = some (build_discovery_packet (agent "a") 5000)

receive-broadcast_example :
    (p : DiscoveredPeer) × (HashMap.get
        (receive read always (agent "b") broadcast_magic 5001).discovered_peers
        "a"
      ≡ some p)
    × (p.last_seen ≡ 5001)
    × ((offers_service "store" p ≡ true) × Unit {0})
unfolding build_discovery_packet has_magic new
receive-broadcast_example =
    receive-broadcast write read always (agent "a") (agent "b") 5000 5001 200 3 refl refl
      (omega arith) refl refl (omega arith) (omega arith)
