-- ===== src/Lan/Broadcast.antt =====
-- src/services/lan_discovery/mod.rs: what an agent learns from the broadcast of another.
use xjp_deploy_agent.Prelude.{
  length, take_all, map_option, unwrap_or, ◌==◌, nat_eq, string_eq, beq_refl, All, All-imp, ℕ, ◌≤◌,
  ◌<◌, String, ◌≡◌, refl, ap, ◌∙◌, true, false, Option, none, some, List, [], ◌∷◌, arith, eq_iff,
}
use xjp_deploy_agent.HashMap
use xjp_deploy_agent.HashMap.{get, contains_key}
use xjp_deploy_agent.HashMap.Laws.{contains_key-get, get-insert}
use xjp_deploy_agent.Lan.{
  LocalService, Services, DiscoveredPeer, DiscoveryPacket, LanDiscovery, Peers, Probe, url_of,
  peer_service_url, services_of, build_discovery_packet, verify_peer, has_magic, handle_discovery,
  buffer_size, receive, offers_service, updated, new_peer,
}
use xjp_deploy_agent.Lan.Discovery.{seen, get-handle_discovery}

services_of-keeps :
    (ss : List LocalService) (found : Services) (id : String)
    → contains_key found id ≡ true
    → contains_key (services_of ss found) id ≡ true
unfolding services_of
services_of-keeps [] found id h = h
services_of-keeps (s ∷ ss) found id h =
    services_of-keeps ss (HashMap.insert found s.service_id s) id (
      ground (
        arith,
        contains_key-get found id,
        contains_key-get (HashMap.insert found s.service_id s) id,
        get-insert found s.service_id id s,
      ))

services_of-serves :
    (ss : List LocalService) (found : Services)
    → All (λ s. contains_key (services_of ss found) s.service_id ≡ true) ss
unfolding services_of
services_of-serves [] found = tt
services_of-serves (s ∷ ss) found =
    let next = HashMap.insert found s.service_id s in
    (
      services_of-keeps ss next s.service_id (
          ground (
            arith,
            contains_key-get next s.service_id,
            get-insert found s.service_id s.service_id s,
            eq_iff s.service_id s.service_id,
          )),
      services_of-serves ss next,
    )

offers-of :
    (p : DiscoveredPeer) (service_id : String)
    → p.healthy ≡ true
    → contains_key p.services service_id ≡ true
    → offers_service service_id p ≡ true
unfolding offers_service
offers-of p service_id healthy has = ground (arith, healthy, has)

module _ (deserialize : List ℕ → Option DiscoveryPacket) (probe : Probe) where
  receive-packet :
      (b : LanDiscovery) (datagram : List ℕ) (packet : DiscoveryPacket) (now : ℕ)
      → length datagram ≤ buffer_size
      → has_magic datagram ≡ true
      → deserialize datagram ≡ some packet
      → (packet.agent_id == b.config.agent_id) ≡ false
      → get (receive deserialize probe b datagram now).discovered_peers packet.agent_id
        ≡ some (seen probe packet now (get b.discovered_peers packet.agent_id))
  unfolding receive
  receive-packet b datagram packet now fits magic e other =
      rw (take_all buffer_size datagram fits, magic, receive, e, other)
        (get-handle_discovery probe b.discovered_peers packet now packet.agent_id
          ∙ rw (beq_refl packet.agent_id) refl)

seen-Serves :
    (probe : Probe) (packet : DiscoveryPacket) (now status elapsed : ℕ)
    (known : Option DiscoveredPeer)
    → probe packet.lan_ip packet.api_port ≡ some (status, elapsed)
    → 200 ≤ status
    → status < 300
    → ((seen probe packet now known).healthy ≡ true)
      × ((seen probe packet now known).services ≡ packet.services)
      × ((seen probe packet now known).last_seen ≡ now)
unfolding updated new_peer verify_peer
seen-Serves probe packet now status elapsed none e low high = (ground (arith, e), refl, refl)
seen-Serves probe packet now status elapsed (some p) e low high = (ground (arith, e), refl, refl)

-- When the broadcast of the agent `a` reaches an agent `b` with another id, and the health request to
-- the address in it is answered with success, and the packet fits into the buffer of 4096 bytes, `b` knows `a` as seen now and as a healthy provider of
-- each of the services in the configuration of `a`. bincode is taken to read the packet back as it
-- wrote it, and to write the four bytes of the magic number first.
pub receive-broadcast :
    (serialize : DiscoveryPacket → List ℕ) (deserialize : List ℕ → Option DiscoveryPacket)
    (probe : Probe) (a b : LanDiscovery) (sent now status elapsed : ℕ)
    → deserialize (serialize (build_discovery_packet a sent)) ≡ some (build_discovery_packet a sent)
    → has_magic (serialize (build_discovery_packet a sent)) ≡ true
    → length (serialize (build_discovery_packet a sent)) ≤ buffer_size
    → (a.config.agent_id == b.config.agent_id) ≡ false
    → probe (unwrap_or a.local_ip "0.0.0.0") a.config.api_port ≡ some (status, elapsed)
    → 200 ≤ status
    → status < 300
    → let datagram = serialize (build_discovery_packet a sent) in
      (p : DiscoveredPeer) × (get
          (receive deserialize probe b datagram now).discovered_peers
          a.config.agent_id
        ≡ some p)
      × (p.last_seen ≡ now)
      × All (λ s. offers_service s.service_id p ≡ true) a.config.local_services
unfolding build_discovery_packet offers_service
receive-broadcast serialize deserialize probe a b sent now status elapsed reads first fits other
      answer low high =
    let packet = build_discovery_packet a sent in
    let p = seen probe packet now (get b.discovered_peers a.config.agent_id) in
    let (healthy, served, at) =
      seen-Serves probe packet now status elapsed (get b.discovered_peers a.config.agent_id) answer
        low high in
    (
      p,
      receive-packet deserialize probe b (serialize packet) packet now fits first reads other,
      at,
      All-imp
          (λ s h.
            offers-of p s.service_id healthy (ap (λ ss. contains_key ss s.service_id) served ∙ h))
          a.config.local_services (services_of-serves a.config.local_services []),
    )

-- A known peer keeps its address and its port when its packet names others: it counts as healthy by
-- the answer of the new address, and its services are sought at the old one.
pub handle_discovery-moved :
    (probe : Probe) (peers : Peers) (packet : DiscoveryPacket) (now : ℕ) (existing : DiscoveredPeer)
    (service_id : String)
    → get peers packet.agent_id ≡ some existing
    → (p : DiscoveredPeer) × (get (handle_discovery probe peers packet now) packet.agent_id
        ≡ some p)
      × (p.healthy ≡ (verify_peer probe packet.lan_ip packet.api_port).0)
      × (p.api_port ≡ existing.api_port)
      × (peer_service_url p service_id
          ≡ map_option
              (λ svc. url_of svc.protocol existing.lan_ip svc.port)
              (get packet.services service_id))
unfolding updated peer_service_url
handle_discovery-moved probe peers packet now existing service_id known =
    let verified = verify_peer probe packet.lan_ip packet.api_port in
    (
      updated packet verified now existing,
      get-handle_discovery probe peers packet now packet.agent_id
          ∙ rw (beq_refl packet.agent_id, known) refl,
      refl,
      refl,
      refl,
    )
