-- ===== src/Lan/Discovery.antt =====
-- src/services/lan_discovery/mod.rs: what the packets of the peers and the cleanup do to the peers
-- that are known.
use xjp_deploy_agent.Prelude.{
  take, leb, if◌then◌else◌, Bool-cases, Option-cases, filter_option, ◌==◌, nat_eq, string_eq, all,
  ℕ, ◌-◌, String, ◌≡◌, refl, inl, inr, false, Option, none, some, List, [], ◌∷◌, arith, eq_iff,
}
use xjp_deploy_agent.HashMap.{get}
use xjp_deploy_agent.HashMap.Laws.{get-insert, get-modify}
use xjp_deploy_agent.HashMap.Keys.{
  HasDistinctKeys, insert-HasDistinctKeys, modify-HasDistinctKeys, retain_entries-HasDistinctKeys,
  get-retain_entries,
}
use xjp_deploy_agent.HashMap.Entries.{
  Entries, insert-Entries, modify-Entries, retain_entries-Entries,
}
use xjp_deploy_agent.Lan.{
  DiscoveredPeer, DiscoveryPacket, LanDiscovery, LanDiscoveryConfig, Peers, Probe, new, new_peer,
  updated, verify_peer, handle_discovery, has_magic, buffer_size, receive, is_alive, cleanup,
}

-- The peer that a packet makes of what was known of its sender.
abbrev pub seen : Probe → DiscoveryPacket → (now : ℕ) → Option DiscoveredPeer → DiscoveredPeer
seen probe packet now none = new_peer packet (verify_peer probe packet.lan_ip packet.api_port) now
seen probe packet now (some existing) =
    updated packet (verify_peer probe packet.lan_ip packet.api_port) now existing

pub get-handle_discovery :
    (probe : Probe) (peers : Peers) (packet : DiscoveryPacket) (now : ℕ) (id : String)
    → get (handle_discovery probe peers packet now) id ≡ (
        if packet.agent_id == id
        then some (seen probe packet now (get peers packet.agent_id))
        else get peers id)
unfolding handle_discovery
get-handle_discovery probe peers packet now id =
    let verified = verify_peer probe packet.lan_ip packet.api_port in
    elim (Option-cases (get peers packet.agent_id)) [
      | inl unknown ↦
          rw (unknown, handle_discovery)
            (get-insert peers packet.agent_id id (new_peer packet verified now))
      | inr known ↦ ground (
        arith,
        known.1,
        eq_iff packet.agent_id id,
        get-modify peers packet.agent_id id (updated packet verified now),
      )
    ]

-- What stands of a peer in the map: it is filed under its own id, and that is another agent's.
abbrev pub IsPeerOf : String → String → DiscoveredPeer → Type 0
IsPeerOf own id peer = (peer.agent_id ≡ id) × ((own == id) ≡ false)

pub record IsValid (d : LanDiscovery) : Type 0 where
  pub distinct : HasDistinctKeys d.discovered_peers
  pub foreign : Entries (IsPeerOf d.config.agent_id) d.discovered_peers

-- What the loops do: a datagram arrives, or the cleanup runs.
pub data Event : Type 0 where
  arrives : List ℕ → Event
  cleans_up : Event

module _ (deserialize : List ℕ → Option DiscoveryPacket) (probe : Probe) where
  unfoldable pub step : LanDiscovery → ℕ × Event → LanDiscovery
  step d (now, arrives datagram) = receive deserialize probe d datagram now
  step d (now, cleans_up) = cleanup d now

  unfoldable pub run : LanDiscovery → List (ℕ × Event) → LanDiscovery
  run d [] = d
  run d (e ∷ es) = run (step d e) es

handle_discovery-HasDistinctKeys :
    (probe : Probe) (peers : Peers) (packet : DiscoveryPacket) (now : ℕ)
    → HasDistinctKeys peers
    → HasDistinctKeys (handle_discovery probe peers packet now)
unfolding handle_discovery
handle_discovery-HasDistinctKeys probe peers packet now d =
    let verified = verify_peer probe packet.lan_ip packet.api_port in
    elim (Option-cases (get peers packet.agent_id)) [
      | inl unknown ↦
          rw (unknown, handle_discovery)
            (insert-HasDistinctKeys peers packet.agent_id (new_peer packet verified now) d)
      | inr known ↦
          rw (known.1, handle_discovery)
            (modify-HasDistinctKeys peers packet.agent_id (updated packet verified now) d)
    ]

handle_discovery-Entries :
    (own : String) (probe : Probe) (peers : Peers) (packet : DiscoveryPacket) (now : ℕ)
    → (packet.agent_id == own) ≡ false
    → Entries (IsPeerOf own) peers
    → Entries (IsPeerOf own) (handle_discovery probe peers packet now)
unfolding handle_discovery new_peer updated
handle_discovery-Entries own probe peers packet now other all =
    let verified = verify_peer probe packet.lan_ip packet.api_port in
    elim (Option-cases (get peers packet.agent_id)) [
      | inl unknown ↦
          rw (unknown, handle_discovery)
            (insert-Entries (IsPeerOf own) peers packet.agent_id (new_peer packet verified now)
              (refl, ground (arith, eq_iff packet.agent_id own, eq_iff own packet.agent_id)) all)
      | inr known ↦
          rw (known.1, handle_discovery)
            (modify-Entries (IsPeerOf own) peers packet.agent_id (updated packet verified now)
              (λ id peer p. p) all)
    ]

receive-IsValid :
    (deserialize : List ℕ → Option DiscoveryPacket) (probe : Probe) (d : LanDiscovery)
    (datagram : List ℕ) (now : ℕ)
    → IsValid d
    → IsValid (receive deserialize probe d datagram now)
unfolding receive
receive-IsValid deserialize probe d datagram now v =
    elim (Bool-cases (has_magic (take buffer_size datagram))) [
      | inr foreign ↦ rw (foreign, receive) v
      | inl ours ↦ elim (Option-cases (deserialize (take buffer_size datagram))) [
        | inl garbled ↦ rw (ours, receive, garbled) v
        | inr (packet, e) ↦ elim (Bool-cases (packet.agent_id == d.config.agent_id)) [
          | inl own ↦ rw (ours, receive, e, own) v
          | inr other ↦
              rw (ours, receive, e, other)
                (record {
                  distinct =
                      handle_discovery-HasDistinctKeys probe d.discovered_peers packet now
                        v.distinct;
                  foreign =
                      handle_discovery-Entries d.config.agent_id probe d.discovered_peers packet now
                        other v.foreign;
                })
        ]
      ]
    ]

step-IsValid :
    (deserialize : List ℕ → Option DiscoveryPacket) (probe : Probe) (d : LanDiscovery)
    (e : ℕ × Event)
    → IsValid d
    → IsValid (step deserialize probe d e)
unfolding step cleanup
step-IsValid deserialize probe d (now, arrives datagram) v =
    receive-IsValid deserialize probe d datagram now v
step-IsValid deserialize probe d (now, cleans_up) v = record {
  distinct = retain_entries-HasDistinctKeys d.discovered_peers (is_alive now) v.distinct;
  foreign =
      retain_entries-Entries (IsPeerOf d.config.agent_id) d.discovered_peers (is_alive now)
        v.foreign;
}

run_from-IsValid :
    (deserialize : List ℕ → Option DiscoveryPacket) (probe : Probe) (d : LanDiscovery)
    (es : List (ℕ × Event))
    → IsValid d
    → IsValid (run deserialize probe d es)
unfolding run
run_from-IsValid deserialize probe d [] v = v
run_from-IsValid deserialize probe d (e ∷ es) v =
    run_from-IsValid deserialize probe (step deserialize probe d e) es
      (step-IsValid deserialize probe d e v)

-- Whatever datagrams arrive and whenever the cleanup runs, each known peer is filed once, under its
-- own id, and the agent itself is never among them.
pub run-new-IsValid :
    (deserialize : List ℕ → Option DiscoveryPacket) (probe : Probe) (config : LanDiscoveryConfig)
    (local_ip : Option String) (es : List (ℕ × Event))
    → IsValid (run deserialize probe (new config local_ip) es)
unfolding new
run-new-IsValid deserialize probe config local_ip es =
    run_from-IsValid deserialize probe (new config local_ip) es
      (record { distinct = tt; foreign = tt })

-- The cleanup of a valid state removes exactly the peers whose last packet is more than 120 seconds
-- old, and changes no other.
pub get-cleanup :
    (d : LanDiscovery) (now : ℕ) (id : String)
    → IsValid d
    → get (cleanup d now).discovered_peers id
      ≡ filter_option (λ peer. leb (now - peer.last_seen) 120000) (get d.discovered_peers id)
unfolding cleanup is_alive
get-cleanup d now id v = get-retain_entries d.discovered_peers (is_alive now) id v.distinct
