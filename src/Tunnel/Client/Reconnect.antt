-- ===== src/Tunnel/Client/Reconnect.antt =====
-- src/services/tunnel/client.rs: the loop that connects anew.
use xjp_deploy_agent.Prelude.{
  nat_eq, string_eq, length, All, ℕ, ◌+◌, ◌%◌, ◌≡◌, refl, false, none, some, List, [], ◌∷◌, ◌++◌,
  arith,
}
use xjp_deploy_agent.Tunnel.{PortMapping}
use xjp_deploy_agent.Tunnel.Client.{TunnelClientState}
use xjp_deploy_agent.Tunnel.Client.Run.{
  Round, Ran, unconnected, cut, ended, LoopEnd, after_run, ends_loop, run_round, connect_rounds,
  start,
}

-- A round after which the client connects anew: the shutdown is not seen in it, and its run ends
-- neither by a shutdown nor by a takeover.
abbrev pub Reconnects : Round → Type 0
Reconnects r =
    (r.shut_before ≡ false)
    × (ends_loop r.ran ≡ none)
    × (r.shut_after ≡ false)
    × (r.shut_in_delay ≡ false)

reconnect_count-after_run :
    (ran : Ran) (now : ℕ) (s : TunnelClientState)
    → (after_run ran now s).reconnect_count ≡ s.reconnect_count
unfolding after_run
reconnect_count-after_run (unconnected error) now s = refl
reconnect_count-after_run (cut error) now s = refl
reconnect_count-after_run (ended result) now s = refl

run_round-Reconnects :
    (r : Round) (s : TunnelClientState)
    → Reconnects r
    → ((run_round r s).1 ≡ none)
      × ((run_round r s).0.reconnect_count ≡ (s.reconnect_count + 1) % 4294967296)
unfolding run_round
run_round-Reconnects r s (before, again, after, in_delay) =
    let e = reconnect_count-after_run r.ran r.connected_at s in
    (
      ground (arith, before, again, after, in_delay),
      ground (arith, before, again, after, in_delay, e),
    )

run_round-ends :
    (r : Round) (s : TunnelClientState) (how : LoopEnd)
    → r.shut_before ≡ false
    → ends_loop r.ran ≡ some how
    → run_round r s ≡ (after_run r.ran r.connected_at s, some how)
unfolding run_round
run_round-ends r s how before ends = ground (arith, before, ends)

connect_rounds-append :
    (rs later : List Round) (s : TunnelClientState)
    → All Reconnects rs
    → ((connect_rounds rs s).1 ≡ none)
      × (connect_rounds (rs ++ later) s ≡ connect_rounds later (connect_rounds rs s).0)
      × ((connect_rounds rs s).0.reconnect_count % 4294967296
          ≡ (s.reconnect_count + length rs) % 4294967296)
unfolding connect_rounds
connect_rounds-append [] later s h = (refl, refl, omega arith)
connect_rounds-append (r ∷ rs) later s h =
    let (again, up) = run_round-Reconnects r s h.0 in
    let (on, same, count) = connect_rounds-append rs later (run_round r s).0 h.1 in
    (ground (arith, again, on), ground (arith, again, same), ground (arith, again, up, count))

-- After any number of rounds in which the connection cannot be made or is lost and no shutdown is seen,
-- the client is still running and has counted each of them, modulo 2 ^ 32; and when the next run then
-- ends by a shutdown or by a takeover, the loop stops or exits there, whatever would have followed,
-- without counting further.
pub start_lem :
    (m : PortMapping) (ms : List PortMapping) (rs later : List Round) (r : Round)
    (s : TunnelClientState) (how : LoopEnd)
    → All Reconnects rs
    → r.shut_before ≡ false
    → ends_loop r.ran ≡ some how
    → ((start (m ∷ ms) rs s).1 ≡ none)
      × ((start (m ∷ ms) rs s).0.reconnect_count % 4294967296
          ≡ (s.reconnect_count + length rs) % 4294967296)
      × ((start (m ∷ ms) (rs ++ r ∷ later) s).1 ≡ some how)
      × ((start (m ∷ ms) (rs ++ r ∷ later) s).0.reconnect_count
          ≡ (start (m ∷ ms) rs s).0.reconnect_count)
unfolding start connect_rounds
start_lem m ms rs later r s how h before ends =
    let (on, same, count) = connect_rounds-append rs (r ∷ later) s h in
    let s' = (connect_rounds rs s).0 in
    let last = run_round-ends r s' how before ends in
    (
      on,
      count,
      ground (arith, same, last),
      ground (arith, same, last, reconnect_count-after_run r.ran r.connected_at s'),
    )
