-- ===== src/LogHub/Channels.antt =====
-- A task has one channel from its creation to its end.
use xjp_deploy_agent.Prelude.{
  leb, nat_beq, if◌then◌else◌, Option-cases, is_some, ◌==◌, nat_eq, string_eq, ℕ, ◌-◌, ◌*◌, ◌≤◌,
  String, ◌≡◌, inl, inr, true, ◌&&◌, none, some, arith, eq_iff, eq_refl,
}
use xjp_deploy_agent.HashMap
use xjp_deploy_agent.HashMap.{HashMap}
use xjp_deploy_agent.HashMap.Laws.{get-insert, get-insert_self, get-remove}
use xjp_deploy_agent.HashMap.Keys.{HasDistinctKeys, get-retain_entries}
use xjp_deploy_agent.LogHub.{
  LogHub, LogChannel, create, subscribe, finish, cleanup_expired, is_live,
}

-- Whoever asks for the channel of a task later gets the sender that the first caller got, whatever
-- fresh sender it offers; a subscriber of the task listens to that sender, and the channels of
-- other tasks stay as they were.
pub create_again :
    (h : LogHub) (id j : String) (fresh now fresh' later : ℕ)
    → let (h', sender) = create h id fresh now in
      (create h' id fresh' later ≡ (h', sender))
      × (subscribe h' j ≡ (if id == j then some sender else subscribe h j))
unfolding create subscribe
create_again h id j fresh now fresh' later = elim (Option-cases (HashMap.get h.channels id)) [
  | inl missing ↦
      rw (missing, create)
        (
          rw get-insert_self (rw (missing, create)),
          ground (
            arith,
            get-insert h.channels id j (record { sender = fresh; created_at = now }),
            eq_iff id j,
          ),
        )
  | inr (c, found) ↦ rw (found, create) (rw found (rw (found, create)), ground (arith, eq_iff id j))
]

-- `finish` closes the task's channel, so that a later subscriber is refused, and no other.
pub subscribe-finish :
    (h : LogHub) (id j : String)
    → subscribe (finish h id) j ≡ (if id == j then none else subscribe h j)
unfolding finish subscribe
subscribe-finish h id j = ground (arith, get-remove h.channels id j)

-- The cleanup drops a channel exactly if it is at least `max_age_hours` old and nobody
-- listens: a log that is being followed is never cut off. The hub's tasks are distinct, and
-- the channel is not from the future.
pub subscribe-cleanup_expired :
    (receiver_count : ℕ → ℕ) (h : LogHub) (max_age_hours now : ℕ) (id : String) (c : LogChannel)
    → HasDistinctKeys h.channels
    → HashMap.get h.channels id ≡ some c
    → c.created_at ≤ now
    → subscribe (cleanup_expired receiver_count h max_age_hours now) id ≡ (
        if leb (max_age_hours * 3600000) (now - c.created_at) && nat_beq (receiver_count c.sender) 0
        then none
        else some c.sender)
unfolding cleanup_expired subscribe is_live
subscribe-cleanup_expired receiver_count h hours now id c d e past =
    rw (get-retain_entries h.channels _ id d, e) (ground arith)

pub subscribe-create_self :
    (h : LogHub) (id : String) (fresh now : ℕ)
    → is_some (subscribe (create h id fresh now).0 id) ≡ true
subscribe-create_self h id fresh now = rw ((create_again h id id fresh now fresh now).1, eq_refl id)
