-- ===== src/TaskStore/Cleanup.antt =====
-- What the periodic cleanup keeps and what it removes.
use xjp_deploy_agent.Prelude.{
  string_eq, leb, if◌then◌else◌, Bool-cases, Option-cases, unwrap_or, retain, All, ℕ, ◌+◌, ◌<◌,
  String, ◌≡◌, inl, inr, true, ◌&&◌, none, some, List, [], ◌∷◌, arith,
}
use xjp_deploy_agent.HashMap.Keys.{get-retain_entries}
use xjp_deploy_agent.Task.{DeployTask, is_terminal}
use xjp_deploy_agent.TaskStore.Invariant.{IsValid, IsEnded, IsSound}
use xjp_deploy_agent.HashMap.Entries.{get-Entries}
use xjp_deploy_agent.TaskStore.{TaskStore, get, is_kept, is_recent, cleanup_stale}

-- A task that ended at `at` is still within its retention.
abbrev pub EndedWithin : ℕ → ℕ → DeployTask → Type 0
EndedWithin retention now t = (at : ℕ) × (t.finished_at ≡ some at) × (now < at + retention)

is_recent-EndedWithin :
    (retention now : ℕ) (t : DeployTask)
    → IsEnded t
    → is_recent retention now t ≡ true
    → EndedWithin retention now t
unfolding is_recent
is_recent-EndedWithin retention now t e h = elim (Option-cases t.finished_at) [
  | inl missing ↦ ground arith
  | inr (at, found) ↦ (at, found, ground arith)
]

All-EndedWithin :
    (retention now : ℕ) (xs : List DeployTask)
    → All IsEnded xs
    → All (EndedWithin retention now) (retain (is_recent retention now) xs)
unfolding retain
All-EndedWithin retention now [] a = tt
All-EndedWithin retention now (t ∷ ts) a = elim (Bool-cases (is_recent retention now t)) [
  | inl recent ↦
      rw recent
        (is_recent-EndedWithin retention now t a.0 recent, All-EndedWithin retention now ts a.1)
  | inr old ↦ rw old (All-EndedWithin retention now ts a.1)
]

-- What the cleanup does to one active task of a valid store: it is dropped exactly if it has ended
-- and its retention is over, and otherwise stays as it was. A queued or running task is never
-- dropped.
pub get-cleanup_stale :
    (s : TaskStore) (now : ℕ) (id : String) (t : DeployTask)
    → IsValid s
    → get s id ≡ some t
    → get (cleanup_stale s now) id ≡ (
        if is_terminal t.status && leb (unwrap_or t.finished_at now + s.retention) now
        then none
        else some t)
unfolding cleanup_stale get is_kept is_recent
get-cleanup_stale s now id t v e =
    let sound = get-Entries IsSound s.tasks id v.sound e in
    rw (get-retain_entries s.tasks _ id v.distinct, e) (ground (arith, sound))

-- Every task that the cleanup of a valid store leaves in the history ended within the retention.
pub history-cleanup_stale :
    (s : TaskStore) (now : ℕ)
    → IsValid s
    → All (EndedWithin s.retention now) (cleanup_stale s now).history
unfolding cleanup_stale
history-cleanup_stale s now v = All-EndedWithin s.retention now s.history v.ended
