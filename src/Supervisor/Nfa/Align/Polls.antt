-- ===== src/Supervisor/Nfa/Align/Polls.antt =====
-- src/services/nfa.rs: the end of the loop that polls a job.
use xjp_deploy_agent.Prelude.{
  eq_iff, ltb, ltb→lt, Bool-cases, Option-cases, is_some, unwrap_or, nat_eq, string_eq, length, ℕ,
  ◌+◌, ◌*◌, ◌≤◌, ◌<◌, String, ◌≡◌, refl, ◌⊎◌, inl, inr, true, some, List, [], ◌∷◌, arith,
}
use xjp_deploy_agent.Http.{Answer, request_failed, answered, is_success}
use xjp_deploy_agent.Supervisor.Nfa.Align.{
  Json, Result, ok, err, Polled, waits, ends, read_status, read_poll, poll_job,
}

-- The looks at the clock are at least `interval` apart, the first one not before `from`.
abbrev pub Spaced {ℓ} : {A : Type ℓ} → (interval from : ℕ) → List (ℕ × A) → Type 0
Spaced interval from [] = Unit
Spaced interval from ((now, answer) ∷ polls) = (from ≤ now) × Spaced interval (now + interval) polls

module _ (json : Json) where
  open json use {Value, from_str, str_field, field}

  -- The body of a success with the status "done" and the value, before the deadline.
  abbrev pub IsDone : (deadline : ℕ) → Value → ℕ × Answer → Type 0
  IsDone deadline v (now, request_failed e) = ⊥
  IsDone deadline v (now, answered code raw) =
      (now < deadline)
      × (is_success code ≡ true)
      × (w : Value) × (from_str raw ≡ some w)
      × (str_field w "status" ≡ some "done")
      × (v ≡ unwrap_or (field w "result") w)

  abbrev pub Some : (ℕ × Answer → Type 0) → List (ℕ × Answer) → Type 0
  Some P [] = ⊥
  Some P (poll ∷ polls) = P poll ⊎ Some P polls

  Polled-cases : (p : Polled json) → (p ≡ waits) ⊎ ((result : Result Value) × (p ≡ ends result))
  Polled-cases waits = inl refl
  Polled-cases (ends result) = inr (result, refl)

  read_status-ok :
      (w v : Value)
      → read_status json w ≡ ends (ok v)
      → (str_field w "status" ≡ some "done") × (v ≡ unwrap_or (field w "result") w)
  unfolding read_status
  read_status-ok w v h = elim (Option-cases (str_field w "status")) [
    | inl missing ↦
        let e : read_status json w ≡ ends (err "Unknown NFA job status: unknown") =
          rw (missing, read_status) refl in
        absurd (ground (arith, e, h))
    | inr (status, found) ↦ ground (arith, found, h, eq_iff status "done")
  ]

  read_poll-IsDone :
      (deadline now : ℕ) (answer : Answer) (v : Value)
      → now < deadline
      → read_poll json answer ≡ ends (ok v)
      → IsDone deadline v (now, answer)
  unfolding read_poll
  read_poll-IsDone deadline now (request_failed e) v early h = absurd (ground (arith, h))
  read_poll-IsDone deadline now (answered code raw) v early h = elim (Option-cases (from_str raw)) [
    | inl bad ↦ absurd (ground (arith, bad, h))
    | inr (w, read) ↦ elim (Bool-cases (is_success code)) [
      | inl good ↦
          let (status, value) = read_status-ok w v (ground (arith, read, good, h)) in
          (early, good, w, read, status, value)
      | inr bad ↦ absurd (ground (arith, bad, h))
    ]
  ]

  poll_job-IsDone :
      (deadline : ℕ) (timeout : String) (polls : List (ℕ × Answer)) (v : Value)
      → poll_job json deadline timeout polls ≡ some (ok v)
      → Some (IsDone deadline v) polls
  unfolding poll_job
  poll_job-IsDone deadline timeout [] v h = absurd (ground (arith, h))
  poll_job-IsDone deadline timeout ((now, answer) ∷ polls) v h =
      elim (Bool-cases (ltb now deadline)) [
        | inr late ↦ absurd (ground (arith, late, h))
        | inl early ↦ elim (Polled-cases (read_poll json answer)) [
          | inl waiting ↦
              inr (poll_job-IsDone deadline timeout polls v (ground (arith, early, waiting, h)))
          | inr (result, ended) ↦ inl (
              read_poll-IsDone deadline now answer v (ltb→lt now deadline early)
                (ground (arith, early, ended, h)))
        ]
      ]

  poll_job_ends :
      (deadline : ℕ) (timeout : String) (interval from : ℕ) (polls : List (ℕ × Answer))
      → 0 < interval
      → Spaced interval from polls
      → from < deadline + interval
      → deadline + interval ≤ from + interval * length polls
      → is_some (poll_job json deadline timeout polls) ≡ true
  unfolding poll_job
  poll_job_ends deadline timeout interval from [] positive spaced early enough =
      absurd (grind arith)
  poll_job_ends deadline timeout interval from ((now, answer) ∷ polls) positive spaced early
        enough =
      elim (Bool-cases (ltb now deadline)) [
        | inr late ↦ rw late refl
        | inl soon ↦
            let rest =
              poll_job_ends deadline timeout interval (now + interval) polls positive spaced.1
                (ground arith) (grind arith) in
            elim (Polled-cases (read_poll json answer)) [
              | inl waiting ↦ rw (soon, waiting) rest
              | inr (result, ended) ↦ rw (soon, ended) refl
            ]
      ]

  -- A job that is polled every `interval` milliseconds, which is not zero, ends with a result or an
  -- error, when more polls are at hand than fit into the time until the deadline; and it ends with a
  -- value only if one of the answers, asked for before the deadline, is a success whose body has the
  -- status "done" and that value, or is itself the value if it has none.
  pub poll_job_lem :
      (deadline : ℕ) (timeout : String) (interval from : ℕ) (polls : List (ℕ × Answer))
      → 0 < interval
      → Spaced interval from polls
      → from ≤ deadline
      → deadline + interval ≤ from + interval * length polls
      → (is_some (poll_job json deadline timeout polls) ≡ true)
        × ((v : Value)
            → poll_job json deadline timeout polls ≡ some (ok v)
            → Some (IsDone deadline v) polls)
  poll_job_lem deadline timeout interval from polls positive spaced early enough = (
    poll_job_ends deadline timeout interval from polls positive spaced (omega arith) enough,
    poll_job-IsDone deadline timeout polls,
  )
