-- ===== src/LogReporter/Reports.antt =====
-- src/services/log_reporter.rs: how one report of the log reporter ends.
use xjp_deploy_agent.Prelude.{
  Bool-cases, nat_eq, string_eq, length, take_all, ℕ, ◌≤◌, String, ◌≡◌, refl, ap, ◌⊎◌, inl, inr,
  false, none, some, List, [], ◌∷◌, map, arith,
}
use xjp_deploy_agent.Http.{Answer, request_failed, answered, is_success, is_accepted}
use xjp_deploy_agent.LogReporter
use xjp_deploy_agent.LogReporter.{
  LogReporterState, LogLineEntry, ReportLogsRequest, Output, ended, Reporter, Round, Report,
  max_lines_per_batch, fetch_journalctl_logs, entries_of, since, since_secs, conclude, report_lines,
  report_logs, noted, report_rounds,
}

-- The times of the rounds do not go back.
abbrev pub Goes : (from : ℕ) → List Round → Type 0
Goes from [] = Unit
Goes from (r ∷ rs) = (from ≤ r.now) × Goes r.now rs

-- The lines of the request, if the report had no error.
abbrev pub lines_of : Report → List String
lines_of done = elim done.error [
  | some e ↦ []
  | none ↦ elim done.sent [ none ↦ [] | some q ↦ map (λ (l : LogLineEntry). l.line) q.logs ]
]

pub lines-entries_of :
    (reporter : Reporter) (lines : List String)
    → length lines ≤ max_lines_per_batch
    → map (λ (l : LogLineEntry). l.line) (entries_of reporter lines) ≡ lines
unfolding entries_of
lines-entries_of reporter lines h = rw (take_all max_lines_per_batch lines h) (all_lines lines)
  where
    all_lines :
        (xs : List String)
        → map
            (λ (l : LogLineEntry). l.line)
            (map
              (λ line. record {
                line = line;
                timestamp = LogReporter.parse_journalctl_timestamp reporter.parse_from_str line;
              })
              xs)
          ≡ xs
    all_lines [] = refl
    all_lines (x ∷ xs) = ap (◌∷◌ x) (all_lines xs)

pub Answer-cases :
    (a : Answer)
    → ((e : String) × (a ≡ request_failed e))
      ⊎ ((code : ℕ) × (body : String) × (a ≡ answered code body))
Answer-cases (request_failed e) = inl (e, refl)
Answer-cases (answered code body) = inr (code, body, refl)

pub Goes-le : (from now : ℕ) (rs : List Round) → from ≤ now → Goes now rs → Goes from rs
Goes-le from now [] h g = tt
Goes-le from now (r ∷ rs) h g = (omega (arith, g.0), g.1)

-- A report has sent all lines, and is noted as of now; or it has an error, and the state still asks
-- for what it asked for.
abbrev pub Concluded : LogReporterState → Round → List String → Report → Type 0
Concluded s r lines done =
    (((noted done).last_report ≡ some r.now) × (lines_of done ≡ lines))
    ⊎ (((noted done).last_report ≡ s.last_report) × (is_accepted r.answer ≡ false))

pub report_lines-Concluded :
    (reporter : Reporter) (s : LogReporterState) (r : Round) (lines : List String)
    → length lines ≤ max_lines_per_batch
    → Concluded s r lines (report_lines reporter s r lines)
unfolding report_lines conclude
report_lines-Concluded reporter s r [] h = inl (refl, refl)
report_lines-Concluded reporter s r (line ∷ lines) h = elim (Answer-cases r.answer) [
  | inl (e, failed) ↦ rw failed (inr (refl, refl))
  | inr (code, body, came) ↦ elim (Bool-cases (is_success code)) [
    | inl good ↦ rw (came, good) (inl (refl, lines-entries_of reporter (line ∷ lines) h))
    | inr bad ↦ rw (came, bad) (inr (refl, refl))
  ]
]
