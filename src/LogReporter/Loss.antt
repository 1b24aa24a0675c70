-- ===== src/LogReporter/Loss.antt =====
-- src/services/log_reporter.rs: what becomes of the lines when `journalctl` fails.
use xjp_deploy_agent.Prelude.{
  Bool-cases, is_some, nat_eq, string_eq, All, ℕ, ◌/◌, ◌≤◌, String, ◌≡◌, refl, ◌∙◌, ◌⊎◌, inl, inr,
  Bool, true, false, not, some, List, [], ◌∷◌, arith,
}
use xjp_deploy_agent.Http.{is_success}
use xjp_deploy_agent.LogReporter
use xjp_deploy_agent.LogReporter.{
  LogReporterState, LogLineEntry, ReportLogsRequest, Output, ended, Reporter, Round, Report,
  max_lines_per_batch, fetch_journalctl_logs, entries_of, since, since_secs, conclude, report_lines,
  report_logs, noted, report_rounds,
}
use xjp_deploy_agent.LogReporter.Reports.{Goes, lines_of, Goes-le, Answer-cases}

-- The command could not be run, failed or took too long.
abbrev pub fails : Output → Bool
fails (ended is_successful lines) = not is_successful
fails other = true

-- The seconds that each round asks `journalctl` for.
abbrev pub asked : Reporter → LogReporterState → List Round → List ℕ
asked reporter s [] = []
asked reporter s (r ∷ rs) =
    since_secs s r.now ∷ asked reporter (noted (report_logs reporter s r)) rs

last_report-report_lines :
    (reporter : Reporter) (s : LogReporterState) (r : Round) (lines : List String)
    → let s' = noted (report_lines reporter s r lines) in
      (s'.last_report ≡ some r.now) ⊎ (s'.last_report ≡ s.last_report)
unfolding report_lines conclude
last_report-report_lines reporter s r [] = inl refl
last_report-report_lines reporter s r (line ∷ lines) = elim (Answer-cases r.answer) [
  | inl (e, failed) ↦ rw failed (inr refl)
  | inr (code, body, came) ↦ elim (Bool-cases (is_success code)) [
    | inl good ↦ rw (came, good) (inl refl)
    | inr bad ↦ rw (came, bad) (inr refl)
  ]
]

last_report-report_logs :
    (reporter : Reporter) (s : LogReporterState) (r : Round)
    → let s' = noted (report_logs reporter s r) in
      (s'.last_report ≡ some r.now) ⊎ (s'.last_report ≡ s.last_report)
unfolding report_logs
last_report-report_logs reporter s r =
    last_report-report_lines reporter s r (fetch_journalctl_logs (r.journal (since_secs s r.now)))

asked-le :
    (reporter : Reporter) (s : LogReporterState) (rs : List Round) (least last : ℕ)
    → s.last_report ≡ some last
    → Goes last rs
    → least ≤ last
    → All (λ secs. least / 1000 ≤ secs) (asked reporter s rs)
unfolding since_secs since
asked-le reporter s [] least last known goes h = tt
asked-le reporter s (r ∷ rs) least last known goes h = (
  rw known (omega (arith, h)),
  elim (last_report-report_logs reporter s r) [
    | inl now ↦
        asked-le reporter (noted (report_logs reporter s r)) rs least r.now now goes.1
          (omega (arith, goes.0))
    | inr same ↦
        asked-le reporter (noted (report_logs reporter s r)) rs least last (same ∙ known)
          (Goes-le last r.now rs goes.0 goes.1) h
  ],
)

fetch_failed : (o : Output) → fails o ≡ true → fetch_journalctl_logs o ≡ []
unfolding fetch_journalctl_logs
fetch_failed (ended true lines) h = cc
fetch_failed (ended false lines) h = refl
fetch_failed LogReporter.not_run h = refl
fetch_failed LogReporter.timed_out h = refl

-- A round in which `journalctl` fails is taken for one without new lines: nothing is sent, no error is
-- noted, and no later round names a time before it, without the fraction of a second, to `journalctl`.
pub journal_failure_loses :
    (reporter : Reporter) (s : LogReporterState) (r : Round) (rs : List Round)
    → fails (r.journal (since_secs s r.now)) ≡ true
    → Goes r.now rs
    → let done = report_logs reporter s r in
      (is_some done.error ≡ false)
      × (lines_of done ≡ [])
      × (done.state.last_report ≡ some r.now)
      × All (λ secs. r.now / 1000 ≤ secs) (asked reporter (noted done) rs)
unfolding report_logs report_lines
journal_failure_loses reporter s r rs failed goes =
    let done = report_lines reporter s r [] in
    rw (fetch_failed (r.journal (since_secs s r.now)) failed)
      (refl, refl, refl, asked-le reporter (noted done) rs r.now r.now refl goes (omega arith))
