-- ===== src/LogReporter/Delivery.antt =====
-- src/services/log_reporter.rs: which lines of the journal reach the deploy center.
use xjp_deploy_agent.Prelude.{
  ◌-◌, any-append, ltb, leb, if◌then◌else◌, Bool-cases, unwrap_or, ◌==◌, nat_eq, string_eq,
  beq_refl, retain, any, length, All, length-retain-le, All-imp, ℕ, ◌*◌, ◌≤◌, ◌<◌, String, ◌≡◌,
  refl, ◌∙◌, inl, inr, Bool, true, false, ◌&&◌, ◌||◌, some, List, [], ◌∷◌, ◌++◌, map, arith,
}
use xjp_deploy_agent.Prelude.Text.{is_empty_text}
use xjp_deploy_agent.Http.{is_accepted}
use xjp_deploy_agent.LogReporter.{
  WallClock, LogReporterState, ended, Reporter, Round, Report, max_lines_per_batch,
  fetch_journalctl_logs, since, since_secs, report_logs, noted, report_rounds,
}
use xjp_deploy_agent.LogReporter.Reports.{
  Goes, lines_of, Goes-le, Concluded, report_lines-Concluded,
}

-- An entry of the journal, with its time.
abbrev pub Entry : Type 0
Entry = ℕ × String

-- The lines from `from` to `now`, both included.
abbrev pub between : List Entry → (from now : ℕ) → List String
between journal from now =
    map (λ (e : Entry). e.1) (retain (λ (e : Entry). leb from e.0 && leb e.0 now) journal)

-- The moment at which a clock that is `ahead` seconds ahead of UTC shows the time; never before 1970.
abbrev pub moment : (ahead : ℕ) → WallClock → ℕ
moment ahead shown = 1000 * (shown - ahead)

-- What `journalctl` prints in a round, if it works, on a machine whose zone is `ahead` seconds ahead of
-- UTC: the lines from the moment at which the local clock shows the time that it is asked for.
abbrev pub Works : (ahead : ℕ) → List Entry → Round → Type 0
Works ahead journal r =
    (shown : WallClock) → r.journal shown ≡ ended true (between journal (moment ahead shown) r.now)

-- No round finds more lines than a report may have, so that `-n` cuts nothing off.
abbrev pub Fits : (ahead : ℕ) → Reporter → List Entry → LogReporterState → List Round → Type 0
Fits ahead reporter journal s [] = Unit
Fits ahead reporter journal s (r ∷ rs) =
    (length (between journal (moment ahead (since_secs s r.now)) r.now) ≤ max_lines_per_batch)
    × Fits ahead reporter journal (noted (report_logs reporter s r)) rs

abbrev pub delivered : List Report → List String
delivered [] = []
delivered (done ∷ reports) = lines_of done ++ delivered reports

abbrev has_line : String → List String → Bool
has_line line lines = any (λ l. l == line) lines

-- The entry is found by whoever asks for a time that includes it.
abbrev IsFound : List Entry → Entry → Type 0
IsFound journal e =
    (from now : ℕ)
    → is_empty_text e.1 ≡ false
    → from ≤ e.0
    → e.0 ≤ now
    → has_line e.1 (fetch_journalctl_logs (ended true (between journal from now))) ≡ true

IsFound-self : (e : Entry) (journal : List Entry) → IsFound (e ∷ journal) e
unfolding fetch_journalctl_logs retain any
IsFound-self e journal from now solid after before = ground (arith, solid, beq_refl e.1)

IsFound-more :
    (d : Entry) (journal : List Entry) (e : Entry) → IsFound journal e → IsFound (d ∷ journal) e
unfolding fetch_journalctl_logs retain any
IsFound-more d journal e found from now solid after before =
    ground (arith, found from now solid after before)

or_true : (b : Bool) → (b || true) ≡ true
or_true true = refl
or_true false = refl

length-fetch-le :
    (lines : List String) → length (fetch_journalctl_logs (ended true lines)) ≤ length lines
unfolding fetch_journalctl_logs
length-fetch-le lines = length-retain-le _ lines

since_known :
    (ahead : ℕ) (s : LogReporterState) (now last : ℕ)
    → s.last_report ≡ some last
    → moment ahead (since_secs s now) ≤ last
unfolding since_secs since
since_known ahead s now last h = rw h (omega arith)

report_logs-Concluded :
    (ahead : ℕ) (reporter : Reporter) (journal : List Entry) (s : LogReporterState) (r : Round)
    → Works ahead journal r
    → length (between journal (moment ahead (since_secs s r.now)) r.now) ≤ max_lines_per_batch
    → Concluded s r
        (fetch_journalctl_logs
          (ended true (between journal (moment ahead (since_secs s r.now)) r.now)))
        (report_logs reporter s r)
unfolding report_logs
report_logs-Concluded ahead reporter journal s r works fits =
    let printed = between journal (moment ahead (since_secs s r.now)) r.now in
    rw (works (since_secs s r.now)) (
      report_lines-Concluded reporter s r (fetch_journalctl_logs (ended true printed))
        (omega (arith, length-fetch-le printed)))

-- The moment of the last report.
abbrev pub last_time : LogReporterState → ℕ
last_time s = unwrap_or s.last_report 0

-- The last round whose answer was a success, if any; then the moment before.
abbrev pub last_accepted : (at : ℕ) → List Round → ℕ
last_accepted at [] = at
last_accepted at (r ∷ rs) = last_accepted (if is_accepted r.answer then r.now else at) rs

-- The entry is empty, or not after `from`, or after `until`, or its line is among those delivered.
abbrev pub IsCovered : (from until : ℕ) → List String → Entry → Type 0
IsCovered from until lines e =
    (is_empty_text e.1 || leb e.0 from || ltb until e.0 || has_line e.1 lines) ≡ true

module _ (ahead : ℕ) (reporter : Reporter) (journal : List Entry) where
  report_rounds-IsDelivered :
      (e : Entry) (s : LogReporterState) (rs : List Round) (last : ℕ)
      → IsFound journal e
      → All (Works ahead journal) rs
      → Fits ahead reporter journal s rs
      → s.last_report ≡ some last
      → Goes last rs
      → is_empty_text e.1 ≡ false
      → last < e.0
      → e.0 ≤ last_time (report_rounds reporter s rs).0
      → has_line e.1 (delivered (report_rounds reporter s rs).1) ≡ true
  unfolding report_rounds
  report_rounds-IsDelivered e s [] last found works fits known goes solid after before =
      absurd (ground (arith, known))
  report_rounds-IsDelivered e s (r ∷ rs) last found works fits known goes solid after before =
      let done = report_logs reporter s r in
      let rest = delivered (report_rounds reporter (noted done) rs).1 in
      rw (any-append (λ l. l == e.1) (lines_of done) rest)
        (elim (report_logs-Concluded ahead reporter journal s r works.0 fits.0) [
          | inl (noted_now, sent) ↦ elim (Bool-cases (leb e.0 r.now)) [
            | inl past ↦
                let here =
                  found (moment ahead (since_secs s r.now)) r.now solid
                    (omega (arith, since_known ahead s r.now last known)) (ground (arith, past)) in
                rw (sent, here) refl
            | inr later ↦
                let there =
                  report_rounds-IsDelivered e (noted done) rs r.now found works.1 fits.1 noted_now
                    goes.1 solid (ground (arith, later)) before in
                rw there (or_true (has_line e.1 (lines_of done)))
          ]
          | inr (same, failed) ↦
              let there =
                report_rounds-IsDelivered e (noted done) rs last found works.1 fits.1 (same ∙ known)
                  (Goes-le last r.now rs goes.0 goes.1) solid after before in
              rw there (or_true (has_line e.1 (lines_of done)))
        ])

  last_accepted-le :
      (s : LogReporterState) (rs : List Round) (at last : ℕ)
      → All (Works ahead journal) rs
      → Fits ahead reporter journal s rs
      → s.last_report ≡ some last
      → Goes last rs
      → at ≤ last
      → last_accepted at rs ≤ last_time (report_rounds reporter s rs).0
  unfolding report_rounds
  last_accepted-le s [] at last works fits known goes h = ground (arith, known)
  last_accepted-le s (r ∷ rs) at last works fits known goes h =
      let done = report_logs reporter s r in
      elim (report_logs-Concluded ahead reporter journal s r works.0 fits.0) [
        | inl (noted_now, sent) ↦
            last_accepted-le (noted done) rs (if is_accepted r.answer then r.now else at) r.now
              works.1 fits.1 noted_now goes.1 (ground (arith, goes.0))
        | inr (same, failed) ↦ rw failed (
            last_accepted-le (noted done) rs at last works.1 fits.1 (same ∙ known)
              (Goes-le last r.now rs goes.0 goes.1) h)
      ]

  All-IsCovered :
      (s : LogReporterState) (rs : List Round) (last : ℕ) (entries : List Entry)
      → All (IsFound journal) entries
      → All (Works ahead journal) rs
      → Fits ahead reporter journal s rs
      → s.last_report ≡ some last
      → Goes last rs
      → let (s', reports) = report_rounds reporter s rs in
        All (IsCovered last (last_time s') (delivered reports)) entries
  All-IsCovered s rs last [] found works fits known goes = tt
  All-IsCovered s rs last (e ∷ entries) found works fits known goes = (
    ground (arith, report_rounds-IsDelivered e s rs last found.0 works fits known goes),
    All-IsCovered s rs last entries found.1 works fits known goes,
  )

All-IsFound : (journal : List Entry) → All (IsFound journal) journal
All-IsFound [] = tt
All-IsFound (e ∷ journal) =
    (IsFound-self e journal, All-imp (IsFound-more e journal) journal (All-IsFound journal))

-- On a machine whose time zone is UTC or ahead of it by the same number of seconds all the time: if
-- `journalctl` works in every round and no round finds more than two hundred lines, each line of the
-- journal that is not empty, from after the last report before the rounds until the last one in them,
-- was sent in a request that was accepted, whichever requests failed in between; and that last report
-- is not earlier than the last round whose request was accepted. A line may be sent more than once.
pub report_rounds_lem :
    (ahead : ℕ) (reporter : Reporter) (journal : List Entry) (s : LogReporterState)
    (rs : List Round) (last : ℕ)
    → All (Works ahead journal) rs
    → Fits ahead reporter journal s rs
    → s.last_report ≡ some last
    → Goes last rs
    → let (s', reports) = report_rounds reporter s rs in
      All (IsCovered last (last_time s') (delivered reports)) journal
      × (last_accepted last rs ≤ last_time s')
report_rounds_lem ahead reporter journal s rs last works fits known goes = (
  All-IsCovered ahead reporter journal s rs last journal (All-IsFound journal) works fits known
      goes,
  last_accepted-le ahead reporter journal s rs last last works fits known goes (omega arith),
)
