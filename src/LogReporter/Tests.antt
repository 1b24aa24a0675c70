-- ===== src/LogReporter/Tests.antt =====
-- The theorems on the log reporter at concrete inputs.
use xjp_deploy_agent.Prelude.{
  is_some, nat_eq, string_eq, retain, All, ◌/◌, ◌≤◌, ◌≡◌, refl, true, false, none, some, List, [],
  ◌∷◌, arith,
}
use xjp_deploy_agent.Http.{answered, request_failed, is_success}
use xjp_deploy_agent.LogReporter.{
  LogReporterState, Reporter, Round, ended, timed_out, report_logs, report_rounds, noted,
  since_secs, since, report_lines, conclude, fetch_journalctl_logs,
}
use xjp_deploy_agent.LogReporter.Reports.{lines_of}
use xjp_deploy_agent.LogReporter.Delivery.{
  Entry, moment, between, IsCovered, delivered, last_accepted, last_time, report_rounds_lem,
}
use xjp_deploy_agent.LogReporter.Loss.{asked, journal_failure_loses}

abbrev reporter : Reporter
reporter = record {
  callback_url = "https://center";
  agent_id = "home";
  agent_url = "http://home:9876";
  parse_from_str = λ s. none;
}

abbrev journal : List Entry
journal = (1000, "started") ∷ (31000, "deploying") ∷ (59000, "done") ∷ []

abbrev at_start : LogReporterState
at_start = record { last_report = some 500; last_result = none }

-- The machine is an hour ahead of UTC.
abbrev failing : Round
failing = record {
  now = 30000;
  journal = λ shown. ended true (between journal (moment 3600 shown) 30000);
  answer = request_failed "refused";
  status_text = "";
  count_text = "1";
}

abbrev working : Round
working = record {
  now = 60000;
  journal = λ shown. ended true (between journal (moment 3600 shown) 60000);
  answer = answered 200 "";
  status_text = "200 OK";
  count_text = "3";
}

report_rounds_lem_example :
    let (s', reports) = report_rounds reporter at_start (failing ∷ working ∷ []) in
    All (IsCovered 500 (last_time s') (delivered reports)) journal
    × (last_accepted 500 (failing ∷ working ∷ []) ≤ last_time s')
unfolding since_secs since retain report_logs report_lines conclude fetch_journalctl_logs is_success
report_rounds_lem_example =
    report_rounds_lem 3600 reporter journal at_start (failing ∷ working ∷ []) 500
      ((λ secs. refl), ((λ secs. refl), tt)) (omega arith) refl (omega arith)

abbrev slow : Round
slow = record {
  now = 90000;
  journal = λ secs. timed_out;
  answer = answered 200 "";
  status_text = "200 OK";
  count_text = "0";
}

journal_failure_loses_example :
    let done = report_logs reporter at_start slow in
    (is_some done.error ≡ false)
    × (lines_of done ≡ [])
    × (done.state.last_report ≡ some 90000)
    × All (λ secs. 90000 / 1000 ≤ secs) (asked reporter (noted done) [])
journal_failure_loses_example = journal_failure_loses reporter at_start slow [] refl tt
