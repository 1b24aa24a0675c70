-- ===== src/Update/Apply.antt =====
-- src/services/autoupdate.rs: the download, the checks and the replacement of the binary, and the
-- restart.
use xjp_deploy_agent.Prelude.{
  ltb, leb, if◌then◌else◌, is_some, ◌==◌, nat_eq, string_eq, ℕ, String, Bool, true, false, not,
  ◌&&◌, Option, none, some, List,
}
use xjp_deploy_agent.Update.{
  UpdateMetadata, Binaries, Updater, set_progress, UpdateError, download_failed, checksum_failed,
  canary_failed, io_failed, replace_failed, restart_failed, Ended, returned, failed, exited,
  Download, refused, broken, complete, Canary, not_started, exits_early, unknown, unanswered,
  answers, NewProcess, not_spawned, gone_early, unread_early, taken_over, gone_late, running_late,
  unread_late, TunnelMode, server, client, disabled, service, console, World,
}

-- The flag says whether the download succeeded.
unfoldable pub download_binary : Download → Binaries → Binaries × Bool
download_binary refused f = (f, false)
download_binary (broken bytes) f = (record f { temp = some bytes }, false)
download_binary (complete bytes) f = (record f { temp = some bytes }, true)

unfoldable pub run_canary_health_check : Canary → Bool
run_canary_health_check (answers status) = leb 200 status && ltb status 300
run_canary_health_check not_started = false
run_canary_health_check exits_early = false
run_canary_health_check unknown = false
run_canary_health_check unanswered = false

-- `fs::rename`: what stands at the two paths after it, and whether it succeeds.
unfoldable pub rename :
    Bool → (from to : Option (List ℕ)) → Option (List ℕ) × Option (List ℕ) × Bool
rename true (some bytes) to = (none, some bytes, true)
rename true none to = (none, to, false)
rename false from to = (from, to, false)

-- `fs::remove_file`, whose failure is ignored.
unfoldable pub remove_file : Bool → Option (List ℕ) → Option (List ℕ)
remove_file true file = none
remove_file false file = file

unfoldable pub restart_with_takeover : NewProcess → Ended
restart_with_takeover not_spawned = failed restart_failed
restart_with_takeover gone_early = failed restart_failed
restart_with_takeover unread_early = failed restart_failed
restart_with_takeover taken_over = exited
restart_with_takeover gone_late = returned
restart_with_takeover running_late = exited
restart_with_takeover unread_late = exited

abbrev is_client : TunnelMode → Bool
is_client server = false
is_client client = true
is_client disabled = false

unfoldable pub uses_takeover : World → Bool
uses_takeover w = if w.on_windows && w.is_service then false else is_client w.tunnel_mode

unfoldable pub restart_self : World → Ended
restart_self w =
    if uses_takeover w
    then restart_with_takeover w.new_process
    else if w.schedules_restart (if w.is_service then service else console)
    then exited
    else failed restart_failed

-- The downloaded binary is dropped and the update given up.
unfoldable pub give_up : World → UpdateError → Updater → Updater × Ended
give_up w e u = (
  set_progress "none" (record u {
    binaries = record u.binaries { temp = remove_file w.removes_temp u.binaries.temp };
  }),
  failed e,
)

-- From the moment the new binary stands in place of the current one.
unfoldable pub after_replacing : World → Updater → Updater × Ended
after_replacing w u =
    if w.sets_permissions
    then (
      set_progress "restarting" (record u {
        binaries = record u.binaries { backup = remove_file w.removes_backup u.binaries.backup };
      }),
      restart_self w,
    )
    else (u, failed io_failed)

-- The backup is put back when the replacement fails.
unfoldable pub restore : World → Updater → Updater × Ended
restore w u =
    let (backup, current, done) = rename w.restores u.binaries.backup u.binaries.current in
    (
      set_progress "none"
          (record u { binaries = record u.binaries { backup = backup; current = current } }),
      failed replace_failed,
    )

unfoldable pub move_in : World → Updater → Updater × Ended
move_in w u =
    let (temp, current, done) = rename w.replaces u.binaries.temp u.binaries.current in
    if done
    then after_replacing w
        (record u { binaries = record u.binaries { temp = temp; current = current } })
    else restore w u

unfoldable pub replace_binary : World → Updater → Updater × Ended
replace_binary w u =
    if not w.knows_current_exe
    then (u, failed io_failed)
    else if is_some u.binaries.current
    then (let (current, backup, done) = rename w.backs_up u.binaries.current u.binaries.backup in
        if done
        then move_in w
            (record u { binaries = record u.binaries { current = current; backup = backup } })
        else (u, failed io_failed))
    else move_in w u

module _ (sha256 : List ℕ → String) (to_lowercase : String → String) where
  unfoldable pub verify_checksum : World → Option (List ℕ) → (expected : String) → Bool
  verify_checksum w file expected = elim file [
    | none ↦ false
    | some contents ↦ w.reads_temp && (sha256 contents == to_lowercase expected)
  ]

  -- Whether the checksum is in order: one that the metadata lacks is not checked.
  unfoldable pub passes_checksum : World → UpdateMetadata → Binaries → Bool
  passes_checksum w metadata f = elim metadata.sha256 [
    | none ↦ true
    | some expected ↦ verify_checksum w f.temp expected
  ]

  unfoldable pub check_downloaded : World → UpdateMetadata → Updater → Updater × Ended
  check_downloaded w metadata u =
      if passes_checksum w metadata u.binaries
      then (if run_canary_health_check w.canary
          then replace_binary w (set_progress "applying" u)
          else give_up w canary_failed (set_progress "health_check" u))
      else give_up w checksum_failed (set_progress "verifying" u)

  unfoldable pub download_and_apply_update : World → UpdateMetadata → Updater → Updater × Ended
  download_and_apply_update w metadata u =
      let (binaries, done) = download_binary w.download u.binaries in
      let u' : Updater = set_progress "downloading" (record u { binaries = binaries }) in
      if done
      then check_downloaded w metadata u'
      else (set_progress "none" u', failed download_failed)
