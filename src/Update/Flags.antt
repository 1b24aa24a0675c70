-- ===== src/Update/Flags.antt =====
-- src/services/autoupdate.rs: what an update leaves of the state, and how a deferred one is taken up.
use xjp_deploy_agent.Prelude.{
  ltb, if◌then◌else◌, ℕ, ◌+◌, ◌*◌, ◌<◌, String, ◌≡◌, refl, ◌∙◌, Bool, true, false, ◌&&◌, none, some,
  List, arith,
}
use xjp_deploy_agent.Update.{
  UpdateMetadata, AutoUpdateConfig, Updater, set_progress, set_pending_update,
  set_update_in_progress, io_failed, deferred, Ended, returned, failed, exited, complete, World,
}
use xjp_deploy_agent.Update.Version.{is_newer_version}
use xjp_deploy_agent.Update.Apply.{
  download_binary, run_canary_health_check, passes_checksum, give_up, after_replacing, restore,
  move_in, replace_binary, check_downloaded, download_and_apply_update, rename,
}
use xjp_deploy_agent.Update.Check.{
  with_state, swallow, conclude, apply_update_internal, defer, check_metadata,
  check_and_apply_update, note_error, check_round, trigger_pending_update, trigger_update,
}

abbrev pub is_failed : Ended → Bool
is_failed returned = false
is_failed (failed e) = true
is_failed exited = false

-- An update that does not end with an error got as far as the restart, and no update touches the flag
-- `update_in_progress`.
abbrev IsApplied : Updater → Updater × Ended → Type 0
IsApplied u r =
    (r.0.state.update_in_progress ≡ u.state.update_in_progress)
    × (is_failed r.1 ≡ false → r.0.state.update_progress ≡ "restarting")

after_replacing-IsApplied : (w : World) (u : Updater) → IsApplied u (after_replacing w u)
unfolding after_replacing set_progress
after_replacing-IsApplied w u = (ground arith, λ h. ground arith)

restore-IsApplied : (w : World) (u : Updater) → IsApplied u (restore w u)
unfolding restore set_progress
restore-IsApplied w u = (refl, λ h. cc)

move_in-IsApplied : (w : World) (u : Updater) → IsApplied u (move_in w u)
unfolding move_in
move_in-IsApplied w u =
    let moved = rename w.replaces u.binaries.temp u.binaries.current in
    let u' : Updater = record u {
      binaries = record u.binaries { temp = moved.0; current = moved.1 };
    } in
    let after = after_replacing-IsApplied w u' in
    let back = restore-IsApplied w u in
    (ground (arith, after.0, back.0), λ h. ground (arith, after.1, back.1))

replace_binary-IsApplied : (w : World) (u : Updater) → IsApplied u (replace_binary w u)
unfolding replace_binary
replace_binary-IsApplied w u =
    let moved = rename w.backs_up u.binaries.current u.binaries.backup in
    let u' : Updater = record u {
      binaries = record u.binaries { current = moved.0; backup = moved.1 };
    } in
    let here = move_in-IsApplied w u in
    let there = move_in-IsApplied w u' in
    (ground (arith, here.0, there.0), λ h. ground (arith, here.1, there.1))

module _ (sha256 : List ℕ → String) (to_lowercase : String → String) where
  check_downloaded-IsApplied :
      (w : World) (metadata : UpdateMetadata) (u : Updater)
      → IsApplied u (check_downloaded sha256 to_lowercase w metadata u)
  unfolding check_downloaded give_up set_progress
  check_downloaded-IsApplied w metadata u =
      let replaced = replace_binary-IsApplied w (set_progress "applying" u) in
      (ground (arith, replaced.0), λ h. ground (arith, replaced.1))

  download_and_apply_update-IsApplied :
      (w : World) (metadata : UpdateMetadata) (u : Updater)
      → IsApplied u (download_and_apply_update sha256 to_lowercase w metadata u)
  unfolding download_and_apply_update set_progress
  download_and_apply_update-IsApplied w metadata u =
      let u' : Updater =
        set_progress "downloading"
          (record u { binaries = (download_binary w.download u.binaries).0 }) in
      let checked = check_downloaded-IsApplied w metadata u' in
      (ground (arith, checked.0), λ h. ground (arith, checked.1))

replace_binary-stuck :
    (w : World) (u : Updater) (old : List ℕ)
    → u.binaries.current ≡ some old
    → (w.knows_current_exe && w.backs_up) ≡ false
    → replace_binary w u ≡ (u, failed io_failed)
unfolding replace_binary rename
replace_binary-stuck w u old own fails = ground (arith, own, fails)

-- What the state says once an update has ended.
abbrev pub IsConcluded : Updater × Ended → Type 0
IsConcluded (u, returned) =
    (u.state.update_progress ≡ "restarting")
    × (u.state.pending_update ≡ none)
    × (u.state.update_in_progress ≡ true)
IsConcluded (u, failed e) =
    (u.state.update_progress ≡ "none")
    × (u.state.pending_update ≡ none)
    × (u.state.update_in_progress ≡ false)
IsConcluded (u, exited) =
    (u.state.update_progress ≡ "restarting") × (u.state.update_in_progress ≡ true)

conclude-IsConcluded :
    (metadata : UpdateMetadata) (u : Updater) (r : Updater × Ended)
    → u.state.update_in_progress ≡ true
    → IsApplied u r
    → IsConcluded (conclude metadata r)
unfolding conclude with_state set_progress set_pending_update set_update_in_progress
conclude-IsConcluded metadata u (u', returned) started (same, done) =
    (done refl, refl, same ∙ started)
conclude-IsConcluded metadata u (u', failed e) started (same, done) = (refl, refl, refl)
conclude-IsConcluded metadata u (u', exited) started (same, done) = (done refl, same ∙ started)

module _ (sha256 : List ℕ → String) (to_lowercase : String → String) where
  -- An automatic update that ends with an error leaves no pending update, the progress "none" and the
  -- flag that an update is in progress off. One that ends with the process going on without an error
  -- leaves no pending update, the progress "restarting" and that flag on, and so does one that ends with
  -- the exit of the process, but for the pending update.
  pub apply_update_internal-IsConcluded :
      (w : World) (metadata : UpdateMetadata) (u : Updater)
      → IsConcluded (apply_update_internal sha256 to_lowercase w metadata u)
  unfolding apply_update_internal with_state set_update_in_progress
  apply_update_internal-IsConcluded w metadata u =
      let u' : Updater = with_state (set_update_in_progress true) u in
      conclude-IsConcluded metadata u' (download_and_apply_update sha256 to_lowercase w metadata u')
        refl (download_and_apply_update-IsApplied sha256 to_lowercase w metadata u')

  -- When a check finds a newer version while deploys run, it leaves the binaries alone and keeps the
  -- update pending. A later call, made when deploys have ended, then changes nothing while any deploy
  -- runs or waits, and applies that update when none does.
  pub check_round-deferred :
      (own_version : String) (w later : World) (config c : AutoUpdateConfig)
      (metadata : UpdateMetadata) (running now running' queued : ℕ) (u : Updater)
      → is_newer_version metadata.version own_version ≡ true
      → 0 < running
      → let r =
          check_round sha256 to_lowercase own_version w config (some metadata) running now u in
        (r.0.binaries ≡ u.binaries)
        × (r.1 ≡ returned)
        × (trigger_pending_update sha256 to_lowercase later (some c) running' queued r.0 ≡ (
            if ltb 0 (running' + queued)
            then (r.0, returned)
            else swallow (apply_update_internal sha256 to_lowercase later metadata r.0)))
  unfolding check_round check_and_apply_update check_metadata defer note_error with_state
      set_pending_update trigger_pending_update
  check_round-deferred own_version w later config c metadata running now running' queued u newer
        busy =
      let s = record u.state {
        next_check = some (now + config.check_interval_secs * 1000);
        last_check = some now;
        latest_version = some metadata.version;
        update_available = true;
        pending_update = some metadata;
        update_progress = "deferred";
        last_check_result = some (deferred metadata.version running);
      } in
      let u' : Updater = record u { state = s } in
      let e : check_round sha256 to_lowercase own_version w config (some metadata) running now u
          ≡ (u', returned) =
        ground (arith, newer, busy) in
      rw (e) (refl, refl, ground arith)

  -- A manual update whose download has passed the checks, and whose current binary cannot be found or
  -- backed up, ends with an error and leaves the progress "applying", with the binary in its place.
  pub trigger_update-stuck :
      (w : World) (metadata : UpdateMetadata) (bytes old : List ℕ) (u : Updater)
      → w.download ≡ complete bytes
      → passes_checksum sha256 to_lowercase w metadata (record u.binaries { temp = some bytes })
        ≡ true
      → run_canary_health_check w.canary ≡ true
      → u.binaries.current ≡ some old
      → (w.knows_current_exe && w.backs_up) ≡ false
      → let r = trigger_update sha256 to_lowercase w metadata u in
        (r.1 ≡ failed io_failed)
        × (r.0.state.update_progress ≡ "applying")
        × (r.0.binaries.current ≡ some old)
  unfolding trigger_update download_and_apply_update download_binary check_downloaded set_progress
  trigger_update-stuck w metadata bytes old u got passes healthy own fails =
      let u' : Updater =
        set_progress "downloading"
          (record u { binaries = record u.binaries { temp = some bytes } }) in
      let e : trigger_update sha256 to_lowercase w metadata u
          ≡ (set_progress "applying" u', failed io_failed) =
        ground (
          arith,
          got,
          passes,
          healthy,
          replace_binary-stuck w (set_progress "applying" u') old own fails,
        ) in
      rw (e) (refl, refl, own)
