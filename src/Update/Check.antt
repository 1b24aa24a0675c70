-- ===== src/Update/Check.antt =====
-- src/services/autoupdate.rs: the periodic check, the deferred update and the manual one. The
-- metadata that the server sends, the numbers of running and waiting deploys and the agent's own
-- version are arguments.
use xjp_deploy_agent.Prelude.{
  ltb, if◌then◌else◌, ℕ, ◌+◌, ◌*◌, String, true, false, not, Option, none, some, List,
}
use xjp_deploy_agent.Update.{
  UpdateMetadata, AutoUpdateConfig, AutoUpdateState, Updater, set_progress, set_pending_update,
  set_update_in_progress, metadata_failed, up_to_date, deferred, updated, update_failed,
  check_failed, Ended, returned, failed, exited, World,
}
use xjp_deploy_agent.Update.Version.{is_newer_version}
use xjp_deploy_agent.Update.Apply.{download_and_apply_update}

-- A change of the state alone.
unfoldable pub with_state : (AutoUpdateState → AutoUpdateState) → Updater → Updater
with_state f u = record u { state = f u.state }

-- An error of a deferred update is logged only.
unfoldable pub swallow : Updater × Ended → Updater × Ended
swallow (u, failed e) = (u, returned)
swallow (u, returned) = (u, returned)
swallow (u, exited) = (u, exited)

-- After `download_and_apply_update`, by how it ended.
unfoldable pub conclude : UpdateMetadata → Updater × Ended → Updater × Ended
conclude metadata (u, returned) = (
  with_state
      (λ s.
        set_pending_update none (record s { last_check_result = some (updated metadata.version) }))
      u,
  returned,
)
conclude metadata (u, failed e) = (
  set_progress "none" (
      with_state
        (λ s.
          set_pending_update none (
            set_update_in_progress false (record s { last_check_result = some (update_failed e) })))
        u),
  failed e,
)
conclude metadata (u, exited) = (u, exited)

-- The deferral of an update while `running` deploys run.
unfoldable pub defer : UpdateMetadata → (running : ℕ) → AutoUpdateState → AutoUpdateState
defer metadata running s = record (set_pending_update (some metadata) s) {
  update_progress = "deferred";
  last_check_result = some (deferred metadata.version running);
}

-- An error of the check is noted; the task goes on.
unfoldable pub note_error : Updater × Ended → Updater × Ended
note_error (u, failed e) =
    (with_state (λ s. record s { last_check_result = some (check_failed e) }) u, returned)
note_error (u, returned) = (u, returned)
note_error (u, exited) = (u, exited)

module _ (sha256 : List ℕ → String) (to_lowercase : String → String) where
  unfoldable pub apply_update_internal : World → UpdateMetadata → Updater → Updater × Ended
  apply_update_internal w metadata u = conclude metadata (
      download_and_apply_update sha256 to_lowercase w metadata
        (with_state (set_update_in_progress true) u))

  unfoldable pub trigger_pending_update :
      World → Option AutoUpdateConfig → (running queued : ℕ) → Updater → Updater × Ended
  trigger_pending_update w config running queued u = elim config [
    | none ↦ (u, returned)
    | some c ↦ elim u.state.pending_update [
      | none ↦ (u, returned)
      | some metadata ↦
          if ltb 0 running
          then (u, returned)
          else if ltb 0 queued
          then (u, returned)
          else swallow (apply_update_internal w metadata u)
    ]
  ]

  unfoldable pub trigger_update : World → UpdateMetadata → Updater → Updater × Ended
  trigger_update w metadata u = download_and_apply_update sha256 to_lowercase w metadata u

  -- `own_version` is the version that the agent was built with.
  module _ (own_version : String) where
    unfoldable pub check_metadata :
        World → UpdateMetadata → (running : ℕ) → Updater → Updater × Ended
    check_metadata w metadata running u =
        if not (is_newer_version metadata.version own_version)
        then (
          with_state
              (λ s. record s { update_available = false; last_check_result = some up_to_date }) u,
          returned,
        )
        else if ltb 0 running
        then (
          with_state (λ s. defer metadata running (record s { update_available = true })) u,
          returned,
        )
        else apply_update_internal w metadata
            (with_state (λ s. record s { update_available = true }) u)

    unfoldable pub check_and_apply_update :
        World → Option UpdateMetadata → (running now : ℕ) → Updater → Updater × Ended
    check_and_apply_update w fetched running now u =
        let u' : Updater = with_state (λ s. record s { last_check = some now }) u in
        elim fetched [
          | none ↦ (u', failed metadata_failed)
          | some metadata ↦
              check_metadata w metadata running
                (with_state (λ s. record s { latest_version = some metadata.version }) u')
        ]

    -- One round of the loop in `start`.
    unfoldable pub check_round :
        World
        → AutoUpdateConfig
        → Option UpdateMetadata
        → (running now : ℕ) → Updater
        → Updater × Ended
    check_round w config fetched running now u = note_error (
        check_and_apply_update w fetched running now (
          with_state (λ s. record s { next_check = some (now + config.check_interval_secs * 1000) })
            u))
