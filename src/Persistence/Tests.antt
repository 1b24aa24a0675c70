-- ===== src/Persistence/Tests.antt =====
-- The theorems on the persisted queue at concrete inputs.
use xjp_deploy_agent.Prelude.{retain, any, ℕ, refl, some, List, [], ◌∷◌}
use xjp_deploy_agent.Samples.{json, persisted, stored}
use xjp_deploy_agent.Persistence
use xjp_deploy_agent.Persistence.File
use xjp_deploy_agent.Persistence.File.{
  Files, Save, no_directory, write_fails, rename_fails, saves, save,
}
use xjp_deploy_agent.Persistence.Durable.{
  Call, adds, removes, updates, run, IsInStep, save_atomic, run-IsInStep, run-AreDistinct,
}

abbrev calls : List (ℕ × Call × Save json.Text)
calls =
    (8, adds (persisted "t2" "queued"), saves)
    ∷ (9, updates "t2" "running" (some 9), saves)
    ∷ (10, removes "t1", saves)
    ∷ (11, removes "t9", rename_fails)
    ∷ []

run-IsInStep_example : IsInStep json (run json (stored (persisted "t1" "queued" ∷ [])) calls).0
unfolding File.load_file run xjp_deploy_agent.Persistence.Durable.step File.add_task File.saved save
    File.update_task_status File.remove_task Persistence.remove_task retain
    Persistence.update_task_status any Persistence.add_task Persistence.has_id
    Persistence.update_first Persistence.set_status
run-IsInStep_example =
    run-IsInStep json (λ q. refl) (stored (persisted "t1" "queued" ∷ [])) calls refl refl
