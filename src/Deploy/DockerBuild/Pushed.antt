-- ===== src/Deploy/DockerBuild/Pushed.antt =====
-- src/services/deploy/docker_build.rs: when the deploy succeeds, and which images it pushes.
use xjp_deploy_agent.Prelude.{
  List-cases, if◌then◌else◌, is_some, nat_eq, string_eq, ℕ, String, ◌≡◌, refl, ap, ◌∙◌, subst, inl,
  inr, Bool, true, false, not, ◌&&◌, none, some, List, [], ◌∷◌, ◌++◌, arith,
}
use xjp_deploy_agent.Prelude.Text.{◌⊕◌}
use xjp_deploy_agent.Prelude.Int.{negsuc}
use xjp_deploy_agent.Task.{is_terminal}
use xjp_deploy_agent.Task.Stage.{DeployStage}
use xjp_deploy_agent.Task.Stage
use xjp_deploy_agent.Deploy.Execute.{Outcome}
use xjp_deploy_agent.Deploy.Script.{is_success}
use xjp_deploy_agent.Deploy.DockerBuild.{
  DockerBuildConfig, Run, ran, not_run, Build, ended, not_started, cancelled, Happening,
  DockerCommand, git_pull, docker_build, docker_push, docker_tag, Building, is_zero, succeeds,
  end_stage, stop_cancelled, skip_all, pull_code, full_image, finish, push_latest_tag, after_push,
  push_image, after_build, after_wait, build_image, execute,
}

-- The images that the commands push.
abbrev pub pushed : List DockerCommand → List String
pushed [] = []
pushed (docker_push image ∷ cs) = image ∷ pushed cs
pushed (git_pull branch ∷ cs) = pushed cs
pushed (docker_build image dockerfile context ∷ cs) = pushed cs
pushed (docker_tag image alias_ ∷ cs) = pushed cs

pushed-append : (cs ds : List DockerCommand) → pushed (cs ++ ds) ≡ pushed cs ++ pushed ds
pushed-append [] ds = refl
pushed-append (docker_push image ∷ cs) ds = ap (◌∷◌ image) (pushed-append cs ds)
pushed-append (git_pull branch ∷ cs) ds = pushed-append cs ds
pushed-append (docker_build image dockerfile context ∷ cs) ds = pushed-append cs ds
pushed-append (docker_tag image alias_ ∷ cs) ds = pushed-append cs ds

abbrev pub is_built : Build → Bool
is_built (ended run) = succeeds run
is_built (not_started e) = false
is_built cancelled = false

-- A failing command has a code that is not 0.
pub code-end_stage :
    (stage : DeployStage) (run : Run) (message : String) (now : ℕ)
    → is_zero (end_stage stage run message now).1 ≡ succeeds run
unfolding end_stage
code-end_stage stage (ran none) message now = refl
code-end_stage stage (ran (some code)) message now = ground arith
code-end_stage stage (not_run e) message now = refl

-- How a deploy ends: whether it is a success, that it has a terminal status and an exit code, and what
-- it has pushed.
abbrev pub Ends : Outcome × List DockerCommand → (ok : Bool) → (images : List String) → Type 0
Ends r ok images =
    (is_success r.0.status ≡ ok)
    × (is_terminal r.0.status ≡ true)
    × (is_some r.0.exit_code ≡ true)
    × (pushed r.1 ≡ images)

abbrev has_latest : List DeployStage → Bool
has_latest [] = false
has_latest (stage ∷ stages) = true

module _ (config : DockerBuildConfig) (h : Happening) where
  abbrev latest_image : String
  latest_image = config.image ⊕ ":latest"

  pushed-push_latest_tag :
      (b : Building) (images : List String)
      → pushed b.commands ≡ images
      → has_latest b.latest ≡ true
      → pushed (push_latest_tag config h b).commands ≡ images ++ latest_image ∷ []
  unfolding push_latest_tag
  pushed-push_latest_tag b images e there = elim (List-cases b.latest) [
    | inl none_ ↦ absurd (ground (arith, none_, there))
    | inr (stage, stages, l) ↦
        rw (l) (pushed-append b.commands _ ∙ ap (λ is. is ++ latest_image ∷ []) e)
  ]

  exit_code-push_latest_tag : (b : Building) → (push_latest_tag config h b).exit_code ≡ b.exit_code
  unfolding push_latest_tag
  exit_code-push_latest_tag b = elim (List-cases b.latest) [
    | inl l ↦ rw (l) refl
    | inr (stage, stages, l) ↦ rw (l) refl
  ]

  after_push-Ends :
      (b : Building) (images : List String)
      → pushed b.commands ≡ images
      → has_latest b.latest ≡ config.push_latest
      → Ends (after_push config h b) (is_zero b.exit_code && not h.cancelled_before_latest) (
          if is_zero b.exit_code && not h.cancelled_before_latest && config.push_latest
          then images ++ latest_image ∷ []
          else images)
  unfolding after_push finish stop_cancelled is_success is_terminal
  after_push-Ends b images e there = (
    ground (arith, exit_code-push_latest_tag b),
    ground (arith, exit_code-push_latest_tag b),
    ground (arith),
    ground (arith, e, there, pushed-push_latest_tag b images e),
  )

  -- What is pushed once the image is built.
  abbrev pub images_of : (go : Bool) → List String
  images_of go =
      if go && not h.cancelled_before_push
      then full_image config h
        ∷ (if succeeds h.push && not h.cancelled_before_latest && config.push_latest
            then latest_image ∷ []
            else [])
      else []

  abbrev pub ends_well : (go : Bool) → Bool
  ends_well go =
      go && not h.cancelled_before_push && succeeds h.push && not h.cancelled_before_latest

  push_image-Ends :
      (b : Building)
      → pushed b.commands ≡ []
      → has_latest b.latest ≡ config.push_latest
      → Ends
          (after_push config h (push_image config h b))
          (succeeds h.push && not h.cancelled_before_latest)
          (full_image config h
            ∷ (if succeeds h.push && not h.cancelled_before_latest && config.push_latest
                then latest_image ∷ []
                else []))
  unfolding push_image
  push_image-Ends b none_yet there =
      let e =
        code-end_stage (Stage.start b.pushing (h.times 4)) h.push "docker push failed"
          (h.times 5) in
      let (ok, terminal, code, images) =
        after_push-Ends (push_image config h b) (full_image config h ∷ [])
          (pushed-append b.commands _ ∙ ap (λ is. is ++ full_image config h ∷ []) none_yet) there in
      (ok ∙ ground (arith, e), terminal, code, images ∙ ground (arith, e))

  after_build-Ends :
      (b : Building)
      → pushed b.commands ≡ []
      → has_latest b.latest ≡ config.push_latest
      → Ends
          (after_build config h b)
          (ends_well (is_zero b.exit_code))
          (images_of (is_zero b.exit_code))
  unfolding after_build stop_cancelled is_success is_terminal
  after_build-Ends b none_yet there =
      let (ok, terminal, code, images) = push_image-Ends b none_yet there in
      let (ok', terminal', code', images') = after_push-Ends b [] none_yet there in
      (
        ground (arith, ok, ok'),
        ground (arith, terminal, terminal'),
        ground (arith, code, code'),
        ground (arith, images, images', none_yet),
      )

  after_wait-Ends :
      (b : Building) (build : Build)
      → pushed b.commands ≡ []
      → has_latest b.latest ≡ config.push_latest
      → Ends (after_wait config h b build) (ends_well (is_built build)) (images_of (is_built build))
  unfolding after_wait stop_cancelled skip_all is_success is_terminal
  after_wait-Ends b (not_started e) none_yet there =
      after_build-Ends
        (record b {
          building = Stage.finish b.building false (some e) (h.times 3);
          exit_code = negsuc 0;
        })
        none_yet there
  after_wait-Ends b cancelled none_yet there = (refl, refl, refl, none_yet)
  after_wait-Ends b (ended run) none_yet there =
      let (building, code) = end_stage b.building run "docker build failed" (h.times 3) in
      subst (λ ok. Ends (after_wait config h b (ended run)) (ends_well ok) (images_of ok))
        (code-end_stage b.building run "docker build failed" (h.times 3))
        (after_build-Ends (record b { building = building; exit_code = code }) none_yet there)

  build_image-Ends :
      (b : Building)
      → pushed b.commands ≡ []
      → has_latest b.latest ≡ config.push_latest
      → Ends (build_image config h b) (ends_well (is_built h.build)) (images_of (is_built h.build))
  unfolding build_image
  build_image-Ends b none_yet there =
      after_wait-Ends _ h.build (pushed-append b.commands _ ∙ ap (λ is. is ++ []) none_yet) there

  -- A docker deploy succeeds exactly if nothing cancels it, `git pull` and the build and the push of the
  -- image succeed, whatever becomes of the tag `latest`; it always ends in a terminal status with an
  -- exit code. It tries to push the image exactly if the pull and the build have succeeded and it is not
  -- cancelled before, and then `latest` exactly if that is configured, the push has succeeded and it is
  -- not cancelled before; it pushes nothing else.
  pub execute_build_lem :
      let go = not h.cancelled_after_pull && succeeds h.pull && is_built h.build in
      Ends (execute config h) (ends_well go) (images_of go)
  unfolding execute pull_code stop_cancelled is_success is_terminal
  execute_build_lem =
      let b = pull_code config h in
      let e =
        code-end_stage (Stage.start (Stage.new "git_pull" "Git Pull") (h.times 0)) h.pull
          "git pull failed" (h.times 1) in
      let there : has_latest b.latest ≡ config.push_latest = ground arith in
      let (ok, terminal, code, images) = build_image-Ends b refl there in
      let (ok', terminal', code', images') = after_build-Ends b refl there in
      (
        ground (arith, e, ok, ok'),
        ground (arith, terminal, terminal'),
        ground (arith, code, code'),
        ground (arith, e, images, images'),
      )
