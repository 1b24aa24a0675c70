-- ===== src/Update/Safety.antt =====
-- src/services/autoupdate.rs: which binary stands in the agent's place after an update.
use xjp_deploy_agent.Prelude.{
  if◌then◌else◌, Bool-cases, Option-cases, ℕ, String, ◌≡◌, refl, sym, ◌∙◌, subst, ◌⊎◌, inl, inr,
  true, false, ◌&&◌, Option, none, some, List, arith, eq_iff,
}
use xjp_deploy_agent.Update.{
  UpdateMetadata, AutoUpdateState, Updater, set_progress, Download, refused, broken, complete,
  World,
}
use xjp_deploy_agent.Update.Apply.{
  rename, download_binary, run_canary_health_check, verify_checksum, passes_checksum, give_up,
  after_replacing, restore, move_in, replace_binary, check_downloaded, download_and_apply_update,
}

abbrev pub with_binaries : AutoUpdateState → (current backup temp : Option (List ℕ)) → Updater
with_binaries state current backup temp = record {
  state = state;
  binaries = record { current = current; backup = backup; temp = temp };
}

current-after_replacing :
    (w : World) (u : Updater) → (after_replacing w u).0.binaries.current ≡ u.binaries.current
unfolding after_replacing set_progress
current-after_replacing w u = ground arith

-- What stands in the place of `old` after the attempt to put `bytes` there.
abbrev placed : World → (old bytes : List ℕ) → Option (List ℕ)
placed w old bytes = if w.replaces then some bytes else if w.restores then some old else none

current-move_in :
    (w : World) (s : AutoUpdateState) (old bytes : List ℕ)
    → (move_in w (with_binaries s none (some old) (some bytes))).0.binaries.current
      ≡ placed w old bytes
unfolding move_in rename restore set_progress
current-move_in w s old bytes =
    ground (arith, current-after_replacing w (with_binaries s (some bytes) (some old) none))

current-replace_binary :
    (w : World) (s : AutoUpdateState) (old bytes : List ℕ) (backup : Option (List ℕ))
    → (replace_binary w (with_binaries s (some old) backup (some bytes))).0.binaries.current
      ≡ (if w.knows_current_exe && w.backs_up then placed w old bytes else some old)
unfolding replace_binary rename
current-replace_binary w s old bytes backup = ground (arith, current-move_in w s old bytes)

pub Download-cases :
    (d : Download)
    → (d ≡ refused)
      ⊎ (((bytes : List ℕ) × (d ≡ broken bytes)) ⊎ ((bytes : List ℕ) × (d ≡ complete bytes)))
Download-cases refused = inl refl
Download-cases (broken bytes) = inr (inl (bytes, refl))
Download-cases (complete bytes) = inr (inr (bytes, refl))

module _ (sha256 : List ℕ → String) (to_lowercase : String → String) where
  -- The bytes have the checksum that the metadata names, if it names one.
  abbrev pub Matches : UpdateMetadata → List ℕ → Type 0
  Matches metadata bytes = elim metadata.sha256 [
    | none ↦ Unit {0}
    | some expected ↦ sha256 bytes ≡ to_lowercase expected
  ]

  passes_checksum-Matches :
      (w : World) (metadata : UpdateMetadata) (s : AutoUpdateState) (old bytes : List ℕ)
      (backup : Option (List ℕ))
      → passes_checksum sha256 to_lowercase w metadata
          (with_binaries s (some old) backup (some bytes)).binaries
        ≡ true
      → Matches metadata bytes
  unfolding passes_checksum verify_checksum
  passes_checksum-Matches w metadata s old bytes backup h = elim (Option-cases metadata.sha256) [
    | inl unnamed ↦
        subst
          (λ o. elim o [ none ↦ Unit {0} | some expected ↦ sha256 bytes ≡ to_lowercase expected ])
          (sym unnamed) tt
    | inr (expected, e) ↦
        subst
          (λ o. elim o [ none ↦ Unit {0} | some expected' ↦ sha256 bytes ≡ to_lowercase expected' ])
          (sym e) (ground (arith, e, h, eq_iff (sha256 bytes) (to_lowercase expected)))
  ]

  current-check_downloaded :
      (w : World) (metadata : UpdateMetadata) (s : AutoUpdateState) (old bytes : List ℕ)
      (backup : Option (List ℕ))
      → let u = with_binaries s (some old) backup (some bytes) in
        (check_downloaded sha256 to_lowercase w metadata u).0.binaries.current ≡ (
          if passes_checksum sha256 to_lowercase w metadata u.binaries
            && run_canary_health_check w.canary
            && w.knows_current_exe
            && w.backs_up
          then placed w old bytes
          else some old)
  unfolding check_downloaded give_up set_progress
  current-check_downloaded w metadata s old bytes backup =
      ground (
        arith,
        current-replace_binary w (record s { update_progress = "applying" }) old bytes backup,
      )

  -- The downloaded bytes, which have passed every check.
  abbrev pub IsInstalled : World → UpdateMetadata → Option (List ℕ) → Type 0
  IsInstalled w metadata file =
      (bytes : List ℕ) × (file ≡ some bytes)
      × (w.download ≡ complete bytes)
      × Matches metadata bytes
      × (run_canary_health_check w.canary ≡ true)

  -- What may stand in place of the binary `old`.
  abbrev pub IsSafe : World → UpdateMetadata → (old : List ℕ) → Option (List ℕ) → Type 0
  IsSafe w metadata old file =
      (file ≡ some old)
      ⊎ (IsInstalled w metadata file
          ⊎ ((file ≡ none) × (w.replaces ≡ false) × (w.restores ≡ false)))

  placed-IsSafe :
      (w : World) (metadata : UpdateMetadata) (old bytes : List ℕ)
      → w.download ≡ complete bytes
      → Matches metadata bytes
      → run_canary_health_check w.canary ≡ true
      → IsSafe w metadata old (placed w old bytes)
  placed-IsSafe w metadata old bytes got matches healthy = elim (Bool-cases w.replaces) [
    | inl works ↦ inr (inl (bytes, ground (arith, works), got, matches, healthy))
    | inr fails ↦ elim (Bool-cases w.restores) [
      | inl restored ↦ inl (ground (arith, fails, restored))
      | inr lost ↦ inr (inr (ground (arith, fails, lost), fails, lost))
    ]
  ]

  check_downloaded-IsSafe :
      (w : World) (metadata : UpdateMetadata) (s : AutoUpdateState) (old bytes : List ℕ)
      (backup : Option (List ℕ))
      → w.download ≡ complete bytes
      → let u = with_binaries s (some old) backup (some bytes) in
        IsSafe w metadata old (check_downloaded sha256 to_lowercase w metadata u).0.binaries.current
  check_downloaded-IsSafe w metadata s old bytes backup got =
      let u = with_binaries s (some old) backup (some bytes) in
      let passes = passes_checksum sha256 to_lowercase w metadata u.binaries in
      let healthy = run_canary_health_check w.canary in
      let e = current-check_downloaded w metadata s old bytes backup in
      elim (Bool-cases (passes && healthy && w.knows_current_exe && w.backs_up)) [
        | inr kept ↦ inl (e ∙ ground (arith, kept))
        | inl goes ↦ subst (IsSafe w metadata old) (sym (e ∙ ground (arith, goes))) (
            placed-IsSafe w metadata old bytes got
              (passes_checksum-Matches w metadata s old bytes backup (ground (arith, goes)))
              (ground (arith, goes)))
      ]

  -- After an update of an agent with the binary `old`, that binary still stands in its place; or the
  -- downloaded one does, whose checksum is the one in the metadata, if there is one, and whose canary
  -- answered its health request with success; or none does, and then neither the new binary could be
  -- moved in nor the old one moved back.
  pub download_and_apply_update_lem :
      (w : World) (metadata : UpdateMetadata) (s : AutoUpdateState) (old : List ℕ)
      (backup temp : Option (List ℕ))
      → let u = with_binaries s (some old) backup temp in
        IsSafe w metadata old
          (download_and_apply_update sha256 to_lowercase w metadata u).0.binaries.current
  unfolding download_and_apply_update download_binary set_progress
  download_and_apply_update_lem w metadata s old backup temp = elim (Download-cases w.download) [
    | inl refuses ↦ inl (ground (arith, refuses))
    | inr (inl (bytes, breaks)) ↦ inl (ground (arith, breaks))
    | inr (inr (bytes, completes)) ↦ subst (IsSafe w metadata old) (ground (arith, completes)) (
        check_downloaded-IsSafe w metadata (record s { update_progress = "downloading" }) old bytes
          backup completes)
  ]
