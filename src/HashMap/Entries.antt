-- ===== src/HashMap/Entries.antt =====
-- A predicate of every entry of a map, kept by the operations and read off by a lookup.
use xjp_deploy_agent.Prelude.{
  Bool-cases, Eq, ◌==◌, nat_eq, string_eq, ◌≡◌, sym, subst, inl, inr, Bool, some, [], ◌∷◌, arith,
}
use xjp_deploy_agent.HashMap.{HashMap, get, insert, remove, modify, retain_entries}

module _ {ℓ κ μ} {K : Type ℓ} {V : Type κ} ⦃e : Eq K⦄ (P : K → V → Type μ) where
  abbrev pub Entries : HashMap K V → Type μ
  Entries [] = Unit
  Entries ((k, v) ∷ m) = P k v × Entries m

  pub insert-Entries :
      (m : HashMap K V) (k : K) (v : V) → P k v → Entries m → Entries (insert m k v)
  unfolding insert
  insert-Entries [] k v p a = (p, tt)
  insert-Entries ((i, w) ∷ m) k v p a = elim (Bool-cases (i == k)) [
    | inl same ↦ rw same (subst (λ j. P j v) (sym ((e.is_same_iff i k).0 same)) p, a.1)
    | inr other ↦ rw other (a.0, insert-Entries m k v p a.1)
  ]

  pub remove-Entries : (m : HashMap K V) (k : K) → Entries m → Entries (remove m k)
  unfolding remove
  remove-Entries [] k a = tt
  remove-Entries ((i, w) ∷ m) k a = elim (Bool-cases (i == k)) [
    | inl same ↦ rw same (remove-Entries m k a.1)
    | inr other ↦ rw other (a.0, remove-Entries m k a.1)
  ]

  pub modify-Entries :
      (m : HashMap K V) (k : K) (f : V → V)
      → ((j : K) (v : V) → P j v → P j (f v))
      → Entries m
      → Entries (modify m k f)
  unfolding modify
  modify-Entries [] k f keep a = tt
  modify-Entries ((i, w) ∷ m) k f keep a = elim (Bool-cases (i == k)) [
    | inl same ↦ rw same (keep i w a.0, a.1)
    | inr other ↦ rw other (a.0, modify-Entries m k f keep a.1)
  ]

  pub retain_entries-Entries :
      (m : HashMap K V) (p : K → V → Bool) → Entries m → Entries (retain_entries p m)
  unfolding retain_entries
  retain_entries-Entries [] p a = tt
  retain_entries-Entries ((i, w) ∷ m) p a = elim (Bool-cases (p i w)) [
    | inl passes ↦ rw passes (a.0, retain_entries-Entries m p a.1)
    | inr fails ↦ rw fails (retain_entries-Entries m p a.1)
  ]

  pub get-Entries : (m : HashMap K V) (k : K) {v : V} → Entries m → get m k ≡ some v → P k v
  unfolding get
  get-Entries [] k a h = cc
  get-Entries ((i, w) ∷ m) k {v} a h = elim (Bool-cases (i == k)) [
    | inl same ↦ subst (λ j. P j v) ((e.is_same_iff i k).0 same) (subst (P i) (ground arith) a.0)
    | inr other ↦ get-Entries m k a.1 (ground arith)
  ]
