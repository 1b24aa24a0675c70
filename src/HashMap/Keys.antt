-- ===== src/HashMap/Keys.antt =====
-- The operations keep the keys of a map distinct; what `retain` does rests on that.
use xjp_deploy_agent.Prelude.{
  ◌≡◌, refl, Bool, true, false, none, [], ◌∷◌, arith, if◌then◌else◌, Eq, ◌==◌, filter_option,
}
use xjp_deploy_agent.HashMap.{HashMap, get, contains_key, insert, remove, modify, retain_entries}

module _ {ℓ κ} {K : Type ℓ} {V : Type κ} ⦃e : Eq K⦄ where
  -- No key stands twice.
  abbrev pub HasDistinctKeys : HashMap K V → Type 0
  HasDistinctKeys [] = Unit
  HasDistinctKeys ((k, v) ∷ m) = (contains_key m k ≡ false) × HasDistinctKeys m

  contains_key-insert :
      (m : HashMap K V) (k j : K) (v : V)
      → contains_key (insert m k v) j ≡ (if k == j then true else contains_key m j)
  unfolding contains_key insert
  contains_key-insert [] k j v = ground arith
  contains_key-insert ((i, w) ∷ m) k j v =
      ground (
        arith,
        contains_key-insert m k j v,
        e.is_same_iff i k,
        e.is_same_iff i j,
        e.is_same_iff k j,
      )

  pub insert-HasDistinctKeys :
      (m : HashMap K V) (k : K) (v : V) → HasDistinctKeys m → HasDistinctKeys (insert m k v)
  unfolding insert contains_key
  insert-HasDistinctKeys [] k v d = (refl, tt)
  insert-HasDistinctKeys ((i, w) ∷ m) k v d = ground (
    arith,
    insert-HasDistinctKeys m k v d.1,
    contains_key-insert m k i v,
    e.is_same_iff i k,
    e.is_same_iff k i,
  )

  contains_key-remove :
      (m : HashMap K V) (k j : K) → contains_key m j ≡ false → contains_key (remove m k) j ≡ false
  unfolding contains_key remove
  contains_key-remove [] k j h = refl
  contains_key-remove ((i, w) ∷ m) k j h = ground (arith, contains_key-remove m k j)

  pub remove-HasDistinctKeys :
      (m : HashMap K V) (k : K) → HasDistinctKeys m → HasDistinctKeys (remove m k)
  unfolding remove
  remove-HasDistinctKeys [] k d = tt
  remove-HasDistinctKeys ((i, w) ∷ m) k d =
      ground (arith, remove-HasDistinctKeys m k d.1, contains_key-remove m k i)

  contains_key-modify :
      (m : HashMap K V) (k j : K) (f : V → V) → contains_key (modify m k f) j ≡ contains_key m j
  unfolding contains_key modify
  contains_key-modify [] k j f = refl
  contains_key-modify ((i, w) ∷ m) k j f = ground (arith, contains_key-modify m k j f)

  pub modify-HasDistinctKeys :
      (m : HashMap K V) (k : K) (f : V → V) → HasDistinctKeys m → HasDistinctKeys (modify m k f)
  unfolding modify
  modify-HasDistinctKeys [] k f d = tt
  modify-HasDistinctKeys ((i, w) ∷ m) k f d =
      ground (arith, modify-HasDistinctKeys m k f d.1, contains_key-modify m k i f)

  contains_key-retain_entries :
      (m : HashMap K V) (p : K → V → Bool) (j : K)
      → contains_key m j ≡ false
      → contains_key (retain_entries p m) j ≡ false
  unfolding contains_key retain_entries
  contains_key-retain_entries [] p j h = refl
  contains_key-retain_entries ((i, w) ∷ m) p j h = ground (arith, contains_key-retain_entries m p j)

  pub retain_entries-HasDistinctKeys :
      (m : HashMap K V) (p : K → V → Bool)
      → HasDistinctKeys m
      → HasDistinctKeys (retain_entries p m)
  unfolding retain_entries
  retain_entries-HasDistinctKeys [] p d = tt
  retain_entries-HasDistinctKeys ((i, w) ∷ m) p d =
      ground (arith, retain_entries-HasDistinctKeys m p d.1, contains_key-retain_entries m p i)

  get_absent : (m : HashMap K V) (k : K) → contains_key m k ≡ false → get m k ≡ none
  unfolding contains_key get
  get_absent [] k h = refl
  get_absent ((i, w) ∷ m) k h = ground (arith, get_absent m k)

  -- `retain` keeps exactly the entries that pass.
  pub get-retain_entries :
      (m : HashMap K V) (p : K → V → Bool) (k : K)
      → HasDistinctKeys m
      → get (retain_entries p m) k ≡ filter_option (p k) (get m k)
  unfolding get retain_entries
  get-retain_entries [] p k d = refl
  get-retain_entries ((i, w) ∷ m) p k d =
      ground (arith, get-retain_entries m p k d.1, get_absent m k, e.is_same_iff i k)
