-- ===== src/HashMap/Laws.antt =====
-- Lookups after each operation, in a form with no side condition.
use xjp_deploy_agent.Prelude.{
  ◌≡◌, refl, none, some, [], ◌∷◌, arith, if◌then◌else◌, Eq, ◌==◌, is_some, map_option, beq_refl,
}
use xjp_deploy_agent.HashMap.{HashMap, get, contains_key, insert, remove, modify, map_values}

module _ {ℓ κ} {K : Type ℓ} {V : Type κ} ⦃e : Eq K⦄ where
  pub get-insert :
      (m : HashMap K V) (k j : K) (v : V)
      → get (insert m k v) j ≡ (if k == j then some v else get m j)
  unfolding get insert
  get-insert [] k j v = refl
  get-insert ((i, w) ∷ m) k j v =
      ground (arith, get-insert m k j v, e.is_same_iff i k, e.is_same_iff i j, e.is_same_iff k j)

  pub get-remove :
      (m : HashMap K V) (k j : K) → get (remove m k) j ≡ (if k == j then none else get m j)
  unfolding get remove
  get-remove [] k j = ground arith
  get-remove ((i, w) ∷ m) k j =
      ground (arith, get-remove m k j, e.is_same_iff i k, e.is_same_iff i j, e.is_same_iff k j)

  pub get-modify :
      (m : HashMap K V) (k j : K) (f : V → V)
      → get (modify m k f) j ≡ (if k == j then map_option f (get m j) else get m j)
  unfolding get modify
  get-modify [] k j f = ground arith
  get-modify ((i, w) ∷ m) k j f =
      ground (arith, get-modify m k j f, e.is_same_iff i k, e.is_same_iff i j, e.is_same_iff k j)

  pub contains_key-get : (m : HashMap K V) (k : K) → contains_key m k ≡ is_some (get m k)
  unfolding get contains_key
  contains_key-get [] k = refl
  contains_key-get ((i, w) ∷ m) k = ground (arith, contains_key-get m k)

  pub get-map_values :
      (m : HashMap K V) (k : K) (f : K → V → V)
      → get (map_values f m) k ≡ map_option (f k) (get m k)
  unfolding get map_values
  get-map_values [] k f = refl
  get-map_values ((i, w) ∷ m) k f = ground (arith, get-map_values m k f, e.is_same_iff i k)

  pub get-insert_self : (m : HashMap K V) (k : K) (v : V) → get (insert m k v) k ≡ some v
  get-insert_self m k v = rw (get-insert m k k v, beq_refl k)

  pub get-remove_self : (m : HashMap K V) (k : K) → get (remove m k) k ≡ none
  get-remove_self m k = rw (get-remove m k k, beq_refl k)
