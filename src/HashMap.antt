-- ===== src/HashMap.antt =====
-- Rust's `std::collections::HashMap` as the code uses it: an association list, whose order stands
-- for the arbitrary order in which the code iterates. The operations keep the keys distinct
-- (`HashMap.Keys`), so that `len` counts the entries.
pub mod Laws
pub mod Keys
pub mod Entries
use xjp_deploy_agent.Prelude.{
  ℕ, Bool, true, false, Option, none, some, List, [], ◌∷◌, map, if◌then◌else◌, Eq, ◌==◌, length,
}

-- Not sealed: the iterating code reads the entries in order.
abbrev pub HashMap {ℓ κ} : Type ℓ → Type κ → Type (ℓ ⊔ κ)
HashMap K V = List (K × V)

module _ {ℓ κ} {K : Type ℓ} {V : Type κ} ⦃e : Eq K⦄ where
  unfoldable pub get : HashMap K V → K → Option V
  get [] k = none
  get ((j, v) ∷ m) k = if j == k then some v else get m k

  unfoldable pub contains_key : HashMap K V → K → Bool
  contains_key [] k = false
  contains_key ((j, v) ∷ m) k = if j == k then true else contains_key m k

  unfoldable pub insert : HashMap K V → K → V → HashMap K V
  insert [] k v = (k, v) ∷ []
  insert ((j, w) ∷ m) k v = if j == k then (j, v) ∷ m else (j, w) ∷ insert m k v

  unfoldable pub remove : HashMap K V → K → HashMap K V
  remove [] k = []
  remove ((j, w) ∷ m) k = let rest = remove m k in if j == k then rest else (j, w) ∷ rest

  -- `if let Some(v) = m.get_mut(k) { … }`
  unfoldable pub modify : HashMap K V → K → (V → V) → HashMap K V
  modify [] k f = []
  modify ((j, w) ∷ m) k f = if j == k then (j, f w) ∷ m else (j, w) ∷ modify m k f

module _ {ℓ κ} {K : Type ℓ} {V : Type κ} where
  -- `m.retain(|k, v| p(k, v))`
  unfoldable pub retain_entries : (K → V → Bool) → HashMap K V → HashMap K V
  retain_entries p [] = []
  retain_entries p ((j, w) ∷ m) =
      let rest = retain_entries p m in if p j w then (j, w) ∷ rest else rest

  abbrev pub len : HashMap K V → ℕ
  len m = length m

  abbrev pub values : HashMap K V → List V
  values = map λ entry. entry.1

  -- `for v in m.values() { … }` over shared values
  unfoldable pub map_values : (K → V → V) → HashMap K V → HashMap K V
  map_values f [] = []
  map_values f ((j, w) ∷ m) = (j, f j w) ∷ map_values f m
