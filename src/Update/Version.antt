-- ===== src/Update/Version.antt =====
-- src/services/autoupdate.rs: the comparison of two versions.
use xjp_deploy_agent.Prelude.{
  ltb, if◌then◌else◌, Bool-cases, unwrap_or, length, ℕ, ◌<◌, String, ◌≡◌, ◌↔◌, ◌⊎◌, inl, inr, Bool,
  true, false, Option, none, some, List, [], ◌∷◌, arith,
}
use xjp_deploy_agent.Prelude.Text.{split, parsed}

-- Parts that are no numbers of 32 bits are left out.
unfoldable pub parse_version : String → List ℕ
parse_version v = parsed 4294967295 (split 46 v)

-- The comparison of the zipped parts: the first that differ decide, and else there is no decision.
unfoldable pub compare_parts : List ℕ → List ℕ → Option Bool
compare_parts [] cs = none
compare_parts (l ∷ ls) [] = none
compare_parts (l ∷ ls) (c ∷ cs) =
    let rest = compare_parts ls cs in
    if ltb c l then some true else if ltb l c then some false else rest

unfoldable pub is_newer_parts : List ℕ → List ℕ → Bool
is_newer_parts latest current =
    unwrap_or (compare_parts latest current) (ltb (length current) (length latest))

unfoldable pub is_newer_version : (latest current : String) → Bool
is_newer_version latest current = is_newer_parts (parse_version latest) (parse_version current)

-- The lexicographic order, in which a longer list comes after its beginning.
abbrev pub IsAfter : List ℕ → List ℕ → Type 0
IsAfter [] cs = ⊥
IsAfter (l ∷ ls) [] = Unit
IsAfter (l ∷ ls) (c ∷ cs) = (c < l) ⊎ ((l ≡ c) × IsAfter ls cs)

is_newer_parts-IsAfter : (ls cs : List ℕ) → is_newer_parts ls cs ≡ true → IsAfter ls cs
unfolding is_newer_parts compare_parts
is_newer_parts-IsAfter [] cs h = ground arith
is_newer_parts-IsAfter (l ∷ ls) [] h = tt
is_newer_parts-IsAfter (l ∷ ls) (c ∷ cs) h = elim (Bool-cases (ltb c l)) [
  | inl greater ↦ inl (ground arith)
  | inr no_greater ↦ elim (Bool-cases (ltb l c)) [
    | inl less ↦ absurd (ground arith)
    | inr no_less ↦ inr (ground arith, is_newer_parts-IsAfter ls cs (ground arith))
  ]
]

IsAfter-is_newer_parts : (ls cs : List ℕ) → IsAfter ls cs → is_newer_parts ls cs ≡ true
unfolding is_newer_parts compare_parts
IsAfter-is_newer_parts [] cs h = absurd h
IsAfter-is_newer_parts (l ∷ ls) [] h = ground arith
IsAfter-is_newer_parts (l ∷ ls) (c ∷ cs) (inl greater) = ground arith
IsAfter-is_newer_parts (l ∷ ls) (c ∷ cs) (inr (same, after)) =
    ground (arith, same, IsAfter-is_newer_parts ls cs after)

-- A version is newer than another exactly when its numbers come after the other's in lexicographic
-- order.
pub is_newer_version_iff :
    (latest current : String)
    → (is_newer_version latest current ≡ true)
      ↔ IsAfter (parse_version latest) (parse_version current)
unfolding is_newer_version
is_newer_version_iff latest current = (
  is_newer_parts-IsAfter (parse_version latest) (parse_version current),
  IsAfter-is_newer_parts (parse_version latest) (parse_version current),
)

IsAfter-asym : (ls cs : List ℕ) → IsAfter ls cs → IsAfter cs ls → ⊥
IsAfter-asym [] cs a b = a
IsAfter-asym (l ∷ ls) [] a b = b
IsAfter-asym (l ∷ ls) (c ∷ cs) (inl p) (inl q) = omega arith
IsAfter-asym (l ∷ ls) (c ∷ cs) (inl p) (inr (e, q)) = omega (arith, e)
IsAfter-asym (l ∷ ls) (c ∷ cs) (inr (e, p)) (inl q) = omega (arith, e)
IsAfter-asym (l ∷ ls) (c ∷ cs) (inr (e, p)) (inr (f, q)) = IsAfter-asym ls cs p q

-- When a version is newer than another, the other is not newer than it.
pub is_newer_version-asym :
    (v w : String) → is_newer_version v w ≡ true → is_newer_version w v ≡ false
is_newer_version-asym v w h = elim (Bool-cases (is_newer_version w v)) [
  | inr older ↦ older
  | inl also ↦ absurd (
      IsAfter-asym (parse_version v) (parse_version w) ((is_newer_version_iff v w).0 h)
        ((is_newer_version_iff w v).0 also))
]
