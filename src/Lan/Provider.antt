-- ===== src/Lan/Provider.antt =====
-- src/services/lan_discovery/mod.rs: the peer that is chosen for a service.
use xjp_deploy_agent.Prelude.{
  List-cases, Bool-cases, retain, All, ℕ, String, ◌≡◌, refl, sym, ap, ◌∙◌, subst, inl, inr, Bool,
  true, false, ◌&&◌, Option, none, some, List, [], ◌∷◌, arith,
}
use mathlib.Core.List.{Memᴰ}
use mathlib.Core.List.Memᴰ.{cases_cons}
use xjp_deploy_agent.HashMap.{values}
use xjp_deploy_agent.Lan.{
  DiscoveredPeer, LanDiscovery, offers_service, is_slower, fastest, min_by_latency,
  get_service_provider,
}

is_slower_trans :
    (a b c : Option ℕ) → is_slower a b ≡ false → is_slower b c ≡ false → is_slower a c ≡ false
unfolding is_slower
is_slower_trans none b none p q = refl
is_slower_trans none none (some c) p q = cc
is_slower_trans none (some b) (some c) p q = cc
is_slower_trans (some a) b none p q = refl
is_slower_trans (some a) none (some c) p q = cc
is_slower_trans (some a) (some b) (some c) p q = ground arith

is_slower_refl : (a : Option ℕ) → is_slower a a ≡ false
unfolding is_slower
is_slower_refl none = refl
is_slower_refl (some a) = ground arith

is_slower_total : (a b : Option ℕ) → is_slower a b ≡ true → is_slower b a ≡ false
unfolding is_slower
is_slower_total none none h = refl
is_slower_total none (some b) h = refl
is_slower_total (some a) none h = cc
is_slower_total (some a) (some b) h = ground arith

-- No peer of the list answers faster than `p`.
abbrev pub IsFastest : DiscoveredPeer → List DiscoveredPeer → Type 0
IsFastest p = All λ q. is_slower p.latency_ms q.latency_ms ≡ false

insert_second {ℓ} : {A : Type ℓ} {x y z : A} {xs : List A} → Memᴰ x (y ∷ xs) → Memᴰ x (y ∷ z ∷ xs)
insert_second (Memᴰ.head e) = Memᴰ.head e
insert_second (Memᴰ.tail m) = Memᴰ.tail (Memᴰ.tail m)

retain_passes {ℓ} :
    {A : Type ℓ} (p : A → Bool) (x : A) (xs : List A)
    → p x ≡ true
    → retain p (x ∷ xs) ≡ x ∷ retain p xs
unfolding retain
retain_passes p x xs h = ground arith

retain_fails {ℓ} :
    {A : Type ℓ} (p : A → Bool) (x : A) (xs : List A)
    → p x ≡ false
    → retain p (x ∷ xs) ≡ retain p xs
unfolding retain
retain_fails p x xs h = ground arith

Memᴰ-retain {ℓ} :
    {A : Type ℓ} (p : A → Bool) (x : A) (xs : List A)
    → Memᴰ x (retain p xs)
    → Memᴰ x xs × (p x ≡ true)
unfolding retain
Memᴰ-retain p x [] m = elim m [ ]
Memᴰ-retain p x (y ∷ ys) m = elim (Bool-cases (p y)) [
  | inl passes ↦ elim (cases_cons (subst (Memᴰ x) (retain_passes p y ys passes) m)) [
    | inl e ↦ (Memᴰ.head e, ap p e ∙ passes)
    | inr later ↦ let (within, holds) = Memᴰ-retain p x ys later in (Memᴰ.tail within, holds)
  ]
  | inr fails ↦
      let (later, passes) = Memᴰ-retain p x ys (subst (Memᴰ x) (retain_fails p y ys fails) m) in
      (Memᴰ.tail later, passes)
]

-- `p` is one of the peers, and none of them is faster.
abbrev pub IsChosen : List DiscoveredPeer → DiscoveredPeer → Type 0
IsChosen ps p = Memᴰ p ps × IsFastest p ps

fastest-IsChosen :
    (best : DiscoveredPeer) (ps : List DiscoveredPeer) → IsChosen (best ∷ ps) (fastest best ps)
unfolding fastest
fastest-IsChosen best [] = (Memᴰ.head refl, (is_slower_refl best.latency_ms, tt))
fastest-IsChosen best (p ∷ ps) = elim (Bool-cases (is_slower best.latency_ms p.latency_ms)) [
  | inl slower ↦
      let (among, least) = fastest-IsChosen p ps in
      subst (IsChosen (best ∷ p ∷ ps)) (rw (slower, fastest) refl) (
        Memᴰ.tail among,
        (
          is_slower_trans (fastest p ps).latency_ms p.latency_ms best.latency_ms least.0
              (is_slower_total best.latency_ms p.latency_ms slower),
          least,
        ),
      )
  | inr holds ↦
      let (among, least) = fastest-IsChosen best ps in
      subst (IsChosen (best ∷ p ∷ ps)) (rw (holds, fastest) refl) (
        insert_second among,
        (
          least.0,
          (
            is_slower_trans (fastest best ps).latency_ms best.latency_ms p.latency_ms least.0 holds,
            least.1,
          ),
        ),
      )
]

All-retain_and {ℓ} :
    {A : Type ℓ} (r p : A → Bool) (xs : List A)
    → All (λ x. r x ≡ false) (retain p xs)
    → All (λ x. (p x && r x) ≡ false) xs
unfolding retain
All-retain_and r p [] a = tt
All-retain_and r p (x ∷ xs) a = elim (Bool-cases (p x)) [
  | inl passes ↦
      let kept = subst (All (λ x. r x ≡ false)) (retain_passes p x xs passes) a in
      (ground (arith, kept.0), All-retain_and r p xs kept.1)
  | inr fails ↦ (
    ground arith,
    All-retain_and r p xs (subst (All (λ x. r x ≡ false)) (retain_fails p x xs fails) a),
  )
]

retain_none {ℓ} :
    {A : Type ℓ} (p : A → Bool) (xs : List A) → retain p xs ≡ [] → All (λ x. p x ≡ false) xs
unfolding retain
retain_none p [] h = tt
retain_none p (x ∷ xs) h = elim (Bool-cases (p x)) [
  | inl passes ↦ absurd (ground arith)
  | inr fails ↦ (fails, retain_none p xs (ground arith))
]

-- What the choice of a provider among the peers `ps` has to be.
abbrev pub IsProvider : String → List DiscoveredPeer → Option DiscoveredPeer → Type 0
IsProvider service_id ps none = All (λ q. offers_service service_id q ≡ false) ps
IsProvider service_id ps (some p) =
    Memᴰ p ps
    × (offers_service service_id p ≡ true)
    × All (λ q. (offers_service service_id q && is_slower p.latency_ms q.latency_ms) ≡ false) ps

min_by_latency-IsProvider :
    (service_id : String) (ps : List DiscoveredPeer)
    → IsProvider service_id ps (min_by_latency (retain (offers_service service_id) ps))
unfolding min_by_latency
min_by_latency-IsProvider service_id ps =
    let kept = retain (offers_service service_id) ps in
    elim (List-cases kept) [
      | inl empty ↦
          subst (λ l. IsProvider service_id ps (min_by_latency l)) (sym empty)
            (retain_none (offers_service service_id) ps empty)
      | inr (q, qs, e) ↦
          let best = fastest q qs in
          let (among, least) = subst (λ l. IsChosen l best) (sym e) (fastest-IsChosen q qs) in
          let (within, offers) = Memᴰ-retain (offers_service service_id) best ps among in
          subst (λ l. IsProvider service_id ps (min_by_latency l)) (sym e)
            (
              within,
              offers,
              All-retain_and (λ q. is_slower best.latency_ms q.latency_ms)
                  (offers_service service_id) ps least,
            )
    ]

-- The provider of a service is a healthy peer that offers it, and no healthy peer that offers it has
-- a smaller latency, where one that was never measured counts as the largest; there is none only if
-- no healthy peer offers the service.
pub get_service_provider_lem :
    (d : LanDiscovery) (service_id : String)
    → IsProvider service_id (values d.discovered_peers) (get_service_provider d service_id)
unfolding get_service_provider
get_service_provider_lem d service_id =
    min_by_latency-IsProvider service_id (values d.discovered_peers)
