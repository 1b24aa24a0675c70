-- ===== src/Mesh/Services.antt =====
-- src/services/mesh.rs: the local services that the environment lists.
use Prim.Native.Char.{Char, code}
use text.Mathlib.TextEquality.{Char-path}
use xjp_deploy_agent.Prelude.{
  nat_beq_iff, nat_beq, Bool-cases, nat_eq, string_eq, All, ℕ, String, ◌≡◌, refl, sym, ap, ◌∙◌, inl,
  inr, none, some, List, [], ◌∷◌, arith,
}
use xjp_deploy_agent.Prelude.Text.{◌⊕◌, split}
use xjp_deploy_agent.Prelude.Text.Laws.{Lacks, split-plain, split-append, Lacks-append}
use xjp_deploy_agent.Mesh.{LocalServiceConfig, join, service_of, services_of, parse_local_services}

abbrev pub print_service : LocalServiceConfig → String
print_service s = s.service_id ⊕ String.◌∷◌ ":" s.local_url

abbrev pub print_services : List LocalServiceConfig → String
print_services [] = ""
print_services (s ∷ []) = print_service s
print_services (s ∷ t ∷ ss) = print_service s ⊕ (String.◌∷◌ "," (print_services (t ∷ ss)))

-- What the format can hold: the id has no colon and no comma, and the URL no comma; there is no URL for
-- health checks.
abbrev pub IsListable : LocalServiceConfig → Type 0
IsListable s =
    Lacks 58 s.service_id
    × Lacks 44 s.service_id
    × Lacks 44 s.local_url
    × (s.health_check_url ≡ none)

split-cons :
    (separator : ℕ) (s : String)
    → (part : String) × (parts : List String) × (split separator s ≡ part ∷ parts)
unfolding split
split-cons separator String.[] = (String.[], [], refl)
split-cons separator (String.◌∷◌ c s) =
    let (part, parts, e) = split-cons separator s in
    elim (Bool-cases (nat_beq (code c) separator)) [
      | inl hit ↦ (String.[], part ∷ parts, rw (hit, e) refl)
      | inr miss ↦ (String.◌∷◌ c part, parts, rw (miss, e) refl)
    ]

join-cons :
    (c : Char) (part : String) (parts : List String)
    → join (String.◌∷◌ c part ∷ parts) ≡ String.◌∷◌ c (join (part ∷ parts))
unfolding join
join-cons c part [] = refl
join-cons c part (next ∷ parts) = refl

-- Parts that are joined again.
join-split : (s : String) → join (split 58 s) ≡ s
unfolding join split
join-split String.[] = refl
join-split (String.◌∷◌ c s) =
    let (part, parts, e) = split-cons 58 s in
    let rest : join (part ∷ parts) ≡ s = ap join (sym e) ∙ join-split s in
    elim (Bool-cases (nat_beq (code c) 58)) [
      | inl hit ↦
          let colon : c ≡ ":" = Char-path c ":" ((nat_beq_iff (code c) 58).0 hit) in
          rw (hit, e) (ap (String.◌∷◌ ":") rest ∙ ap (λ (d : Char). String.◌∷◌ d s) (sym colon))
      | inr miss ↦ rw (miss, e) (join-cons c part parts ∙ ap (String.◌∷◌ c) rest)
    ]

service_of-print :
    (s : LocalServiceConfig) → IsListable s → service_of (split 58 (print_service s)) ≡ some s
unfolding service_of
service_of-print s (no_colon, no_comma, plain, no_check) =
    let (part, parts, e) = split-cons 58 s.local_url in
    let url : join (part ∷ parts) ≡ s.local_url = ap join (sym e) ∙ join-split s.local_url in
    rw (split-append 58 ":" s.service_id s.local_url refl no_colon, e, url)
      (ground (arith, no_check))

print_service-Lacks : (s : LocalServiceConfig) → IsListable s → Lacks 44 (print_service s)
print_service-Lacks s (no_colon, no_comma, plain, no_check) =
    Lacks-append 44 s.service_id (String.◌∷◌ ":" s.local_url) no_comma (refl, plain)

services_of-print :
    (s : LocalServiceConfig) (ss : List LocalServiceConfig)
    → All IsListable (s ∷ ss)
    → services_of (split 44 (print_services (s ∷ ss))) ≡ s ∷ ss
unfolding services_of
services_of-print s [] h =
    rw
      (
        split-plain 44 (print_service s) (print_service-Lacks s h.0),
        services_of,
        service_of-print s h.0,
      )
      refl
services_of-print s (t ∷ ss) h =
    let rest = print_services (t ∷ ss) in
    rw
      (
        split-append 44 "," (print_service s) rest refl (print_service-Lacks s h.0),
        services_of,
        service_of-print s h.0,
      )
      (ap (◌∷◌ s) (services_of-print t ss h.1))

-- A list of services that is not empty, written in the documented format and with colons in the URLs,
-- is read back, when no id has a colon or a comma, no URL a comma, and no service a URL for health
-- checks.
pub parse_local_services-print_services :
    (s : LocalServiceConfig) (ss : List LocalServiceConfig)
    → All IsListable (s ∷ ss)
    → parse_local_services (print_services (s ∷ ss)) ≡ s ∷ ss
unfolding parse_local_services
parse_local_services-print_services s ss h = services_of-print s ss h
