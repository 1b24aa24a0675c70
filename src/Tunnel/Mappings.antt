-- ===== src/Tunnel/Mappings.antt =====
-- src/domain/tunnel.rs: the port mappings that the environment lists,
-- "name:remote_port:local_host:local_port,…".
use xjp_deploy_agent.Prelude.{
  map_option, All, ◌≤◌, String, ◌≡◌, refl, ap, ◌∙◌, Option, none, some, List, [], ◌∷◌, arith,
}
use xjp_deploy_agent.Prelude.Text.{
  ◌⊕◌, is_whitespace, split, trim, trim_start, trim_end, parse_uint, decimal_port,
}
use xjp_deploy_agent.Prelude.Text.Laws.{
  Lacks, IsSolid, split-plain, split-append, Lacks-append, IsSolid-append, trim-solid,
}
use xjp_deploy_agent.Prelude.Text.Decimal.{
  decimal_port-Lacks, decimal_port-IsSolid, parse_uint-decimal_port,
}
use xjp_deploy_agent.Tunnel.{PortMapping}

-- An item is dropped unless it has four parts, of which the second and the last are numbers of 16
-- bits.
unfoldable pub mapping_of : List String → Option PortMapping
mapping_of (name ∷ remote ∷ local_host ∷ here ∷ []) = elim (parse_uint 65535 remote) [
  | none ↦ none
  | some remote_port ↦
      map_option
        (λ local_port. record {
          remote_port = remote_port;
          local_host = local_host;
          local_port = local_port;
          name = name;
        })
        (parse_uint 65535 here)
]
mapping_of parts = none

unfoldable pub parse_mapping : String → Option PortMapping
parse_mapping s = mapping_of (split 58 (trim s))

unfoldable pub parse_items : List String → List PortMapping
parse_items [] = []
parse_items (s ∷ ss) = elim (parse_mapping s) [
  | none ↦ parse_items ss
  | some mapping ↦ mapping ∷ parse_items ss
]

unfoldable pub parse_mappings : String → List PortMapping
parse_mappings mappings_str = parse_items (split 44 mappings_str)

-- The text of a list of mappings in that format.
abbrev pub print_mapping : PortMapping → String
print_mapping m =
    m.name
    ⊕ (String.◌∷◌ ":" (
        decimal_port m.remote_port
        ⊕ (String.◌∷◌ ":" (m.local_host ⊕ (String.◌∷◌ ":" (decimal_port m.local_port))))))

abbrev pub print_mappings : List PortMapping → String
print_mappings [] = String.[]
print_mappings (m ∷ []) = print_mapping m
print_mappings (m ∷ n ∷ ms) = print_mapping m ⊕ (String.◌∷◌ "," (print_mappings (n ∷ ms)))

-- The name and the host have no colon, no comma and no white space, and the ports have 16 bits.
abbrev pub IsPlain : String → Type 0
IsPlain s = Lacks 58 s × Lacks 44 s × IsSolid s

abbrev pub IsPrintable : PortMapping → Type 0
IsPrintable m =
    IsPlain m.name × IsPlain m.local_host × (m.remote_port ≤ 65535) × (m.local_port ≤ 65535)

print_mapping-IsSolid : (m : PortMapping) → IsPrintable m → IsSolid (print_mapping m)
unfolding is_whitespace
print_mapping-IsSolid m (name, host, remote, here) = IsSolid-append m.name _ name.2 (
  refl,
  IsSolid-append (decimal_port m.remote_port) _ (decimal_port-IsSolid m.remote_port)
      (refl, IsSolid-append m.local_host _ host.2 (refl, decimal_port-IsSolid m.local_port)),
)

print_mapping-Lacks : (m : PortMapping) → IsPrintable m → Lacks 44 (print_mapping m)
print_mapping-Lacks m (name, host, remote, here) = Lacks-append 44 m.name _ name.1 (
  refl,
  Lacks-append 44 (decimal_port m.remote_port) _ (decimal_port-Lacks 44 m.remote_port refl)
      (refl, Lacks-append 44 m.local_host _ host.1 (refl, decimal_port-Lacks 44 m.local_port refl)),
)

split-print_mapping :
    (m : PortMapping)
    → IsPrintable m
    → split 58 (print_mapping m)
      ≡ m.name ∷ decimal_port m.remote_port ∷ m.local_host ∷ decimal_port m.local_port ∷ []
split-print_mapping m (name, host, remote, here) =
    split-append 58 ":" m.name _ refl name.0
    ∙ ap (◌∷◌ m.name) (
        split-append 58 ":" (decimal_port m.remote_port) _ refl
          (decimal_port-Lacks 58 m.remote_port refl)
        ∙ ap (◌∷◌ (decimal_port m.remote_port)) (
            split-append 58 ":" m.local_host _ refl host.0
            ∙ ap (◌∷◌ m.local_host) (
                split-plain 58 (decimal_port m.local_port)
                  (decimal_port-Lacks 58 m.local_port refl))))

parse_mapping-print_mapping :
    (m : PortMapping) → IsPrintable m → parse_mapping (print_mapping m) ≡ some m
unfolding parse_mapping mapping_of
parse_mapping-print_mapping m h =
    let (name, host, remote, here) = h in
    ap (λ s. mapping_of (split 58 s)) (trim-solid (print_mapping m) (print_mapping-IsSolid m h))
    ∙ ap mapping_of (split-print_mapping m h)
    ∙ rw
        (
          parse_uint-decimal_port m.remote_port remote,
          parse_uint-decimal_port m.local_port here,
          mapping_of,
        )
        refl

parse_items-some :
    (s : String) (ss : List String) (m : PortMapping)
    → parse_mapping s ≡ some m
    → parse_items (s ∷ ss) ≡ m ∷ parse_items ss
unfolding parse_items
parse_items-some s ss m h = ground (arith, h)

-- A list of mappings that is written in the documented format is read back, when no name and no host
-- has a comma, a colon or white space and the ports are below 65536.
pub parse_mappings-print_mappings :
    (ms : List PortMapping) → All IsPrintable ms → parse_mappings (print_mappings ms) ≡ ms
unfolding parse_mappings parse_items parse_mapping mapping_of split trim trim_start trim_end
parse_mappings-print_mappings [] h = refl
parse_mappings-print_mappings (m ∷ []) h =
    ap parse_items (split-plain 44 (print_mapping m) (print_mapping-Lacks m h.0))
    ∙ parse_items-some (print_mapping m) [] m (parse_mapping-print_mapping m h.0)
parse_mappings-print_mappings (m ∷ n ∷ ms) h =
    let rest = print_mappings (n ∷ ms) in
    ap parse_items (split-append 44 "," (print_mapping m) rest refl (print_mapping-Lacks m h.0))
    ∙ parse_items-some (print_mapping m) (split 44 rest) m (parse_mapping-print_mapping m h.0)
    ∙ ap (◌∷◌ m) (parse_mappings-print_mappings (n ∷ ms) h.1)
