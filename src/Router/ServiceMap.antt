-- ===== src/Router/ServiceMap.antt =====
-- src/services/service_router.rs: the maps of services that the environment lists, "id=url,id=url,…".
use Prim.Native.Char.{code}
use xjp_deploy_agent.Prelude.{
  nat_beq, if◌then◌else◌, map_option, ◌==◌, nat_eq, string_eq, All, ℕ, String, ◌≡◌, refl, ap, ◌∙◌,
  Option, none, some, List, [], ◌∷◌,
}
use xjp_deploy_agent.Prelude.Text.{◌⊕◌, split}
use xjp_deploy_agent.Prelude.Text.Laws.{Lacks, split-plain, split-append, Lacks-append}
use xjp_deploy_agent.HashMap
use xjp_deploy_agent.HashMap.{HashMap}
use xjp_deploy_agent.HashMap.Laws.{get-insert}

-- `splitn(2, separator)`, when it has two parts.
unfoldable pub split_once : ℕ → String → Option (String × String)
split_once separator String.[] = none
split_once separator (String.◌∷◌ c s) =
    let rest = map_option (λ parts. (String.◌∷◌ c parts.0, parts.1)) (split_once separator s) in
    if nat_beq (code c) separator then some (String.[], s) else rest

-- The entries in their order; a later one with the same id replaces an earlier one.
unfoldable pub collect : List String → HashMap String String → HashMap String String
collect [] m = m
collect (item ∷ items) m = elim (split_once 61 item) [
  | none ↦ collect items m
  | some entry ↦ collect items (HashMap.insert m entry.0 entry.1)
]

unfoldable pub parse_service_map : String → HashMap String String
parse_service_map s = collect (split 44 s) []

abbrev pub print_entry : String × String → String
print_entry (id, url) = id ⊕ String.◌∷◌ "=" url

abbrev pub print_entries : List (String × String) → String
print_entries [] = String.[]
print_entries (e ∷ []) = print_entry e
print_entries (e ∷ f ∷ es) = print_entry e ⊕ (String.◌∷◌ "," (print_entries (f ∷ es)))

-- The id has no equals sign and no comma, and the URL no comma.
abbrev pub IsEntry : String × String → Type 0
IsEntry (id, url) = Lacks 61 id × Lacks 44 id × Lacks 44 url

-- The last URL that the list has for the id, or the one that was known before.
abbrev pub last_url : List (String × String) → String → Option String → Option String
last_url [] k known = known
last_url ((id, url) ∷ es) k known = last_url es k (if id == k then some url else known)

split_once-print :
    (id url : String) → Lacks 61 id → split_once 61 (id ⊕ String.◌∷◌ "=" url) ≡ some (id, url)
unfolding split_once
split_once-print String.[] url h = refl
split_once-print (String.◌∷◌ c s) url h = rw (split_once-print s url h.1, split_once, h.0) refl

print_entry-Lacks : (e : String × String) → IsEntry e → Lacks 44 (print_entry e)
print_entry-Lacks (id, url) (no_equals, no_comma, plain) =
    Lacks-append 44 id (String.◌∷◌ "=" url) no_comma (refl, plain)

collect-print :
    (id url : String) (items : List String) (m : HashMap String String)
    → Lacks 61 id
    → collect (print_entry (id, url) ∷ items) m ≡ collect items (HashMap.insert m id url)
unfolding collect
collect-print id url items m h = rw (split_once-print id url h, collect) refl

get-collect :
    (es : List (String × String)) (m : HashMap String String) (k : String)
    → All IsEntry es
    → HashMap.get (collect (split 44 (print_entries es)) m) k ≡ last_url es k (HashMap.get m k)
unfolding collect split split_once
get-collect [] m k h = refl
get-collect ((id, url) ∷ []) m k h =
    ap (λ items. HashMap.get (collect items m) k)
      (split-plain 44 (print_entry (id, url)) (print_entry-Lacks (id, url) h.0))
    ∙ ap (λ found. HashMap.get found k) (collect-print id url [] m h.0.0)
    ∙ get-insert m id k url
get-collect ((id, url) ∷ f ∷ es) m k h =
    let rest = print_entries (f ∷ es) in
    ap (λ items. HashMap.get (collect items m) k)
      (split-append 44 "," (print_entry (id, url)) rest refl (print_entry-Lacks (id, url) h.0))
    ∙ ap (λ found. HashMap.get found k) (collect-print id url (split 44 rest) m h.0.0)
    ∙ get-collect (f ∷ es) (HashMap.insert m id url) k h.1
    ∙ ap (last_url (f ∷ es) k) (get-insert m id k url)

-- The map that is read from entries written "id=url" and joined by commas has for each id the last URL
-- of that id, and nothing for other ids, when no id has a comma or an equals sign and no URL a comma.
pub get-parse_service_map :
    (es : List (String × String)) (k : String)
    → All IsEntry es
    → HashMap.get (parse_service_map (print_entries es)) k ≡ last_url es k none
unfolding parse_service_map HashMap.get
get-parse_service_map es k h = get-collect es [] k h
