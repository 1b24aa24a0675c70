-- ===== src/Update/Source.antt =====
-- src/config/autoupdate.rs and src/services/autoupdate.rs: the addresses of the metadata and of the
-- binary, which is fetched from the endpoint of the service "rustfs" that is found first.
use Prim.Native.Char.{code}
use xjp_deploy_agent.Prelude.{
  nat_beq, if◌then◌else◌, filter_option, ℕ, zero, suc, ◌-◌, String, not, ◌&&◌, Option, none, some,
}
use xjp_deploy_agent.Prelude.Text.{◌⊕◌, is_empty_text, starts_with}
use xjp_deploy_agent.Update.{AutoUpdateConfig}
use xjp_deploy_agent.Router.{ServiceEndpoint}

abbrev text_length : String → ℕ
text_length String.[] = 0
text_length (String.◌∷◌ c s) = suc (text_length s)

-- `str::replace` from left to right; `skip` characters belong to the last occurrence.
unfoldable pub replace_from : (skip : ℕ) → (pattern_ with : String) → String → String
replace_from skip pattern_ with String.[] = String.[]
replace_from (suc skip) pattern_ with (String.◌∷◌ c s) = replace_from skip pattern_ with s
replace_from zero pattern_ with (String.◌∷◌ c s) =
    let dropped = replace_from (text_length pattern_ - 1) pattern_ with s in
    let kept = replace_from zero pattern_ with s in
    if starts_with pattern_ (String.◌∷◌ c s) then with ⊕ dropped else String.◌∷◌ c kept

-- `trim_end_matches('/')`
unfoldable pub trim_end_slash : String → String
trim_end_slash String.[] = String.[]
trim_end_slash (String.◌∷◌ c s) =
    let rest = trim_end_slash s in
    if is_empty_text rest && nat_beq (code c) 47 then String.[] else String.◌∷◌ c rest

unfoldable pub metadata_url : AutoUpdateConfig → String
metadata_url config = config.endpoint ⊕ ("/" ⊕ config.metadata_path)

unfoldable pub binary_path : AutoUpdateConfig → (version : String) → String
binary_path config version = replace_from 0 "{version}" version config.binary_path_template

unfoldable pub binary_url : AutoUpdateConfig → (version : String) → String
binary_url config version = config.endpoint ⊕ ("/" ⊕ binary_path config version)

unfoldable pub resolved_url : AutoUpdateConfig → (endpoint version : String) → String
resolved_url config endpoint version = trim_end_slash endpoint ⊕ ("/" ⊕ binary_path config version)

-- The router's endpoint for "rustfs", if there is a router, and the mesh's answer, if it is on and has
-- one.
unfoldable pub resolve_binary_url :
    Option ServiceEndpoint → Option String → AutoUpdateConfig → (version : String) → String
resolve_binary_url routed by_mesh config version =
    elim (filter_option (λ (e : ServiceEndpoint). not (is_empty_text e.url) && e.healthy) routed) [
      | some endpoint ↦ resolved_url config endpoint.url version
      | none ↦ elim by_mesh [
        | some url ↦ resolved_url config url version
        | none ↦ binary_url config version
      ]
    ]
