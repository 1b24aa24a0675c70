-- ===== src/Mesh/Cache.antt =====
-- src/services/mesh.rs: what the cache of endpoints may answer.
use xjp_deploy_agent.Prelude.{
  leb, ltb, if◌then◌else◌, ◌&&◌, Bool-cases, Option-cases, nat_eq, string_eq, ℕ, ◌-◌, ◌<◌, String,
  ◌≡◌, refl, ◌∙◌, ◌⊎◌, inl, inr, Option, none, some, List, [], ◌∷◌, arith,
}
use xjp_deploy_agent.Prelude.Text.{◌⊕◌}
use xjp_deploy_agent.HashMap
use xjp_deploy_agent.HashMap.{HashMap}
use xjp_deploy_agent.HashMap.Entries.{Entries, insert-Entries, get-Entries}
use xjp_deploy_agent.Http.{Answer, request_failed, answered, is_success}
use xjp_deploy_agent.Mesh.{
  MeshConfig, MeshClient, ResolvedEndpoint, CachedEndpoint, Reading, ok, err, read_answer, fresh,
  remember, resolve, resolve_url, clear_cache, new,
}

-- An endpoint that the registry has given, for a service and at a time.
pub record Given : Type 0 where
  pub service_id : String
  pub at : ℕ
  pub endpoint : ResolvedEndpoint

pub data Call : Type 0 where
  resolves : (service_id : String) → (now : ℕ) → Answer → Call
  clears : Call

-- The endpoint that an answer of the registry gives: the one in the body of a success.
abbrev pub given_by : Reading ResolvedEndpoint → Answer → Option ResolvedEndpoint
given_by reading (request_failed e) = none
given_by reading (answered code body) =
    if leb 200 code && ltb code 300 then reading.read body else none

-- What a request, if one is sent, and its answer add to the endpoints that were given, the latest
-- first.
abbrev pub note :
    (service_id : String)
    → (now : ℕ) → (sent : Option String) → (by_answer : Option ResolvedEndpoint) → List Given
    → List Given
note service_id now (some url) (some endpoint) given =
    record { service_id = service_id; at = now; endpoint = endpoint } ∷ given
note service_id now sent by_answer given = given

abbrev pub Some : (Given → Type 0) → List Given → Type 0
Some P [] = ⊥
Some P (g ∷ given) = P g ⊎ Some P given

module _ (reading : Reading ResolvedEndpoint) where
  unfoldable pub run : MeshClient × List Given → Call → MeshClient × List Given
  run (c, given) clears = (clear_cache c, given)
  run (c, given) (resolves service_id now answer) =
      let (c', result, sent) = resolve reading c service_id now answer in
      (c', note service_id now sent (given_by reading answer) given)

  unfoldable pub run_all : MeshClient × List Given → List Call → MeshClient × List Given
  run_all s [] = s
  run_all s (call ∷ calls) = run_all (run s call) calls

  -- What is cached was given for the service at the time that is noted.
  abbrev WasGiven : List Given → String → CachedEndpoint → Type 0
  WasGiven given k v =
      Some (λ g. (g.service_id ≡ k) × (g.at ≡ v.cached_at) × (g.endpoint ≡ v.endpoint)) given

  Entries-more :
      (g : Given) (given : List Given) (cache : HashMap String CachedEndpoint)
      → Entries (WasGiven given) cache
      → Entries (WasGiven (g ∷ given)) cache
  Entries-more g given [] h = tt
  Entries-more g given ((k, v) ∷ cache) h = (inr h.0, Entries-more g given cache h.1)

  -- What the client reads in an answer is what the answer gives.
  read_answer-given :
      (what : String) (answer : Answer)
      → ((e : ResolvedEndpoint) × (given_by reading answer ≡ some e)
          × (read_answer what reading answer ≡ ok e))
        ⊎ ((given_by reading answer ≡ none)
            × ((error : String) × (read_answer what reading answer ≡ err error)))
  unfolding read_answer is_success
  read_answer-given what (request_failed e) = inr (refl, (e, refl))
  read_answer-given what (answered code body) = elim (Bool-cases (leb 200 code && ltb code 300)) [
    | inl good ↦ elim (Option-cases (reading.read body)) [
      | inl unread ↦
          inr
            (ground (arith, good, unread), (reading.read_error body, ground (arith, good, unread)))
      | inr (e, there) ↦ inl (e, ground (arith, good, there), ground (arith, good, there))
    ]
    | inr bad ↦
        inr (
          ground (arith, bad),
          (what ⊕ reading.status_text code ⊕ " - " ⊕ body, ground (arith, bad)),
        )
  ]

  remember-Entries :
      (c : MeshClient) (given : List Given) (service_id what url : String) (now : ℕ)
      (answer : Answer)
      → Entries (WasGiven given) c.cache
      → Entries
          (WasGiven (note service_id now (some url) (given_by reading answer) given))
          (remember c service_id now (read_answer what reading answer)).cache
  unfolding remember
  remember-Entries c given service_id what url now answer h = elim (read_answer-given what answer) [
    | inl (e, by_answer, read) ↦
        let g : Given = record { service_id = service_id; at = now; endpoint = e } in
        rw (by_answer, read)
          (insert-Entries (WasGiven (g ∷ given)) c.cache service_id
            (record { endpoint = e; cached_at = now }) (inl (refl, refl, refl))
            (Entries-more g given c.cache h))
    | inr (none_given, (error, read)) ↦ rw (none_given, read) h
  ]

  Option-fresh-cases :
      (c : MeshClient) (service_id : String) (now : ℕ) (answer : Answer)
      → let result = read_answer ("Resolve failed for " ⊕ service_id ⊕ ": ") reading answer in
        ((e : ResolvedEndpoint) × (fresh c.cache service_id now ≡ some e)
          × (resolve reading c service_id now answer ≡ (c, ok e, none)))
        ⊎ ((fresh c.cache service_id now ≡ none)
            × (resolve reading c service_id now answer
                ≡ (remember c service_id now result, result, some (resolve_url c service_id))))
  unfolding resolve
  Option-fresh-cases c service_id now answer = elim (Option-cases (fresh c.cache service_id now)) [
    | inl stale ↦ inr (stale, rw (stale, resolve) refl)
    | inr (e, young) ↦ inl (e, young, rw (young, resolve) refl)
  ]

  initial : (config : MeshConfig) → Entries (WasGiven []) (new config).cache
  unfolding new
  initial config = tt

  run-Entries :
      (s : MeshClient × List Given) (call : Call)
      → Entries (WasGiven s.1) s.0.cache
      → Entries (WasGiven (run s call).1) (run s call).0.cache
  unfolding run clear_cache
  run-Entries (c, given) clears h = tt
  run-Entries (c, given) (resolves service_id now answer) h =
      elim (Option-fresh-cases c service_id now answer) [
        | inl (e, young, same) ↦ rw same h
        | inr (stale, asked) ↦ rw asked (
            remember-Entries c given service_id ("Resolve failed for " ⊕ service_id ⊕ ": ")
              (resolve_url c service_id) now answer h)
      ]

  run_all-Entries :
      (s : MeshClient × List Given) (calls : List Call)
      → Entries (WasGiven s.1) s.0.cache
      → Entries (WasGiven (run_all s calls).1) (run_all s calls).0.cache
  unfolding run_all
  run_all-Entries s [] h = h
  run_all-Entries s (call ∷ calls) h = run_all-Entries (run s call) calls (run-Entries s call h)

  Some-imp :
      {P Q : Given → Type 0}
      → ((g : Given) → P g → Q g)
      → (given : List Given) → Some P given
      → Some Q given
  Some-imp f [] h = h
  Some-imp f (g ∷ given) (inl p) = inl (f g p)
  Some-imp f (g ∷ given) (inr h) = inr (Some-imp f given h)

  fresh-WasGiven :
      (cache : HashMap String CachedEndpoint) (given : List Given) (service_id : String) (now : ℕ)
      (e : ResolvedEndpoint)
      → Entries (WasGiven given) cache
      → fresh cache service_id now ≡ some e
      → Some (λ g. (g.service_id ≡ service_id) × (g.endpoint ≡ e) × (now - g.at < 60000)) given
  unfolding fresh
  fresh-WasGiven cache given service_id now e h young =
      elim (Option-cases (HashMap.get cache service_id)) [
        | inl missing ↦ absurd (ground (arith, missing, young))
        | inr (cached, there) ↦
            let same : cached.endpoint ≡ e = ground (arith, there, young) in
            let soon : now - cached.cached_at < 60000 = ground (arith, there, young) in
            Some-imp
              (λ g
                  (p : (g.service_id ≡ service_id)
                    × (g.at ≡ cached.cached_at)
                    × (g.endpoint ≡ cached.endpoint)).
                (p.0, p.2 ∙ same, rw p.1 soon))
              given (get-Entries (WasGiven given) cache service_id h there)
      ]

  -- Whatever calls a new client has had, and whatever the registry answered: an endpoint that it then
  -- gives for a service was given by the registry for this very service, in the body of an
  -- answer with the status of a success, less than sixty seconds before or in answer to this call.
  pub resolve-run_all :
      (config : MeshConfig) (calls : List Call) (service_id : String) (now : ℕ) (answer : Answer)
      (e : ResolvedEndpoint)
      → let before = run_all (new config, []) calls in
        (resolve reading before.0 service_id now answer).1 ≡ ok e
        → Some
            (λ g. (g.service_id ≡ service_id) × (g.endpoint ≡ e) × (now - g.at < 60000))
            (run before (resolves service_id now answer)).1
  unfolding run
  resolve-run_all config calls service_id now answer e gives =
      let before = run_all (new config, []) calls in
      let kept = run_all-Entries (new config, []) calls (initial config) in
      elim (Option-fresh-cases before.0 service_id now answer) [
        | inl (e', young, same) ↦
            let known : fresh before.0.cache service_id now ≡ some e =
              young ∙ ground (arith, same, gives) in
            rw same (fresh-WasGiven before.0.cache before.1 service_id now e kept known)
        | inr (stale, asked) ↦
            let what = "Resolve failed for " ⊕ service_id ⊕ ": " in
            let came : read_answer what reading answer ≡ ok e = ground (arith, asked, gives) in
            elim (read_answer-given what answer) [
              | inl (e', by_answer, read) ↦
                  let same : e' ≡ e = ground (arith, read, came) in
                  rw (asked, by_answer) (inl (refl, same, omega arith))
              | inr (none_given, (error, read)) ↦ absurd (ground (arith, read, came))
            ]
      ]
