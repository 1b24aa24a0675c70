-- ===== src/Router/Cache.antt =====
-- How long the router keeps to an endpoint.
use xjp_deploy_agent.Prelude.{
  ltb, if◌then◌else◌, Bool-cases, nat_eq, string_eq, ℕ, ◌-◌, ◌/◌, String, ◌≡◌, refl, ◌∙◌, inl, inr,
  none, some,
}
use xjp_deploy_agent.HashMap
use xjp_deploy_agent.HashMap.Laws.{get-insert_self}
use xjp_deploy_agent.Router.{
  Sources, ServiceEndpoint, EndpointCache, resolve_endpoint, fresh, get_endpoint,
}

get_endpoint-fresh :
    (s : Sources) (cache : EndpointCache) (service_id : String) (now : ℕ) (e : ServiceEndpoint)
    → fresh cache service_id now ≡ some e
    → get_endpoint s cache service_id now ≡ (cache, e)
unfolding get_endpoint
get_endpoint-fresh s cache service_id now e h = rw (h, get_endpoint) refl

get_endpoint-stale :
    (s : Sources) (cache : EndpointCache) (service_id : String) (now : ℕ)
    → fresh cache service_id now ≡ none
    → get_endpoint s cache service_id now ≡ (
      HashMap.insert cache service_id
          (record { endpoint = resolve_endpoint s service_id; cached_at = now }),
      resolve_endpoint s service_id,
    )
unfolding get_endpoint
get_endpoint-stale s cache service_id now h = rw (h, get_endpoint) refl

fresh-insert :
    (cache : EndpointCache) (service_id : String) (e : ServiceEndpoint) (at now : ℕ)
    → fresh
        (HashMap.insert cache service_id (record { endpoint = e; cached_at = at }))
        service_id
        now
      ≡ (if ltb ((now - at) / 1000) 30 then some e else none)
unfolding fresh
fresh-insert cache service_id e at now =
    rw (get-insert_self cache service_id (record { endpoint = e; cached_at = at }), fresh) refl

-- An endpoint that was just resolved is given again for thirty seconds, whatever the sources offer
-- by then; after that the sources are asked again.
pub get_endpoint_again :
    (s later : Sources) (cache : EndpointCache) (service_id : String) (at now : ℕ)
    → fresh cache service_id at ≡ none
    → let (cache', e) = get_endpoint s cache service_id at in
      (e ≡ resolve_endpoint s service_id)
      × ((get_endpoint later cache' service_id now).1 ≡ (
          if ltb ((now - at) / 1000) 30
          then resolve_endpoint s service_id
          else resolve_endpoint later service_id))
get_endpoint_again s later cache service_id at now stale =
    let e = resolve_endpoint s service_id in
    let cache' = HashMap.insert cache service_id (record { endpoint = e; cached_at = at }) in
    rw (get_endpoint-stale s cache service_id at stale) (
      refl,
      elim (Bool-cases (ltb ((now - at) / 1000) 30)) [
        | inl young ↦
            rw
              (
                young,
                get_endpoint-fresh later cache' service_id now e
                    (fresh-insert cache service_id e at now ∙ rw (young) refl),
              )
              refl
        | inr old ↦
            rw
              (
                old,
                get_endpoint-stale later cache' service_id now
                    (fresh-insert cache service_id e at now ∙ rw (old) refl),
              )
              refl
      ],
    )
