-- ===== src/Lan/Routing.antt =====
-- src/services/lan_discovery/mod.rs with src/services/service_router.rs: a service that an agent
-- broadcasts, as another agent's router sees it.
use mathlib.Core.List.{Memᴰ}
use mathlib.Core.List.Memᴰ.{cases_cons}
use xjp_deploy_agent.Prelude.{
  string_eq, if◌then◌else◌, Option-cases, All, String, ◌≡◌, refl, sym, subst, inl, inr, true, false,
  ◌&&◌, none, some, List, [], ◌∷◌, arith,
}
use xjp_deploy_agent.HashMap.{get, values}
use xjp_deploy_agent.HashMap.Laws.{contains_key-get}
use xjp_deploy_agent.Lan.{
  LocalService, DiscoveredPeer, LanDiscovery, url_of, peer_service_url, offers_service, is_slower,
  get_service_provider, get_service_url,
}
use xjp_deploy_agent.Lan.Provider.{IsProvider, get_service_provider_lem}
use xjp_deploy_agent.Router.{Sources, lan_peer, found, tunnel_port, choose, resolve_endpoint}

-- The sources of a router that asks this discovery.
abbrev pub with_lan : Sources → LanDiscovery → Sources
with_lan s d = record s {
  lan_url = λ service_id. if d.config.enabled then get_service_url d service_id else none;
  lan_healthy =
      λ service_id. elim (get_service_provider d service_id) [ none ↦ false | some p ↦ p.healthy ];
}

All-Memᴰ {ℓ κ} : {A : Type ℓ} (P : A → Type κ) (x : A) (xs : List A) → Memᴰ x xs → All P xs → P x
All-Memᴰ P x [] m a = elim m [ ]
All-Memᴰ P x (y ∷ ys) m a = elim (cases_cons m) [
  | inl e ↦ subst P (sym e) a.0
  | inr later ↦ All-Memᴰ P x ys later a.1
]

offered :
    (p : DiscoveredPeer) (service_id : String)
    → offers_service service_id p ≡ true
    → (p.healthy ≡ true) × (svc : LocalService) × (get p.services service_id ≡ some svc)
unfolding offers_service
offered p service_id h = elim (Option-cases (get p.services service_id)) [
  | inl absent ↦ absurd (ground (arith, contains_key-get p.services service_id, absent))
  | inr (svc, e) ↦ (ground arith, svc, e)
]

resolve-lan :
    (s : Sources) (service_id url : String)
    → get s.local_services service_id ≡ none
    → tunnel_port s service_id ≡ none
    → s.lan_url service_id ≡ some url
    → s.lan_healthy service_id ≡ true
    → resolve_endpoint s service_id ≡ found url lan_peer
unfolding resolve_endpoint choose
resolve-lan s service_id url no_local no_tunnel at_url healthy =
    rw (no_local, no_tunnel, at_url, healthy, resolve_endpoint) refl

resolve_endpoint-provided :
    (s : Sources) (d : LanDiscovery) (service_id : String) (p : DiscoveredPeer) (svc : LocalService)
    → get s.local_services service_id ≡ none
    → tunnel_port s service_id ≡ none
    → d.config.enabled ≡ true
    → get_service_provider d service_id ≡ some p
    → p.healthy ≡ true
    → get p.services service_id ≡ some svc
    → resolve_endpoint (with_lan s d) service_id
      ≡ found (url_of svc.protocol p.lan_ip svc.port) lan_peer
unfolding get_service_url peer_service_url tunnel_port
resolve_endpoint-provided s d service_id p svc no_local no_tunnel on chosen healthy e =
    resolve-lan (with_lan s d) service_id (url_of svc.protocol p.lan_ip svc.port) no_local no_tunnel
      (ground (arith, on, chosen, e)) (ground (arith, chosen, healthy))

-- A service that is neither local nor behind the tunnel, and that a known and healthy peer `q` offers
-- to an agent with the discovery on, is sent to a known and healthy peer that offers it and is not
-- slower than `q`: to the service's port at the address that is known of that peer.
pub resolve_endpoint-with_lan :
    (s : Sources) (d : LanDiscovery) (service_id : String) (q : DiscoveredPeer)
    → get s.local_services service_id ≡ none
    → tunnel_port s service_id ≡ none
    → d.config.enabled ≡ true
    → Memᴰ q (values d.discovered_peers)
    → offers_service service_id q ≡ true
    → (p : DiscoveredPeer) × (svc : LocalService) × Memᴰ p (values d.discovered_peers)
      × (p.healthy ≡ true)
      × (get p.services service_id ≡ some svc)
      × (is_slower p.latency_ms q.latency_ms ≡ false)
      × (resolve_endpoint (with_lan s d) service_id
          ≡ found (url_of svc.protocol p.lan_ip svc.port) lan_peer)
resolve_endpoint-with_lan s d service_id q no_local no_tunnel on known offers =
    elim (Option-cases (get_service_provider d service_id)) [
      | inl missing ↦
          let none_offers =
            subst (IsProvider service_id (values d.discovered_peers)) missing
              (get_service_provider_lem d service_id) in
          absurd (
            cc
              (offers, All-Memᴰ (λ q'. offers_service service_id q' ≡ false) q _ known none_offers))
      | inr (p, chosen) ↦
          let (within, serves, least) =
            subst (IsProvider service_id (values d.discovered_peers)) chosen
              (get_service_provider_lem d service_id) in
          let (healthy, svc, e) = offered p service_id serves in
          (
            p,
            svc,
            within,
            healthy,
            e,
            ground (
              arith,
              offers,
              All-Memᴰ
                  (λ q'.
                    (offers_service service_id q' && is_slower p.latency_ms q'.latency_ms) ≡ false)
                  q _ known least,
            ),
            resolve_endpoint-provided s d service_id p svc no_local no_tunnel on chosen healthy e,
          )
    ]
