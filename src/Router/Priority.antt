-- ===== src/Router/Priority.antt =====
-- The endpoint of a service is the best of all that are offered.
use xjp_deploy_agent.Prelude.{
  unwrap_or, nat_eq, string_eq, All, ℕ, ◌≤◌, String, ◌≡◌, refl, Bool, true, false, Option, none,
  some, List, [], ◌∷◌, ◌++◌, arith,
}
use xjp_deploy_agent.HashMap
use xjp_deploy_agent.Router.{
  EndpointSource, local, tunnel, lan_peer, mesh, config, fallback, priority, ServiceEndpoint,
  Sources, tunnel_url, tunnel_ports, first, tunnel_port, found, choose, resolve_endpoint,
}

abbrev from : EndpointSource → Option String → List ServiceEndpoint
from source none = []
from source (some url) = found url source ∷ []

abbrev from_tunnel : List ℕ → List ServiceEndpoint
from_tunnel [] = []
from_tunnel (port ∷ ports) = found (tunnel_url port) tunnel ∷ from_tunnel ports

abbrev from_lan : Option String → Bool → List ServiceEndpoint
from_lan lan false = []
from_lan lan true = from lan_peer lan

abbrev mapped : Sources → String → List ℕ
mapped s service_id = elim s.tunnel_server_state [
  | none ↦ []
  | some state ↦ tunnel_ports service_id state.clients
]

-- Every endpoint that any source offers for a service, whatever the others say.
pub offers : Sources → String → List ServiceEndpoint
offers s service_id =
    from local (HashMap.get s.local_services service_id)
    ++ (from_tunnel (mapped s service_id)
        ++ (from_lan (s.lan_url service_id) (s.lan_healthy service_id)
            ++ (from mesh (s.mesh_url service_id)
                ++ (from config (HashMap.get s.configured_endpoints service_id)
                    ++ from fallback (HashMap.get s.fallback_endpoints service_id)))))

-- The endpoint that stands for a service that no source knows.
abbrev pub unknown : ServiceEndpoint
unknown = record { url = ""; source = fallback; healthy = false }

abbrev pub head : List ServiceEndpoint → Option ServiceEndpoint
head [] = none
head (e ∷ es) = some e

-- No endpoint of the list has a better source than `e`.
abbrev pub IsBest : ServiceEndpoint → List ServiceEndpoint → Type 0
IsBest e es = All (λ (c : ServiceEndpoint). priority e.source ≤ priority c.source) es

IsBest-tunnel :
    (e : ServiceEndpoint) (ports : List ℕ) (rest : List ServiceEndpoint)
    → priority e.source ≤ 5
    → IsBest e rest
    → IsBest e (from_tunnel ports ++ rest)
unfolding priority
IsBest-tunnel e [] rest low best = best
IsBest-tunnel e (port ∷ ports) rest low best = (low, IsBest-tunnel e ports rest low best)

IsBest-from :
    (e : ServiceEndpoint) (source : EndpointSource) (answer : Option String)
    (rest : List ServiceEndpoint)
    → priority e.source ≤ priority source
    → IsBest e rest
    → IsBest e (from source answer ++ rest)
IsBest-from e source none rest low best = best
IsBest-from e source (some url) rest low best = (low, best)

IsBest-lan :
    (e : ServiceEndpoint) (lan : Option String) (healthy : Bool) (rest : List ServiceEndpoint)
    → priority e.source ≤ 10
    → IsBest e rest
    → IsBest e (from_lan lan healthy ++ rest)
unfolding priority
IsBest-lan e lan false rest low best = best
IsBest-lan e lan true rest low best = IsBest-from e lan_peer lan rest low best

IsBest-last :
    (e : ServiceEndpoint) (back : Option String)
    → priority e.source ≤ 100
    → IsBest e (from fallback back)
unfolding priority
IsBest-last e none low = tt
IsBest-last e (some url) low = (low, tt)

-- The offers after those of the tunnel, the discovery, and so on.
module _ (lan : Option String) (healthy : Bool) (by_mesh configured back : Option String) where
  abbrev after_mesh : List ServiceEndpoint
  after_mesh = from config configured ++ from fallback back

  abbrev after_tunnel : List ServiceEndpoint
  after_tunnel = from_lan lan healthy ++ (from mesh by_mesh ++ after_mesh)

  IsBest-after_mesh : (e : ServiceEndpoint) → priority e.source ≤ 30 → IsBest e after_mesh
  unfolding priority
  IsBest-after_mesh e low =
      IsBest-from e config configured _ low (IsBest-last e back (omega (arith, low)))

  IsBest-after_tunnel : (e : ServiceEndpoint) → priority e.source ≤ 10 → IsBest e after_tunnel
  unfolding priority
  IsBest-after_tunnel e low =
      IsBest-lan e lan healthy _ low (
        IsBest-from e mesh by_mesh _ (omega (arith, low))
          (IsBest-after_mesh e (omega (arith, low))))

-- What `choose` gives is the first offer and the best.
abbrev Chooses : ServiceEndpoint → List ServiceEndpoint → Type 0
Chooses e es = (e ≡ unwrap_or (head es) unknown) × IsBest e es

choose_lem :
    (here : Option String) (ports : List ℕ) (lan : Option String) (healthy : Bool)
    (by_mesh configured back : Option String)
    → Chooses
        (choose here (first ports) lan healthy by_mesh configured back)
        (from local here ++ (from_tunnel ports ++ after_tunnel lan healthy by_mesh configured back))
unfolding choose first priority
choose_lem (some url) ports lan healthy by_mesh configured back = (
  refl,
  (
    omega arith,
    IsBest-tunnel (found url local) ports _ (omega arith)
        (IsBest-after_tunnel lan healthy by_mesh configured back (found url local) (omega arith)),
  ),
)
choose_lem none (port ∷ ports) lan healthy by_mesh configured back = (
  refl,
  (
    omega arith,
    IsBest-tunnel (found (tunnel_url port) tunnel) ports _ (omega arith) (
        IsBest-after_tunnel lan healthy by_mesh configured back (found (tunnel_url port) tunnel)
          (omega arith)),
  ),
)
choose_lem none [] (some url) true by_mesh configured back = (
  refl,
  IsBest-after_tunnel (some url) true by_mesh configured back (found url lan_peer) (omega arith),
)
choose_lem none [] none true (some url) configured back = (
  refl,
  (omega arith, IsBest-after_mesh none true none configured back (found url mesh) (omega arith)),
)
choose_lem none [] none false (some url) configured back = (
  refl,
  (omega arith, IsBest-after_mesh none true none configured back (found url mesh) (omega arith)),
)
choose_lem none [] (some lan) false (some url) configured back = (
  refl,
  (omega arith, IsBest-after_mesh none true none configured back (found url mesh) (omega arith)),
)
choose_lem none [] none true none (some url) back =
    (refl, (omega arith, IsBest-last (found url config) back (omega arith)))
choose_lem none [] none false none (some url) back =
    (refl, (omega arith, IsBest-last (found url config) back (omega arith)))
choose_lem none [] (some lan) false none (some url) back =
    (refl, (omega arith, IsBest-last (found url config) back (omega arith)))
choose_lem none [] none true none none (some url) = (refl, (omega arith, tt))
choose_lem none [] none false none none (some url) = (refl, (omega arith, tt))
choose_lem none [] (some lan) false none none (some url) = (refl, (omega arith, tt))
choose_lem none [] none true none none none = (refl, tt)
choose_lem none [] none false none none none = (refl, tt)
choose_lem none [] (some lan) false none none none = (refl, tt)

tunnel_port-mapped :
    (s : Sources) (service_id : String) → tunnel_port s service_id ≡ first (mapped s service_id)
unfolding tunnel_port first
tunnel_port-mapped s service_id = ground arith

-- The endpoint of a service is the first of all that the sources offer for it, and none of them has
-- a better source; if none is offered, it is the empty endpoint, which is not healthy.
pub resolve_endpoint_lem :
    (s : Sources) (service_id : String)
    → (resolve_endpoint s service_id ≡ unwrap_or (head (offers s service_id)) unknown)
      × IsBest (resolve_endpoint s service_id) (offers s service_id)
unfolding resolve_endpoint offers
resolve_endpoint_lem s service_id = rw (tunnel_port-mapped s service_id) (
    choose_lem (HashMap.get s.local_services service_id) (mapped s service_id)
      (s.lan_url service_id) (s.lan_healthy service_id) (s.mesh_url service_id)
      (HashMap.get s.configured_endpoints service_id) (HashMap.get s.fallback_endpoints service_id))
