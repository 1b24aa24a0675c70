-- ===== src/Tunnel/Server/Stale.antt =====
-- What becomes of a client whose old connection ends after it has connected anew.
use xjp_deploy_agent.Prelude.{
  if◌then◌else◌, is_some, ◌==◌, nat_eq, string_eq, beq_refl, All, All-imp, ℕ, String, ◌≡◌, refl,
  ◌∙◌, Bool, true, false, none, some, List, arith, eq_iff,
}
use xjp_deploy_agent.HashMap
use xjp_deploy_agent.HashMap.Laws.{get-insert_self, contains_key-get, get-remove}
use xjp_deploy_agent.Tunnel.{PortMapping}
use xjp_deploy_agent.Tunnel.Manager
use xjp_deploy_agent.Tunnel.Manager.{PortListenerManager, is_client_bound}
use xjp_deploy_agent.Tunnel.Manager.Binding.{unbind_client_lem, bind_ports_for_client_lem, HoldsAll}
use xjp_deploy_agent.Tunnel.Server.{
  Server, Connection, has_client, remove_client, add_client, new, TunnelServerState,
}
use xjp_deploy_agent.Tunnel.Server.Connect.{on_config, on_disconnect, registered}

get-remove_client :
    (s : TunnelServerState) (cid d : String)
    → is_some (HashMap.get (remove_client s cid).clients d)
      ≡ (if cid == d then false else is_some (HashMap.get s.clients d))
unfolding remove_client
get-remove_client s cid d = ground (arith, eq_iff cid d, get-remove s.clients cid d)

-- A client that registers is connected and holds all its ports, if they can be bound.
pub on_config_lem :
    (binds : ℕ → ℕ → Bool) (s : Server) (c : Connection) (cid : String)
    (mappings : List PortMapping)
    → c.client_id ≡ none
    → (Manager.bind_ports_for_client binds s.ports cid mappings c.msg_tx).1 ≡ true
    → let after = (on_config binds s c cid mappings).server in
      (has_client after.state cid ≡ true) × HoldsAll after.ports cid mappings
unfolding on_config registered has_client add_client new
on_config_lem binds s c cid mappings fresh all_bound =
    rw (fresh, all_bound)
      (
        rw (contains_key-get _ cid, get-insert_self _ cid _) refl,
        bind_ports_for_client_lem binds cid c.msg_tx s.ports mappings all_bound,
      )

self_removed : (cid : String) (b : Bool) → (if cid == cid then false else b) ≡ false
self_removed cid b = rw (beq_refl cid) refl

-- `on_disconnect` of a registered connection removes the client by its name, whichever connection
-- the client is on by then: it is connected no longer and holds no port, other clients keep theirs.
pub on_disconnect_lem :
    (s : Server) (c : Connection) (cid d : String) (port : ℕ)
    → c.client_id ≡ some cid
    → let after = on_disconnect s c in
      (has_client after.state d ≡ (if cid == d then false else has_client s.state d))
      × (is_client_bound after.ports d port
          ≡ (if cid == d then false else is_client_bound s.ports d port))
unfolding on_disconnect has_client
on_disconnect_lem s c cid d port known =
    rw
      (
        known,
        contains_key-get (remove_client s.state cid).clients d,
        contains_key-get s.state.clients d,
      )
      (get-remove_client s.state cid d, unbind_client_lem s.ports cid d port)

-- When a client has connected anew, on another connection that was not registered before and
-- with all its ports bound, and its old connection ends afterwards, the end of the old one
-- removes the entry of the new one and takes all its ports away.
pub stale_disconnect :
    (binds : ℕ → ℕ → Bool) (s : Server) (old c : Connection) (cid : String)
    (mappings : List PortMapping)
    → old.client_id ≡ some cid
    → c.client_id ≡ none
    → (Manager.bind_ports_for_client binds s.ports cid mappings c.msg_tx).1 ≡ true
    → let joined = (on_config binds s c cid mappings).server in
      let left = on_disconnect joined old in
      (has_client joined.state cid ≡ true)
      × HoldsAll joined.ports cid mappings
      × (has_client left.state cid ≡ false)
      × All (λ (mp : PortMapping). is_client_bound left.ports cid mp.remote_port ≡ false) mappings
stale_disconnect binds s old c cid mappings known fresh all_bound =
    let joined = (on_config binds s c cid mappings).server in
    let (there, held) = on_config_lem binds s c cid mappings fresh all_bound in
    let gone : (port : ℕ) → is_client_bound (on_disconnect joined old).ports cid port ≡ false =
      λ port. (on_disconnect_lem joined old cid cid port known).1 ∙ self_removed cid _ in
    (
      there,
      held,
      (on_disconnect_lem joined old cid cid 0 known).0 ∙ self_removed cid _,
      All-imp (λ (mp : PortMapping) h. gone mp.remote_port) mappings held,
    )
