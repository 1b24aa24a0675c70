-- ===== src/Tunnel/Manager/Binding.antt =====
-- Which client holds which port after a bind, an unbind and a takeover.
use xjp_deploy_agent.Prelude.{
  if◌then◌else◌, Bool-cases, Option-cases, is_some, map_option, ◌==◌, nat_eq, string_eq, beq_refl,
  All, ℕ, String, ◌≡◌, refl, sym, subst, inl, inr, Bool, true, false, Option, none, some, List, [],
  ◌∷◌, arith, eq_iff,
}
use xjp_deploy_agent.Prelude.{nat_beq_iff}
use xjp_deploy_agent.HashMap
use xjp_deploy_agent.HashMap.{HashMap}
use xjp_deploy_agent.HashMap.Laws.{
  get-insert, get-insert_self, get-modify, get-map_values, contains_key-get,
}
use xjp_deploy_agent.Tunnel.{PortMapping}
use xjp_deploy_agent.Tunnel.Listener
use xjp_deploy_agent.Tunnel.Listener.{PortListener, BoundClient}
use xjp_deploy_agent.Tunnel.Manager.{
  PortListenerManager, ensure_listener, get_listener, bind_ports_for_client, unbind_client,
  is_client_bound,
}

one_name :
    (x c d : String) → (if x == c then false else x == d) ≡ (if c == d then false else x == d)
one_name x c d = ground (arith, eq_iff x c, eq_iff c d, eq_iff x d)

unbind-bound :
    (l : PortListener) (client_id d : String)
    → Listener.is_bound_to (Listener.unbind l client_id).0 d
      ≡ (if client_id == d then false else Listener.is_bound_to l d)
unfolding Listener.is_bound_to Listener.unbind
unbind-bound l client_id d = elim (Option-cases l.bound_client) [
  | inl absent ↦ rw (absent) (ground arith)
  | inr (b, present) ↦ rw (present) (ground (arith, one_name b.client_id client_id d))
]

-- Whether a listener, if there is one, is bound to the client.
abbrev holds : Option PortListener → String → Bool
holds none d = false
holds (some l) d = Listener.is_bound_to l d

is_client_bound-holds :
    (m : PortListenerManager) (d : String) (port : ℕ)
    → is_client_bound m d port ≡ holds (HashMap.get m port) d
unfolding is_client_bound get_listener
is_client_bound-holds m d port = ground arith

holds-unbind :
    (found : Option PortListener) (client_id d : String)
    → holds (map_option (λ l. (Listener.unbind l client_id).0) found) d
      ≡ (if client_id == d then false else holds found d)
holds-unbind none client_id d = ground arith
holds-unbind (some l) client_id d = unbind-bound l client_id d

-- Unbinding a client takes from it every port, and takes no port from another client.
pub unbind_client_lem :
    (m : PortListenerManager) (client_id d : String) (port : ℕ)
    → is_client_bound (unbind_client m client_id) d port
      ≡ (if client_id == d then false else is_client_bound m d port)
unfolding unbind_client
unbind_client_lem m client_id d port =
    rw
      (
        is_client_bound-holds (unbind_client m client_id) d port,
        is_client_bound-holds m d port,
        get-map_values m port (λ p l. (Listener.unbind l client_id).0),
      )
      (holds-unbind (HashMap.get m port) client_id d)

-- The client holds the port of each mapping.
abbrev pub HoldsAll : PortListenerManager → String → List PortMapping → Type 0
HoldsAll m client_id mappings =
    All (λ (mp : PortMapping). is_client_bound m client_id mp.remote_port ≡ true) mappings

holds-bind :
    (found : Option PortListener) (client_id : String) (ws_tx : ℕ)
    → holds (map_option (λ l. Listener.bind l client_id ws_tx) found) client_id ≡ is_some found
unfolding Listener.bind Listener.is_bound_to
holds-bind none client_id ws_tx = refl
holds-bind (some l) client_id ws_tx = beq_refl client_id

-- Binding one more port to a client keeps the ports that it holds.
bind_one :
    (m : PortListenerManager) (client_id : String) (ws_tx port other : ℕ)
    → is_client_bound m client_id port ≡ true
    → is_client_bound (HashMap.modify m other (λ l. Listener.bind l client_id ws_tx)) client_id port
      ≡ true
bind_one m client_id ws_tx port other held =
    let here = holds-bind (HashMap.get m port) client_id ws_tx in
    ground (
      arith,
      held,
      here,
      is_client_bound-holds m client_id port,
      is_client_bound-holds (HashMap.modify m other (λ l. Listener.bind l client_id ws_tx))
          client_id port,
      get-modify m other port (λ l. Listener.bind l client_id ws_tx),
    )

ensure_listener-get :
    (binds : ℕ → ℕ → Bool) (m : PortListenerManager) (port : ℕ) (name : String)
    → let (ensured, is_there) = ensure_listener binds m port name in
      is_there ≡ true → is_some (HashMap.get ensured port) ≡ true
unfolding ensure_listener
ensure_listener-get binds m port name there =
    elim (Option-cases (Listener.start (binds port) (Listener.new port name))) [
      | inl failed ↦ ground (arith, failed, contains_key-get m port)
      | inr (l, started) ↦
          ground (arith, started, contains_key-get m port, get-insert_self m port l)
    ]

ensure_listener-keeps :
    (binds : ℕ → ℕ → Bool) (m : PortListenerManager) (client_id : String) (port other : ℕ)
    (name : String)
    → is_client_bound m client_id port ≡ true
    → is_client_bound (ensure_listener binds m other name).0 client_id port ≡ true
unfolding ensure_listener
ensure_listener-keeps binds m client_id port other name held =
    elim (Option-cases (Listener.start (binds other) (Listener.new other name))) [
      | inl failed ↦ ground (arith, failed, held)
      | inr (l, started) ↦ ground (
        arith,
        started,
        held,
        contains_key-get m other,
        get-insert m other port l,
        nat_beq_iff other port,
        is_client_bound-holds m client_id port,
        is_client_bound-holds (HashMap.insert m other l) client_id port,
      )
    ]

bind_here :
    (m : PortListenerManager) (client_id : String) (ws_tx port : ℕ)
    → is_some (HashMap.get m port) ≡ true
    → is_client_bound (HashMap.modify m port (λ l. Listener.bind l client_id ws_tx)) client_id port
      ≡ true
bind_here m client_id ws_tx port there = ground (
  arith,
  there,
  holds-bind (HashMap.get m port) client_id ws_tx,
  nat_beq_iff port port,
  is_client_bound-holds (HashMap.modify m port (λ l. Listener.bind l client_id ws_tx)) client_id
      port,
  get-modify m port port (λ l. Listener.bind l client_id ws_tx),
)

module _ (binds : ℕ → ℕ → Bool) (client_id : String) (ws_tx : ℕ) where
  -- The first mapping's listener, bound to the client.
  abbrev bound : PortListenerManager → PortMapping → PortListenerManager
  bound m mp =
      HashMap.modify (ensure_listener binds m mp.remote_port mp.name).0 mp.remote_port
        (λ l. Listener.bind l client_id ws_tx)

  bound-keeps :
      (m : PortListenerManager) (mp : PortMapping) (port : ℕ)
      → is_client_bound m client_id port ≡ true
      → is_client_bound (bound m mp) client_id port ≡ true
  bound-keeps m mp port held =
      bind_one _ client_id ws_tx port mp.remote_port
        (ensure_listener-keeps binds m client_id port mp.remote_port mp.name held)

  bind_ports_for_client-keeps :
      (m : PortListenerManager) (mappings : List PortMapping) (port : ℕ)
      → is_client_bound m client_id port ≡ true
      → is_client_bound (bind_ports_for_client binds m client_id mappings ws_tx).0 client_id port
        ≡ true
  unfolding bind_ports_for_client
  bind_ports_for_client-keeps m [] port held = held
  bind_ports_for_client-keeps m (mp ∷ mappings) port held =
      elim (Bool-cases (ensure_listener binds m mp.remote_port mp.name).1) [
        | inl there ↦
            rw (there)
              (bind_ports_for_client-keeps (bound m mp) mappings port (bound-keeps m mp port held))
        | inr absent ↦
            rw (absent) (ensure_listener-keeps binds m client_id port mp.remote_port mp.name held)
      ]

  bind_ports_for_client-there :
      (m : PortListenerManager) (mp : PortMapping) (mappings : List PortMapping)
      → (ensure_listener binds m mp.remote_port mp.name).1 ≡ true
      → bind_ports_for_client binds m client_id (mp ∷ mappings) ws_tx
        ≡ bind_ports_for_client binds (bound m mp) client_id mappings ws_tx
  unfolding bind_ports_for_client
  bind_ports_for_client-there m mp mappings there = rw (there) refl

  bind_ports_for_client-absent :
      (m : PortListenerManager) (mp : PortMapping) (mappings : List PortMapping)
      → (ensure_listener binds m mp.remote_port mp.name).1 ≡ false
      → (bind_ports_for_client binds m client_id (mp ∷ mappings) ws_tx).1 ≡ false
  unfolding bind_ports_for_client
  bind_ports_for_client-absent m mp mappings absent = rw (absent) refl

  -- When binding the ports of a client reports success, the client holds the port of each mapping.
  pub bind_ports_for_client_lem :
      (m : PortListenerManager) (mappings : List PortMapping)
      → (bind_ports_for_client binds m client_id mappings ws_tx).1 ≡ true
      → HoldsAll (bind_ports_for_client binds m client_id mappings ws_tx).0 client_id mappings
  bind_ports_for_client_lem m [] succeeded = tt
  bind_ports_for_client_lem m (mp ∷ mappings) succeeded =
      elim (Bool-cases (ensure_listener binds m mp.remote_port mp.name).1) [
        | inl there ↦
            let e = bind_ports_for_client-there m mp mappings there in
            subst (λ (r : PortListenerManager × Bool). HoldsAll r.0 client_id (mp ∷ mappings))
              (sym e)
              (
                bind_ports_for_client-keeps (bound m mp) mappings mp.remote_port (
                    bind_here _ client_id ws_tx mp.remote_port
                      (ensure_listener-get binds m mp.remote_port mp.name there)),
                bind_ports_for_client_lem (bound m mp) mappings
                    (subst (λ (r : PortListenerManager × Bool). r.1 ≡ true) e succeeded),
              )
        | inr absent ↦ ground (arith, bind_ports_for_client-absent m mp mappings absent, succeeded)
      ]
