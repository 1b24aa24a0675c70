-- ===== src/Tunnel/Manager/Takeover.antt =====
-- Which client holds which port after `switch_client_binding`, and on which connection.
use xjp_deploy_agent.Prelude.{
  nat_beq, nat_beq_iff, if◌then◌else◌, Bool-cases, is_some, map_option, ◌==◌, nat_eq, string_eq,
  beq_refl, length, All, All-imp, ℕ, ◌+◌, String, ◌≡◌, refl, sym, ap, ◌∙◌, subst, inl, inr, Bool,
  true, false, not, ◌&&◌, Option, none, some, List, [], ◌∷◌, arith,
}
use xjp_deploy_agent.HashMap
use xjp_deploy_agent.HashMap.Laws.{get-modify, contains_key-get}
use xjp_deploy_agent.Tunnel.{PortMapping}
use xjp_deploy_agent.Tunnel.Listener
use xjp_deploy_agent.Tunnel.Listener.{PortListener, BoundClient}
use xjp_deploy_agent.Tunnel.Manager.{
  PortListenerManager, switch_one, switch_all, switch_client_binding, is_empty_list, ok,
}

-- The listener of a port is there, and is bound to the client on the given connection.
abbrev pub IsHeld : PortListenerManager → String → ℕ → ℕ → Type 0
IsHeld m client_id ws_tx port =
    map_option (λ (l : PortListener). l.bound_client) (HashMap.get m port)
    ≡ some (some (record { client_id = client_id; ws_tx = ws_tx }))

abbrev pub AllListen : PortListenerManager → List PortMapping → Type 0
AllListen m mappings =
    All (λ (mp : PortMapping). is_some (HashMap.get m mp.remote_port) ≡ true) mappings

module _ (client_id : String) (ws_tx : ℕ) where
  switch_one-bound :
      (l : PortListener)
      → (switch_one l client_id ws_tx).bound_client
        ≡ some (record { client_id = client_id; ws_tx = ws_tx })
  unfolding switch_one Listener.bind
  switch_one-bound l = ground arith

  map-switch :
      (found : Option PortListener)
      → is_some found ≡ true
      → map_option
          (λ (l : PortListener). l.bound_client)
          (map_option (λ l. switch_one l client_id ws_tx) found)
        ≡ some (some (record { client_id = client_id; ws_tx = ws_tx }))
  map-switch none there = ground (arith, there)
  map-switch (some l) there = ap some (switch_one-bound l)

  held-is_some :
      (found : Option PortListener) {bound : Option BoundClient}
      → map_option (λ (l : PortListener). l.bound_client) found ≡ some bound
      → is_some found ≡ true
  held-is_some none held = ground (arith, held)
  held-is_some (some l) held = refl

  is_some-map :
      (b : Bool) (found : Option PortListener)
      → is_some found ≡ true
      → is_some (if b then map_option (λ l. switch_one l client_id ws_tx) found else found) ≡ true
  is_some-map b none there = ground (arith, there)
  is_some-map true (some l) there = refl
  is_some-map false (some l) there = refl

  abbrev switched_at : PortListenerManager → ℕ → PortListenerManager
  switched_at m port = HashMap.modify m port (λ l. switch_one l client_id ws_tx)

  -- The port that is switched is held on the new connection.
  switched_here :
      (m : PortListenerManager) (port : ℕ)
      → is_some (HashMap.get m port) ≡ true
      → IsHeld (switched_at m port) client_id ws_tx port
  switched_here m port there =
      rw (get-modify m port port (λ l. switch_one l client_id ws_tx), beq_refl port)
        (map-switch (HashMap.get m port) there)

  switched_keeps :
      (m : PortListenerManager) (port other : ℕ)
      → IsHeld m client_id ws_tx port
      → IsHeld (switched_at m other) client_id ws_tx port
  switched_keeps m port other held = elim (Bool-cases (other == port)) [
    | inl same ↦
        rw (get-modify m other port (λ l. switch_one l client_id ws_tx), same)
          (map-switch (HashMap.get m port) (held-is_some (HashMap.get m port) held))
    | inr apart ↦ rw (get-modify m other port (λ l. switch_one l client_id ws_tx), apart) held
  ]

  switched_listens :
      (m : PortListenerManager) (other : ℕ) (mappings : List PortMapping)
      → AllListen m mappings
      → AllListen (switched_at m other) mappings
  switched_listens m other mappings =
      All-imp
        (λ (mp : PortMapping) there.
          rw (get-modify m other mp.remote_port (λ l. switch_one l client_id ws_tx))
            (is_some-map (other == mp.remote_port) (HashMap.get m mp.remote_port) there))
        mappings

  switch_all-keeps :
      (m : PortListenerManager) (mappings : List PortMapping) (n port : ℕ)
      → IsHeld m client_id ws_tx port
      → IsHeld (switch_all m client_id ws_tx mappings n).0 client_id ws_tx port
  unfolding switch_all
  switch_all-keeps m [] n port held = held
  switch_all-keeps m (mp ∷ mappings) n port held =
      switch_all-keeps (switched_at m mp.remote_port) mappings _ port
        (switched_keeps m port mp.remote_port held)

  switch_all-nil : (m : PortListenerManager) (n : ℕ) → (switch_all m client_id ws_tx [] n).1 ≡ n + 0
  unfolding switch_all
  switch_all-nil m n = omega arith

  switch_all-there :
      (m : PortListenerManager) (mp : PortMapping) (mappings : List PortMapping) (n : ℕ)
      → is_some (HashMap.get m mp.remote_port) ≡ true
      → switch_all m client_id ws_tx (mp ∷ mappings) n
        ≡ switch_all (switched_at m mp.remote_port) client_id ws_tx mappings (n + 1)
  unfolding switch_all
  switch_all-there m mp mappings n there =
      ap
        (λ (b : Bool).
          switch_all (switched_at m mp.remote_port) client_id ws_tx mappings
            (if b then n + 1 else n))
        (contains_key-get m mp.remote_port ∙ there)

  -- What the loop gives when it has switched `k` ports more than `n`.
  abbrev Switches : PortListenerManager × ℕ → List PortMapping → ℕ → Type 0
  Switches r mappings k =
      (r.1 ≡ k) × All (λ (mp : PortMapping). IsHeld r.0 client_id ws_tx mp.remote_port) mappings

  switch_all_lem :
      (m : PortListenerManager) (mappings : List PortMapping) (n : ℕ)
      → AllListen m mappings
      → Switches (switch_all m client_id ws_tx mappings n) mappings (n + length mappings)
  switch_all_lem m [] n there = (switch_all-nil m n, tt)
  switch_all_lem m (mp ∷ mappings) n there =
      let (counted, held) =
        switch_all_lem (switched_at m mp.remote_port) mappings (n + 1)
          (switched_listens m mp.remote_port mappings there.1) in
      subst
        (λ (r : PortListenerManager × ℕ). Switches r (mp ∷ mappings) (n + length (mp ∷ mappings)))
        (sym (switch_all-there m mp mappings n there.0))
        (
          omega (arith, counted),
          (
            switch_all-keeps (switched_at m mp.remote_port) mappings _ mp.remote_port
                (switched_here m mp.remote_port there.0),
            held,
          ),
        )

none_switched :
    (mappings : List PortMapping) (switched : ℕ)
    → switched ≡ 0 + length mappings
    → (nat_beq switched 0 && not (is_empty_list mappings)) ≡ false
unfolding is_empty_list
none_switched [] switched counted = ground (arith, counted)
none_switched (mp ∷ mappings) switched counted = ground (arith, counted, nat_beq_iff switched 0)

-- A takeover of a client's ports, each of which has a listener, reports as many switched ports as
-- there are mappings, and afterwards each of these ports is bound to the client on the new
-- connection.
pub switch_client_binding_lem :
    (m : PortListenerManager) (client_id : String) (new_ws_tx : ℕ) (mappings : List PortMapping)
    → AllListen m mappings
    → ((switch_client_binding m client_id new_ws_tx mappings).1 ≡ ok (length mappings))
      × All
          (λ (mp : PortMapping).
            IsHeld
              (switch_client_binding m client_id new_ws_tx mappings).0
              client_id
              new_ws_tx
              mp.remote_port)
          mappings
unfolding switch_client_binding
switch_client_binding_lem m client_id new_ws_tx mappings there =
    let (counted, held) = switch_all_lem client_id new_ws_tx m mappings 0 there in
    rw (none_switched mappings _ counted) (ap ok (counted ∙ omega arith), held)
