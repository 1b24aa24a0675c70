-- ===== src/Tunnel/Tests.antt =====
-- The theorems on the tunnel at concrete inputs.
use xjp_deploy_agent.Prelude.{
  nat_eq, string_eq, All, ◌≡◌, refl, true, false, none, some, List, [], ◌∷◌, arith,
}
use xjp_deploy_agent.Prelude.Text.{
  is_whitespace, split, trim, trim_start, trim_end, parse_uint, parse_digits,
}
use xjp_deploy_agent.Tunnel.Mappings.{
  parse_mappings, parse_items, parse_mapping, mapping_of, print_mappings, IsPlain,
  parse_mappings-print_mappings,
}
use xjp_deploy_agent.HashMap
use xjp_deploy_agent.Tunnel.{PortMapping}
use xjp_deploy_agent.Tunnel.Listener
use xjp_deploy_agent.Tunnel.Listener.{
  PortListener, BoundClient, signals, forwards, sends, accept, bind_port,
}
use xjp_deploy_agent.Tunnel.Manager
use xjp_deploy_agent.Tunnel.Manager.{
  PortListenerManager, ok, is_client_bound, unbind_client, bind_ports_for_client,
  switch_client_binding,
}
use xjp_deploy_agent.Tunnel.Manager.Binding.{HoldsAll, bind_ports_for_client_lem}
use xjp_deploy_agent.Tunnel.Manager.Takeover.{IsHeld, switch_client_binding_lem}
use xjp_deploy_agent.Tunnel.Server.{Server, Connection, has_client}
use xjp_deploy_agent.Tunnel.Server.Connect.{on_config, on_disconnect}
use xjp_deploy_agent.Tunnel.Server.Stale.{stale_disconnect}

abbrev home : BoundClient
home = record { client_id = "home"; ws_tx = 1 }

abbrev listener : PortListener
listener = record {
  port = 8080;
  name = "web";
  bound_client = some home;
  active_connections = [];
  pending_connections = [];
  is_cancelled = false;
  started = true;
}

abbrev manager : PortListenerManager
manager = (8080, listener) ∷ []

abbrev mappings : List PortMapping
mappings =
    record { remote_port = 8080; local_host = "127.0.0.1"; local_port = 80; name = "web" } ∷ []

bind_ports_for_client_lem_example :
    HoldsAll (bind_ports_for_client (λ port n. true) [] "home" mappings 1).0 "home" mappings
unfolding bind_ports_for_client Manager.ensure_listener HashMap.contains_key Listener.start
    Listener.new bind_port
bind_ports_for_client_lem_example =
    bind_ports_for_client_lem (λ port n. true) "home" 1 [] mappings refl

switch_client_binding_lem_example :
    ((switch_client_binding manager "home" 2 mappings).1 ≡ ok 1)
    × All
        (λ (mp : PortMapping).
          IsHeld (switch_client_binding manager "home" 2 mappings).0 "home" 2 mp.remote_port)
        mappings
unfolding HashMap.get
switch_client_binding_lem_example = switch_client_binding_lem manager "home" 2 mappings (refl, tt)

abbrev empty_server : Server
empty_server = record {
  state = record { clients = []; port_to_client = []; pending_http_requests = [] };
  ports = manager;
}

abbrev old : Connection
old = record { client_addr = "10.0.0.1"; msg_tx = 1; client_id = some "home" }

abbrev fresh : Connection
fresh = record { client_addr = "10.0.0.1"; msg_tx = 2; client_id = none }

stale_disconnect_example :
    let joined = (on_config (λ port n. true) empty_server fresh "home" mappings).server in
    let left = on_disconnect joined old in
    (has_client joined.state "home" ≡ true)
    × HoldsAll joined.ports "home" mappings
    × (has_client left.state "home" ≡ false)
    × All (λ (mp : PortMapping). is_client_bound left.ports "home" mp.remote_port ≡ false) mappings
unfolding bind_ports_for_client Manager.ensure_listener HashMap.contains_key
stale_disconnect_example =
    stale_disconnect (λ port n. true) empty_server old fresh "home" mappings refl refl refl

abbrev minio : PortMapping
minio = record { remote_port = 19000; local_host = "localhost"; local_port = 9000; name = "minio" }

mappings_run : parse_mappings " minio:19000:localhost:9000 ,x:99999:h:1" ≡ minio ∷ []
unfolding parse_mappings parse_items parse_mapping mapping_of split trim trim_start trim_end
    is_whitespace parse_uint parse_digits
mappings_run = refl

minio_name-IsPlain : IsPlain "minio"
unfolding is_whitespace
minio_name-IsPlain = (
  (refl, (refl, (refl, (refl, (refl, tt))))),
  (refl, (refl, (refl, (refl, (refl, tt))))),
  (refl, (refl, (refl, (refl, (refl, tt))))),
)

minio_host-IsPlain : IsPlain "localhost"
unfolding is_whitespace
minio_host-IsPlain = (
  (refl, (refl, (refl, (refl, (refl, (refl, (refl, (refl, (refl, tt))))))))),
  (refl, (refl, (refl, (refl, (refl, (refl, (refl, (refl, (refl, tt))))))))),
  (refl, (refl, (refl, (refl, (refl, (refl, (refl, (refl, (refl, tt))))))))),
)

parse_mappings-print_mappings_example : parse_mappings (print_mappings (minio ∷ [])) ≡ minio ∷ []
parse_mappings-print_mappings_example =
    parse_mappings-print_mappings (minio ∷ [])
      ((minio_name-IsPlain, minio_host-IsPlain, omega arith, omega arith), tt)
