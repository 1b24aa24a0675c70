-- ===== src/Lan/Address.antt =====
-- The addresses of src/services/lan_discovery/mod.rs: the ranges of private addresses, the broadcast
-- address of a subnet, and the services and capabilities that the environment lists.
use xjp_deploy_agent.Prelude.{
  leb, nat_beq, unwrap_or, ℕ, String, Bool, false, ◌&&◌, ◌||◌, Option, none, some, List, [], ◌∷◌,
  map,
}
use xjp_deploy_agent.Prelude.Text.{split, trim, parse_uint, parsed}
use xjp_deploy_agent.Lan.{LocalService}

unfoldable pub is_private : List ℕ → Bool
is_private (a ∷ b ∷ c ∷ d ∷ []) =
    nat_beq a 10 || (nat_beq a 172 && (leb 16 b && leb b 31)) || (nat_beq a 192 && nat_beq b 168)
is_private parts = false

unfoldable pub is_private_ip : String → Bool
is_private_ip ip = is_private (parsed 255 (split 46 ip))

-- The address that the agent broadcasts to, for the octets of its own.
unfoldable pub broadcast_ip : Option (ℕ × ℕ × ℕ × ℕ) → ℕ × ℕ × ℕ × ℕ
broadcast_ip none = (255, 255, 255, 255)
broadcast_ip (some (a, b, c, d)) = (a, b, c, 255)

unfoldable pub service_of : List String → Option LocalService
service_of (id ∷ port ∷ []) = some (record {
  service_id = id;
  port = unwrap_or (parse_uint 65535 port) 0;
  protocol = "http";
  health_path = none;
})
service_of (id ∷ port ∷ protocol ∷ []) = some (record {
  service_id = id;
  port = unwrap_or (parse_uint 65535 port) 0;
  protocol = protocol;
  health_path = none;
})
service_of (id ∷ port ∷ protocol ∷ path ∷ rest) = some (record {
  service_id = id;
  port = unwrap_or (parse_uint 65535 port) 0;
  protocol = protocol;
  health_path = some path;
})
service_of parts = none

-- The items `service_id:port:protocol:health_path` with at least an id and a port.
unfoldable pub services_of_items : List String → List LocalService
services_of_items [] = []
services_of_items (item ∷ items) = elim (service_of (split 58 item)) [
  | none ↦ services_of_items items
  | some service ↦ service ∷ services_of_items items
]

unfoldable pub parse_local_services : String → List LocalService
parse_local_services s = services_of_items (split 44 s)

unfoldable pub parse_capabilities : String → List String
parse_capabilities s = map trim (split 44 s)
