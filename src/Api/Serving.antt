-- ===== src/Api/Serving.antt =====
-- api/api.go: `NewAPI`, `Init` and `Deinit`; and api/client/main.go, which prints the nodes that the API
-- returns. Listening, dialling and JSON are parameters.
use rescue_proxy.Cache.{address_eq}
use rescue_proxy.Prelude.{
  Bytes, Bool, true, false, Option, none, some, List, [], ◌∷◌, ◌++◌, if◌then◌else◌, codes,
}
use rescue_proxy.Prelude.Hex.{hex}

-- Whether it listens, and whether a server is registered that serves.
pub record Server : Type 0 where
  pub listen_addr : Bytes
  pub listening : Bool
  pub serving : Bool

unfoldable pub new_api : Bytes → Server
new_api listen_addr = record { listen_addr = listen_addr; listening = false; serving = false }

unfoldable pub init : (Bytes → Bool) → Server → Bool × Server
init can_listen a =
    if can_listen a.listen_addr
    then (true, record a { listening = true; serving = true })
    else (false, a)

unfoldable pub deinit : Server → Server
deinit a = record a { listening = false; serving = false }

-- The loop over the node ids.
unfoldable pub node_texts : List Bytes → List Bytes
node_texts [] = []
node_texts (addr ∷ more) = (codes "0x" ++ hex addr) ∷ node_texts more

abbrev pub printed : (List Bytes → Option Bytes) → Option (List Bytes) → Option Bytes
printed to_json none = none
printed to_json (some node_ids) = to_json (node_texts node_ids)

-- What the client prints, or none where it exits with status 1.
unfoldable pub client_main :
    (Bytes → Bool)
    → (Bytes → Option (List Bytes))
    → (List Bytes → Option Bytes)
    → Bytes
    → Option Bytes
unfolding node_texts
client_main can_dial get_rocket_pool_nodes to_json addr =
    if can_dial addr then printed to_json (get_rocket_pool_nodes addr) else none
