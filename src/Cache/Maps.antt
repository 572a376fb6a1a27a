-- ===== src/Cache/Maps.antt =====
-- executionlayer/maps-cache.go: the cache in memory. Both indices hold only values of their own type,
-- so the type assertions after `Load` cannot fail. `nodeIndex` holds pointers; a node's record is
-- changed only by `handleNodeEvent`, which stores it again at once, so values serve.
pub mod Laws
use rescue_proxy.Prelude.{
  Bytes, Bool, Option, none, some, List, [], ◌∷◌, if◌then◌else◌, nat_eq, list_eq,
}
use rescue_proxy.Prelude.Map
use rescue_proxy.Prelude.Map.{Map}
use rescue_proxy.Prelude.Int.{ℤ, pos, leb_ℤ}
use rescue_proxy.Prelude.Exec.{Exec, Result, ok, err, pure, raise}
use rescue_proxy.Cache.{
  address_eq, Address, Pubkey, NodeInfo, CacheError, not_found, ForEachNodeClosure, Cache,
}

pub record MapsCache : Type 0 where
  pub minipool_index : Map Pubkey Address
  pub node_index : Map Address NodeInfo
  pub highest_block : ℤ

abbrev pub M : Type 0 → Type 0
M A = Exec MapsCache CacheError A

unfoldable pub init : M (Unit {0})
init m = (ok tt, record { minipool_index = []; node_index = []; highest_block = pos 0 })

unfoldable pub get_minipool_node : Pubkey → M Address
get_minipool_node pubkey m = elim (Map.get pubkey m.minipool_index) [
  | none ↦ (err not_found, m)
  | some node_addr ↦ (ok node_addr, m)
]

unfoldable pub add_minipool_node : Pubkey → Address → M (Unit {0})
add_minipool_node pubkey node_addr m =
    (ok tt, record m { minipool_index = Map.put pubkey node_addr m.minipool_index })

unfoldable pub get_node_info : Address → M NodeInfo
get_node_info node_addr m = elim (Map.get node_addr m.node_index) [
  | none ↦ (err not_found, m)
  | some node_info ↦ (ok node_info, m)
]

unfoldable pub add_node_info : Address → NodeInfo → M (Unit {0})
add_node_info node_addr node m =
    (ok tt, record m { node_index = Map.put node_addr node m.node_index })

-- `sync.Map.Range`: it stops when the closure returns false.
unfoldable pub range : ForEachNodeClosure → Map Address NodeInfo → List Bytes → List Bytes
range closure [] captured = captured
range closure ((k, value) ∷ rest) captured =
    let (go_on, captured') = closure k captured in
    let later = range closure rest captured' in if go_on then later else captured'

unfoldable pub for_each_node :
    ForEachNodeClosure
    → List Bytes
    → MapsCache
    → (Result CacheError (Unit {0}) × List Bytes) × MapsCache
unfolding range
for_each_node closure captured m = ((ok tt, range closure m.node_index captured), m)

unfoldable pub set_highest_block : ℤ → MapsCache → MapsCache
set_highest_block block m =
    if leb_ℤ block m.highest_block then m else record m { highest_block = block }

unfoldable pub get_highest_block : MapsCache → ℤ
get_highest_block m = m.highest_block

unfoldable pub deinit : M (Unit {0})
deinit = pure tt

unfoldable pub reset : M (Unit {0})
unfolding init
reset m = init m

unfoldable pub maps_cache : Cache MapsCache
unfolding init get_minipool_node add_minipool_node get_node_info add_node_info for_each_node
    set_highest_block get_highest_block deinit reset
maps_cache = record {
  init = init;
  get_minipool_node = get_minipool_node;
  add_minipool_node = add_minipool_node;
  get_node_info = get_node_info;
  add_node_info = add_node_info;
  for_each_node = for_each_node;
  set_highest_block = set_highest_block;
  get_highest_block = get_highest_block;
  deinit = deinit;
  reset = reset;
}
