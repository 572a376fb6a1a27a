-- ===== src/Api.antt =====
-- api/api.go, `GetRocketPoolNodes`, over `ForEachNode` of the execution layer.
pub mod Laws
pub mod Serving
use rescue_proxy.Prelude.{Bytes, Bool, true, Option, none, some, List, [], ◌∷◌, ◌++◌, String}
use rescue_proxy.Prelude.Exec.{Result, ok, err}
use rescue_proxy.Cache.{address_eq, Address, CacheError, ForEachNodeClosure, Cache}
use rescue_proxy.Execution.{El}

pub record Api (S : Type 0) : Type 0 where
  pub el : El S
  pub m : List String

-- (*ExecutionLayer).ForEachNode
unfoldable pub el_for_each_node :
    {S : Type 0}
    → Cache S
    → ForEachNodeClosure
    → List Bytes
    → El S
    → (Result CacheError (Unit {0}) × List Bytes) × El S
el_for_each_node c closure captured el =
    let (answer, cache) = c.for_each_node closure captured el.cache in
    (answer, record el { cache = cache })

-- The closure that it passes: out.NodeIds = append(out.NodeIds, addr.Bytes()).
abbrev pub append_node_id : ForEachNodeClosure
append_node_id addr node_ids = (true, node_ids ++ addr.bytes ∷ [])

abbrev pub replied :
    {S : Type 0}
    → Result CacheError (Unit {0}) × List Bytes
    → Api S
    → Result CacheError (List Bytes) × Api S
replied (err e, node_ids) a = (err e, record a { m = "get_rocket_pool_nodes_error" ∷ a.m })
replied (ok u, node_ids) a = (ok node_ids, record a { m = "get_rocket_pool_nodes_ok" ∷ a.m })

unfoldable pub get_rocket_pool_nodes :
    {S : Type 0} → Cache S → Api S → Result CacheError (List Bytes) × Api S
get_rocket_pool_nodes c a =
    let (answer, el) = el_for_each_node c append_node_id [] a.el in
    replied answer (record a { el = el })
