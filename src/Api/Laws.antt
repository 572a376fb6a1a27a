-- ===== src/Api/Laws.antt =====
-- What `GetRocketPoolNodes` answers.
use rescue_proxy.Prelude.{
  Bytes, true, List, [], ◌∷◌, ◌++◌, ◌≡◌, refl, sym, ◌∙◌, nat_eq, list_eq, map, ap, ◌||◌, ◌==◌,
}
use rescue_proxy.Prelude.Exec.{ok}
use rescue_proxy.Cache.{address_eq, Address, Cache, CacheLaws, visit, is_listed, is_some}
use rescue_proxy.Api.{Api, el_for_each_node, append_node_id, get_rocket_pool_nodes}
use mathlib.Core.List.{append_assoc, append-nil}

visit-append_node_id :
    (addresses : List Address) (before : List Bytes)
    → visit append_node_id addresses before ≡ before ++ map (λ (a : Address). a.bytes) addresses
unfolding visit
visit-append_node_id [] before = sym (append-nil before)
visit-append_node_id (a ∷ more) before =
    visit-append_node_id more (before ++ a.bytes ∷ [])
    ∙ append_assoc before (a.bytes ∷ []) (map (λ (b : Address). b.bytes) more)

is_listed-bytes :
    (node : Address) (addresses : List Address)
    → is_listed node.bytes (map (λ (a : Address). a.bytes) addresses) ≡ is_listed node addresses
unfolding is_listed
is_listed-bytes node [] = refl
is_listed-bytes node (a ∷ more) = ap (λ t. (a.bytes == node.bytes) || t) (is_listed-bytes node more)

-- The answer, and the state that it leaves.
pub record Answered {S : Type 0} {c : Cache S} (l : CacheLaws c) (a : Api S) : Type 0 where
  pub node_ids : List Bytes
  pub answer : (get_rocket_pool_nodes c a).0 ≡ ok node_ids
  pub all :
      (node : Address)
      → is_listed node.bytes node_ids ≡ is_some ((l.contents a.el.cache).nodes node)
  pub kept : l.contents (get_rocket_pool_nodes c a).1.el.cache ≡ l.contents a.el.cache
  pub counted : (get_rocket_pool_nodes c a).1.m ≡ "get_rocket_pool_nodes_ok" ∷ a.m

-- On a healthy cache GetRocketPoolNodes succeeds, lists an address exactly if the cache has a node of
-- that address, keeps the cache's contents, and counts one success.
pub get_rocket_pool_nodes-Answered :
    {S : Type 0} {c : Cache S} (l : CacheLaws c) (a : Api S)
    → l.healthy a.el.cache ≡ true
    → Answered l a
unfolding get_rocket_pool_nodes el_for_each_node
get_rocket_pool_nodes-Answered l a h =
    let walk = l.visits a.el.cache h in
    let collected = walk.walks append_node_id [] in
    let all_of_them = visit-append_node_id walk.visited [] in
    record {
      node_ids = map (λ (a : Address). a.bytes) walk.visited;
      answer = rw (collected, all_of_them) refl;
      all = λ node. is_listed-bytes node walk.visited ∙ walk.all node;
      kept = rw collected (walk.kept append_node_id []);
      counted = rw collected refl;
    }
