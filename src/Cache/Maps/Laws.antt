-- ===== src/Cache/Maps/Laws.antt =====
-- The cache in memory keeps the contract, and never fails.
use rescue_proxy.Prelude.{
  Bytes, List, [], ◌∷◌, ◌==◌, if◌then◌else◌, Bool-cases, inr, ap, Bool, true, ◌≡◌, refl, arith, inl,
  list_eq, nat_eq,
}
use rescue_proxy.Prelude.Map
use rescue_proxy.Prelude.Map.{get-put}
use rescue_proxy.Prelude.Int.{ℤ, max_ℤ}
use rescue_proxy.Prelude.Exec.{ok}
use rescue_proxy.Cache.{
  address_eq, ForEachNodeClosure, visit, is_listed, is_some, Visits, Address, Pubkey, NodeInfo,
  Contents, with_minipool, with_node, with_highest, or_not_found, Reads, Writes, CacheLaws,
  IsCleared,
}
use rescue_proxy.Cache.Maps.{
  range, for_each_node, MapsCache, maps_cache, get_minipool_node, add_minipool_node, get_node_info,
  add_node_info, set_highest_block, reset,
}

abbrev pub contents : MapsCache → Contents
contents m = record {
  minipools = λ p. Map.get p m.minipool_index;
  nodes = λ a. Map.get a m.node_index;
  highest = m.highest_block;
}

abbrev pub healthy : MapsCache → Bool
healthy m = true

pub gets_minipool :
    (p : Pubkey) → Reads contents healthy (get_minipool_node p) (λ v. or_not_found (v.minipools p))
unfolding get_minipool_node
gets_minipool p = record {
  kept = λ s. ground arith;
  stays_healthy = λ s h. refl;
  exact = λ s h. ground arith;
  sound = λ s. inl (ground arith);
}

pub gets_node :
    (a : Address) → Reads contents healthy (get_node_info a) (λ v. or_not_found (v.nodes a))
unfolding get_node_info
gets_node a = record {
  kept = λ s. ground arith;
  stays_healthy = λ s h. refl;
  exact = λ s h. ground arith;
  sound = λ s. inl (ground arith);
}

pub adds_minipool :
    (p : Pubkey) (a : Address) → Writes contents healthy (add_minipool_node p a) (with_minipool p a)
unfolding add_minipool_node
adds_minipool p a = record {
  stays_healthy = λ s h. refl;
  exact = λ s h. refl;
  atomic = λ s. inl (
    refl,
    λ i. record {
      minipools = λ q. get-put p q a s.minipool_index i;
      nodes = λ b. Map.get b s.node_index;
      highest = s.highest_block;
    },
  );
}

pub adds_node :
    (a : Address) (n : NodeInfo) → Writes contents healthy (add_node_info a n) (with_node a n)
unfolding add_node_info
adds_node a n = record {
  stays_healthy = λ s h. refl;
  exact = λ s h. refl;
  atomic = λ s. inl (
    refl,
    λ i. record {
      minipools = λ q. Map.get q s.minipool_index;
      nodes = λ b. get-put a b n s.node_index i;
      highest = s.highest_block;
    },
  );
}

pub raises :
    (b : ℤ) (m : MapsCache) → contents (set_highest_block b m) ≡ with_highest b (contents m)
unfolding set_highest_block max_ℤ
raises b m = ground arith

pub resets-IsCleared : (m : MapsCache) → IsCleared (contents (reset m).1)
unfolding reset Map.get
resets-IsCleared m = record { minipools = λ p. refl; nodes = λ a. refl }

range-visit :
    (closure : ForEachNodeClosure) (m : Map.Map Address NodeInfo) (captured : List Bytes)
    → range closure m captured ≡ visit closure (Map.keys m) captured
unfolding range visit
range-visit closure [] captured = refl
range-visit closure ((k, n) ∷ rest) captured =
    let later = range-visit closure rest (closure k captured).1 in
    ap (λ t. if (closure k captured).0 then t else (closure k captured).1) later

is_listed-keys :
    (a : Address) (m : Map.Map Address NodeInfo) → is_listed a (Map.keys m) ≡ is_some (Map.get a m)
unfolding is_listed Map.get
is_listed-keys a [] = refl
is_listed-keys a ((k, n) ∷ rest) = elim (Bool-cases (k == a)) [
  | inl same ↦ rw same refl
  | inr differs ↦ rw differs (is_listed-keys a rest)
]

pub maps_cache-Visits : (m : MapsCache) → Visits maps_cache contents healthy m
unfolding maps_cache for_each_node
maps_cache-Visits m = record {
  visited = Map.keys m.node_index;
  all = λ a. is_listed-keys a m.node_index;
  walks = λ closure captured. ap (λ t. (ok tt, t)) (range-visit closure m.node_index captured);
  kept = λ closure captured. refl;
}

unfoldable pub maps_laws : CacheLaws maps_cache
unfolding maps_cache
maps_laws = record {
  contents = contents;
  healthy = healthy;
  gets_minipool = gets_minipool;
  gets_node = gets_node;
  adds_minipool = adds_minipool;
  adds_node = adds_node;
  raises = raises;
  raises_healthy = λ b s. refl;
  height = λ s. refl;
  resets = λ s h. (refl, refl, resets-IsCleared s);
  visits = λ s h. maps_cache-Visits s;
}

-- The cache in memory keeps the contract of a cache, and is healthy in every state: its answers are
-- those of its contents and change nothing, an insertion shows in the contents exactly there, the
-- height only rises, a reset clears the indices, a walk over the nodes visits the addresses that have
-- one, and none of these calls fails.
pub maps_cache-CacheLaws : (l : CacheLaws maps_cache) × ((m : MapsCache) → l.healthy m ≡ true)
unfolding maps_laws
maps_cache-CacheLaws = (maps_laws, λ m. refl)
