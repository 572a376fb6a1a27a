-- ===== src/Execution/Start/Preloaded.antt =====
-- Warming the cache up: what the cold path stores of the chain's nodes and minipools.
use rescue_proxy.Prelude.{
  Bool, true, false, Option, none, some, List, [], ◌∷◌, ◌≡◌, refl, arith, ap, ◌∙◌, ◌==◌, ◌||◌,
  nat_eq, list_eq, if◌then◌else◌, Bool-cases, inl, inr, eq_of_beq,
}
use rescue_proxy.Prelude.Int.{ℤ}
use rescue_proxy.Prelude.Exec.{Result, ok}
use rescue_proxy.Cache.{
  address_eq, Address, Pubkey, NodeInfo, Cache, CacheLaws, Contents, is_listed, with_minipool,
  with_node,
}
use rescue_proxy.Execution.Events.Laws.{written}
use rescue_proxy.Execution.Connection.{Connection}
use rescue_proxy.Execution.Start.{
  Rocketpool, StartError, add_minipools, add_node, add_nodes, warm_up,
}

abbrev pub or_else : {A : Type 0} → Option A → Option A → Option A
or_else none later = later
or_else (some a) later = some a

-- What the chain says at the block: the nodes' states and their minipools.
pub record ChainState : Type 0 where
  pub nodes : List Address
  pub info : Address → NodeInfo
  pub minipools : Address → List Pubkey

-- rocketpool-go answers with that state.
pub record IsRead (rp : Rocketpool) (block : ℤ) (t : ChainState) : Type 0 where
  pub nodes : rp.get_nodes block ≡ some t.nodes
  pub state :
      (a : Address)
      → rp.get_smoothing_pool_registration_state a block ≡ some (t.info a).in_smoothing_pool
  pub distributor :
      (a : Address) → rp.get_distributor_address a block ≡ some (t.info a).fee_distributor
  pub minipools : (a : Address) → rp.get_node_minipools a block ≡ some (t.minipools a)

-- The last node of the list that has the minipool.
unfoldable pub last_owner : (Address → List Pubkey) → List Address → Pubkey → Option Address
last_owner minipools [] p = none
last_owner minipools (a ∷ more) p =
    or_else (last_owner minipools more p) (if is_listed p (minipools a) then some a else none)

-- The contents with the chain's nodes, each with its info, and its minipools, each with its owner.
abbrev pub preloaded : ChainState → List Address → Contents → Contents
preloaded t nodes v = record v {
  minipools = λ p. or_else (last_owner t.minipools nodes p) (v.minipools p);
  nodes = λ a. if is_listed a nodes then some (t.info a) else v.nodes a;
}

with_minipools : Address → List Pubkey → Contents → Contents
with_minipools a pubkeys v = record v {
  minipools = λ p. if is_listed p pubkeys then some a else v.minipools p;
}

first_info :
    (t : ChainState) (b a : Address) (listed : Bool) (old : Option NodeInfo)
    → (if listed then some (t.info a) else if b == a then some (t.info b) else old)
      ≡ (if b == a || listed then some (t.info a) else old)
first_info t b a true old = ground arith
first_info t b a false old = elim (Bool-cases (b == a)) [
  | inl same ↦ rw same (ap (λ n. some (t.info n)) (eq_of_beq b a same))
  | inr differs ↦ rw differs refl
]

owned :
    (later old : Option Address) (a : Address) (listed : Bool)
    → or_else later (if listed then some a else old)
      ≡ or_else (or_else later (if listed then some a else none)) old
owned none old a listed = ground arith
owned (some b) old a listed = refl

either_listed :
    (a : Address) (p q : Pubkey) (more : List Pubkey) (old : Option Address)
    → (if is_listed q more then some a else if p == q then some a else old)
      ≡ (if p == q || is_listed q more then some a else old)
either_listed a p q more old = ground arith

module _ {S : Type 0} {c : Cache S} (l : CacheLaws c) where
  -- The step succeeds on a healthy cache, keeps it so, and makes its contents `v`.
  pub record Stored (v : Contents) (after : Result StartError (Unit {0}) × Connection S)
      : Type 0 where
    pub result : after.0 ≡ ok tt
    pub contents : l.contents after.1.el.cache ≡ v
    pub healthy : l.healthy after.1.el.cache ≡ true

  abbrev on_cache_of : Connection S → S → Connection S
  on_cache_of s s' = record s { el = record s.el { cache = s' } }

  add_minipools-Stored :
      (a : Address) (pubkeys : List Pubkey) (s : Connection S)
      → l.healthy s.el.cache ≡ true
      → Stored (with_minipools a pubkeys (l.contents s.el.cache)) (add_minipools c a pubkeys s)
  unfolding add_minipools is_listed with_minipools
  add_minipools-Stored a [] s h = record { result = refl; contents = refl; healthy = h }
  add_minipools-Stored a (p ∷ more) s h =
      let w = l.adds_minipool p a in
      let (now, fine) = written l (c.add_minipool_node p a) (with_minipool p a) s.el.cache w h in
      let s1 = on_cache_of s (c.add_minipool_node p a s.el.cache).1 in
      let later = add_minipools-Stored a more s1 fine in
      rw (w.exact s.el.cache h) (record {
        result = later.result;
        contents =
            later.contents
            ∙ (ap (with_minipools a more) now ∙ (λ i. record (l.contents s.el.cache) {
              minipools = λ q. either_listed a p q more ((l.contents s.el.cache).minipools q) i;
            }));
        healthy = later.healthy;
      })

  module _ (rp : Rocketpool) (block : ℤ) (t : ChainState) (read : IsRead rp block t) where
    add_node-Stored :
        (a : Address) (s : Connection S)
        → l.healthy s.el.cache ≡ true
        → Stored
            (with_minipools a (t.minipools a) (with_node a (t.info a) (l.contents s.el.cache)))
            (add_node c rp block a s)
    unfolding add_node
    add_node-Stored a s h =
        let w = l.adds_node a (t.info a) in
        let (now, fine) =
          written l (c.add_node_info a (t.info a)) (with_node a (t.info a)) s.el.cache w h in
        let s1 = on_cache_of s (c.add_node_info a (t.info a) s.el.cache).1 in
        let later = add_minipools-Stored a (t.minipools a) s1 fine in
        rw (read.state a, read.distributor a, w.exact s.el.cache h, read.minipools a)
          (record {
            result = later.result;
            contents = later.contents ∙ ap (with_minipools a (t.minipools a)) now;
            healthy = later.healthy;
          })

    add_nodes-Stored :
        (nodes : List Address) (s : Connection S)
        → l.healthy s.el.cache ≡ true
        → Stored (preloaded t nodes (l.contents s.el.cache)) (add_nodes c rp block nodes s)
    unfolding add_nodes last_owner is_listed with_minipools
    add_nodes-Stored [] s h = record { result = refl; contents = refl; healthy = h }
    add_nodes-Stored (a ∷ more) s h =
        let here = add_node-Stored a s h in
        let s1 = (add_node c rp block a s).1 in
        let later = add_nodes-Stored more s1 here.healthy in
        let v = l.contents s.el.cache in
        rw here.result (record {
          result = later.result;
          contents =
              later.contents
              ∙ (ap (preloaded t more) here.contents ∙ (λ i. record v {
                minipools = λ p.
                    owned (last_owner t.minipools more p) (v.minipools p) a
                      (is_listed p (t.minipools a)) i;
                nodes = λ b. first_info t a b (is_listed b more) (v.nodes b) i;
              }));
          healthy = later.healthy;
        })

    -- On a healthy cache, while rocketpool-go answers: the cold path succeeds and leaves the cache healthy,
    -- with each node of the chain and what the chain says of it, each minipool of these nodes with the last
    -- node that lists it, and beyond these what it held.
    pub warm_up-Stored :
        (s : Connection S)
        → l.healthy s.el.cache ≡ true
        → Stored (preloaded t t.nodes (l.contents s.el.cache)) (warm_up c rp block s)
    unfolding warm_up
    warm_up-Stored s h = rw read.nodes (add_nodes-Stored t.nodes s h)
