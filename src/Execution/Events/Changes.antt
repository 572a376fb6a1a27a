-- ===== src/Execution/Events/Changes.antt =====
-- What an event says, read without a cache, and what that changes in a cache's contents.
use rescue_proxy.Prelude.{
  ℕ, Bytes, Bool, false, Option, none, some, List, [], ◌∷◌, ◌==◌, nat_eq, list_eq, if◌then◌else◌,
}
use rescue_proxy.Prelude.Int.{int64_of_uint64}
use rescue_proxy.Cache.{
  address_eq, Address, Pubkey, NodeInfo, Contents, with_minipool, with_node, with_highest,
}
use rescue_proxy.Execution.{Contracts, Chain, Log, big_endian}

pub data Change : Type 0 where
  -- a node registered, with its fee distributor
  registered : Address → Address → Change
  -- a node joined or left the smoothing pool; its fee distributor, were it not known yet
  pool_status : Address → Bool → Address → Change
  launched : Pubkey → Address → Change
  nothing : Change

module _ (k : Contracts) (chain : Chain) where
  abbrev pub distributor : Address → Address
  distributor addr = (chain.distributor_address addr).0

  abbrev pub launch_of : Option Pubkey → Address → Change
  launch_of none addr = nothing
  launch_of (some pubkey) addr = launched pubkey addr

  -- `none` where the event lacks a topic that its kind has.
  abbrev pub node_change : Log → List Bytes → Option Change
  node_change event [] = none
  node_change event (t ∷ []) =
      if t == k.node_registered
      then none
      else if t == k.smoothing_pool_status_changed
      then none
      else some nothing
  node_change event (t ∷ a ∷ _) =
      let addr = chain.bytes_to_address a in
      if t == k.node_registered
      then some (registered addr (distributor addr))
      else if t == k.smoothing_pool_status_changed
      then some (pool_status addr (big_endian event.payload == 1) (distributor addr))
      else some nothing

  abbrev pub minipool_change : List Bytes → Option Change
  minipool_change [] = none
  minipool_change (t ∷ m ∷ n ∷ _) =
      if t == k.minipool_launched
      then some
          (launch_of (chain.minipool_pubkey (chain.bytes_to_address m)) (chain.bytes_to_address n))
      else some nothing
  minipool_change (t ∷ _) = if t == k.minipool_launched then none else some nothing

  unfoldable pub change_of : Log → Option Change
  change_of event =
      if k.node_manager == event.address
      then node_change event event.topics
      else if k.minipool_manager == event.address
      then minipool_change event.topics
      else some nothing

abbrev pub node_or : Option NodeInfo → Address → NodeInfo
node_or none d = record { in_smoothing_pool = false; fee_distributor = d }
node_or (some n) d = n

unfoldable pub apply : Change → Contents → Contents
apply (registered a d) v = with_node a (record { in_smoothing_pool = false; fee_distributor = d }) v
apply (pool_status a b d) v =
    with_node a (record (node_or (v.nodes a) d) { in_smoothing_pool = b }) v
apply (launched p a) v = with_minipool p a v
apply nothing v = v

-- A change, and the height of its block.
abbrev pub apply_at : ℕ → Change → Contents → Contents
apply_at block change v = with_highest (int64_of_uint64 block) (apply change v)
