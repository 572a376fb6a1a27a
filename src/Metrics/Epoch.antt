-- ===== src/Metrics/Epoch.antt =====
-- metrics/epoch.go: the nodes and validators seen in each pair of epochs, in a ring of four buckets. The
-- array of buckets is a function of the index; its indices are below 4.
pub mod Counting
pub mod Seen
pub mod Bounds
pub mod Gauges
use rescue_proxy.Prelude.{
  Option, none, some, ℕ, ◌+◌, ◌-◌, ◌/◌, ◌%◌, none, some, List, [], ◌∷◌, String, length, ◌==◌,
  nat_eq, list_eq, if◌then◌else◌, Comparable,
}
use rescue_proxy.Prelude.Map
use rescue_proxy.Prelude.Map.{Map}
use rescue_proxy.Cache.{address_eq, Address, Pubkey}

-- A `sync.Map` of nodes, each with a `sync.Map` that is used as a set.
abbrev pub Bucket : Type 0
Bucket = Map Address (Map Pubkey (Unit {0}))

pub record Epochs : Type 0 where
  pub current_idx : ℕ
  pub epochs : ℕ → Bucket
  pub registry : List String

-- epochs[i] = b
abbrev pub set_epoch : ℕ → Bucket → (ℕ → Bucket) → ℕ → Bucket
set_epoch i b epochs j = if i == j then b else epochs j

unfoldable pub on_head : ℕ → Epochs → Epochs
on_head epoch s =
    let new_current_idx = epoch / 2 % 4 in
    if new_current_idx == s.current_idx then s else record s {
      current_idx = new_current_idx;
      epochs = set_epoch new_current_idx [] s.epochs;
      registry = "head_advanced" ∷ s.registry;
    }

-- sync.Map.LoadOrStore: the value that the map then holds, and the map.
module _ {ℓ} {K V : Type ℓ} ⦃c : Comparable K⦄ where
  abbrev pub loaded_or_stored : Option V → K → V → Map K V → V × Map K V
  loaded_or_stored none k v m = (v, Map.put k v m)
  loaded_or_stored (some w) k v m = (w, m)

  abbrev pub load_or_store : K → V → Map K V → V × Map K V
  load_or_store k v m = loaded_or_stored (Map.get k m) k v m

-- The inner map is shared with the bucket: a store into it is one into the bucket.
unfoldable pub observe_in : Address → Pubkey → Bucket → Bucket
observe_in node pubkey b =
    let (node_map, b') = load_or_store node [] b in
    Map.put node (load_or_store pubkey tt node_map).1 b'

unfoldable pub observe_validator : Address → Pubkey → Epochs → Epochs
unfolding observe_in
observe_validator node pubkey s = record s {
  epochs = set_epoch s.current_idx (observe_in node pubkey (s.epochs s.current_idx)) s.epochs;
  registry = "observed_validator" ∷ s.registry;
}

unfoldable pub previous_epoch_idx : Epochs → ℕ
previous_epoch_idx s = if s.current_idx == 0 then 3 else s.current_idx - 1

unfoldable pub count_validators : Bucket → ℕ
count_validators [] = 0
count_validators ((node, validators) ∷ rest) = length validators + count_validators rest

unfoldable pub previous_epoch_nodes : Epochs → ℕ
unfolding previous_epoch_idx
previous_epoch_nodes s = length (s.epochs (previous_epoch_idx s))

unfoldable pub previous_epoch_validators : Epochs → ℕ
unfolding previous_epoch_idx count_validators
previous_epoch_validators s = count_validators (s.epochs (previous_epoch_idx s))

-- (*ConsensusLayer).onHeadUpdate. The event's slot, or none if the event is of another type; a division
-- by zero panics, and `slots_per_epoch` is the beacon node's, which is positive.
unfoldable pub on_head_update : ℕ → Option ℕ → Epochs → Epochs
on_head_update slots_per_epoch none s = s
on_head_update slots_per_epoch (some slot) s = on_head (slot / slots_per_epoch) s
