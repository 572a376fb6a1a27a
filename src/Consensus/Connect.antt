-- ===== src/Consensus/Connect.antt =====
-- consensuslayer/consensus-layer.go: `Init` and `Deinit`. The client's connection, its `SlotsPerEpoch`, the
-- subscription to head events and `bigcache.New` are parameters, none on an error.
use rescue_proxy.Cache.{address_eq}
use rescue_proxy.Prelude.{
  ℕ, ◌<◌, Bool, true, false, Option, none, some, ◌≡◌, arith, Option-cases, inl, inr, if◌then◌else◌,
}
use rescue_proxy.Consensus.{ConsensusLayer}

pub record Beacon (B : Type 0) : Type 0 where
  pub connects : Bool
  pub slots_per_epoch : Option ℕ
  pub subscribes : Bool
  pub new_cache : Option B

-- The client: whether it is connected, and has the head events.
pub record Link : Type 0 where
  pub connected : Bool
  pub subscribed : Bool

-- `disconnect`; the cache is closed too.
unfoldable pub deinit : Link → Link
deinit link = record { connected = false; subscribed = false }

abbrev pub default_slots : ℕ
default_slots = 32

abbrev pub slots_or_default : Option ℕ → ℕ
slots_or_default none = default_slots
slots_or_default (some n) = n

module _ {B : Type 0} where
  abbrev pub with_cache : Option B → ConsensusLayer B → Link → Bool × (ConsensusLayer B × Link)
  with_cache none c link = (false, (c, link))
  with_cache (some cache) c link = (true, (record c { pubkey_cache = cache }, link))

  -- Whether it succeeds. Only the connection and the cache can end it: without the slots per epoch there
  -- is a default, and without head events it goes on.
  unfoldable pub init : Beacon B → ConsensusLayer B → Link → Bool × (ConsensusLayer B × Link)
  init bn c link =
      if bn.connects
      then with_cache bn.new_cache
          (record c { slots_per_epoch = slots_or_default bn.slots_per_epoch })
          (record { connected = true; subscribed = bn.subscribes })
      else (false, (c, link))

  -- The division in onHeadUpdate is by a positive number, if the beacon node's own is.
  init-slots_per_epoch :
      (bn : Beacon B) (c : ConsensusLayer B) (link : Link)
      → (init bn c link).0 ≡ true
      → 0 < slots_or_default bn.slots_per_epoch
      → 0 < (init bn c link).1.0.slots_per_epoch
  unfolding init
  init-slots_per_epoch bn c link done positive = elim (Option-cases bn.new_cache) [
    | inl missing ↦ absurd (ground arith)
    | inr (cache, made) ↦ ground arith
  ]
