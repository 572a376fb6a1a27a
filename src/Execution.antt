-- ===== src/Execution.antt =====
-- executionlayer/execution-layer.go: the state of the execution layer, what it reads from the chain,
-- and the actions that its handlers are written with. The logger is not modelled.
pub mod Recipient
pub mod Events
pub mod Backfill
pub mod Connection
pub mod Start
use rescue_proxy.Prelude.{
  ℕ, ◌+◌, ◌*◌, Bytes, Bool, Option, none, some, List, [], ◌∷◌, String, get_elem?,
}
use rescue_proxy.Prelude.Int.{ℤ}
use rescue_proxy.Prelude.Exec.{Exec, Result, ok, err, pure, raise}
use rescue_proxy.Cache.{address_eq, Address, Pubkey, Hash, NodeInfo, CacheError, Cache}

-- What a metrics registry has counted: each counter's name and what was added, the latest first.
abbrev pub Counters : Type 0
Counters = List (String × ℕ)

-- `zap`'s Panic, and Go's own panics.
pub data Panic : Type 0 where
  index_out_of_range cache_failure backfill_failure reconnect_failure : Panic

-- A log entry of the chain, `types.Log`.
pub record Log : Type 0 where
  pub address : Address
  pub topics : List Hash
  pub payload : Bytes
  pub block_number : ℕ

-- The contracts' addresses and the topics of the events, which `Init` and `ecEventsConnect` set.
pub record Contracts : Type 0 where
  pub node_manager : Address
  pub minipool_manager : Address
  pub smoothing_pool : Address
  pub node_registered : Hash
  pub smoothing_pool_status_changed : Hash
  pub minipool_launched : Hash

-- The rocketpool-go and go-ethereum calls. `GetDistributorAddress` returns an address beside its
-- error, and the code stores the address whether or not there is one; `minipool_pubkey` is the public
-- key in `GetMinipoolDetails`, or none on its error.
pub record Chain : Type 0 where
  pub bytes_to_address : Bytes → Address
  pub distributor_address : Address → Address × Bool
  pub minipool_pubkey : Address → Option Pubkey

pub record El (S : Type 0) : Type 0 where
  pub cache : S
  pub m : Counters

module _ {S : Type 0} where
  -- A cache call: its error is a value, which the caller tests.
  abbrev pub on_cache : {A : Type 0} → Exec S CacheError A → Exec (El S) Panic (Result CacheError A)
  on_cache op el = (ok (op el.cache).0, record el { cache = (op el.cache).1 })

  -- e.m.Counter(name).Inc()
  abbrev pub count : String → Exec (El S) Panic (Unit {0})
  count name el = (ok tt, record el { m = (name, 1) ∷ el.m })

  -- e.m.Counter(name).Add(n)
  abbrev pub count_by : String → ℕ → Exec (El S) Panic (Unit {0})
  count_by name n el = (ok tt, record el { m = (name, n) ∷ el.m })

  -- event.Topics[i]
  abbrev pub topic : Log → ℕ → Exec (El S) Panic Hash
  topic event i el = elim (get_elem? event.topics i) [
    | none ↦ (err index_out_of_range, el)
    | some t ↦ (ok t, el)
  ]

-- big.Int.SetBytes: the bytes as a big-endian number.
unfoldable pub big_endian_from : ℕ → Bytes → ℕ
big_endian_from acc [] = acc
big_endian_from acc (b ∷ bs) = big_endian_from (acc * 256 + b) bs

unfoldable pub big_endian : Bytes → ℕ
unfolding big_endian_from
big_endian bs = big_endian_from 0 bs
