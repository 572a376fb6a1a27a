-- ===== src/Execution/Start.antt =====
-- executionlayer/execution-layer.go: `Init`, which warms the cache up, `ecEventsConnect`, and `Deinit`. The
-- dialling of the execution client, rocketpool-go's reads at a block and `Keccak256Hash` are parameters, none
-- on an error. The goroutine that `ecEventsConnect` starts is `listen`.
pub mod Preloaded
pub mod Synced
pub mod Future
pub mod Stopped
use rescue_proxy.Prelude.{
  ℕ, zero, suc, Bytes, codes, Bool, true, false, Option, none, some, List, [], ◌∷◌, String, ◌||◌,
  if◌then◌else◌,
}
use rescue_proxy.Prelude.Int.{ℤ, pos, negsuc, ◌-ℤ◌, ltb_ℤ, int64_of_big}
use rescue_proxy.Prelude.Exec.{Exec, Result, ok, err, pure, raise, gets, modify, ◌>>=◌, ◌>>◌}
use rescue_proxy.Cache.{address_eq, Address, Pubkey, Hash, NodeInfo, CacheError, Cache}
use rescue_proxy.Execution.{El, Contracts, Chain, Log, Panic}
use rescue_proxy.Execution.Backfill.{Client, RpcError, nil, rpc_error, backfill_events}
use rescue_proxy.Execution.Connection.{Connection, Message, listen, begin_deinit}

abbrev pub max_cache_age_blocks : ℕ
max_cache_age_blocks = 64

-- What `Init` reads: `Dial` and `NewRocketPool`, the block of the first `HeaderByNumber`, and at a block the
-- contracts, the nodes, and of a node its state, its fee distributor and its minipools' public keys.
pub record Rocketpool : Type 0 where
  pub dial : Option (Unit {0})
  pub new_rocket_pool : Option (Unit {0})
  pub header : Option ℤ
  pub get_contract : String → ℤ → Option Address
  pub get_nodes : ℤ → Option (List Address)
  pub get_smoothing_pool_registration_state : Address → ℤ → Option Bool
  pub get_distributor_address : Address → ℤ → Option Address
  pub get_node_minipools : Address → ℤ → Option (List Pubkey)
  pub keccak256_hash : Bytes → Hash

-- What `ecEventsConnect` reaches: its two subscriptions, and what backfilling reads.
pub record Feed : Type 0 where
  pub subscribe_logs : Option ℕ
  pub subscribe_heads : Option ℕ
  pub client : Client
  pub chain : Chain

-- An error that is returned, or a panic of a handler.
pub data StartError : Type 0 where
  failed : StartError
  panicked : Panic → StartError

abbrev pub Start : Type 0 → Type 0 → Type 0
Start S A = Exec (Connection S) StartError A

abbrev pub returned : {E A : Type 0} → Result E A → Result StartError A
returned (ok a) = ok a
returned (err e) = err failed

abbrev pub or_panicked : {A : Type 0} → Result Panic A → Result StartError A
or_panicked (ok a) = ok a
or_panicked (err p) = err (panicked p)

abbrev pub or_failed : {A : Type 0} → Option A → Result StartError A
or_failed none = err failed
or_failed (some a) = ok a

abbrev pub is_zero_ℤ : ℤ → Bool
is_zero_ℤ (pos zero) = true
is_zero_ℤ (pos (suc n)) = false
is_zero_ℤ (negsuc n) = false

-- `delta.Int64() < 0 || delta.Int64() > maxCacheAgeBlocks`
unfoldable pub is_stale : ℤ → ℤ → Bool
is_stale header cache_block =
    let delta = int64_of_big (header -ℤ cache_block) in
    ltb_ℤ delta (pos 0) || ltb_ℤ (pos max_cache_age_blocks) delta

-- The contracts' addresses, with the topics that `ecEventsConnect` computes.
abbrev pub contracts_at : Rocketpool → Address → Address → Address → Contracts
contracts_at rp node_manager minipool_manager smoothing_pool = record {
  node_manager = node_manager;
  minipool_manager = minipool_manager;
  smoothing_pool = smoothing_pool;
  node_registered = rp.keccak256_hash (codes "NodeRegistered(address,uint256)");
  smoothing_pool_status_changed =
      rp.keccak256_hash (codes "NodeSmoothingPoolStateChanged(address,bool)");
  minipool_launched = rp.keccak256_hash (codes "MinipoolCreated(address,address,uint256)");
}

module _ {S : Type 0} where
  -- if err != nil { return err }
  abbrev pub required : {A : Type 0} → Option A → Start S A
  required o s = (or_failed o, s)

  abbrev pub on_cache : {A : Type 0} → Exec S CacheError A → Start S A
  on_cache op s =
      let (r, cache) = op s.el.cache in
      (returned r, record s { el = record s.el { cache = cache } })

  abbrev pub on_el : {A : Type 0} → Exec (El S) Panic A → Start S A
  on_el op s = (or_panicked (op s.el).0, record s { el = (op s.el).1 })

  abbrev pub nil_or_failed : RpcError → Start S (Unit {0})
  nil_or_failed nil = pure tt
  nil_or_failed rpc_error = raise failed

  -- The cold path's loop over a node's minipools.
  unfoldable pub add_minipools : Cache S → Address → List Pubkey → Start S (Unit {0})
  add_minipools c addr [] = pure tt
  add_minipools c addr (pubkey ∷ more) = do
    on_cache (c.add_minipool_node pubkey addr)
    add_minipools c addr more

  -- What the cold path does with each node.
  unfoldable pub add_node : Cache S → Rocketpool → ℤ → Address → Start S (Unit {0})
  unfolding add_minipools
  add_node c rp block addr = do
    in_smoothing_pool ← required (rp.get_smoothing_pool_registration_state addr block)
    fee_distributor ← required (rp.get_distributor_address addr block)
    on_cache (
        c.add_node_info addr
          (record { in_smoothing_pool = in_smoothing_pool; fee_distributor = fee_distributor }))
    minipools ← required (rp.get_node_minipools addr block)
    add_minipools c addr minipools

  unfoldable pub add_nodes : Cache S → Rocketpool → ℤ → List Address → Start S (Unit {0})
  unfolding add_node
  add_nodes c rp block [] = pure tt
  add_nodes c rp block (addr ∷ more) = do add_node c rp block addr; add_nodes c rp block more

  unfoldable pub warm_up : Cache S → Rocketpool → ℤ → Start S (Unit {0})
  unfolding add_nodes
  warm_up c rp block = do nodes ← required (rp.get_nodes block); add_nodes c rp block nodes

  unfoldable pub ec_events_connect : Cache S → Contracts → Feed → ℤ → Start S (Unit {0})
  ec_events_connect c k feed block = do
    on_cache (λ s. (ok tt, c.set_highest_block block s))
    sub ← required feed.subscribe_logs
    new_head_sub ← required feed.subscribe_heads
    e ← on_el (backfill_events c k feed.chain feed.client)
    nil_or_failed e
    modify (λ s. record s { shutdown_cb = some (sub, new_head_sub) })
    modify (λ s. record s { log_sub = sub; head_sub = new_head_sub })

  unfoldable pub load_contracts : Rocketpool → ℤ → Start S Contracts
  load_contracts rp block = do
    node_manager ← required (rp.get_contract "rocketNodeManager" block)
    minipool_manager ← required (rp.get_contract "rocketMinipoolManager" block)
    smoothing_pool ← required (rp.get_contract "rocketSmoothingPool" block)
    pure (contracts_at rp node_manager minipool_manager smoothing_pool)

  -- A cache that is stale is reset, and then counts as empty.
  unfoldable pub fresh_cache_block : Cache S → ℤ → ℤ → Start S ℤ
  fresh_cache_block c header cache_block =
      if is_stale header cache_block then (do on_cache c.reset; pure (pos 0)) else pure cache_block

  -- The slow path on a cold cache; a warm one is backfilled from its own block.
  unfoldable pub connect : Cache S → Rocketpool → Feed → Contracts → ℤ → ℤ → Start S (Unit {0})
  unfolding warm_up ec_events_connect
  connect c rp feed k header cache_block =
      if is_zero_ℤ cache_block
      then (do warm_up c rp header; ec_events_connect c k feed header)
      else ec_events_connect c k feed cache_block

  -- The contracts are fields that the handlers read, so they are returned.
  unfoldable pub init : Cache S → Rocketpool → Feed → Start S Contracts
  unfolding fresh_cache_block load_contracts connect
  init c rp feed = do
    on_cache c.init
    cache_block ← gets (λ s. c.get_highest_block s.el.cache)
    required rp.dial
    required rp.new_rocket_pool
    header ← required rp.header
    cache_block' ← fresh_cache_block c header cache_block
    k ← load_contracts rp header
    connect c rp feed k header cache_block'
    pure k

  -- The goroutine, over what it receives until the channels are closed; true if it still waits.
  unfoldable pub drain : Cache S → Contracts → List Message → Exec (Connection S) Panic Bool
  drain c k messages s =
      let (r, listener) =
        listen c k messages
          (record { conn = s; no_more_events = false; no_more_headers = false }) in
      (r, listener.conn)

  -- `Deinit`, and whether it returns: it waits for the goroutine. The cache's error is only logged.
  abbrev pub deinit_if :
      Cache S → Contracts → List Message → Option (ℕ × ℕ) → Exec (Connection S) Panic Bool
  deinit_if c k messages none = pure true
  deinit_if c k messages (some subs) = do
    modify (begin_deinit c k)
    waits ← drain c k messages
    if waits
        then pure false
        else (λ s. (ok true, record s { el = record s.el { cache = (c.deinit s.el.cache).1 } }))

  unfoldable pub deinit : Cache S → Contracts → List Message → Exec (Connection S) Panic Bool
  unfolding drain
  deinit c k messages s = deinit_if c k messages s.shutdown_cb s
