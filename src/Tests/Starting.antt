-- ===== src/Tests/Starting.antt =====
-- Starting the execution layer over the cache in memory.
use rescue_proxy.Prelude.{true, false, none, some, [], ◌∷◌, ◌≡◌, refl, nat_eq, list_eq}
use rescue_proxy.Prelude.Int.{pos, ◌+ℤ◌, ◌-ℤ◌, max_ℤ, int64_of_big, int64_of_uint64}
use rescue_proxy.Prelude.Exec.{ok}
use rescue_proxy.Cache.{address_eq, Contents, IsCleared, with_highest}
use rescue_proxy.Cache.Maps.{MapsCache, maps_cache}
use rescue_proxy.Cache.Maps
use rescue_proxy.Cache.Maps.Laws.{maps_laws}
use rescue_proxy.Execution.{Contracts}
use rescue_proxy.Execution.Connection.{Connection}
use rescue_proxy.Execution.Start.{Rocketpool, Feed, contracts_at, is_stale, init}
use rescue_proxy.Execution.Start.Preloaded.{ChainState, IsRead, preloaded}
use rescue_proxy.Execution.Start.Synced.{CatchesUp, no_gap, IsReached, Started, init-Started_cold}
use rescue_proxy.Tests.Fixtures.{alice, pool, distributor, pubkey, chain, el, warm}

abbrev pub rocketpool : Rocketpool
rocketpool = record {
  dial = some tt;
  new_rocket_pool = some tt;
  header = some (pos 103);
  get_contract = λ name block. some pool;
  get_nodes = λ block. some (alice ∷ []);
  get_smoothing_pool_registration_state = λ a block. some true;
  get_distributor_address = λ a block. some distributor;
  get_node_minipools = λ a block. some (pubkey ∷ []);
  keccak256_hash = λ text. text;
}

abbrev pub on_chain : ChainState
on_chain = record {
  nodes = alice ∷ [];
  info = λ a. record { in_smoothing_pool = true; fee_distributor = distributor };
  minipools = λ a. pubkey ∷ [];
}

abbrev pub feed : Feed
feed = record {
  subscribe_logs = some 7;
  subscribe_heads = some 8;
  client = record { latest = some (pos 103); filter_logs = λ start stop. some [] };
  chain = chain;
}

pub rocketpool-IsReached : IsReached rocketpool (pos 103) pool pool pool
rocketpool-IsReached = record {
  dial = refl;
  new_rocket_pool = refl;
  latest = refl;
  finds_manager = refl;
  finds_minipools = refl;
  finds_pool = refl;
}

rocketpool-IsRead : IsRead rocketpool (pos 103) on_chain
rocketpool-IsRead = record {
  nodes = refl;
  state = λ a. refl;
  distributor = λ a. refl;
  minipools = λ a. refl;
}

abbrev pub contracts : Contracts
contracts = contracts_at rocketpool pool pool pool

abbrev cold : Connection MapsCache
cold = record {
  el = el;
  shutdown = false;
  shutdown_cb = none;
  log_sub = 0;
  head_sub = 0;
  unsubscribed = [];
  slept = 0;
}

abbrev emptied : MapsCache
emptied = (maps_cache.init warm).1

abbrev after_warm_up : Contents
after_warm_up =
    with_highest (pos 103)
      (preloaded on_chain (alice ∷ []) (maps_laws.contents (maps_cache.reset emptied).1))

cleared_first : maps_cache.init cold.el.cache ≡ (ok tt, emptied)
unfolding maps_cache Maps.init
cleared_first = refl

healthy : maps_laws.healthy emptied ≡ true
unfolding maps_laws
healthy = refl

old : is_stale (pos 103) (maps_laws.contents emptied).highest ≡ true
unfolding is_stale maps_laws maps_cache Maps.init ◌-ℤ◌ int64_of_big int64_of_uint64
old = refl

nothing_missed : CatchesUp contracts feed after_warm_up after_warm_up
unfolding maps_laws maps_cache Maps.init Maps.reset max_ℤ ◌+ℤ◌
nothing_missed = no_gap (pos 103) refl refl

init-Started_cold_example :
    Started maps_laws contracts after_warm_up (7, 8) (init maps_cache rocketpool feed cold)
    × IsCleared (maps_laws.contents (maps_cache.reset emptied).1)
init-Started_cold_example =
    init-Started_cold maps_laws rocketpool feed (pos 103) pool pool pool rocketpool-IsReached 7 8
      refl refl on_chain cold emptied after_warm_up cleared_first healthy old rocketpool-IsRead
      nothing_missed
