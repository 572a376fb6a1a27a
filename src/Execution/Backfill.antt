-- ===== src/Execution/Backfill.antt =====
-- executionlayer/execution-layer.go, `backfillEvents`: what was missed since the highest block.
pub mod Laws
use rescue_proxy.Prelude.{
  ℕ, ◌+◌, Bool, Option, none, some, List, [], ◌∷◌, String, if◌then◌else◌, zero, suc,
}
use rescue_proxy.Prelude.Int.{ℤ, pos, pos_part, ◌+ℤ◌, ◌-ℤ◌, ltb_ℤ}
use rescue_proxy.Prelude.Exec.{Exec, Result, ok, err, pure, raise, ◌>>=◌, ◌>>◌}
use rescue_proxy.Cache.{address_eq, Cache}
use rescue_proxy.Execution.{El, Contracts, Chain, Log, Panic, count, count_by}
use rescue_proxy.Execution.Events.{handle_event, advance}

-- The execution client: `HeaderByNumber` of the latest block, its number or an error, and `FilterLogs`
-- of the subscribed events in a range of blocks, both ends included.
pub record Client : Type 0 where
  pub latest : Option ℤ
  pub filter_logs : ℤ → ℤ → Option (List Log)

-- An `error`: nil, or one of the client's.
pub data RpcError : Type 0 where
  nil rpc_error : RpcError

module _ {S : Type 0} (c : Cache S) (k : Contracts) (chain : Chain) where
  -- for _, event := range missedEvents
  unfoldable pub handle_missed : List Log → Exec (El S) Panic (Unit {0})
  handle_missed [] = pure tt
  handle_missed (event ∷ rest) = do
    handle_event c k chain event
    count "backfill_events"
    handle_missed rest

  -- The events of the blocks from `start` to `stop`.
  abbrev pub fill : ℤ → ℤ → Option (List Log) → Exec (El S) Panic RpcError
  fill start stop none = pure rpc_error
  fill start stop (some missed) = do
    handle_missed missed
    advance c k chain stop
    count_by "backfill_blocks" (pos_part (stop -ℤ start +ℤ pos 1))
    pure nil

  abbrev pub fill_from : Client → ℤ → Option ℤ → Exec (El S) Panic RpcError
  fill_from client start none = pure rpc_error
  fill_from client start (some stop) =
      if ltb_ℤ stop start then pure nil else fill start stop (client.filter_logs start stop)

  unfoldable pub backfill_events : Client → Exec (El S) Panic RpcError
  backfill_events client el =
      fill_from client (c.get_highest_block el.cache +ℤ pos 1) client.latest el
