-- ===== src/Lib.antt =====
-- The Rescue Node proxy: it sits between a shared beacon node and its users, and lets a validator
-- client set a fee recipient only if that is the one that Rocket Pool expects of its node.
--
-- How the parts interact. A request passes the authentication (router/authentication.go), which
-- gives it the node's address, then the guard of its endpoint (router/router.go). The guard turns
-- validator indices into public keys by the consensus layer (consensuslayer/consensus-layer.go),
-- asks the execution layer (executionlayer/execution-layer.go) for the fee recipient that is
-- expected of each key, notes the validators that it saw (metrics/epoch.go), and hands the request
-- to the reverse proxy. The execution layer answers from a cache (executionlayer/cache.go), which it
-- keeps current from the events of the chain.
--
-- Which file models which part:
--   Cache        the interface `Cache` of executionlayer/cache.go, and its contract `CacheLaws`;
--                Cache/Maps is executionlayer/maps-cache.go. Cache/Sqlite is
--                executionlayer/sqlite-cache.go: its lookups and writes, in Files what it does with its
--                snapshot, in Sql what is assumed of SQLite, in Transactions one transaction's effect;
--                Same compares the two
--   Execution    executionlayer/execution-layer.go: Recipient is ValidatorFeeRecipient, Events the
--                event handlers, Backfill backfillEvents, Connection handleSubscriptionError and the
--                goroutine of ecEventsConnect (Follow while events arrive, Drain at its end), Start
--                Init, ecEventsConnect and Deinit; each has its theorems in child modules
--   Consensus    GetValidatorPubkey of consensuslayer/consensus-layer.go; Sound and Complete
--                have its theorems, and Connect is Init and Deinit
--   Metrics      Epoch is metrics/epoch.go, and onHeadUpdate of consensuslayer/consensus-layer.go;
--                Counting is about one bucket, Seen and Bounds about the ring; Registry is the lookup of
--                metrics/metrics.go, Package the rest of that file; Gauges is InitEpochMetrics
--   Router       Auth is router/authentication.go; Http is router/router.go, with the endpoints in
--                Http, the middleware and the routes in Http/Serve; Grpc is router/grpc.go, with the
--                callbacks in Grpc, the interceptor and the guarded stream in Grpc/Interceptor, Init and
--                Deinit in Grpc/Serving; World is the state that the handlers share;
--                Agreed compares the two guards
--   Api          GetRocketPoolNodes of api/api.go; Serving is the rest of api/
--   Main         initFlags of main.go; Main/Run is main, as the order of its steps
--   Tests        the theorems at a small deployment
--   Prelude      shared names, maps, signed integers, Go's text functions, and the monad of code that
--                changes a state and may stop early
--
-- How state and failure are modelled. A method is a function from the state to a result and the new
-- state. An error that the code tests is a value; an early return with a status, and a panic, are
-- the errors of the monad `Exec`. Function names are those of the source in this library's spelling,
-- so `handleNodeEvent` is `handle_node_event`. Every counter that is incremented is kept, as a list
-- of names; log lines are not.
--
-- An address is a list of 20 bytes (`Address`); public keys and hashes are lists of bytes. Blocks
-- are integers, as they are big.Int in the source; an event's block number is converted through
-- int64, as the source does, and a credential's timestamp in int64 seconds, as time.Unix does.
--
-- Parameters: the chain's clients and contracts (`Chain`, `Client`, `Network`, `Rocketpool`,
-- `Feed`), SQLite (`Database`, an operation to each statement of the source), its backups and the
-- file system (`Disk`), the beacon node, bigcache (`PubkeyCache`), the credentials library
-- (`Manager`), the parsers of URLs and durations (`Parsers`), JSON, protocol buffers (`Protobuf`),
-- the stream beneath the guarded one (`Transport`), `BytesToAddress`, `Address.String` and
-- `HexToValidatorPubkey`. Of `Address.String` it is assumed that it is 0x and the bytes in
-- hexadecimal, in some letter case (`IsHexString`). Of SQLite it is assumed that a transaction is
-- atomic, that a statement does what its text says, and that a fault shows as an error, so that a
-- query's rows do not end early (`SqlLaws`; Execution/Recipient/Truncated is about those that do),
-- and that the keys of the table of nodes are 20 bytes each, as the cache writes no others, which
-- `BytesToAddress` keeps as they are; of backups and files, that while they work a copy has what the
-- original had and a file keeps what was written, where the cache's directory is there and can be
-- used (`DiskLaws`). `healthy` says of a state that no fault is pending.
--
-- Bounds. Loops over slices are recursions on lists. The reconnection loop is a recursion on the
-- rounds left, ten as in the source. `format_uint` has fuel for the twenty digits of 64 bits.
--
-- Not modelled: logging, what crosses the network, the generated protocol buffers, and the admin
-- server, which is glue over net/http. Of a goroutine, the messages that it receives are given as a
-- sequence.
pub mod Prelude
pub mod Cache
pub mod Execution
pub mod Consensus
pub mod Metrics
pub mod Router
pub mod Api
pub mod Main
pub mod Tests
