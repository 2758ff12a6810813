-- ===== src/Lib.antt =====
-- FlowCache: a distributed cache. A client's request reaches the gateway, which hashes the key to the nodes that
-- own it on a consistent-hash ring and forwards the request, trying the next node when one fails. A cache node
-- keeps entries in a storage engine, which asks an eviction policy for victims, and replicates each write to
-- other nodes over a message bus, waiting for their acks.
--
-- The files and the code they model:
--   Base          lists, tests, machine words and insertion-ordered maps (`Map` of the language)
--   Shared        packages/shared/src/types.ts; Shared/Errors: errors.ts
--   Shared/RingBuffer, Numbers   the classes RingBuffer and Ema and clamp of packages/shared/src/utils.ts
--   Shared/Config   packages/shared/src/config.ts: the readers and the parser of the static nodes; Config/Services:
--                 the configurations; Config/StaticNodes: the theorem
--   Storage       packages/storage-engine/src/types.ts and the state of StorageEngine.ts
--   Storage/Engine   the methods of StorageEngine: set, get, has, peek, delete, clear, sweepExpired, getStats,
--                 and the private removeInternal and enforceCapacity
--   Storage/Removal, Invariant, Rounds, Limits, Expiry, Written   the theorems on them
--   Ring          packages/consistent-hash/src/ConsistentHashRing.ts; Ring/Hash: RingHash.ts; Ring/Rebalance:
--                 RebalanceAnalyzer.ts; Ring/Order, Search, Removal, Membership, Replicas: the theorems
--   Eviction/Lru, Lfu, TinyLfu, Sketch   packages/eviction/src/LRU.ts, LFU.ts, TinyLFU.ts, CountMinSketch.ts
--   Eviction/Policy   packages/eviction/src/EvictionPolicy.ts and PolicyFactory.ts
--   Eviction/Monitor, Rules   packages/eviction/src/WorkloadMonitor.ts and DecisionRules.ts
--   Eviction/Adaptive   packages/eviction/src/AdaptiveEvictionEngine.ts; Adaptive/Hook, Switching, History: the
--                 theorems on it
--   Workers       packages/worker-pool/src/WorkerPool.ts and the results of types.ts; Workers/Tracking,
--                 Searching, Invariant, Replacing, Steps, Runs, Settling, Wedged: the steps of a pool and the
--                 theorems on its runs
--   Snapshot      packages/snapshot/src/SnapshotManager.ts and InMemorySnapshotStore of SnapshotStore.ts;
--                 Snapshot/Sorted, Retention, Restored: the theorems
--   Metrics       packages/metrics/src: LatencyHistogram.ts, RateCounter.ts, MetricsCollector.ts and
--                 ClusterMetricsAggregator.ts; Metrics/Percentiles, Summary: the theorems
--   Replication   packages/replication/src/ReplicationEngine.ts and types.ts; Replication/Acks, Sets, Steps,
--                 Settled: the primary's side; Replication/Replica: the replica's side
--   Gateway/Health   apps/gateway/src/discovery/NodeHealthTracker.ts
--   Node/Recovery    services/cache-node/src/recovery/RecoveryEngine.ts
--   Node/Server      the handling of remote, restored and expired entries in services/cache-node/src/CacheNodeServer.ts
--                 and the worker task workers/handlers/cleanupExpiredHandler.ts of packages/worker-pool/src;
--                 Node/Unlimited, Deliveries, Lost, Cleanup, Restart: the theorems
--   Node/Faults      services/cache-node/src/fault/FaultInjector.ts
--   Node/Requests    services/cache-node/src/routes/cacheRoutes.ts and the policy route of internalRoutes.ts, behind
--                 middleware/killSwitch.ts and errorHandler.ts; Requests/Bodies, Replies,
--                 Pinning: the theorems
--   Gateway/Forward  forwardWithFailover of apps/gateway/src/routes/cacheRoutes.ts
--
-- How code becomes definitions. A class is a record of its fields, a method a function from the state to its
-- result and the new state. `nowMs()`, ids and sizes of values are arguments. Emitted events and messages to the
-- outside are lists of values. `throw` is the `err` of a result. A `Map` keeps its entries in insertion order.
-- Where the source has `Infinity` a limit is `none`. Strings are lists of code units. Integers are naturals; the
-- hashes wrap around at 2 ^ 32 as `>>> 0` and `Math.imul` do. A node's weight is counted in
-- hundredths, and a time to live in whole milliseconds, where the source takes any number.
--
-- Loops. `enforceCapacity` runs on as much fuel as its own guard allows, one round more than there are entries.
-- `successorIndex` runs on the length of the array, and each of its rounds makes the interval shorter. The walks
-- over the ring and over the LRU list are bounded in the source too.
--
-- Parameters. The eviction hook is any `EvictionHook`; the theorems that need it name what it must do
-- (`IsLawful`: a victim is a candidate; `IsTotal`: it finds one if there is one). The sizes of values, the
-- callbacks of the replication engine and of recovery, `decodeURIComponent`, and the requests to a node are
-- parameters.
--
-- Floating-point numbers are an interface, `Numbers`. Only the theorems on metrics use a law of it, that `<=` is
-- a total order on the numbers measured (`IsOrdered`). Rates, thresholds and averages are computed with it as
-- the source computes them. The number at the end of a key is taken to be exact, which it is up to 2 ^ 53. The
-- ranks of the percentiles, which the source rounds up from such numbers, are an argument. A worker thread and a timer are
-- the environment of the pool: what they do is a step. `takeSnapshot` is two steps, with the calls refused that
-- come between them (`begin_snapshot`); the theorems on it have nothing in between. JSON,
-- gzip and SHA-256 are a `Codec`; the round trip of a snapshot needs that they give back what they were given
-- (`IsFaithful`). A clock is taken not to run backwards within one call.
--
-- Not modelled: timers, HTTP, Kafka, files and logging; the file store of snapshots, benchmarks and the dashboard.
pub mod Base
pub mod Shared
pub mod Storage
pub mod Ring
pub mod Eviction
pub mod Replication
pub mod Gateway
pub mod Node
pub mod Workers
pub mod Snapshot
pub mod Metrics
