-- ===== src/Lib.antt =====
-- A model of metrics-governor, a proxy between OTLP and Prometheus remote-write senders and their
-- backends (repository github.com/szibis/metrics-governor), with the theorems that make it correct.
--
-- The program. Receivers hand batches of metrics to a buffer. The buffer detects the tenant of each
-- part, enforces quotas, rules and limits, splits batches by size and gives them to an exporter, which
-- shards them over endpoints with a hash ring. Each endpoint has a queue in memory, on disk, or both:
-- the spillover decides from the utilization which of them takes a batch. A circuit breaker in front
-- of the backend refuses requests while it fails, and failed batches wait in a failover queue.
--
-- The files and what they model.
--   Exporter/CircuitBreaker: CircuitBreaker of internal/exporter/queued.go; its methods one after the
--     other, and in Race the steps of AllowRequest as atomic operations of several goroutines.
--   Exporter/Scaler, Exporter/BatchTuner, Exporter/SpillRateLimiter: the adaptive parts of
--     internal/exporter (scaler.go, batchtuner.go, spill_rate_limiter.go). Exporter/Workers: the workers
--     of internal/exporter/queued.go that the scaler adds and removes.
--   Queue/BatchQueue: MemoryBatchQueue of internal/queue/batchqueue.go, and in Race its pushes as they
--     overlap; Queue/Spillover: SpilloverState of the same file; Queue/FastQueue: the layer in memory of FastQueue of
--     internal/queue/fastqueue.go; Queue/SendQueue: SendQueue of internal/queue/queue.go over it.
--   Prw/RetryQueue: Queue of internal/prw/queue.go, whose retry loop runs over the send queue and decodes
--     its entries with the codec.
--   Prw/Proto: the codec of internal/prw/proto.go on the messages of internal/prw/types.go. Wire has the
--     helpers on bytes, Loop the loop that every unmarshal method runs with its switch as a parameter and
--     the relation Runs of its rounds, Messages the methods, RoundTrip their proofs. Prw/Series: the
--     methods of types.go that the limits call; Prw/Limits: LimitsEnforcer of internal/prw/limits.go;
--     Prw/Splitter: internal/prw/shardkey.go and internal/prw/splitter.go, over the hash ring.
--   Buffer/MemoryQueue: MemoryQueue of internal/buffer/memqueue.go; Buffer/Split: splitByBytes of
--     internal/buffer/splitter.go.
--   Limits/RuleCache: ruleCache of internal/limits/rulecache.go, the cache of rules by name.
--     Limits/Tracker: the interface of cardinality trackers and ExactTracker of
--     internal/cardinality/exact.go, which fills it; Limits/Groups: updateAndCheckLimits and
--     handleAdaptive of internal/limits/enforcer.go over that interface.
--   Sharding/HashRing: HashRing of internal/sharding/hashring.go; Sharding/Text: strconv.Itoa and
--     sort.Strings; Sharding/ShardKey: internal/sharding/shardkey.go; Sharding/Splitter:
--     MetricsSplitter of internal/sharding/splitter.go, which asks the ring with these keys.
--   Tenant/Metrics: the parts of the messages of internal/otlpvt that the tenants read; Tenant/Detector:
--     Detector and InjectHeaderTenant of internal/tenant/tenant.go; Tenant/Quotas: the configuration,
--     the series keys and QuotaEnforcer of internal/tenant/quotas.go;
--     Tenant/Pipeline: the composition of both in internal/tenant/pipeline.go.
--   Prelude: tests on numbers, lists over the native numbers, Go maps as association lists.
--
-- How the code is read. A method is a function from a state and arguments to the new state and the
-- result, its branches in the order of the source. A method that holds the mutex from beginning to
-- end is one step; where the source runs without a lock (AllowRequest, a push that waits, and in
-- BatchQueue/Race the counters of a push) the operations are steps of their own and a run is a sequence
-- of them. BatchQueue itself lets a push run to its end before the next call. Times are natural numbers and
-- arguments. int and int64 counters are natural numbers below 2^63, except where wrapping is written
-- out; limits of 0 or less are 0. Errors are constructors of a result type.
--
-- Bounds and fuel. The push loop of the send queue answers none, and the drain of the retry queue
-- out_of_fuel, when their fuel is used up; one round more than there are entries is enough where they end. The
-- eviction loops of the failover queue and of the rule cache run on one more round than there are
-- entries: each round removes one, so the loop ends by its condition before the fuel does. The
-- splitter recurses to the depth 4 of the source. Decimal digits of n have the fuel n + 1, and
-- those of an int64 in a shard key 19. A varint has at most ten bytes; the loops of the unmarshal
-- methods have the number of bytes as fuel, of which each round takes one at least, and Decoded
-- keeps a result `stuck` apart for fuel that is used up. All other loops are structural.
--
-- Parameters. Compiled regular expressions, hashes (maphash), sizes of messages (SizeVT), float64
-- operations, the formatting of doubles and time.ParseDuration stand for code outside of the
-- repository or for generated code.
--
-- Not modelled: the files of the disk queue, the retry loop of the exporter, the matching of rules
-- and the other actions of the limits enforcer, sampling, relabelling, the sketches of cardinality
-- tracking and the buffers, which are to follow; receivers, transport, TLS, authentication,
-- discovery, configuration files, compression and telemetry, which are input and output or calls
-- of libraries; gauges and counters of prometheus.
pub mod Prelude
pub mod Exporter
pub mod Buffer
pub mod Limits
pub mod Sharding
pub mod Queue
pub mod Tenant
pub mod Prw
