-- ===== src/Metrics.antt =====
-- packages/metrics/src: the latency window of LatencyHistogram.ts, the request rate of RateCounter.ts, the
-- collector of a node in MetricsCollector.ts and the summary of a cluster in ClusterMetricsAggregator.ts. Rates
-- and latencies are floating-point numbers, given as an interface.
pub mod Percentiles
pub mod Summary
mod Tests
use distributive_cache.Base.{
  ℕ, zero, suc, ◌+◌, ◌-◌, ◌*◌, min, leb, ltb, Bool, true, false, Option, none, some, List, [], ◌∷◌,
  if◌then◌else◌, length, get_or, Text,
}
use distributive_cache.Shared.{
  NodeId, NodeStatus, joining, healthy, suspect, dead, leaving, EvictionPolicyType, lru, lfu,
  tiny_lfu, StorageStats,
}
use distributive_cache.Shared.RingBuffer.{RingBuffer, empty_buffer, push, clear_buffer}
use distributive_cache.Shared.Numbers.{Numbers, max_of}

pub record LatencyPercentiles (F : Type 0) : Type 0 where
  pub p50 : F
  pub p95 : F
  pub p99 : F
  pub max_latency : F

pub record MetricsSnapshot (F : Type 0) : Type 0 where
  pub node_id : NodeId
  pub timestamp : ℕ
  pub hits : ℕ
  pub misses : ℕ
  pub hit_ratio : F
  pub evictions : ℕ
  pub entry_count : ℕ
  pub memory_usage_bytes : ℕ
  -- `none` is `Infinity`.
  pub memory_limit_bytes : Option ℕ
  pub requests_per_second : F
  pub latency : LatencyPercentiles F
  pub replication_queue_depth : ℕ
  pub last_snapshot_duration_ms : Option ℕ
  pub current_eviction_policy : EvictionPolicyType
  pub node_status : NodeStatus

pub record RateCounter : Type 0 where
  pub timestamps : RingBuffer ℕ
  pub window_ms : ℕ

pub record MetricsCollector (F : Type 0) : Type 0 where
  pub node_id : NodeId
  pub latency : RingBuffer F
  pub request_rate : RateCounter
  pub replication_queue_depth : ℕ
  pub last_snapshot_duration_ms : Option ℕ

-- The timestamps of the window.
unfoldable pub count_since : ℕ → List ℕ → ℕ
count_since cutoff [] = 0
count_since cutoff (t ∷ ts) =
    let rest = count_since cutoff ts in if leb cutoff t then rest + 1 else rest

abbrev pub capacity_or : ℕ → Option ℕ → ℕ
capacity_or other none = other
capacity_or other (some n) = n

module _ {F : Type 0} where
  unfoldable pub record_request : F → ℕ → MetricsCollector F → MetricsCollector F
  record_request latency_ms now s = record s {
    latency = push latency_ms s.latency;
    request_rate = record (s.request_rate) { timestamps = push now s.request_rate.timestamps };
  }

  unfoldable pub record_replication_queue_depth : ℕ → MetricsCollector F → MetricsCollector F
  record_replication_queue_depth depth s = record s { replication_queue_depth = depth }

  unfoldable pub record_snapshot_duration : ℕ → MetricsCollector F → MetricsCollector F
  record_snapshot_duration ms s = record s { last_snapshot_duration_ms = some ms }

  unfoldable pub reset_metrics : MetricsCollector F → MetricsCollector F
  reset_metrics s = record s {
    latency = clear_buffer s.latency;
    request_rate = record (s.request_rate) { timestamps = clear_buffer s.request_rate.timestamps };
    replication_queue_depth = 0;
    last_snapshot_duration_ms = none;
  }

  unfoldable pub new_collector : NodeId → Option ℕ → Option ℕ → MetricsCollector F
  new_collector id capacity window = record {
    node_id = id;
    latency = empty_buffer (capacity_or 5000 capacity);
    request_rate = record { timestamps = empty_buffer 20000; window_ms = capacity_or 1000 window };
    replication_queue_depth = 0;
    last_snapshot_duration_ms = none;
  }

module _ {F : Type 0} (n : Numbers F) where
  -- `sort((a, b) => a - b)`
  unfoldable pub insert_sample : F → List F → List F
  insert_sample x [] = x ∷ []
  insert_sample x (y ∷ ys) =
      let rest = insert_sample x ys in if n.le x y then x ∷ y ∷ ys else y ∷ rest

  unfoldable pub sort_samples : List F → List F
  sort_samples [] = []
  sort_samples (x ∷ xs) = insert_sample x (sort_samples xs)

  -- `rate`
  unfoldable pub rate : ℕ → RateCounter → F
  rate now r =
      n.divide (n.of_nat (count_since (now - r.window_ms) r.timestamps.buf))
        (n.divide (n.of_nat r.window_ms) (n.of_nat 1000))

  -- `percentile`, where `ranks` gives `Math.ceil(p * length)` for `p` in hundredths.
  unfoldable pub percentile : (ℕ → ℕ → ℕ) → ℕ → List F → F
  percentile ranks p sorted =
      get_or sorted (min (ranks p (length sorted) - 1) (length sorted - 1)) (n.of_nat 0)

  unfoldable pub percentiles_of : (ℕ → ℕ → ℕ) → List F → LatencyPercentiles F
  percentiles_of ranks [] = record {
    p50 = n.of_nat 0;
    p95 = n.of_nat 0;
    p99 = n.of_nat 0;
    max_latency = n.of_nat 0;
  }
  percentiles_of ranks (x ∷ xs) = record {
    p50 = percentile ranks 50 (x ∷ xs);
    p95 = percentile ranks 95 (x ∷ xs);
    p99 = percentile ranks 99 (x ∷ xs);
    max_latency = get_or (x ∷ xs) (length (x ∷ xs) - 1) (n.of_nat 0);
  }

  unfoldable pub percentiles : (ℕ → ℕ → ℕ) → RingBuffer F → LatencyPercentiles F
  percentiles ranks samples = percentiles_of ranks (sort_samples samples.buf)

  -- `getSnapshot`, with what the attached getters answer.
  unfoldable pub get_snapshot :
      (ℕ → ℕ → ℕ)
      → ℕ
      → StorageStats
      → Option ℕ
      → EvictionPolicyType
      → NodeStatus
      → MetricsCollector F
      → MetricsSnapshot F
  get_snapshot ranks now stats limit policy status s = record {
    node_id = s.node_id;
    timestamp = now;
    hits = stats.hits;
    misses = stats.misses;
    hit_ratio =
        if ltb 0 (stats.hits + stats.misses)
        then n.divide (n.of_nat stats.hits) (n.of_nat (stats.hits + stats.misses))
        else n.of_nat 0;
    evictions = stats.evictions;
    entry_count = stats.entry_count;
    memory_usage_bytes = stats.total_size_bytes;
    memory_limit_bytes = limit;
    requests_per_second = rate now s.request_rate;
    latency = percentiles ranks s.latency;
    replication_queue_depth = s.replication_queue_depth;
    last_snapshot_duration_ms = s.last_snapshot_duration_ms;
    current_eviction_policy = policy;
    node_status = status;
  }

-- `Record<EvictionPolicyType, number>` and `Record<NodeStatus, number>`
pub record PolicyDistribution : Type 0 where
  pub lru_nodes : ℕ
  pub lfu_nodes : ℕ
  pub tiny_lfu_nodes : ℕ

pub record StatusBreakdown : Type 0 where
  pub joining_nodes : ℕ
  pub healthy_nodes : ℕ
  pub suspect_nodes : ℕ
  pub dead_nodes : ℕ
  pub leaving_nodes : ℕ

unfoldable pub count_policy : EvictionPolicyType → PolicyDistribution → PolicyDistribution
count_policy lru d = record d { lru_nodes = d.lru_nodes + 1 }
count_policy lfu d = record d { lfu_nodes = d.lfu_nodes + 1 }
count_policy tiny_lfu d = record d { tiny_lfu_nodes = d.tiny_lfu_nodes + 1 }

unfoldable pub count_status : NodeStatus → StatusBreakdown → StatusBreakdown
count_status joining d = record d { joining_nodes = d.joining_nodes + 1 }
count_status healthy d = record d { healthy_nodes = d.healthy_nodes + 1 }
count_status suspect d = record d { suspect_nodes = d.suspect_nodes + 1 }
count_status dead d = record d { dead_nodes = d.dead_nodes + 1 }
count_status leaving d = record d { leaving_nodes = d.leaving_nodes + 1 }

-- The variables of the loop of `aggregateClusterMetrics`.
pub record Totals (F : Type 0) : Type 0 where
  pub total_hits : ℕ
  pub total_misses : ℕ
  pub total_rps : F
  pub total_entries : ℕ
  pub total_memory : ℕ
  pub total_memory_limit : ℕ
  pub total_evictions : ℕ
  pub worst_p99 : F
  pub policy_distribution : PolicyDistribution
  pub node_status_breakdown : StatusBreakdown

pub record ClusterMetricsSummary (F : Type 0) : Type 0 where
  pub timestamp : ℕ
  pub node_count : ℕ
  pub healthy_node_count : ℕ
  pub total_requests_per_second : F
  pub total_entry_count : ℕ
  pub total_memory_usage_bytes : ℕ
  pub total_memory_limit_bytes : ℕ
  pub overall_hit_ratio : F
  pub total_evictions : ℕ
  pub cluster_p99_latency_ms : F
  pub policy_distribution : PolicyDistribution
  pub node_status_breakdown : StatusBreakdown
  pub per_node : List (MetricsSnapshot F)

module _ {F : Type 0} (n : Numbers F) where
  abbrev pub no_totals : Totals F
  no_totals = record {
    total_hits = 0;
    total_misses = 0;
    total_rps = n.of_nat 0;
    total_entries = 0;
    total_memory = 0;
    total_memory_limit = 0;
    total_evictions = 0;
    worst_p99 = n.of_nat 0;
    policy_distribution = record { lru_nodes = 0; lfu_nodes = 0; tiny_lfu_nodes = 0 };
    node_status_breakdown = record {
      joining_nodes = 0;
      healthy_nodes = 0;
      suspect_nodes = 0;
      dead_nodes = 0;
      leaving_nodes = 0;
    };
  }

  -- The body of the loop.
  unfoldable pub add_snapshot : MetricsSnapshot F → Totals F → Totals F
  add_snapshot x t = record {
    total_hits = t.total_hits + x.hits;
    total_misses = t.total_misses + x.misses;
    total_rps = n.plus t.total_rps x.requests_per_second;
    total_entries = t.total_entries + x.entry_count;
    total_memory = t.total_memory + x.memory_usage_bytes;
    total_memory_limit = t.total_memory_limit + capacity_or 0 x.memory_limit_bytes;
    total_evictions = t.total_evictions + x.evictions;
    worst_p99 = max_of n t.worst_p99 x.latency.p99;
    policy_distribution = count_policy x.current_eviction_policy t.policy_distribution;
    node_status_breakdown = count_status x.node_status t.node_status_breakdown;
  }

  unfoldable pub add_snapshots : List (MetricsSnapshot F) → Totals F → Totals F
  add_snapshots [] t = t
  add_snapshots (x ∷ xs) t = add_snapshots xs (add_snapshot x t)

  unfoldable pub aggregate_cluster_metrics : ℕ → List (MetricsSnapshot F) → ClusterMetricsSummary F
  aggregate_cluster_metrics now xs =
      let t = add_snapshots xs no_totals in
      let total_reads = t.total_hits + t.total_misses in
      record {
        timestamp = now;
        node_count = length xs;
        healthy_node_count = t.node_status_breakdown.healthy_nodes;
        total_requests_per_second = t.total_rps;
        total_entry_count = t.total_entries;
        total_memory_usage_bytes = t.total_memory;
        total_memory_limit_bytes = t.total_memory_limit;
        overall_hit_ratio =
            if ltb 0 total_reads
            then n.divide (n.of_nat t.total_hits) (n.of_nat total_reads)
            else n.of_nat 0;
        total_evictions = t.total_evictions;
        cluster_p99_latency_ms = t.worst_p99;
        policy_distribution = t.policy_distribution;
        node_status_breakdown = t.node_status_breakdown;
        per_node = xs;
      }
