-- ===== src/Metrics/Tests.antt =====
-- The theorems on metrics at inputs that meet their conditions.
use distributive_cache.Base.{
  ℕ, ◌+◌, ◌*◌, ◌/◌, ◌≡◌, true, none, some, List, [], ◌∷◌, arith, All, leb, select,
}
use distributive_cache.Shared.{lru, lfu, healthy, suspect}
use distributive_cache.Shared.Errors.{codes}
use distributive_cache.Shared.RingBuffer.{RingBuffer}
use distributive_cache.Storage.{zero_stats}
use distributive_cache.Metrics.{
  MetricsCollector, MetricsSnapshot, new_collector, record_request, get_snapshot,
  aggregate_cluster_metrics,
}
use distributive_cache.Metrics.Percentiles.{IsOrdered}
use distributive_cache.Metrics.Summary.{under_policy, with_status, aggregate_cluster_metrics-nodes}
use distributive_cache.Eviction.Tests.{hundredths}

hundredths-IsOrdered : IsOrdered hundredths
hundredths-IsOrdered = record {
  total = λ a b h. ground arith;
  transitive = λ a b c h k. ground arith;
  reflexive = λ a. ground arith;
}

-- The share of the samples, rounded up.
abbrev ranks : ℕ → ℕ → ℕ
ranks p length = (p * length + 99) / 100

abbrev samples : RingBuffer ℕ
samples = record { capacity = 5; buf = 30 ∷ 10 ∷ 20 ∷ []; cursor = 3 }

abbrev collector : MetricsCollector ℕ
collector = record_request 30 6 (new_collector (codes "n") none none)

abbrev snapshots : List (MetricsSnapshot ℕ)
snapshots =
    get_snapshot hundredths ranks 9 zero_stats none lru healthy collector
    ∷ get_snapshot hundredths ranks 9 zero_stats (some 7) lfu suspect collector
    ∷ []

aggregate_cluster_metrics-nodes_example :
    let r = aggregate_cluster_metrics hundredths 10 snapshots in
    (r.policy_distribution ≡ record { lru_nodes = 1; lfu_nodes = 1; tiny_lfu_nodes = 0 })
    × (r.node_status_breakdown ≡ record {
      joining_nodes = 0;
      healthy_nodes = 1;
      suspect_nodes = 1;
      dead_nodes = 0;
      leaving_nodes = 0;
    })
    × (r.node_count ≡ 2)
    × (r.healthy_node_count ≡ 1)
    × All (λ x. leb x.latency.p99 r.cluster_p99_latency_ms ≡ true) snapshots
unfolding under_policy with_status select get_snapshot
aggregate_cluster_metrics-nodes_example =
    aggregate_cluster_metrics-nodes hundredths hundredths-IsOrdered 10 snapshots
