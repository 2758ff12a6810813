-- ===== src/Metrics/Summary.antt =====
-- The summary of a cluster.
use distributive_cache.Base.{
  ℕ, ◌+◌, ◌≡◌, refl, true, false, Bool, ◌==◌, select, List, [], ◌∷◌, length, arith, All, Bool-cases,
  inl, inr,
}
use distributive_cache.Shared.{
  NodeStatus, joining, healthy, suspect, dead, leaving, EvictionPolicyType, lru, lfu, tiny_lfu,
}
use distributive_cache.Shared.Numbers.{Numbers, max_of}
use distributive_cache.Metrics.{
  MetricsSnapshot, PolicyDistribution, StatusBreakdown, count_policy, count_status, Totals,
  add_snapshot, add_snapshots, no_totals, aggregate_cluster_metrics,
}
use distributive_cache.Metrics.Percentiles.{IsOrdered}

abbrev pub is_lru : EvictionPolicyType → Bool
is_lru lru = true
is_lru lfu = false
is_lru tiny_lfu = false

abbrev pub is_lfu : EvictionPolicyType → Bool
is_lfu lru = false
is_lfu lfu = true
is_lfu tiny_lfu = false

abbrev pub is_tiny_lfu : EvictionPolicyType → Bool
is_tiny_lfu lru = false
is_tiny_lfu lfu = false
is_tiny_lfu tiny_lfu = true

-- The place of a status in the declaration of `NodeStatus`.
abbrev pub status_index : NodeStatus → ℕ
status_index joining = 0
status_index healthy = 1
status_index suspect = 2
status_index dead = 3
status_index leaving = 4

module _ {F : Type 0} where
  -- The nodes under a policy that passes a test.
  unfoldable pub under_policy : (EvictionPolicyType → Bool) → List (MetricsSnapshot F) → ℕ
  under_policy test xs = length (select (λ x. test x.current_eviction_policy) xs)

  unfoldable pub with_status : NodeStatus → List (MetricsSnapshot F) → ℕ
  with_status status xs =
      length (select (λ x. status_index x.node_status == status_index status) xs)

  -- A distribution counts the nodes of each policy, over and above `d`.
  abbrev CountsPolicies :
      PolicyDistribution → PolicyDistribution → List (MetricsSnapshot F) → Type 0
  CountsPolicies d r xs =
      (r.lru_nodes ≡ d.lru_nodes + under_policy is_lru xs)
      × (r.lfu_nodes ≡ d.lfu_nodes + under_policy is_lfu xs)
      × (r.tiny_lfu_nodes ≡ d.tiny_lfu_nodes + under_policy is_tiny_lfu xs)

  abbrev CountsStatuses : StatusBreakdown → StatusBreakdown → List (MetricsSnapshot F) → Type 0
  CountsStatuses d r xs =
      (r.joining_nodes ≡ d.joining_nodes + with_status joining xs)
      × (r.healthy_nodes ≡ d.healthy_nodes + with_status healthy xs)
      × (r.suspect_nodes ≡ d.suspect_nodes + with_status suspect xs)
      × (r.dead_nodes ≡ d.dead_nodes + with_status dead xs)
      × (r.leaving_nodes ≡ d.leaving_nodes + with_status leaving xs)

  CountsPolicies-cons :
      (x : MetricsSnapshot F) (xs : List (MetricsSnapshot F)) (d r : PolicyDistribution)
      → CountsPolicies (count_policy x.current_eviction_policy d) r xs
      → CountsPolicies d r (x ∷ xs)
  unfolding count_policy under_policy select
  CountsPolicies-cons x xs d r h = ground arith

  CountsStatuses-cons :
      (x : MetricsSnapshot F) (xs : List (MetricsSnapshot F)) (d r : StatusBreakdown)
      → CountsStatuses (count_status x.node_status d) r xs
      → CountsStatuses d r (x ∷ xs)
  unfolding count_status with_status select
  CountsStatuses-cons x xs d r h = ground arith

module _ {F : Type 0} (n : Numbers F) where
  add_snapshots-counts :
      (xs : List (MetricsSnapshot F)) (t : Totals F)
      → let r = add_snapshots n xs t in
        CountsPolicies t.policy_distribution r.policy_distribution xs
        × CountsStatuses t.node_status_breakdown r.node_status_breakdown xs
  unfolding add_snapshots add_snapshot under_policy with_status select
  add_snapshots-counts [] t = ground arith
  add_snapshots-counts (x ∷ xs) t =
      let (a, b) = add_snapshots-counts xs (add_snapshot n x t) in
      (
        CountsPolicies-cons x xs t.policy_distribution _ a,
        CountsStatuses-cons x xs t.node_status_breakdown _ b,
      )

  module _ (ordered : IsOrdered n) where
    le-max_left : (a b : F) → n.le a (max_of n a b) ≡ true
    le-max_left a b = elim (Bool-cases (n.le a b)) [
      | inl e ↦ simp (e, max_of) refl
      | inr e ↦ simp (e, max_of) (ordered.reflexive a)
    ]

    le-max_right : (a b : F) → n.le b (max_of n a b) ≡ true
    le-max_right a b = elim (Bool-cases (n.le a b)) [
      | inl e ↦ simp (e, max_of) (ordered.reflexive b)
      | inr e ↦ simp (e, max_of) (ordered.total a b e)
    ]

    le-worst :
        (xs : List (MetricsSnapshot F)) (t : Totals F)
        → let worst = (add_snapshots n xs t).worst_p99 in
          (n.le t.worst_p99 worst ≡ true) × All (λ x. n.le x.latency.p99 worst ≡ true) xs
    unfolding add_snapshots add_snapshot
    le-worst [] t = (ordered.reflexive _, tt)
    le-worst (x ∷ xs) t =
        let (a, b) = le-worst xs (add_snapshot n x t) in
        (
          ordered.transitive _ _ _ (le-max_left t.worst_p99 x.latency.p99) a,
          (ordered.transitive _ _ _ (le-max_right t.worst_p99 x.latency.p99) a, b),
        )

    -- On ordered numbers, the summary of a cluster counts the nodes. For each policy its counter is the number of
    -- snapshots under that policy, for each status its counter is the number of snapshots with that status, and
    -- the healthy nodes are those whose snapshot is healthy. No node has a p99 latency above that of the cluster.
    pub aggregate_cluster_metrics-nodes :
        (now : ℕ) (xs : List (MetricsSnapshot F))
        → let r = aggregate_cluster_metrics n now xs in
          (r.policy_distribution ≡ record {
            lru_nodes = under_policy is_lru xs;
            lfu_nodes = under_policy is_lfu xs;
            tiny_lfu_nodes = under_policy is_tiny_lfu xs;
          })
          × (r.node_status_breakdown ≡ record {
            joining_nodes = with_status joining xs;
            healthy_nodes = with_status healthy xs;
            suspect_nodes = with_status suspect xs;
            dead_nodes = with_status dead xs;
            leaving_nodes = with_status leaving xs;
          })
          × (r.node_count ≡ length xs)
          × (r.healthy_node_count ≡ with_status healthy xs)
          × All (λ x. n.le x.latency.p99 r.cluster_p99_latency_ms ≡ true) xs
    unfolding aggregate_cluster_metrics
    aggregate_cluster_metrics-nodes now xs =
        let (a, b) = add_snapshots-counts xs (no_totals n) in
        (
          ground (arith, a),
          ground (arith, b),
          refl,
          omega (arith, b),
          (le-worst xs (no_totals n)).1,
        )
