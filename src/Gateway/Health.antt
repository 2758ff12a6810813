-- ===== src/Gateway/Health.antt =====
-- apps/gateway/src/discovery/NodeHealthTracker.ts: one poll of a node, and what its outcome does to the node's
-- miss count and status. The request itself is its outcome.
use distributive_cache.Base.{
  ℕ, zero, suc, ◌+◌, ◌≤◌, ◌<◌, ◌⊎◌, ◌≡◌, refl, Option, none, some, arith, leb, if◌then◌else◌,
  text_keyed, ap, ◌∙◌,
}
use distributive_cache.Base.Dict
use distributive_cache.Base.Dict.{Dict}
use distributive_cache.Shared.{
  NodeId, NodeInfo, NodeStatus, joining, healthy, suspect, dead, leaving,
}
use distributive_cache.Ring.{Ring, update_node_status}

pub record TrackerOptions : Type 0 where
  pub suspect_after_misses : ℕ
  pub dead_after_misses : ℕ

pub record Tracker : Type 0 where
  pub miss_counts : Dict NodeId ℕ
  pub ring : Ring

-- `getHealth` answers with the status that the node reports, or throws.
pub data Poll : Type 0 where
  answered : NodeStatus → Poll
  failed : Poll

unfoldable pub status_of_answer : NodeStatus → NodeStatus
status_of_answer dead = suspect
status_of_answer joining = healthy
status_of_answer healthy = healthy
status_of_answer suspect = healthy
status_of_answer leaving = healthy

abbrev pub misses_of : Option ℕ → ℕ
misses_of none = 0
misses_of (some n) = n

unfoldable pub status_of_misses : TrackerOptions → ℕ → NodeStatus → NodeStatus
status_of_misses o misses current =
    if leb o.dead_after_misses misses
    then dead
    else if leb o.suspect_after_misses misses
    then suspect
    else current

-- `pollOne`, for the `node` that was read when the cycle began.
unfoldable pub poll_one : TrackerOptions → ℕ → NodeInfo → Poll → Tracker → Tracker
poll_one o now node (answered reported) t = record t {
  miss_counts = Dict.set node.node_id 0 t.miss_counts;
  ring = update_node_status node.node_id (status_of_answer reported) now t.ring;
}
poll_one o now node failed t =
    let misses = misses_of (Dict.get node.node_id t.miss_counts) + 1 in
    record t {
      miss_counts = Dict.set node.node_id misses t.miss_counts;
      ring =
          update_node_status node.node_id (status_of_misses o misses node.status)
            node.last_heartbeat t.ring;
    }

-- Cycles in which every poll of the node fails.
unfoldable pub fail_times : TrackerOptions → ℕ → NodeId → ℕ → Tracker → Tracker
fail_times o now id zero t = t
fail_times o now id (suc n) t = elim (Dict.get id t.ring.nodes) [
  | none ↦ t
  | some node ↦ fail_times o now id n (poll_one o now node failed t)
]

get-update_status :
    (id : NodeId) (status : NodeStatus) (heartbeat : ℕ) (r : Ring) (node : NodeInfo)
    → Dict.get id r.nodes ≡ some node
    → Dict.get id (update_node_status id status heartbeat r).nodes
      ≡ some (record node { status = status; last_heartbeat = heartbeat })
unfolding update_node_status
get-update_status id status heartbeat r node h =
    rw (h, update_node_status) (Dict.get-set_self id _ r.nodes)

-- For a node of the ring, an answer clears the misses: the node is healthy at the time of the answer, or
-- suspect if it reports itself dead, whatever its status was before.
pub poll-answered :
    (o : TrackerOptions) (now : ℕ) (node : NodeInfo) (reported : NodeStatus) (t : Tracker)
    → Dict.get node.node_id t.ring.nodes ≡ some node
    → let t' = poll_one o now node (answered reported) t in
      (Dict.get node.node_id t'.miss_counts ≡ some 0)
      × (Dict.get node.node_id t'.ring.nodes
          ≡ some (record node { status = status_of_answer reported; last_heartbeat = now }))
unfolding poll_one
poll-answered o now node reported t h = (
  Dict.get-set_self node.node_id 0 t.miss_counts,
  get-update_status node.node_id (status_of_answer reported) now t.ring node h,
)

poll-failed :
    (o : TrackerOptions) (now : ℕ) (node : NodeInfo) (t : Tracker)
    → Dict.get node.node_id t.ring.nodes ≡ some node
    → let misses = misses_of (Dict.get node.node_id t.miss_counts) in
      let t' = poll_one o now node failed t in
      (misses_of (Dict.get node.node_id t'.miss_counts) ≡ misses + 1)
      × (Dict.get node.node_id t'.ring.nodes
          ≡ some (record node { status = status_of_misses o (misses + 1) node.status }))
unfolding poll_one
poll-failed o now node t h = (
  ap misses_of (Dict.get-set_self node.node_id _ t.miss_counts),
  get-update_status node.node_id _ node.last_heartbeat t.ring node h,
)

-- A later status does not depend on the earlier ones.
status_of_misses_twice :
    (o : TrackerOptions) (m k : ℕ) (current : NodeStatus)
    → o.suspect_after_misses ≤ o.dead_after_misses
    → m ≤ k
    → status_of_misses o k (status_of_misses o m current) ≡ status_of_misses o k current
unfolding status_of_misses
status_of_misses_twice o m k current le later = ground arith

fail_times_step :
    (o : TrackerOptions) (now n : ℕ) (node : NodeInfo) (t : Tracker)
    → Dict.get node.node_id t.ring.nodes ≡ some node
    → fail_times o now node.node_id (suc n) t
      ≡ fail_times o now node.node_id n (poll_one o now node failed t)
unfolding fail_times
fail_times_step o now n node t h = rw (h, fail_times) refl

fail_times_lem :
    (o : TrackerOptions) (now n : ℕ) (node : NodeInfo) (t : Tracker)
    → o.suspect_after_misses ≤ o.dead_after_misses
    → Dict.get node.node_id t.ring.nodes ≡ some node
    → let misses = misses_of (Dict.get node.node_id t.miss_counts) + suc n in
      let t' = fail_times o now node.node_id (suc n) t in
      (misses_of (Dict.get node.node_id t'.miss_counts) ≡ misses)
      × (Dict.get node.node_id t'.ring.nodes
          ≡ some (record node { status = status_of_misses o misses node.status }))
unfolding fail_times poll_one
fail_times_lem o now zero node t le h =
    rw (fail_times_step o now 0 node t h) (poll-failed o now node t h)
fail_times_lem o now (suc n) node t le h =
    let m = misses_of (Dict.get node.node_id t.miss_counts) in
    let (p, q) = poll-failed o now node t h in
    let node' = record node { status = status_of_misses o (m + 1) node.status } in
    let (c, d) = fail_times_lem o now n node' (poll_one o now node failed t) le q in
    let same : misses_of (Dict.get node.node_id (poll_one o now node failed t).miss_counts) + suc n
        ≡ m + suc (suc n) =
      omega (arith, p) in
    rw (fail_times_step o now (suc n) node t h) (
      c ∙ same,
      d
          ∙ ap (λ k. some (record node { status = status_of_misses o k node'.status })) same
          ∙ ap (λ s. some (record node { status = s }))
              (status_of_misses_twice o (m + 1) (m + suc (suc n)) node.status le (omega arith)),
    )

status_of_misses-cases :
    (o : TrackerOptions) (misses : ℕ) (current : NodeStatus)
    → o.suspect_after_misses ≤ o.dead_after_misses
    → let status = status_of_misses o misses current in
      ((misses < o.suspect_after_misses) × (status ≡ current))
      ⊎ ((o.suspect_after_misses ≤ misses) × (misses < o.dead_after_misses) × (status ≡ suspect))
      ⊎ ((o.dead_after_misses ≤ misses) × (status ≡ dead))
unfolding status_of_misses
status_of_misses-cases o misses current le = ground arith

-- For a node of the ring, and with the first threshold not above the second, polls that all fail leave the
-- node in the ring and raise its misses by one each. Its status is the one that it had before while the misses
-- are below the first threshold, suspect from there to below the second one, and dead from the second on.
-- Nothing else of the node changes.
pub fail_times-status :
    (o : TrackerOptions) (now n : ℕ) (node : NodeInfo) (t : Tracker)
    → o.suspect_after_misses ≤ o.dead_after_misses
    → Dict.get node.node_id t.ring.nodes ≡ some node
    → let misses = misses_of (Dict.get node.node_id t.miss_counts) + suc n in
      let t' = fail_times o now node.node_id (suc n) t in
      (status : NodeStatus) × (misses_of (Dict.get node.node_id t'.miss_counts) ≡ misses)
      × (Dict.get node.node_id t'.ring.nodes ≡ some (record node { status = status }))
      × (((misses < o.suspect_after_misses) × (status ≡ node.status))
          ⊎ ((o.suspect_after_misses ≤ misses)
              × (misses < o.dead_after_misses)
              × (status ≡ suspect))
          ⊎ ((o.dead_after_misses ≤ misses) × (status ≡ dead)))
fail_times-status o now n node t le h =
    let misses = misses_of (Dict.get node.node_id t.miss_counts) + suc n in
    let (c, d) = fail_times_lem o now n node t le h in
    (status_of_misses o misses node.status, c, d, status_of_misses-cases o misses node.status le)
