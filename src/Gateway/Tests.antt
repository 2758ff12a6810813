-- ===== src/Gateway/Tests.antt =====
-- The theorems of the gateway at inputs that meet their conditions.
use distributive_cache.Base.{
  ℕ, ◌≡◌, ◌≤◌, ◌<◌, ◌⊎◌, refl, some, [], ◌∷◌, arith, text_keyed, Text-discrete, ℕ_discrete,
  includes, select,
}
use distributive_cache.Base.Dict
use distributive_cache.Shared.{NodeId, NodeInfo, NodeStatus, healthy, suspect, dead, CacheKey}
use distributive_cache.Shared.Errors.{codes, Result, ok, err, flow, node_unavailable}
use distributive_cache.Ring.{
  Ring, successor_index, search_from, walk, get_nodes_for_key, update_node_status,
}
use distributive_cache.Ring.Hash.{ring_hash}
use distributive_cache.Gateway.Health.{
  Tracker, TrackerOptions, poll_one, fail_times, fail_times-status, status_of_misses,
  status_of_answer, misses_of,
}
use distributive_cache.Gateway.Forward.{
  usable_nodes, try_nodes, forward_with_failover, forward-first, forward-exhausted,
}

program : Unit {0}
unfolding ring_hash search_from successor_index walk get_nodes_for_key update_node_status poll_one
    fail_times status_of_misses status_of_answer usable_nodes try_nodes forward_with_failover
    Dict.get Dict.set Text-discrete ℕ_discrete includes select
program = tt

abbrev id_a : NodeId
id_a = codes "a"

abbrev id_b : NodeId
id_b = codes "b"

abbrev info : NodeId → NodeInfo
info id = record {
  node_id = id;
  host = codes "localhost";
  port = 4001;
  status = healthy;
  last_heartbeat = 5;
  weight = 100;
}

abbrev ring : Ring
ring = record {
  base_virtual_node_count = 1;
  points =
      record { hash = 1000000000; node_id = id_a; virtual_index = 0 }
      ∷ record { hash = 4000000000; node_id = id_b; virtual_index = 0 }
      ∷ [];
  nodes = (id_a, info id_a) ∷ (id_b, info id_b) ∷ [];
}

abbrev tracker : Tracker
tracker = record { miss_counts = (id_a, 1) ∷ []; ring = ring }

abbrev thresholds : TrackerOptions
thresholds = record { suspect_after_misses = 2; dead_after_misses = 3 }

fail_times-status_example :
    let t' = fail_times thresholds 9 id_a 2 tracker in
    (status : NodeStatus) × (misses_of (Dict.get id_a t'.miss_counts) ≡ 3)
    × (Dict.get id_a t'.ring.nodes ≡ some (record (info id_a) { status = status }))
    × (((3 < 2) × (status ≡ healthy))
        ⊎ ((2 ≤ 3) × (3 < 3) × (status ≡ suspect))
        ⊎ ((3 ≤ 3) × (status ≡ dead)))
unfolding program
fail_times-status_example = fail_times-status thresholds 9 1 (info id_a) tracker (omega arith) refl

abbrev key : CacheKey
key = codes "user:1"

-- Only the node `a` is up.
abbrev a_up : NodeInfo → Result ℕ
a_up n = elim (Text-discrete n.node_id id_b) [
  | yes e ↦ err (flow (node_unavailable n.node_id))
  | no e ↦ ok 1
]

abbrev all_down : NodeInfo → Result ℕ
all_down n = err (flow (node_unavailable n.node_id))

order : usable_nodes ring (get_nodes_for_key ring key 2) ≡ info id_b ∷ info id_a ∷ []
unfolding program
order = refl

forward-first_example : forward_with_failover a_up ring 2 key ≡ (ok 1, info id_b ∷ info id_a ∷ [])
unfolding program
forward-first_example =
    forward-first a_up ring 2 key (info id_b ∷ []) (info id_a) [] order
      ((flow (node_unavailable id_b), refl, refl), tt) refl

forward-exhausted_example :
    forward_with_failover all_down ring 2 key
    ≡ (err (flow (node_unavailable id_a)), info id_b ∷ info id_a ∷ [])
unfolding program
forward-exhausted_example =
    forward-exhausted all_down ring 2 key
      ((flow (node_unavailable id_b), refl, refl), ((flow (node_unavailable id_a), refl, refl), tt))
