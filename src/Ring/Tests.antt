-- ===== src/Ring/Tests.antt =====
-- Runs of the ring on small inputs, and its theorems at inputs that meet their conditions.
use distributive_cache.Base.{
  ℕ, ◌≡◌, refl, ◌⊎◌, true, some, [], ◌∷◌, arith, length, text_keyed, includes, Text-discrete,
  ℕ_discrete, select,
}
use distributive_cache.Base.Dict
use distributive_cache.Shared.{NodeId, NodeInfo, healthy, dead, CacheKey}
use distributive_cache.Shared.Errors.{codes}
use distributive_cache.Ring.Hash.{ring_hash, decimal}
use distributive_cache.Ring.Search.{clockwise, get_node-clockwise, first_from}
use distributive_cache.Ring.Removal.{IsValid, get_node-remove_node, get_node-add_node}
use distributive_cache.Ring.Membership.{joins, leaves, reports, change_all, change_all-IsValid}
use distributive_cache.Ring.Replicas.{get_nodes_complete}
use distributive_cache.Ring.Rebalance.{
  moved_from, analyze_key_movement, moved_count-remove_node, owned_by, same_owner,
}
use distributive_cache.Ring.{
  RingPoint, Ring, insert_point, sort_points, virtual_node_count_for, virtual_points, remove_node,
  add_node, search_from, successor_index, point_for, get_node, walk, get_nodes_for_key,
}

program : Unit {0}
unfolding ring_hash decimal insert_point sort_points virtual_node_count_for virtual_points
    remove_node add_node search_from successor_index point_for get_node walk get_nodes_for_key
    Dict.get Dict.set Dict.delete Text-discrete ℕ_discrete includes select first_from clockwise
    same_owner moved_from analyze_key_movement
program = tt

abbrev id_a : NodeId
id_a = codes "a"

abbrev id_b : NodeId
id_b = codes "b"

abbrev id_c : NodeId
id_c = codes "c"

abbrev node : NodeId → NodeInfo
node id = record {
  node_id = id;
  host = codes "localhost";
  port = 4001;
  status = healthy;
  last_heartbeat = 0;
  weight = 100;
}

abbrev point : ℕ → NodeId → ℕ → RingPoint
point h id i = record { hash = h; node_id = id; virtual_index = i }

abbrev ring : Ring
ring = record {
  base_virtual_node_count = 2;
  points =
      point 1000000000 id_a 0
      ∷ point 2000000000 id_b 0
      ∷ point 3000000000 id_a 1
      ∷ point 4000000000 id_b 1
      ∷ [];
  nodes = (id_a, node id_a) ∷ (id_b, node id_b) ∷ [];
}

ring-IsValid : IsValid ring
unfolding program
ring-IsValid = record {
  sorted = omega arith;
  known = (refl, (refl, (refl, (refl, tt))));
  distinct = (refl, (refl, tt));
}

abbrev key : CacheKey
key = codes "user:1"

owner : get_node ring key ≡ some id_a
unfolding program
owner = refl

get_node-clockwise_example :
    (p : RingPoint) × (clockwise (ring_hash key) ring.points ≡ some p)
    × (get_node ring key ≡ some p.node_id)
get_node-clockwise_example = get_node-clockwise ring key ring-IsValid.sorted (λ e. cc)

get_node-remove_node_example : get_node (remove_node id_b ring) key ≡ some id_a
get_node-remove_node_example =
    get_node-remove_node id_b id_a ring key ring-IsValid.sorted owner (λ e. ground arith)

get_node-add_node_example : (id_b ≡ id_c) ⊎ (get_node ring (codes "user:5") ≡ some id_b)
unfolding program
get_node-add_node_example =
    get_node-add_node (node id_c) id_b ring (codes "user:5") ring-IsValid refl refl

change_all-IsValid_example :
    IsValid (change_all ring (joins (node id_c) ∷ reports id_a dead 7 ∷ leaves id_b ∷ []))
change_all-IsValid_example = change_all-IsValid ring _ ring-IsValid

get_nodes_complete_example : includes id_b (get_nodes_for_key ring key 3) ≡ true
unfolding program
get_nodes_complete_example =
    get_nodes_complete ring key 3 1 (point 2000000000 id_b 0) ring-IsValid.sorted (omega arith) refl

moved_count-remove_node_example :
    (analyze_key_movement ring (remove_node id_a ring) (key ∷ codes "x" ∷ [])).moved_count
    ≡ length (select (owned_by id_a ring) (key ∷ codes "x" ∷ []))
moved_count-remove_node_example =
    moved_count-remove_node id_a ring (key ∷ codes "x" ∷ []) ring-IsValid
