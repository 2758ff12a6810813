-- ===== src/Ring.antt =====
-- packages/consistent-hash/src/ConsistentHashRing.ts: the ring of virtual nodes, its membership and its
-- lookups. A node's weight is in hundredths, so the rounded product is one of natural numbers.
pub mod Hash
pub mod Order
pub mod Search
pub mod Removal
pub mod Membership
pub mod Replicas
pub mod Rebalance
mod Tests
use distributive_cache.Base.{
  ℕ, zero, suc, ◌+◌, ◌-◌, ◌*◌, ◌/◌, ◌%◌, ◌≡◌, refl, max, Bool, true, false, ◌&&◌, Option, none,
  some, List, [], ◌∷◌, ◌++◌, map, ltb, leb, ◌==◌, if◌then◌else◌, ite, length, get_elem?, select,
  includes, text_keyed, Text, Text-discrete, not,
}
use distributive_cache.Base.Dict
use distributive_cache.Base.Dict.{Dict}
use distributive_cache.Shared.{
  CacheKey, NodeId, NodeInfo, NodeStatus, joining, healthy, suspect, dead, leaving, RingAssignment,
}
use distributive_cache.Shared.Errors.{codes}
use Hash.{ring_hash, decimal}

pub record RingPoint : Type 0 where
  pub hash : ℕ
  pub node_id : NodeId
  pub virtual_index : ℕ

pub record Ring : Type 0 where
  pub base_virtual_node_count : ℕ
  pub points : List RingPoint
  pub nodes : Dict NodeId NodeInfo

abbrev pub empty_ring : ℕ → Ring
empty_ring base = record { base_virtual_node_count = base; points = []; nodes = [] }

-- `points.sort((a, b) => a.hash - b.hash)`: stable, as the language demands.
unfoldable pub insert_point : RingPoint → List RingPoint → List RingPoint
insert_point p [] = p ∷ []
insert_point p (q ∷ qs) = if leb p.hash q.hash then p ∷ q ∷ qs else q ∷ insert_point p qs

unfoldable pub sort_points : List RingPoint → List RingPoint
unfolding insert_point
sort_points [] = []
sort_points (p ∷ ps) = insert_point p (sort_points ps)

-- `Math.max(1, Math.round(base * weight))`
unfoldable pub virtual_node_count_for : Ring → NodeInfo → ℕ
virtual_node_count_for r node = max 1 ((r.base_virtual_node_count * node.weight + 50) / 100)

-- The points of a node's virtual nodes `i`, `i + 1`, ..., `count` of them.
unfoldable pub virtual_points : NodeId → ℕ → ℕ → List RingPoint
virtual_points id i zero = []
virtual_points id i (suc count) =
    record { hash = ring_hash (id ++ (codes "#" ++ decimal i)); node_id = id; virtual_index = i }
    ∷ virtual_points id (i + 1) count

abbrev pub assignment : RingPoint → RingAssignment
assignment p = record { node_id = p.node_id; virtual_node_hash = p.hash }

-- `p.nodeId !== nodeId`
abbrev pub is_other : NodeId → RingPoint → Bool
is_other id p = ite (Text-discrete p.node_id id) false true

unfoldable pub remove_node : NodeId → Ring → Ring
remove_node id r = record r {
  points = select (is_other id) r.points;
  nodes = Dict.delete id r.nodes;
}

unfoldable pub add_node : NodeInfo → Ring → List RingAssignment × Ring
unfolding virtual_node_count_for
add_node node r =
    let r' = if Dict.has node.node_id r.nodes then remove_node node.node_id r else r in
    let added = virtual_points node.node_id 0 (virtual_node_count_for r' node) in
    (
      map assignment added,
      record r' {
        points = sort_points (r'.points ++ added);
        nodes = Dict.set node.node_id node r'.nodes;
      },
    )

unfoldable pub update_node_status : NodeId → NodeStatus → ℕ → Ring → Ring
update_node_status id status heartbeat r = elim (Dict.get id r.nodes) [
  | none ↦ r
  | some node ↦ record r {
    nodes = Dict.set id (record node { status = status; last_heartbeat = heartbeat }) r.nodes;
  }
]

unfoldable pub is_healthy : NodeInfo → Bool
is_healthy node = elim node.status [ healthy ↦ true | _ ↦ false ]

unfoldable pub healthy_physical_nodes : Ring → List NodeInfo
healthy_physical_nodes r = select is_healthy (Dict.values r.nodes)

-- The binary search of `successorIndex`: `none` is a read outside the array.
unfoldable pub search_from : List RingPoint → ℕ → ℕ → ℕ → ℕ → Option ℕ
search_from ps target zero lo hi = some lo
search_from ps target (suc fuel) lo hi = elim (ltb lo hi) [
  | false ↦ some lo
  | true ↦
      let mid = (lo + hi) / 2 in
      elim (get_elem? ps mid) [
        | none ↦ none
        | some p ↦ elim (ltb p.hash target) [
          | true ↦ search_from ps target fuel (mid + 1) hi
          | false ↦ search_from ps target fuel lo mid
        ]
      ]
]

unfoldable pub successor_index : List RingPoint → ℕ → Option ℕ
successor_index ps target =
    let hi = length ps - 1 in
    elim (get_elem? ps hi) [
      | none ↦ none
      | some p ↦ elim (ltb p.hash target) [
        | true ↦ some 0
        | false ↦ search_from ps target (length ps) 0 hi
      ]
    ]

-- `this.points[this.successorIndex(...)]`
unfoldable pub point_for : List RingPoint → ℕ → Option RingPoint
point_for ps target = elim (successor_index ps target) [ none ↦ none | some i ↦ get_elem? ps i ]

-- `getNode`: the answer is `none` for the source's `null`.
unfoldable pub get_node : Ring → CacheKey → Option NodeId
get_node r key = elim (point_for r.points (ring_hash key)) [ none ↦ none | some p ↦ some p.node_id ]

-- The walk of `getNodesForKey`, `guard` points long.
unfoldable pub walk : List RingPoint → ℕ → ℕ → ℕ → List NodeId → List NodeId
walk ps count zero i result = result
walk ps count (suc guard) i result = elim (ltb (length result) count) [
  | false ↦ result
  | true ↦ elim (get_elem? ps i) [
    | none ↦ result
    | some p ↦
        walk ps count guard ((i + 1) % length ps)
          (if includes p.node_id result then result else result ++ (p.node_id ∷ []))
  ]
]

unfoldable pub get_nodes_for_key : Ring → CacheKey → ℕ → List NodeId
get_nodes_for_key r key count = elim (successor_index r.points (ring_hash key)) [
  | none ↦ []
  | some i ↦ if count == 0 then [] else walk r.points count (length r.points) i []
]

unfoldable pub get_ring_snapshot : Ring → List RingAssignment
get_ring_snapshot r = map assignment r.points

abbrev pub add_all : List NodeInfo → Ring → Ring
add_all [] r = r
add_all (n ∷ ns) r = add_all ns (add_node n r).1

unfoldable pub clone : Ring → Ring
clone r = add_all (Dict.values r.nodes) (empty_ring r.base_virtual_node_count)
