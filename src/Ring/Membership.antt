-- ===== src/Ring/Membership.antt =====
-- The ring stays well formed as nodes join, leave and change their status.
use distributive_cache.Base.{
  ℕ, zero, suc, ◌+◌, ◌≡◌, true, List, [], ◌∷◌, ◌++◌, Bool-cases, Option-cases, inl, inr, select,
  All, All-map, All-append, ap, sym, ◌∙◌, text_keyed, Text-discrete, is_some, if_pos, if_neg,
}
use distributive_cache.Base.Dict
use distributive_cache.Base.Dict.{Dict}
use distributive_cache.Shared.{NodeId, NodeInfo, NodeStatus}
use distributive_cache.Ring.Order.{sort-IsSorted, select-IsSorted, All-sort}
use distributive_cache.Ring.Removal.{IsValid}
use distributive_cache.Ring.{
  RingPoint, Ring, virtual_points, is_other, remove_node, add_node, update_node_status, empty_ring,
  add_all, clone, sort_points,
}

-- The ring has that node.
abbrev Knows : Dict NodeId NodeInfo → RingPoint → Type 0
Knows m p = Dict.has p.node_id m ≡ true

has-set_of_has :
    (j id : NodeId) (node : NodeInfo) (m : Dict NodeId NodeInfo)
    → Dict.has j m ≡ true
    → Dict.has j (Dict.set id node m) ≡ true
has-set_of_has j id node m h = elim (Text-discrete id j) [
  | yes e ↦ ap is_some (Dict.get-set id j node m ∙ if_pos (Text-discrete id j) e _ _)
  | no n ↦ ap is_some (Dict.get-set_ne id j node m n) ∙ h
]

has-set_self :
    (id : NodeId) (node : NodeInfo) (m : Dict NodeId NodeInfo)
    → Dict.has id (Dict.set id node m) ≡ true
has-set_self id node m = ap is_some (Dict.get-set_self id node m)

virtual-Knows :
    (id : NodeId) (i count : ℕ) (node : NodeInfo) (m : Dict NodeId NodeInfo)
    → All (Knows (Dict.set id node m)) (virtual_points id i count)
unfolding virtual_points
virtual-Knows id i zero node m = tt
virtual-Knows id i (suc count) node m =
    (has-set_self id node m, virtual-Knows id (i + 1) count node m)

select-Knows :
    (id : NodeId) (m : Dict NodeId NodeInfo) (ps : List RingPoint)
    → All (Knows m) ps
    → All (Knows (Dict.delete id m)) (select (is_other id) ps)
unfolding select
select-Knows id m [] k = tt
select-Knows id m (p ∷ ps) k = elim (Text-discrete p.node_id id) [
  | yes e ↦ rw (if_pos (Text-discrete p.node_id id) e) (select-Knows id m ps k.1)
  | no n ↦ rw (if_neg (Text-discrete p.node_id id) n) (
    ap is_some (Dict.get-delete_ne id p.node_id m (λ e. n (sym e))) ∙ k.0,
    select-Knows id m ps k.1,
  )
]

pub remove_node-IsValid : (id : NodeId) (r : Ring) → IsValid r → IsValid (remove_node id r)
unfolding remove_node
remove_node-IsValid id r v = record {
  sorted = select-IsSorted (is_other id) r.points v.sorted;
  known = select-Knows id r.nodes r.points v.known;
  distinct = Dict.delete-IsDistinct id r.nodes v.distinct;
}

-- The points and nodes of a ring that a node's points are added to.
abbrev joined : NodeInfo → ℕ → Ring → Ring
joined node count r = record r {
  points = sort_points (r.points ++ virtual_points node.node_id 0 count);
  nodes = Dict.set node.node_id node r.nodes;
}

joined-IsValid :
    (node : NodeInfo) (count : ℕ) (r : Ring) → IsValid r → IsValid (joined node count r)
joined-IsValid node count r v = record {
  sorted = sort-IsSorted _;
  known = All-sort _ _ (
      All-append _ r.points _
        (All-map (Knows r.nodes) _ r.points
          (λ p h. has-set_of_has p.node_id node.node_id node r.nodes h) v.known)
        (virtual-Knows node.node_id 0 count node r.nodes));
  distinct = Dict.set-IsDistinct node.node_id node r.nodes v.distinct;
}

add_node-IsValid : (node : NodeInfo) (r : Ring) → IsValid r → IsValid (add_node node r).1
unfolding add_node
add_node-IsValid node r v = elim (Bool-cases (Dict.has node.node_id r.nodes)) [
  | inl e ↦ rw (e, add_node) (joined-IsValid node _ _ (remove_node-IsValid node.node_id r v))
  | inr e ↦ rw (e, add_node) (joined-IsValid node _ r v)
]

update_node_status-IsValid :
    (id : NodeId) (status : NodeStatus) (heartbeat : ℕ) (r : Ring)
    → IsValid r
    → IsValid (update_node_status id status heartbeat r)
unfolding update_node_status
update_node_status-IsValid id status heartbeat r v = elim (Option-cases (Dict.get id r.nodes)) [
  | inl e ↦ rw (e, update_node_status) v
  | inr (node, e) ↦
      rw (e, update_node_status)
        (record {
          sorted = v.sorted;
          known =
              All-map (Knows r.nodes) _ r.points (λ p h. has-set_of_has p.node_id id _ r.nodes h)
                v.known;
          distinct = Dict.set-IsDistinct id _ r.nodes v.distinct;
        })
]

-- A change of the membership, as the cluster makes them.
pub data Change : Type 0 where
  joins : NodeInfo → Change
  leaves : NodeId → Change
  reports : NodeId → NodeStatus → ℕ → Change

unfoldable pub change : Ring → Change → Ring
change r (joins node) = (add_node node r).1
change r (leaves id) = remove_node id r
change r (reports id status heartbeat) = update_node_status id status heartbeat r

unfoldable pub change_all : Ring → List Change → Ring
change_all r [] = r
change_all r (c ∷ cs) = change_all (change r c) cs

-- After any history of joins, leaves and status reports, from a valid ring, the points are in order and belong
-- to nodes that the ring knows, and each node is known once.
pub change_all-IsValid : (r : Ring) (cs : List Change) → IsValid r → IsValid (change_all r cs)
unfolding change_all change
change_all-IsValid r [] v = v
change_all-IsValid r (joins node ∷ cs) v =
    change_all-IsValid (add_node node r).1 cs (add_node-IsValid node r v)
change_all-IsValid r (leaves id ∷ cs) v =
    change_all-IsValid (remove_node id r) cs (remove_node-IsValid id r v)
change_all-IsValid r (reports id status heartbeat ∷ cs) v =
    change_all-IsValid (update_node_status id status heartbeat r) cs
      (update_node_status-IsValid id status heartbeat r v)

add_all-IsValid : (ns : List NodeInfo) (r : Ring) → IsValid r → IsValid (add_all ns r)
add_all-IsValid [] r v = v
add_all-IsValid (n ∷ ns) r v = add_all-IsValid ns (add_node n r).1 (add_node-IsValid n r v)

pub empty_ring-IsValid : (base : ℕ) → IsValid (empty_ring base)
empty_ring-IsValid base = record { sorted = tt; known = tt; distinct = tt }

-- A clone is well formed.
pub clone-IsValid : (r : Ring) → IsValid (clone r)
unfolding clone
clone-IsValid r =
    add_all-IsValid (Dict.values r.nodes) _ (empty_ring-IsValid r.base_virtual_node_count)
