-- ===== src/Ring/Removal.antt =====
-- Membership changes move as few keys as they must: `removeNode` moves the removed node's keys only, and
-- `addNode` moves keys only to the added node.
use mathlib.Core.Bool.{false≢true}
use mathlib.Core.List.{append-nil}
use distributive_cache.Base.{
  ℕ, zero, suc, ◌+◌, ◌≡◌, refl, ◌≢◌, Bool, true, false, none, some, List, [], ◌∷◌, ◌++◌, ◌⊎◌, arith,
  Bool-cases, Option-cases, inl, inr, select, All, ap, sym, ◌∙◌, if_pos, if_neg, text_keyed,
  Text-discrete,
}
use distributive_cache.Base.Dict
use distributive_cache.Base.Dict.{Dict}
use distributive_cache.Shared.{CacheKey, NodeId, NodeInfo}
use distributive_cache.Ring.Hash.{ring_hash}
use distributive_cache.Ring.Order.{
  IsSorted, sort-IsSorted, select-IsSorted, sort_sorted, select-sort,
}
use distributive_cache.Ring.Search.{first_from, clockwise, point_for-clockwise}
use distributive_cache.Ring.{
  RingPoint, Ring, sort_points, virtual_points, is_other, remove_node, add_node, get_node,
}

-- The points are in order, and they are those of the nodes that the ring knows.
pub record IsValid (r : Ring) : Type 0 where
  pub sorted : IsSorted r.points
  pub known : All (λ p. Dict.has p.node_id r.nodes ≡ true) r.points
  pub distinct : Dict.IsDistinct r.nodes

first_from-select :
    (t : ℕ) (id : NodeId) (ps : List RingPoint) (p : RingPoint)
    → first_from t ps ≡ some p
    → p.node_id ≢ id
    → first_from t (select (is_other id) ps) ≡ some p
unfolding first_from select
first_from-select t id [] p h n = cc
first_from-select t id (x ∷ ps) p h n = ground (arith, first_from-select t id ps p)

first_from-select-none :
    (t : ℕ) (f : RingPoint → Bool) (ps : List RingPoint)
    → first_from t ps ≡ none
    → first_from t (select f ps) ≡ none
unfolding first_from select
first_from-select-none t f [] h = refl
first_from-select-none t f (x ∷ ps) h = ground (arith, first_from-select-none t f ps)

abbrev IsOther : NodeId → RingPoint → Type 0
IsOther id p = p.node_id ≢ id

select-IsOther : (id : NodeId) (ps : List RingPoint) → All (IsOther id) (select (is_other id) ps)
unfolding select
select-IsOther id [] = tt
select-IsOther id (p ∷ ps) = elim (Text-discrete p.node_id id) [
  | yes e ↦ rw (if_pos (Text-discrete p.node_id id) e) (select-IsOther id ps)
  | no n ↦ rw (if_neg (Text-discrete p.node_id id) n) (n, select-IsOther id ps)
]

first_from-IsOther :
    (t : ℕ) (id : NodeId) (ps : List RingPoint) (p : RingPoint)
    → All (IsOther id) ps
    → first_from t ps ≡ some p
    → p.node_id ≢ id
unfolding first_from
first_from-IsOther t id [] p a h = absurd (cc)
first_from-IsOther t id (x ∷ ps) p a h =
    λ e. ground (arith, λ (g : first_from t ps ≡ some p). first_from-IsOther t id ps p a.1 g e)

clockwise-IsOther :
    (t : ℕ) (id : NodeId) (ps : List RingPoint) (p : RingPoint)
    → All (IsOther id) ps
    → clockwise t ps ≡ some p
    → p.node_id ≢ id
unfolding clockwise
clockwise-IsOther t id [] p a h = absurd (cc)
clockwise-IsOther t id (x ∷ ps) p a h = λ e.
    ground (arith, λ (g : first_from t (x ∷ ps) ≡ some p). first_from-IsOther t id (x ∷ ps) p a g e)

-- Dropping the points of another node leaves the next point clockwise where it was.
pub clockwise-select :
    (t : ℕ) (id : NodeId) (ps : List RingPoint) (p : RingPoint)
    → clockwise t ps ≡ some p
    → p.node_id ≢ id
    → clockwise t (select (is_other id) ps) ≡ some p
unfolding clockwise
clockwise-select t id [] p h n = cc
clockwise-select t id (x ∷ ps) p h n = elim (Option-cases (first_from t (x ∷ ps))) [
  | inl e ↦ rw (first_from-select-none t (is_other id) (x ∷ ps) e) (unfold select in ground arith)
  | inr (q, e) ↦
      let same : q ≡ p = ground arith in rw (first_from-select t id (x ∷ ps) p (e ∙ ap some same) n)
]

clockwise-none : (t : ℕ) (ps : List RingPoint) → clockwise t ps ≡ none → ps ≡ []
unfolding clockwise
clockwise-none t [] h = refl
clockwise-none t (p ∷ ps) h = ground (arith, Option-cases (first_from t (p ∷ ps)))

clockwise_no_points :
    (t : ℕ) (id : NodeId) (ps : List RingPoint)
    → ps ≡ []
    → clockwise t (select (is_other id) ps) ≡ none
unfolding clockwise select first_from
clockwise_no_points t id [] e = refl
clockwise_no_points t id (p ∷ ps) e = cc

get_node-point :
    (r : Ring) (key : CacheKey) (m : NodeId)
    → IsSorted r.points
    → get_node r key ≡ some m
    → (p : RingPoint) × (clockwise (ring_hash key) r.points ≡ some p) × (p.node_id ≡ m)
unfolding get_node
get_node-point r key m sorted h = elim (Option-cases (clockwise (ring_hash key) r.points)) [
  | inl e ↦ absurd (ground (arith, point_for-clockwise (ring_hash key) r.points sorted))
  | inr (p, e) ↦ (p, e, ground (arith, point_for-clockwise (ring_hash key) r.points sorted))
]

get_node_of_point :
    (r : Ring) (key : CacheKey) (p : RingPoint)
    → IsSorted r.points
    → clockwise (ring_hash key) r.points ≡ some p
    → get_node r key ≡ some p.node_id
unfolding get_node
get_node_of_point r key p sorted h =
    ground (arith, point_for-clockwise (ring_hash key) r.points sorted)

-- On a sorted ring, removing a node leaves the owner of every key that another node owns.
pub get_node-remove_node :
    (id m : NodeId) (r : Ring) (key : CacheKey)
    → IsSorted r.points
    → get_node r key ≡ some m
    → m ≢ id
    → get_node (remove_node id r) key ≡ some m
unfolding remove_node
get_node-remove_node id m r key sorted owned n =
    let (p, next, named) = get_node-point r key m sorted owned in
    get_node_of_point _ key p (select-IsSorted (is_other id) r.points sorted)
      (clockwise-select (ring_hash key) id r.points p next (λ e. n (sym named ∙ e)))
    ∙ ap some named

-- A ring in which a key has no owner has no points, before and after the removal of a node.
pub get_node-remove_node-none :
    (id : NodeId) (r : Ring) (key : CacheKey)
    → IsSorted r.points
    → get_node r key ≡ none
    → get_node (remove_node id r) key ≡ none
unfolding get_node remove_node
get_node-remove_node-none id r key sorted missing =
    let empty =
      clockwise-none (ring_hash key) r.points
        (ground (arith, point_for-clockwise (ring_hash key) r.points sorted)) in
    ground (
      arith,
      point_for-clockwise (ring_hash key) (select (is_other id) r.points)
          (select-IsSorted (is_other id) r.points sorted),
      clockwise_no_points (ring_hash key) id r.points empty,
    )

-- A removed node owns nothing.
pub get_node-remove_node_self :
    (id : NodeId) (r : Ring) (key : CacheKey)
    → IsSorted r.points
    → get_node (remove_node id r) key ≢ some id
unfolding remove_node
get_node-remove_node_self id r key sorted owned =
    let (p, next, named) =
      get_node-point (remove_node id r) key id (select-IsSorted (is_other id) r.points sorted)
        owned in
    clockwise-IsOther (ring_hash key) id _ p (select-IsOther id r.points) next named

select-append :
    (f : RingPoint → Bool) (ps qs : List RingPoint)
    → select f (ps ++ qs) ≡ select f ps ++ select f qs
unfolding select
select-append f [] qs = refl
select-append f (p ∷ ps) qs = ground (arith, select-append f ps qs)

select-virtual_points :
    (id : NodeId) (i count : ℕ) → select (is_other id) (virtual_points id i count) ≡ []
unfolding select virtual_points
select-virtual_points id i zero = refl
select-virtual_points id i (suc count) = ground (arith, select-virtual_points id (i + 1) count)

select_twice : (f : RingPoint → Bool) (ps : List RingPoint) → select f (select f ps) ≡ select f ps
unfolding select
select_twice f [] = refl
select_twice f (p ∷ ps) = ground (arith, select_twice f ps)

select_others :
    (id : NodeId) (m : Dict NodeId NodeInfo) (ps : List RingPoint)
    → Dict.has id m ≡ false
    → All (λ p. Dict.has p.node_id m ≡ true) ps
    → select (is_other id) ps ≡ ps
unfolding select
select_others id m [] h k = refl
select_others id m (p ∷ ps) h k = elim (Text-discrete p.node_id id) [
  | yes e ↦ absurd (false≢true (sym h ∙ ap (λ i. Dict.has i m) (sym e) ∙ k.0))
  | no n ↦ rw (if_neg (Text-discrete p.node_id id) n) (ap (◌∷◌ p) (select_others id m ps h k.1))
]

drop_added :
    (id : NodeId) (count : ℕ) (ps : List RingPoint)
    → IsSorted ps
    → select (is_other id) (sort_points (ps ++ virtual_points id 0 count)) ≡ select (is_other id) ps
drop_added id count ps sorted =
    select-sort (is_other id) (ps ++ virtual_points id 0 count)
    ∙ ap sort_points (
        select-append (is_other id) ps (virtual_points id 0 count)
        ∙ ap (◌++◌ (select (is_other id) ps)) (select-virtual_points id 0 count)
        ∙ append-nil (select (is_other id) ps))
    ∙ sort_sorted (select (is_other id) ps) (select-IsSorted (is_other id) ps sorted)

-- On a sorted ring, removing the node that was just added gives the points that removing it from the ring
-- before gives.
pub points-remove_add :
    (node : NodeInfo) (r : Ring)
    → IsSorted r.points
    → (remove_node node.node_id (add_node node r).1).points ≡ (remove_node node.node_id r).points
unfolding add_node remove_node
points-remove_add node r sorted = elim (Bool-cases (Dict.has node.node_id r.nodes)) [
  | inl e ↦
      rw (e, add_node)
        (drop_added node.node_id _ (select (is_other node.node_id) r.points)
            (select-IsSorted (is_other node.node_id) r.points sorted)
          ∙ select_twice (is_other node.node_id) r.points)
  | inr e ↦ rw (e, add_node) (drop_added node.node_id _ r.points sorted)
]

get_node-points :
    (q r : Ring) (key : CacheKey) → q.points ≡ r.points → get_node q key ≡ get_node r key
unfolding get_node
get_node-points q r key e = rw (e, get_node)

add_node-IsSorted : (node : NodeInfo) (r : Ring) → IsSorted (add_node node r).1.points
unfolding add_node
add_node-IsSorted node r = sort-IsSorted _

-- On a valid ring, adding a node that the ring does not know moves keys to that node only: the new owner of a
-- key is that node or the owner before.
pub get_node-add_node :
    (node : NodeInfo) (m : NodeId) (r : Ring) (key : CacheKey)
    → IsValid r
    → Dict.has node.node_id r.nodes ≡ false
    → get_node (add_node node r).1 key ≡ some m
    → (m ≡ node.node_id) ⊎ (get_node r key ≡ some m)
unfolding remove_node
get_node-add_node node m r key v new owned = elim (Text-discrete m node.node_id) [
  | yes e ↦ inl e
  | no n ↦ inr (
      get_node-points r (remove_node node.node_id (add_node node r).1) key (
        sym (select_others node.node_id r.nodes r.points new v.known)
        ∙ sym (points-remove_add node r v.sorted))
      ∙ get_node-remove_node node.node_id m (add_node node r).1 key (add_node-IsSorted node r) owned
          n)
]
