-- ===== src/Ring/Replicas.antt =====
-- `getNodesForKey`: the walk clockwise from a key's position that picks its replicas.
use native.Mathlib.Nat.{add-zero, mod-eq_of_lt, mod-lt, mod-add-mod, add-mod_right}
use distributive_cache.Base.{
  ℕ, zero, suc, ◌+◌, ◌-◌, ◌%◌, ◌≤◌, ◌<◌, ◌≡◌, refl, true, false, some, List, [], ◌∷◌, ◌++◌, arith,
  length, length-append, ltb, ◌==◌, if◌then◌else◌, get_elem?, get_elem?_lt, lt-length_of_get_elem?,
  includes, includes-append, includes-head, IsNodup, append_one-IsNodup, Bool-cases, Option-cases,
  inl, inr, text_keyed, ap, ◌∙◌,
}
use distributive_cache.Shared.{CacheKey, NodeId}
use distributive_cache.Ring.Hash.{ring_hash}
use distributive_cache.Ring.Order.{IsSorted}
use distributive_cache.Ring.Search.{successor_inside}
use distributive_cache.Ring.{
  RingPoint, Ring, walk, get_nodes_for_key, successor_index, point_for, get_node,
}

-- The result after one more candidate.
abbrev seen : RingPoint → List NodeId → List NodeId
seen p result = if includes p.node_id result then result else result ++ (p.node_id ∷ [])

seen-IsNodup : (p : RingPoint) (result : List NodeId) → IsNodup result → IsNodup (seen p result)
seen-IsNodup p result n = elim (Bool-cases (includes p.node_id result)) [
  | inl e ↦ rw e n
  | inr e ↦ rw e (append_one-IsNodup result p.node_id e n)
]

seen-includes : (p : RingPoint) (result : List NodeId) → includes p.node_id (seen p result) ≡ true
seen-includes p result =
    ground (arith, includes-append p.node_id result (p.node_id ∷ []), includes-head p.node_id [])

seen-keeps :
    (p : RingPoint) (m : NodeId) (result : List NodeId)
    → includes m result ≡ true
    → includes m (seen p result) ≡ true
seen-keeps p m result h = ground (arith, includes-append m result (p.node_id ∷ []))

length-seen-le : (p : RingPoint) (result : List NodeId) → length (seen p result) ≤ length result + 1
length-seen-le p result = ground (arith, length-append result (p.node_id ∷ []))

module _ (ps : List RingPoint) (count : ℕ) where
  walk-IsNodup :
      (guard i : ℕ) (result : List NodeId) → IsNodup result → IsNodup (walk ps count guard i result)
  unfolding walk
  walk-IsNodup zero i result n = n
  walk-IsNodup (suc guard) i result n = elim (Bool-cases (ltb (length result) count)) [
    | inr e ↦ rw (e, walk) n
    | inl e ↦ elim (Option-cases (get_elem? ps i)) [
      | inl g ↦ rw (e, g, walk) n
      | inr (p, g) ↦
          rw (e, g, walk)
            (walk-IsNodup guard ((i + 1) % length ps) (seen p result) (seen-IsNodup p result n))
    ]
  ]

  length-walk-le :
      (guard i : ℕ) (result : List NodeId)
      → length result ≤ count
      → length (walk ps count guard i result) ≤ count
  unfolding walk
  length-walk-le zero i result h = h
  length-walk-le (suc guard) i result h = elim (Bool-cases (ltb (length result) count)) [
    | inr e ↦ rw (e, walk) h
    | inl e ↦ elim (Option-cases (get_elem? ps i)) [
      | inl g ↦ rw (e, g, walk) h
      | inr (p, g) ↦
          rw (e, g, walk)
            (length-walk-le guard ((i + 1) % length ps) (seen p result)
              (ground (arith, length-seen-le p result)))
    ]
  ]

  walk-keeps :
      (guard i : ℕ) (m : NodeId) (result : List NodeId)
      → includes m result ≡ true
      → includes m (walk ps count guard i result) ≡ true
  unfolding walk
  walk-keeps zero i m result h = h
  walk-keeps (suc guard) i m result h = elim (Bool-cases (ltb (length result) count)) [
    | inr e ↦ rw (e, walk) h
    | inl e ↦ elim (Option-cases (get_elem? ps i)) [
      | inl g ↦ rw (e, g, walk) h
      | inr (p, g) ↦
          rw (e, g, walk)
            (walk-keeps guard ((i + 1) % length ps) m (seen p result) (seen-keeps p m result h))
    ]
  ]

  -- The walk only adds at the end.
  walk-extends :
      (guard i : ℕ) (m : NodeId) (result : List NodeId)
      → (rest : List NodeId) × (walk ps count guard i (m ∷ result) ≡ m ∷ rest)
  unfolding walk
  walk-extends zero i m result = (result, refl)
  walk-extends (suc guard) i m result = elim (Bool-cases (ltb (length (m ∷ result)) count)) [
    | inr e ↦ (result, rw (e, walk))
    | inl e ↦ elim (Option-cases (get_elem? ps i)) [
      | inl g ↦ (result, rw (e, g, walk))
      | inr (p, g) ↦ elim (Bool-cases (includes p.node_id (m ∷ result))) [
        | inl old ↦ rw (e, g, old, walk) (walk-extends guard ((i + 1) % length ps) m result)
        | inr new ↦
            rw (e, g, new, walk)
              (walk-extends guard ((i + 1) % length ps) m (result ++ (p.node_id ∷ [])))
      ]
    ]
  ]

  walk_visits :
      (guard i j : ℕ) (result : List NodeId) (p : RingPoint)
      → i < length ps
      → length (walk ps count guard i result) < count
      → j < guard
      → get_elem? ps ((i + j) % length ps) ≡ some p
      → includes p.node_id (walk ps count guard i result) ≡ true
  unfolding walk
  walk_visits zero i j result p inside short h at_j = absurd (omega arith)
  walk_visits (suc guard) i zero result p inside short h at_j =
      elim (Bool-cases (ltb (length result) count)) [
        | inr e ↦ absurd (ground arith)
        | inl e ↦
            let (q, g) = get_elem?_lt ps i inside in
            let here : get_elem? ps i ≡ some p = rw first_mod at at_j in
            rw (e, here, walk)
              (walk-keeps guard ((i + 1) % length ps) p.node_id (seen p result)
                (seen-includes p result))
      ]
    where
      first_mod : (i + 0) % length ps ≡ i
      first_mod = ap (λ (x : ℕ). x % length ps) (add-zero i) ∙ mod-eq_of_lt inside
  walk_visits (suc guard) i (suc j) result p inside short h at_j =
      elim (Bool-cases (ltb (length result) count)) [
        | inr e ↦ absurd (ground arith)
        | inl e ↦
            let (q, g) = get_elem?_lt ps i inside in
            let short' : length (walk ps count guard ((i + 1) % length ps) (seen q result))
                < count =
              (rw (e, g, walk) at short) in
            rw (e, g, walk)
              (walk_visits guard ((i + 1) % length ps) j (seen q result) p
                (mod-lt (i + 1) (omega arith)) short' (omega arith) (rw next_mod at_j))
      ]
    where
      next_mod : ((i + 1) % length ps + j) % length ps ≡ (i + suc j) % length ps
      next_mod = mod-add-mod (i + 1) (length ps) j ∙ ap (λ (x : ℕ). x % length ps) (omega arith)

-- How far the walk goes from `i` to reach the position `q`.
distance : ℕ → ℕ → ℕ → ℕ
distance n i q = if ltb q i then q + n - i else q - i

distance_lem : (n i q : ℕ) → i < n → q < n → (distance n i q < n) × ((i + distance n i q) % n ≡ q)
unfolding distance
distance_lem n i q h k = elim (Bool-cases (ltb q i)) [
  | inl e ↦
      let around : i + (q + n - i) ≡ q + n = ground arith in
      rw e (ground arith, ap (λ (x : ℕ). x % n) around ∙ add-mod_right q n ∙ mod-eq_of_lt k)
  | inr e ↦
      let straight : i + (q - i) ≡ q = ground arith in
      rw e (ground arith, ap (λ (x : ℕ). x % n) straight ∙ mod-eq_of_lt k)
]

get_nodes_cases :
    (P : List NodeId → Type 0) (r : Ring) (key : CacheKey) (count : ℕ)
    → P []
    → ((i : ℕ) → P (walk r.points count (length r.points) i []))
    → P (get_nodes_for_key r key count)
unfolding get_nodes_for_key
get_nodes_cases P r key count none_picked walked =
    elim (Option-cases (successor_index r.points (ring_hash key))) [
      | inl e ↦ rw (e, get_nodes_for_key) none_picked
      | inr (i, e) ↦ elim (Bool-cases (count == 0)) [
        | inl z ↦ rw (e, z, get_nodes_for_key) none_picked
        | inr z ↦ rw (e, z, get_nodes_for_key) (walked i)
      ]
    ]

-- The list of nodes for a key holds no node twice, and at most as many as asked for.
pub get_nodes-bounds :
    (r : Ring) (key : CacheKey) (count : ℕ)
    → let ids = get_nodes_for_key r key count in IsNodup ids × (length ids ≤ count)
get_nodes-bounds r key count =
    get_nodes_cases (λ ids. IsNodup ids × (length ids ≤ count)) r key count (tt, omega arith)
      λ i. (
        walk-IsNodup r.points count _ i [] tt,
        length-walk-le r.points count (length r.points) i [] (omega arith),
      )

walk-first :
    (ps : List RingPoint) (count i : ℕ) (p : RingPoint)
    → 0 < count
    → get_elem? ps i ≡ some p
    → (rest : List NodeId) × (walk ps count (length ps) i [] ≡ p.node_id ∷ rest)
unfolding walk includes
walk-first [] count i p pos g = absurd (cc)
walk-first (x ∷ qs) count i p pos g =
    let test : ltb 0 count ≡ true = ground arith in
    rw (test, g, walk)
      (walk-extends (x ∷ qs) count (length qs) ((i + 1) % length (x ∷ qs)) p.node_id [])

-- If at least one node is asked for and the key has an owner, the list begins with the owner.
pub get_nodes-first :
    (r : Ring) (key : CacheKey) (count : ℕ) (m : NodeId)
    → 0 < count
    → get_node r key ≡ some m
    → (rest : List NodeId) × (get_nodes_for_key r key count ≡ m ∷ rest)
unfolding get_nodes_for_key get_node point_for
get_nodes-first r key count m pos owned =
    elim (Option-cases (successor_index r.points (ring_hash key))) [
      | inl e ↦ absurd (ground arith)
      | inr (i, e) ↦ elim (Option-cases (get_elem? r.points i)) [
        | inl g ↦ absurd (ground arith)
        | inr (p, g) ↦
            let (rest, walked) = walk-first r.points count i p pos g in (rest, ground arith)
      ]
    ]

-- On a sorted ring, a list of nodes for a key that is shorter than asked for names the node of every point of
-- the ring.
pub get_nodes_complete :
    (r : Ring) (key : CacheKey) (count q : ℕ) (p : RingPoint)
    → IsSorted r.points
    → length (get_nodes_for_key r key count) < count
    → get_elem? r.points q ≡ some p
    → includes p.node_id (get_nodes_for_key r key count) ≡ true
unfolding get_nodes_for_key
get_nodes_complete r key count q p sorted short at_q =
    let ps = r.points in
    let q_inside = lt-length_of_get_elem? ps q p at_q in
    let (i, found, inside) = successor_inside (ring_hash key) ps sorted (omega arith) in
    let (near, reaches) = distance_lem (length ps) i q inside q_inside in
    let nonzero : (count == 0) ≡ false = ground arith in
    let short' : length (walk ps count (length ps) i []) < count =
      (rw (found, nonzero, get_nodes_for_key) at short) in
    rw (found, nonzero, get_nodes_for_key)
      (walk_visits ps count (length ps) i (distance (length ps) i q) [] p inside short' near
        (rw reaches at_q))
