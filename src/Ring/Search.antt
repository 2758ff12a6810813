-- ===== src/Ring/Search.antt =====
-- The binary search of `successorIndex`: it stays inside the array and finds the next point clockwise.
use native.Mathlib.Numerals.{sub-one}
use distributive_cache.Base.{
  ℕ, zero, suc, ◌+◌, ◌-◌, ◌/◌, ◌≤◌, ◌<◌, ◌≡◌, refl, ◌≢◌, Option, none, some, List, [], ◌∷◌, arith,
  length, get_elem?, get_elem?_lt, All-get_elem?, ltb, leb, if◌then◌else◌, Bool-cases, Option-cases,
  inl, inr,
}
use distributive_cache.Shared.{CacheKey}
use distributive_cache.Ring.Hash.{ring_hash}
use distributive_cache.Ring.Order.{IsSorted}
use distributive_cache.Ring.{RingPoint, Ring, search_from, successor_index, point_for, get_node}

-- The first point at or after a position.
unfoldable pub first_from : ℕ → List RingPoint → Option RingPoint
first_from t [] = none
first_from t (p ∷ ps) = if leb t p.hash then some p else first_from t ps

abbrev pub head? : List RingPoint → Option RingPoint
head? [] = none
head? (p ∷ ps) = some p

abbrev pub or_else : Option RingPoint → Option RingPoint → Option RingPoint
or_else none q = q
or_else (some p) q = some p

-- The next point clockwise: the first at or after the position, or else the first of the ring.
unfoldable pub clockwise : ℕ → List RingPoint → Option RingPoint
unfolding first_from
clockwise t ps = or_else (first_from t ps) (head? ps)

abbrev Before : List RingPoint → ℕ → ℕ → Type 0
Before ps t i = (j : ℕ) (p : RingPoint) → j < i → get_elem? ps j ≡ some p → p.hash < t

abbrev Reached : List RingPoint → ℕ → ℕ → Type 0
Reached ps t i = (p : RingPoint) → get_elem? ps i ≡ some p → t ≤ p.hash

sorted_le :
    (ps : List RingPoint) (i j : ℕ) (p q : RingPoint)
    → IsSorted ps
    → i ≤ j
    → get_elem? ps i ≡ some p
    → get_elem? ps j ≡ some q
    → p.hash ≤ q.hash
sorted_le [] i j p q s le a b = absurd (cc)
sorted_le (x ∷ ps) zero zero p q s le a b = ground arith
sorted_le (x ∷ ps) zero (suc j) p q s le a b =
    ground (arith, All-get_elem? (λ y. x.hash ≤ y.hash) ps j q s.0 b)
sorted_le (x ∷ ps) (suc i) zero p q s le a b = absurd (omega arith)
sorted_le (x ∷ ps) (suc i) (suc j) p q s le a b = sorted_le ps i j p q s.1 (omega arith) a b

first_from-found :
    (t : ℕ) (ps : List RingPoint) (i : ℕ) (p : RingPoint)
    → Before ps t i
    → get_elem? ps i ≡ some p
    → t ≤ p.hash
    → first_from t ps ≡ some p
unfolding first_from
first_from-found t [] i p b g r = absurd (cc)
first_from-found t (x ∷ ps) zero p b g r = ground arith
first_from-found t (x ∷ ps) (suc i) p b g r = ground (
  arith,
  b 0 x (omega arith) refl,
  first_from-found t ps i p (λ j q h. b (suc j) q (omega arith)) g r,
)

first_from-none : (t : ℕ) (ps : List RingPoint) → Before ps t (length ps) → first_from t ps ≡ none
unfolding first_from
first_from-none t [] b = refl
first_from-none t (x ∷ ps) b =
    ground
      (arith, b 0 x (omega arith) refl, first_from-none t ps (λ j q h. b (suc j) q (omega arith)))

module _ (ps : List RingPoint) (t : ℕ) (sorted : IsSorted ps) where
  search_finds :
      (fuel lo hi : ℕ)
      → lo ≤ hi
      → hi < length ps
      → hi ≤ lo + fuel
      → Before ps t lo
      → Reached ps t hi
      → (i : ℕ) × (search_from ps t fuel lo hi ≡ some i)
        × (i < length ps)
        × Before ps t i
        × Reached ps t i
  unfolding search_from
  search_finds zero lo hi le inside enough before reached =
      let e : hi ≡ lo = omega arith in
      (lo, refl, omega arith, before, λ p g. reached p (ground arith))
  search_finds (suc fuel) lo hi le inside enough before reached = elim (Bool-cases (ltb lo hi)) [
    | inr stop ↦
        let e : hi ≡ lo = ground arith in
        (lo, rw (stop, search_from), omega arith, before, λ p g. reached p (ground arith))
    | inl more ↦
        let mid = (lo + hi) / 2 in
        let below : lo < hi = ground arith in
        let (p, at_mid) = get_elem?_lt ps mid (omega arith) in
        elim (Bool-cases (ltb p.hash t)) [
          | inl less ↦
              rw (more, at_mid, less, search_from)
                (search_finds fuel (mid + 1) hi (omega arith) inside (omega arith)
                  (λ j q h g. ground (arith, sorted_le ps j mid q p sorted (omega arith) g at_mid))
                  reached)
          | inr more_or_same ↦
              rw (more, at_mid, more_or_same, search_from)
                (search_finds fuel lo mid (omega arith) (omega arith) (omega arith) before
                  (λ q g. ground arith))
        ]
  ]

  successor_wraps :
      (p : RingPoint) → get_elem? ps (length ps - 1) ≡ some p → p.hash < t → Before ps t (length ps)
  successor_wraps p last less j q h g =
      ground (arith, sorted_le ps j (length ps - 1) q p sorted (omega arith) g last)

-- On a sorted ring the binary search never reads outside the array, and what it finds is the next point
-- clockwise: the first at or after the position, or the first of the ring if there is none.
pub point_for-clockwise :
    (t : ℕ) (ps : List RingPoint) → IsSorted ps → point_for ps t ≡ clockwise t ps
unfolding point_for successor_index clockwise first_from
point_for-clockwise t [] sorted = refl
point_for-clockwise t (x ∷ qs) sorted =
    let ps = x ∷ qs in
    let (p, last) = get_elem?_lt ps (length qs) (omega arith) in
    let last' : get_elem? ps (length ps - 1) ≡ some p = rw sub-one last in
    elim (Bool-cases (ltb p.hash t)) [
      | inl wraps ↦
          let missing = first_from-none t ps (successor_wraps ps t sorted p last' (ground arith)) in
          ground (arith, missing, first_from)
      | inr inside ↦
          let (i, found, within, before, reached) =
            search_finds ps t sorted (length ps) 0 (length ps - 1) (omega arith) (omega arith)
              (omega arith) (λ j q h g. absurd (omega arith)) (λ q g. ground arith) in
          let (q, at_i) = get_elem?_lt ps i within in
          ground (arith, first_from-found t ps i q before at_i (reached q at_i))
    ]

-- On a sorted ring with points the search answers a position inside the array.
pub successor_inside :
    (t : ℕ) (ps : List RingPoint)
    → IsSorted ps
    → 0 < length ps
    → (i : ℕ) × (successor_index ps t ≡ some i) × (i < length ps)
unfolding successor_index
successor_inside t ps sorted pos =
    let (p, last) = get_elem?_lt ps (length ps - 1) (omega arith) in
    elim (Bool-cases (ltb p.hash t)) [
      | inl wraps ↦ (0, rw (last, wraps, successor_index), pos)
      | inr inside ↦
          let (i, found, within, _, _) =
            search_finds ps t sorted (length ps) 0 (length ps - 1) (omega arith) (omega arith)
              (omega arith) (λ j q h g. absurd (omega arith)) (λ q g. ground arith) in
          (i, rw (last, inside, successor_index) found, within)
    ]

clockwise_exists :
    (t : ℕ) (ps : List RingPoint) → ps ≢ [] → (p : RingPoint) × (clockwise t ps ≡ some p)
unfolding clockwise
clockwise_exists t [] h = absurd (h refl)
clockwise_exists t (x ∷ ps) h = elim (Option-cases (first_from t (x ∷ ps))) [
  | inl e ↦ (x, rw e)
  | inr (p, e) ↦ (p, rw e)
]

-- On a sorted ring that has a point every key has an owner: the node of the next point clockwise from the
-- key's hash.
pub get_node-clockwise :
    (r : Ring) (key : CacheKey)
    → IsSorted r.points
    → r.points ≢ []
    → (p : RingPoint) × (clockwise (ring_hash key) r.points ≡ some p)
      × (get_node r key ≡ some p.node_id)
unfolding get_node
get_node-clockwise r key sorted nonempty =
    let (p, next) = clockwise_exists (ring_hash key) r.points nonempty in
    (p, next, ground (arith, point_for-clockwise (ring_hash key) r.points sorted))
