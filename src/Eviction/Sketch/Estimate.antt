-- ===== src/Eviction/Sketch/Estimate.antt =====
-- What `estimate` answers: it never counts too few, and aging halves it.
use native.Mathlib.Nat.{le_trans}
use distributive_cache.Base.{
  ℕ, zero, suc, ◌+◌, ◌/◌, ◌≤◌, ◌<◌, ◌≡◌, refl, List, [], ◌∷◌, arith, ltb, if◌then◌else◌, length,
  length-map, get_or, Text, min, ite, Text-discrete, ℕ_discrete, if_pos, if_neg, subst,
}
use distributive_cache.Eviction.Sketch.{
  Sketch, max_counter, index_for, bump_rows, age, increment, least_cell, estimate,
}
use distributive_cache.Eviction.Sketch.Cells.{IsSized, length-bump_rows, rows_grow, rows_bumped}

abbrev cell : Sketch → Text → ℕ → ℕ
cell s key r = get_or s.table (index_for s key r) 0

-- The estimate is a lower bound of the key's cells, and the greatest one below the start value.
least_cell-ge :
    (s : Sketch) (key : Text) (row n least b : ℕ)
    → b ≤ least
    → ((r : ℕ) → row ≤ r → r < row + n → b ≤ cell s key r)
    → b ≤ least_cell s key row n least
unfolding least_cell
least_cell-ge s key row zero least b h all = h
least_cell-ge s key row (suc n) least b h all =
    least_cell-ge s key (row + 1) n _ b (ground (arith, all row (omega arith) (omega arith)))
      (λ r low high. all r (omega arith) (omega arith))

least_cell-le : (s : Sketch) (key : Text) (row n least : ℕ) → least_cell s key row n least ≤ least
unfolding least_cell
least_cell-le s key row zero least = omega arith
least_cell-le s key row (suc n) least =
    ground (
      arith,
      least_cell-le s key (row + 1) n least,
      least_cell-le s key (row + 1) n (cell s key row),
    )

least_cell-le_cell :
    (s : Sketch) (key : Text) (row n least r : ℕ)
    → row ≤ r
    → r < row + n
    → least_cell s key row n least ≤ cell s key r
unfolding least_cell
least_cell-le_cell s key row zero least r low high = absurd (omega arith)
least_cell-le_cell s key row (suc n) least r low high =
    let next = if ltb (cell s key row) least then cell s key row else least in
    let small : next ≤ cell s key row = ground arith in
    elim (ℕ_discrete row r) [
      | yes p ↦ rw (← p) (omega (arith, least_cell-le s key (row + 1) n next, small))
      | no q ↦ least_cell-le_cell s key (row + 1) n next r (omega arith) (omega arith)
    ]

estimate-le_cell : (s : Sketch) (key : Text) (r : ℕ) → r < s.depth → estimate key s ≤ cell s key r
unfolding estimate
estimate-le_cell s key r h =
    least_cell-le_cell s key 0 s.depth max_counter r (omega arith) (omega arith)

estimate-le : (s : Sketch) (key : Text) → estimate key s ≤ max_counter
unfolding estimate
estimate-le s key = least_cell-le s key 0 s.depth max_counter

increment_young :
    (s : Sketch) (key : Text)
    → s.additions_since_aging + 1 < s.aging_threshold
    → increment key s ≡ record s {
      table = bump_rows s key 0 s.depth s.table;
      additions_since_aging = s.additions_since_aging + 1;
    }
unfolding increment
increment_young s key young = ground arith

-- Between two agings an increment raises the key's estimate by one at least, up to the largest
-- counter.
pub estimate-increment :
    (s : Sketch) (key : Text)
    → IsSized s
    → s.additions_since_aging + 1 < s.aging_threshold
    → min (estimate key s + 1) max_counter ≤ estimate key (increment key s)
unfolding estimate index_for
estimate-increment s key v young = rw (increment_young s key young) (
    least_cell-ge _ key 0 s.depth max_counter _ (omega arith) (λ r low high. omega (
      arith,
      estimate-le_cell s key r (omega arith),
      rows_bumped s v key 0 s.depth r s.table (omega arith) refl (omega arith) (omega arith),
    )))

-- and lowers no other key's.
pub estimate-increment_other :
    (s : Sketch) (key other : Text)
    → IsSized s
    → s.additions_since_aging + 1 < s.aging_threshold
    → estimate other s ≤ estimate other (increment key s)
unfolding estimate index_for
estimate-increment_other s key other v young = rw (increment_young s key young) (
    least_cell-ge _ other 0 s.depth max_counter _ (estimate-le s other) (λ r low high.
      le_trans (estimate-le_cell s other r (omega arith))
        (rows_grow s v key 0 s.depth _ s.table (omega arith) refl)))

increment-IsSized : (s : Sketch) (key : Text) → IsSized s → IsSized (increment key s)
unfolding increment age
increment-IsSized s key v = ground (
  arith,
  length-bump_rows s v key 0 s.depth s.table,
  length-map (bump_rows s key 0 s.depth s.table) (λ (c : ℕ). c / 2),
)

pub increment_all : List Text → Sketch → Sketch
increment_all [] s = s
increment_all (k ∷ ks) s = increment_all ks (increment k s)

-- How often a key was added.
abbrev pub count : Text → List Text → ℕ
count key [] = 0
count key (k ∷ ks) = ite (Text-discrete k key) (suc (count key ks)) (count key ks)

-- The sketch never counts too few: on a well-sized sketch, after any additions that start no aging, a key's
-- estimate is at least what it was before plus how often the key was added, up to the largest counter.
pub estimate-ge-count :
    (ks : List Text) (key : Text) (s : Sketch)
    → IsSized s
    → s.additions_since_aging + length ks < s.aging_threshold
    → min (estimate key s + count key ks) max_counter ≤ estimate key (increment_all ks s)
unfolding increment_all
estimate-ge-count [] key s v young = omega arith
estimate-ge-count (k ∷ ks) key s v young =
    let ih =
      estimate-ge-count ks key (increment k s) (increment-IsSized s k v)
        (rw (increment_young s k (omega arith)) (omega arith)) in
    elim (Text-discrete k key) [
      | yes e ↦ rw (if_pos (Text-discrete k key) e) (
          omega (
            arith,
            ih,
            subst (λ j. min (estimate j s + 1) max_counter ≤ estimate j (increment k s)) e
                (estimate-increment s k v (omega arith)),
          ))
      | no n ↦
          rw (if_neg (Text-discrete k key) n)
            (omega (arith, ih, estimate-increment_other s k key v (omega arith)))
    ]
