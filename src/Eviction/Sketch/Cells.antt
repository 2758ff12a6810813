-- ===== src/Eviction/Sketch/Cells.antt =====
-- The cells of the table: where they lie, and what an increment does to each.
use native.Mathlib.Nat.{mod-lt, le_trans}
use distributive_cache.Base.{
  ℕ, zero, suc, ◌+◌, ◌*◌, ◌≤◌, ◌<◌, ◌≡◌, refl, List, arith, length, length-set, get_or,
  get_or-set_self, get_or-set_ne, Text, min, ℕ_discrete, ◌∙◌,
}
use distributive_cache.Eviction.Sketch.{
  Sketch, max_counter, index_for, fnv1a_with_seed, bump_cell, bump_rows,
}

-- The table has all its cells.
pub record IsSized (s : Sketch) : Type 0 where
  pub cells : length s.table ≡ s.width * s.depth
  pub wide : 0 < s.width
  pub deep : 0 < s.depth

-- No index is out of range.
pub index_for-lt :
    (s : Sketch) (key : Text) (row : ℕ)
    → IsSized s
    → row < s.depth
    → index_for s key row < length s.table
unfolding index_for
index_for-lt s key row v h =
    let column = mod-lt (fnv1a_with_seed key row) v.wide in
    let rows : (row + 1) * s.width ≤ s.depth * s.width = grind arith in
    omega (arith, v.cells, column, rows)

pub cell_grows :
    (table : List ℕ) (i j : ℕ)
    → i < length table
    → get_or table j 0 ≤ get_or (bump_cell i table) j 0
unfolding bump_cell
cell_grows table i j h = elim (ℕ_discrete i j) [
  | yes e ↦ rw (← e) (ground (arith, get_or-set_self table i (get_or table i 0 + 1) 0 h))
  | no n ↦ ground (arith, get_or-set_ne table i j (get_or table i 0 + 1) 0 n)
]

pub cell_bumped :
    (table : List ℕ) (i : ℕ)
    → i < length table
    → min (get_or table i 0 + 1) max_counter ≤ get_or (bump_cell i table) i 0
unfolding bump_cell
cell_bumped table i h = ground (arith, get_or-set_self table i (get_or table i 0 + 1) 0 h)

pub length-bump_cell : (table : List ℕ) (i : ℕ) → length (bump_cell i table) ≡ length table
unfolding bump_cell
length-bump_cell table i = ground (arith, length-set table i (get_or table i 0 + 1))

module _ (s : Sketch) (v : IsSized s) (key : Text) where
  pub length-bump_rows :
      (row n : ℕ) (table : List ℕ) → length (bump_rows s key row n table) ≡ length table
  unfolding bump_rows
  length-bump_rows row zero table = refl
  length-bump_rows row (suc n) table =
      length-bump_rows (row + 1) n (bump_cell (index_for s key row) table)
      ∙ length-bump_cell table (index_for s key row)

  -- No cell shrinks.
  pub rows_grow :
      (row n j : ℕ) (table : List ℕ)
      → row + n ≤ s.depth
      → length table ≡ length s.table
      → get_or table j 0 ≤ get_or (bump_rows s key row n table) j 0
  unfolding bump_rows
  rows_grow row zero j table h e = omega arith
  rows_grow row (suc n) j table h e =
      let inside = index_for-lt s key row v (omega arith) in
      le_trans (cell_grows table (index_for s key row) j (omega arith)) (
        rows_grow (row + 1) n j (bump_cell (index_for s key row) table) (omega arith)
          (length-bump_cell table (index_for s key row) ∙ e))

  -- The key's cell in each row grows by one, up to the largest counter.
  pub rows_bumped :
      (row n r : ℕ) (table : List ℕ)
      → row + n ≤ s.depth
      → length table ≡ length s.table
      → row ≤ r
      → r < row + n
      → min (get_or table (index_for s key r) 0 + 1) max_counter
        ≤ get_or (bump_rows s key row n table) (index_for s key r) 0
  unfolding bump_rows
  rows_bumped row zero r table h e low high = absurd (omega arith)
  rows_bumped row (suc n) r table h e low high = elim (ℕ_discrete row r) [
    | yes p ↦ rw (← p) (
        le_trans (cell_bumped table (index_for s key row) (omega (arith, index_for-lt s key row v)))
          (rows_grow (row + 1) n (index_for s key row) (bump_cell (index_for s key row) table)
            (omega arith) (length-bump_cell table (index_for s key row) ∙ e)))
    | no q ↦
        let grown =
          cell_grows table (index_for s key row) (index_for s key r)
            (omega (arith, index_for-lt s key row v)) in
        let later =
          rows_bumped (row + 1) n r (bump_cell (index_for s key row) table) (omega arith)
            (length-bump_cell table (index_for s key row) ∙ e) (omega arith) (omega arith) in
        omega (arith, grown, later)
  ]
