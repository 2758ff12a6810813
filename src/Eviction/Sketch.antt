-- ===== src/Eviction/Sketch.antt =====
-- packages/eviction/src/CountMinSketch.ts: a table of `depth` rows of `width` saturating counters, in one
-- array as the source has it.
pub mod Cells
pub mod Estimate
use distributive_cache.Base.{
  ℕ, zero, suc, ◌+◌, ◌*◌, ◌/◌, ◌%◌, Bool, true, false, ◌||◌, List, [], ◌∷◌, map, ltb, leb, ◌==◌,
  if◌then◌else◌, length, get_or, set, replicate, Text, bit_xor, imul, to_uint32,
}
use distributive_cache.Shared.Errors.{Result, ok, err, other, codes}

abbrev pub default_width : ℕ
default_width = 2048

abbrev pub default_depth : ℕ
default_depth = 4

abbrev pub max_counter : ℕ
max_counter = 65535

abbrev pub default_aging_threshold : ℕ
default_aging_threshold = 50000

pub record Sketch : Type 0 where
  pub width : ℕ
  pub depth : ℕ
  pub aging_threshold : ℕ
  pub table : List ℕ
  pub additions_since_aging : ℕ

-- The constructor; a `RangeError` is an ordinary thrown value.
unfoldable pub create : ℕ → ℕ → ℕ → Result Sketch
create width depth threshold =
    if leb width 0 || leb depth 0
    then err (other (codes "CountMinSketch width and depth must be positive"))
    else ok (record {
      width = width;
      depth = depth;
      aging_threshold = threshold;
      table = replicate (width * depth) 0;
      additions_since_aging = 0;
    })

unfoldable pub fnv1a_from : ℕ → Text → ℕ
fnv1a_from hash [] = hash
fnv1a_from hash (c ∷ cs) = fnv1a_from (imul (bit_xor hash c) 0x01000193) cs

unfoldable pub fnv1a_with_seed : Text → ℕ → ℕ
unfolding fnv1a_from
fnv1a_with_seed key seed = to_uint32 (fnv1a_from (bit_xor 0x811c9dc5 seed) key)

unfoldable pub index_for : Sketch → Text → ℕ → ℕ
index_for s key row = row * s.width + fnv1a_with_seed key row % s.width

unfoldable pub bump_cell : ℕ → List ℕ → List ℕ
bump_cell i table =
    if ltb (get_or table i 0) max_counter then set table i (get_or table i 0 + 1) else table

-- The loop of `increment` over the rows `row`, `row + 1`, ...
unfoldable pub bump_rows : Sketch → Text → ℕ → ℕ → List ℕ → List ℕ
unfolding bump_cell
bump_rows s key row zero table = table
bump_rows s key row (suc n) table =
    bump_rows s key (row + 1) n (bump_cell (index_for s key row) table)

unfoldable pub age : Sketch → Sketch
age s = record s { table = map (λ c. c / 2) s.table; additions_since_aging = 0 }

unfoldable pub increment : Text → Sketch → Sketch
increment key s =
    let s' = record s {
      table = bump_rows s key 0 s.depth s.table;
      additions_since_aging = s.additions_since_aging + 1;
    } in
    if leb s.aging_threshold (s.additions_since_aging + 1) then age s' else s'

-- The loop of `estimate`.
unfoldable pub least_cell : Sketch → Text → ℕ → ℕ → ℕ → ℕ
least_cell s key row zero least = least
least_cell s key row (suc n) least =
    let value = get_or s.table (index_for s key row) 0 in
    least_cell s key (row + 1) n (if ltb value least then value else least)

unfoldable pub estimate : Text → Sketch → ℕ
estimate key s = least_cell s key 0 s.depth max_counter

unfoldable pub reset : Sketch → Sketch
reset s = record s { table = map (λ c. 0) s.table; additions_since_aging = 0 }
