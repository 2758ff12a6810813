-- ===== src/Eviction/Monitor.antt =====
-- packages/eviction/src/WorkloadMonitor.ts: counts of the traffic since the last signals, a window of recent
-- keys, and the signals computed from them.
pub mod Counts
use distributive_cache.Base.{
  ℕ, zero, suc, ◌+◌, ◌-◌, ◌*◌, ltb, leb, ◌==◌, Bool, true, false, ◌&&◌, ◌||◌, Option, none, some,
  is_some, List, [], ◌∷◌, if◌then◌else◌, length, text_keyed, Text,
}
use distributive_cache.Base.Dict
use distributive_cache.Base.Dict.{Dict}
use distributive_cache.Shared.{CacheKey}
use distributive_cache.Shared.RingBuffer.{RingBuffer, empty_buffer, push, clear_buffer}
use distributive_cache.Shared.Numbers.{
  Numbers, Ema, new_average, averaged, update_average, average_of, reset_average, max_of, min_of,
}
use distributive_cache.Eviction.Lfu.{sort_numbers, or_zero}

pub record WorkloadSignals (F : Type 0) : Type 0 where
  pub hit_rate : F
  pub miss_rate : F
  pub memory_usage_ratio : F
  pub write_ratio : F
  pub read_ratio : F
  pub frequency_skew : F
  pub sequential_access_score : F
  pub working_set_size_ratio : F
  pub window_sample_count : ℕ

pub record WorkloadMonitor (F : Type 0) : Type 0 where
  pub recent_keys : RingBuffer CacheKey
  pub hit_rate_ema : Ema F
  pub write_ratio_ema : Ema F
  pub hits_in_window : ℕ
  pub misses_in_window : ℕ
  pub writes_in_window : ℕ
  pub reads_in_window : ℕ
  pub total_samples : ℕ
  pub last_numeric_suffix : Option ℕ
  pub sequential_matches : ℕ
  pub sequential_samples : ℕ

abbrev pub window_capacity : ℕ
window_capacity = 2000

abbrev pub is_digit : ℕ → Bool
is_digit c = leb 48 c && leb c 57

-- The characters that `.` does not match.
abbrev pub is_line_end : ℕ → Bool
is_line_end c = (c == 10 || c == 13) || (c == 8232 || c == 8233)

abbrev pub later : Option ℕ → Option ℕ → Option ℕ
later (some n) best = some n
later none best = best

-- `/(\d+)(?!.*\d)/`: the last run of digits of the first line that has one, as a number. `run` is the run that
-- is being read, `best` the last one before it on the line.
unfoldable pub last_number : Option ℕ → Option ℕ → Text → Option ℕ
last_number best run [] = later run best
last_number best run (c ∷ cs) = elim (is_digit c) [
  | true ↦ last_number best (some (10 * or_zero run + (c - 48))) cs
  | false ↦ elim (is_line_end c && is_some (later run best)) [
    | true ↦ later run best
    | false ↦ last_number (later run best) none cs
  ]
]

-- `Math.abs(current - last) === 1`
abbrev pub is_neighbour : ℕ → Option ℕ → Bool
is_neighbour current none = false
is_neighbour current (some before) = current == before + 1 || before == current + 1

unfoldable pub count_keys : List CacheKey → Dict CacheKey ℕ → Dict CacheKey ℕ
count_keys [] m = m
count_keys (k ∷ ks) m = count_keys ks (Dict.set k (or_zero (Dict.get k m) + 1) m)

unfoldable pub sum : List ℕ → ℕ
sum [] = 0
sum (x ∷ xs) = x + sum xs

-- `(i + 1) * sorted[i]`, summed from the index `i` on.
unfoldable pub weighted_from : ℕ → List ℕ → ℕ
weighted_from i [] = 0
weighted_from i (x ∷ xs) = (i + 1) * x + weighted_from (i + 1) xs

module _ {F : Type 0} (n : Numbers F) where
  unfoldable pub gini_coefficient : List ℕ → F
  unfolding sum weighted_from
  gini_coefficient values =
      let sorted = sort_numbers values in
      let size = length sorted in
      if size == 0 || sum sorted == 0
      then n.of_nat 0
      else (let gini =
            n.minus
              (n.divide (n.of_nat (2 * weighted_from 0 sorted)) (n.of_nat (size * sum sorted)))
              (n.divide (n.of_nat (size + 1)) (n.of_nat size)) in
          max_of n (n.of_nat 0) (min_of n (n.of_nat 1) gini))

  -- A new monitor; `EMA_ALPHA` is a quarter.
  abbrev pub new_monitor : WorkloadMonitor F
  new_monitor =
      let alpha = n.divide (n.of_nat 25) (n.of_nat 100) in
      record {
        recent_keys = empty_buffer window_capacity;
        hit_rate_ema = new_average alpha;
        write_ratio_ema = new_average alpha;
        hits_in_window = 0;
        misses_in_window = 0;
        writes_in_window = 0;
        reads_in_window = 0;
        total_samples = 0;
        last_numeric_suffix = none;
        sequential_matches = 0;
        sequential_samples = 0;
      }

  abbrev pub ratio_or : ℕ → ℕ → F → F
  ratio_or a b other = if ltb 0 b then n.divide (n.of_nat a) (n.of_nat b) else other

  unfoldable pub slide_window : WorkloadMonitor F → WorkloadMonitor F
  slide_window m = record m {
    hits_in_window = 0;
    misses_in_window = 0;
    writes_in_window = 0;
    reads_in_window = 0;
    sequential_matches = 0;
    sequential_samples = 0;
  }

  -- The signals, and the monitor after them.
  unfoldable pub compute_signals : F → WorkloadMonitor F → WorkloadSignals F × WorkloadMonitor F
  compute_signals memory_usage_ratio m =
      let reads = m.reads_in_window in
      let writes = m.writes_in_window in
      let window_hit_rate = ratio_or m.hits_in_window reads (average_of n m.hit_rate_ema) in
      let window_write_ratio = ratio_or writes (reads + writes) (average_of n m.write_ratio_ema) in
      let hit_rate = averaged n window_hit_rate m.hit_rate_ema in
      let write_ratio = averaged n window_write_ratio m.write_ratio_ema in
      let keys = m.recent_keys.buf in
      let frequency_by_key = count_keys keys [] in
      (
        record {
          hit_rate = hit_rate;
          miss_rate = n.minus (n.of_nat 1) hit_rate;
          memory_usage_ratio = memory_usage_ratio;
          write_ratio = write_ratio;
          read_ratio = n.minus (n.of_nat 1) write_ratio;
          frequency_skew = gini_coefficient (Dict.values frequency_by_key);
          sequential_access_score = ratio_or m.sequential_matches m.sequential_samples (n.of_nat 0);
          working_set_size_ratio = ratio_or (length frequency_by_key) (length keys) (n.of_nat 0);
          window_sample_count = m.total_samples;
        },
        slide_window (record m {
          hit_rate_ema = update_average n window_hit_rate m.hit_rate_ema;
          write_ratio_ema = update_average n window_write_ratio m.write_ratio_ema;
        }),
      )

module _ {F : Type 0} where
  unfoldable pub update_sequential_detection : CacheKey → WorkloadMonitor F → WorkloadMonitor F
  update_sequential_detection key m = elim (last_number none none key) [
    | none ↦ m
    | some current ↦ record m {
      sequential_samples = m.sequential_samples + 1;
      sequential_matches =
          if is_neighbour current m.last_numeric_suffix
          then m.sequential_matches + 1
          else m.sequential_matches;
      last_numeric_suffix = some current;
    }
  ]

  unfoldable pub observe_key : CacheKey → WorkloadMonitor F → WorkloadMonitor F
  observe_key key m =
      update_sequential_detection key (record m { recent_keys = push key m.recent_keys })

  unfoldable pub record_hit : CacheKey → WorkloadMonitor F → WorkloadMonitor F
  record_hit key m = observe_key key (record m {
    hits_in_window = m.hits_in_window + 1;
    reads_in_window = m.reads_in_window + 1;
    total_samples = m.total_samples + 1;
  })

  unfoldable pub record_miss : CacheKey → WorkloadMonitor F → WorkloadMonitor F
  record_miss key m = observe_key key (record m {
    misses_in_window = m.misses_in_window + 1;
    reads_in_window = m.reads_in_window + 1;
    total_samples = m.total_samples + 1;
  })

  unfoldable pub record_write : CacheKey → WorkloadMonitor F → WorkloadMonitor F
  record_write key m =
      observe_key key (record m {
        writes_in_window = m.writes_in_window + 1;
        total_samples = m.total_samples + 1;
      })

  unfoldable pub reset_monitor : WorkloadMonitor F → WorkloadMonitor F
  reset_monitor m = record m {
    recent_keys = clear_buffer m.recent_keys;
    hit_rate_ema = reset_average m.hit_rate_ema;
    write_ratio_ema = reset_average m.write_ratio_ema;
    hits_in_window = 0;
    misses_in_window = 0;
    writes_in_window = 0;
    reads_in_window = 0;
    total_samples = 0;
    last_numeric_suffix = none;
    sequential_matches = 0;
    sequential_samples = 0;
  }
