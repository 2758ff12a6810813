-- ===== src/Eviction/Monitor/Counts.antt =====
-- The counts of the monitor between two computations of the signals.
use distributive_cache.Base.{
  ℕ, suc, ◌+◌, ◌≤◌, ◌≡◌, none, List, [], ◌∷◌, arith, length, text_keyed, Text-discrete, ite, ◌∙◌,
  Option-cases, inl, inr,
}
use distributive_cache.Base.Dict
use distributive_cache.Base.Dict.{Dict}
use distributive_cache.Shared.{CacheKey}
use distributive_cache.Eviction.Lfu.{or_zero}
use distributive_cache.Eviction.Monitor.{
  WorkloadMonitor, last_number, count_keys, update_sequential_detection, observe_key, record_hit,
  record_miss, record_write,
}

-- What the storage engine tells the monitor.
pub data Traffic : Type 0 where
  hits misses writes : CacheKey → Traffic

-- The reads are the hits and the misses, and no more pairs of keys follow each other than were looked at.
pub record IsCounted {F : Type 0} (m : WorkloadMonitor F) : Type 0 where
  pub reads : m.reads_in_window ≡ m.hits_in_window + m.misses_in_window
  pub matched : m.sequential_matches ≤ m.sequential_samples
  pub sampled : m.sequential_samples ≤ m.reads_in_window + m.writes_in_window

module _ {F : Type 0} where
  unfoldable pub observe : Traffic → WorkloadMonitor F → WorkloadMonitor F
  observe (hits k) m = record_hit k m
  observe (misses k) m = record_miss k m
  observe (writes k) m = record_write k m

  unfoldable pub observe_all : List Traffic → WorkloadMonitor F → WorkloadMonitor F
  observe_all [] m = m
  observe_all (t ∷ ts) m = observe_all ts (observe t m)

  observe-counts :
      (t : Traffic) (m : WorkloadMonitor F)
      → IsCounted m
      → IsCounted (observe t m)
        × ((observe t m).total_samples ≡ m.total_samples + 1)
        × ((observe t m).reads_in_window + (observe t m).writes_in_window
            ≡ m.reads_in_window + m.writes_in_window + 1)
  unfolding observe record_hit record_miss record_write observe_key update_sequential_detection
  observe-counts (hits k) m v = elim (Option-cases (last_number none none k)) [
    | inl e ↦ rw (e, update_sequential_detection) (ground arith)
    | inr (c, e) ↦ rw (e, update_sequential_detection) (ground arith)
  ]
  observe-counts (misses k) m v = elim (Option-cases (last_number none none k)) [
    | inl e ↦ rw (e, update_sequential_detection) (ground arith)
    | inr (c, e) ↦ rw (e, update_sequential_detection) (ground arith)
  ]
  observe-counts (writes k) m v = elim (Option-cases (last_number none none k)) [
    | inl e ↦ rw (e, update_sequential_detection) (ground arith)
    | inr (c, e) ↦ rw (e, update_sequential_detection) (ground arith)
  ]

  -- After any traffic the reads of the window are its hits and misses, the keys that follow their predecessor are
  -- no more than the keys with a number, which are no more than the operations of the window; and every
  -- operation was counted once in the window and once in all.
  pub observe_all-counts :
      (ts : List Traffic) (m : WorkloadMonitor F)
      → IsCounted m
      → let r = observe_all ts m in
        IsCounted r
        × (r.total_samples ≡ m.total_samples + length ts)
        × (r.reads_in_window + r.writes_in_window
            ≡ m.reads_in_window + m.writes_in_window + length ts)
  unfolding observe_all
  observe_all-counts [] m v = (v, omega arith, omega arith)
  observe_all-counts (t ∷ ts) m v =
      let (v', total, window) = observe-counts t m v in
      let (w, total', window') = observe_all-counts ts (observe t m) v' in
      (w, omega (arith, total, total'), omega (arith, window, window'))

-- How often a key occurs.
abbrev pub occurrences : CacheKey → List CacheKey → ℕ
occurrences k [] = 0
occurrences k (j ∷ js) = ite (Text-discrete j k) (suc (occurrences k js)) (occurrences k js)

get-count_from :
    (k : CacheKey) (ks : List CacheKey) (m : Dict CacheKey ℕ)
    → or_zero (Dict.get k (count_keys ks m)) ≡ or_zero (Dict.get k m) + occurrences k ks
unfolding count_keys
get-count_from k [] m = omega arith
get-count_from k (j ∷ js) m =
    let m' = Dict.set j (or_zero (Dict.get j m) + 1) m in
    get-count_from k js m' ∙ ground (arith, Dict.get-set j k (or_zero (Dict.get j m) + 1) m)

-- The map of frequencies holds how often each key occurs in the window.
pub get-count_keys :
    (k : CacheKey) (ks : List CacheKey) → or_zero (Dict.get k (count_keys ks [])) ≡ occurrences k ks
unfolding Dict.get
get-count_keys k ks = get-count_from k ks [] ∙ omega arith
