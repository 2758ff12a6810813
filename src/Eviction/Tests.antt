-- ===== src/Eviction/Tests.antt =====
-- The theorems of the eviction policies at inputs that meet their conditions.
use distributive_cache.Base.{
  ℕ, ◌+◌, ◌-◌, ◌*◌, ◌/◌, ◌≤◌, ◌≡◌, refl, true, some, List, [], ◌∷◌, arith, text_keyed, All,
  includes, min, leb, ◌⊎◌,
}
use distributive_cache.Base.Dict
use distributive_cache.Base.{Text-discrete, ◌≢◌}
use distributive_cache.Shared.{CacheKey, lfu}
use distributive_cache.Shared.Errors.{codes}
use distributive_cache.Eviction.Lru.{
  touch, least_recently_used, push_front, link_head, set_next, set_prev, walk_back,
}
use distributive_cache.Eviction.Sketch.{Sketch, max_counter, estimate}
use distributive_cache.Eviction.TinyLfu.{TinyLfu, create_with, record_use}
use distributive_cache.Eviction.TinyLfu
use distributive_cache.Eviction.TinyLfu.Victim.{IsRarer, select_victim-IsRarer}
use distributive_cache.Storage.Rounds.{IsLawful}
use distributive_cache.Storage.{hit}
use distributive_cache.Shared.Numbers.{Numbers}
use distributive_cache.Eviction.Monitor.{new_monitor}
use distributive_cache.Eviction.Monitor.Counts.{Traffic, hits, misses, writes, IsCounted}
use distributive_cache.Eviction.Policy.{policy_type}
use distributive_cache.Eviction.Adaptive.{Adaptive, default_options, new_engine, evaluate}
use distributive_cache.Eviction.Adaptive.Switching.{IsDue, wanted, evaluate_cases}
use distributive_cache.Eviction.Adaptive.History.{
  Input, hears, evaluates, forces, run, IsRecorded, run-IsRecorded, new_engine-IsRecorded,
}
use distributive_cache.Eviction.Adaptive.Hook.{adaptive_hook, adaptive-IsLawful}
use distributive_cache.Eviction.Sketch.Cells.{IsSized}
use distributive_cache.Eviction.Sketch.Estimate.{increment_all, count, estimate-ge-count}

program : Unit {0}
unfolding touch push_front link_head set_next set_prev record_use walk_back least_recently_used
    includes Dict.get Dict.set Text-discrete
program = tt

abbrev key_a : CacheKey
key_a = codes "a"

abbrev key_b : CacheKey
key_b = codes "b"

abbrev sketch : Sketch
sketch = record {
  width = 4;
  depth = 2;
  aging_threshold = 50;
  table = 0 ∷ 0 ∷ 0 ∷ 0 ∷ 0 ∷ 0 ∷ 0 ∷ 0 ∷ [];
  additions_since_aging = 0;
}

sketch-IsSized : IsSized sketch
sketch-IsSized = record { cells = refl; wide = omega arith; deep = omega arith }

estimate-ge-count_example :
    min (estimate key_a sketch + count key_a (key_a ∷ key_b ∷ key_a ∷ [])) max_counter
    ≤ estimate key_a (increment_all (key_a ∷ key_b ∷ key_a ∷ []) sketch)
estimate-ge-count_example =
    estimate-ge-count (key_a ∷ key_b ∷ key_a ∷ []) key_a sketch sketch-IsSized (omega arith)

abbrev tiny : TinyLfu
tiny = record_use key_b (record_use key_a (create_with 2 sketch))

key_b_offered : least_recently_used (key_a ∷ key_b ∷ []) 2 tiny.recency ≢ []
unfolding program
key_b_offered e = cc

select_victim-IsRarer_example :
    (v : CacheKey) × (TinyLfu.select_victim (key_a ∷ key_b ∷ []) tiny ≡ some v)
    × (includes v (key_a ∷ key_b ∷ []) ≡ true)
    × All (IsRarer tiny.sketch v) (least_recently_used (key_a ∷ key_b ∷ []) 2 tiny.recency)
unfolding record_use
select_victim-IsRarer_example = select_victim-IsRarer (key_a ∷ key_b ∷ []) tiny key_b_offered

-- Numbers in hundredths, rounded down.
abbrev pub hundredths : Numbers ℕ
hundredths = record {
  of_nat = λ k. k * 100;
  plus = λ a b. a + b;
  minus = λ a b. a - b;
  times = λ a b. (a * b) / 100;
  divide = λ a b. (a * 100) / b;
  le = leb;
  to_fixed = λ a digits. codes "some";
}

monitor-IsCounted : IsCounted (new_monitor hundredths)
monitor-IsCounted = record { reads = omega arith; matched = omega arith; sampled = omega arith }

abbrev traffic : List Traffic
traffic = hits (codes "k1") ∷ misses (codes "k2") ∷ writes (codes "x") ∷ []

abbrev pub engine : Adaptive ℕ
engine = new_engine hundredths default_options

evaluate_cases_example :
    let s' = evaluate hundredths {V = ℕ} 90 20000 20001 [] engine in
    (IsDue hundredths 90 20000 engine
      × (policy_type s'.active ≡ wanted hundredths 90 engine)
      × (s'.last_switch_at ≡ 20001))
    ⊎ ((¬ IsDue hundredths 90 20000 engine)
        × (s'.active ≡ engine.active)
        × (s'.last_switch_at ≡ engine.last_switch_at)
        × (s'.switch_history ≡ engine.switch_history))
evaluate_cases_example = evaluate_cases hundredths 90 20000 20001 [] engine

abbrev inputs : List (Input ℕ ℕ)
inputs = hears (hit key_a) ∷ forces lfu (codes "order") 20 7 [] ∷ evaluates 90 20000 20001 [] ∷ []

run-IsRecorded_example : IsRecorded (run hundredths inputs engine)
run-IsRecorded_example =
    run-IsRecorded hundredths inputs engine (new_engine-IsRecorded hundredths default_options)

adaptive-IsLawful_example : IsLawful (adaptive_hook {F = ℕ})
adaptive-IsLawful_example = adaptive-IsLawful {F = ℕ}
