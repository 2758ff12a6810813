-- ===== src/Eviction/TinyLfu.antt =====
-- packages/eviction/src/TinyLFU.ts: the least frequent of a few least recently used keys, by the sketch.
pub mod Victim
use distributive_cache.Base.{
  ℕ, zero, suc, Option, none, some, List, [], ◌∷◌, ltb, if◌then◌else◌, min, max,
}
use distributive_cache.Shared.{CacheKey, CacheEntry}
use distributive_cache.Eviction.Lru
use distributive_cache.Eviction.Lru.{Lru, touch, least_recently_used}
use distributive_cache.Eviction.Sketch
use distributive_cache.Eviction.Sketch.{Sketch, increment, estimate}

abbrev pub default_bottom_k : ℕ
default_bottom_k = 5

pub record TinyLfu : Type 0 where
  pub recency : Lru
  pub sketch : Sketch
  pub bottom_k : ℕ

-- The constructor, with the sketch that it is given.
abbrev pub create_with : ℕ → Sketch → TinyLfu
create_with k sketch = record { recency = Lru.empty_lru; sketch = sketch; bottom_k = k }

-- `recordAccess` and `recordWrite`
unfoldable pub record_use : CacheKey → TinyLfu → TinyLfu
record_use key t = record t { recency = touch key t.recency; sketch = increment key t.sketch }

-- The sketch keeps what it counted.
unfoldable pub record_removal : CacheKey → TinyLfu → TinyLfu
record_removal key t = record t { recency = Lru.record_removal key t.recency }

-- The loop of `selectVictim` over the candidates that are left.
unfoldable pub least_frequent : Sketch → CacheKey → ℕ → List CacheKey → CacheKey
least_frequent s victim frequency [] = victim
least_frequent s victim frequency (k ∷ ks) =
    let f = estimate k s in
    least_frequent s (if ltb f frequency then k else victim)
      (if ltb f frequency then f else frequency) ks

unfoldable pub select_victim : List CacheKey → TinyLfu → Option CacheKey
select_victim candidates t = elim (least_recently_used candidates t.bottom_k t.recency) [
  | [] ↦ Lru.select_victim candidates t.recency
  | k ∷ ks ↦ some (least_frequent t.sketch k (estimate k t.sketch) ks)
]

unfoldable pub reset : TinyLfu → TinyLfu
reset t = record t { recency = Lru.empty_lru; sketch = Sketch.reset t.sketch }

unfoldable pub replay : CacheKey → ℕ → Sketch → Sketch
replay key zero s = s
replay key (suc n) s = replay key n (increment key s)

unfoldable pub replay_all : {V : Type 0} → List (CacheEntry V) → Sketch → Sketch
unfolding replay
replay_all [] s = s
replay_all (e ∷ es) s = replay_all es (replay e.key (min (max 1 e.metadata.frequency) 32) s)

unfoldable pub seed : {V : Type 0} → List (CacheEntry V) → TinyLfu → TinyLfu
unfolding replay_all
seed entries t = record t {
  recency = Lru.seed entries;
  sketch = replay_all entries (Sketch.reset t.sketch);
}

abbrev pub size : TinyLfu → ℕ
size t = Lru.size t.recency
