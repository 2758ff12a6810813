-- ===== src/Eviction/Lfu.antt =====
-- packages/eviction/src/LFU.ts: frequencies, buckets of keys by frequency, and the lowest frequency.
pub mod Victim
use distributive_cache.Base.{
  ℕ, zero, suc, ◌+◌, ◌≡◌, Bool, true, false, ◌&&◌, Option, none, some, List, [], ◌∷◌, max, min, ltb,
  leb, ◌==◌, if◌then◌else◌, length, includes, add_to_set, delete_from_set, text_keyed, number_keyed,
}
use distributive_cache.Base.Dict
use distributive_cache.Base.Dict.{Dict}
use distributive_cache.Shared.{CacheKey, CacheEntry}

pub record Lfu : Type 0 where
  pub frequency : Dict CacheKey ℕ
  pub buckets : Dict ℕ (List CacheKey)
  pub min_frequency : ℕ

-- A new policy; `reset` gives it too.
abbrev pub empty_lfu : Lfu
empty_lfu = record { frequency = []; buckets = []; min_frequency = 0 }

abbrev pub keys_of : Option (List CacheKey) → List CacheKey
keys_of none = []
keys_of (some keys) = keys

unfoldable pub add_to_bucket : ℕ → CacheKey → Lfu → Lfu
add_to_bucket freq key s = record s {
  buckets = Dict.set freq (add_to_set key (keys_of (Dict.get freq s.buckets))) s.buckets;
}

-- The loop of `lowestRemainingFrequency`; `none` is its `Infinity`.
unfoldable pub lowest_from : Option ℕ → List ℕ → Option ℕ
lowest_from least [] = least
lowest_from none (f ∷ fs) = lowest_from (some f) fs
lowest_from (some m) (f ∷ fs) = lowest_from (if ltb f m then some f else some m) fs

unfoldable pub lowest_remaining_frequency : Lfu → ℕ
unfolding lowest_from
lowest_remaining_frequency s = elim (lowest_from none (Dict.keys s.buckets)) [
  | none ↦ 0
  | some m ↦ m
]

unfoldable pub is_empty : List CacheKey → Bool
is_empty [] = true
is_empty (k ∷ ks) = false

-- Takes a key out of its bucket, and an emptied bucket out of the map. The flag tells that it did the
-- latter.
unfoldable pub take_from_bucket : ℕ → CacheKey → Lfu → Bool × Lfu
unfolding is_empty
take_from_bucket freq key s = elim (Dict.get freq s.buckets) [
  | none ↦ (false, s)
  | some keys ↦
      let keys' = delete_from_set key keys in
      if is_empty keys'
      then (true, record s { buckets = Dict.delete freq s.buckets })
      else (false, record s { buckets = Dict.set freq keys' s.buckets })
]

unfoldable pub initialize : CacheKey → Lfu → Lfu
initialize key s =
    let s' = add_to_bucket 1 key (record s { frequency = Dict.set key 1 s.frequency }) in
    record s' { min_frequency = 1 }

abbrev pub or_zero : Option ℕ → ℕ
or_zero none = 0
or_zero (some n) = n

-- `bump` before it adds the key to its new bucket.
unfoldable pub leave_bucket : CacheKey → ℕ → Lfu → Lfu
leave_bucket key old s =
    if ltb 0 old
    then (let r = take_from_bucket old key s in
        if r.0 && (r.1).min_frequency == old then record (r.1) { min_frequency = old + 1 } else r.1)
    else record s {
      min_frequency = min (if s.min_frequency == 0 then old + 1 else s.min_frequency) (old + 1);
    }

unfoldable pub bump : CacheKey → Lfu → Lfu
bump key s =
    let old = or_zero (Dict.get key s.frequency) in
    add_to_bucket (old + 1) key
      (leave_bucket key old (record s { frequency = Dict.set key (old + 1) s.frequency }))

unfoldable pub record_write : CacheKey → Lfu → Lfu
record_write key s = if Dict.has key s.frequency then bump key s else initialize key s

unfoldable pub record_removal : CacheKey → Lfu → Lfu
record_removal key s = elim (Dict.get key s.frequency) [
  | none ↦ s
  | some freq ↦
      let r = take_from_bucket freq key (record s { frequency = Dict.delete key s.frequency }) in
      if r.0 && (r.1).min_frequency == freq
      then record (r.1) { min_frequency = lowest_remaining_frequency (r.1) }
      else r.1
]

-- `for (const key of bucket) if (candidateSet.has(key)) return key;`
unfoldable pub first_candidate : List CacheKey → List CacheKey → Option CacheKey
first_candidate candidates [] = none
first_candidate candidates (k ∷ ks) =
    if includes k candidates then some k else first_candidate candidates ks

unfoldable pub insert_number : ℕ → List ℕ → List ℕ
insert_number n [] = n ∷ []
insert_number n (m ∷ ms) = if leb n m then n ∷ m ∷ ms else m ∷ insert_number n ms

-- `[...buckets.keys()].sort((a, b) => a - b)`
unfoldable pub sort_numbers : List ℕ → List ℕ
unfolding insert_number
sort_numbers [] = []
sort_numbers (n ∷ ns) = insert_number n (sort_numbers ns)

-- The fallback of `selectVictim`, over the frequencies in order.
unfoldable pub search_buckets : List CacheKey → Dict ℕ (List CacheKey) → List ℕ → Option CacheKey
search_buckets candidates buckets [] = none
search_buckets candidates buckets (f ∷ fs) =
    elim (first_candidate candidates (keys_of (Dict.get f buckets))) [
      | some k ↦ some k
      | none ↦ search_buckets candidates buckets fs
    ]

unfoldable pub select_victim : List CacheKey → Lfu → Option CacheKey
select_victim [] s = none
select_victim (c ∷ cs) s =
    elim (first_candidate (c ∷ cs) (keys_of (Dict.get s.min_frequency s.buckets))) [
      | some k ↦ some k
      | none ↦ elim (search_buckets (c ∷ cs) s.buckets (sort_numbers (Dict.keys s.buckets))) [
        | some k ↦ some k
        | none ↦ some c
      ]
    ]

unfoldable pub seed_from : {V : Type 0} → List (CacheEntry V) → Lfu → Lfu
seed_from [] s = s
seed_from (e ∷ es) s =
    let f = e.metadata.frequency in
    let freq = max 1 (if f == 0 then 1 else f) in
    seed_from es
      (add_to_bucket freq e.key (record s { frequency = Dict.set e.key freq s.frequency }))

-- `seed` begins with a `reset`.
unfoldable pub seed : {V : Type 0} → List (CacheEntry V) → Lfu
seed entries =
    let s = seed_from entries empty_lfu in record s { min_frequency = lowest_remaining_frequency s }

abbrev pub size : Lfu → ℕ
size s = length s.frequency
