-- ===== src/Storage/Tests.antt =====
-- Runs of the store on small inputs, and its theorems at inputs that meet their conditions.
use distributive_cache.Base.{
  ℕ, ◌+◌, ◌≤◌, ◌<◌, ◌≡◌, refl, ◌≢◌, ◌⊎◌, true, Option, none, some, List, [], ◌∷◌, arith, length,
  text_keyed, includes, is_some, Text-discrete, ℕ_discrete, select,
}
use distributive_cache.Base.Dict
use distributive_cache.Base.Dict.{Dict}
use distributive_cache.Shared.{CacheKey, CacheEntry}
use distributive_cache.Shared.Errors.{ok, err, flow, validation, codes}
use distributive_cache.Storage.{
  StorageOptions, SetOptions, Storage, fifo_hook, fifo_victim, initial, is_expired, expiry,
  written_metadata, count_removal, removal_event,
}
use distributive_cache.Storage.Engine.{
  over_limit, candidates, remove_internal, evict_victim, enforce_from, enforce_capacity,
  record_miss, record_hit, get, sweep_from, sweep_expired, write, set,
}
use distributive_cache.Storage.Removal.{IsValid}
use distributive_cache.Storage.Invariant.{sets, gets, deletes, sweeps, step, run, run-IsValid}
use distributive_cache.Storage.Rounds.{IsLawful, IsTotal, enforce_terminates}
use distributive_cache.Storage.Written.{
  ExpiresAs, set_reads_back, set_within_limit, set_stays_over, IsSized,
}

program : Unit {0}
unfolding fifo_victim is_expired expiry written_metadata count_removal removal_event over_limit
    candidates remove_internal evict_victim enforce_from enforce_capacity record_miss record_hit get
    sweep_from sweep_expired write set step run Dict.get Dict.set Dict.delete Text-discrete
    ℕ_discrete includes select
program = tt

fifo-IsLawful : IsLawful fifo_hook
unfolding program
fifo-IsLawful = record { chosen = first }
  where
    first :
        (ks : List CacheKey) (h : Unit {0}) (v : CacheKey)
        → fifo_victim ks ≡ some v
        → includes v ks ≡ true
    first [] h v e = cc
    first (k ∷ ks) h v e = ground arith

fifo-IsTotal : IsTotal fifo_hook
unfolding program
fifo-IsTotal = record { finds = first }
  where
    first : (ks : List CacheKey) (h : Unit {0}) → ks ≢ [] → is_some (fifo_victim ks) ≡ true
    first [] h e = absurd (e refl)
    first (k ∷ ks) h e = refl

abbrev entry : CacheKey → ℕ → Option ℕ → CacheEntry ℕ
entry k v expires = record {
  key = k;
  value = v;
  metadata = record {
    version = 1;
    created_at = 5;
    updated_at = 5;
    last_accessed_at = 5;
    frequency = 0;
    expires_at = expires;
    size_bytes = 1;
  };
}

abbrev key_a : CacheKey
key_a = codes "a"

abbrev key_b : CacheKey
key_b = codes "b"

abbrev key_c : CacheKey
key_c = codes "c"

abbrev key_d : CacheKey
key_d = codes "d"

abbrev key_e : CacheKey
key_e = codes "e"

abbrev at_most : Option ℕ → Option ℕ → StorageOptions
at_most entries bytes = record {
  max_entries = entries;
  max_size_bytes = bytes;
  default_ttl_ms = none;
}

abbrev plain : SetOptions
plain = record { ttl_ms = none }

abbrev filled : Storage ℕ (Unit {0})
filled = record (initial {V = ℕ} {S = Unit {0}} tt) {
  store =
      (key_a, entry key_a 1 none)
      ∷ (key_b, entry key_b 1 (some 9))
      ∷ (key_c, entry key_c 1 none)
      ∷ (key_d, entry key_d 1 none)
      ∷ [];
  total_size_bytes = 4;
}

filled-IsValid : IsValid filled
unfolding program
filled-IsValid = record { distinct = (refl, (refl, (refl, (refl, tt)))); counted = refl }

-- Every value has the size of the number that it is.
abbrev sized : ℕ → ℕ
sized v = v

empty_key :
    set fifo_hook sized (at_most none none) 5 [] 1 plain filled
    ≡ err (flow (validation (codes "Cache key must be a non-empty string")))
unfolding program
empty_key = refl

run-IsValid_example : IsValid (
    run fifo_hook sized
      (at_most (some 2) none)
      filled
      (sets 5 key_e 3 plain ∷ gets 6 6 key_a ∷ deletes key_b ∷ sweeps 20 ∷ []))
run-IsValid_example = run-IsValid fifo_hook sized (at_most (some 2) none) _ filled filled-IsValid

enforce_terminates_example :
    enforce_from fifo_hook (at_most (some 1) none) (7 + 5) 0 key_a filled
    ≡ enforce_capacity fifo_hook (at_most (some 1) none) key_a filled
enforce_terminates_example =
    enforce_terminates fifo_hook (at_most (some 1) none) 7 key_a filled filled-IsValid

set_reads_back_example :
    (e : CacheEntry ℕ) × (s' : Storage ℕ (Unit {0})) × (set fifo_hook sized
        (at_most (some 3) none)
        7
        key_a
        6
        plain
        filled
      ≡ ok (e, s'))
    × (e.value ≡ 6)
    × (e.metadata.version ≡ 2)
    × ExpiresAs (at_most (some 3) none) 7 plain e.metadata.expires_at
    × ((Dict.get key_a s'.store ≡ some e) ⊎ (s'.store ≡ []))
unfolding program
set_reads_back_example =
    set_reads_back fifo_hook fifo-IsLawful sized (at_most (some 3) none) 7 key_a 6 plain filled
      filled-IsValid (λ e. cc)

abbrev four : StorageOptions
four = at_most (some 4) none

set_within_limit_example :
    let s' = (write fifo_hook sized four 7 key_e 6 plain filled).1 in
    length (enforce_capacity fifo_hook four key_e s').store ≤ 4
unfolding program
set_within_limit_example =
    set_within_limit fifo_hook fifo-IsLawful sized four 7 key_e 6 plain filled filled-IsValid
      fifo-IsTotal 4 _ _ refl (omega arith) (λ e. cc) refl

abbrev six_bytes : StorageOptions
six_bytes = at_most none (some 6)

filled-IsSized : IsSized filled.store
unfolding program
filled-IsSized j f h = ground arith

set_stays_over_example :
    let s' = (write fifo_hook sized six_bytes 7 key_e 6 plain filled).1 in
    6 < (enforce_capacity fifo_hook six_bytes key_e s').total_size_bytes
unfolding program
set_stays_over_example =
    set_stays_over fifo_hook fifo-IsLawful sized six_bytes 7 key_e 6 plain filled filled-IsValid 6 _
      _ refl refl (omega arith) (λ e. cc) refl (omega arith) filled-IsSized refl
