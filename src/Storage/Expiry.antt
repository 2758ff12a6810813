-- ===== src/Storage/Expiry.antt =====
-- Reads and the time to live: what `get` answers and counts, and what `sweepExpired` leaves.
use native.Mathlib.Nat.{zero-add}
use distributive_cache.Base.{
  ℕ, ◌+◌, ◌≡◌, refl, inl, inr, true, false, Option, none, some, [], ◌∷◌, arith, length, Bool-cases,
  text_keyed, if◌then◌else◌, ◌∙◌,
}
use distributive_cache.Base.Dict
use distributive_cache.Base.Dict.{Dict}
use distributive_cache.Shared.{CacheKey, CacheEntry}
use distributive_cache.Storage.{EvictionHook, Storage, by_expire, is_expired, count_removal}
use distributive_cache.Storage.Engine.{
  remove_internal, record_miss, record_hit, get, sweep_from, sweep_expired,
}
use distributive_cache.Storage.Removal.{IsValid, remove-IsValid, get-remove, length-remove}

module _ {V S : Type 0} (hook : EvictionHook S) (now accessed : ℕ) (k : CacheKey)
    (s : Storage V S) where
  -- A read of a live entry gives its value, counts the access in its metadata and is a hit.
  pub get_live :
      (e : CacheEntry V)
      → Dict.get k s.store ≡ some e
      → is_expired now e ≡ false
      → let r = get hook now accessed k s in
        (x : CacheEntry V) × (r.0 ≡ some x)
        × (Dict.get k r.1.store ≡ some x)
        × (x.value ≡ e.value)
        × (x.metadata.frequency ≡ e.metadata.frequency + 1)
        × (x.metadata.last_accessed_at ≡ accessed)
        × (x.metadata.version ≡ e.metadata.version)
        × (r.1.stats.hits ≡ s.stats.hits + 1)
        × (r.1.stats.misses ≡ s.stats.misses)
  unfolding get record_hit
  get_live e held live = (
    record e {
      metadata = record (e.metadata) {
        last_accessed_at = accessed;
        frequency = e.metadata.frequency + 1;
      };
    },
    ground arith,
    rw (held, live, get) (Dict.get-set_self k _ s.store),
    refl,
    refl,
    refl,
    refl,
    ground arith,
    ground arith,
  )

  -- A read of an entry that has run out is a miss, and takes the entry out of the store.
  pub get_expired :
      (e : CacheEntry V)
      → Dict.get k s.store ≡ some e
      → is_expired now e ≡ true
      → let r = get hook now accessed k s in
        (r.0 ≡ none)
        × (Dict.get k r.1.store ≡ none)
        × (r.1.stats.misses ≡ s.stats.misses + 1)
        × (r.1.stats.expirations ≡ s.stats.expirations + 1)
        × (r.1.stats.hits ≡ s.stats.hits)
  unfolding get record_miss remove_internal count_removal
  get_expired e held old = ground (arith, Dict.get-delete_self k s.store)

  -- Every `get` counts exactly one hit or one miss.
  pub get_counts :
      let r = get hook now accessed k s in
      r.1.stats.hits + r.1.stats.misses ≡ s.stats.hits + s.stats.misses + 1
  unfolding get record_miss record_hit remove_internal count_removal is_expired
  get_counts = ground arith

module _ {V S : Type 0} (hook : EvictionHook S) (now : ℕ) where
  -- What the sweep leaves of a key's entry.
  abbrev pub unexpired : Option (CacheEntry V) → Option (CacheEntry V)
  unexpired none = none
  unexpired (some e) = if is_expired now e then none else some e

  abbrev swept : Option (CacheEntry V) → Option (CacheEntry V) → Option (CacheEntry V)
  swept none held = held
  swept (some e) held = if is_expired now e then none else held

  swept_self : (x : Option (CacheEntry V)) → swept x x ≡ unexpired x
  swept_self none = refl
  swept_self (some e) = refl

  sweep_get :
      (m : Dict CacheKey (CacheEntry V)) (n : ℕ) (j : CacheKey) (s : Storage V S)
      → Dict.IsDistinct m
      → Dict.get j (sweep_from hook now m n s).1.store ≡ swept (Dict.get j m) (Dict.get j s.store)
  unfolding sweep_from Dict.get
  sweep_get [] n j s d = refl
  sweep_get (e ∷ m) n j s d = elim (Bool-cases (is_expired now e.1)) [
    | inl x ↦
        let s' = remove_internal hook e.0 by_expire s in
        rw (x, sweep_from)
          (ground (arith, sweep_get m (n + 1) j s' d.1, get-remove hook e.0 by_expire s j))
    | inr x ↦ rw (x, sweep_from) (ground (arith, sweep_get m n j s d.1))
  ]

  sweep_count :
      (m : Dict CacheKey (CacheEntry V)) (n : ℕ) (s : Storage V S)
      → Dict.IsDistinct m
      → IsValid s
      → ((j : CacheKey) (e : CacheEntry V) → Dict.get j m ≡ some e → Dict.get j s.store ≡ some e)
      → let r = sweep_from hook now m n s in r.0 + length r.1.store ≡ n + length s.store
  unfolding sweep_from
  sweep_count [] n s d v held = refl
  sweep_count (e ∷ m) n s d v held = elim (Bool-cases (is_expired now e.1)) [
    | inl x ↦
        let s' = remove_internal hook e.0 by_expire s in
        rw (x, sweep_from)
          (omega (
            arith,
            length-remove hook e.0 by_expire s e.1 v (held e.0 e.1 (Dict.get-head e m)),
            sweep_count m (n + 1) s' d.1 (remove-IsValid hook e.0 by_expire s v) (λ j f h.
                ground (
                  arith,
                  get-remove hook e.0 by_expire s j,
                  held j f (Dict.get-tail e m j f d.0 h),
                )),
          ))
    | inr x ↦
        rw (x, sweep_from)
          (sweep_count m n s d.1 v (λ j f h. held j f (Dict.get-tail e m j f d.0 h)))
  ]

  -- On a valid store the sweep removes exactly the entries that have run out, keeps the others as
  -- they are, and answers how many it removed.
  pub sweep-get :
      (s : Storage V S) (j : CacheKey)
      → IsValid s
      → let r = sweep_expired hook now s in
        (Dict.get j r.1.store ≡ unexpired (Dict.get j s.store))
        × (r.0 + length r.1.store ≡ length s.store)
  unfolding sweep_expired
  sweep-get s j v = (
    sweep_get s.store 0 j s v.distinct ∙ swept_self (Dict.get j s.store),
    sweep_count s.store 0 s v.distinct v (λ j e h. h) ∙ zero-add _,
  )
