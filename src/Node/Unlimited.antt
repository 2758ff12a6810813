-- ===== src/Node/Unlimited.antt =====
-- Writes to a store that has no limits.
use native.Mathlib.Numerals.{add-one}
use distributive_cache.Base.{
  ℕ, ◌+◌, ◌≡◌, refl, ◌≢◌, none, some, [], ◌∙◌, ap, length, text_keyed, Text-discrete, ite,
}
use distributive_cache.Base.Dict
use distributive_cache.Shared.{CacheKey, CacheEntry}
use distributive_cache.Shared.Errors.{ok}
use distributive_cache.Storage.{EvictionHook, StorageOptions, SetOptions, Storage, expiry}
use distributive_cache.Storage.Engine.{set, enforce_capacity, enforce_from, over_limit, write}
use distributive_cache.Storage.Written.{old_version, write_entry, get-write, set-ok}

-- Nothing is evicted, and nothing expires unless it is told to.
pub record IsUnlimited (o : StorageOptions) : Type 0 where
  pub entries : o.max_entries ≡ none
  pub bytes : o.max_size_bytes ≡ none
  pub lasting : o.default_ttl_ms ≡ none

module _ {V S : Type 0} (hook : EvictionHook S) (size_of : V → ℕ) (o : StorageOptions)
    (free : IsUnlimited o) where
  enforce_nothing : (k : CacheKey) (s : Storage V S) → enforce_capacity hook o k s ≡ s
  unfolding enforce_capacity enforce_from over_limit
  enforce_nothing k s =
      rw
        (
          add-one (length s.store),
          free.entries,
          free.bytes,
          enforce_capacity,
          enforce_from,
          over_limit,
        )
        refl

  -- What a write without limits leaves under any key.
  pub set_unlimited-get :
      (now : ℕ) (k : CacheKey) (v : V) (call : SetOptions) (s : Storage V S)
      → k ≢ []
      → (e : CacheEntry V) × (s' : Storage V S) × (set hook size_of o now k v call s ≡ ok (e, s'))
        × ((j : CacheKey)
            → Dict.get j s'.store ≡ ite (Text-discrete k j) (some e) (Dict.get j s.store))
        × (e.value ≡ v)
  unfolding write
  set_unlimited-get now k v call s h =
      let r = write hook size_of o now k v call s in
      (
        r.0,
        r.1,
        set-ok hook size_of o now k v call s h ∙ ap (λ t. ok (r.0, t)) (enforce_nothing k r.1),
        (λ j. Dict.get-set k j r.0 s.store),
        (write_entry hook size_of o now k v call s).1,
      )

  -- A write without limits.
  pub set_unlimited :
      (now : ℕ) (k : CacheKey) (v : V) (call : SetOptions) (s : Storage V S)
      → k ≢ []
      → (e : CacheEntry V) × (s' : Storage V S) × (set hook size_of o now k v call s ≡ ok (e, s'))
        × (Dict.get k s'.store ≡ some e)
        × (e.value ≡ v)
        × (e.metadata.version ≡ old_version (Dict.get k s.store) + 1)
        × (e.metadata.expires_at ≡ expiry o now call)
  set_unlimited now k v call s h =
      let r = write hook size_of o now k v call s in
      let (_, value, version, _, expires, _) = write_entry hook size_of o now k v call s in
      (
        r.0,
        r.1,
        set-ok hook size_of o now k v call s h ∙ ap (λ t. ok (r.0, t)) (enforce_nothing k r.1),
        get-write hook size_of o now k v call s,
        value,
        version,
        expires,
      )
