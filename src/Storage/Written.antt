-- ===== src/Storage/Written.antt =====
-- What a `set` does to the store: the entry that it writes, what later reads find, and its limits.
use distributive_cache.Base.{
  ℕ, ◌+◌, ◌≤◌, ◌<◌, ◌≡◌, refl, ◌≢◌, inl, inr, ◌⊎◌, Option, none, some, [], ◌∷◌, arith, length,
  Option-cases, text_keyed, ap, sym, subst, ◌∙◌,
}
use distributive_cache.Base.Dict
use distributive_cache.Base.Dict.{Dict}
use distributive_cache.Shared.{CacheKey, CacheEntry}
use distributive_cache.Shared.Errors.{ok}
use distributive_cache.Storage.{
  EvictionHook, StorageOptions, SetOptions, Storage, entry_size, written_metadata, expiry,
}
use distributive_cache.Storage.Engine.{enforce_capacity, write, set}
use distributive_cache.Storage.Removal.{IsValid}
use distributive_cache.Storage.Invariant.{write-IsValid, enforce_capacity-IsValid}
use distributive_cache.Storage.Rounds.{IsLawful, IsTotal, enforce-half}
use distributive_cache.Storage.Limits.{enforce-le-limit, enforce-keeps, enforce-frame}

abbrev pub old_version : {V : Type 0} → Option (CacheEntry V) → ℕ
old_version none = 0
old_version (some e) = e.metadata.version

-- When an entry expires that is written at `now`: the time to live of the call before the default.
abbrev pub ExpiresAs : StorageOptions → ℕ → SetOptions → Option ℕ → Type 0
ExpiresAs o now call expires =
    ((t : ℕ) × ((call.ttl_ms ≡ some (some t))
        ⊎ ((call.ttl_ms ≡ none) × (o.default_ttl_ms ≡ some t)))
      × (expires ≡ some (now + t)))
    ⊎ (((call.ttl_ms ≡ some none) ⊎ ((call.ttl_ms ≡ none) × (o.default_ttl_ms ≡ none)))
        × (expires ≡ none))

expiry-ExpiresAs :
    (o : StorageOptions) (now : ℕ) (call : SetOptions) → ExpiresAs o now call (expiry o now call)
unfolding expiry
expiry-ExpiresAs o now call = elim (Option-cases call.ttl_ms) [
  | inl e ↦ elim (Option-cases o.default_ttl_ms) [
    | inl d ↦ inr (inr (e, d), rw (e, d, expiry) refl)
    | inr (t, d) ↦ inl (t, inr (e, d), rw (e, d, expiry) refl)
  ]
  | inr (ttl, e) ↦ elim (Option-cases ttl) [
    | inl d ↦ inr (inl (e ∙ ap some d), rw (e, d, expiry) refl)
    | inr (t, d) ↦ inl (t, inl (e ∙ ap some d), rw (e, d, expiry) refl)
  ]
]

-- Every entry has a size.
abbrev pub IsSized : {V : Type 0} → Dict CacheKey (CacheEntry V) → Type 0
IsSized {V} m = (j : CacheKey) (f : CacheEntry V) → Dict.get j m ≡ some f → 0 < entry_size f

module _ {V S : Type 0} (hook : EvictionHook S) (size_of : V → ℕ) (o : StorageOptions) (now : ℕ)
    (k : CacheKey) (v : V) (call : SetOptions) (s : Storage V S) where
  -- The metadata of the entry that is written.
  pub write_entry :
      let e = (write hook size_of o now k v call s).0 in
      (e.key ≡ k)
      × (e.value ≡ v)
      × (e.metadata.version ≡ old_version (Dict.get k s.store) + 1)
      × (e.metadata.updated_at ≡ now)
      × (e.metadata.expires_at ≡ expiry o now call)
      × (e.metadata.size_bytes ≡ size_of v)
  unfolding write written_metadata
  write_entry = ground arith

  pub get-write : let r = write hook size_of o now k v call s in Dict.get k r.1.store ≡ some r.0
  unfolding write
  get-write = Dict.get-set_self k _ s.store

  pub write-IsSized :
      0 < size_of v → IsSized s.store → IsSized (write hook size_of o now k v call s).1.store
  unfolding write
  write-IsSized pos sized j f h = ground (
    arith,
    Dict.get-set k j (write hook size_of o now k v call s).0 s.store,
    sized j f,
    write_entry,
  )

  length-write-le : length (write hook size_of o now k v call s).1.store ≤ length s.store + 1
  unfolding write
  length-write-le = elim (Option-cases (Dict.get k s.store)) [
    | inl e ↦ omega (arith, Dict.length-set_new k _ s.store e)
    | inr (x, e) ↦ omega (arith, Dict.length-set_old k _ x s.store e)
  ]

  length-write :
      Dict.get k s.store ≡ none
      → length (write hook size_of o now k v call s).1.store ≡ length s.store + 1
  unfolding write
  length-write e = omega (arith, Dict.length-set_new k _ s.store e)

module _ {V S : Type 0} (hook : EvictionHook S) (lawful : IsLawful hook) (o : StorageOptions)
    (k : CacheKey) (s : Storage V S) (valid : IsValid s) where
  others-IsSized : IsSized s.store → IsSized (Dict.delete k (enforce_capacity hook o k s).store)
  others-IsSized sized j f h = ground (
    arith,
    Dict.get-delete k j (enforce_capacity hook o k s).store,
    enforce-frame hook o k j s,
    sized j f,
  )

  enforce_stays_over :
      (e : CacheEntry V)
      → Dict.get k s.store ≡ some e
      → 5 ≤ length s.store
      → IsSized s.store
      → entry_size e < (enforce_capacity hook o k s).total_size_bytes
  enforce_stays_over e held many sized =
      let s' = enforce_capacity hook o k s in
      let half = enforce-half hook o k s valid in
      elim (enforce-keeps hook lawful o k e s valid held) [
        | inr empty ↦ absurd (omega (arith, half, ap length empty))
        | inl kept ↦
            let valid' = enforce_capacity-IsValid hook o k s valid in
            omega (
              arith,
              half,
              valid'.counted,
              Dict.total-delete entry_size k e s'.store valid'.distinct kept,
              Dict.length-delete k e s'.store valid'.distinct kept,
              Dict.length-le-total entry_size (Dict.delete k s'.store)
                  (Dict.delete-IsDistinct k s'.store valid'.distinct) (others-IsSized sized),
            )
      ]

pub set-ok :
    {V S : Type 0} (hook : EvictionHook S) (size_of : V → ℕ) (o : StorageOptions) (now : ℕ)
    (k : CacheKey) (v : V) (call : SetOptions) (s : Storage V S)
    → k ≢ []
    → let r = write hook size_of o now k v call s in
      set hook size_of o now k v call s ≡ ok (r.0, enforce_capacity hook o k r.1)
unfolding set
set-ok hook size_of o now [] v call s h = absurd (h refl)
set-ok hook size_of o now (c ∷ k) v call s h = refl

module _ {V S : Type 0} (hook : EvictionHook S) (lawful : IsLawful hook) (size_of : V → ℕ)
    (o : StorageOptions) (now : ℕ) (k : CacheKey) (v : V) (call : SetOptions) (s : Storage V S)
    (valid : IsValid s) where
  -- On a valid store, with a hook whose victims are among the candidates, a `set` of a non-empty key succeeds.
  -- It answers the entry that it wrote: the value under a version one above the one that was there. The entry
  -- expires `t` milliseconds from now if the call gives the time to live `t`, or gives none where the default is
  -- `t`; it does not expire if the call asks for no expiry, or gives none where there is no default. The store
  -- then holds that entry, unless enforcing the limits emptied the store.
  pub set_reads_back :
      k ≢ []
      → (e : CacheEntry V) × (s' : Storage V S) × (set hook size_of o now k v call s ≡ ok (e, s'))
        × (e.value ≡ v)
        × (e.metadata.version ≡ old_version (Dict.get k s.store) + 1)
        × ExpiresAs o now call e.metadata.expires_at
        × ((Dict.get k s'.store ≡ some e) ⊎ (s'.store ≡ []))
  set_reads_back h =
      let r = write hook size_of o now k v call s in
      let (_, value, version, _, expires, _) = write_entry hook size_of o now k v call s in
      (
        r.0,
        enforce_capacity hook o k r.1,
        set-ok hook size_of o now k v call s h,
        value,
        version,
        subst (ExpiresAs o now call) (sym expires) (expiry-ExpiresAs o now call),
        enforce-keeps hook lawful o k r.0 r.1 (write-IsValid hook size_of o now k v call s valid)
            (get-write hook size_of o now k v call s),
      )

  -- With a hook whose victims are among the candidates and which finds one whenever there is a candidate, a
  -- `set` of a non-empty key leaves a valid store within its entry limit if it was within it before.
  pub set_within_limit :
      IsTotal hook
      → (m : ℕ) (e : CacheEntry V) (s' : Storage V S) → o.max_entries ≡ some m
      → length s.store ≤ m
      → k ≢ []
      → set hook size_of o now k v call s ≡ ok (e, s')
      → length s'.store ≤ m
  set_within_limit total m e s' limit within named h =
      let r = write hook size_of o now k v call s in
      let bound =
        enforce-le-limit hook lawful total o m k r.1 limit
          (write-IsValid hook size_of o now k v call s valid)
          (omega (arith, length-write-le hook size_of o now k v call s)) in
      ground (arith, bound, set-ok hook size_of o now k v call s named)

  -- The byte limit is not kept by a large write. Into a valid store with four or more entries, none of them of
  -- size 0, write under a new non-empty key a value whose size is the positive byte limit `m`. The loop stops
  -- too early, and the store stays above its byte limit, whatever the hook chooses among the candidates.
  pub set_stays_over :
      (m : ℕ) (e : CacheEntry V) (s' : Storage V S)
      → o.max_size_bytes ≡ some m
      → size_of v ≡ m
      → 0 < m
      → k ≢ []
      → Dict.get k s.store ≡ none
      → 4 ≤ length s.store
      → IsSized s.store
      → set hook size_of o now k v call s ≡ ok (e, s')
      → m < s'.total_size_bytes
  set_stays_over m e s' limit fills pos named new many sized h =
      let r = write hook size_of o now k v call s in
      let (_, _, _, _, _, size) = write_entry hook size_of o now k v call s in
      let over =
        enforce_stays_over hook lawful o k r.1 (write-IsValid hook size_of o now k v call s valid)
          r.0 (get-write hook size_of o now k v call s)
          (omega (arith, length-write hook size_of o now k v call s new))
          (write-IsSized hook size_of o now k v call s (omega arith) sized) in
      ground (arith, over, set-ok hook size_of o now k v call s named)
