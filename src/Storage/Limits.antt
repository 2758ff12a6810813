-- ===== src/Storage/Limits.antt =====
-- Which limits hold after `enforceCapacity`, and what stays in the store.
use native.Mathlib.Numerals.{add-one}
use distributive_cache.Base.{
  ℕ, zero, suc, ◌+◌, ◌≤◌, ◌≡◌, refl, inl, inr, ◌⊎◌, none, some, [], arith, length, text_keyed, ◌∙◌,
  ap, dec_lt,
}
use distributive_cache.Base.Dict
use distributive_cache.Shared.{CacheKey, CacheEntry}
use distributive_cache.Storage.{EvictionHook, StorageOptions, Storage, by_evict}
use distributive_cache.Storage.Engine.{
  evict_victim, enforce_from, enforce_capacity, over_limit, candidates,
}
use distributive_cache.Storage.Removal.{IsValid, store-remove, length-remove}
use distributive_cache.Storage.Invariant.{evict-IsValid}
use distributive_cache.Storage.Rounds.{
  IsLawful, IsTotal, candidate-held, candidate-ne, candidates-ne-nil, length-zero, enforce_cases,
  enforce-le,
}

module _ {V S : Type 0} where
  module _ (hook : EvictionHook S) (lawful : IsLawful hook) where
    -- A lawful victim is held, so its eviction takes one entry away.
    evict-lt :
        (w v : CacheKey) (s : Storage V S)
        → IsValid s
        → hook.select_victim (candidates w s) s.hook_state ≡ some v
        → suc (length (evict_victim hook v s).store) ≡ length s.store
    unfolding evict_victim
    evict-lt w v s h f =
        let (e, held) = candidate-held w v s (lawful.chosen _ _ v f) in
        length-remove hook v by_evict s e h held

    -- With a hook that always finds a lawful victim, a store at most one entry above its entry
    -- limit is brought back within it.
    pub enforce-le-limit :
        IsTotal hook
        → (o : StorageOptions) (m : ℕ) (w : CacheKey) (s : Storage V S) → o.max_entries ≡ some m
        → IsValid s
        → length s.store ≤ m + 1
        → length (enforce_capacity hook o w s).store ≤ m
    unfolding enforce_capacity over_limit
    enforce-le-limit t o m w s limit v h = rw (add-one (length s.store)) (
        enforce_cases hook (λ r. length r.store ≤ m) o (length s.store) 0 w s (λ stop. ground arith)
          (λ missing. elim (dec_lt 0 (length s.store)) [
            | no n ↦ omega arith
            | yes p ↦ absurd (ground (arith, t.finds _ s.hook_state (candidates-ne-nil w s v p)))
          ])
          (λ k over _ f. omega (
            arith,
            evict-lt w k s v f,
            enforce-le hook o (length s.store) 1 w (evict_victim hook k s)
                (evict-IsValid hook k s v),
          )))

    evict_keeps :
        (w k : CacheKey) (e : CacheEntry V) (s : Storage V S)
        → IsValid s
        → hook.select_victim (candidates w s) s.hook_state ≡ some k
        → (Dict.get w s.store ≡ some e) ⊎ (s.store ≡ [])
        → let s' = evict_victim hook k s in (Dict.get w s'.store ≡ some e) ⊎ (s'.store ≡ [])
    unfolding evict_victim
    evict_keeps w k e s v f (inr empty) =
        inr (length-zero _ (omega (arith, evict-lt w k s v f, ap length empty)))
    evict_keeps w k e s v f (inl kept) = elim (candidate-ne w k s (lawful.chosen _ _ k f)) [
      | inl n ↦ inl (rw (store-remove hook k by_evict s) (Dict.get-delete_ne k w s.store n ∙ kept))
      | inr one ↦ inr (length-zero _ (omega (arith, evict-lt w k s v f)))
    ]

    enforce_keeps :
        (o : StorageOptions) (fuel guard : ℕ) (w : CacheKey) (e : CacheEntry V) (s : Storage V S)
        → IsValid s
        → (Dict.get w s.store ≡ some e) ⊎ (s.store ≡ [])
        → let s' = enforce_from hook o fuel guard w s in
          (Dict.get w s'.store ≡ some e) ⊎ (s'.store ≡ [])
    unfolding enforce_from
    enforce_keeps o zero guard w e s v h = h
    enforce_keeps o (suc fuel) guard w e s v h =
        enforce_cases hook (λ r. (Dict.get w r.store ≡ some e) ⊎ (r.store ≡ [])) o fuel guard w s
          (λ _. h) (λ _. h)
          λ k _ _ f.
            enforce_keeps o fuel (guard + 1) w e (evict_victim hook k s) (evict-IsValid hook k s v)
              (evict_keeps w k e s v f h)

    -- Enforcing the limits never takes the entry just written, unless the store ends up empty.
    pub enforce-keeps :
        (o : StorageOptions) (w : CacheKey) (e : CacheEntry V) (s : Storage V S)
        → IsValid s
        → Dict.get w s.store ≡ some e
        → let s' = enforce_capacity hook o w s in (Dict.get w s'.store ≡ some e) ⊎ (s'.store ≡ [])
    unfolding enforce_capacity
    enforce-keeps o w e s v h = enforce_keeps o _ 0 w e s v (inl h)

  -- Enforcing the limits changes no entry: each key keeps its entry or loses it.
  module _ (hook : EvictionHook S) where
    evict_frame :
        (j k : CacheKey) (s : Storage V S)
        → let s' = evict_victim hook k s in
          (Dict.get j s'.store ≡ Dict.get j s.store) ⊎ (Dict.get j s'.store ≡ none)
    unfolding evict_victim
    evict_frame j k s =
        rw (store-remove hook k by_evict s) (ground (arith, Dict.get-delete k j s.store))

    enforce_frame :
        (o : StorageOptions) (fuel guard : ℕ) (w j : CacheKey) (s : Storage V S)
        → let s' = enforce_from hook o fuel guard w s in
          (Dict.get j s'.store ≡ Dict.get j s.store) ⊎ (Dict.get j s'.store ≡ none)
    unfolding enforce_from
    enforce_frame o zero guard w j s = inl refl
    enforce_frame o (suc fuel) guard w j s =
        enforce_cases hook
          (λ r. (Dict.get j r.store ≡ Dict.get j s.store) ⊎ (Dict.get j r.store ≡ none)) o fuel
          guard w s (λ _. inl refl) (λ _. inl refl)
          λ k _ _ _.
            ground (
              arith,
              evict_frame j k s,
              enforce_frame o fuel (guard + 1) w j (evict_victim hook k s),
            )

    -- Enforcing the limits changes no entry: what is stored under a key afterwards is what was stored before,
    -- or nothing. This holds for any hook.
    pub enforce-frame :
        (o : StorageOptions) (w j : CacheKey) (s : Storage V S)
        → let s' = enforce_capacity hook o w s in
          (Dict.get j s'.store ≡ Dict.get j s.store) ⊎ (Dict.get j s'.store ≡ none)
    unfolding enforce_capacity
    enforce-frame o w j s = enforce_frame o _ 0 w j s
