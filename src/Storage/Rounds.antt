-- ===== src/Storage/Rounds.antt =====
-- The rounds of the loop in `enforceCapacity`: its candidates, its end, and how much it can remove.
use distributive_cache.Base.{
  ℕ, zero, suc, ◌+◌, ◌*◌, ◌≤◌, ◌<◌, ◌≡◌, refl, ◌≢◌, inl, inr, ◌⊎◌, true, false, ◌&&◌, ◌||◌, none,
  some, List, [], ◌∷◌, arith, length, Option-cases, Bool-cases, text_keyed, ltb, ◌==◌, includes,
  select, includes-select, is_some, Text-discrete, ite, sym, ◌∙◌,
}
use native.Mathlib.Nat.{zero-add, suc-add}
use distributive_cache.Base.Dict
use distributive_cache.Base.Dict.{Dict}
use distributive_cache.Shared.{CacheKey, CacheEntry}
use distributive_cache.Storage.{EvictionHook, StorageOptions, Storage, by_evict}
use distributive_cache.Storage.Engine.{
  remove_internal, evict_victim, enforce_from, enforce_capacity, over_limit, candidates,
}
use distributive_cache.Storage.Removal.{IsValid, length-remove-le}
use distributive_cache.Storage.Invariant.{evict-IsValid}

-- A victim is one of the candidates.
pub record IsLawful {S : Type 0} (hook : EvictionHook S) : Type 0 where
  pub chosen :
      (ks : List CacheKey) (h : S) (v : CacheKey)
      → hook.select_victim ks h ≡ some v
      → includes v ks ≡ true

-- There is a victim whenever there is a candidate.
pub record IsTotal {S : Type 0} (hook : EvictionHook S) : Type 0 where
  pub finds : (ks : List CacheKey) (h : S) → ks ≢ [] → is_some (hook.select_victim ks h) ≡ true

candidate_exists :
    {V : Type 0} (w : CacheKey) (m : Dict CacheKey (CacheEntry V))
    → Dict.IsDistinct m
    → 0 < length m
    → select (λ k. ite (Text-discrete k w) false true || length m == 1) (Dict.keys m) ≢ []
unfolding select Dict.get
candidate_exists w [] d h = absurd (omega arith)
candidate_exists w (e ∷ []) d h = λ none_left. ground arith
candidate_exists w (e ∷ f ∷ m) d h = λ none_left. ground arith

pub length-zero : {A : Type 0} (l : List A) → length l ≡ 0 → l ≡ []
length-zero [] h = refl
length-zero (x ∷ l) h = absurd (omega arith)

module _ {V S : Type 0} where
  pub candidate-held :
      (w v : CacheKey) (s : Storage V S)
      → includes v (candidates w s) ≡ true
      → (e : CacheEntry V) × (Dict.get v s.store ≡ some e)
  unfolding candidates
  candidate-held w v s h =
      let held = sym (Dict.includes-keys v s.store) ∙ (includes-select _ v _ h).1 in
      elim (Option-cases (Dict.get v s.store)) [ inl e ↦ absurd (cc) | inr r ↦ r ]

  -- The key just written is a candidate only if it is alone.
  pub candidate-ne :
      (w v : CacheKey) (s : Storage V S)
      → includes v (candidates w s) ≡ true
      → (v ≢ w) ⊎ (length s.store ≡ 1)
  unfolding candidates
  candidate-ne w v s h =
      let test = (includes-select _ v (Dict.keys s.store) h).0 in
      elim (Text-discrete v w) [ no n ↦ inl n | yes p ↦ inr (ground arith) ]

  pub candidates-ne-nil :
      (w : CacheKey) (s : Storage V S) → IsValid s → 0 < length s.store → candidates w s ≢ []
  unfolding candidates
  candidates-ne-nil w s v h = candidate_exists w s.store v.distinct h

  module _ (hook : EvictionHook S) where
    pub length-evict-le :
        (k : CacheKey) (s : Storage V S)
        → IsValid s
        → length (evict_victim hook k s).store ≤ length s.store
    unfolding evict_victim
    length-evict-le k s v = length-remove-le hook k by_evict s v

    suc-length-evict :
        (k : CacheKey) (s : Storage V S)
        → IsValid s
        → length s.store ≤ suc (length (evict_victim hook k s).store)
    unfolding evict_victim remove_internal
    suc-length-evict k s v = elim (Option-cases (Dict.get k s.store)) [
      | inl e ↦ ground arith
      | inr (x, e) ↦ ground (arith, Dict.length-delete k x s.store v.distinct)
    ]

    -- Each round is one of four: the loop stops by its test, by its guard, for want of a victim, or
    -- evicts and goes on.
    pub enforce_cases {ℓ} :
        (P : Storage V S → Type ℓ) (o : StorageOptions) (fuel guard : ℕ) (w : CacheKey)
        (s : Storage V S)
        → (((over_limit o s && ltb guard (length s.store + 1)) ≡ false) → P s)
        → (hook.select_victim (candidates w s) s.hook_state ≡ none → P s)
        → ((v : CacheKey)
            → over_limit o s ≡ true
            → guard < length s.store + 1
            → hook.select_victim (candidates w s) s.hook_state ≡ some v
            → P (enforce_from hook o fuel (guard + 1) w (evict_victim hook v s)))
        → P (enforce_from hook o (suc fuel) guard w s)
    unfolding enforce_from
    enforce_cases P o fuel guard w s stop missing next =
        elim (Bool-cases (over_limit o s && ltb guard (length s.store + 1))) [
          | inr e ↦ rw (e, enforce_from) (stop e)
          | inl e ↦ elim (Option-cases (hook.select_victim (candidates w s) s.hook_state)) [
            | inl n ↦ rw (e, n, enforce_from) (missing n)
            | inr (v, f) ↦ rw (e, f, enforce_from) (next v (ground arith) (ground arith) f)
          ]
        ]

    pub enforce-le :
        (o : StorageOptions) (fuel guard : ℕ) (w : CacheKey) (s : Storage V S)
        → IsValid s
        → length (enforce_from hook o fuel guard w s).store ≤ length s.store
    unfolding enforce_from
    enforce-le o zero guard w s v = omega arith
    enforce-le o (suc fuel) guard w s v =
        enforce_cases (λ r. length r.store ≤ length s.store) o fuel guard w s (λ _. omega arith)
          (λ _. omega arith)
          λ k _ _ _. omega (
            arith,
            length-evict-le k s v,
            enforce-le o fuel (guard + 1) w (evict_victim hook k s) (evict-IsValid hook k s v),
          )

    enforce_half :
        (o : StorageOptions) (fuel guard : ℕ) (w : CacheKey) (s : Storage V S)
        → IsValid s
        → guard ≤ length s.store + 2
        → length s.store + guard ≤ 2 * length (enforce_from hook o fuel guard w s).store + 2
    unfolding enforce_from
    enforce_half o zero guard w s v g = omega arith
    enforce_half o (suc fuel) guard w s v g =
        enforce_cases (λ r. length s.store + guard ≤ 2 * length r.store + 2) o fuel guard w s
          (λ _. omega arith) (λ _. omega arith)
          λ k _ below _.
            let shrunk = suc-length-evict k s v in
            omega (
              arith,
              shrunk,
              enforce_half o fuel (guard + 1) w (evict_victim hook k s) (evict-IsValid hook k s v)
                  (omega (arith, shrunk)),
            )

    -- The guard counts rounds against a size that shrinks with every round: on a valid store, whatever the
    -- hook answers and however far the limits are exceeded, the size before is at most twice the size after,
    -- and two more.
    pub enforce-half :
        (o : StorageOptions) (w : CacheKey) (s : Storage V S)
        → IsValid s
        → length s.store ≤ 2 * length (enforce_capacity hook o w s).store + 2
    unfolding enforce_capacity
    enforce-half o w s v = omega (arith, enforce_half o (length s.store + 1) 0 w s v (omega arith))

    -- The fuel is enough: one more round changes nothing once it covers the guard.
    enforce_fuel :
        (o : StorageOptions) (fuel guard : ℕ) (w : CacheKey) (s : Storage V S)
        → IsValid s
        → length s.store + 1 ≤ fuel + guard
        → enforce_from hook o (suc fuel) guard w s ≡ enforce_from hook o fuel guard w s
    unfolding enforce_from
    enforce_fuel o zero guard w s v h = ground arith
    enforce_fuel o (suc fuel) guard w s v h =
        elim (Bool-cases (over_limit o s && ltb guard (length s.store + 1))) [
          | inr e ↦ rw (e, enforce_from)
          | inl e ↦ elim (Option-cases (hook.select_victim (candidates w s) s.hook_state)) [
            | inl n ↦ rw (e, n, enforce_from)
            | inr (k, f) ↦
                rw (e, f, enforce_from)
                  (enforce_fuel o fuel (guard + 1) w (evict_victim hook k s)
                    (evict-IsValid hook k s v) (omega (arith, length-evict-le k s v)))
          ]
        ]

    -- On a valid store the loop ends by its own test, by its guard or for want of a victim: more fuel gives
    -- the same state.
    pub enforce_terminates :
        (o : StorageOptions) (extra : ℕ) (w : CacheKey) (s : Storage V S)
        → IsValid s
        → enforce_from hook o (extra + (length s.store + 1)) 0 w s ≡ enforce_capacity hook o w s
    unfolding enforce_capacity
    enforce_terminates o zero w s v = rw zero-add
    enforce_terminates o (suc extra) w s v = rw suc-add (
        enforce_fuel o (extra + (length s.store + 1)) 0 w s v (omega arith)
        ∙ enforce_terminates o extra w s v)
