-- ===== src/Storage/Invariant.antt =====
-- Every method keeps the invariant, and so does any history of calls, whatever the eviction hook does.
use distributive_cache.Base.{
  ℕ, zero, suc, ◌+◌, ◌≡◌, refl, inl, inr, some, List, [], ◌∷◌, arith, length, Option-cases,
  Bool-cases, text_keyed, ◌&&◌, ltb,
}
use distributive_cache.Base.Dict
use distributive_cache.Base.Dict.{Dict}
use distributive_cache.Shared.{CacheKey, CacheEntry}
use distributive_cache.Shared.Errors.{Result, ok, err}
use distributive_cache.Storage.{
  EvictionHook, StorageOptions, SetOptions, Storage, by_delete, by_expire, entry_size, is_expired,
  written_metadata,
}
use distributive_cache.Storage.Engine.{
  evict_victim, enforce_from, enforce_capacity, over_limit, candidates, delete, record_miss,
  record_hit, get, has, clear, sweep_from, sweep_expired, write, set,
}
use distributive_cache.Storage.Removal.{IsValid, remove-IsValid}

-- A call from outside, with the times that it reads from the clock.
pub data Call (V : Type 0) : Type 0 where
  sets : ℕ → CacheKey → V → SetOptions → Call V
  gets : ℕ → ℕ → CacheKey → Call V
  asks : ℕ → CacheKey → Call V
  deletes : CacheKey → Call V
  clears : Call V
  sweeps : ℕ → Call V

abbrev pub after_set :
    {V S : Type 0} → Storage V S → Result (CacheEntry V × Storage V S) → Storage V S
after_set s (ok r) = r.1
after_set s (err e) = s

module _ {V S : Type 0} (hook : EvictionHook S) where
  pub evict-IsValid : (k : CacheKey) (s : Storage V S) → IsValid s → IsValid (evict_victim hook k s)
  unfolding evict_victim
  evict-IsValid k s v =
      let w = remove-IsValid hook k _ s v in record { distinct = w.distinct; counted = w.counted }

  enforce-IsValid :
      (o : StorageOptions) (fuel guard : ℕ) (w : CacheKey) (s : Storage V S)
      → IsValid s
      → IsValid (enforce_from hook o fuel guard w s)
  unfolding enforce_from
  enforce-IsValid o zero guard w s v = v
  enforce-IsValid o (suc fuel) guard w s v =
      elim (Bool-cases (over_limit o s && ltb guard (length s.store + 1))) [
        | inr stop ↦ ground arith
        | inl go ↦ elim (Option-cases (hook.select_victim (candidates w s) s.hook_state)) [
          | inl e ↦ ground arith
          | inr (k, e) ↦ ground (
            arith,
            evict-IsValid k s v,
            enforce-IsValid o fuel (guard + 1) w (evict_victim hook k s),
          )
        ]
      ]

  pub enforce_capacity-IsValid :
      (o : StorageOptions) (w : CacheKey) (s : Storage V S)
      → IsValid s
      → IsValid (enforce_capacity hook o w s)
  unfolding enforce_capacity
  enforce_capacity-IsValid o w s v = enforce-IsValid o _ 0 w s v

  delete-IsValid : (k : CacheKey) (s : Storage V S) → IsValid s → IsValid (delete hook k s).1
  unfolding delete
  delete-IsValid k s v = ground (arith, remove-IsValid hook k by_delete s v)

  pub hit-IsValid :
      (now : ℕ) (k : CacheKey) (e : CacheEntry V) (s : Storage V S)
      → Dict.get k s.store ≡ some e
      → IsValid s
      → IsValid (record_hit hook now k e s).1
  unfolding record_hit
  hit-IsValid now k e s h v = record {
    distinct = Dict.set-IsDistinct k _ s.store v.distinct;
    counted = omega (arith, v.counted, Dict.total-set_old entry_size k _ e s.store h);
  }

  get-IsValid :
      (now accessed : ℕ) (k : CacheKey) (s : Storage V S)
      → IsValid s
      → IsValid (get hook now accessed k s).1
  unfolding get record_miss
  get-IsValid now accessed k s v = elim (Option-cases (Dict.get k s.store)) [
    | inl e ↦ ground arith
    | inr (x, e) ↦
        ground (arith, remove-IsValid hook k by_expire s v, hit-IsValid accessed k x s e v)
  ]

  has-IsValid :
      (now : ℕ) (k : CacheKey) (s : Storage V S) → IsValid s → IsValid (has hook now k s).1
  unfolding has
  has-IsValid now k s v = ground (arith, remove-IsValid hook k by_expire s v)

  sweep-IsValid :
      (now : ℕ) (m : Dict CacheKey (CacheEntry V)) (n : ℕ) (s : Storage V S)
      → IsValid s
      → IsValid (sweep_from hook now m n s).1
  unfolding sweep_from
  sweep-IsValid now [] n s v = v
  sweep-IsValid now (e ∷ m) n s v = elim (Bool-cases (is_expired now e.1)) [
    | inl x ↦ rw (x, sweep_from) (sweep-IsValid now m _ _ (remove-IsValid hook e.0 by_expire s v))
    | inr x ↦ rw (x, sweep_from) (sweep-IsValid now m _ _ v)
  ]

  module _ (size_of : V → ℕ) (o : StorageOptions) where
    pub write-IsValid :
        (now : ℕ) (k : CacheKey) (v : V) (call : SetOptions) (s : Storage V S)
        → IsValid s
        → IsValid (write hook size_of o now k v call s).1
    unfolding write written_metadata
    write-IsValid now k v call s h = elim (Option-cases (Dict.get k s.store)) [
      | inl e ↦ record {
        distinct = Dict.set-IsDistinct k _ s.store h.distinct;
        counted = rw e (omega (arith, h.counted, Dict.total-set_new entry_size k _ s.store e));
      }
      | inr (x, e) ↦ record {
        distinct = Dict.set-IsDistinct k _ s.store h.distinct;
        counted = rw e (
            omega (
              arith,
              h.counted,
              Dict.le-total entry_size k x s.store e,
              Dict.total-set_old entry_size k _ x s.store e,
            ));
      }
    ]

    set-IsValid :
        (now : ℕ) (k : CacheKey) (v : V) (call : SetOptions) (s : Storage V S)
        → IsValid s
        → IsValid (after_set s (set hook size_of o now k v call s))
    unfolding set enforce_capacity
    set-IsValid now [] v call s h = h
    set-IsValid now (c ∷ k) v call s h =
        enforce-IsValid o _ 0 (c ∷ k) _ (write-IsValid now (c ∷ k) v call s h)

    unfoldable pub step : Storage V S → Call V → Storage V S
    step s (sets now k v call) = after_set s (set hook size_of o now k v call s)
    step s (gets now accessed k) = (get hook now accessed k s).1
    step s (asks now k) = (has hook now k s).1
    step s (deletes k) = (delete hook k s).1
    step s clears = clear hook s
    step s (sweeps now) = (sweep_expired hook now s).1

    unfoldable pub run : Storage V S → List (Call V) → Storage V S
    run s [] = s
    run s (c ∷ cs) = run (step s c) cs

    step-IsValid : (s : Storage V S) (c : Call V) → IsValid s → IsValid (step s c)
    unfolding step clear sweep_expired
    step-IsValid s (sets now k v call) h = set-IsValid now k v call s h
    step-IsValid s (gets now accessed k) h = get-IsValid now accessed k s h
    step-IsValid s (asks now k) h = has-IsValid now k s h
    step-IsValid s (deletes k) h = delete-IsValid k s h
    step-IsValid s clears h = record { distinct = tt; counted = refl }
    step-IsValid s (sweeps now) h = sweep-IsValid now s.store 0 s h

    -- Whatever the hook answers, any history of calls on a valid store keeps one entry to a key and the byte
    -- count equal to the sum of the entries' sizes.
    pub run-IsValid : (cs : List (Call V)) (s : Storage V S) → IsValid s → IsValid (run s cs)
    unfolding run
    run-IsValid [] s h = h
    run-IsValid (c ∷ cs) s h = run-IsValid cs (step s c) (step-IsValid s c h)
