-- ===== src/Storage/Engine.antt =====
-- The methods of packages/storage-engine/src/StorageEngine.ts, over any eviction hook: each returns the
-- new state beside its result. `Date.now()` is an argument of each call, and what `emit` sends is
-- appended to `events`.
use distributive_cache.Base.{
  ℕ, zero, suc, ◌+◌, ◌-◌, Bool, true, false, ◌&&◌, ◌||◌, Option, none, some, List, [], ◌∷◌, ◌++◌,
  ltb, ◌==◌, if◌then◌else◌, ite, length, select, text_keyed, Text-discrete,
}
use distributive_cache.Base.Dict
use distributive_cache.Base.Dict.{Dict}
use distributive_cache.Shared.{CacheKey, CacheEntry, StorageStats}
use distributive_cache.Shared.Errors.{Result, ok, err, flow, validation, codes}
use distributive_cache.Storage.{
  EvictionHook, StorageOptions, SetOptions, hit, miss, written, Reason, by_delete, by_expire,
  by_evict, Storage, is_expired, expiry, written_metadata, entry_size, old_size, count_removal,
  removal_event, exceeds,
}

-- The test of the loop in `enforceCapacity`.
unfoldable pub over_limit : {V S : Type 0} → StorageOptions → Storage V S → Bool
over_limit o s =
    exceeds o.max_entries (length s.store) || exceeds o.max_size_bytes s.total_size_bytes

-- `[...keys].filter((k) => k !== justWrittenKey || this.store.size === 1)`
unfoldable pub candidates : {V S : Type 0} → CacheKey → Storage V S → List CacheKey
candidates w s =
    select (λ k. ite (Text-discrete k w) false true || length s.store == 1) (Dict.keys s.store)

module _ {V S : Type 0} (hook : EvictionHook S) where
  -- `removeInternal`
  unfoldable pub remove_internal : CacheKey → Reason → Storage V S → Storage V S
  remove_internal k r s = elim (Dict.get k s.store) [
    | none ↦ s
    | some e ↦ record s {
      store = Dict.delete k s.store;
      total_size_bytes = s.total_size_bytes - entry_size e;
      stats = count_removal r s.stats;
      hook_state = hook.record_removal k s.hook_state;
      events = s.events ++ (removal_event r k ∷ []);
    }
  ]

  -- One eviction: `removeInternal(victim, 'evict')` and the count of it.
  unfoldable pub evict_victim : CacheKey → Storage V S → Storage V S
  evict_victim v s =
      let s' = remove_internal v by_evict s in
      record s' { stats = record (s'.stats) { evictions = s'.stats.evictions + 1 } }

  -- The loop of `enforceCapacity`, `guard` counting its rounds.
  unfoldable pub enforce_from : StorageOptions → ℕ → ℕ → CacheKey → Storage V S → Storage V S
  enforce_from o zero guard w s = s
  enforce_from o (suc fuel) guard w s = elim (over_limit o s && ltb guard (length s.store + 1)) [
    | false ↦ s
    | true ↦ elim (hook.select_victim (candidates w s) s.hook_state) [
      | none ↦ s
      | some v ↦ enforce_from o fuel (guard + 1) w (evict_victim v s)
    ]
  ]

  unfoldable pub enforce_capacity : StorageOptions → CacheKey → Storage V S → Storage V S
  enforce_capacity o w s = enforce_from o (length s.store + 1) 0 w s

  -- `delete`
  unfoldable pub delete : CacheKey → Storage V S → Bool × Storage V S
  delete k s = elim (Dict.has k s.store) [
    | false ↦ (false, s)
    | true ↦
        let s' = remove_internal k by_delete s in
        (true, record s' { stats = record (s'.stats) { deletes = s'.stats.deletes + 1 } })
  ]

  unfoldable pub record_miss : CacheKey → Storage V S → Storage V S
  record_miss k s = record s {
    stats = record (s.stats) { misses = s.stats.misses + 1 };
    events = s.events ++ (miss k ∷ []);
  }

  -- The read of an entry that is there and has not expired. The clock is read again here.
  unfoldable pub record_hit : ℕ → CacheKey → CacheEntry V → Storage V S → CacheEntry V × Storage V S
  record_hit accessed k e s =
      let m = e.metadata in
      let e' = record e {
        metadata = record m { last_accessed_at = accessed; frequency = m.frequency + 1 };
      } in
      (
        e',
        record s {
          store = Dict.set k e' s.store;
          hook_state = hook.record_access k s.hook_state;
          stats = record (s.stats) { hits = s.stats.hits + 1 };
          events = s.events ++ (hit k ∷ []);
        },
      )

  -- `get`, at the time `now` of the expiry test and the time `accessed` of the access.
  unfoldable pub get : ℕ → ℕ → CacheKey → Storage V S → Option (CacheEntry V) × Storage V S
  get now accessed k s = elim (Dict.get k s.store) [
    | none ↦ (none, record_miss k s)
    | some e ↦ elim (is_expired now e) [
      | true ↦ (none, record_miss k (remove_internal k by_expire s))
      | false ↦ let r = record_hit accessed k e s in (some (r.0), r.1)
    ]
  ]

  unfoldable pub has : ℕ → CacheKey → Storage V S → Bool × Storage V S
  has now k s = elim (Dict.get k s.store) [
    | none ↦ (false, s)
    | some e ↦ elim (is_expired now e) [
      | true ↦ (false, remove_internal k by_expire s)
      | false ↦ (true, s)
    ]
  ]

  unfoldable pub peek : ℕ → CacheKey → Storage V S → Option (CacheEntry V)
  peek now k s = elim (Dict.get k s.store) [
    | none ↦ none
    | some e ↦ elim (is_expired now e) [ true ↦ none | false ↦ some e ]
  ]

  -- The hook is not told of a `clear`, nor are the statistics.
  unfoldable pub clear : Storage V S → Storage V S
  clear s = record s { store = []; total_size_bytes = 0 }

  -- The loop of `sweepExpired` over the entries that were there when it began.
  unfoldable pub sweep_from : ℕ → Dict CacheKey (CacheEntry V) → ℕ → Storage V S → ℕ × Storage V S
  sweep_from now [] removed s = (removed, s)
  sweep_from now (e ∷ m) removed s =
      let expired = is_expired now (e.1) in
      sweep_from now m (if expired then removed + 1 else removed)
        (if expired then remove_internal (e.0) by_expire s else s)

  unfoldable pub sweep_expired : ℕ → Storage V S → ℕ × Storage V S
  sweep_expired now s = sweep_from now s.store 0 s

  unfoldable pub get_stats : Storage V S → StorageStats
  get_stats s = record (s.stats) {
    entry_count = length s.store;
    total_size_bytes = s.total_size_bytes;
  }

  module _ (size_of : V → ℕ) (o : StorageOptions) where
    -- `set` up to `enforceCapacity`; `size_of` is `approximateSizeBytes`.
    unfoldable pub write : ℕ → CacheKey → V → SetOptions → Storage V S → CacheEntry V × Storage V S
    write now k v call s =
        let existing = Dict.get k s.store in
        let entry : CacheEntry V = record {
          key = k;
          value = v;
          metadata = written_metadata now (expiry o now call) (size_of v) existing;
        } in
        (
          entry,
          record s {
            store = Dict.set k entry s.store;
            total_size_bytes = s.total_size_bytes - old_size existing + size_of v;
            hook_state = hook.record_write k s.hook_state;
            stats = record (s.stats) { writes = s.stats.writes + 1 };
            events = s.events ++ (written k ∷ []);
          },
        )

    unfoldable pub set :
        ℕ → CacheKey → V → SetOptions → Storage V S → Result (CacheEntry V × Storage V S)
    set now [] v call s = err (flow (validation (codes "Cache key must be a non-empty string")))
    set now (c ∷ k) v call s =
        let r = write now (c ∷ k) v call s in ok (r.0, enforce_capacity o (c ∷ k) (r.1))
