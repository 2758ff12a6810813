-- ===== src/Node/Server.antt =====
-- services/cache-node/src/CacheNodeServer.ts: how a node applies what comes from other nodes and from a snapshot
-- to its store, and how it removes expired entries. Each reading of the clock is an argument.
use distributive_cache.Base.{
  ℕ, ◌-◌, Bool, false, Option, none, some, List, [], ◌∷◌, leb, if◌then◌else◌,
}
use distributive_cache.Base.Dict
use distributive_cache.Shared.{CacheKey, CacheEntry, CacheMetadata}
use distributive_cache.Shared.Errors.{Result, ok, err}
use distributive_cache.Storage.{EvictionHook, StorageOptions, SetOptions, Storage, is_expired}
use distributive_cache.Storage.Engine.{peek, set, delete, clear}
use distributive_cache.Node.Recovery.{Restoration}

-- The options of the store of a node; `none` is `Infinity`.
abbrev pub node_options : Option ℕ → Option ℕ → StorageOptions
node_options max_memory_bytes default_ttl_ms = record {
  max_entries = none;
  max_size_bytes = max_memory_bytes;
  default_ttl_ms = default_ttl_ms;
}

-- `Math.max(0, expiresAt - nowMs())`, or `undefined`.
abbrev pub remaining_ttl : ℕ → Option ℕ → SetOptions
remaining_ttl now none = record { ttl_ms = none }
remaining_ttl now (some t) = record { ttl_ms = some (some (t - now)) }

abbrev pub store_of : {V S : Type 0} → Result (CacheEntry V × Storage V S) → Result (Storage V S)
store_of (ok (e, s)) = ok s
store_of (err t) = err t

-- The test `existing && existing.metadata.version >= metadata.version`.
abbrev pub is_stale : {V : Type 0} → Option (CacheEntry V) → CacheMetadata → Bool
is_stale none m = false
is_stale (some e) m = leb m.version e.metadata.version

module _ {V S : Type 0} (hook : EvictionHook S) (size_of : V → ℕ) (o : StorageOptions) where
  -- The clock at the lookup, at the remaining time and at the write.
  unfoldable pub apply_remote_write :
      ℕ → ℕ → ℕ → CacheKey → V → CacheMetadata → Storage V S → Result (Storage V S)
  apply_remote_write looked at written k v m s =
      if is_stale (peek hook looked k s) m
      then ok s
      else store_of (set hook size_of o written k v (remaining_ttl at m.expires_at) s)

  unfoldable pub apply_restored_entry : ℕ → ℕ → CacheEntry V → Storage V S → Result (Storage V S)
  apply_restored_entry at written e s =
      store_of (set hook size_of o written e.key e.value (remaining_ttl at e.metadata.expires_at) s)

  -- What recovery is given. The clock is read anew at each entry.
  unfoldable pub restoration : (CacheEntry V → ℕ) → (CacheEntry V → ℕ) → Restoration V (Storage V S)
  restoration at written = record {
    apply_entry = λ e. apply_restored_entry (at e) (written e) e;
    clear_storage = clear hook;
  }

-- The worker's task for the sweep: the keys of the expired entries.
unfoldable pub find_expired : {V : Type 0} → ℕ → List (CacheEntry V) → List CacheKey
find_expired now [] = []
find_expired now (e ∷ es) =
    let rest = find_expired now es in if is_expired now e then e.key ∷ rest else rest

-- `runCleanupSweep`: what is sent to the worker pool.
unfoldable pub sweep_request : {V S : Type 0} → Storage V S → Option (List (CacheEntry V))
sweep_request s = elim (Dict.values s.store) [ [] ↦ none | e ∷ es ↦ some (e ∷ es) ]

module _ {V S : Type 0} (hook : EvictionHook S) where
  unfoldable pub apply_remote_delete : CacheKey → Storage V S → Storage V S
  apply_remote_delete k s = (delete hook k s).1

  unfoldable pub delete_keys : List CacheKey → Storage V S → Storage V S
  delete_keys [] s = s
  delete_keys (k ∷ ks) s = delete_keys ks (delete hook k s).1

  -- What `runCleanupSweep` does with the answer of the worker.
  unfoldable pub finish_sweep : List CacheKey → Storage V S → Storage V S
  finish_sweep expired s = delete_keys expired s
