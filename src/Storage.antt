-- ===== src/Storage.antt =====
-- packages/storage-engine/src/types.ts and the state of StorageEngine.ts: the hook that an eviction
-- policy implements, the options, the store with its statistics, and what a write and a removal record.
pub mod Engine
pub mod Removal
pub mod Invariant
pub mod Rounds
pub mod Limits
pub mod Expiry
pub mod Written
mod Tests
use distributive_cache.Base.{ℕ, ◌+◌, Bool, false, Option, none, some, List, [], ◌∷◌, ltb, leb}
use distributive_cache.Base.Dict.{Dict}
use distributive_cache.Shared.{CacheKey, CacheMetadata, CacheEntry, StorageStats}

-- `EvictionHook`: what an eviction policy with state `S` offers to the store.
pub record EvictionHook (S : Type 0) : Type 0 where
  pub record_access : CacheKey → S → S
  pub record_write : CacheKey → S → S
  pub record_removal : CacheKey → S → S
  pub select_victim : List CacheKey → S → Option CacheKey

-- `FifoEvictionHook`
unfoldable pub fifo_victim : List CacheKey → Option CacheKey
fifo_victim [] = none
fifo_victim (k ∷ ks) = some k

abbrev pub fifo_hook : EvictionHook (Unit {0})
fifo_hook = record {
  record_access = λ _ s. s;
  record_write = λ _ s. s;
  record_removal = λ _ s. s;
  select_victim = λ ks _. fifo_victim ks;
}

-- A limit is `none` where the source has `Infinity`.
pub record StorageOptions : Type 0 where
  pub max_entries : Option ℕ
  pub max_size_bytes : Option ℕ
  pub default_ttl_ms : Option ℕ

-- `ttlMs` is absent, `null` or a number of milliseconds.
pub record SetOptions : Type 0 where
  pub ttl_ms : Option (Option ℕ)

pub data Event : Type 0 where
  hit miss written deleted expire evict : CacheKey → Event

pub data Reason : Type 0 where
  by_delete by_expire by_evict : Reason

pub record Storage (V S : Type 0) : Type 0 where
  pub store : Dict CacheKey (CacheEntry V)
  pub total_size_bytes : ℕ
  pub stats : StorageStats
  pub hook_state : S
  pub events : List Event

abbrev pub zero_stats : StorageStats
zero_stats = record {
  entry_count = 0;
  total_size_bytes = 0;
  hits = 0;
  misses = 0;
  expirations = 0;
  evictions = 0;
  writes = 0;
  deletes = 0;
}

abbrev pub initial : {V S : Type 0} → S → Storage V S
initial h = record {
  store = [];
  total_size_bytes = 0;
  stats = zero_stats;
  hook_state = h;
  events = [];
}

unfoldable pub is_expired : {V : Type 0} → ℕ → CacheEntry V → Bool
is_expired now e = elim e.metadata.expires_at [ none ↦ false | some t ↦ leb t now ]

-- `now + ttlMs`, where `ttlMs` is the call's own or the default, or no expiry.
unfoldable pub expiry : StorageOptions → ℕ → SetOptions → Option ℕ
expiry o now call = elim call.ttl_ms [
  | none ↦ elim o.default_ttl_ms [ none ↦ none | some t ↦ some (now + t) ]
  | some ttl ↦ elim ttl [ none ↦ none | some t ↦ some (now + t) ]
]

-- The metadata of a write: a new version of the entry that is there, or version 1.
unfoldable pub written_metadata :
    {V : Type 0} → ℕ → Option ℕ → ℕ → Option (CacheEntry V) → CacheMetadata
written_metadata now expires size none = record {
  version = 1;
  created_at = now;
  updated_at = now;
  last_accessed_at = now;
  frequency = 0;
  expires_at = expires;
  size_bytes = size;
}
written_metadata now expires size (some e) =
    let m = e.metadata in
    record m { version = m.version + 1; updated_at = now; expires_at = expires; size_bytes = size }

abbrev pub entry_size : {V : Type 0} → CacheEntry V → ℕ
entry_size e = e.metadata.size_bytes

abbrev pub old_size : {V : Type 0} → Option (CacheEntry V) → ℕ
old_size none = 0
old_size (some e) = entry_size e

-- The statistics and the event of a removal, by its reason.
unfoldable pub count_removal : Reason → StorageStats → StorageStats
count_removal by_expire st = record st { expirations = st.expirations + 1 }
count_removal by_evict st = st
count_removal by_delete st = st

unfoldable pub removal_event : Reason → CacheKey → Event
removal_event by_expire k = expire k
removal_event by_evict k = evict k
removal_event by_delete k = deleted k

abbrev pub exceeds : Option ℕ → ℕ → Bool
exceeds none n = false
exceeds (some m) n = ltb m n
