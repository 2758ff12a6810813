-- ===== src/Shared.antt =====
-- packages/shared/src/types.ts: the domain types that the services and packages share.
-- Counters, versions and epoch milliseconds are natural numbers, ids and keys are texts.
pub mod Errors
pub mod RingBuffer
pub mod Numbers
pub mod Config
use distributive_cache.Base.{ℕ, Option, Bool, Text}

abbrev pub CacheKey : Type 0
CacheKey = Text

abbrev pub NodeId : Type 0
NodeId = Text

pub record CacheMetadata : Type 0 where
  pub version : ℕ
  pub created_at : ℕ
  pub updated_at : ℕ
  pub last_accessed_at : ℕ
  pub frequency : ℕ
  pub expires_at : Option ℕ
  pub size_bytes : ℕ

pub record CacheEntry (V : Type 0) : Type 0 where
  pub key : CacheKey
  pub value : V
  pub metadata : CacheMetadata

pub record StorageStats : Type 0 where
  pub entry_count : ℕ
  pub total_size_bytes : ℕ
  pub hits : ℕ
  pub misses : ℕ
  pub expirations : ℕ
  pub evictions : ℕ
  pub writes : ℕ
  pub deletes : ℕ

pub data EvictionPolicyType : Type 0 where
  lru lfu tiny_lfu : EvictionPolicyType

pub data NodeStatus : Type 0 where
  joining healthy suspect dead leaving : NodeStatus

pub record NodeInfo : Type 0 where
  pub node_id : NodeId
  pub host : Text
  pub port : ℕ
  pub status : NodeStatus
  pub last_heartbeat : ℕ
  pub weight : ℕ

pub record RingAssignment : Type 0 where
  pub node_id : NodeId
  pub virtual_node_hash : ℕ
