-- ===== src/Eviction/Policy.antt =====
-- packages/eviction/src/EvictionPolicy.ts and PolicyFactory.ts: the three policies behind one interface. A value
-- of the interface is the state of one of the classes.
use distributive_cache.Base.{
  ◌*◌, ◌≡◌, refl, true, Option, some, List, [], ◌∷◌, arith, includes, replicate, text_keyed, All,
}
use distributive_cache.Shared.{CacheKey, CacheEntry, EvictionPolicyType, lru, lfu, tiny_lfu}
use distributive_cache.Eviction.Lru
use distributive_cache.Eviction.Lru.{Lru, touch, empty_lru, least_recently_used, first_key}
use distributive_cache.Eviction.Lru.Victim.{Offered, least_recently_used-bounds}
use distributive_cache.Eviction.Lfu
use distributive_cache.Eviction.Lfu.{Lfu, bump, empty_lfu}
use distributive_cache.Eviction.Lfu.Victim.{lfu-IsLawful}
use distributive_cache.Eviction.TinyLfu
use distributive_cache.Eviction.TinyLfu.{TinyLfu, create_with, default_bottom_k, record_use}
use distributive_cache.Eviction.TinyLfu.Victim.{victim_of}
use distributive_cache.Eviction.Sketch.{
  Sketch, default_width, default_depth, default_aging_threshold,
}

pub data EvictionPolicy : Type 0 where
  lru_policy : Lru → EvictionPolicy
  lfu_policy : Lfu → EvictionPolicy
  tiny_lfu_policy : TinyLfu → EvictionPolicy

unfoldable pub policy_type : EvictionPolicy → EvictionPolicyType
policy_type (lru_policy s) = lru
policy_type (lfu_policy s) = lfu
policy_type (tiny_lfu_policy s) = tiny_lfu

-- `new CountMinSketch()`
unfoldable pub default_sketch : Sketch
default_sketch = record {
  width = default_width;
  depth = default_depth;
  aging_threshold = default_aging_threshold;
  table = replicate (default_width * default_depth) 0;
  additions_since_aging = 0;
}

unfoldable pub create_eviction_policy : EvictionPolicyType → EvictionPolicy
create_eviction_policy lru = lru_policy empty_lru
create_eviction_policy lfu = lfu_policy empty_lfu
create_eviction_policy tiny_lfu = tiny_lfu_policy (create_with default_bottom_k default_sketch)

unfoldable pub record_access : CacheKey → EvictionPolicy → EvictionPolicy
record_access k (lru_policy s) = lru_policy (touch k s)
record_access k (lfu_policy s) = lfu_policy (bump k s)
record_access k (tiny_lfu_policy s) = tiny_lfu_policy (record_use k s)

unfoldable pub record_write : CacheKey → EvictionPolicy → EvictionPolicy
record_write k (lru_policy s) = lru_policy (touch k s)
record_write k (lfu_policy s) = lfu_policy (Lfu.record_write k s)
record_write k (tiny_lfu_policy s) = tiny_lfu_policy (record_use k s)

unfoldable pub record_removal : CacheKey → EvictionPolicy → EvictionPolicy
record_removal k (lru_policy s) = lru_policy (Lru.record_removal k s)
record_removal k (lfu_policy s) = lfu_policy (Lfu.record_removal k s)
record_removal k (tiny_lfu_policy s) = tiny_lfu_policy (TinyLfu.record_removal k s)

unfoldable pub select_victim : List CacheKey → EvictionPolicy → Option CacheKey
select_victim ks (lru_policy s) = Lru.select_victim ks s
select_victim ks (lfu_policy s) = Lfu.select_victim ks s
select_victim ks (tiny_lfu_policy s) = TinyLfu.select_victim ks s

unfoldable pub seed : {V : Type 0} → List (CacheEntry V) → EvictionPolicy → EvictionPolicy
seed entries (lru_policy s) = lru_policy (Lru.seed entries)
seed entries (lfu_policy s) = lfu_policy (Lfu.seed entries)
seed entries (tiny_lfu_policy s) = tiny_lfu_policy (TinyLfu.seed entries s)

lru-offered :
    (ks : List CacheKey) (s : Lru) (v : CacheKey)
    → Lru.select_victim ks s ≡ some v
    → includes v ks ≡ true
unfolding Lru.select_victim
lru-offered ks s v h =
    first_offered (least_recently_used ks 1 s) h (least_recently_used-bounds s ks 1).0
  where
    first_offered :
        (found : List CacheKey)
        → first_key found ≡ some v
        → All (Offered ks) found
        → includes v ks ≡ true
    first_offered [] e a = cc
    first_offered (k ∷ rest) e a = ground (arith, a.0)

offered_too :
    (ks : List CacheKey) (found : Option CacheKey) (w v : CacheKey)
    → found ≡ some w
    → found ≡ some v
    → includes w ks ≡ true
    → includes v ks ≡ true
offered_too ks found w v e h offered = ground arith

tiny_lfu-offered :
    (ks bottom : List CacheKey) (s : TinyLfu) (v : CacheKey)
    → least_recently_used ks s.bottom_k s.recency ≡ bottom
    → TinyLfu.select_victim ks s ≡ some v
    → includes v ks ≡ true
unfolding TinyLfu.select_victim
tiny_lfu-offered ks [] s v e h = lru-offered ks s.recency v (rw (e, TinyLfu.select_victim) at h)
tiny_lfu-offered ks (b ∷ bs) s v e h =
    let (w, chosen, offered, rarer) = victim_of ks (b ∷ bs) s e (λ none_left. cc) in
    offered_too ks (TinyLfu.select_victim ks s) w v chosen h offered

-- Whatever policy it is, and whatever its state, a victim is one of the candidates.
pub select_victim-offered :
    (ks : List CacheKey) (s : EvictionPolicy) (v : CacheKey)
    → select_victim ks s ≡ some v
    → includes v ks ≡ true
unfolding select_victim
select_victim-offered ks (lru_policy s) v h = lru-offered ks s v h
select_victim-offered ks (lfu_policy s) v h = lfu-IsLawful.chosen ks s v h
select_victim-offered ks (tiny_lfu_policy s) v h = tiny_lfu-offered ks _ s v refl h

pub type-create : (t : EvictionPolicyType) → policy_type (create_eviction_policy t) ≡ t
unfolding policy_type create_eviction_policy
type-create lru = refl
type-create lfu = refl
type-create tiny_lfu = refl

pub type-seed :
    {V : Type 0} (entries : List (CacheEntry V)) (p : EvictionPolicy)
    → policy_type (seed entries p) ≡ policy_type p
unfolding policy_type seed
type-seed entries (lru_policy s) = refl
type-seed entries (lfu_policy s) = refl
type-seed entries (tiny_lfu_policy s) = refl

-- The calls of a hook do not change the class.
pub type-record :
    (k : CacheKey) (p : EvictionPolicy)
    → (policy_type (record_access k p) ≡ policy_type p)
      × (policy_type (record_write k p) ≡ policy_type p)
      × (policy_type (record_removal k p) ≡ policy_type p)
unfolding policy_type record_access record_write record_removal
type-record k (lru_policy s) = (refl, refl, refl)
type-record k (lfu_policy s) = (refl, refl, refl)
type-record k (tiny_lfu_policy s) = (refl, refl, refl)
