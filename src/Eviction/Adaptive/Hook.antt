-- ===== src/Eviction/Adaptive/Hook.antt =====
-- The engine as the hook of a store.
use distributive_cache.Base.{text_keyed}
use distributive_cache.Storage.{EvictionHook}
use distributive_cache.Storage.Rounds.{IsLawful}
use distributive_cache.Eviction.Policy.{select_victim-offered}
use distributive_cache.Eviction.Adaptive.{
  Adaptive, record_access, record_write, record_removal, select_victim,
}

abbrev pub adaptive_hook : {F : Type 0} → EvictionHook (Adaptive F)
adaptive_hook = record {
  record_access = record_access;
  record_write = record_write;
  record_removal = record_removal;
  select_victim = select_victim;
}

-- Whatever policy is active, a victim that the engine chooses is one of the candidates.
pub adaptive-IsLawful : {F : Type 0} → IsLawful (adaptive_hook {F = F})
unfolding select_victim
adaptive-IsLawful = record { chosen = λ ks s v h. select_victim-offered ks s.active v h }
