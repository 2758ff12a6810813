-- ===== src/Eviction/Adaptive.antt =====
-- packages/eviction/src/AdaptiveEvictionEngine.ts: an eviction hook that passes every call to the active policy
-- and from time to time switches to the one that the observed workload calls for. The clock, the memory ratio
-- and the current entries are arguments of a step.
pub mod Switching
pub mod History
pub mod Hook
use distributive_cache.Base.{
  ℕ, ◌+◌, ltb, Bool, true, false, not, ◌||◌, Option, none, some, List, [], ◌∷◌, ◌++◌, length,
  if◌then◌else◌, Text,
}
use distributive_cache.Shared.{CacheKey, CacheEntry, EvictionPolicyType, lru, lfu, tiny_lfu}
use distributive_cache.Shared.Numbers.{Numbers}
use distributive_cache.Storage.{Event, hit, miss, written, deleted, expire, evict}
use distributive_cache.Eviction.Monitor
use distributive_cache.Eviction.Monitor.{
  WorkloadSignals, WorkloadMonitor, compute_signals, new_monitor,
}
use distributive_cache.Eviction.Rules.{decide_policy}
use distributive_cache.Eviction.Policy
use distributive_cache.Eviction.Policy.{EvictionPolicy, policy_type, create_eviction_policy}

pub record AdaptiveOptions : Type 0 where
  pub initial_policy : EvictionPolicyType
  pub min_samples_before_switch : ℕ
  pub cooldown_ms : ℕ
  pub max_history_length : ℕ

abbrev pub default_options : AdaptiveOptions
default_options = record {
  initial_policy = lru;
  min_samples_before_switch = 200;
  cooldown_ms = 15000;
  max_history_length = 200;
}

pub record PolicySwitchEvent (F : Type 0) : Type 0 where
  pub timestamp : ℕ
  pub from_policy : EvictionPolicyType
  pub to_policy : EvictionPolicyType
  pub reason : Text
  pub signals : WorkloadSignals F

pub record Adaptive (F : Type 0) : Type 0 where
  pub active : EvictionPolicy
  pub monitor : WorkloadMonitor F
  pub options : AdaptiveOptions
  pub last_switch_at : ℕ
  pub switch_history : List (PolicySwitchEvent F)
  pub auto_switch_enabled : Bool

abbrev pub same_type : EvictionPolicyType → EvictionPolicyType → Bool
same_type lru lru = true
same_type lfu lfu = true
same_type tiny_lfu tiny_lfu = true
same_type lru lfu = false
same_type lru tiny_lfu = false
same_type lfu lru = false
same_type lfu tiny_lfu = false
same_type tiny_lfu lru = false
same_type tiny_lfu lfu = false

-- `shift`
abbrev pub shift : {A : Type 0} → List A → List A
shift [] = []
shift (x ∷ xs) = xs

module _ {F : Type 0} where
  unfoldable pub record_access : CacheKey → Adaptive F → Adaptive F
  record_access k s = record s { active = Policy.record_access k s.active }

  unfoldable pub record_write : CacheKey → Adaptive F → Adaptive F
  record_write k s = record s { active = Policy.record_write k s.active }

  unfoldable pub record_removal : CacheKey → Adaptive F → Adaptive F
  record_removal k s = record s { active = Policy.record_removal k s.active }

  unfoldable pub select_victim : List CacheKey → Adaptive F → Option CacheKey
  select_victim ks s = Policy.select_victim ks s.active

  -- The listeners of `attachStorage`.
  unfoldable pub on_storage_event : Event → Adaptive F → Adaptive F
  on_storage_event (hit k) s = record s { monitor = Monitor.record_hit k s.monitor }
  on_storage_event (miss k) s = record s { monitor = Monitor.record_miss k s.monitor }
  on_storage_event (written k) s = record s { monitor = Monitor.record_write k s.monitor }
  on_storage_event (deleted k) s = s
  on_storage_event (expire k) s = s
  on_storage_event (evict k) s = s

  unfoldable pub pause_auto_switch : Adaptive F → Adaptive F
  pause_auto_switch s = record s { auto_switch_enabled = false }

  unfoldable pub resume_auto_switch : Adaptive F → Adaptive F
  resume_auto_switch s = record s { auto_switch_enabled = true }

  -- The event is also emitted as `policySwitch`.
  unfoldable pub switch_to :
      {V : Type 0}
      → EvictionPolicyType
      → Text
      → WorkloadSignals F
      → ℕ
      → List (CacheEntry V)
      → Adaptive F
      → Adaptive F
  switch_to policy reason signals now entries s =
      let event : PolicySwitchEvent F = record {
        timestamp = now;
        from_policy = policy_type s.active;
        to_policy = policy;
        reason = reason;
        signals = signals;
      } in
      let history = s.switch_history ++ (event ∷ []) in
      if same_type policy (policy_type s.active) then s else record s {
        active = Policy.seed entries (create_eviction_policy policy);
        last_switch_at = now;
        switch_history =
            if ltb s.options.max_history_length (length history) then shift history else history;
      }

module _ {F : Type 0} (n : Numbers F) where
  unfoldable pub new_engine : AdaptiveOptions → Adaptive F
  new_engine o = record {
    active = create_eviction_policy o.initial_policy;
    monitor = new_monitor n;
    options = o;
    last_switch_at = 0;
    switch_history = [];
    auto_switch_enabled = true;
  }

  -- `getSignals`, which also slides the monitor's window.
  unfoldable pub get_signals : F → Adaptive F → WorkloadSignals F × Adaptive F
  get_signals memory s =
      let r = compute_signals n memory s.monitor in (r.0, record s { monitor = r.1 })

  unfoldable pub force_switch :
      {V : Type 0}
      → EvictionPolicyType
      → Text
      → F
      → ℕ
      → List (CacheEntry V)
      → Adaptive F
      → Adaptive F
  unfolding get_signals
  force_switch policy reason memory now entries s =
      let r = get_signals memory s in switch_to policy reason r.0 now entries r.1

  -- `evaluate`; the clock is read at the test of the cooldown, and again at the switch.
  unfoldable pub evaluate : {V : Type 0} → F → ℕ → ℕ → List (CacheEntry V) → Adaptive F → Adaptive F
  evaluate memory now switched_at entries s =
      let r = get_signals memory s in
      let s' = r.1 in
      let decision = decide_policy n r.0 in
      if not s.auto_switch_enabled
      then s
      else if ltb r.0.window_sample_count s'.options.min_samples_before_switch
      then s'
      else if same_type decision.policy (policy_type s'.active)
      then s'
      else if ltb now (s'.last_switch_at + s'.options.cooldown_ms)
      then s'
      else switch_to decision.policy decision.reason r.0 switched_at entries s'
