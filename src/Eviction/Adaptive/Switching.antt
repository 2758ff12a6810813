-- ===== src/Eviction/Adaptive/Switching.antt =====
-- When the engine switches, and what it remembers of it.
use distributive_cache.Base.{
  ℕ, ◌+◌, ◌≤◌, ◌≡◌, refl, ◌≢◌, ◌⊎◌, inl, inr, Bool, true, false, not, List, arith, ltb,
  if◌then◌else◌, Text, Bool-cases, ◌∙◌, sym,
}
use distributive_cache.Shared.{CacheEntry, EvictionPolicyType, lru, lfu, tiny_lfu}
use distributive_cache.Shared.Numbers.{Numbers}
use distributive_cache.Eviction.Monitor.{WorkloadSignals, compute_signals}
use distributive_cache.Eviction.Rules.{decide_policy}
use distributive_cache.Eviction.Policy.{policy_type, create_eviction_policy, type-create, type-seed}
use distributive_cache.Eviction.Adaptive.{Adaptive, same_type, switch_to, get_signals, evaluate}

pub same_type-true : (a b : EvictionPolicyType) → same_type a b ≡ true → a ≡ b
same_type-true lru lru h = refl
same_type-true lfu lfu h = refl
same_type-true tiny_lfu tiny_lfu h = refl
same_type-true lru lfu h = cc
same_type-true lru tiny_lfu h = cc
same_type-true lfu lru h = cc
same_type-true lfu tiny_lfu h = cc
same_type-true tiny_lfu lru h = cc
same_type-true tiny_lfu lfu h = cc

same_type_refl : (a : EvictionPolicyType) → same_type a a ≡ true
same_type_refl lru = refl
same_type_refl lfu = refl
same_type_refl tiny_lfu = refl

pub same_type-false : (a b : EvictionPolicyType) → same_type a b ≡ false → a ≢ b
same_type-false a b h e = cc (same_type_refl b)

module _ {F : Type 0} where
  module _ {V : Type 0} (policy : EvictionPolicyType) (reason : Text) (signals : WorkloadSignals F)
      (now : ℕ) (entries : List (CacheEntry V)) (s : Adaptive F) where
    pub switch_to-type : policy_type (switch_to policy reason signals now entries s).active ≡ policy
    unfolding switch_to
    switch_to-type = elim (Bool-cases (same_type policy (policy_type s.active))) [
      | inl e ↦ rw (e, switch_to) (sym (same_type-true policy (policy_type s.active) e))
      | inr e ↦
          rw (e, switch_to) (type-seed entries (create_eviction_policy policy) ∙ type-create policy)
    ]

    pub switch_to-at :
        same_type policy (policy_type s.active) ≡ false
        → (switch_to policy reason signals now entries s).last_switch_at ≡ now
    unfolding switch_to
    switch_to-at h = rw (h, switch_to) refl

module _ {F : Type 0} (n : Numbers F) where
  -- The policy that the signals of now call for.
  abbrev pub wanted : F → Adaptive F → EvictionPolicyType
  wanted memory s = (decide_policy n (compute_signals n memory s.monitor).0).policy

  -- The engine may switch: it is not paused, has seen enough operations, is past the cooldown, and the signals
  -- call for another policy.
  abbrev pub IsDue : F → ℕ → Adaptive F → Type 0
  IsDue memory now s =
      (s.auto_switch_enabled ≡ true)
      × (s.options.min_samples_before_switch
          ≤ (compute_signals n memory s.monitor).0.window_sample_count)
      × (wanted memory s ≢ policy_type s.active)
      × (s.last_switch_at + s.options.cooldown_ms ≤ now)

-- The nested tests of `evaluate`.
pub choose_ind :
    {A : Type 0} (P : A → Type 0) (auto few same hot : Bool) (x y z : A)
    → (auto ≡ false → P x)
    → (few ≡ true → P y)
    → (same ≡ true → P y)
    → (hot ≡ true → P y)
    → (auto ≡ true → few ≡ false → same ≡ false → hot ≡ false → P z)
    → P (if not auto then x else if few then y else if same then y else if hot then y else z)
choose_ind P false few same hot x y z f g h i j = f refl
choose_ind P true true same hot x y z f g h i j = g refl
choose_ind P true false true hot x y z f g h i j = h refl
choose_ind P true false false true x y z f g h i j = i refl
choose_ind P true false false false x y z f g h i j = j refl refl refl refl

module _ {F V : Type 0} (n : Numbers F) where
  -- An evaluation switches exactly if a switch is due: then the wanted policy is active and the cooldown starts
  -- anew, and otherwise the policy, its last switch and the history stay.
  pub evaluate_cases :
      (memory : F) (now switched_at : ℕ) (entries : List (CacheEntry V)) (s : Adaptive F)
      → let s' = evaluate n memory now switched_at entries s in
        (IsDue n memory now s
          × (policy_type s'.active ≡ wanted n memory s)
          × (s'.last_switch_at ≡ switched_at))
        ⊎ ((¬ IsDue n memory now s)
            × (s'.active ≡ s.active)
            × (s'.last_switch_at ≡ s.last_switch_at)
            × (s'.switch_history ≡ s.switch_history))
  unfolding evaluate get_signals
  evaluate_cases memory now switched_at entries s =
      let r = compute_signals n memory s.monitor in
      let s' : Adaptive F = record s { monitor = r.1 } in
      let decision = decide_policy n r.0 in
      choose_ind
        (λ t.
          (IsDue n memory now s
            × (policy_type t.active ≡ wanted n memory s)
            × (t.last_switch_at ≡ switched_at))
          ⊎ ((¬ IsDue n memory now s)
              × (t.active ≡ s.active)
              × (t.last_switch_at ≡ s.last_switch_at)
              × (t.switch_history ≡ s.switch_history)))
        s.auto_switch_enabled (ltb r.0.window_sample_count s.options.min_samples_before_switch)
        (same_type decision.policy (policy_type s.active))
        (ltb now (s.last_switch_at + s.options.cooldown_ms)) s s'
        (switch_to decision.policy decision.reason r.0 switched_at entries s')
        (λ off. inr (λ due. cc, refl, refl, refl))
        (λ few. inr (λ due. ground arith, refl, refl, refl))
        (λ same. inr (
          λ due. due.2 (same_type-true decision.policy (policy_type s.active) same),
          refl,
          refl,
          refl,
        ))
        (λ hot. inr (λ due. ground arith, refl, refl, refl))
        (λ on many new cool. inl (
          (
            on,
            ground arith,
            same_type-false decision.policy (policy_type s.active) new,
            ground arith,
          ),
          switch_to-type decision.policy decision.reason r.0 switched_at entries s',
          switch_to-at decision.policy decision.reason r.0 switched_at entries s' new,
        ))
