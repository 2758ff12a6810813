-- ===== src/Node/Requests/Pinning.antt =====
-- A policy that an operator pinned.
use distributive_cache.Base.{
  ℕ, ◌≡◌, refl, Bool, true, false, some, List, [], ◌∷◌, arith, ◌∙◌, ap, sym, subst, All, Text,
  Text-discrete,
}
use distributive_cache.Shared.{CacheEntry, EvictionPolicyType, lru, lfu, tiny_lfu}
use distributive_cache.Shared.Errors.{codes}
use distributive_cache.Shared.Numbers.{Numbers}
use distributive_cache.Storage.{Event, hit, miss, written, deleted, expire, evict}
use distributive_cache.Eviction.Monitor.{WorkloadSignals, compute_signals}
use distributive_cache.Eviction.Policy.{policy_type, type-record}
use distributive_cache.Eviction.Adaptive.{
  Adaptive, record_access, record_write, record_removal, on_storage_event, pause_auto_switch,
  switch_to, get_signals, force_switch, evaluate,
}
use distributive_cache.Eviction.Adaptive.Switching.{switch_to-type}
use distributive_cache.Eviction.Adaptive.History.{
  Input, accesses, writes, removes, hears, evaluates, forces, pauses, resumes, step, run,
}
use distributive_cache.Node.Requests.{policy_name, pinnable_policy, handle_policy}

-- An operator's order to switch, or to take up switching again.
unfoldable pub is_order : {F V : Type 0} → Input F V → Bool
is_order (forces policy reason memory now entries) = true
is_order resumes = true
is_order pauses = false
is_order (accesses k) = false
is_order (writes k) = false
is_order (removes k) = false
is_order (hears e) = false
is_order (evaluates memory now switched_at entries) = false

module _ {F : Type 0} where
  abbrev IsPinned : EvictionPolicyType → Adaptive F → Type 0
  IsPinned t s = (s.auto_switch_enabled ≡ false) × (policy_type s.active ≡ t)

  hears-IsPinned :
      (e : Event) (s : Adaptive F)
      → ((on_storage_event e s).auto_switch_enabled ≡ s.auto_switch_enabled)
        × ((on_storage_event e s).active ≡ s.active)
  unfolding on_storage_event
  hears-IsPinned (hit k) s = (refl, refl)
  hears-IsPinned (miss k) s = (refl, refl)
  hears-IsPinned (written k) s = (refl, refl)
  hears-IsPinned (deleted k) s = (refl, refl)
  hears-IsPinned (expire k) s = (refl, refl)
  hears-IsPinned (evict k) s = (refl, refl)

module _ {F V : Type 0} (n : Numbers F) where
  evaluate_paused :
      (memory : F) (now switched_at : ℕ) (entries : List (CacheEntry V)) (s : Adaptive F)
      → s.auto_switch_enabled ≡ false
      → evaluate n memory now switched_at entries s ≡ s
  unfolding evaluate
  evaluate_paused memory now switched_at entries s off = simp (off, evaluate)

  step-IsPinned :
      (i : Input F V) (t : EvictionPolicyType) (s : Adaptive F)
      → is_order i ≡ false
      → IsPinned t s
      → IsPinned t (step n i s)
  unfolding step is_order record_access record_write record_removal pause_auto_switch
  step-IsPinned (forces policy reason memory now entries) t s h p = absurd (cc)
  step-IsPinned resumes t s h p = absurd (cc)
  step-IsPinned pauses t s h p = (refl, p.1)
  step-IsPinned (accesses k) t s h p = (p.0, (type-record k s.active).0 ∙ p.1)
  step-IsPinned (writes k) t s h p = (p.0, (type-record k s.active).1 ∙ p.1)
  step-IsPinned (removes k) t s h p = (p.0, (type-record k s.active).2 ∙ p.1)
  step-IsPinned (hears e) t s h p =
      let (auto, same) = hears-IsPinned e s in (auto ∙ p.0, ap policy_type same ∙ p.1)
  step-IsPinned (evaluates memory now switched_at entries) t s h p =
      subst (IsPinned t) (sym (evaluate_paused memory now switched_at entries s p.0)) p

  run-IsPinned :
      (is : List (Input F V)) (t : EvictionPolicyType) (s : Adaptive F)
      → All (λ i. is_order i ≡ false) is
      → IsPinned t s
      → IsPinned t (run n is s)
  unfolding run
  run-IsPinned [] t s h p = p
  run-IsPinned (i ∷ is) t s h p = run-IsPinned is t (step n i s) h.1 (step-IsPinned i t s h.0 p)

  switch_to-auto :
      (policy : EvictionPolicyType) (reason : Text) (signals : WorkloadSignals F) (now : ℕ)
      (entries : List (CacheEntry V)) (s : Adaptive F)
      → (switch_to policy reason signals now entries s).auto_switch_enabled ≡ s.auto_switch_enabled
  unfolding switch_to
  switch_to-auto policy reason signals now entries s = ground arith

  -- The name of a policy is not that of the adaptive mode, and it names that policy.
  handle_policy-policy_name :
      (policy : EvictionPolicyType) (memory : F) (now : ℕ) (entries : List (CacheEntry V))
      (s : Adaptive F)
      → handle_policy n (some (policy_name policy)) memory now entries s
        ≡ some (
            force_switch n policy
              (codes "pinned via /internal/policy")
              memory
              now
              entries
              (pause_auto_switch s))
  unfolding handle_policy policy_name pinnable_policy Text-discrete
  handle_policy-policy_name lru memory now entries s = refl
  handle_policy-policy_name lfu memory now entries s = refl
  handle_policy-policy_name tiny_lfu memory now entries s = refl

  -- A request to pin a policy by its name is granted, and whatever the engine sees afterwards, evaluations included, the pinned
  -- policy stays active until an operator's next order.
  pub handle_policy-IsPinned :
      (policy : EvictionPolicyType) (memory : F) (now : ℕ) (entries : List (CacheEntry V))
      (s : Adaptive F) (is : List (Input F V))
      → All (λ i. is_order i ≡ false) is
      → (s' : Adaptive F) × (handle_policy n (some (policy_name policy)) memory now entries s
          ≡ some s')
        × (policy_type s'.active ≡ policy)
        × (policy_type (run n is s').active ≡ policy)
  unfolding force_switch get_signals pause_auto_switch
  handle_policy-IsPinned policy memory now entries s is h =
      let reason = codes "pinned via /internal/policy" in
      let paused = pause_auto_switch s in
      let r = compute_signals n memory paused.monitor in
      let s' = force_switch n policy reason memory now entries paused in
      let active = switch_to-type policy reason r.0 now entries (record paused { monitor = r.1 }) in
      let off = switch_to-auto policy reason r.0 now entries (record paused { monitor = r.1 }) in
      (
        s',
        handle_policy-policy_name policy memory now entries s,
        active,
        (run-IsPinned is policy s' h (off, active)).1,
      )
