-- ===== src/Eviction/Adaptive/History.antt =====
-- What the engine remembers of its switches.
use distributive_cache.Base.{
  ℕ, ◌+◌, ◌≤◌, ◌≡◌, refl, ◌≢◌, inl, inr, List, [], ◌∷◌, ◌++◌, arith, ltb, length, length-append,
  if◌then◌else◌, Text, Bool-cases, ◌∙◌, sym, subst,
}
use distributive_cache.Shared.{CacheKey, CacheEntry, EvictionPolicyType}
use distributive_cache.Shared.Numbers.{Numbers}
use distributive_cache.Storage.{Event, hit, miss, written, deleted, expire, evict}
use distributive_cache.Eviction.Monitor.{WorkloadSignals, compute_signals}
use distributive_cache.Eviction.Rules.{decide_policy}
use distributive_cache.Eviction.Policy.{
  policy_type, create_eviction_policy, type-create, type-seed, type-record,
}
use distributive_cache.Eviction.Adaptive.{
  Adaptive, AdaptiveOptions, PolicySwitchEvent, same_type, shift, record_access, record_write,
  record_removal, on_storage_event, pause_auto_switch, resume_auto_switch, switch_to, get_signals,
  force_switch, evaluate, new_engine,
}
use distributive_cache.Eviction.Adaptive.Switching.{same_type-false, choose_ind}

-- Each switch is away from the policy that the one before it went to, and the last one went to `t`.
abbrev pub Follows : {F : Type 0} → List (PolicySwitchEvent F) → EvictionPolicyType → Type 0
Follows [] t = Unit
Follows (e ∷ []) t = (e.from_policy ≢ e.to_policy) × (e.to_policy ≡ t)
Follows (e ∷ f ∷ es) t =
    (e.from_policy ≢ e.to_policy) × (e.to_policy ≡ f.from_policy) × Follows (f ∷ es) t

module _ {F : Type 0} where
  follows_shift :
      (es : List (PolicySwitchEvent F)) (t : EvictionPolicyType)
      → Follows es t
      → Follows (shift es) t
  follows_shift [] t h = tt
  follows_shift (e ∷ []) t h = tt
  follows_shift (e ∷ f ∷ es) t h = h.2

  follows-append :
      (es : List (PolicySwitchEvent F)) (t : EvictionPolicyType) (e : PolicySwitchEvent F)
      → Follows es t
      → e.from_policy ≡ t
      → e.from_policy ≢ e.to_policy
      → Follows (es ++ (e ∷ [])) e.to_policy
  follows-append [] t e h from ne = (ne, refl)
  follows-append (d ∷ []) t e h from ne = (h.0, h.1 ∙ sym from, (ne, refl))
  follows-append (d ∷ f ∷ es) t e h from ne = (h.0, h.1, follows-append (f ∷ es) t e h.2 from ne)

  length-shift : (es : List (PolicySwitchEvent F)) → length (shift es) ≤ length es
  length-shift [] = omega arith
  length-shift (e ∷ es) = omega arith

  length-shift_le :
      (es : List (PolicySwitchEvent F)) (m : ℕ) → length es ≤ m + 1 → length (shift es) ≤ m
  length-shift_le [] m h = omega arith
  length-shift_le (e ∷ es) m h = omega arith

  abbrev trimmed : ℕ → List (PolicySwitchEvent F) → List (PolicySwitchEvent F)
  trimmed m es = if ltb m (length es) then shift es else es

  follows_trimmed :
      (m : ℕ) (es : List (PolicySwitchEvent F)) (t : EvictionPolicyType)
      → Follows es t
      → Follows (trimmed m es) t
  follows_trimmed m es t h = elim (Bool-cases (ltb m (length es))) [
    | inl e ↦ rw e (follows_shift es t h)
    | inr e ↦ rw e h
  ]

  length-trimmed-le :
      (m : ℕ) (es : List (PolicySwitchEvent F)) → length es ≤ m + 1 → length (trimmed m es) ≤ m
  length-trimmed-le m es h = ground (arith, length-shift_le es m)

  -- What the engine remembers: no more switches than its limit, in one chain up to the active policy.
  pub record IsRecorded (s : Adaptive F) : Type 0 where
    pub bounded : length s.switch_history ≤ s.options.max_history_length
    pub chained : Follows s.switch_history (policy_type s.active)

  module _ {V : Type 0} (policy : EvictionPolicyType) (reason : Text) (signals : WorkloadSignals F)
      (now : ℕ) (entries : List (CacheEntry V)) (s : Adaptive F) where
    pub switch_to-IsRecorded :
        IsRecorded s → IsRecorded (switch_to policy reason signals now entries s)
    unfolding switch_to
    switch_to-IsRecorded v = elim (Bool-cases (same_type policy (policy_type s.active))) [
      | inl e ↦ rw (e, switch_to) v
      | inr e ↦
          let event : PolicySwitchEvent F = record {
            timestamp = now;
            from_policy = policy_type s.active;
            to_policy = policy;
            reason = reason;
            signals = signals;
          } in
          let ne : policy_type s.active ≢ policy =
            λ same. same_type-false policy (policy_type s.active) e (sym same) in
          let m = s.options.max_history_length in
          rw (e, switch_to)
            (record {
              bounded =
                  length-trimmed-le m _
                    (omega (arith, length-append s.switch_history (event ∷ []), v.bounded));
              chained =
                  rw (type-seed entries (create_eviction_policy policy), type-create policy)
                    (follows_trimmed m _ policy (
                      follows-append s.switch_history (policy_type s.active) event v.chained refl
                        ne));
            })
    ]

module _ {F : Type 0} where
  -- Nothing that is recorded has changed.
  still-IsRecorded :
      (s t : Adaptive F)
      → t.switch_history ≡ s.switch_history
      → t.options ≡ s.options
      → policy_type t.active ≡ policy_type s.active
      → IsRecorded s
      → IsRecorded t
  still-IsRecorded s t history options active v = record {
    bounded =
        subst (λ o. length t.switch_history ≤ o.max_history_length) (sym options)
          (subst (λ h. length h ≤ s.options.max_history_length) (sym history) v.bounded);
    chained =
        subst (Follows t.switch_history) (sym active)
          (subst (λ h. Follows h (policy_type s.active)) (sym history) v.chained);
  }

-- What happens to an engine: calls of the hook, events of the store, evaluations by its timer, and orders.
pub data Input (F V : Type 0) : Type 0 where
  accesses writes removes : CacheKey → Input F V
  hears : Event → Input F V
  evaluates : F → ℕ → ℕ → List (CacheEntry V) → Input F V
  forces : EvictionPolicyType → Text → F → ℕ → List (CacheEntry V) → Input F V
  pauses resumes : Input F V

module _ {F V : Type 0} (n : Numbers F) where
  unfoldable pub step : Input F V → Adaptive F → Adaptive F
  step (accesses k) s = record_access k s
  step (writes k) s = record_write k s
  step (removes k) s = record_removal k s
  step (hears e) s = on_storage_event e s
  step (evaluates memory now switched_at entries) s = evaluate n memory now switched_at entries s
  step (forces policy reason memory now entries) s =
      force_switch n policy reason memory now entries s
  step pauses s = pause_auto_switch s
  step resumes s = resume_auto_switch s

  unfoldable pub run : List (Input F V) → Adaptive F → Adaptive F
  run [] s = s
  run (i ∷ is) s = run is (step i s)

  step-IsRecorded : (i : Input F V) (s : Adaptive F) → IsRecorded s → IsRecorded (step i s)
  unfolding step record_access record_write record_removal on_storage_event pause_auto_switch
      resume_auto_switch force_switch get_signals evaluate
  step-IsRecorded (accesses k) s v = still-IsRecorded s _ refl refl (type-record k s.active).0 v
  step-IsRecorded (writes k) s v = still-IsRecorded s _ refl refl (type-record k s.active).1 v
  step-IsRecorded (removes k) s v = still-IsRecorded s _ refl refl (type-record k s.active).2 v
  step-IsRecorded (hears (hit k)) s v = still-IsRecorded s _ refl refl refl v
  step-IsRecorded (hears (miss k)) s v = still-IsRecorded s _ refl refl refl v
  step-IsRecorded (hears (written k)) s v = still-IsRecorded s _ refl refl refl v
  step-IsRecorded (hears (deleted k)) s v = v
  step-IsRecorded (hears (expire k)) s v = v
  step-IsRecorded (hears (evict k)) s v = v
  step-IsRecorded (evaluates memory now switched_at entries) s v =
      let r = compute_signals n memory s.monitor in
      let s' : Adaptive F = record s { monitor = r.1 } in
      let v' : IsRecorded s' = still-IsRecorded s s' refl refl refl v in
      let decision = decide_policy n r.0 in
      choose_ind IsRecorded s.auto_switch_enabled
        (ltb r.0.window_sample_count s.options.min_samples_before_switch)
        (same_type decision.policy (policy_type s.active))
        (ltb now (s.last_switch_at + s.options.cooldown_ms)) s s'
        (switch_to decision.policy decision.reason r.0 switched_at entries s') (λ _. v) (λ _. v')
        (λ _. v') (λ _. v')
        (λ _ _ _ _.
          switch_to-IsRecorded decision.policy decision.reason r.0 switched_at entries s' v')
  step-IsRecorded (forces policy reason memory now entries) s v =
      let r = compute_signals n memory s.monitor in
      switch_to-IsRecorded policy reason r.0 now entries (record s { monitor = r.1 })
        (still-IsRecorded s _ refl refl refl v)
  step-IsRecorded pauses s v = still-IsRecorded s _ refl refl refl v
  step-IsRecorded resumes s v = still-IsRecorded s _ refl refl refl v

  -- Through any calls, evaluations and orders the engine remembers no more switches than its limit. Each of them
  -- leaves one policy for another, each begins where the one before it ended, and the last one ended at the
  -- active policy.
  pub run-IsRecorded :
      (is : List (Input F V)) (s : Adaptive F) → IsRecorded s → IsRecorded (run is s)
  unfolding run
  run-IsRecorded [] s v = v
  run-IsRecorded (i ∷ is) s v = run-IsRecorded is (step i s) (step-IsRecorded i s v)

pub new_engine-IsRecorded :
    {F : Type 0} (n : Numbers F) (o : AdaptiveOptions) → IsRecorded (new_engine n o)
unfolding new_engine
new_engine-IsRecorded n o = record { bounded = omega arith; chained = tt }
