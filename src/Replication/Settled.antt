-- ===== src/Replication/Settled.antt =====
-- ReplicationEngine.ts: when the promise of a write is resolved, by the acks and the timer of its event.
use distributive_cache.Base.{
  ◌≡◌, refl, ◌≢◌, Bool, true, false, none, some, List, [], ◌∷◌, arith, if◌then◌else◌, ite, includes,
  add_to_set, text_keyed, Text-discrete, Bool-cases, inl, inr, ◌⊎◌, is_some, ap, sym, subst, ◌∙◌,
  All,
}
use distributive_cache.Base.Dict
use distributive_cache.Shared.{NodeId}
use distributive_cache.Replication.{
  EventId, ReplicationAck, AckWaiter, Engine, Effect, to_set, register_ack_waiter, handle_timeout,
  handle_ack, all_acked, with_ack,
}
use distributive_cache.Replication.Acks.{
  Input, registers, acked, times_out, Spares, run, step, resolutions, resolutions-append,
}
use distributive_cache.Replication.Sets.{
  includes-set, all_acked-set, new_missing, to_set-All, all_acked-false, all_acked-All,
  all_acked-to_set,
}
use distributive_cache.Replication.Steps.{
  IsResolved, IsPending, timeout_same, timeout_other, ack_other, ack_last, ack_early,
  run-IsResolved,
}

-- The nodes whose successful ack of the event is among the inputs.
unfoldable pub senders : EventId → List Input → List NodeId
senders id [] = []
senders id (registers j t ts ∷ is) = senders id is
senders id (acked a ∷ is) =
    let rest = senders id is in
    if a.success then ite (Text-discrete a.event_id id) (a.replica_node_id ∷ rest) rest else rest
senders id (times_out j ∷ is) = senders id is

-- The timer of the event is among the inputs.
unfoldable pub fires : EventId → List Input → Bool
fires id [] = false
fires id (registers j t ts ∷ is) = fires id is
fires id (acked a ∷ is) = fires id is
fires id (times_out j ∷ is) = let rest = fires id is in ite (Text-discrete j id) true rest

fires_other :
    (id j : EventId) (is : List Input) → j ≢ id → fires id is ≡ fires id (times_out j ∷ is)
unfolding fires
fires_other id j is n = ground (arith, n)

senders_stray :
    (id : EventId) (a : ReplicationAck) (is : List Input)
    → a.event_id ≢ id
    → senders id is ≡ senders id (acked a ∷ is)
unfolding senders
senders_stray id a is n = ground (arith, n)

senders_failed :
    (id : EventId) (a : ReplicationAck) (is : List Input)
    → a.success ≡ false
    → senders id is ≡ senders id (acked a ∷ is)
unfolding senders
senders_failed id a is e = ground (arith, e)

senders_good :
    (id : EventId) (a : ReplicationAck) (is : List Input)
    → a.event_id ≡ id
    → a.success ≡ true
    → a.replica_node_id ∷ senders id is ≡ senders id (acked a ∷ is)
unfolding senders
senders_good id a is p e = ground (arith, p, e)

module _ {V : Type 0} where
  abbrev Outcome : EventId → List NodeId → Bool → List NodeId → Engine × List (Effect V) → Type 0
  Outcome id ts fired acks r =
      (((fired ≡ true) ⊎ (all_acked ts acks ≡ true)) × IsResolved id r)
      ⊎ ((fired ≡ false)
          × (all_acked ts acks ≡ false)
          × IsPending id (record { target_node_ids = ts; acked_by = acks }) r)

module _ (V : Type 0) (id : EventId) where
  run-Outcome :
      (i : Input) (is : List Input) (e : Engine) (ts acks : List NodeId) (fired : Bool)
      → resolutions id (step {V = V} i e).1 ≡ 0
      → Outcome id ts fired acks (run {V = V} is (step {V = V} i e).0)
      → Outcome id ts fired acks (run {V = V} (i ∷ is) e)
  unfolding run
  run-Outcome i is e ts acks fired none_yet h =
      let r = step {V = V} i e in
      ground (arith, none_yet, h, resolutions-append id r.1 (run is r.0).1)

  -- An ack of the event makes the waiter `w'` of the waiter `w`, and `next` is what follows for `w'`.
  acked-Outcome :
      (a : ReplicationAck) (is : List Input) (e : Engine) (w w' : AckWaiter)
      → Spares id is
      → Dict.get id e.pending_acks ≡ some w
      → a.event_id ≡ id
      → with_ack a w ≡ w'
      → ((e' : Engine)
          → Dict.get id e'.pending_acks ≡ some w'
          → all_acked w'.target_node_ids w'.acked_by ≡ false
          → Outcome id w'.target_node_ids
              (fires id is)
              (to_set w'.acked_by (senders id is))
              (run {V = V} is e'))
      → Outcome id w'.target_node_ids
          (fires id is)
          (to_set w'.acked_by (senders id is))
          (run {V = V} (acked a ∷ is) e)
  unfolding step
  acked-Outcome a is e w w' s held p becomes next =
      let held' : Dict.get a.event_id e.pending_acks ≡ some w =
        ap (λ j. Dict.get j e.pending_acks) p ∙ held in
      let same = ap (λ x. all_acked x.target_node_ids x.acked_by) becomes in
      elim (Bool-cases (all_acked w'.target_node_ids w'.acked_by)) [
        | inl all ↦ inl (
          inr (all_acked-to_set w'.target_node_ids w'.acked_by (senders id is) all),
          run-IsResolved V id (acked a) is e s (
              subst (λ j. IsResolved j (handle_ack {V = V} a e)) p
                (ack_last V a w e held' (same ∙ all))),
        )
        | inr left ↦
            let (waits, silent) =
              subst (λ j. IsPending j (with_ack a w) (handle_ack {V = V} a e)) p
                (ack_early V a w e held' (same ∙ left)) in
            run-Outcome (acked a) is e w'.target_node_ids (to_set w'.acked_by (senders id is))
              (fires id is) silent (next (handle_ack {V = V} a e).0 (waits ∙ ap some becomes) left)
      ]

  -- What becomes of a waiter that misses an ack.
  waiter-Outcome :
      (is : List Input) (e : Engine) (w : AckWaiter)
      → Spares id is
      → Dict.get id e.pending_acks ≡ some w
      → all_acked w.target_node_ids w.acked_by ≡ false
      → Outcome id w.target_node_ids
          (fires id is)
          (to_set w.acked_by (senders id is))
          (run {V = V} is e)
  unfolding run step register_ack_waiter senders fires to_set
  waiter-Outcome [] e w s held missing = inr (refl, missing, (held, refl))
  waiter-Outcome (registers j t ts ∷ is) e w s held missing =
      waiter-Outcome is (register_ack_waiter j (t ∷ ts) e) w s.1
        (Dict.get-set_ne j id _ e.pending_acks s.0 ∙ held) missing
  waiter-Outcome (times_out j ∷ is) e w s held missing = elim (Text-discrete j id) [
    | yes p ↦ inl (
      inl (ground (arith, p)),
      run-IsResolved V id (times_out j) is e s (
          subst (λ i. IsResolved id (handle_timeout {V = V} i e)) (sym p)
            (timeout_same V id w e held)),
    )
    | no n ↦
        let (same, silent) = timeout_other V id j e n in
        let rest =
          run-Outcome (times_out j) is e w.target_node_ids (to_set w.acked_by (senders id is))
            (fires id is) silent
            (waiter-Outcome is (handle_timeout {V = V} j e).0 w s (same ∙ held) missing) in
        subst
          (λ fired.
            Outcome id w.target_node_ids fired (to_set w.acked_by (senders id is))
              (run {V = V} (times_out j ∷ is) e))
          (fires_other id j is n) rest
  ]
  waiter-Outcome (acked a ∷ is) e w s held missing =
      let done : List NodeId → Type 0 = λ acks.
        Outcome id w.target_node_ids (fires id is) (to_set w.acked_by acks)
          (run {V = V} (acked a ∷ is) e) in
      elim (Text-discrete a.event_id id) [
        | no n ↦
            let (same, silent) = ack_other V id a e n in
            subst done (senders_stray id a is n) (
              run-Outcome (acked a) is e w.target_node_ids (to_set w.acked_by (senders id is))
                (fires id is) silent
                (waiter-Outcome is (handle_ack {V = V} a e).0 w s (same ∙ held) missing))
        | yes p ↦ elim (Bool-cases a.success) [
          | inl good ↦
              let w' : AckWaiter = record w {
                acked_by = add_to_set a.replica_node_id w.acked_by;
              } in
              subst done (senders_good id a is p good) (
                acked-Outcome a is e w w' s held p (rw (good) refl)
                  (λ e'. waiter-Outcome is e' w' s))
          | inr bad ↦
              subst done (senders_failed id a is bad)
                (acked-Outcome a is e w w s held p (rw (bad) refl) (λ e'. waiter-Outcome is e' w s))
        ]
      ]

module _ (V : Type 0) where
  -- Register a write under an event id for one or more targets, on an engine with any other writes pending,
  -- and let any sequence of acks, timeouts and writes of other events follow. If the timer of the event is
  -- among them, or a successful ack of the event from each target, then nothing is waited for at the end and the
  -- promise was resolved once. If neither is, then some target sent no successful ack, and the write is still
  -- waited for and was not resolved.
  pub register_ack_waiter-settles :
      (id : EventId) (t : NodeId) (ts : List NodeId) (is : List Input) (e : Engine)
      → Spares id is
      → let r = run {V = V} is (register_ack_waiter id (t ∷ ts) e) in
        (((fires id is ≡ true) ⊎ All (λ u. includes u (senders id is) ≡ true) (t ∷ ts))
          × (Dict.get id r.0.pending_acks ≡ none)
          × (resolutions id r.1 ≡ 1))
        ⊎ ((u : NodeId) × (fires id is ≡ false)
            × (includes u (t ∷ ts) ≡ true)
            × (includes u (senders id is) ≡ false)
            × (Dict.has id r.0.pending_acks ≡ true)
            × (resolutions id r.1 ≡ 0))
  unfolding register_ack_waiter
  register_ack_waiter-settles id t ts is e s =
      let xs = to_set [] (t ∷ ts) in
      let acks = senders id is in
      let w : AckWaiter = record { target_node_ids = xs; acked_by = [] } in
      let e' = register_ack_waiter id (t ∷ ts) e in
      let held = Dict.get-set_self id w e.pending_acks in
      elim (waiter-Outcome V id is e' w s held (new_missing t ts)) [
        | inl (inl fired, resolved) ↦ inl (inl fired, resolved.0, resolved.1)
        | inl (inr all, resolved) ↦ inl (
          inr (
              all_acked-All (t ∷ ts) xs acks (sym (all_acked-set xs acks) ∙ all)
                (to_set-All [] (t ∷ ts))),
          resolved.0,
          resolved.1,
        )
        | inr (unfired, left, (waits, silent)) ↦
            let (u, among, missing) =
              all_acked-false xs acks (sym (all_acked-set xs acks) ∙ left) in
            inr
              (u, unfired, sym (includes-set u (t ∷ ts)) ∙ among, missing, ap is_some waits, silent)
      ]
