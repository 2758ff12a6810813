-- ===== src/Replication/Steps.antt =====
-- ReplicationEngine.ts: what one ack or one timeout does to the promise of a write.
use distributive_cache.Base.{
  ◌≡◌, refl, ◌≢◌, true, false, none, some, List, [], ◌∷◌, arith, text_keyed, Text-discrete,
  Bool-cases, Option-cases, inl, inr, ap, ◌∙◌,
}
use distributive_cache.Base.Dict
use distributive_cache.Replication.{
  EventId, ReplicationAck, AckWaiter, Engine, Effect, register_ack_waiter, handle_timeout,
  handle_ack, all_acked, with_ack,
}
use distributive_cache.Replication.Acks.{
  Input, registers, acked, times_out, Spares, run, step, resolutions, resolutions-append, pending,
  resolutions-le,
}

module _ {V : Type 0} where
  -- The promise was resolved once and nothing is waited for.
  abbrev pub IsResolved : EventId → Engine × List (Effect V) → Type 0
  IsResolved id r = (Dict.get id r.0.pending_acks ≡ none) × (resolutions id r.1 ≡ 1)

  -- The promise was not resolved, and a waiter is there.
  abbrev pub IsPending : EventId → AckWaiter → Engine × List (Effect V) → Type 0
  IsPending id w r = (Dict.get id r.0.pending_acks ≡ some w) × (resolutions id r.1 ≡ 0)

module _ (V : Type 0) (id : EventId) where
  pub timeout_same :
      (w : AckWaiter) (e : Engine)
      → Dict.get id e.pending_acks ≡ some w
      → IsResolved id (handle_timeout {V = V} id e)
  unfolding handle_timeout
  timeout_same w e h = rw (h, handle_timeout) (Dict.get-delete_self id e.pending_acks, ground arith)

  pub timeout_other :
      (j : EventId) (e : Engine)
      → j ≢ id
      → let r = handle_timeout {V = V} j e in
        (Dict.get id r.0.pending_acks ≡ Dict.get id e.pending_acks) × (resolutions id r.1 ≡ 0)
  unfolding handle_timeout
  timeout_other j e n = elim (Option-cases (Dict.get j e.pending_acks)) [
    | inl h ↦ rw (h, handle_timeout) (refl, refl)
    | inr (w, h) ↦ rw (h, handle_timeout) (Dict.get-delete_ne j id e.pending_acks n, ground arith)
  ]

  pub ack_other :
      (a : ReplicationAck) (e : Engine)
      → a.event_id ≢ id
      → let r = handle_ack {V = V} a e in
        (Dict.get id r.0.pending_acks ≡ Dict.get id e.pending_acks) × (resolutions id r.1 ≡ 0)
  unfolding handle_ack
  ack_other a e n = elim (Option-cases (Dict.get a.event_id e.pending_acks)) [
    | inl h ↦ rw (h, handle_ack) (refl, refl)
    | inr (w, h) ↦
        elim (Bool-cases (all_acked (with_ack a w).target_node_ids (with_ack a w).acked_by)) [
          | inl all ↦
              rw (h, all, handle_ack)
                (Dict.get-delete_ne a.event_id id e.pending_acks n, ground arith)
          | inr left ↦
              rw (h, left, handle_ack) (Dict.get-set_ne a.event_id id _ e.pending_acks n, refl)
        ]
  ]

module _ (V : Type 0) (a : ReplicationAck) (w : AckWaiter) (e : Engine)
    (held : Dict.get a.event_id e.pending_acks ≡ some w) where
  pub ack_last :
      all_acked (with_ack a w).target_node_ids (with_ack a w).acked_by ≡ true
      → IsResolved a.event_id (handle_ack {V = V} a e)
  unfolding handle_ack
  ack_last all =
      rw (held, all, handle_ack) (Dict.get-delete_self a.event_id e.pending_acks, ground arith)

  pub ack_early :
      all_acked (with_ack a w).target_node_ids (with_ack a w).acked_by ≡ false
      → IsPending a.event_id (with_ack a w) (handle_ack {V = V} a e)
  unfolding handle_ack
  ack_early left = rw (held, left, handle_ack) (Dict.get-set_self a.event_id _ e.pending_acks, refl)

module _ (V : Type 0) (id : EventId) where
  ack_absent :
      (a : ReplicationAck) (e : Engine)
      → Dict.get id e.pending_acks ≡ none
      → Dict.get id ((handle_ack {V = V} a e).0).pending_acks ≡ none
  unfolding handle_ack
  ack_absent a e h = elim (Text-discrete a.event_id id) [
    | yes p ↦
        let h' : Dict.get a.event_id e.pending_acks ≡ none =
          ap (λ j. Dict.get j e.pending_acks) p ∙ h in
        rw (h', handle_ack) h
    | no n ↦ (ack_other V id a e n).0 ∙ h
  ]

  timeout_absent :
      (j : EventId) (e : Engine)
      → Dict.get id e.pending_acks ≡ none
      → Dict.get id ((handle_timeout {V = V} j e).0).pending_acks ≡ none
  unfolding handle_timeout
  timeout_absent j e h = elim (Text-discrete j id) [
    | yes p ↦
        let h' : Dict.get j e.pending_acks ≡ none = ap (λ j. Dict.get j e.pending_acks) p ∙ h in
        rw (h', handle_timeout) h
    | no n ↦ (timeout_other V id j e n).0 ∙ h
  ]

  run_absent :
      (is : List Input) (e : Engine)
      → Spares id is
      → Dict.get id e.pending_acks ≡ none
      → Dict.get id ((run {V = V} is e).0).pending_acks ≡ none
  unfolding run step register_ack_waiter
  run_absent [] e s h = h
  run_absent (registers j t ts ∷ is) e s h =
      run_absent is (register_ack_waiter j (t ∷ ts) e) s.1
        (Dict.get-set_ne j id _ e.pending_acks s.0 ∙ h)
  run_absent (acked a ∷ is) e s h = run_absent is (handle_ack {V = V} a e).0 s (ack_absent a e h)
  run_absent (times_out j ∷ is) e s h =
      run_absent is (handle_timeout {V = V} j e).0 s (timeout_absent j e h)

  -- Once resolved, a promise stays so.
  pub run-IsResolved :
      (i : Input) (is : List Input) (e : Engine)
      → Spares id is
      → IsResolved id (step {V = V} i e)
      → IsResolved id (run {V = V} (i ∷ is) e)
  unfolding run
  run-IsResolved i is e s h =
      let r = step {V = V} i e in
      let none_pending : pending id r.0 ≡ 0 = rw (h.0) refl in
      (
        run_absent is r.0 s h.0,
        omega (
          arith,
          h.1,
          resolutions-append id r.1 (run is r.0).1,
          resolutions-le V id is r.0 s,
          none_pending,
        ),
      )
