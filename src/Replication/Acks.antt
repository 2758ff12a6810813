-- ===== src/Replication/Acks.antt =====
-- The primary's side: the acks that it waits for, over any order of acks, timeouts and new writes.
use distributive_cache.Base.{
  ℕ, ◌+◌, ◌≤◌, ◌≡◌, ◌≢◌, List, [], ◌∷◌, ◌++◌, arith, if◌then◌else◌, ite, text_keyed, Text-discrete,
  Bool-cases, Option-cases, inl, inr, is_some, ap,
}
use distributive_cache.Base.Dict
use distributive_cache.Base.Dict.{Dict}
use distributive_cache.Shared.{NodeId}
use distributive_cache.Replication.{
  EventId, ReplicationAck, Engine, Effect, publishes, resolves, rejects, emits_timeout, emits_ack,
  emits_applied, register_ack_waiter, handle_timeout, handle_ack, all_acked, with_ack,
}

-- What may happen to the waiters of a node.
pub data Input : Type 0 where
  registers : EventId → NodeId → List NodeId → Input
  acked : ReplicationAck → Input
  times_out : EventId → Input

-- The event is not registered anew.
abbrev pub Spares : EventId → List Input → Type 0
Spares id [] = Unit
Spares id (registers j t ts ∷ is) = (j ≢ id) × Spares id is
Spares id (acked a ∷ is) = Spares id is
Spares id (times_out j ∷ is) = Spares id is

abbrev pub pending : EventId → Engine → ℕ
pending id e = if Dict.has id e.pending_acks then 1 else 0

module _ {V : Type 0} where
  -- A `registers` names the first target and the others: `replicate` registers no empty list.
  unfoldable pub step : Input → Engine → Engine × List (Effect V)
  step (registers id t ts) e = (register_ack_waiter id (t ∷ ts) e, [])
  step (acked a) e = handle_ack a e
  step (times_out id) e = handle_timeout id e

  unfoldable pub run : List Input → Engine → Engine × List (Effect V)
  run [] e = (e, [])
  run (i ∷ is) e = let r = step i e in let rest = run is r.0 in (rest.0, r.1 ++ rest.1)

  -- How often the promise of an event is resolved.
  abbrev pub resolutions : EventId → List (Effect V) → ℕ
  resolutions id [] = 0
  resolutions id (resolves j ids ∷ fs) = ite (Text-discrete j id) 1 0 + resolutions id fs
  resolutions id (f ∷ fs) = resolutions id fs

  pub resolutions-append :
      (id : EventId) (fs gs : List (Effect V))
      → resolutions id (fs ++ gs) ≡ resolutions id fs + resolutions id gs
  resolutions-append id [] gs = omega arith
  resolutions-append id (resolves j ids ∷ fs) gs = omega (arith, resolutions-append id fs gs)
  resolutions-append id (publishes m k ∷ fs) gs = resolutions-append id fs gs
  resolutions-append id (rejects j ids ∷ fs) gs = resolutions-append id fs gs
  resolutions-append id (emits_timeout j xs ys ∷ fs) gs = resolutions-append id fs gs
  resolutions-append id (emits_ack a ∷ fs) gs = resolutions-append id fs gs
  resolutions-append id (emits_applied v a ∷ fs) gs = resolutions-append id fs gs

  -- A step resolves a promise only by ending its wait.
  Settles : EventId → Engine → Engine × List (Effect V) → Type 0
  Settles id e r = resolutions id r.1 + pending id r.0 ≤ pending id e

module _ (V : Type 0) where
  timeout-Settles : (id j : EventId) (e : Engine) → Settles id e (handle_timeout {V = V} j e)
  unfolding Settles handle_timeout
  timeout-Settles id j e = elim (Option-cases (Dict.get j e.pending_acks)) [
    | inl h ↦ rw (h, handle_timeout) (omega arith)
    | inr (w, h) ↦ rw (h, handle_timeout) (ground (arith, Dict.get-delete j id e.pending_acks))
  ]

  ack-Settles :
      (id : EventId) (a : ReplicationAck) (e : Engine) → Settles id e (handle_ack {V = V} a e)
  unfolding Settles handle_ack
  ack-Settles id a e = elim (Option-cases (Dict.get a.event_id e.pending_acks)) [
    | inl h ↦ rw (h, handle_ack) (omega arith)
    | inr (w, h) ↦
        elim (Bool-cases (all_acked (with_ack a w).target_node_ids (with_ack a w).acked_by)) [
          | inl all ↦
              rw (h, all, handle_ack) (ground (arith, Dict.get-delete a.event_id id e.pending_acks))
          | inr some_left ↦
              rw (h, some_left, handle_ack)
                (ground (arith, Dict.get-set a.event_id id (with_ack a w) e.pending_acks))
        ]
  ]

  -- Whatever the order of acks and timeouts, duplicates and strays included, and of writes of other events,
  -- the promise of an event that is not registered anew is resolved at most once if the event is pending, and
  -- never if it is not.
  pub resolutions-le :
      (id : EventId) (is : List Input) (e : Engine)
      → Spares id is
      → resolutions id (run {V = V} is e).1 ≤ pending id e
  unfolding run step Settles register_ack_waiter
  resolutions-le id [] e s = omega arith
  resolutions-le id (registers j t ts ∷ is) e s =
      let e' = register_ack_waiter j (t ∷ ts) e in
      let same : pending id e' ≡ pending id e =
        ap (λ w. if is_some w then 1 else 0) (Dict.get-set_ne j id _ e.pending_acks s.0) in
      omega (arith, resolutions-le id is e' s.1, same)
  resolutions-le id (acked a ∷ is) e s =
      let r = handle_ack {V = V} a e in
      omega (
        arith,
        resolutions-append id r.1 (run is r.0).1,
        ack-Settles id a e,
        resolutions-le id is r.0 s,
      )
  resolutions-le id (times_out j ∷ is) e s =
      let r = handle_timeout {V = V} j e in
      omega (
        arith,
        resolutions-append id r.1 (run is r.0).1,
        timeout-Settles id j e,
        resolutions-le id is r.0 s,
      )
