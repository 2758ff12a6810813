-- ===== src/Replication/Replica.antt =====
-- The replica's side, and one write's way from the primary to a replica and back.
use distributive_cache.Base.{
  ℕ, ◌≡◌, refl, ◌≢◌, Bool, true, false, Option, none, List, [], ◌∷◌, arith, if_pos, if_neg,
  includes, includes-head, add_to_set, text_keyed, Text-discrete,
}
use distributive_cache.Base.Dict
use distributive_cache.Shared.{CacheKey, NodeId, CacheMetadata}
use distributive_cache.Shared.Errors.{Result, ok, err}
use distributive_cache.Replication.{
  EventId, Op, put, ReplicationEvent, ReplicationAck, event, ack, Engine, Effect, publishes,
  resolves, emits_ack, to_set, targets_of, register_ack_waiter, outgoing, replicate, all_acked,
  handle_ack, Callbacks, apply_event, stored, ack_for, is_target, handle_replication_event,
}

-- The acks that are published.
abbrev pub acks_sent : {V : Type 0} → List (Effect V) → List ReplicationAck
acks_sent [] = []
acks_sent (publishes (ack a) k ∷ fs) = a ∷ acks_sent fs
acks_sent (f ∷ fs) = acks_sent fs

-- The success flag and the store after an event, by what applying it gave.
abbrev pub Reflects : {Store : Type 0} → Result Store → Store → Store → Bool → Type 0
Reflects (ok st') before after success = (success ≡ true) × (after ≡ st')
Reflects (err t) before after success = (success ≡ false) × (after ≡ before)

reflects :
    {V Store : Type 0} (local : Callbacks V Store) (ev : ReplicationEvent V) (now : ℕ) (e : Engine)
    (st : Store) (r : Result Store)
    → Reflects r st (stored local st r) (ack_for local e ev now r).success
reflects local ev now e st (ok st') = (refl, refl)
reflects local ev now e st (err t) = (refl, refl)

module _ {V Store : Type 0} (local : Callbacks V Store) (ev : ReplicationEvent V)
    (targets : List NodeId) (now : ℕ) (e : Engine) (st : Store) where
  -- A node leaves alone its own events, and those that are not for it.
  pub replica_ignores :
      is_target local e ev targets ≡ false
      → handle_replication_event local ev targets now e st ≡ (st, [])
  unfolding handle_replication_event
  replica_ignores h = rw (h, handle_replication_event)

  -- A node that the event is for applies it and sends one ack, which names the event and the node; the ack is
  -- a success exactly if the event could be applied, and an event that could not leaves the store as it was.
  pub replica_acks :
      is_target local e ev targets ≡ true
      → let r = handle_replication_event local ev targets now e st in
        (a : ReplicationAck) × (acks_sent r.1 ≡ a ∷ [])
        × (a.event_id ≡ ev.event_id)
        × (a.replica_node_id ≡ e.node_id)
        × Reflects (apply_event local ev st) st r.0 a.success
  unfolding handle_replication_event
  replica_acks h =
      rw (h, handle_replication_event)
        (
          ack_for local e ev now (apply_event local ev st),
          refl,
          ground arith,
          ground arith,
          reflects local ev now e st (apply_event local ev st),
        )

  -- A PUT without metadata is refused, with a failed ack, and changes nothing.
  pub put_without_metadata :
      is_target local e ev targets ≡ true
      → ev.op ≡ put
      → ev.metadata ≡ none
      → let r = handle_replication_event local ev targets now e st in
        (a : ReplicationAck) × (acks_sent r.1 ≡ a ∷ []) × (a.success ≡ false) × (r.0 ≡ st)
  unfolding handle_replication_event apply_event
  put_without_metadata h is_put missing =
      (ack_for local e ev now (apply_event local ev st), ground arith, ground arith, ground arith)

module _ {V Store : Type 0} (local : Callbacks V Store) (replicas : CacheKey → List NodeId)
    (id : EventId) (sent_at acked_at : ℕ) (key : CacheKey) (op : Op) (value : Option V)
    (metadata : Option CacheMetadata) (p q : Engine) (st st' : Store) where
  abbrev sent_event : ReplicationEvent V
  sent_event = outgoing p id sent_at key op value metadata

  abbrev success_ack : ReplicationAck
  success_ack = ack_for local q sent_event acked_at (ok st')

  target_is_q : p.node_id ≢ q.node_id → is_target local q sent_event (q.node_id ∷ []) ≡ true
  target_is_q others =
      rw (if_neg (Text-discrete p.node_id q.node_id) others) (includes-head q.node_id [])

  ack_completes :
      let r = handle_ack {V = V} success_ack (register_ack_waiter id (q.node_id ∷ []) p) in
      (r.1 ≡ emits_ack success_ack ∷ resolves id (q.node_id ∷ []) ∷ [])
      × (Dict.get id (r.0).pending_acks ≡ none)
  unfolding handle_ack register_ack_waiter to_set add_to_set includes all_acked
  ack_completes =
      rw
        (
          Dict.get-set_self id (record { target_node_ids = q.node_id ∷ []; acked_by = [] })
              p.pending_acks,
          if_pos (Text-discrete q.node_id q.node_id) refl,
          handle_ack,
        )
        (refl, Dict.get-delete_self id _)

  -- A write whose only target is another node `q`, and which `q` can apply, comes back: the primary publishes
  -- the event and waits, `q` applies it and acks, and at that ack the primary resolves the promise with `q`
  -- and no longer waits.
  pub write_completes :
      targets_of replicas p key ≡ q.node_id ∷ []
      → p.node_id ≢ q.node_id
      → apply_event local (outgoing p id sent_at key op value metadata) st ≡ ok st'
      → let ev = outgoing p id sent_at key op value metadata in
        let sent = replicate replicas id sent_at key op value metadata p in
        let done = handle_replication_event local ev (q.node_id ∷ []) acked_at q st in
        (sent.0 ≡ none)
        × (sent.2 ≡ publishes (event ev (q.node_id ∷ [])) key ∷ [])
        × (done.0 ≡ st')
        × ((a : ReplicationAck) × (acks_sent done.1 ≡ a ∷ [])
            × ((handle_ack {V = V} a sent.1).1 ≡ emits_ack a ∷ resolves id (q.node_id ∷ []) ∷ [])
            × (Dict.get id ((handle_ack {V = V} a sent.1).0).pending_acks ≡ none))
  unfolding replicate handle_replication_event
  write_completes only others applied =
      rw (only, replicate)
        (refl, refl, handled_store, (success_ack, handled_ack, ack_completes.0, ack_completes.1))
    where
      handled_store :
          (handle_replication_event local sent_event (q.node_id ∷ []) acked_at q st).0 ≡ st'
      handled_store = rw (target_is_q others, applied, handle_replication_event)

      handled_ack :
          acks_sent (handle_replication_event local sent_event (q.node_id ∷ []) acked_at q st).1
          ≡ success_ack ∷ []
      handled_ack = rw (target_is_q others, applied, handle_replication_event)
