-- ===== src/Replication/Tests.antt =====
-- The theorems of replication at inputs that meet their conditions.
use distributive_cache.Base.{
  ℕ, ◌≤◌, ◌≡◌, refl, true, false, All, ◌⊎◌, Option, none, some, [], ◌∷◌, arith, text_keyed,
  Text-discrete, includes, add_to_set, select,
}
use distributive_cache.Base.Dict
use distributive_cache.Shared.{NodeId, CacheKey, CacheMetadata}
use distributive_cache.Shared.Errors.{codes, ok, err, flow, validation}
use distributive_cache.Replication.{
  EventId, put, ReplicationEvent, ReplicationAck, Engine, Callbacks, apply_event, outgoing,
  replicate, handle_replication_event, handle_ack, register_ack_waiter, to_set, all_acked,
  handle_timeout, publishes, event, emits_ack, resolves, targets_of,
}
use distributive_cache.Replication.Acks.{
  acked, times_out, run, step, resolutions, pending, resolutions-le,
}
use distributive_cache.Replication.Settled.{register_ack_waiter-settles, senders, fires}
use distributive_cache.Replication.Replica.{acks_sent, write_completes}

program : Unit {0}
unfolding apply_event handle_replication_event replicate targets_of handle_ack handle_timeout
    register_ack_waiter to_set all_acked run step Dict.get Dict.set Dict.delete Text-discrete
    includes add_to_set select
program = tt

abbrev id_p : NodeId
id_p = codes "p"

abbrev id_q : NodeId
id_q = codes "q"

abbrev event_1 : EventId
event_1 = codes "e1"

abbrev key : CacheKey
key = codes "k"

abbrev primary : Engine
primary = record { node_id = id_p; pending_acks = [] }

abbrev replica : Engine
replica = record { node_id = id_q; pending_acks = [] }

-- A store of one number; a delete is refused.
abbrev local : Callbacks ℕ (Option ℕ)
local = record {
  apply_remote_write = λ k v m st. ok v;
  apply_remote_delete = λ k st. err (flow (validation (codes "read only")));
}

abbrev metadata : CacheMetadata
metadata = record {
  version = 1;
  created_at = 1;
  updated_at = 1;
  last_accessed_at = 1;
  frequency = 0;
  expires_at = none;
  size_bytes = 8;
}

abbrev write_event : ReplicationEvent ℕ
write_event = outgoing primary event_1 10 key put (some 7) (some metadata)

abbrev success : ReplicationAck
success = record {
  event_id = event_1;
  replica_node_id = id_q;
  success = true;
  applied_at = 11;
  error = none;
}

resolutions-le_example :
    resolutions event_1
      (run {V = ℕ}
        (acked success ∷ acked success ∷ times_out event_1 ∷ [])
        (register_ack_waiter event_1 (id_q ∷ []) primary)).1
    ≤ pending event_1 (register_ack_waiter event_1 (id_q ∷ []) primary)
resolutions-le_example =
    resolutions-le ℕ event_1 (acked success ∷ acked success ∷ times_out event_1 ∷ [])
      (register_ack_waiter event_1 (id_q ∷ []) primary) tt

register_ack_waiter-settles_example :
    let is = acked success ∷ acked success ∷ times_out (codes "e2") ∷ [] in
    let r = run {V = ℕ} is (register_ack_waiter event_1 (id_q ∷ id_p ∷ []) primary) in
    (((false ≡ true) ⊎ All (λ u. includes u (id_q ∷ id_q ∷ []) ≡ true) (id_q ∷ id_p ∷ []))
      × (Dict.get event_1 r.0.pending_acks ≡ none)
      × (resolutions event_1 r.1 ≡ 1))
    ⊎ ((u : NodeId) × (false ≡ false)
        × (includes u (id_q ∷ id_p ∷ []) ≡ true)
        × (includes u (id_q ∷ id_q ∷ []) ≡ false)
        × (Dict.has event_1 r.0.pending_acks ≡ true)
        × (resolutions event_1 r.1 ≡ 0))
unfolding program senders fires
register_ack_waiter-settles_example =
    register_ack_waiter-settles ℕ event_1 id_q (id_p ∷ [])
      (acked success ∷ acked success ∷ times_out (codes "e2") ∷ []) primary tt

write_completes_example :
    let ev = write_event in
    let sent =
      replicate {V = ℕ}
        (λ k. id_p ∷ id_q ∷ [])
        event_1
        10
        key
        put
        (some 7)
        (some metadata)
        primary in
    let done = handle_replication_event local ev (id_q ∷ []) 11 replica none in
    (sent.0 ≡ none)
    × (sent.2 ≡ publishes (event ev (id_q ∷ [])) key ∷ [])
    × (done.0 ≡ some 7)
    × ((a : ReplicationAck) × (acks_sent done.1 ≡ a ∷ [])
        × ((handle_ack {V = ℕ} a sent.1).1 ≡ emits_ack a ∷ resolves event_1 (id_q ∷ []) ∷ [])
        × (Dict.get event_1 ((handle_ack {V = ℕ} a sent.1).0).pending_acks ≡ none))
unfolding program
write_completes_example =
    write_completes local (λ k. id_p ∷ id_q ∷ []) event_1 10 11 key put (some 7) (some metadata)
      primary replica none (some 7) refl (λ e. ground arith) refl
