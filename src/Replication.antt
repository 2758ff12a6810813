-- ===== src/Replication.antt =====
-- packages/replication/src/ReplicationEngine.ts and types.ts: a node publishes its writes to its replicas and
-- waits for their acks; a replica applies an event and acks it. Each callback is a step on the engine's
-- state, and what it does to the outside is a list of effects.
pub mod Acks
mod Sets
mod Steps
pub mod Settled
pub mod Replica
mod Tests
use distributive_cache.Base.{
  ℕ, ◌≡◌, Bool, true, false, ◌&&◌, ◌||◌, not, Option, none, some, List, [], ◌∷◌, ◌++◌, map,
  if◌then◌else◌, ite, length, includes, select, add_to_set, text_keyed, Text, Text-discrete,
}
use distributive_cache.Base.Dict
use distributive_cache.Base.Dict.{Dict}
use distributive_cache.Shared.{CacheKey, NodeId, CacheMetadata}
use distributive_cache.Shared.Errors.{
  Result, ok, err, Thrown, flow, other, replication, message, codes,
}

abbrev pub EventId : Type 0
EventId = Text

pub data Op : Type 0 where
  put delete : Op

pub record ReplicationEvent (V : Type 0) : Type 0 where
  pub event_id : EventId
  pub source_node_id : NodeId
  pub key : CacheKey
  pub op : Op
  pub value : Option V
  pub metadata : Option CacheMetadata
  pub timestamp : ℕ

pub record ReplicationAck : Type 0 where
  pub event_id : EventId
  pub replica_node_id : NodeId
  pub success : Bool
  pub applied_at : ℕ
  pub error : Option Text

pub data TopicMessage (V : Type 0) : Type 0 where
  event : ReplicationEvent V → List NodeId → TopicMessage V
  ack : ReplicationAck → TopicMessage V

-- An `AckWaiter`; its promise and timer are known by the event's id.
pub record AckWaiter : Type 0 where
  pub target_node_ids : List NodeId
  pub acked_by : List NodeId

pub record Engine : Type 0 where
  pub node_id : NodeId
  pub pending_acks : Dict EventId AckWaiter

pub data Effect (V : Type 0) : Type 0 where
  publishes : TopicMessage V → CacheKey → Effect V
  resolves rejects : EventId → List NodeId → Effect V
  emits_timeout : EventId → List NodeId → List NodeId → Effect V
  emits_ack : ReplicationAck → Effect V
  emits_applied : ReplicationEvent V → ReplicationAck → Effect V

-- `new Set(targetNodeIds)`
unfoldable pub to_set : List NodeId → List NodeId → List NodeId
to_set set [] = set
to_set set (id ∷ ids) = to_set (add_to_set id set) ids

-- `getReplicaNodeIds(key).filter((id) => id !== this.nodeId)`
unfoldable pub targets_of : (CacheKey → List NodeId) → Engine → CacheKey → List NodeId
targets_of replicas e key =
    select (λ id. ite (Text-discrete id e.node_id) false true) (replicas key)

unfoldable pub register_ack_waiter : EventId → List NodeId → Engine → Engine
unfolding to_set
register_ack_waiter id targets e = record e {
  pending_acks =
      Dict.set id (record { target_node_ids = to_set [] targets; acked_by = [] }) e.pending_acks;
}

-- The event that `replicate` publishes.
abbrev pub outgoing :
    {V : Type 0}
    → Engine
    → EventId
    → ℕ
    → CacheKey
    → Op
    → Option V
    → Option CacheMetadata
    → ReplicationEvent V
outgoing e id now key op value metadata = record {
  event_id = id;
  source_node_id = e.node_id;
  key = key;
  op = op;
  value = value;
  metadata = metadata;
  timestamp = now;
}

-- `replicate`: `none` is a promise that waits for the acks of the event. `id` comes from `generateId`.
unfoldable pub replicate :
    {V : Type 0}
    → (CacheKey → List NodeId)
    → EventId
    → ℕ
    → CacheKey
    → Op
    → Option V
    → Option CacheMetadata
    → Engine
    → Option (List NodeId) × Engine × List (Effect V)
replicate replicas id now key op value metadata e = elim (targets_of replicas e key) [
  | [] ↦ (some [], e, [])
  | t ∷ ts ↦ (
    none,
    register_ack_waiter id (t ∷ ts) e,
    publishes (event (outgoing e id now key op value metadata) (t ∷ ts)) key ∷ [],
  )
]

-- The timer of a waiter.
unfoldable pub handle_timeout : {V : Type 0} → EventId → Engine → Engine × List (Effect V)
handle_timeout id e = elim (Dict.get id e.pending_acks) [
  | none ↦ (e, [])
  | some w ↦ (
    record e { pending_acks = Dict.delete id e.pending_acks },
    resolves id w.acked_by ∷ emits_timeout id w.acked_by w.target_node_ids ∷ [],
  )
]

-- `[...waiter.targetNodeIds].every((id) => waiter.ackedBy.has(id))`
unfoldable pub all_acked : List NodeId → List NodeId → Bool
all_acked [] acked = true
all_acked (t ∷ ts) acked = if includes t acked then all_acked ts acked else false

abbrev pub with_ack : ReplicationAck → AckWaiter → AckWaiter
with_ack a w =
    if a.success then record w { acked_by = add_to_set a.replica_node_id w.acked_by } else w

unfoldable pub handle_ack : {V : Type 0} → ReplicationAck → Engine → Engine × List (Effect V)
handle_ack a e = elim (Dict.get a.event_id e.pending_acks) [
  | none ↦ (e, [])
  | some w ↦
      let w' = with_ack a w in
      if all_acked w'.target_node_ids w'.acked_by
      then (
        record e { pending_acks = Dict.delete a.event_id e.pending_acks },
        emits_ack a ∷ resolves a.event_id w'.acked_by ∷ [],
      )
      else (record e { pending_acks = Dict.set a.event_id w' e.pending_acks }, emits_ack a ∷ [])
]

unfoldable pub thrown_message : Thrown → Text
thrown_message (flow e) = message e
thrown_message (other m) = m

-- What the engine is given to change local storage; either callback may throw.
pub record Callbacks (V Store : Type 0) : Type 0 where
  pub apply_remote_write : CacheKey → Option V → CacheMetadata → Store → Result Store
  pub apply_remote_delete : CacheKey → Store → Result Store

module _ {V Store : Type 0} (local : Callbacks V Store) where
  -- The body of the `try`.
  unfoldable pub apply_event : ReplicationEvent V → Store → Result Store
  apply_event ev st = elim ev.op [
    | put ↦ elim ev.metadata [
      | none ↦ err (
          flow (
            replication (
              codes "Replication PUT event "
              ++ (ev.event_id ++ (codes " for key \"" ++ (ev.key ++ codes "\" has no metadata"))))))
      | some m ↦ local.apply_remote_write ev.key ev.value m st
    ]
    | delete ↦ local.apply_remote_delete ev.key st
  ]

  abbrev pub stored : Store → Result Store → Store
  stored st (ok st') = st'
  stored st (err t) = st

  abbrev pub ack_for : Engine → ReplicationEvent V → ℕ → Result Store → ReplicationAck
  ack_for e ev now (ok st) = record {
    event_id = ev.event_id;
    replica_node_id = e.node_id;
    success = true;
    applied_at = now;
    error = none;
  }
  ack_for e ev now (err t) = record {
    event_id = ev.event_id;
    replica_node_id = e.node_id;
    success = false;
    applied_at = now;
    error = some (thrown_message t);
  }

  abbrev pub is_target : Engine → ReplicationEvent V → List NodeId → Bool
  is_target e ev targets =
      not (ite (Text-discrete ev.source_node_id e.node_id) true false) && includes e.node_id targets

  unfoldable pub handle_replication_event :
      ReplicationEvent V → List NodeId → ℕ → Engine → Store → Store × List (Effect V)
  handle_replication_event ev targets now e st =
      if is_target e ev targets
      then (let r = apply_event ev st in
          let a = ack_for e ev now r in
          (stored st r, emits_applied ev a ∷ publishes (ack a) ev.key ∷ []))
      else (st, [])

  unfoldable pub handle_message :
      TopicMessage V → ℕ → Engine → Store → Engine × Store × List (Effect V)
  handle_message (event ev targets) now e st =
      let r = handle_replication_event ev targets now e st in (e, r.0, r.1)
  handle_message (ack a) now e st = let r = handle_ack a e in (r.0, st, r.1)

unfoldable pub rejections : {V : Type 0} → Dict EventId AckWaiter → List (Effect V)
rejections [] = []
rejections (w ∷ ws) = rejects w.0 [] ∷ rejections ws

-- `dispose` rejects what is pending.
unfoldable pub dispose : {V : Type 0} → Engine → Engine × List (Effect V)
unfolding rejections
dispose e = (record e { pending_acks = [] }, rejections e.pending_acks)

abbrev pub pending_ack_count : Engine → ℕ
pending_ack_count e = length e.pending_acks
