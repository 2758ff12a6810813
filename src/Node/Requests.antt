-- ===== src/Node/Requests.antt =====
-- services/cache-node/src/routes/cacheRoutes.ts and internalRoutes.ts behind middleware/killSwitch.ts and
-- errorHandler.ts: what a request does to a node, what it answers, and what is replicated in the background.
-- `decodeURIComponent` and the clock are arguments.
pub mod Bodies
pub mod Replies
pub mod Pinning
use distributive_cache.Base.{
  ℕ, Bool, true, false, Option, none, some, List, [], ◌∷◌, ◌++◌, ◌==◌, if◌then◌else◌, Text,
  Text-discrete, ite, length,
}
use distributive_cache.Shared.{
  CacheKey, CacheEntry, CacheMetadata, NodeId, EvictionPolicyType, lru, lfu, tiny_lfu,
}
use distributive_cache.Shared.Errors.{
  Result, ok, err, Thrown, flow, ErrorResponse, to_error_response, validation, key_not_found,
  node_unavailable, codes,
}
use distributive_cache.Shared.Numbers.{Numbers}
use distributive_cache.Storage.{EvictionHook, StorageOptions, SetOptions, Storage}
use distributive_cache.Storage.Engine
use distributive_cache.Eviction.Adaptive.{
  Adaptive, pause_auto_switch, resume_auto_switch, force_switch,
}
use distributive_cache.Replication.{Engine, Effect, EventId, Op, put, delete, replicate}
use distributive_cache.Node.Faults.{FaultState, should_drop_replication_message}

-- What the routes change of a node. Its engines for replication and eviction are arguments where they are used.
pub record CacheNode (F V S : Type 0) : Type 0 where
  pub node_id : NodeId
  pub storage : Storage V S
  pub faults : FaultState F

-- The field `ttlMs` of a body; a number that is not negative is in whole milliseconds.
pub data TtlField : Type 0 where
  absent not_a_number negative_number : TtlField
  number : ℕ → TtlField

-- A parsed body: `key` if it is a string, and `value` if the body has it.
pub record PutRequestBody (V : Type 0) : Type 0 where
  pub key : Option Text
  pub value : Option V
  pub ttl_ms : TtlField

-- The bodies of the answers; the one of a put also says that it is not replicated yet.
pub data Reply (V : Type 0) : Type 0 where
  got : CacheKey → V → CacheMetadata → NodeId → Reply V
  stored : CacheKey → ℕ → NodeId → Reply V
  removed : CacheKey → Bool → NodeId → Reply V
  refused : ErrorResponse → Reply V

-- What is started without waiting for it.
pub data Background (V : Type 0) : Type 0 where
  replicates_write : CacheKey → V → CacheMetadata → Background V
  replicates_delete : CacheKey → Background V

abbrev pub reply_status : {V : Type 0} → Reply V → ℕ
reply_status (got k v m id) = 200
reply_status (stored k version id) = 200
reply_status (removed k b id) = 200
reply_status (refused r) = r.status

-- `decodeCacheKeyParam`
unfoldable pub decode_cache_key_param : (Text → Option Text) → Text → Result Text
decode_cache_key_param decode_uri raw = elim (decode_uri raw) [
  | some key ↦ ok key
  | none ↦ err (flow (validation (codes "Malformed key in URL: \"" ++ (raw ++ codes "\""))))
]

unfoldable pub checked_ttl : TtlField → Result SetOptions
checked_ttl absent = ok (record { ttl_ms = none })
checked_ttl not_a_number =
    err (flow (validation (codes "\"ttlMs\", if provided, must be a positive number")))
checked_ttl negative_number =
    err (flow (validation (codes "\"ttlMs\", if provided, must be a positive number")))
checked_ttl (number n) =
    if n == 0
    then err (flow (validation (codes "\"ttlMs\", if provided, must be a positive number")))
    else ok (record { ttl_ms = some (some n) })

abbrev pub no_key : Thrown
no_key = flow (validation (codes "Request body must include a non-empty string \"key\""))

-- The tests at the head of the put.
unfoldable pub checked_body :
    {V : Type 0} → Option (PutRequestBody V) → Result (CacheKey × V × SetOptions)
checked_body none = err no_key
checked_body (some body) = elim body.key [
  | none ↦ err no_key
  | some key ↦ elim key [
    | [] ↦ err no_key
    | c ∷ cs ↦ elim body.value [
      | none ↦ err (flow (validation (codes "Request body must include a \"value\" field")))
      | some v ↦ elim (checked_ttl body.ttl_ms) [ err t ↦ err t | ok call ↦ ok (c ∷ cs, v, call) ]
    ]
  ]
]

module _ {F V S : Type 0} where
  -- `next(err)`, which the error handler answers.
  abbrev pub fails : Thrown → CacheNode F V S → Reply V × List (Background V) × CacheNode F V S
  fails t node = (refused (to_error_response t), [], node)

  -- `killSwitchMiddleware`
  unfoldable pub guarded :
      (CacheNode F V S → Reply V × List (Background V) × CacheNode F V S)
      → CacheNode F V S
      → Reply V × List (Background V) × CacheNode F V S
  guarded next node =
      if node.faults.killed then fails (flow (node_unavailable node.node_id)) node else next node

module _ {F V S : Type 0} (hook : EvictionHook S) where
  unfoldable pub get_decoded :
      ℕ → ℕ → Result CacheKey → CacheNode F V S → Reply V × List (Background V) × CacheNode F V S
  get_decoded now accessed (err t) node = fails t node
  get_decoded now accessed (ok key) node =
      let (found, storage) = Engine.get hook now accessed key node.storage in
      let node' = record node { storage = storage } in
      elim found [
        | none ↦ fails (flow (key_not_found key)) node'
        | some e ↦ (got key e.value e.metadata node.node_id, [], node')
      ]

  unfoldable pub handle_get :
      (Text → Option Text)
      → ℕ
      → ℕ
      → Text
      → CacheNode F V S
      → Reply V × List (Background V) × CacheNode F V S
  handle_get decode_uri now accessed raw =
      guarded (get_decoded now accessed (decode_cache_key_param decode_uri raw))

  unfoldable pub delete_decoded :
      Result CacheKey → CacheNode F V S → Reply V × List (Background V) × CacheNode F V S
  delete_decoded (err t) node = fails t node
  delete_decoded (ok key) node =
      let (deleted, storage) = Engine.delete hook key node.storage in
      (
        removed key deleted node.node_id,
        if deleted then replicates_delete key ∷ [] else [],
        record node { storage = storage },
      )

  unfoldable pub handle_delete :
      (Text → Option Text)
      → Text
      → CacheNode F V S
      → Reply V × List (Background V) × CacheNode F V S
  handle_delete decode_uri raw = guarded (delete_decoded (decode_cache_key_param decode_uri raw))

  module _ (size_of : V → ℕ) (o : StorageOptions) where
    unfoldable pub put_checked :
        ℕ
        → Result (CacheKey × V × SetOptions)
        → CacheNode F V S
        → Reply V × List (Background V) × CacheNode F V S
    put_checked now (err t) node = fails t node
    put_checked now (ok (key, v, call)) node =
        elim (Engine.set hook size_of o now key v call node.storage) [
          | err t ↦ fails t node
          | ok (e, storage) ↦ (
            stored key e.metadata.version node.node_id,
            replicates_write key e.value e.metadata ∷ [],
            record node { storage = storage },
          )
        ]

    unfoldable pub handle_put :
        ℕ
        → Option (PutRequestBody V)
        → CacheNode F V S
        → Reply V × List (Background V) × CacheNode F V S
    handle_put now body = guarded (put_checked now (checked_body body))

-- `replicateWriteWithFaults` and `replicateDeleteWithFaults`, when the delay is over; `draw` is the random number.
unfoldable pub replicate_with_faults :
    {F V S : Type 0}
    → Numbers F
    → F
    → (CacheKey → List NodeId)
    → EventId
    → ℕ
    → Background V
    → CacheNode F V S
    → Engine
    → Option (List NodeId) × Engine × List (Effect V)
replicate_with_faults n draw replicas id now (replicates_write key v m) node e =
    if should_drop_replication_message n draw node.faults
    then (some [], e, [])
    else replicate replicas id now key put (some v) (some m) e
replicate_with_faults n draw replicas id now (replicates_delete key) node e =
    if should_drop_replication_message n draw node.faults
    then (some [], e, [])
    else replicate replicas id now key delete none none e

-- The strings of `enum EvictionPolicyType`.
unfoldable pub policy_name : EvictionPolicyType → Text
policy_name lru = codes "LRU"
policy_name lfu = codes "LFU"
policy_name tiny_lfu = codes "TINY_LFU"

-- The member of `PINNABLE_POLICIES` with the name.
unfoldable pub pinnable_policy : Text → Option EvictionPolicyType
pinnable_policy name = ite (Text-discrete name (policy_name lru)) (some lru) (
    ite (Text-discrete name (policy_name lfu)) (some lfu)
      (ite (Text-discrete name (policy_name tiny_lfu)) (some tiny_lfu) none))

-- `POST /internal/policy`, with the body's `policy` if it is a string. `none` is the error "policy must be one
-- of ...".
unfoldable pub handle_policy :
    {F V : Type 0}
    → Numbers F
    → Option Text
    → F
    → ℕ
    → List (CacheEntry V)
    → Adaptive F
    → Option (Adaptive F)
handle_policy n none memory now entries s = none
handle_policy n (some name) memory now entries s =
    ite (Text-discrete name (codes "ADAPTIVE")) (some (resume_auto_switch s))
      (elim (pinnable_policy name) [
        | none ↦ none
        | some policy ↦ some (
            force_switch n policy (codes "pinned via /internal/policy") memory now entries
              (pause_auto_switch s))
      ])
