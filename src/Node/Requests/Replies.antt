-- ===== src/Node/Requests/Replies.antt =====
-- What the requests of a client are answered.
use distributive_cache.Base.{
  ℕ, ◌+◌, ◌≡◌, refl, ◌≢◌, true, false, Option, none, some, List, [], ◌∷◌, arith, ◌∙◌, ap, sym,
  subst, inl, inr, ◌⊎◌, Bool-cases, Text, text_keyed,
}
use distributive_cache.Base.Dict
use distributive_cache.Shared.{CacheKey, CacheEntry, CacheMetadata}
use distributive_cache.Shared.Errors.{ok, to_error_response, http_status}
use distributive_cache.Storage.{EvictionHook, StorageOptions, SetOptions, Storage, is_expired}
use distributive_cache.Storage.Engine
use distributive_cache.Storage.Removal
use distributive_cache.Storage.Rounds.{IsLawful}
use distributive_cache.Storage.Expiry.{get_live}
use distributive_cache.Storage.Written.{set-ok, write_entry, set_reads_back, old_version}
use distributive_cache.Node.Requests.Bodies.{IsAcceptable, IsUnacceptable, checked_body-HasVerdict}
use distributive_cache.Node.Requests.{
  CacheNode, PutRequestBody, TtlField, Reply, got, stored, Background, replicates_write,
  reply_status, absent, decode_cache_key_param, checked_ttl, checked_body, guarded, get_decoded,
  handle_get, put_checked, handle_put,
}

module _ {F V S : Type 0} where
  -- Refused with a status, and without a trace.
  abbrev pub IsRefused :
      ℕ → CacheNode F V S → Reply V × List (Background V) × CacheNode F V S → Type 0
  IsRefused status node (reply, work, node') =
      (reply_status reply ≡ status) × (work ≡ []) × (node' ≡ node)

module _ {F V S : Type 0} (hook : EvictionHook S) (size_of : V → ℕ) (o : StorageOptions)
    (now : ℕ) where
  -- Stored, answered and replicated once.
  abbrev pub IsDone :
      Option (PutRequestBody V)
      → CacheNode F V S
      → Reply V × List (Background V) × CacheNode F V S
      → Type 0
  IsDone body node (reply, work, node') =
      (k : CacheKey) × (v : V) × (ttl : TtlField) × (call : SetOptions) × (e : CacheEntry V)
      × (s : Storage V S) × IsAcceptable body k v ttl call
      × (Engine.set hook size_of o now k v call node.storage ≡ ok (e, s))
      × (reply ≡ stored k e.metadata.version node.node_id)
      × (work ≡ replicates_write k v e.metadata ∷ [])
      × (node' ≡ record node { storage = s })

  put_acceptable :
      (k : CacheKey) (v : V) (call : SetOptions) (node : CacheNode F V S)
      → k ≢ []
      → (e : CacheEntry V) × (s : Storage V S) × (Engine.set hook size_of o now k v call
            node.storage
          ≡ ok (e, s))
        × (put_checked hook size_of o now (ok (k, v, call)) node ≡ (
          stored k e.metadata.version node.node_id,
          replicates_write k v e.metadata ∷ [],
          record node { storage = s },
        ))
  unfolding put_checked
  put_acceptable k v call node named =
      let r = Engine.write hook size_of o now k v call node.storage in
      let done = set-ok hook size_of o now k v call node.storage named in
      let (_, value, _, _, _, _) = write_entry hook size_of o now k v call node.storage in
      (r.0, _, done, simp (done, value, put_checked) refl)

  -- A put does one of three things. On a node that is up, and with a body that has a key which is not empty, a
  -- value, and a positive time to live or none, the value is set in the store under the key with that time to
  -- live; the answer has the version that was written, and the write of that value with its metadata is the one
  -- thing replicated. On a node that is down, the put is refused with status 503. On a node that is up, and with
  -- a body that lacks one of these, it is refused with status 400. When it is refused, nothing is replicated and
  -- the node is as it was.
  pub handle_put-cases :
      (body : Option (PutRequestBody V)) (node : CacheNode F V S)
      → let r = handle_put hook size_of o now body node in
        ((node.faults.killed ≡ false) × IsDone body node r)
        ⊎ ((node.faults.killed ≡ true) × IsRefused 503 node r)
        ⊎ ((node.faults.killed ≡ false) × IsUnacceptable body × IsRefused 400 node r)
  unfolding handle_put guarded put_checked to_error_response http_status
  handle_put-cases body node = elim (Bool-cases node.faults.killed) [
    | inl down ↦ inr (
        inl (
          down,
          simp (down, handle_put, guarded, to_error_response, http_status) (refl, refl, refl),
        ))
    | inr up ↦ elim (checked_body-HasVerdict body) [
      | inl (t, failed, status, bad) ↦
          inr (
            inr (up, bad, simp (up, failed, handle_put, guarded, put_checked) (status, refl, refl)))
      | inr (k, v, ttl, call, passed, accepted) ↦
          let (e, s, done, answer) = put_acceptable k v call node accepted.1 in
          inl (
            up,
            (
              k,
              v,
              ttl,
              call,
              e,
              s,
              accepted,
              done,
              simp (up, passed, answer, handle_put, guarded),
              simp (up, passed, answer, handle_put, guarded),
              simp (up, passed, answer, handle_put, guarded),
            ),
          )
    ]
  ]

-- A body with a key and a value and nothing else.
abbrev pub plain : {V : Type 0} → CacheKey → V → PutRequestBody V
plain k v = record { key = some k; value = some v; ttl_ms = absent }

checked_plain :
    {V : Type 0} (k : CacheKey) (v : V)
    → k ≢ []
    → checked_body (some (plain k v)) ≡ ok (k, v, record { ttl_ms = none })
unfolding checked_body checked_ttl
checked_plain [] v h = absurd (h refl)
checked_plain (c ∷ k) v h = refl

module _ {F V S : Type 0} (hook : EvictionHook S) (size_of : V → ℕ) (o : StorageOptions) where
  put_plain :
      (now : ℕ) (k : CacheKey) (v : V) (e : CacheEntry V) (s : Storage V S) (node : CacheNode F V S)
      → k ≢ []
      → node.faults.killed ≡ false
      → Engine.set hook size_of o now k v (record { ttl_ms = none }) node.storage ≡ ok (e, s)
      → handle_put hook size_of o now (some (plain k v)) node ≡ (
        stored k e.metadata.version node.node_id,
        replicates_write k e.value e.metadata ∷ [],
        record node { storage = s },
      )
  unfolding handle_put guarded put_checked
  put_plain now k v e s node named alive done =
      simp (checked_plain k v named, alive, done, handle_put, guarded, put_checked)

  get_held :
      (decode_uri : Text → Option Text) (now accessed : ℕ) (raw : Text) (k : CacheKey)
      (e : CacheEntry V) (node : CacheNode F V S)
      → decode_uri raw ≡ some k
      → node.faults.killed ≡ false
      → Dict.get k node.storage.store ≡ some e
      → is_expired now e ≡ false
      → (m : CacheMetadata) × ((handle_get hook decode_uri now accessed raw node).0
          ≡ got k e.value m node.node_id)
        × (m.version ≡ e.metadata.version)
  unfolding handle_get guarded get_decoded decode_cache_key_param
  get_held decode_uri now accessed raw k e node named alive held live =
      let (x, found, _, value, _, _, version, _, _) =
        get_live hook now accessed k node.storage e held live in
      (
        x.metadata,
        simp (named, alive, found, value, handle_get, guarded, get_decoded, decode_cache_key_param),
        version,
      )

  -- On a node that is up, with a valid store, a lawful eviction hook and no default time to live: a put of a value
  -- under a key that is not empty answers a version one above the stored one and replicates that version. A get
  -- of the key after it answers the value with that version, unless the put filled the memory so that
  -- everything was evicted.
  pub handle_get-handle_put :
      (lawful : IsLawful hook) (decode_uri : Text → Option Text) (now later accessed : ℕ)
      (raw : Text) (k : CacheKey) (v : V) (node : CacheNode F V S)
      → decode_uri raw ≡ some k
      → k ≢ []
      → o.default_ttl_ms ≡ none
      → node.faults.killed ≡ false
      → Removal.IsValid node.storage
      → let (reply, work, node') = handle_put hook size_of o now (some (plain k v)) node in
        (m : CacheMetadata) × (reply ≡ stored k m.version node.node_id)
        × (m.version ≡ old_version (Dict.get k node.storage.store) + 1)
        × (work ≡ replicates_write k v m ∷ [])
        × (((x : CacheMetadata) × ((handle_get hook decode_uri later accessed raw node').0
                ≡ got k v x node.node_id)
              × (x.version ≡ m.version))
            ⊎ (node'.storage.store ≡ []))
  unfolding is_expired
  handle_get-handle_put lawful decode_uri now later accessed raw k v node decoded named lasting
        alive valid =
      let (e, s, done, value, version, expires, kept) =
        set_reads_back hook lawful size_of o now k v (record { ttl_ms = none }) node.storage valid
          named in
      let node' : CacheNode F V S = record node { storage = s } in
      let forever : e.metadata.expires_at ≡ none = ground (arith, expires, lasting) in
      let answer = put_plain now k v e s node named alive done in
      subst
        (λ r.
          (m : CacheMetadata) × (r.0 ≡ stored k m.version node.node_id)
          × (m.version ≡ old_version (Dict.get k node.storage.store) + 1)
          × (r.1 ≡ replicates_write k v m ∷ [])
          × (((x : CacheMetadata) × ((handle_get hook decode_uri later accessed raw r.2).0
                  ≡ got k v x node.node_id)
                × (x.version ≡ m.version))
              ⊎ (r.2.storage.store ≡ [])))
        (sym answer)
        (
          e.metadata,
          refl,
          version,
          ap (λ w. replicates_write k w e.metadata ∷ []) value,
          elim kept [
            | inr empty ↦ inr empty
            | inl held ↦
                let (x, found, same) =
                  get_held decode_uri later accessed raw k e node' decoded alive held
                    (rw (forever, is_expired) refl) in
                inl (x, found ∙ ap (λ w. got k w x node.node_id) value, same)
          ],
        )
