-- ===== src/Node/Lost.antt =====
-- Writes that a replica loses or refuses, since it counts versions of its own.
use distributive_cache.Base.{
  ℕ, ◌+◌, ◌≤◌, ◌<◌, ◌≡◌, ◌≢◌, true, false, none, some, [], leb, arith, ◌∙◌, ap, text_keyed,
}
use distributive_cache.Base.Dict
use distributive_cache.Shared.{CacheKey, CacheEntry}
use distributive_cache.Shared.Errors.{ok}
use distributive_cache.Storage.{EvictionHook, StorageOptions, Storage}
use distributive_cache.Storage.Engine.{set}
use distributive_cache.Storage.Written.{old_version}
use distributive_cache.Node.Server.{
  apply_remote_write, apply_restored_entry, remaining_ttl, store_of, is_stale,
}
use distributive_cache.Node.Unlimited.{IsUnlimited, set_unlimited}
use distributive_cache.Node.Deliveries.{
  Delivery, peek_lasting, peek_absent, apply_fresh, apply_stale,
}

module _ {V S : Type 0} (hook : EvictionHook S) (size_of : V → ℕ) (o : StorageOptions)
    (free : IsUnlimited o) (k : CacheKey) (named : k ≢ []) where
  -- Without limits and without a default time to live: of two versions above 1 of a key that the replica lacks,
  -- neither of which expires, delivered the newer one first, the older one is applied all the same, and the
  -- replica ends with the older value as its version 2.
  pub late_delivery_overwrites :
      (newer older : Delivery) (v w : V) (s : Storage V S)
      → Dict.get k s.store ≡ none
      → 1 < older.metadata.version
      → older.metadata.version < newer.metadata.version
      → newer.metadata.expires_at ≡ none
      → older.metadata.expires_at ≡ none
      → (s' : Storage V S) × (s'' : Storage V S) × (apply_remote_write hook size_of o newer.looked
            newer.at newer.written k v newer.metadata s
          ≡ ok s')
        × (apply_remote_write hook size_of o older.looked older.at older.written k w older.metadata
              s'
            ≡ ok s'')
        × (e : CacheEntry V) × (Dict.get k s''.store ≡ some e)
        × (e.value ≡ w)
        × (e.metadata.version ≡ 2)
  late_delivery_overwrites newer older v w s absent low order lasting lasts =
      let (s', e, done, held, value, version, expires) =
        apply_fresh hook size_of o free k named newer.looked newer.at newer.written v newer.metadata
          s
          (ap (λ x. is_stale x newer.metadata) (peek_absent hook size_of o newer.looked k s absent))
          lasting in
      let one : e.metadata.version ≡ 1 = version ∙ ap (λ j. j + 1) (ap old_version absent) in
      let fresh : leb older.metadata.version e.metadata.version ≡ false = ground arith in
      let (s'', e', done', held', value', version', expires') =
        apply_fresh hook size_of o free k named older.looked older.at older.written w older.metadata
          s'
          (ap (λ x. is_stale x older.metadata)
              (peek_lasting hook size_of o older.looked k s' e held expires)
            ∙ fresh)
          lasts in
      (
        s',
        s'',
        done,
        done',
        e',
        held',
        value',
        version' ∙ ap (λ j. j + 1) (ap old_version held ∙ one),
      )

  -- A node that restored a key from a snapshot counts its versions from 1 again. Without limits and without a
  -- default time to live, its next write to the key is refused by a replica that still holds the key, not
  -- expiring, at version 2 or more, whatever was written.
  pub restored_write_is_refused :
      (at written : ℕ) (entry : CacheEntry V) (s : Storage V S)
      → entry.key ≡ k
      → Dict.get k s.store ≡ none
      → (now looked at' written' : ℕ) (v : V) (replica : Storage V S) (x : CacheEntry V)
      → Dict.get k replica.store ≡ some x
      → x.metadata.expires_at ≡ none
      → 2 ≤ x.metadata.version
      → (s' : Storage V S) × (e : CacheEntry V) × (s'' : Storage V S) × (apply_restored_entry hook
            size_of o at written entry s
          ≡ ok s')
        × (set hook size_of o now k v (record { ttl_ms = none }) s' ≡ ok (e, s''))
        × (e.value ≡ v)
        × (apply_remote_write hook size_of o looked at' written' k e.value e.metadata replica
            ≡ ok replica)
  unfolding apply_restored_entry
  restored_write_is_refused at written entry s key absent now looked at' written' v replica x held
        lasts high =
      let call = remaining_ttl at entry.metadata.expires_at in
      let (e, s', done, here, _, version, _) =
        set_unlimited hook size_of o free written k entry.value call s named in
      let (e', s'', done', _, value', version', _) =
        set_unlimited hook size_of o free now k v (record { ttl_ms = none }) s' named in
      let one : e.metadata.version ≡ 1 = version ∙ ap (λ j. j + 1) (ap old_version absent) in
      let two : e'.metadata.version ≡ 2 = version' ∙ ap (λ j. j + 1) (ap old_version here ∙ one) in
      let stale : leb e'.metadata.version x.metadata.version ≡ true = ground arith in
      (
        s',
        e',
        s'',
        rw (key, apply_restored_entry) (ap store_of done),
        done',
        value',
        apply_stale hook size_of o free k named looked at' written' e'.value e'.metadata replica (
            ap (λ y. is_stale y e'.metadata)
              (peek_lasting hook size_of o looked k replica x held lasts)
            ∙ stale),
      )
