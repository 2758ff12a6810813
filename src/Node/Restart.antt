-- ===== src/Node/Restart.antt =====
-- A node that is stopped and started: its last snapshot is restored into an empty store.
use distributive_cache.Base.{
  ℕ, ◌<◌, ◌≡◌, refl, ◌≢◌, false, Option, none, some, List, [], ◌∷◌, ◌∙◌, ap, sym, subst, length,
  All, Text, text_keyed, Text-discrete, ite, length-map,
}
use distributive_cache.Base.Dict
use distributive_cache.Base.Dict.{Dict}
use distributive_cache.Shared.{CacheKey, CacheEntry}
use distributive_cache.Shared.Errors.{ok}
use distributive_cache.Storage.{EvictionHook, StorageOptions, Storage}
use distributive_cache.Storage.Engine.{clear}
use distributive_cache.Snapshot.{
  SnapshotManager, SnapshotMetadata, Codec, serialize, take_snapshot, restore_latest,
}
use distributive_cache.Snapshot.Retention
use distributive_cache.Snapshot.Retention.{metadata_in}
use distributive_cache.Snapshot.Restored.{IsFaithful, take_snapshot-restore_latest}
use distributive_cache.Node.Recovery.{Restoration, apply_all, recover, assert_healthy, restore}
use distributive_cache.Node.Server.{restoration, apply_restored_entry, remaining_ttl, store_of}
use distributive_cache.Node.Unlimited.{IsUnlimited, set_unlimited-get}
use distributive_cache.Node.Cleanup.{IsKeyed}

abbrev pub value_at : {V : Type 0} → Option (CacheEntry V) → Option V
value_at none = none
value_at (some e) = some e.value

abbrev first : {V : Type 0} → Option V → Option V → Option V
first (some v) other = some v
first none other = other

nothing_else : {V : Type 0} (x : Option V) → first x none ≡ x
nothing_else none = refl
nothing_else (some v) = refl

-- A recovery all of whose entries are applied.
recover_clean :
    {V S : Type 0} (local : Restoration V S) (node : Text) (from until : ℕ) (m : SnapshotMetadata)
    (es : List (CacheEntry V)) (old t : S)
    → apply_all local es (local.clear_storage old) ≡ (t, none)
    → let r =
        recover local node from until (ok (some (record { metadata = m; entries = es }))) old in
      (assert_healthy r.0 ≡ none) × (r.0.entries_restored_from_snapshot ≡ length es) × (r.1 ≡ t)
unfolding recover restore assert_healthy
recover_clean local node from until m es old t done =
    rw (done, recover, restore, assert_healthy) (refl, refl, ap (λ x. x.0) done)

abbrev pub IsNamed : {V : Type 0} → Dict CacheKey (CacheEntry V) → Type 0
IsNamed = All (λ e. e.0 ≢ [])

module _ {V S : Type 0} (hook : EvictionHook S) (size_of : V → ℕ) (o : StorageOptions)
    (free : IsUnlimited o) (at written : CacheEntry V → ℕ) where
  apply_entry-get :
      (e : CacheEntry V) (t : Storage V S)
      → e.key ≢ []
      → (t' : Storage V S) × (apply_restored_entry hook size_of o (at e) (written e) e t ≡ ok t')
        × ((j : CacheKey)
            → value_at (Dict.get j t'.store)
              ≡ ite (Text-discrete e.key j) (some e.value) (value_at (Dict.get j t.store)))
  unfolding apply_restored_entry
  apply_entry-get e t named =
      let (e', t', done, found, value) =
        set_unlimited-get hook size_of o free (written e) e.key e.value
          (remaining_ttl (at e) e.metadata.expires_at) t named in
      (
        t',
        ap store_of done,
        λ j. ap value_at (found j) ∙ value_of_ite (Text-discrete e.key j) e' _ e.value value,
      )
    where
      value_of_ite :
          {P : Type 0} (d : Dec P) (e' : CacheEntry V) (x : Option (CacheEntry V)) (v : V)
          → e'.value ≡ v
          → value_at (ite d (some e') x) ≡ ite d (some v) (value_at x)
      value_of_ite (yes p) e' x v h = ap some h
      value_of_ite (no p) e' x v h = refl

  merged :
      {P : Type 0} (d : Dec P) (e : CacheEntry V) (x : Option (CacheEntry V)) (y : Option V)
      → (P → x ≡ none)
      → first (value_at x) (ite d (some e.value) y) ≡ first (value_at (ite d (some e) x)) y
  merged (yes p) e x y h = ap (λ z. first (value_at z) (some e.value)) (h p)
  merged (no p) e x y h = refl

  apply_all-get :
      (m : Dict CacheKey (CacheEntry V)) (t : Storage V S)
      → Dict.IsDistinct m
      → IsKeyed m
      → IsNamed m
      → (t' : Storage V S) × (apply_all (restoration hook size_of o at written) (Dict.values m) t
          ≡ (t', none))
        × ((j : CacheKey)
            → value_at (Dict.get j t'.store)
              ≡ first (value_at (Dict.get j m)) (value_at (Dict.get j t.store)))
  unfolding apply_all restoration Dict.get
  apply_all-get [] t d v named = (t, refl, λ j. refl)
  apply_all-get (e ∷ m) t d v named =
      let (t', done, found) = apply_entry-get e.1 t (λ z. named.0 (sym v.0 ∙ z)) in
      let (t'', rest, found') = apply_all-get m t' d.1 v.1 named.1 in
      (
        t'',
        rw (done, apply_all, restoration) rest,
        λ j.
            found' j
            ∙ ap (first (value_at (Dict.get j m))) (found j)
            ∙ ap
                (λ k.
                  first (value_at (Dict.get j m))
                    (ite (Text-discrete k j) (some e.1.value) (value_at (Dict.get j t.store))))
                v.0
            ∙ merged (Text-discrete e.0 j) e.1 (Dict.get j m) _
                (λ p. subst (λ k. Dict.get k m ≡ none) p d.0),
      )

  -- With JSON and gzip that give back what they were given, no snapshot in progress, a valid snapshot store with
  -- room for at least one, a new id, a clock past all stored snapshots and entries that can be encoded; with options
  -- without limits and without a default time to live, and a store whose entries stand once, under their own
  -- keys, none of which is empty: after a snapshot of the store and a recovery from it, started with any storage,
  -- the check passes, the report counts all entries, and the new storage has the same value under each key.
  pub take_snapshot-recover :
      {B : Type 0} (c : Codec V B) (id : Text) (started ended : ℕ) (zs : B × Text)
      (manager : SnapshotManager B) (s old : Storage V S) (node : Text) (from until : ℕ)
      (j : CacheKey)
      → IsFaithful c
      → serialize c manager.compress (Dict.values s.store) ≡ ok zs
      → Retention.IsValid manager.store
      → Dict.get id manager.store.data_of ≡ none
      → All (λ d. d.created_at < started) (metadata_in manager.store.data_of)
      → 0 < manager.max_retained
      → manager.snapshot_in_progress ≡ false
      → Dict.IsDistinct s.store
      → IsKeyed s.store
      → IsNamed s.store
      → let (r, events, manager') =
          take_snapshot c id started ended (Dict.values s.store) manager in
        let (report, new) =
          recover
            (restoration hook size_of o at written)
            node
            from
            until
            (restore_latest c manager')
            old in
        (assert_healthy report ≡ none)
        × (report.entries_restored_from_snapshot ≡ length s.store)
        × (value_at (Dict.get j new.store) ≡ value_at (Dict.get j s.store))
  unfolding restoration clear Dict.get
  take_snapshot-recover c id started ended zs manager s old node from until j faithful packs valid
        new_id before room idle distinct keyed named =
      let es = Dict.values s.store in
      let local = restoration hook size_of o at written in
      let (m, _, latest) =
        take_snapshot-restore_latest c id started ended es zs manager faithful packs valid new_id
          before room idle in
      let (t, done, found) = apply_all-get s.store (clear hook old) distinct keyed named in
      let (healthy, count, left) = recover_clean local node from until m es old t done in
      subst
        (λ latest.
          let (report, new) = recover local node from until latest old in
          (assert_healthy report ≡ none)
          × (report.entries_restored_from_snapshot ≡ length s.store)
          × (value_at (Dict.get j new.store) ≡ value_at (Dict.get j s.store)))
        (sym latest)
        (
          healthy,
          count ∙ length-map s.store (λ e. e.1),
          ap (λ x. value_at (Dict.get j x.store)) left
              ∙ found j
              ∙ nothing_else (value_at (Dict.get j s.store)),
        )
