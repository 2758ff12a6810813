-- ===== src/Snapshot/Restored.antt =====
-- What is restored.
use distributive_cache.Base.{
  ℕ, suc, zero, ◌-◌, ◌<◌, ◌≡◌, refl, ◌≢◌, leb, Bool, true, false, Option, none, some, List, [], ◌∷◌,
  ◌++◌, arith, length, All, sym, ap, ◌∙◌, Text, Text-discrete, text_keyed, Bool-cases, inl, inr,
  if◌then◌else◌, Option-cases, subst, if_pos, if_neg, ite,
}
use distributive_cache.Base.Dict
use distributive_cache.Base.Dict.{Dict}
use distributive_cache.Shared.{CacheEntry}
use distributive_cache.Shared.Errors.{Result-cases, Result, ok, err}
use distributive_cache.Snapshot.{
  SnapshotMetadata, SnapshotPayload, StoredSnapshot, SnapshotStore, SnapshotManager, Codec,
  sort_newest, drop, write, write_latest_pointer, list, delete, delete_all, prune_old_snapshots,
  finish_snapshot, take_snapshot, begin_snapshot, serialize, decode, restore_by_id, restore_latest,
  mismatch,
}
use distributive_cache.Snapshot.Sorted.{All-sort, All-drop, sort_newest_last}
use distributive_cache.Snapshot.Retention.{metadata_in, IsValid, absent-apart}

-- JSON and gzip give back what they were given.
pub record IsFaithful {V B : Type 0} (c : Codec V B) : Type 0 where
  pub parses : (es : List (CacheEntry V)) (b : B) → c.stringify es ≡ ok b → c.parse b ≡ ok es
  pub unzips : (b z : B) → c.gzip b ≡ ok z → c.gunzip z ≡ ok b

module _ {B : Type 0} where
  get-delete_all :
      (k : Text) (ms : List SnapshotMetadata) (s : SnapshotStore B)
      → All (λ m. k ≢ m.snapshot_id) ms
      → (Dict.get k (delete_all ms s).data_of ≡ Dict.get k s.data_of)
        × ((delete_all ms s).latest ≡ s.latest)
  unfolding delete_all delete
  get-delete_all k [] s a = (refl, refl)
  get-delete_all k (m ∷ ms) s a =
      let (e, f) = get-delete_all k ms (delete m.snapshot_id s) a.1 in
      (e ∙ Dict.get-delete_ne m.snapshot_id k s.data_of (λ h. a.0 (sym h)), f)

  -- The newest snapshot is not pruned.
  prune_keeps :
      (s : SnapshotManager B) (m : SnapshotMetadata) (ms : List SnapshotMetadata)
      → list s.store ≡ m ∷ ms
      → 0 < s.max_retained
      → All (λ d. m.snapshot_id ≢ d.snapshot_id) ms
      → let s' = (prune_old_snapshots s).1 in
        (Dict.get m.snapshot_id s'.store.data_of ≡ Dict.get m.snapshot_id s.store.data_of)
        × (s'.store.latest ≡ s.store.latest)
  unfolding prune_old_snapshots
  prune_keeps s m ms e h a = elim (Bool-cases (leb (length (list s.store)) s.max_retained)) [
    | inl f ↦ rw (f, prune_old_snapshots) (refl, refl)
    | inr f ↦
        rw (f, prune_old_snapshots)
          (get-delete_all m.snapshot_id (drop s.max_retained (list s.store)) s.store (
            subst (λ all. All (λ d. m.snapshot_id ≢ d.snapshot_id) (drop s.max_retained all))
              (sym e) (drop_others s.max_retained h)))
  ]
    where
      drop_others : (n : ℕ) → 0 < n → All (λ d. m.snapshot_id ≢ d.snapshot_id) (drop n (m ∷ ms))
      drop_others zero h = absurd (omega arith)
      drop_others (suc n) h = All-drop (λ d. m.snapshot_id ≢ d.snapshot_id) n ms a

  metadata_in-set_new :
      (k : Text) (x : StoredSnapshot B) (d : Dict Text (StoredSnapshot B))
      → Dict.get k d ≡ none
      → metadata_in (Dict.set k x d) ≡ metadata_in d ++ (x.metadata ∷ [])
  unfolding Dict.get Dict.set
  metadata_in-set_new k x [] h = refl
  metadata_in-set_new k x (e ∷ d) h = ground (arith, metadata_in-set_new k x d)

module _ {V B : Type 0} (c : Codec V B) where
  abbrev payload_of :
      StoredSnapshot B → Result (List (CacheEntry V)) → Result (Option (SnapshotPayload V))
  payload_of stored (err e) = err e
  payload_of stored (ok entries) =
      ok (some (record { metadata = stored.metadata; entries = entries }))

  payload_of-ok :
      (stored : StoredSnapshot B) (r : Result (List (CacheEntry V))) (p : SnapshotPayload V)
      → payload_of stored r ≡ ok (some p)
      → (p.metadata ≡ stored.metadata) × (r ≡ ok p.entries)
  payload_of-ok stored (err e) p h = cc
  payload_of-ok stored (ok entries) p h = ground arith

  restore_stored :
      (id : Text) (s : SnapshotManager B) (stored : StoredSnapshot B)
      → Dict.get id s.store.data_of ≡ some stored
      → restore_by_id c id s
        ≡ ite
            (Text-discrete (c.sha256 stored.buffer) stored.metadata.checksum)
            (payload_of stored (decode c stored))
            (err (mismatch c id s.node_id stored.metadata (c.sha256 stored.buffer)))
  unfolding restore_by_id
  restore_stored id s stored e = rw (e, restore_by_id) (ground arith)

  -- Only an intact snapshot is restored: what is answered for an id is stored under it, with a buffer that
  -- has the checksum noted for it, and the entries are decoded from that buffer.
  pub restore_by_id-intact :
      (id : Text) (s : SnapshotManager B) (p : SnapshotPayload V)
      → restore_by_id c id s ≡ ok (some p)
      → (stored : StoredSnapshot B) × (Dict.get id s.store.data_of ≡ some stored)
        × (p.metadata ≡ stored.metadata)
        × (c.sha256 stored.buffer ≡ stored.metadata.checksum)
        × (decode c stored ≡ ok p.entries)
  unfolding restore_by_id
  restore_by_id-intact id s p h = elim (Option-cases (Dict.get id s.store.data_of)) [
    | inl e ↦ absurd (cc (rw (e, restore_by_id) at h))
    | inr (stored, e) ↦ elim (Text-discrete (c.sha256 stored.buffer) stored.metadata.checksum) [
      | yes q ↦
          let h' =
            sym (if_pos (Text-discrete _ _) q _ _) ∙ sym (restore_stored id s stored e) ∙ h in
          let (same, decoded) = payload_of-ok stored (decode c stored) p h' in
          (stored, e, same, q, decoded)
      | no q ↦ absurd (cc (sym h ∙ restore_stored id s stored e ∙ if_neg (Text-discrete _ _) q _ _))
    ]
  ]

  -- The buffer after the compression, if there is one.
  abbrev packed : Bool → B → Result B
  packed compress serialized = if compress then c.gzip serialized else ok serialized

  abbrev unpacked : Bool → B → Result B
  unpacked compressed buffer = if compressed then c.gunzip buffer else ok buffer

  unpacked-packed :
      (compress : Bool) (b z : B)
      → IsFaithful c
      → packed compress b ≡ ok z
      → unpacked compress z ≡ ok b
  unpacked-packed true b z f h = f.unzips b z h
  unpacked-packed false b z f h = cc

  serialize_parts :
      (compress : Bool) (es : List (CacheEntry V)) (z : B) (sum : Text)
      → serialize c compress es ≡ ok (z, sum)
      → (b : B) × (c.stringify es ≡ ok b) × (packed compress b ≡ ok z) × (c.sha256 z ≡ sum)
  unfolding serialize
  serialize_parts compress es z sum h = elim (Result-cases (c.stringify es)) [
    | inl (e, p) ↦ absurd (cc (rw (p, serialize) at h))
    | inr (b, p) ↦ elim (Result-cases (packed compress b)) [
      | inl (e, q) ↦ absurd (cc (rw (p, q, serialize) at h))
      | inr (z', q) ↦
          let h' : Path (Result (B × Text)) (ok (z', c.sha256 z')) (ok (z, sum)) =
            rw (p, q, serialize) at h in
          (b, p, cc, cc)
    ]
  ]

  decode-serialize :
      (es : List (CacheEntry V)) (z : B) (sum : Text) (m : SnapshotMetadata)
      → IsFaithful c
      → serialize c m.compressed es ≡ ok (z, sum)
      → (decode c (record { metadata = m; buffer = z }) ≡ ok es) × (c.sha256 z ≡ sum)
  unfolding decode
  decode-serialize es z sum m f h =
      let (b, p, q, checked) = serialize_parts m.compressed es z sum h in
      (rw (unpacked-packed m.compressed b z f q, decode) (f.parses es b p), checked)

  stored_parts :
      (id : Text) (s : SnapshotManager B) (stored : StoredSnapshot B) (es : List (CacheEntry V))
      → Dict.get id s.store.data_of ≡ some stored
      → c.sha256 stored.buffer ≡ stored.metadata.checksum
      → decode c stored ≡ ok es
      → restore_by_id c id s ≡ ok (some (record { metadata = stored.metadata; entries = es }))
  stored_parts id s stored es e q d =
      restore_stored id s stored e ∙ if_pos (Text-discrete _ _) q _ _ ∙ ap (payload_of stored) d

  latest_parts :
      (s : SnapshotManager B) (pointer : SnapshotMetadata)
      → s.store.latest ≡ some pointer
      → restore_latest c s ≡ restore_by_id c pointer.snapshot_id s
  unfolding restore_latest
  latest_parts s pointer e = simp (e, restore_latest)

  finish_restores :
      (id : Text) (started ended : ℕ) (es : List (CacheEntry V)) (z : B) (sum : Text)
      (s : SnapshotManager B)
      → IsFaithful c
      → serialize c s.compress es ≡ ok (z, sum)
      → IsValid s.store
      → Dict.get id s.store.data_of ≡ none
      → All (λ d. d.created_at < started) (metadata_in s.store.data_of)
      → 0 < s.max_retained
      → let (r, events, s') = finish_snapshot c (ok (z, sum)) id started ended es s in
        (m : SnapshotMetadata) × (r ≡ ok m)
        × (restore_latest c s' ≡ ok (some (record { metadata = m; entries = es })))
  unfolding finish_snapshot restore_latest write_latest_pointer write list
  finish_restores id started ended es z sum s f h v new old room =
      let m : SnapshotMetadata = record {
        snapshot_id = id;
        node_id = s.node_id;
        created_at = started;
        entry_count = length es;
        size_bytes = c.byte_length z;
        duration_ms = ended - started;
        checksum = sum;
        compressed = s.compress;
      } in
      let d = s.store.data_of in
      let stored : StoredSnapshot B = record { metadata = m; buffer = z } in
      let s' : SnapshotManager B = record s {
        store = write_latest_pointer m (write id z m s.store);
      } in
      let (decoded, checked) = decode-serialize es z sum m f h in
      let newest =
        ap sort_newest (metadata_in-set_new id stored d new)
        ∙ sort_newest_last (metadata_in d) m old in
      let apart =
        All-sort (λ x. id ≢ x.snapshot_id) (metadata_in d) (absent-apart id d new v.keyed) in
      let (kept, latest) = prune_keeps s' m (sort_newest (metadata_in d)) newest room apart in
      (
        m,
        refl,
        latest_parts _ m latest
            ∙ stored_parts id _ stored es (kept ∙ Dict.get-set_self id stored d) checked decoded,
      )

  -- With JSON and gzip that give back what they were given, no snapshot in progress, a valid store with room for at
  -- least one snapshot, a new id and a clock past all stored snapshots: if the entries can be encoded, the call
  -- answers a snapshot, and what is then restored as the latest is that snapshot with the same entries.
  pub take_snapshot-restore_latest :
      (id : Text) (started ended : ℕ) (es : List (CacheEntry V)) (zs : B × Text)
      (s : SnapshotManager B)
      → IsFaithful c
      → serialize c s.compress es ≡ ok zs
      → IsValid s.store
      → Dict.get id s.store.data_of ≡ none
      → All (λ d. d.created_at < started) (metadata_in s.store.data_of)
      → 0 < s.max_retained
      → s.snapshot_in_progress ≡ false
      → let (r, events, s') = take_snapshot c id started ended es s in
        (m : SnapshotMetadata) × (r ≡ ok m)
        × (restore_latest c s' ≡ ok (some (record { metadata = m; entries = es })))
  unfolding take_snapshot begin_snapshot
  take_snapshot-restore_latest id started ended es (z, sum) s f h v new old room free =
      rw (free, h, take_snapshot, begin_snapshot)
        (finish_restores id started ended es z sum (record s { snapshot_in_progress = true }) f h v
          new old room)
