-- ===== src/Snapshot/Retention.antt =====
-- How many snapshots the store keeps.
use distributive_cache.Base.{
  ℕ, suc, ◌+◌, ◌-◌, ◌≤◌, ◌≡◌, refl, ◌≢◌, leb, true, false, none, List, [], ◌∷◌, map, arith, length,
  All, All-map, sym, ap, ◌∙◌, Text, text_keyed, is_some, Bool-cases, inl, inr, ◌⊎◌, length-map,
  Option-cases, subst,
}
use distributive_cache.Base.Dict
use distributive_cache.Base.Dict.{Dict}
use distributive_cache.Shared.{CacheEntry}
use distributive_cache.Shared.Errors.{Result, ok, err, Thrown}
use distributive_cache.Snapshot.{
  SnapshotMetadata, StoredSnapshot, SnapshotStore, SnapshotManager, Codec, drop, write,
  write_latest_pointer, list, SnapshotEvent, delete, delete_all, prune_old_snapshots,
  finish_snapshot, take_snapshot, begin_snapshot, serialize,
}
use distributive_cache.Snapshot.Sorted.{
  IsApart, All-sort, All-drop, sort-IsApart, drop-IsApart, length-sort, length-drop,
}

module _ {B : Type 0} where
  abbrev pub metadata_in : Dict Text (StoredSnapshot B) → List SnapshotMetadata
  metadata_in d = map (λ x. x.metadata) (Dict.values d)

  abbrev pub IsKeyed : Dict Text (StoredSnapshot B) → Type 0
  IsKeyed = All (λ e. e.1.metadata.snapshot_id ≡ e.0)

  -- Each snapshot is stored once, under its own id.
  pub record IsValid (s : SnapshotStore B) : Type 0 where
    pub distinct : Dict.IsDistinct s.data_of
    pub keyed : IsKeyed s.data_of

  abbrev pub IsStored : Dict Text (StoredSnapshot B) → SnapshotMetadata → Type 0
  IsStored d m = Dict.has m.snapshot_id d ≡ true

  set-IsKeyed :
      (k : Text) (x : StoredSnapshot B) (d : Dict Text (StoredSnapshot B))
      → x.metadata.snapshot_id ≡ k
      → IsKeyed d
      → IsKeyed (Dict.set k x d)
  unfolding Dict.set
  set-IsKeyed k x [] h v = (h, tt)
  set-IsKeyed k x (e ∷ d) h v = ground (arith, set-IsKeyed k x d h v.1)

  delete-IsKeyed :
      (k : Text) (d : Dict Text (StoredSnapshot B)) → IsKeyed d → IsKeyed (Dict.delete k d)
  unfolding Dict.delete
  delete-IsKeyed k [] v = tt
  delete-IsKeyed k (e ∷ d) v = ground (arith, delete-IsKeyed k d v.1)

  pub write-IsValid :
      (k : Text) (b : B) (m : SnapshotMetadata) (s : SnapshotStore B)
      → m.snapshot_id ≡ k
      → IsValid s
      → IsValid (write k b m s)
  unfolding write
  write-IsValid k b m s h v = record {
    distinct = Dict.set-IsDistinct k (record { metadata = m; buffer = b }) s.data_of v.distinct;
    keyed = set-IsKeyed k (record { metadata = m; buffer = b }) s.data_of h v.keyed;
  }

  delete-IsValid : (k : Text) (s : SnapshotStore B) → IsValid s → IsValid (delete k s)
  unfolding delete
  delete-IsValid k s v = record {
    distinct = Dict.delete-IsDistinct k s.data_of v.distinct;
    keyed = delete-IsKeyed k s.data_of v.keyed;
  }

  -- An id that is not stored is the id of none.
  pub absent-apart :
      (k : Text) (d : Dict Text (StoredSnapshot B))
      → Dict.get k d ≡ none
      → IsKeyed d
      → All (λ m. k ≢ m.snapshot_id) (metadata_in d)
  unfolding Dict.get
  absent-apart k [] h v = tt
  absent-apart k (e ∷ d) h v = ground (arith, absent-apart k d)

  metadata-IsApart :
      (d : Dict Text (StoredSnapshot B)) → Dict.IsDistinct d → IsKeyed d → IsApart (metadata_in d)
  metadata-IsApart [] u v = tt
  metadata-IsApart (e ∷ d) u v = (
    subst (λ k. All (λ m. k ≢ m.snapshot_id) (metadata_in d)) (sym v.0)
        (absent-apart e.0 d u.0 v.1),
    metadata-IsApart d u.1 v.1,
  )

  has_cons :
      (e : Text × StoredSnapshot B) (d : Dict Text (StoredSnapshot B)) (m : SnapshotMetadata)
      → IsStored d m
      → IsStored (e ∷ d) m
  unfolding Dict.get
  has_cons e d m h = ground arith

  has_head :
      (e : Text × StoredSnapshot B) (d : Dict Text (StoredSnapshot B))
      → e.1.metadata.snapshot_id ≡ e.0
      → IsStored (e ∷ d) e.1.metadata
  unfolding Dict.get
  has_head e d h = ground arith

  metadata-IsStored :
      (d : Dict Text (StoredSnapshot B)) → IsKeyed d → All (IsStored d) (metadata_in d)
  metadata-IsStored [] v = tt
  metadata-IsStored (e ∷ d) v = (
    has_head e d v.0,
    All-map (IsStored d) (IsStored (e ∷ d)) (metadata_in d) (has_cons e d)
        (metadata-IsStored d v.1),
  )

  still-IsStored :
      (k : Text) (d : Dict Text (StoredSnapshot B)) (ms : List SnapshotMetadata)
      → All (λ m. k ≢ m.snapshot_id) ms
      → All (IsStored d) ms
      → All (IsStored (Dict.delete k d)) ms
  still-IsStored k d [] a h = tt
  still-IsStored k d (m ∷ ms) a h =
      (ap is_some (Dict.get-delete_ne k m.snapshot_id d a.0) ∙ h.0, still-IsStored k d ms a.1 h.1)

  length-delete_stored :
      (m : SnapshotMetadata) (d : Dict Text (StoredSnapshot B))
      → Dict.IsDistinct d
      → IsStored d m
      → suc (length (Dict.delete m.snapshot_id d)) ≡ length d
  length-delete_stored m d u h = elim (Option-cases (Dict.get m.snapshot_id d)) [
    | inl e ↦ absurd (cc (ap is_some e))
    | inr (x, e) ↦ Dict.length-delete m.snapshot_id x d u e
  ]

  -- Deleting stored snapshots of different ids.
  length-delete_all :
      (ms : List SnapshotMetadata) (s : SnapshotStore B)
      → IsValid s
      → IsApart ms
      → All (IsStored s.data_of) ms
      → IsValid (delete_all ms s)
        × (length (delete_all ms s).data_of + length ms ≡ length s.data_of)
  unfolding delete_all delete
  length-delete_all [] s v a h = (v, omega arith)
  length-delete_all (m ∷ ms) s v a h =
      let (w, e) =
        length-delete_all ms (delete m.snapshot_id s) (delete-IsValid m.snapshot_id s v) a.1
          (still-IsStored m.snapshot_id s.data_of ms a.0 h.1) in
      (w, omega (arith, e, length-delete_stored m s.data_of v.distinct h.0))

  length-list : (s : SnapshotStore B) → length (list s) ≡ length s.data_of
  unfolding list
  length-list s =
      length-sort (metadata_in s.data_of)
      ∙ length-map (Dict.values s.data_of) (λ x. x.metadata)
      ∙ length-map s.data_of (λ e. e.1)

  pub prune-retains :
      (s : SnapshotManager B)
      → IsValid s.store
      → let s' = (prune_old_snapshots s).1 in
        IsValid s'.store × (length s'.store.data_of ≤ s.max_retained)
  unfolding prune_old_snapshots list
  prune-retains s v = elim (Bool-cases (leb (length (list s.store)) s.max_retained)) [
    | inl e ↦ rw (e, prune_old_snapshots, list) (v, ground (arith, length-list s.store))
    | inr e ↦
        let all = list s.store in
        let apart =
          sort-IsApart (metadata_in s.store.data_of)
            (metadata-IsApart s.store.data_of v.distinct v.keyed) in
        let stored =
          All-sort (IsStored s.store.data_of) (metadata_in s.store.data_of)
            (metadata-IsStored s.store.data_of v.keyed) in
        let (w, e') =
          length-delete_all (drop s.max_retained all) s.store v
            (drop-IsApart s.max_retained all apart)
            (All-drop (IsStored s.store.data_of) s.max_retained all stored) in
        let dropped = length-drop s.max_retained all (ground arith) in
        rw (e, prune_old_snapshots, list) (w, omega (arith, e', dropped, length-list s.store))
  ]

module _ {V B : Type 0} (c : Codec V B) where
  -- What a call may come to: a new snapshot and a store within its limit, or an error and the store as it was.
  abbrev pub IsSettled :
      SnapshotManager B → Result SnapshotMetadata × List SnapshotEvent × SnapshotManager B → Type 0
  IsSettled s (r, events, s') =
      ((m : SnapshotMetadata) × (r ≡ ok m)
        × IsValid s'.store
        × (length s'.store.data_of ≤ s.max_retained))
      ⊎ ((e : Thrown) × (r ≡ err e) × (s'.store ≡ s.store))

  finish-retains :
      (r : Result (B × Text)) (id : Text) (started ended : ℕ) (entries : List (CacheEntry V))
      (s : SnapshotManager B)
      → IsValid s.store
      → IsSettled s (finish_snapshot c r id started ended entries s)
        × ((finish_snapshot c r id started ended entries s).2.snapshot_in_progress ≡ false)
  unfolding finish_snapshot write_latest_pointer
  finish-retains (err e) id started ended entries s v = (inr (e, refl, refl), refl)
  finish-retains (ok (b, sum)) id started ended entries s v =
      let m : SnapshotMetadata = record {
        snapshot_id = id;
        node_id = s.node_id;
        created_at = started;
        entry_count = length entries;
        size_bytes = c.byte_length b;
        duration_ms = ended - started;
        checksum = sum;
        compressed = s.compress;
      } in
      let w = write-IsValid id b m s.store refl v in
      let stored = write_latest_pointer m (write id b m s.store) in
      let pruned =
        prune-retains (record s { store = stored })
          (record { distinct = w.distinct; keyed = w.keyed }) in
      (inl (m, refl, pruned.0, pruned.1), refl)

  -- On a store that holds each snapshot once, under its own id: a snapshot that is taken keeps it so, with no more
  -- snapshots than the limit, and a call that fails leaves the store as it was. Either way another snapshot can be
  -- taken exactly if this one could.
  pub take_snapshot-retains :
      (id : Text) (started ended : ℕ) (entries : List (CacheEntry V)) (s : SnapshotManager B)
      → IsValid s.store
      → let r = take_snapshot c id started ended entries s in
        IsSettled s r × (r.2.snapshot_in_progress ≡ s.snapshot_in_progress)
  unfolding take_snapshot begin_snapshot
  take_snapshot-retains id started ended entries s v = elim (Bool-cases s.snapshot_in_progress) [
    | inl e ↦ rw (e, take_snapshot, begin_snapshot) (inr (_, refl, refl), e)
    | inr e ↦
        let (h, free) =
          finish-retains (serialize c s.compress entries) id started ended entries
            (record s { snapshot_in_progress = true }) v in
        rw (e, take_snapshot, begin_snapshot) (h, free)
  ]
