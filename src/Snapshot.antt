-- ===== src/Snapshot.antt =====
-- packages/snapshot/src/SnapshotManager.ts and the in-memory store of packages/snapshot/src/SnapshotStore.ts:
-- the contents of a node are encoded and stored under a fresh id, old snapshots are pruned, and a stored one is
-- restored after its checksum is compared. Clock, ids, JSON, gzip and SHA-256 come from outside.
pub mod Sorted
pub mod Retention
pub mod Restored
pub mod Tests
use distributive_cache.Base.{
  ℕ, zero, suc, ◌+◌, ◌-◌, ltb, leb, Bool, true, false, not, ◌||◌, Option, none, some, List, [], ◌∷◌,
  ◌++◌, map, length, if◌then◌else◌, ite, Text, Text-discrete, text_keyed,
}
use distributive_cache.Base.Dict
use distributive_cache.Base.Dict.{Dict}
use distributive_cache.Shared.{CacheEntry}
use distributive_cache.Shared.Errors.{Result, ok, err, Thrown, flow, snapshot, codes}

pub record SnapshotMetadata : Type 0 where
  pub snapshot_id : Text
  pub node_id : Text
  pub created_at : ℕ
  pub entry_count : ℕ
  pub size_bytes : ℕ
  pub duration_ms : ℕ
  pub checksum : Text
  pub compressed : Bool

pub record SnapshotPayload (V : Type 0) : Type 0 where
  pub metadata : SnapshotMetadata
  pub entries : List (CacheEntry V)

pub record StoredSnapshot (B : Type 0) : Type 0 where
  pub metadata : SnapshotMetadata
  pub buffer : B

-- `InMemorySnapshotStore`
pub record SnapshotStore (B : Type 0) : Type 0 where
  pub data_of : Dict Text (StoredSnapshot B)
  pub latest : Option SnapshotMetadata

-- What the manager calls of the platform: JSON, zlib and crypto, on buffers of type `B`.
pub record Codec (V B : Type 0) : Type 0 where
  pub stringify : List (CacheEntry V) → Result B
  pub parse : B → Result (List (CacheEntry V))
  pub gzip : B → Result B
  pub gunzip : B → Result B
  pub sha256 : B → Text
  pub byte_length : B → ℕ

pub record SnapshotManager (B : Type 0) : Type 0 where
  pub node_id : Text
  pub interval_ms : ℕ
  pub compress : Bool
  pub max_retained : ℕ
  pub store : SnapshotStore B
  pub timer : Bool
  pub snapshot_in_progress : Bool

pub data SnapshotEvent : Type 0 where
  taken : SnapshotMetadata → SnapshotEvent
  pruned : List Text → SnapshotEvent

-- `maxRetainedSnapshots ?? 5`
abbrev pub retained_or_default : Option ℕ → ℕ
retained_or_default none = 5
retained_or_default (some n) = n

abbrev pub new_manager :
    {B : Type 0} → Text → ℕ → Bool → Option ℕ → SnapshotStore B → SnapshotManager B
new_manager node interval compress retained store = record {
  node_id = node;
  interval_ms = interval;
  compress = compress;
  max_retained = retained_or_default retained;
  store = store;
  timer = false;
  snapshot_in_progress = false;
}

-- `results.sort((a, b) => b.createdAt - a.createdAt)`, which keeps the order of equal times.
abbrev pub insert_newest : SnapshotMetadata → List SnapshotMetadata → List SnapshotMetadata
insert_newest m [] = m ∷ []
insert_newest m (d ∷ ds) =
    let rest = insert_newest m ds in if leb d.created_at m.created_at then m ∷ d ∷ ds else d ∷ rest

abbrev pub sort_newest : List SnapshotMetadata → List SnapshotMetadata
sort_newest [] = []
sort_newest (m ∷ ms) = insert_newest m (sort_newest ms)

-- `all.slice(n)`
abbrev pub drop : {A : Type 0} → ℕ → List A → List A
drop zero xs = xs
drop (suc n) [] = []
drop (suc n) (x ∷ xs) = drop n xs

module _ {B : Type 0} where
  unfoldable pub write : Text → B → SnapshotMetadata → SnapshotStore B → SnapshotStore B
  write id buffer metadata s = record s {
    data_of = Dict.set id (record { metadata = metadata; buffer = buffer }) s.data_of;
  }

  -- `none` stands for the error "No such snapshot".
  abbrev pub read : Text → SnapshotStore B → Option (StoredSnapshot B)
  read id s = Dict.get id s.data_of

  unfoldable pub write_latest_pointer : SnapshotMetadata → SnapshotStore B → SnapshotStore B
  write_latest_pointer m s = record s { latest = some m }

  unfoldable pub list : SnapshotStore B → List SnapshotMetadata
  list s = sort_newest (map (λ d. d.metadata) (Dict.values s.data_of))

  unfoldable pub delete : Text → SnapshotStore B → SnapshotStore B
  delete id s = record s { data_of = Dict.delete id s.data_of }

  unfoldable pub delete_all : List SnapshotMetadata → SnapshotStore B → SnapshotStore B
  delete_all [] s = s
  delete_all (m ∷ ms) s = delete_all ms (delete m.snapshot_id s)

  unfoldable pub prune_old_snapshots : SnapshotManager B → List SnapshotEvent × SnapshotManager B
  prune_old_snapshots s =
      let all = list s.store in
      let to_delete = drop s.max_retained all in
      if leb (length all) s.max_retained then ([], s) else (
        pruned (map (λ m. m.snapshot_id) to_delete) ∷ [],
        record s { store = delete_all to_delete s.store },
      )

  -- The head of `takeSnapshot`, up to its first `await`: a call that comes before the one in progress has
  -- finished is refused here.
  unfoldable pub begin_snapshot : SnapshotManager B → Result (SnapshotManager B)
  begin_snapshot s =
      if s.snapshot_in_progress
      then err (
          flow (
            snapshot
              (codes "Snapshot already in progress for node \"" ++ (s.node_id ++ codes "\""))))
      else ok (record s { snapshot_in_progress = true })

  unfoldable pub start : SnapshotManager B → SnapshotManager B
  start s = if s.timer || leb s.interval_ms 0 then s else record s { timer = true }

  unfoldable pub stop : SnapshotManager B → SnapshotManager B
  stop s = record s { timer = false }

module _ {V B : Type 0} (c : Codec V B) where
  -- The buffer and its checksum, if no `serialize` is given.
  unfoldable pub serialize : Bool → List (CacheEntry V) → Result (B × Text)
  serialize compress entries = elim (c.stringify entries) [
    | err e ↦ err e
    | ok serialized ↦ elim (if compress then c.gzip serialized else ok serialized) [
      | err e ↦ err e
      | ok payload ↦ ok (payload, c.sha256 payload)
    ]
  ]

  -- The rest of `takeSnapshot` once the entries are serialized, or that has failed.
  unfoldable pub finish_snapshot :
      Result (B × Text)
      → Text
      → ℕ
      → ℕ
      → List (CacheEntry V)
      → SnapshotManager B
      → Result SnapshotMetadata × List SnapshotEvent × SnapshotManager B
  finish_snapshot (err e) id started_at ended_at entries s =
      (err e, [], record s { snapshot_in_progress = false })
  finish_snapshot (ok (payload, checksum)) id started_at ended_at entries s =
      let metadata : SnapshotMetadata = record {
        snapshot_id = id;
        node_id = s.node_id;
        created_at = started_at;
        entry_count = length entries;
        size_bytes = c.byte_length payload;
        duration_ms = ended_at - started_at;
        checksum = checksum;
        compressed = s.compress;
      } in
      let stored = write_latest_pointer metadata (write id payload metadata s.store) in
      let (events, s') = prune_old_snapshots (record s { store = stored }) in
      (ok metadata, events ++ (taken metadata ∷ []), record s' { snapshot_in_progress = false })

  -- `takeSnapshot`, without another step of the manager between its two.
  unfoldable pub take_snapshot :
      Text
      → ℕ
      → ℕ
      → List (CacheEntry V)
      → SnapshotManager B
      → Result SnapshotMetadata × List SnapshotEvent × SnapshotManager B
  take_snapshot id started_at ended_at entries s = elim (begin_snapshot s) [
    | err e ↦ (err e, [], s)
    | ok s' ↦ finish_snapshot (serialize s'.compress entries) id started_at ended_at entries s'
  ]

  unfoldable pub mismatch : Text → Text → SnapshotMetadata → Text → Thrown
  mismatch id node metadata actual = flow (
      snapshot (
        codes "Checksum mismatch restoring snapshot \""
        ++ (id
            ++ (codes "\" for node \""
                ++ (node
                    ++ (codes "\": expected "
                        ++ (metadata.checksum
                            ++ (codes ", got "
                                ++ (actual ++ codes ". The snapshot file may be corrupted.")))))))))

  unfoldable pub decode : StoredSnapshot B → Result (List (CacheEntry V))
  decode stored =
      elim (if stored.metadata.compressed then c.gunzip stored.buffer else ok stored.buffer) [
        | err e ↦ err e
        | ok raw ↦ c.parse raw
      ]

  unfoldable pub restore_by_id : Text → SnapshotManager B → Result (Option (SnapshotPayload V))
  restore_by_id id s = elim (read id s.store) [
    | none ↦ ok none
    | some stored ↦
        ite (Text-discrete (c.sha256 stored.buffer) stored.metadata.checksum)
          (elim (decode stored) [
            | err e ↦ err e
            | ok entries ↦ ok (some (record { metadata = stored.metadata; entries = entries }))
          ])
          (err (mismatch id s.node_id stored.metadata (c.sha256 stored.buffer)))
  ]

  unfoldable pub restore_latest : SnapshotManager B → Result (Option (SnapshotPayload V))
  restore_latest s = elim s.store.latest [
    | none ↦ ok none
    | some pointer ↦ restore_by_id pointer.snapshot_id s
  ]
