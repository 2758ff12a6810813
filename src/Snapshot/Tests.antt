-- ===== src/Snapshot/Tests.antt =====
-- A snapshot that is taken and restored, and the theorems at inputs that meet their conditions.
use distributive_cache.Base.{
  ℕ, ◌+◌, ◌-◌, ◌≡◌, refl, true, none, some, List, [], ◌∷◌, arith, length, text_keyed, Text,
  Text-discrete,
}
use distributive_cache.Base.Dict
use distributive_cache.Shared.{CacheEntry}
use distributive_cache.Shared.Errors.{ok, codes}
use distributive_cache.Snapshot.{
  SnapshotMetadata, StoredSnapshot, SnapshotManager, SnapshotStore, Codec, new_manager,
  take_snapshot, begin_snapshot, serialize, restore_by_id, restore_latest, decode, write, list,
  delete, delete_all, prune_old_snapshots, finish_snapshot, write_latest_pointer,
}
use distributive_cache.Snapshot.Retention.{IsValid, IsSettled, take_snapshot-retains}
use distributive_cache.Snapshot.Restored.{
  IsFaithful, restore_by_id-intact, take_snapshot-restore_latest,
}

program : Unit {0}
unfolding take_snapshot begin_snapshot serialize restore_by_id restore_latest decode write list
    delete delete_all prune_old_snapshots finish_snapshot write_latest_pointer Dict.get Dict.set
    Dict.delete Text-discrete
program = tt

-- A buffer is the entries with the number of times they are zipped.
abbrev pub Buffer : Type 0
Buffer = ℕ × List (CacheEntry ℕ)

abbrev pub codec : Codec ℕ Buffer
codec = record {
  stringify = λ es. ok (0, es);
  parse = λ b. ok b.1;
  gzip = λ b. ok (b.0 + 1, b.1);
  gunzip = λ b. ok (b.0 - 1, b.1);
  sha256 = λ b. b.0 ∷ length b.1 ∷ [];
  byte_length = λ b. length b.1;
}

pub codec-IsFaithful : IsFaithful codec
codec-IsFaithful = record { parses = λ es b h. ground arith; unzips = λ b z h. ground arith }

abbrev pub entry : CacheEntry ℕ
entry = record {
  key = codes "a";
  value = 3;
  metadata = record {
    version = 1;
    created_at = 5;
    updated_at = 5;
    last_accessed_at = 5;
    frequency = 0;
    expires_at = none;
    size_bytes = 1;
  };
}

abbrev id_1 : Text
id_1 = codes "snap_1"

abbrev pub id_2 : Text
id_2 = codes "snap_2"

abbrev metadata : SnapshotMetadata
metadata = record {
  snapshot_id = id_1;
  node_id = codes "n";
  created_at = 10;
  entry_count = 1;
  size_bytes = 1;
  duration_ms = 2;
  checksum = 1 ∷ 1 ∷ [];
  compressed = true;
}

abbrev pub store : SnapshotStore Buffer
store = record {
  data_of = (id_1, record { metadata = metadata; buffer = (1, entry ∷ []) }) ∷ [];
  latest = some metadata;
}

abbrev pub manager : SnapshotManager Buffer
manager = new_manager (codes "n") 0 true (some 1) store

pub store-IsValid : IsValid store
unfolding program
store-IsValid = record { distinct = (refl, tt); keyed = (refl, tt) }

intact :
    restore_by_id codec id_1 manager
    ≡ ok (some (record { metadata = metadata; entries = entry ∷ [] }))
unfolding program
intact = refl

pub new_id : Dict.get id_2 store.data_of ≡ none
unfolding program
new_id = refl

pub serialized : serialize codec true (entry ∷ []) ≡ ok ((1, entry ∷ []), 1 ∷ 1 ∷ [])
unfolding program
serialized = refl

restore_by_id-intact_example :
    (stored : StoredSnapshot Buffer) × (Dict.get id_1 store.data_of ≡ some stored)
    × (metadata ≡ stored.metadata)
    × (codec.sha256 stored.buffer ≡ stored.metadata.checksum)
    × (decode codec stored ≡ ok (entry ∷ []))
restore_by_id-intact_example =
    restore_by_id-intact codec id_1 manager (record { metadata = metadata; entries = entry ∷ [] })
      intact

take_snapshot-retains_example :
    let r = take_snapshot codec id_2 20 25 (entry ∷ []) manager in
    IsSettled codec manager r × (r.2.snapshot_in_progress ≡ manager.snapshot_in_progress)
take_snapshot-retains_example =
    take_snapshot-retains codec id_2 20 25 (entry ∷ []) manager store-IsValid

take_snapshot-restore_latest_example :
    let (r, events, s') = take_snapshot codec id_2 20 25 (entry ∷ []) manager in
    (m : SnapshotMetadata) × (r ≡ ok m)
    × (restore_latest codec s' ≡ ok (some (record { metadata = m; entries = entry ∷ [] })))
take_snapshot-restore_latest_example =
    take_snapshot-restore_latest codec id_2 20 25 (entry ∷ []) ((1, entry ∷ []), 1 ∷ 1 ∷ []) manager
      codec-IsFaithful serialized store-IsValid new_id (omega arith, tt) (omega arith) refl
