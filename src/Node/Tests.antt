-- ===== src/Node/Tests.antt =====
-- The theorems of the cache node at inputs that meet their conditions.
use distributive_cache.Base.{
  ℕ, ◌+◌, ◌≡◌, Bool, true, false, none, some, [], ◌∷◌, if◌then◌else◌, is_some,
}
use distributive_cache.Base.{◌*◌, ◌≢◌, refl, arith, Option, List, ℕ, text_keyed, Text-discrete}
use distributive_cache.Base.Dict
use distributive_cache.Shared.{CacheKey, CacheMetadata}
use distributive_cache.Storage.{StorageOptions, Storage, initial, fifo_hook, is_expired}
use distributive_cache.Node.Deliveries.{Delivery, IsHeld, deliver_all, deliver_all-IsHeld}
use distributive_cache.Node.Unlimited.{IsUnlimited}
use distributive_cache.Node.Lost.{late_delivery_overwrites, restored_write_is_refused}
use distributive_cache.Node.Server.{
  apply_remote_write, apply_restored_entry, find_expired, finish_sweep, restoration,
}
use distributive_cache.Base.{◌⊎◌, All}
use distributive_cache.Shared.{CacheEntry, lfu}
use distributive_cache.Storage.{EvictionHook, hit}
use distributive_cache.Storage.Removal
use distributive_cache.Storage.Engine.{set, sweep_expired}
use distributive_cache.Snapshot.{take_snapshot, restore_latest}
use distributive_cache.Snapshot.Tests as Snapshot
use distributive_cache.Node.Cleanup.{finish_sweep-sweep_expired, finish_sweep-fresh}
use distributive_cache.Node.Restart.{value_at, take_snapshot-recover}
use distributive_cache.Node.Faults.{no_faults}
use distributive_cache.Node.Requests.{
  CacheNode, stored, got, replicates_write, handle_put, handle_get, handle_policy, policy_name,
}
use distributive_cache.Node.Requests.Replies.{
  IsDone, IsRefused, plain, handle_put-cases, handle_get-handle_put,
}
use distributive_cache.Node.Requests.Bodies.{IsUnacceptable}
use distributive_cache.Node.Requests.Pinning.{is_order, handle_policy-IsPinned}
use distributive_cache.Eviction.Policy.{policy_type}
use distributive_cache.Eviction.Adaptive.{Adaptive}
use distributive_cache.Eviction.Adaptive.Hook.{adaptive_hook, adaptive-IsLawful}
use distributive_cache.Eviction.Adaptive.History.{Input, hears, evaluates, accesses, run}
use distributive_cache.Eviction.Tests.{hundredths, engine}
use distributive_cache.Shared.Errors.{ok, err, other, codes}
use distributive_cache.Snapshot.{SnapshotPayload}
use distributive_cache.Node.Recovery.{Restoration, recover, assert_healthy}

-- A count of the entries that are `true`; another is refused.
abbrev local : Restoration Bool ℕ
local = record {
  apply_entry = λ e n. if e.value then ok (n + 1) else err (other (codes "refused"));
  clear_storage = λ n. 0;
}

abbrev entry : CacheEntry Bool
entry = record {
  key = codes "a";
  value = true;
  metadata = record {
    version = 1;
    created_at = 5;
    updated_at = 5;
    last_accessed_at = 5;
    frequency = 0;
    expires_at = none;
    size_bytes = 1;
  };
}

abbrev payload : SnapshotPayload Bool
payload = record {
  metadata = record {
    snapshot_id = codes "s1";
    node_id = codes "a";
    created_at = 5;
    entry_count = 2;
    size_bytes = 9;
    duration_ms = 1;
    checksum = codes "c";
    compressed = false;
  };
  entries = entry ∷ entry ∷ [];
}

-- A store without limits, over the hook that evicts the oldest key.
abbrev options : StorageOptions
options = record { max_entries = none; max_size_bytes = none; default_ttl_ms = none }

options-IsUnlimited : IsUnlimited options
options-IsUnlimited = record { entries = refl; bytes = refl; lasting = refl }

abbrev size : ℕ → ℕ
size v = 1

abbrev key_a : CacheKey
key_a = codes "a"

key_a_named : key_a ≢ []
key_a_named e = cc

abbrev metadata : ℕ → CacheMetadata
metadata version = record {
  version = version;
  created_at = 5;
  updated_at = 5;
  last_accessed_at = 5;
  frequency = 0;
  expires_at = none;
  size_bytes = 1;
}

abbrev delivery : ℕ → Delivery
delivery version = record { looked = 10; at = 10; written = 11; metadata = metadata version }

abbrev empty : Storage ℕ (Unit {0})
empty = initial tt

abbrev holding : ℕ → Option ℕ → Storage ℕ (Unit {0})
holding version expires = record empty {
  store =
      (
        key_a,
        record {
          key = key_a;
          value = 3;
          metadata = record (metadata version) { expires_at = expires };
        },
      )
      ∷ [];
  total_size_bytes = 1;
}

program : Unit {0}
unfolding Dict.get Text-discrete is_expired
program = tt

empty-IsHeld : IsHeld key_a (λ version. version * 10) 0 empty
unfolding program
empty-IsHeld = record { version = refl; content = λ e h. absurd (cc) }

absent_key : Dict.get key_a empty.store ≡ none
unfolding program
absent_key = refl

held :
    (version : ℕ) (expires : Option ℕ)
    → is_some (Dict.get key_a (holding version expires).store) ≡ true
unfolding program
held version expires = refl

deliver_all-IsHeld_example :
    (s' : Storage ℕ (Unit {0})) × (deliver_all fifo_hook size options key_a
        (λ version. version * 10)
        (delivery 1 ∷ delivery 2 ∷ delivery 1 ∷ delivery 3 ∷ [])
        empty
      ≡ ok s')
    × IsHeld key_a (λ version. version * 10) 3 s'
deliver_all-IsHeld_example =
    deliver_all-IsHeld fifo_hook size options options-IsUnlimited key_a key_a_named
      (λ version. version * 10) (delivery 1 ∷ delivery 2 ∷ delivery 1 ∷ delivery 3 ∷ []) 0 empty
      ((
        omega arith,
        omega arith,
        refl,
        (
          omega arith,
          omega arith,
          refl,
          (omega arith, omega arith, refl, (omega arith, omega arith, refl, tt)),
        ),
      ))
      empty-IsHeld

late_delivery_overwrites_example :
    (s' : Storage ℕ (Unit {0})) × (s'' : Storage ℕ (Unit {0})) × (apply_remote_write fifo_hook size
        options 10 10 11 key_a 30
        (metadata 3)
        empty
      ≡ ok s')
    × (apply_remote_write fifo_hook size options 10 10 11 key_a 20 (metadata 2) s' ≡ ok s'')
    × (e : CacheEntry ℕ) × (Dict.get key_a s''.store ≡ some e)
    × (e.value ≡ 20)
    × (e.metadata.version ≡ 2)
late_delivery_overwrites_example =
    late_delivery_overwrites fifo_hook size options options-IsUnlimited key_a key_a_named
      (delivery 3) (delivery 2) 30 20 empty absent_key (omega arith) (omega arith) refl refl

abbrev replica_entry : CacheEntry ℕ
replica_entry = record { key = key_a; value = 3; metadata = metadata 7 }

replica_holds : Dict.get key_a (holding 7 none).store ≡ some replica_entry
unfolding program
replica_holds = refl

restored_write_is_refused_example :
    (s' : Storage ℕ (Unit {0})) × (e : CacheEntry ℕ) × (s'' : Storage ℕ (Unit {0}))
    × (apply_restored_entry fifo_hook size options 20 21 replica_entry empty ≡ ok s')
    × (set fifo_hook size options 30 key_a 4 (record { ttl_ms = none }) s' ≡ ok (e, s''))
    × (e.value ≡ 4)
    × (apply_remote_write fifo_hook size options 40 41 42 key_a e.value e.metadata (holding 7 none)
        ≡ ok (holding 7 none))
restored_write_is_refused_example =
    restored_write_is_refused fifo_hook size options options-IsUnlimited key_a key_a_named 20 21
      replica_entry empty refl absent_key 30 40 41 42 4 (holding 7 none) replica_entry replica_holds
      refl (omega arith)

holding-IsValid : Removal.IsValid (holding 1 (some 15))
unfolding program
holding-IsValid = record { distinct = (refl, tt); counted = refl }

finish_sweep-sweep_expired_example :
    Dict.get key_a
      (finish_sweep fifo_hook
        (find_expired 20 (Dict.values (holding 1 (some 15)).store))
        (holding 1 (some 15))).store
    ≡ Dict.get key_a (sweep_expired fifo_hook 20 (holding 1 (some 15))).1.store
finish_sweep-sweep_expired_example =
    finish_sweep-sweep_expired fifo_hook 20 (holding 1 (some 15)) key_a holding-IsValid (refl, tt)

finish_sweep-fresh_example :
    Dict.get key_a
      (finish_sweep fifo_hook
        (find_expired 20 (Dict.values (holding 1 (some 15)).store))
        (holding 2 none)).store
    ≡ none
unfolding program
finish_sweep-fresh_example =
    finish_sweep-fresh fifo_hook 20 (holding 1 (some 15)) (holding 2 none) key_a
      (record { key = key_a; value = 3; metadata = record (metadata 1) { expires_at = some 15 } })
      holding-IsValid (refl, tt) refl refl

abbrev saved : Storage ℕ (Unit {0})
saved = record empty { store = (Snapshot.entry.key, Snapshot.entry) ∷ [] }

take_snapshot-recover_example :
    let (r, events, manager') =
      take_snapshot Snapshot.codec Snapshot.id_2 20 25 (Dict.values saved.store) Snapshot.manager in
    let (report, new) =
      recover
        (restoration fifo_hook size options (λ e. 30) (λ e. 31))
        (codes "n")
        29
        32
        (restore_latest Snapshot.codec manager')
        (holding 7 none) in
    (assert_healthy report ≡ none)
    × (report.entries_restored_from_snapshot ≡ 1)
    × (value_at (Dict.get key_a new.store) ≡ value_at (Dict.get key_a saved.store))
take_snapshot-recover_example =
    take_snapshot-recover fifo_hook size options options-IsUnlimited (λ e. 30) (λ e. 31)
      Snapshot.codec Snapshot.id_2 20 25 ((1, Snapshot.entry ∷ []), 1 ∷ 1 ∷ []) Snapshot.manager
      saved (holding 7 none) (codes "n") 29 32 key_a Snapshot.codec-IsFaithful Snapshot.serialized
      Snapshot.store-IsValid Snapshot.new_id (omega arith, tt) (omega arith) refl (absent_key, tt)
      (refl, tt) (key_a_named, tt)

abbrev engine_hook : EvictionHook (Adaptive ℕ)
engine_hook = adaptive_hook {F = ℕ}

abbrev node : CacheNode ℕ ℕ (Adaptive ℕ)
node = record { node_id = codes "n"; storage = initial engine; faults = no_faults hundredths }

handle_put-cases_example :
    let body = some (plain {V = ℕ} key_a 3) in
    let r = handle_put engine_hook size options 5 body node in
    ((node.faults.killed ≡ false) × IsDone engine_hook size options 5 body node r)
    ⊎ ((node.faults.killed ≡ true) × IsRefused 503 node r)
    ⊎ ((node.faults.killed ≡ false) × IsUnacceptable body × IsRefused 400 node r)
handle_put-cases_example =
    handle_put-cases engine_hook size options 5 (some (plain {V = ℕ} key_a 3)) node

handle_get-handle_put_example :
    let (reply, work, node') = handle_put engine_hook size options 5 (some (plain key_a 3)) node in
    (m : CacheMetadata) × (reply ≡ stored key_a m.version (codes "n"))
    × (m.version ≡ 1)
    × (work ≡ replicates_write key_a 3 m ∷ [])
    × (((x : CacheMetadata) × ((handle_get engine_hook (λ raw. some raw) 6 7 key_a node').0
            ≡ got key_a 3 x (codes "n"))
          × (x.version ≡ m.version))
        ⊎ (node'.storage.store ≡ []))
unfolding program
handle_get-handle_put_example =
    handle_get-handle_put engine_hook size options adaptive-IsLawful (λ raw. some raw) 5 6 7 key_a
      key_a 3 node refl key_a_named refl refl (record { distinct = tt; counted = refl })

abbrev afterwards : List (Input ℕ ℕ)
afterwards = hears (hit key_a) ∷ evaluates 90 20000 20001 [] ∷ accesses key_a ∷ []

unordered : All (λ i. is_order i ≡ false) afterwards
unfolding is_order
unordered = (refl, (refl, (refl, tt)))

handle_policy-IsPinned_example :
    (s' : Adaptive ℕ) × (handle_policy {V = ℕ} hundredths (some (codes "LFU")) 50 100 [] engine
      ≡ some s')
    × (policy_type s'.active ≡ lfu)
    × (policy_type (run hundredths afterwards s').active ≡ lfu)
unfolding policy_name
handle_policy-IsPinned_example =
    handle_policy-IsPinned hundredths lfu 50 100 [] engine afterwards unordered
