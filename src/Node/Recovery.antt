-- ===== src/Node/Recovery.antt =====
-- services/cache-node/src/recovery/RecoveryEngine.ts: restoring the latest snapshot into the storage of a node.
-- The snapshot manager's answer is an argument, and applying an entry may throw.
use distributive_cache.Base.{
  ℕ, ◌≡◌, refl, Bool, true, false, Option, none, some, List, [], ◌∷◌, ◌++◌, if◌then◌else◌, length,
  Text, is_some, Option-cases, inl, inr,
}
use distributive_cache.Shared.{NodeId, CacheEntry}
use distributive_cache.Shared.Errors.{
  Result, ok, err, Thrown, flow, other, recovery, codes, message,
}
use distributive_cache.Snapshot.{SnapshotPayload}

pub record RecoveryReport : Type 0 where
  pub node_id : NodeId
  pub started_at : ℕ
  pub finished_at : ℕ
  pub snapshot_restored : Option Text
  pub entries_restored_from_snapshot : ℕ
  pub operations_replayed : ℕ
  pub integrity_verified : Bool
  pub errors : List Text

-- What the callbacks of `RecoveryEngineOptions` do to the storage.
pub record Restoration (V S : Type 0) : Type 0 where
  pub apply_entry : CacheEntry V → S → Result S
  pub clear_storage : S → S

abbrev pub error_text : Thrown → Text
error_text (flow e) = message e
error_text (other m) = m

-- `errors.join('; ')`
unfoldable pub join : List Text → Text
join [] = []
join (x ∷ []) = x
join (x ∷ y ∷ ys) = x ++ (codes "; " ++ join (y ∷ ys))

abbrev pub is_nil : List Text → Bool
is_nil [] = true
is_nil (x ∷ xs) = false

module _ {V S : Type 0} (local : Restoration V S) where
  -- The loop over the entries; the storage that is left, and what was thrown.
  unfoldable pub apply_all : List (CacheEntry V) → S → S × Option Thrown
  apply_all [] st = (st, none)
  apply_all (e ∷ es) st = elim (local.apply_entry e st) [
    | ok st' ↦ apply_all es st'
    | err t ↦ (st, some t)
  ]

  -- What the `try` leaves: the storage, the id and size of the snapshot, and the errors.
  unfoldable pub restore : Result (Option (SnapshotPayload V)) → S → S × Option Text × ℕ × List Text
  restore (err t) st = (st, none, 0, error_text t ∷ [])
  restore (ok none) st = (st, none, 0, [])
  restore (ok (some payload)) st =
      let r = apply_all payload.entries st in
      elim r.1 [
        | none ↦ (r.0, some payload.metadata.snapshot_id, length payload.entries, [])
        | some t ↦ (r.0, none, 0, error_text t ∷ [])
      ]

  unfoldable pub recover :
      NodeId → ℕ → ℕ → Result (Option (SnapshotPayload V)) → S → RecoveryReport × S
  recover id started finished latest st =
      let (st', snapshot, count, errors) = restore latest (local.clear_storage st) in
      (
        record {
          node_id = id;
          started_at = started;
          finished_at = finished;
          snapshot_restored = snapshot;
          entries_restored_from_snapshot = count;
          operations_replayed = 0;
          integrity_verified = is_nil errors;
          errors = errors;
        },
        st',
      )

-- `none` is a return, `some` what is thrown.
unfoldable pub assert_healthy : RecoveryReport → Option Thrown
unfolding join
assert_healthy r =
    if r.integrity_verified
    then none
    else some (
        flow (
          recovery (
            codes "Recovery for node \""
            ++ (r.node_id ++ (codes "\" did not verify cleanly: " ++ join r.errors)))))

module _ {V S : Type 0} (local : Restoration V S) (id : NodeId) (started finished : ℕ)
    (st : S) where
  -- Without a snapshot the node starts healthy and empty; if the snapshot cannot be read it starts empty too,
  -- reports the error, and the check throws.
  pub recover_empty :
      (t : Thrown)
      → let fresh = recover local id started finished (ok none) st in
        let broken = recover local id started finished (err t) st in
        (fresh.1 ≡ local.clear_storage st)
        × (assert_healthy fresh.0 ≡ none)
        × (broken.1 ≡ local.clear_storage st)
        × (broken.0.errors ≡ error_text t ∷ [])
        × (is_some (assert_healthy broken.0) ≡ true)
  unfolding recover restore assert_healthy
  recover_empty t = (refl, refl, refl, refl, refl)

  -- The check passes after a snapshot was read exactly if every entry of it could be applied; then the report
  -- names the snapshot and counts its entries, and else it names none.
  pub recover_snapshot :
      (payload : SnapshotPayload V)
      → let r = recover local id started finished (ok (some payload)) st in
        let applied = apply_all local payload.entries (local.clear_storage st) in
        (r.1 ≡ applied.0)
        × (is_some (assert_healthy r.0) ≡ is_some applied.1)
        × (r.0.snapshot_restored
            ≡ (if is_some applied.1 then none else some payload.metadata.snapshot_id))
        × (r.0.entries_restored_from_snapshot
            ≡ (if is_some applied.1 then 0 else length payload.entries))
  unfolding recover restore assert_healthy
  recover_snapshot payload =
      elim (Option-cases (apply_all local payload.entries (local.clear_storage st)).1) [
        | inl e ↦ rw (e, recover, restore, assert_healthy) (refl, refl, refl, refl)
        | inr (t, e) ↦ rw (e, recover, restore, assert_healthy) (refl, refl, refl, refl)
      ]
