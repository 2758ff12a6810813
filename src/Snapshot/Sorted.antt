-- ===== src/Snapshot/Sorted.antt =====
-- The sort of the stored metadata, newest first.
use distributive_cache.Base.{
  ℕ, ◌+◌, ◌≤◌, ◌<◌, ◌≡◌, refl, ◌≢◌, List, [], ◌∷◌, ◌++◌, arith, length, All, sym, ap, ◌∙◌, suc,
  zero,
}
use distributive_cache.Snapshot.{SnapshotMetadata, insert_newest, sort_newest, drop}

-- No two have one id.
abbrev pub IsApart : List SnapshotMetadata → Type 0
IsApart [] = Unit
IsApart (m ∷ ms) = All (λ d. m.snapshot_id ≢ d.snapshot_id) ms × IsApart ms

module _ (P : SnapshotMetadata → Type 0) where
  All-insert :
      (m : SnapshotMetadata) (ms : List SnapshotMetadata)
      → P m
      → All P ms
      → All P (insert_newest m ms)
  All-insert m [] p ps = (p, tt)
  All-insert m (d ∷ ds) p ps = ground (arith, All-insert m ds p)

  pub All-sort : (ms : List SnapshotMetadata) → All P ms → All P (sort_newest ms)
  All-sort [] ps = tt
  All-sort (m ∷ ms) ps = All-insert m (sort_newest ms) ps.0 (All-sort ms ps.1)

  pub All-drop : (n : ℕ) (ms : List SnapshotMetadata) → All P ms → All P (drop n ms)
  All-drop zero ms ps = ps
  All-drop (suc n) [] ps = tt
  All-drop (suc n) (m ∷ ms) ps = All-drop n ms ps.1

insert-IsApart :
    (m : SnapshotMetadata) (ms : List SnapshotMetadata)
    → All (λ d. m.snapshot_id ≢ d.snapshot_id) ms
    → IsApart ms
    → IsApart (insert_newest m ms)
insert-IsApart m [] ps a = (tt, tt)
insert-IsApart m (d ∷ ds) ps a = ground (
  arith,
  insert-IsApart m ds ps.1 a.1,
  All-insert (λ x. d.snapshot_id ≢ x.snapshot_id) m ds (λ e. ps.0 (sym e)) a.0,
)

pub sort-IsApart : (ms : List SnapshotMetadata) → IsApart ms → IsApart (sort_newest ms)
sort-IsApart [] a = tt
sort-IsApart (m ∷ ms) a =
    insert-IsApart m (sort_newest ms) (All-sort (λ d. m.snapshot_id ≢ d.snapshot_id) ms a.0)
      (sort-IsApart ms a.1)

pub drop-IsApart : (n : ℕ) (ms : List SnapshotMetadata) → IsApart ms → IsApart (drop n ms)
drop-IsApart zero ms a = a
drop-IsApart (suc n) [] a = tt
drop-IsApart (suc n) (m ∷ ms) a = drop-IsApart n ms a.1

length-insert :
    (m : SnapshotMetadata) (ms : List SnapshotMetadata)
    → length (insert_newest m ms) ≡ length ms + 1
length-insert m [] = omega arith
length-insert m (d ∷ ds) = ground (arith, length-insert m ds)

pub length-sort : (ms : List SnapshotMetadata) → length (sort_newest ms) ≡ length ms
length-sort [] = refl
length-sort (m ∷ ms) = omega (arith, length-insert m (sort_newest ms), length-sort ms)

pub length-drop :
    (n : ℕ) (ms : List SnapshotMetadata) → n ≤ length ms → length (drop n ms) + n ≡ length ms
length-drop zero ms h = omega arith
length-drop (suc n) [] h = omega arith
length-drop (suc n) (m ∷ ms) h = omega (arith, length-drop n ms (omega arith))

insert_old :
    (m d : SnapshotMetadata) (ms : List SnapshotMetadata)
    → d.created_at < m.created_at
    → insert_newest d (m ∷ ms) ≡ m ∷ insert_newest d ms
insert_old m d ms h = ground arith

-- What is newer than all the others and stands last comes first.
pub sort_newest_last :
    (ms : List SnapshotMetadata) (m : SnapshotMetadata)
    → All (λ d. d.created_at < m.created_at) ms
    → sort_newest (ms ++ (m ∷ [])) ≡ m ∷ sort_newest ms
sort_newest_last [] m h = refl
sort_newest_last (d ∷ ds) m h =
    ap (insert_newest d) (sort_newest_last ds m h.1) ∙ insert_old m d (sort_newest ds) h.0
