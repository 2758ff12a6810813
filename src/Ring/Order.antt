-- ===== src/Ring/Order.antt =====
-- The order of the ring's points: sorting, and how it meets the filter of `removeNode`.
use distributive_cache.Base.{
  ℕ, ◌≤◌, ◌≡◌, refl, Bool, List, [], ◌∷◌, arith, leb, if◌then◌else◌, All, select, All-select,
  Bool-cases, inl, inr, ap, ◌∙◌,
}
use distributive_cache.Ring.{RingPoint, insert_point, sort_points}

abbrev pub IsAbove : ℕ → List RingPoint → Type 0
IsAbove h = All (λ q. h ≤ q.hash)

abbrev pub IsSorted : List RingPoint → Type 0
IsSorted [] = Unit
IsSorted (p ∷ ps) = IsAbove p.hash ps × IsSorted ps

IsAbove-trans : (g h : ℕ) (ps : List RingPoint) → g ≤ h → IsAbove h ps → IsAbove g ps
IsAbove-trans g h [] le a = tt
IsAbove-trans g h (p ∷ ps) le a = (omega arith, IsAbove-trans g h ps le a.1)

insert-IsAbove :
    (h : ℕ) (p : RingPoint) (ps : List RingPoint)
    → h ≤ p.hash
    → IsAbove h ps
    → IsAbove h (insert_point p ps)
unfolding insert_point
insert-IsAbove h p [] le a = (le, tt)
insert-IsAbove h p (q ∷ qs) le a = ground (arith, insert-IsAbove h p qs le a.1)

insert-IsSorted : (p : RingPoint) (ps : List RingPoint) → IsSorted ps → IsSorted (insert_point p ps)
unfolding insert_point
insert-IsSorted p [] s = (tt, tt)
insert-IsSorted p (q ∷ qs) s = elim (Bool-cases (leb p.hash q.hash)) [
  | inl e ↦ ground (arith, IsAbove-trans p.hash q.hash qs)
  | inr e ↦
      rw (e, insert_point) (insert-IsAbove q.hash p qs (ground arith) s.0, insert-IsSorted p qs s.1)
]

pub sort-IsSorted : (ps : List RingPoint) → IsSorted (sort_points ps)
unfolding sort_points
sort-IsSorted [] = tt
sort-IsSorted (p ∷ ps) = insert-IsSorted p (sort_points ps) (sort-IsSorted ps)

pub select-IsSorted :
    (f : RingPoint → Bool) (ps : List RingPoint) → IsSorted ps → IsSorted (select f ps)
unfolding select
select-IsSorted f [] s = tt
select-IsSorted f (p ∷ ps) s = elim (Bool-cases (f p)) [
  | inl e ↦ rw (e, select) (All-select (λ q. p.hash ≤ q.hash) f ps s.0, select-IsSorted f ps s.1)
  | inr e ↦ rw (e, select) (select-IsSorted f ps s.1)
]

insert_front :
    (p : RingPoint) (ps : List RingPoint) → IsAbove p.hash ps → insert_point p ps ≡ p ∷ ps
unfolding insert_point
insert_front p [] a = refl
insert_front p (q ∷ qs) a = ground arith

pub sort_sorted : (ps : List RingPoint) → IsSorted ps → sort_points ps ≡ ps
unfolding sort_points
sort_sorted [] s = refl
sort_sorted (p ∷ ps) s = ap (insert_point p) (sort_sorted ps s.1) ∙ insert_front p ps s.0

select-insert :
    (f : RingPoint → Bool) (p : RingPoint) (ps : List RingPoint)
    → IsSorted ps
    → select f (insert_point p ps) ≡ (if f p then insert_point p (select f ps) else select f ps)
unfolding select insert_point
select-insert f p [] s = refl
select-insert f p (q ∷ qs) s = ground (
  arith,
  select-insert f p qs s.1,
  insert_front p (select f qs),
  All-select (λ x. p.hash ≤ x.hash) f qs,
  IsAbove-trans p.hash q.hash qs,
)

-- Sorting after dropping points is dropping points after sorting.
pub select-sort :
    (f : RingPoint → Bool) (ps : List RingPoint)
    → select f (sort_points ps) ≡ sort_points (select f ps)
unfolding select sort_points
select-sort f [] = refl
select-sort f (p ∷ ps) =
    select-insert f p (sort_points ps) (sort-IsSorted ps) ∙ ground (arith, select-sort f ps)

All-insert :
    (P : RingPoint → Type 0) (p : RingPoint) (ps : List RingPoint)
    → P p
    → All P ps
    → All P (insert_point p ps)
unfolding insert_point
All-insert P p [] h a = (h, tt)
All-insert P p (q ∷ qs) h a = elim (Bool-cases (leb p.hash q.hash)) [
  | inl e ↦ rw (e, insert_point) (h, a)
  | inr e ↦ rw (e, insert_point) (a.0, All-insert P p qs h a.1)
]

pub All-sort : (P : RingPoint → Type 0) (ps : List RingPoint) → All P ps → All P (sort_points ps)
unfolding sort_points
All-sort P [] a = tt
All-sort P (p ∷ ps) a = All-insert P p (sort_points ps) a.0 (All-sort P ps a.1)
