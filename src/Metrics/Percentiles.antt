-- ===== src/Metrics/Percentiles.antt =====
-- The percentiles of the latency window.
use distributive_cache.Base.{
  ℕ, zero, suc, ◌+◌, ◌-◌, ◌≤◌, ◌<◌, ◌≡◌, refl, true, false, List, [], ◌∷◌, length, get_or, arith,
  All, All-map, inl, inr, Bool-cases, ap, sym, subst, ◌∙◌,
}
use distributive_cache.Shared.RingBuffer.{RingBuffer}
use distributive_cache.Shared.Numbers.{Numbers}
use distributive_cache.Metrics.{
  insert_sample, sort_samples, percentile, percentiles_of, percentiles,
}

-- `<=` on the numbers that are measured, which are not NaN.
pub record IsOrdered {F : Type 0} (n : Numbers F) : Type 0 where
  pub total : (a b : F) → n.le a b ≡ false → n.le b a ≡ true
  pub transitive : (a b c : F) → n.le a b ≡ true → n.le b c ≡ true → n.le a c ≡ true
  pub reflexive : (a : F) → n.le a a ≡ true

module _ {F : Type 0} (n : Numbers F) where
  abbrev IsAscending : List F → Type 0
  IsAscending [] = Unit
  IsAscending (x ∷ xs) = All (λ y. n.le x y ≡ true) xs × IsAscending xs

  All-insert :
      (P : F → Type 0) (x : F) (xs : List F) → P x → All P xs → All P (insert_sample n x xs)
  unfolding insert_sample
  All-insert P x [] p ps = (p, tt)
  All-insert P x (y ∷ ys) p ps = ground (arith, All-insert P x ys p ps.1)

  module _ (ordered : IsOrdered n) where
    insert-IsAscending : (x : F) (xs : List F) → IsAscending xs → IsAscending (insert_sample n x xs)
    unfolding insert_sample
    insert-IsAscending x [] a = (tt, tt)
    insert-IsAscending x (y ∷ ys) a = elim (Bool-cases (n.le x y)) [
      | inl e ↦
          simp (e, insert_sample)
            (
              (
                refl,
                All-map (λ z. n.le y z ≡ true) (λ z. n.le x z ≡ true) ys
                    (λ z. ordered.transitive x y z e) a.0,
              ),
              a,
            )
      | inr e ↦
          simp (e, insert_sample)
            (
              All-insert (λ z. n.le y z ≡ true) x ys (ordered.total x y e) a.0,
              insert-IsAscending x ys a.1,
            )
    ]

    sort-IsAscending : (xs : List F) → IsAscending (sort_samples n xs)
    unfolding sort_samples
    sort-IsAscending [] = tt
    sort-IsAscending (x ∷ xs) = insert-IsAscending x (sort_samples n xs) (sort-IsAscending xs)

    All-get_or :
        (P : F → Type 0) (xs : List F) (i : ℕ) (d : F)
        → All P xs
        → i < length xs
        → P (get_or xs i d)
    All-get_or P [] i d ps h = absurd (omega arith)
    All-get_or P (x ∷ xs) zero d ps h = ps.0
    All-get_or P (x ∷ xs) (suc i) d ps h = All-get_or P xs i d ps.1 (omega arith)

    get_or-le :
        (xs : List F) (i j : ℕ) (d : F)
        → IsAscending xs
        → i ≤ j
        → j < length xs
        → n.le (get_or xs i d) (get_or xs j d) ≡ true
    get_or-le [] i j d a h k = absurd (omega arith)
    get_or-le (x ∷ xs) zero zero d a h k = ordered.reflexive x
    get_or-le (x ∷ xs) zero (suc j) d a h k =
        All-get_or (λ y. n.le x y ≡ true) xs j d a.0 (omega arith)
    get_or-le (x ∷ xs) (suc i) zero d a h k = absurd (omega arith)
    get_or-le (x ∷ xs) (suc i) (suc j) d a h k = get_or-le xs i j d a.1 (omega arith) (omega arith)

    last_tail :
        (x y : F) (ys : List F) (d : F)
        → get_or (x ∷ y ∷ ys) (length (x ∷ y ∷ ys) - 1) d ≡ get_or (y ∷ ys) (length (y ∷ ys) - 1) d
    last_tail x y ys d =
        let i : length (x ∷ y ∷ ys) - 1 ≡ suc (length ys) = omega arith in
        let j : length (y ∷ ys) - 1 ≡ length ys = omega arith in
        ap (λ m. get_or (x ∷ y ∷ ys) m d) i ∙ sym (ap (λ m. get_or (y ∷ ys) m d) j)

    le-last :
        (xs : List F) (d : F)
        → IsAscending xs
        → All (λ y. n.le y (get_or xs (length xs - 1) d) ≡ true) xs
    le-last [] d a = tt
    le-last (x ∷ []) d a = (ordered.reflexive x, tt)
    le-last (x ∷ y ∷ ys) d a =
        subst (λ z. All (λ w. n.le w z ≡ true) (x ∷ y ∷ ys)) (sym (last_tail x y ys d))
          (
            All-get_or (λ z. n.le x z ≡ true) (y ∷ ys) (length (y ∷ ys) - 1) d a.0 (omega arith),
            le-last (y ∷ ys) d a.1,
          )

    percentile-le :
        (ranks : ℕ → ℕ → ℕ) (p q : ℕ) (x : F) (xs : List F)
        → IsAscending (x ∷ xs)
        → ranks p (length (x ∷ xs)) ≤ ranks q (length (x ∷ xs))
        → n.le (percentile n ranks p (x ∷ xs)) (percentile n ranks q (x ∷ xs)) ≡ true
    unfolding percentile
    percentile-le ranks p q x xs a h =
        get_or-le (x ∷ xs) _ _ (n.of_nat 0) a (omega arith) (omega arith)

    percentiles_of-ordered :
        (ranks : ℕ → ℕ → ℕ) (xs : List F)
        → IsAscending xs
        → ranks 50 (length xs) ≤ ranks 95 (length xs)
        → ranks 95 (length xs) ≤ ranks 99 (length xs)
        → let r = percentiles_of n ranks xs in
          (n.le r.p50 r.p95 ≡ true)
          × (n.le r.p95 r.p99 ≡ true)
          × (n.le r.p99 r.max_latency ≡ true)
          × All (λ y. n.le y r.max_latency ≡ true) xs
    unfolding percentiles_of percentile
    percentiles_of-ordered ranks [] a h k =
        (ordered.reflexive _, ordered.reflexive _, ordered.reflexive _, tt)
    percentiles_of-ordered ranks (x ∷ xs) a h k = (
      percentile-le ranks 50 95 x xs a h,
      percentile-le ranks 95 99 x xs a k,
      get_or-le (x ∷ xs) _ _ (n.of_nat 0) a (omega arith) (omega arith),
      le-last (x ∷ xs) (n.of_nat 0) a,
    )

    All-of_insert :
        (P : F → Type 0) (x : F) (xs : List F) → All P (insert_sample n x xs) → P x × All P xs
    unfolding insert_sample
    All-of_insert P x [] ps = ps
    All-of_insert P x (y ∷ ys) ps = ground (arith, All-of_insert P x ys)

    All-of_sort : (P : F → Type 0) (xs : List F) → All P (sort_samples n xs) → All P xs
    unfolding sort_samples
    All-of_sort P [] ps = tt
    All-of_sort P (x ∷ xs) ps =
        let (p, rest) = All-of_insert P x (sort_samples n xs) ps in (p, All-of_sort P xs rest)

    length-insert : (x : F) (xs : List F) → length (insert_sample n x xs) ≡ length xs + 1
    unfolding insert_sample
    length-insert x [] = omega arith
    length-insert x (y ∷ ys) = ground (arith, length-insert x ys)

    length-sort : (xs : List F) → length (sort_samples n xs) ≡ length xs
    unfolding sort_samples
    length-sort [] = refl
    length-sort (x ∷ xs) = omega (arith, length-insert x (sort_samples n xs), length-sort xs)

    -- On ordered numbers, with ranks that grow with the percentage, the percentiles of the window are in order:
    -- p50 is at most p95, p95 at most p99, p99 at most the maximum; and no sample of the window is above the
    -- maximum.
    pub percentiles-ordered :
        (ranks : ℕ → ℕ → ℕ) (samples : RingBuffer F)
        → ranks 50 (length samples.buf) ≤ ranks 95 (length samples.buf)
        → ranks 95 (length samples.buf) ≤ ranks 99 (length samples.buf)
        → let r = percentiles n ranks samples in
          (n.le r.p50 r.p95 ≡ true)
          × (n.le r.p95 r.p99 ≡ true)
          × (n.le r.p99 r.max_latency ≡ true)
          × All (λ y. n.le y r.max_latency ≡ true) samples.buf
    unfolding percentiles
    percentiles-ordered ranks samples h k =
        let same = length-sort samples.buf in
        let (a, b, c, d) =
          percentiles_of-ordered ranks (sort_samples n samples.buf) (sort-IsAscending samples.buf)
            (subst (λ m. ranks 50 m ≤ ranks 95 m) (sym same) h)
            (subst (λ m. ranks 95 m ≤ ranks 99 m) (sym same) k) in
        (
          a,
          b,
          c,
          All-of_sort (λ y. n.le y (percentiles n ranks samples).max_latency ≡ true) samples.buf d,
        )
