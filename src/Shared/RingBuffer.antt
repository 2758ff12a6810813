-- ===== src/Shared/RingBuffer.antt =====
-- packages/shared/src/utils.ts: the fixed-capacity ring buffer.
mod Tests
use native.Mathlib.Nat.{
  mod-lt, mod-eq_of_lt, mod-add-mod, mod-add-div, mul-le-mul_left, add-mod_right,
}
use distributive_cache.Base.{
  ℕ, zero, suc, ◌+◌, ◌*◌, ◌/◌, ◌%◌, ◌≤◌, ◌<◌, ◌≡◌, refl, ◌≢◌, Bool, true, false, List, [], ◌∷◌,
  ◌++◌, arith, ltb, leb, if◌then◌else◌, length, length-append, length-set, get_or, get_or-set_self,
  get_or-set_ne, set, min, Bool-cases, inl, inr, ℕ_discrete, ap, ◌∙◌, sym, subst,
}
use distributive_cache.Shared.Errors.{Result, ok, err, other, codes}

pub record RingBuffer (A : Type 0) : Type 0 where
  pub capacity : ℕ
  pub buf : List A
  pub cursor : ℕ

abbrev pub empty_buffer : {A : Type 0} → ℕ → RingBuffer A
empty_buffer capacity = record { capacity = capacity; buf = []; cursor = 0 }

module _ {A : Type 0} where
  -- The constructor; a `RangeError` is an ordinary thrown value.
  unfoldable pub new_buffer : ℕ → Result (RingBuffer A)
  new_buffer capacity =
      if leb capacity 0
      then err (other (codes "RingBuffer capacity must be > 0"))
      else ok (empty_buffer capacity)

  unfoldable pub push : A → RingBuffer A → RingBuffer A
  push item b = record b {
    buf = if ltb (length b.buf) b.capacity then b.buf ++ (item ∷ []) else set b.buf b.cursor item;
    cursor = (b.cursor + 1) % b.capacity;
  }

  unfoldable pub clear_buffer : RingBuffer A → RingBuffer A
  clear_buffer b = record b { buf = []; cursor = 0 }

  unfoldable pub push_all : List A → RingBuffer A → RingBuffer A
  push_all [] b = b
  push_all (x ∷ xs) b = push_all xs (push x b)

  append_nil : (xs : List A) → xs ++ [] ≡ xs
  append_nil [] = refl
  append_nil (x ∷ xs) = ap (λ ys. x ∷ ys) (append_nil xs)

  append_assoc : (xs ys zs : List A) → (xs ++ ys) ++ zs ≡ xs ++ (ys ++ zs)
  append_assoc [] ys zs = refl
  append_assoc (x ∷ xs) ys zs = ap (λ ws. x ∷ ws) (append_assoc xs ys zs)

  capacity-push_all : (xs : List A) (b : RingBuffer A) → (push_all xs b).capacity ≡ b.capacity
  unfolding push_all push
  capacity-push_all [] b = refl
  capacity-push_all (x ∷ xs) b = capacity-push_all xs (push x b)

  get_or-append_left :
      (xs ys : List A) (i : ℕ) (d : A) → i < length xs → get_or (xs ++ ys) i d ≡ get_or xs i d
  get_or-append_left [] ys i d h = absurd (omega arith)
  get_or-append_left (x ∷ xs) ys zero d h = refl
  get_or-append_left (x ∷ xs) ys (suc i) d h = get_or-append_left xs ys i d (omega arith)

  get_or-append_end : (xs : List A) (y d : A) → get_or (xs ++ (y ∷ [])) (length xs) d ≡ y
  get_or-append_end [] y d = refl
  get_or-append_end (x ∷ xs) y d = get_or-append_end xs y d

-- Two positions less than a capacity apart have different cells.
mod-ne : (c j n : ℕ) → 0 < c → j < n → n < j + c → j % c ≢ n % c
mod-ne c j n pos low high e = elim (Bool-cases (leb (n / c) (j / c))) [
  | inl q ↦
      let less : c * (n / c) ≤ c * (j / c) = mul-le-mul_left c (ground arith) in
      omega (arith, less, e, mod-add-div j c, mod-add-div n c)
  | inr q ↦
      let more : c * (j / c + 1) ≤ c * (n / c) = mul-le-mul_left c (ground arith) in
      let split : c * (j / c + 1) ≡ c * (j / c) + c = grind arith in
      omega (arith, more, split, e, mod-add-div j c, mod-add-div n c)
]

module _ {A : Type 0} (d : A) where
  -- The buffer holds the last values of a history, each in the cell of its position.
  pub record IsWindow (b : RingBuffer A) (xs : List A) : Type 0 where
    pub positive : 0 < b.capacity
    pub filled : length b.buf ≡ min b.capacity (length xs)
    pub at : b.cursor ≡ length xs % b.capacity
    pub holds :
        (j : ℕ)
        → j < length xs
        → length xs ≤ j + b.capacity
        → get_or b.buf (j % b.capacity) d ≡ get_or xs j d

  push-growing :
      (x : A) (b : RingBuffer A) → length b.buf < b.capacity → (push x b).buf ≡ b.buf ++ (x ∷ [])
  unfolding push
  push-growing x b h = ground arith

  push-full :
      (x : A) (b : RingBuffer A) → b.capacity ≤ length b.buf → (push x b).buf ≡ set b.buf b.cursor x
  unfolding push
  push-full x b h = ground arith

  growing-holds :
      (x : A) (b : RingBuffer A) (xs : List A) (j : ℕ)
      → IsWindow b xs
      → length b.buf < b.capacity
      → j < length xs + 1
      → get_or (b.buf ++ (x ∷ [])) (j % b.capacity) d ≡ get_or (xs ++ (x ∷ [])) j d
  growing-holds x b xs j v room low = elim (ℕ_discrete j (length xs)) [
    | yes p ↦
        ap (λ i. get_or (b.buf ++ (x ∷ [])) i d) (small ∙ p ∙ sym same)
        ∙ get_or-append_end b.buf x d
        ∙ sym (get_or-append_end xs x d)
        ∙ ap (λ i. get_or (xs ++ (x ∷ [])) i d) (sym p)
    | no n ↦
        get_or-append_left b.buf (x ∷ []) (j % b.capacity) d (omega (arith, small, same))
        ∙ v.holds j (omega arith) (omega (arith, same))
        ∙ sym (get_or-append_left xs (x ∷ []) j d (omega arith))
  ]
    where
      same : length b.buf ≡ length xs
      same = omega (arith, v.filled)

      small : j % b.capacity ≡ j
      small = mod-eq_of_lt (omega (arith, same))

  full-holds :
      (x : A) (b : RingBuffer A) (xs : List A) (j : ℕ)
      → IsWindow b xs
      → b.capacity ≤ length b.buf
      → j < length xs + 1
      → length xs + 1 ≤ j + b.capacity
      → get_or (set b.buf b.cursor x) (j % b.capacity) d ≡ get_or (xs ++ (x ∷ [])) j d
  full-holds x b xs j v full low high = elim (ℕ_discrete j (length xs)) [
    | yes p ↦
        ap (λ i. get_or (set b.buf b.cursor x) i d) (ap (λ i. i % b.capacity) p ∙ sym v.at)
        ∙ get_or-set_self b.buf b.cursor x d (omega (arith, v.at, mod-lt (length xs) v.positive))
        ∙ sym (get_or-append_end xs x d)
        ∙ ap (λ i. get_or (xs ++ (x ∷ [])) i d) (sym p)
    | no n ↦
        get_or-set_ne b.buf b.cursor (j % b.capacity) x d (λ e.
          mod-ne b.capacity j (length xs) v.positive (omega arith) (omega arith) (sym e ∙ v.at))
        ∙ v.holds j (omega arith) (omega arith)
        ∙ sym (get_or-append_left xs (x ∷ []) j d (omega arith))
  ]

  push-holds :
      (x : A) (b : RingBuffer A) (xs : List A) (j : ℕ)
      → IsWindow b xs
      → j < length xs + 1
      → length xs + 1 ≤ j + b.capacity
      → get_or (push x b).buf (j % b.capacity) d ≡ get_or (xs ++ (x ∷ [])) j d
  push-holds x b xs j v low high = elim (Bool-cases (ltb (length b.buf) b.capacity)) [
    | inl e ↦
        ap (λ ys. get_or ys (j % b.capacity) d) (push-growing x b (ground arith))
        ∙ growing-holds x b xs j v (ground arith) low
    | inr e ↦
        ap (λ ys. get_or ys (j % b.capacity) d) (push-full x b (ground arith))
        ∙ full-holds x b xs j v (ground arith) low high
  ]

  push-IsWindow :
      (x : A) (b : RingBuffer A) (xs : List A)
      → IsWindow b xs
      → IsWindow (push x b) (xs ++ (x ∷ []))
  unfolding push
  push-IsWindow x b xs v = record {
    positive = v.positive;
    filled = ground (
      arith,
      v.filled,
      length-append xs (x ∷ []),
      length-append b.buf (x ∷ []),
      length-set b.buf b.cursor x,
    );
    at =
        ap (λ c. (c + 1) % b.capacity) v.at
        ∙ mod-add-mod (length xs) b.capacity 1
        ∙ ap (λ n. n % b.capacity) (sym (length-append xs (x ∷ [])));
    holds = λ j low high.
        push-holds x b xs j v (ground (arith, length-append xs (x ∷ [])))
          (ground (arith, length-append xs (x ∷ [])));
  }

  empty-IsWindow : (capacity : ℕ) → 0 < capacity → IsWindow (empty_buffer capacity) []
  empty-IsWindow capacity pos = record {
    positive = pos;
    filled = omega arith;
    at = sym (mod-eq_of_lt pos);
    holds = λ j low recent. absurd (omega arith);
  }

  push_all-IsWindow :
      (ys xs : List A) (b : RingBuffer A) → IsWindow b xs → IsWindow (push_all ys b) (xs ++ ys)
  unfolding push_all
  push_all-IsWindow [] xs b v = subst (IsWindow b) (sym (append_nil xs)) v
  push_all-IsWindow (y ∷ ys) xs b v =
      subst (IsWindow (push_all ys (push y b))) (append_assoc xs (y ∷ []) ys)
        (push_all-IsWindow ys (xs ++ (y ∷ [])) (push y b) (push-IsWindow y b xs v))

  -- A buffer of positive capacity holds, after any pushes, as many values as were pushed, up to its capacity,
  -- and each of the last values that fit stands in the cell of its position modulo the capacity.
  pub push_all-get_or :
      (capacity j : ℕ) (xs : List A)
      → 0 < capacity
      → j < length xs
      → length xs ≤ j + capacity
      → let b = push_all xs (empty_buffer capacity) in
        (length b.buf ≡ min capacity (length xs)) × (get_or b.buf (j % capacity) d ≡ get_or xs j d)
  push_all-get_or capacity j xs pos low recent =
      let b : RingBuffer A = push_all xs (empty_buffer capacity) in
      let v = push_all-IsWindow xs [] (empty_buffer capacity) (empty-IsWindow capacity pos) in
      let same : b.capacity ≡ capacity = capacity-push_all xs (empty_buffer capacity) in
      (
        v.filled ∙ ap (λ c. min c (length xs)) same,
        ap (λ c. get_or b.buf (j % c) d) (sym same) ∙ v.holds j low (omega (arith, same)),
      )
