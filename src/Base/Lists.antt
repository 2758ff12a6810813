-- ===== src/Base/Lists.antt =====
-- Lists measured and indexed by native numbers, under the library's names; arrays and `Set`s.
use Prim.Native.Nat.{ℕ, zero, suc, ◌+◌, ◌≤◌, ◌<◌}
use mathlib.Core.Path.{◌≡◌, refl, ap, subst, sym}
use mathlib.Core.Logic.{◌≢◌, inl, inr, ite, if_pos}
use mathlib.Core.Bool.{Bool, true, false, ◌||◌}
use mathlib.Core.List.{List, [], ◌∷◌, ◌++◌, map}
use mathlib.Core.Option.{Option, none, some}
use native.Mathlib.Omega.{arith}
use distributive_cache.Base.Tests.{if◌then◌else◌, Keyed, Bool-cases}

module _ {ℓ} {A : Type ℓ} where
  abbrev pub length : List A → ℕ
  length [] = 0
  length (x ∷ xs) = suc (length xs)

  abbrev pub get_elem? : List A → ℕ → Option A
  get_elem? [] i = none
  get_elem? (x ∷ xs) zero = some x
  get_elem? (x ∷ xs) (suc i) = get_elem? xs i

  abbrev pub get_or : List A → ℕ → A → A
  get_or [] i d = d
  get_or (x ∷ xs) zero d = x
  get_or (x ∷ xs) (suc i) d = get_or xs i d

  abbrev pub take : ℕ → List A → List A
  take zero xs = []
  take (suc n) [] = []
  take (suc n) (x ∷ xs) = x ∷ take n xs

  pub length-append : (xs ys : List A) → length (xs ++ ys) ≡ length xs + length ys
  length-append [] ys = omega arith
  length-append (x ∷ xs) ys = omega (arith, length-append xs ys)

  -- A predicate on every element.
  abbrev pub All {κ} : (A → Type κ) → List A → Type κ
  All P [] = Unit
  All P (x ∷ xs) = P x × All P xs

  -- `xs.filter(p)`
  unfoldable pub select : (A → Bool) → List A → List A
  select p [] = []
  select p (x ∷ xs) = if p x then x ∷ select p xs else select p xs

  pub length-select-le : (p : A → Bool) (xs : List A) → length (select p xs) ≤ length xs
  unfolding select
  length-select-le p [] = omega arith
  length-select-le p (x ∷ xs) = ground (arith, length-select-le p xs)

module _ {ℓ} {A : Type ℓ} ⦃k : Keyed A⦄ where
  -- `xs.includes(a)`, and `set.has(a)` for a `Set` as the list of its elements.
  unfoldable pub includes : A → List A → Bool
  includes a [] = false
  includes a (x ∷ xs) = ite (k.same x a) true (includes a xs)

  pub includes-select :
      (p : A → Bool) (a : A) (xs : List A)
      → includes a (select p xs) ≡ true
      → (p a ≡ true) × (includes a xs ≡ true)
  unfolding includes select
  includes-select p a [] h = cc
  includes-select p a (x ∷ xs) h = ground (arith, includes-select p a xs, ap p)

module _ {ℓ} {A : Type ℓ} where
  pub get_elem?_lt : (xs : List A) (i : ℕ) → i < length xs → (x : A) × (get_elem? xs i ≡ some x)
  get_elem?_lt [] i h = elim h [ ]
  get_elem?_lt (x ∷ xs) zero h = (x, refl)
  get_elem?_lt (x ∷ xs) (suc i) h = get_elem?_lt xs i (omega arith)

  pub lt-length_of_get_elem? :
      (xs : List A) (i : ℕ) (x : A) → get_elem? xs i ≡ some x → i < length xs
  lt-length_of_get_elem? [] i x h = absurd (cc)
  lt-length_of_get_elem? (y ∷ xs) zero x h = omega arith
  lt-length_of_get_elem? (y ∷ xs) (suc i) x h = omega (arith, lt-length_of_get_elem? xs i x h)

  pub All-get_elem? :
      (P : A → Type 0) (xs : List A) (i : ℕ) (x : A) → All P xs → get_elem? xs i ≡ some x → P x
  All-get_elem? P [] i x a h = absurd (cc)
  All-get_elem? P (y ∷ xs) zero x a h = subst P (cc) a.0
  All-get_elem? P (y ∷ xs) (suc i) x a h = All-get_elem? P xs i x a.1 h

  pub All-select : (P : A → Type 0) (f : A → Bool) (xs : List A) → All P xs → All P (select f xs)
  unfolding select
  All-select P f [] a = tt
  All-select P f (x ∷ xs) a = elim (Bool-cases (f x)) [
    | inl e ↦ rw (e, select) (a.0, All-select P f xs a.1)
    | inr e ↦ rw (e, select) (All-select P f xs a.1)
  ]

  pub All-append : (P : A → Type 0) (xs ys : List A) → All P xs → All P ys → All P (xs ++ ys)
  All-append P [] ys a b = b
  All-append P (x ∷ xs) ys a b = (a.0, All-append P xs ys a.1 b)

  pub All-map : (P Q : A → Type 0) (xs : List A) → ((x : A) → P x → Q x) → All P xs → All Q xs
  All-map P Q [] f a = tt
  All-map P Q (x ∷ xs) f a = (f x a.0, All-map P Q xs f a.1)

module _ {ℓ} {A : Type ℓ} ⦃k : Keyed A⦄ where
  -- `set.add(a)` and `set.delete(a)` on a `Set` in insertion order.
  unfoldable pub add_to_set : A → List A → List A
  add_to_set a xs = if includes a xs then xs else xs ++ (a ∷ [])

  unfoldable pub delete_from_set : A → List A → List A
  delete_from_set a [] = []
  delete_from_set a (x ∷ xs) = ite (k.same x a) (delete_from_set a xs) (x ∷ delete_from_set a xs)

  -- No element stands twice.
  abbrev pub IsNodup : List A → Type 0
  IsNodup [] = Unit
  IsNodup (x ∷ xs) = (includes x xs ≡ false) × IsNodup xs

  pub includes-append :
      (a : A) (xs ys : List A) → includes a (xs ++ ys) ≡ (includes a xs || includes a ys)
  unfolding includes
  includes-append a [] ys = refl
  includes-append a (x ∷ xs) ys = ground (arith, includes-append a xs ys)

  pub includes-one : (a b : A) → includes a (b ∷ []) ≡ ite (k.same b a) true false
  unfolding includes
  includes-one a b = refl

  pub includes-head : (a : A) (xs : List A) → includes a (a ∷ xs) ≡ true
  unfolding includes
  includes-head a xs = if_pos (k.same a a) refl true (includes a xs)

  pub append_one-IsNodup :
      (xs : List A) (a : A) → includes a xs ≡ false → IsNodup xs → IsNodup (xs ++ a ∷ [])
  unfolding includes
  append_one-IsNodup [] a h n = (refl, tt)
  append_one-IsNodup (x ∷ xs) a h n =
      (ground (arith, includes-append x xs (a ∷ [])), append_one-IsNodup xs a (ground arith) n.1)

module _ {ℓ} {A : Type ℓ} where
  -- A write out of bounds changes nothing.
  abbrev pub set : List A → ℕ → A → List A
  set [] i v = []
  set (x ∷ xs) zero v = v ∷ xs
  set (x ∷ xs) (suc i) v = x ∷ set xs i v

  abbrev pub replicate : ℕ → A → List A
  replicate zero a = []
  replicate (suc n) a = a ∷ replicate n a

  pub length-set : (xs : List A) (i : ℕ) (v : A) → length (set xs i v) ≡ length xs
  length-set [] i v = refl
  length-set (x ∷ xs) zero v = refl
  length-set (x ∷ xs) (suc i) v = ap suc (length-set xs i v)

  pub get_or-set_self :
      (xs : List A) (i : ℕ) (v d : A) → i < length xs → get_or (set xs i v) i d ≡ v
  get_or-set_self [] i v d h = elim h [ ]
  get_or-set_self (x ∷ xs) zero v d h = refl
  get_or-set_self (x ∷ xs) (suc i) v d h = get_or-set_self xs i v d (omega arith)

  pub get_or-set_ne :
      (xs : List A) (i j : ℕ) (v d : A) → i ≢ j → get_or (set xs i v) j d ≡ get_or xs j d
  get_or-set_ne [] i j v d h = refl
  get_or-set_ne (x ∷ xs) zero zero v d h = absurd (h refl)
  get_or-set_ne (x ∷ xs) zero (suc j) v d h = refl
  get_or-set_ne (x ∷ xs) (suc i) zero v d h = refl
  get_or-set_ne (x ∷ xs) (suc i) (suc j) v d h = get_or-set_ne xs i j v d (λ e. h (ap suc e))

  pub length-replicate : (n : ℕ) (a : A) → length (replicate n a) ≡ n
  length-replicate zero a = refl
  length-replicate (suc n) a = ap suc (length-replicate n a)

  pub get_or-replicate : (n i : ℕ) (a : A) → get_or (replicate n a) i a ≡ a
  get_or-replicate zero i a = refl
  get_or-replicate (suc n) zero a = refl
  get_or-replicate (suc n) (suc i) a = get_or-replicate n i a

  pub length-map {κ} : {B : Type κ} (xs : List A) (f : A → B) → length (map f xs) ≡ length xs
  length-map [] f = refl
  length-map (x ∷ xs) f = ap suc (length-map xs f)

  pub get_or-map :
      (xs : List A) (i : ℕ) (d : A) (f : A → A)
      → f d ≡ d
      → get_or (map f xs) i d ≡ f (get_or xs i d)
  get_or-map [] i d f h = sym h
  get_or-map (x ∷ xs) zero d f h = refl
  get_or-map (x ∷ xs) (suc i) d f h = get_or-map xs i d f h
