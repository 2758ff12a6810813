-- ===== src/Base/Tests.antt =====
-- Boolean tests on the native numbers, the conditional, and the keys of maps and sets.
use Prim.Native.Nat.{ℕ, ◌≤◌, ◌<◌, compare, Ordering}
use mathlib.Core.Path.{◌≡◌, refl}
use mathlib.Core.Logic.{◌⊎◌, inl, inr}
use mathlib.Core.Bool.{Bool, true, false}
use mathlib.Core.List.{List, [], ◌∷◌}
use mathlib.Core.Option.{Option, none, some}
use native.Mathlib.Omega.{arith}
use native.Mathlib.Decide.{ℕ_discrete}

abbrev pub ltb : ℕ → ℕ → Bool
ltb a b = elim (compare a b) [ Ordering.lt ↦ true | _ ↦ false ]

abbrev pub leb : ℕ → ℕ → Bool
leb a b = elim (compare a b) [ Ordering.gt ↦ false | _ ↦ true ]

infix 50 ◌==◌
abbrev pub ◌==◌ : ℕ → ℕ → Bool
a == b = elim (compare a b) [ Ordering.eq ↦ true | _ ↦ false ]

infix 1 if◌then◌else◌
abbrev pub if◌then◌else◌ {ℓ} : {A : Type ℓ} → Bool → A → A → A
if true then x else y = x
if false then x else y = y

pub ltb→lt : (a b : ℕ) → ltb a b ≡ true → a < b
ltb→lt a b h = ground arith

pub lt→ltb : (a b : ℕ) → a < b → ltb a b ≡ true
lt→ltb a b h = ground arith

pub leb→le : (a b : ℕ) → leb a b ≡ true → a ≤ b
leb→le a b h = ground arith

pub Bool-cases : (b : Bool) → (b ≡ true) ⊎ (b ≡ false)
Bool-cases true = inl refl
Bool-cases false = inr refl

pub Option-cases {ℓ} : {A : Type ℓ} (o : Option A) → (o ≡ none) ⊎ ((a : A) × (o ≡ some a))
Option-cases none = inl refl
Option-cases (some a) = inr (a, refl)

abbrev pub is_some {ℓ} : {A : Type ℓ} → Option A → Bool
is_some none = false
is_some (some a) = true

-- What a JavaScript `Map` or `Set` may be keyed by.
pub record Keyed {ℓ} (K : Type ℓ) : Type ℓ where
  pub same : Discrete K

instance abbrev pub number_keyed : Keyed ℕ
number_keyed = record { same = ℕ_discrete }

-- A JavaScript string: its UTF-16 code units.
abbrev pub Text : Type 0
Text = List ℕ

both_discrete : {a b : ℕ} {s t : Text} → Dec (a ≡ b) → Dec (s ≡ t) → Dec ((a ∷ s) ≡ (b ∷ t))
both_discrete (yes p) (yes q) = yes (λ i. p i ∷ q i)
both_discrete (yes p) (no n) = no (λ e. n (cc))
both_discrete (no n) q = no (λ e. n (cc))

unfoldable pub Text-discrete : Discrete Text
unfolding both_discrete ℕ_discrete
Text-discrete [] [] = yes refl
Text-discrete [] (b ∷ t) = no (λ e. cc)
Text-discrete (a ∷ s) [] = no (λ e. cc)
Text-discrete (a ∷ s) (b ∷ t) = both_discrete (ℕ_discrete a b) (Text-discrete s t)

instance abbrev pub text_keyed : Keyed Text
text_keyed = record { same = Text-discrete }
