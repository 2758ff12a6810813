-- ===== src/Shared/Numbers.antt =====
-- The language's floating-point numbers, as an interface: the code that computes rates and ratios uses no law
-- of theirs. packages/shared/src/utils.ts: `Ema` and `clamp` work on them.
use distributive_cache.Base.{ℕ, Bool, ◌||◌, not, Option, none, some, if◌then◌else◌, Text}
use distributive_cache.Shared.Errors.{Result, ok, err, other, codes}

pub record Numbers (F : Type 0) : Type 0 where
  pub of_nat : ℕ → F
  pub plus : F → F → F
  pub minus : F → F → F
  pub times : F → F → F
  pub divide : F → F → F
  -- `a <= b`
  pub le : F → F → Bool
  -- `x.toFixed(digits)`
  pub to_fixed : F → ℕ → Text

pub record Ema (F : Type 0) : Type 0 where
  pub alpha : F
  pub value : Option F

abbrev pub new_average : {F : Type 0} → F → Ema F
new_average alpha = record { alpha = alpha; value = none }

module _ {F : Type 0} (n : Numbers F) where
  -- `Math.max(a, b)` and `Math.min(a, b)`, for numbers that are not NaN.
  abbrev pub max_of : F → F → F
  max_of a b = if n.le a b then b else a

  abbrev pub min_of : F → F → F
  min_of a b = if n.le a b then a else b

  unfoldable pub clamp : F → F → F → F
  clamp value lo hi = min_of (max_of value lo) hi

  -- The constructor; a `RangeError` is an ordinary thrown value.
  unfoldable pub create_average : F → Result (Ema F)
  create_average alpha =
      if n.le alpha (n.of_nat 0) || not (n.le alpha (n.of_nat 1))
      then err (other (codes "Ema alpha must be in (0, 1]"))
      else ok (new_average alpha)

  -- What `update` answers is the value that it leaves.
  unfoldable pub averaged : F → Ema F → F
  averaged sample e = elim e.value [
    | none ↦ sample
    | some v ↦ n.plus (n.times e.alpha sample) (n.times (n.minus (n.of_nat 1) e.alpha) v)
  ]

  unfoldable pub update_average : F → Ema F → Ema F
  unfolding averaged
  update_average sample e = record e { value = some (averaged sample e) }

  abbrev pub average_of : Ema F → F
  average_of e = elim e.value [ none ↦ n.of_nat 0 | some v ↦ v ]

abbrev pub reset_average : {F : Type 0} → Ema F → Ema F
reset_average e = record e { value = none }
