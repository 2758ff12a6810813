-- ===== src/Base/Dict.antt =====
-- A JavaScript `Map`: its entries in insertion order. `set` keeps the place of a key that is there.
use Prim.Native.Nat.{ℕ, suc, ◌+◌, ◌≤◌, ◌<◌}
use mathlib.Core.Path.{◌≡◌, refl, ◌∙◌}
use mathlib.Core.Logic.{◌≢◌, ite, if_pos, if_neg}
use mathlib.Core.Bool.{Bool}
use mathlib.Core.List.{List, [], ◌∷◌, map}
use mathlib.Core.Option.{Option, none, some}
use native.Mathlib.Omega.{arith}
use distributive_cache.Base.Tests.{Keyed, is_some}
use distributive_cache.Base.Lists.{length, includes}

abbrev pub Dict {ℓ} : Type ℓ → Type ℓ → Type ℓ
Dict K V = List (K × V)

module _ {ℓ} {K V : Type ℓ} where
  -- `[...map.keys()]` and `[...map.values()]`
  abbrev pub keys : Dict K V → List K
  keys = map (λ e. e.0)

  abbrev pub values : Dict K V → List V
  values = map (λ e. e.1)

  abbrev pub total : (V → ℕ) → Dict K V → ℕ
  total f [] = 0
  total f (e ∷ m) = f e.1 + total f m

module _ {ℓ} {K V : Type ℓ} ⦃k : Keyed K⦄ where
  unfoldable pub get : K → Dict K V → Option V
  get a [] = none
  get a (e ∷ m) = ite (k.same e.0 a) (some e.1) (get a m)

  -- `map.has(a)`
  abbrev pub has : K → Dict K V → Bool
  has a m = is_some (get a m)

  unfoldable pub set : K → V → Dict K V → Dict K V
  set a v [] = (a, v) ∷ []
  set a v (e ∷ m) = ite (k.same e.0 a) ((e.0, v) ∷ m) (e ∷ set a v m)

  unfoldable pub delete : K → Dict K V → Dict K V
  delete a [] = []
  delete a (e ∷ m) = ite (k.same e.0 a) (delete a m) (e ∷ delete a m)

  -- No key has two entries.
  abbrev pub IsDistinct : Dict K V → Type ℓ
  IsDistinct [] = Unit
  IsDistinct (e ∷ m) = (get e.0 m ≡ none) × IsDistinct m

  pub get-set :
      (a b : K) (v : V) (m : Dict K V) → get b (set a v m) ≡ ite (k.same a b) (some v) (get b m)
  unfolding get set
  get-set a b v [] = refl
  get-set a b v (e ∷ m) = ground (arith, get-set a b v m)

  pub get-set_self : (a : K) (v : V) (m : Dict K V) → get a (set a v m) ≡ some v
  get-set_self a v m = get-set a a v m ∙ if_pos (k.same a a) refl _ _

  pub get-set_ne : (a b : K) (v : V) (m : Dict K V) → a ≢ b → get b (set a v m) ≡ get b m
  get-set_ne a b v m h = get-set a b v m ∙ if_neg (k.same a b) h _ _

  pub get-delete : (a b : K) (m : Dict K V) → get b (delete a m) ≡ ite (k.same a b) none (get b m)
  unfolding get delete
  get-delete a b [] = ground arith
  get-delete a b (e ∷ m) = ground (arith, get-delete a b m)

  pub get-delete_self : (a : K) (m : Dict K V) → get a (delete a m) ≡ none
  get-delete_self a m = get-delete a a m ∙ if_pos (k.same a a) refl _ _

  pub get-delete_ne : (a b : K) (m : Dict K V) → a ≢ b → get b (delete a m) ≡ get b m
  get-delete_ne a b m h = get-delete a b m ∙ if_neg (k.same a b) h _ _

  pub includes-keys : (a : K) (m : Dict K V) → includes a (keys m) ≡ has a m
  unfolding get includes
  includes-keys a [] = refl
  includes-keys a (e ∷ m) = elim (k.same e.0 a) [
    | yes p ↦ rw (if_pos (k.same e.0 a) p, if_pos (k.same e.0 a) p)
    | no p ↦ rw (if_neg (k.same e.0 a) p, if_neg (k.same e.0 a) p) (includes-keys a m)
  ]

  pub set-IsDistinct : (a : K) (v : V) (m : Dict K V) → IsDistinct m → IsDistinct (set a v m)
  unfolding get set
  set-IsDistinct a v [] d = (refl, tt)
  set-IsDistinct a v (e ∷ m) d = ground (arith, set-IsDistinct a v m, get-set a e.0 v m)

  pub delete-IsDistinct : (a : K) (m : Dict K V) → IsDistinct m → IsDistinct (delete a m)
  unfolding delete
  delete-IsDistinct a [] d = tt
  delete-IsDistinct a (e ∷ m) d = ground (arith, delete-IsDistinct a m, get-delete a e.0 m)

  pub delete_absent : (a : K) (m : Dict K V) → get a m ≡ none → delete a m ≡ m
  unfolding get delete
  delete_absent a [] h = refl
  delete_absent a (e ∷ m) h = ground (arith, delete_absent a m)

  pub length-set_new :
      (a : K) (v : V) (m : Dict K V) → get a m ≡ none → length (set a v m) ≡ suc (length m)
  unfolding get set
  length-set_new a v [] h = refl
  length-set_new a v (e ∷ m) h = ground (arith, length-set_new a v m)

  pub length-set_old :
      (a : K) (v w : V) (m : Dict K V) → get a m ≡ some w → length (set a v m) ≡ length m
  unfolding get set
  length-set_old a v w [] h = cc
  length-set_old a v w (e ∷ m) h = ground (arith, length-set_old a v w m)

  pub length-delete :
      (a : K) (v : V) (m : Dict K V)
      → IsDistinct m
      → get a m ≡ some v
      → suc (length (delete a m)) ≡ length m
  unfolding get delete
  length-delete a v [] d h = cc
  length-delete a v (e ∷ m) d h = ground (arith, length-delete a v m, delete_absent a m)

  pub total-set_new :
      (f : V → ℕ) (a : K) (v : V) (m : Dict K V)
      → get a m ≡ none
      → total f (set a v m) ≡ total f m + f v
  unfolding get set
  total-set_new f a v [] h = omega arith
  total-set_new f a v (e ∷ m) h = ground (arith, total-set_new f a v m)

  pub total-set_old :
      (f : V → ℕ) (a : K) (v w : V) (m : Dict K V)
      → get a m ≡ some w
      → total f (set a v m) + f w ≡ total f m + f v
  unfolding get set
  total-set_old f a v w [] h = cc
  total-set_old f a v w (e ∷ m) h = ground (arith, total-set_old f a v w m)

  pub total-delete :
      (f : V → ℕ) (a : K) (v : V) (m : Dict K V)
      → IsDistinct m
      → get a m ≡ some v
      → total f (delete a m) + f v ≡ total f m
  unfolding get delete
  total-delete f a v [] d h = cc
  total-delete f a v (e ∷ m) d h = ground (arith, total-delete f a v m, delete_absent a m)

  pub le-total : (f : V → ℕ) (a : K) (v : V) (m : Dict K V) → get a m ≡ some v → f v ≤ total f m
  unfolding get
  le-total f a v [] h = cc
  le-total f a v (e ∷ m) h = ground (arith, le-total f a v m)

  pub get-head : (e : K × V) (m : Dict K V) → get e.0 (e ∷ m) ≡ some e.1
  unfolding get
  get-head e m = if_pos (k.same e.0 e.0) refl _ _

  pub get-tail :
      (e : K × V) (m : Dict K V) (a : K) (v : V)
      → get e.0 m ≡ none
      → get a m ≡ some v
      → get a (e ∷ m) ≡ some v
  unfolding get
  get-tail e m a v h g = ground arith

  pub length-le-total :
      (f : V → ℕ) (m : Dict K V)
      → IsDistinct m
      → ((a : K) (v : V) → get a m ≡ some v → 0 < f v)
      → length m ≤ total f m
  length-le-total f [] d h = omega arith
  length-le-total f (e ∷ m) d h = omega (
    arith,
    h e.0 e.1 (get-head e m),
    length-le-total f m d.1 (λ a v g. h a v (get-tail e m a v d.0 g)),
  )
