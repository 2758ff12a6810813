-- ===== src/Replication/Sets.antt =====
-- ReplicationEngine.ts: the set of the nodes that acked, and the test whether every target is in it.
use distributive_cache.Base.{
  ◌≡◌, refl, true, false, ◌||◌, List, [], ◌∷◌, arith, includes, includes-append, add_to_set,
  text_keyed, Bool-cases, inl, inr, ap, All,
}
use distributive_cache.Shared.{NodeId}
use distributive_cache.Replication.{to_set, all_acked}

includes-add_to_set :
    (u a : NodeId) (xs : List NodeId)
    → includes u (add_to_set a xs) ≡ (includes u xs || includes u (a ∷ []))
unfolding add_to_set includes
includes-add_to_set u a xs = ground (arith, includes-append u xs (a ∷ []))

includes-to_set :
    (u : NodeId) (xs ys : List NodeId)
    → includes u (to_set xs ys) ≡ (includes u xs || includes u ys)
unfolding to_set includes
includes-to_set u xs [] = ground arith
includes-to_set u xs (y ∷ ys) =
    ground (arith, includes-to_set u (add_to_set y xs) ys, includes-add_to_set u y xs)

pub all_acked-to_set :
    (ts xs ys : List NodeId) → all_acked ts xs ≡ true → all_acked ts (to_set xs ys) ≡ true
unfolding all_acked
all_acked-to_set [] xs ys h = refl
all_acked-to_set (t ∷ ts) xs ys h =
    ground (arith, includes-to_set t xs ys, all_acked-to_set ts xs ys)

all_acked-includes :
    (u : NodeId) (ts xs : List NodeId)
    → all_acked ts xs ≡ true
    → includes u ts ≡ true
    → includes u xs ≡ true
unfolding all_acked includes
all_acked-includes u [] xs h among = absurd (cc)
all_acked-includes u (t ∷ ts) xs h among =
    ground (arith, all_acked-includes u ts xs, ap (λ v. includes v xs))

pub all_acked-All :
    (us ts xs : List NodeId)
    → all_acked ts xs ≡ true
    → All (λ u. includes u ts ≡ true) us
    → All (λ u. includes u xs ≡ true) us
all_acked-All [] ts xs h among = tt
all_acked-All (u ∷ us) ts xs h among =
    (all_acked-includes u ts xs h among.0, all_acked-All us ts xs h among.1)

pub includes-set : (u : NodeId) (ys : List NodeId) → includes u (to_set [] ys) ≡ includes u ys
unfolding includes
includes-set u ys = includes-to_set u [] ys

pub all_acked-set : (ts ys : List NodeId) → all_acked ts (to_set [] ys) ≡ all_acked ts ys
unfolding all_acked
all_acked-set [] ys = refl
all_acked-set (t ∷ ts) ys = ground (arith, includes-set t ys, all_acked-set ts ys)

pub to_set-All : (xs ts : List NodeId) → All (λ u. includes u (to_set xs ts) ≡ true) ts
unfolding to_set includes
to_set-All xs [] = tt
to_set-All xs (t ∷ ts) = (
  ground (arith, includes-to_set t (add_to_set t xs) ts, includes-add_to_set t t xs),
  to_set-All (add_to_set t xs) ts,
)

-- A new waiter misses an ack.
pub new_missing : (t : NodeId) (ts : List NodeId) → all_acked (to_set [] (t ∷ ts)) [] ≡ false
unfolding includes
new_missing t ts = elim (Bool-cases (all_acked (to_set [] (t ∷ ts)) [])) [
  | inr e ↦ e
  | inl e ↦ absurd (cc (all_acked-includes t (to_set [] (t ∷ ts)) [] e (to_set-All [] (t ∷ ts)).0))
]

pub all_acked-false :
    (ts xs : List NodeId)
    → all_acked ts xs ≡ false
    → (u : NodeId) × (includes u ts ≡ true) × (includes u xs ≡ false)
unfolding all_acked includes
all_acked-false [] xs h = absurd (cc)
all_acked-false (t ∷ ts) xs h = elim (Bool-cases (includes t xs)) [
  | inl e ↦
      let (u, among, missing) = all_acked-false ts xs (ground (arith, h)) in
      (u, ground (arith, among), missing)
  | inr e ↦ (t, ground arith, e)
]
