-- ===== src/Ring/Rebalance.antt =====
-- packages/consistent-hash/src/RebalanceAnalyzer.ts: how many sample keys change their owner. The ratios of
-- the report are its counts, unreduced.
use native.Mathlib.Nat.{zero-add}
use distributive_cache.Base.{
  ℕ, zero, suc, ◌+◌, ◌≡◌, refl, ◌≢◌, max, Bool, true, false, Option, none, some, List, [], ◌∷◌,
  ◌++◌, arith, if◌then◌else◌, length, ite, Text, Text-discrete, select, inl, inr, Option-cases,
  if_pos, if_neg, ap, sym, not, ◌∙◌,
}
use distributive_cache.Shared.{CacheKey, NodeId}
use distributive_cache.Shared.Errors.{codes}
use distributive_cache.Ring.Hash.{decimal}
use distributive_cache.Ring.Removal.{
  IsValid, get_node-remove_node, get_node-remove_node_self, get_node-remove_node-none,
}
use distributive_cache.Ring.{Ring, get_node, remove_node}

-- `===` on `string | null`
unfoldable pub same_owner : Option NodeId → Option NodeId → Bool
same_owner none none = true
same_owner none (some b) = false
same_owner (some a) none = false
same_owner (some a) (some b) = ite (Text-discrete a b) true false

pub record KeyMovementReport : Type 0 where
  pub sample_size : ℕ
  pub moved_count : ℕ
  pub reference_node_count : ℕ

-- The loop over the sample.
unfoldable pub moved_from : Ring → Ring → List CacheKey → ℕ → ℕ
moved_from before after [] moved = moved
moved_from before after (key ∷ rest) moved =
    moved_from before after rest
      (if same_owner (get_node before key) (get_node after key) then moved else moved + 1)

unfoldable pub analyze_key_movement : Ring → Ring → List CacheKey → KeyMovementReport
analyze_key_movement before after sample = record {
  sample_size = length sample;
  moved_count = moved_from before after sample 0;
  reference_node_count = max (max (length before.nodes) (length after.nodes)) 1;
}

unfoldable pub sample_from : ℕ → ℕ → Text → List CacheKey
sample_from i zero prefix = []
sample_from i (suc n) prefix = (prefix ++ (codes ":" ++ decimal i)) ∷ sample_from (i + 1) n prefix

unfoldable pub generate_sample_keyspace : ℕ → Text → List CacheKey
unfolding sample_from
generate_sample_keyspace size prefix = sample_from 0 size prefix

-- The keys that a node owns.
abbrev pub owned_by : NodeId → Ring → CacheKey → Bool
owned_by id r key = same_owner (get_node r key) (some id)

same_owner_refl : (a : Option NodeId) → same_owner a a ≡ true
unfolding same_owner
same_owner_refl none = refl
same_owner_refl (some a) = if_pos (Text-discrete a a) refl _ _

same_owner_ne : (a b : Option NodeId) → a ≢ b → same_owner a b ≡ false
unfolding same_owner
same_owner_ne none none h = absurd (h refl)
same_owner_ne none (some b) h = refl
same_owner_ne (some a) none h = refl
same_owner_ne (some a) (some b) h = if_neg (Text-discrete a b) (λ e. h (ap some e)) _ _

owner_on_leave :
    (id : NodeId) (r : Ring) (key : CacheKey)
    → IsValid r
    → same_owner (get_node r key) (get_node (remove_node id r) key) ≡ not (owned_by id r key)
owner_on_leave id r key v = elim (Option-cases (get_node r key)) [
  | inl e ↦ rw (e, get_node-remove_node-none id r key v.sorted e) (unfold same_owner in refl)
  | inr (m, e) ↦ elim (Text-discrete m id) [
    | yes p ↦
        let gone = get_node-remove_node_self id r key v.sorted in
        let here : get_node r key ≡ some id = e ∙ ap some p in
        rw (here, same_owner_refl (some id))
          (same_owner_ne (some id) (get_node (remove_node id r) key) (λ q. gone (sym q)))
    | no n ↦
        rw (e, get_node-remove_node id m r key v.sorted e n, same_owner_refl (some m))
          (sym (ap not (same_owner_ne (some m) (some id) (λ q. n (cc)))))
  ]
]

moved_on_leave :
    (id : NodeId) (r : Ring) (keys : List CacheKey) (moved : ℕ)
    → IsValid r
    → moved_from r (remove_node id r) keys moved ≡ moved + length (select (owned_by id r) keys)
unfolding moved_from select
moved_on_leave id r [] moved v = omega arith
moved_on_leave id r (key ∷ keys) moved v = ground (
  arith,
  owner_on_leave id r key v,
  moved_on_leave id r keys moved v,
  moved_on_leave id r keys (moved + 1) v,
)

-- When a node leaves a valid ring, as many sample keys move as it owned.
pub moved_count-remove_node :
    (id : NodeId) (r : Ring) (keys : List CacheKey)
    → IsValid r
    → (analyze_key_movement r (remove_node id r) keys).moved_count
      ≡ length (select (owned_by id r) keys)
unfolding analyze_key_movement
moved_count-remove_node id r keys v = moved_on_leave id r keys 0 v ∙ zero-add _
