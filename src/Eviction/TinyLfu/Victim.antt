-- ===== src/Eviction/TinyLfu/Victim.antt =====
-- What `selectVictim` of TinyLFU answers.
use distributive_cache.Base.{
  ℕ, ◌≤◌, ◌≡◌, refl, ◌≢◌, true, false, some, List, [], ◌∷◌, arith, ltb, includes, All, subst, sym,
  text_keyed, Bool-cases, inl, inr,
}
use distributive_cache.Shared.{CacheKey}
use distributive_cache.Eviction.Lru.{least_recently_used}
use distributive_cache.Eviction.Lru.Victim.{Offered, least_recently_used-bounds}
use distributive_cache.Eviction.Sketch.{Sketch, estimate}
use distributive_cache.Eviction.TinyLfu.{TinyLfu, least_frequent, select_victim}

abbrev pub IsRarer : Sketch → CacheKey → CacheKey → Type 0
IsRarer s v k = estimate v s ≤ estimate k s

least_frequent-lower :
    (s : Sketch) (f : ℕ) (v k : CacheKey) (ks : List CacheKey)
    → ltb (estimate k s) f ≡ true
    → least_frequent s v f (k ∷ ks) ≡ least_frequent s k (estimate k s) ks
unfolding least_frequent
least_frequent-lower s f v k ks e = rw (e, least_frequent) refl

least_frequent-other :
    (s : Sketch) (f : ℕ) (v k : CacheKey) (ks : List CacheKey)
    → ltb (estimate k s) f ≡ false
    → least_frequent s v f (k ∷ ks) ≡ least_frequent s v f ks
unfolding least_frequent
least_frequent-other s f v k ks e = rw (e, least_frequent) refl

-- No rarer than the keys that it was chosen from.
least_frequent-IsRarer :
    (s : Sketch) (v : CacheKey) (ks : List CacheKey)
    → All (IsRarer s (least_frequent s v (estimate v s) ks)) (v ∷ ks)
least_frequent-IsRarer s v [] = (unfold least_frequent in omega arith, tt)
least_frequent-IsRarer s v (k ∷ ks) = elim (Bool-cases (ltb (estimate k s) (estimate v s))) [
  | inl e ↦
      let (p, q) = least_frequent-IsRarer s k ks in
      subst (λ w. All (IsRarer s w) (v ∷ k ∷ ks))
        (sym (least_frequent-lower s (estimate v s) v k ks e)) (ground arith, (p, q))
  | inr e ↦
      let (p, q) = least_frequent-IsRarer s v ks in
      subst (λ w. All (IsRarer s w) (v ∷ k ∷ ks))
        (sym (least_frequent-other s (estimate v s) v k ks e)) (p, (ground arith, q))
]

least_frequent-All :
    (P : CacheKey → Type 0) (s : Sketch) (f : ℕ) (v : CacheKey) (ks : List CacheKey)
    → P v
    → All P ks
    → P (least_frequent s v f ks)
unfolding least_frequent
least_frequent-All P s f v [] p a = p
least_frequent-All P s f v (k ∷ ks) p (q, a) = elim (Bool-cases (ltb (estimate k s) f)) [
  | inl e ↦ rw (e, least_frequent) (least_frequent-All P s (estimate k s) k ks q a)
  | inr e ↦ rw (e, least_frequent) (least_frequent-All P s f v ks p a)
]

pub victim_of :
    (candidates bottom : List CacheKey) (t : TinyLfu)
    → least_recently_used candidates t.bottom_k t.recency ≡ bottom
    → bottom ≢ []
    → (v : CacheKey) × (select_victim candidates t ≡ some v)
      × (includes v candidates ≡ true)
      × All (IsRarer t.sketch v) bottom
unfolding select_victim
victim_of candidates [] t h n = absurd (n refl)
victim_of candidates (k ∷ ks) t h n =
    let offered : All (Offered candidates) (k ∷ ks) =
      subst (All (Offered candidates)) h
        (least_recently_used-bounds t.recency candidates t.bottom_k).0 in
    (
      least_frequent t.sketch k (estimate k t.sketch) ks,
      rw (h, select_victim) refl,
      least_frequent-All (Offered candidates) t.sketch _ k ks offered.0 offered.1,
      least_frequent-IsRarer t.sketch k ks,
    )

-- If the recency list offers any of the candidates, the victim is a candidate, and none of the least recently
-- used candidates that the policy looks at has a lower estimate.
pub select_victim-IsRarer :
    (candidates : List CacheKey) (t : TinyLfu)
    → least_recently_used candidates t.bottom_k t.recency ≢ []
    → (v : CacheKey) × (select_victim candidates t ≡ some v)
      × (includes v candidates ≡ true)
      × All (IsRarer t.sketch v) (least_recently_used candidates t.bottom_k t.recency)
select_victim-IsRarer candidates t n = victim_of candidates _ t refl n
