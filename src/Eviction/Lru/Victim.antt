-- ===== src/Eviction/Lru/Victim.antt =====
-- What `leastRecentlyUsedCandidates` answers: some of the candidates, no more than asked for.
use distributive_cache.Base.{
  ℕ, zero, suc, ◌+◌, ◌≤◌, ◌≡◌, true, Option, none, some, List, [], ◌∷◌, ◌++◌, arith, ltb, leb,
  if◌then◌else◌, length, length-append, includes, All, All-append, text_keyed, Bool-cases, inl, inr,
}
use distributive_cache.Base.Dict
use distributive_cache.Shared.{CacheKey}
use distributive_cache.Eviction.Lru.{Lru, walk_back, least_recently_used}

-- The key is among the candidates.
abbrev pub Offered : List CacheKey → CacheKey → Type 0
Offered candidates k = includes k candidates ≡ true

module _ (s : Lru) (candidates : List CacheKey) (limit : ℕ) where
  abbrev picked : CacheKey → List CacheKey → List CacheKey
  picked k result = if includes k candidates then result ++ (k ∷ []) else result

  picked-Offered :
      (k : CacheKey) (result : List CacheKey)
      → All (Offered candidates) result
      → All (Offered candidates) (picked k result)
  picked-Offered k result a = elim (Bool-cases (includes k candidates)) [
    | inl e ↦ rw e (All-append (Offered candidates) result _ a (e, tt))
    | inr e ↦ rw e a
  ]

  length-picked-le :
      (k : CacheKey) (result : List CacheKey) → length (picked k result) ≤ length result + 1
  length-picked-le k result = ground (arith, length-append result (k ∷ []))

  walk_bounds :
      (guard : ℕ) (current : Option CacheKey) (result : List CacheKey)
      → All (Offered candidates) result
      → length result ≤ limit
      → let ks = walk_back s candidates limit guard current result in
        All (Offered candidates) ks × (length ks ≤ limit)
  unfolding walk_back
  walk_bounds zero current result a h = (a, h)
  walk_bounds (suc guard) none result a h = (a, h)
  walk_bounds (suc guard) (some k) result a h = elim (Bool-cases (ltb (length result) limit)) [
    | inr e ↦ rw (e, walk_back) (a, h)
    | inl e ↦
        rw (e, walk_back)
          (walk_bounds guard (elim (Dict.get k s.nodes) [ none ↦ none | some n ↦ n.prev ])
            (picked k result) (picked-Offered k result a)
            (ground (arith, length-picked-le k result)))
  ]

  -- Every key that `leastRecentlyUsedCandidates` answers is a candidate, and there are at most `limit`,
  -- whatever the state of the list.
  pub least_recently_used-bounds :
      let ks = least_recently_used candidates limit s in
      All (Offered candidates) ks × (length ks ≤ limit)
  unfolding least_recently_used
  least_recently_used-bounds = elim (Bool-cases (leb limit 0)) [
    | inl e ↦ rw (e, least_recently_used) (tt, omega arith)
    | inr e ↦
        rw (e, least_recently_used) (walk_bounds (length s.nodes + 1) s.tail [] tt (omega arith))
  ]
