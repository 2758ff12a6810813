-- ===== src/Eviction/Lfu/Victim.antt =====
-- What `selectVictim` answers: a candidate, and one whenever there is one.
use distributive_cache.Base.{
  ℕ, ◌≡◌, refl, ◌≢◌, true, some, List, [], ◌∷◌, arith, includes, includes-head, is_some, text_keyed,
  number_keyed, Bool-cases, Option-cases, inl, inr,
}
use distributive_cache.Base.Dict
use distributive_cache.Base.Dict.{Dict}
use distributive_cache.Shared.{CacheKey}
use distributive_cache.Storage.{EvictionHook}
use distributive_cache.Storage.Rounds.{IsLawful, IsTotal}
use distributive_cache.Eviction.Lfu.{
  Lfu, keys_of, bump, record_write, record_removal, first_candidate, search_buckets, select_victim,
  sort_numbers,
}

-- The policy as the store sees it.
abbrev pub lfu_hook : EvictionHook Lfu
lfu_hook = record {
  record_access = bump;
  record_write = record_write;
  record_removal = record_removal;
  select_victim = select_victim;
}

first_candidate-offered :
    (candidates keys : List CacheKey) (v : CacheKey)
    → first_candidate candidates keys ≡ some v
    → includes v candidates ≡ true
unfolding first_candidate
first_candidate-offered candidates [] v h = absurd (cc)
first_candidate-offered candidates (k ∷ ks) v h = elim (Bool-cases (includes k candidates)) [
  | inl e ↦ ground arith
  | inr e ↦ first_candidate-offered candidates ks v (ground arith)
]

search_buckets-offered :
    (candidates : List CacheKey) (buckets : Dict ℕ (List CacheKey)) (fs : List ℕ) (v : CacheKey)
    → search_buckets candidates buckets fs ≡ some v
    → includes v candidates ≡ true
unfolding search_buckets
search_buckets-offered candidates buckets [] v h = absurd (cc)
search_buckets-offered candidates buckets (f ∷ fs) v h =
    elim (Option-cases (first_candidate candidates (keys_of (Dict.get f buckets)))) [
      | inl e ↦ search_buckets-offered candidates buckets fs v (rw (e, search_buckets) at h)
      | inr (k, e) ↦
          first_candidate-offered candidates (keys_of (Dict.get f buckets)) v (ground arith)
    ]

select_victim-offered :
    (candidates : List CacheKey) (s : Lfu) (v : CacheKey)
    → select_victim candidates s ≡ some v
    → includes v candidates ≡ true
unfolding select_victim
select_victim-offered [] s v h = absurd (cc)
select_victim-offered (c ∷ cs) s v h = grind (
  arith,
  first_candidate-offered (c ∷ cs) (keys_of (Dict.get s.min_frequency s.buckets)) v,
  search_buckets-offered (c ∷ cs) s.buckets (sort_numbers (Dict.keys s.buckets)) v,
  includes-head c cs,
)

pub lfu-IsLawful : IsLawful lfu_hook
lfu-IsLawful = record { chosen = select_victim-offered }

select_victim-some :
    (candidates : List CacheKey) (s : Lfu)
    → candidates ≢ []
    → is_some (select_victim candidates s) ≡ true
unfolding select_victim
select_victim-some [] s h = absurd (h refl)
select_victim-some (c ∷ cs) s h = ground arith

pub lfu-IsTotal : IsTotal lfu_hook
lfu-IsTotal = record { finds = select_victim-some }

-- Whatever the state of the frequencies and buckets, the policy chooses a victim from every non-empty list of
-- candidates, and the victim is one of them.
pub select_victim-chosen :
    (candidates : List CacheKey) (s : Lfu)
    → candidates ≢ []
    → (v : CacheKey) × (select_victim candidates s ≡ some v) × (includes v candidates ≡ true)
select_victim-chosen candidates s h = elim (Option-cases (select_victim candidates s)) [
  | inl e ↦ absurd (ground (arith, select_victim-some candidates s h))
  | inr (v, e) ↦ (v, e, select_victim-offered candidates s v e)
]
