-- ===== src/Node/Deliveries.antt =====
-- What a replica holds after deliveries of the writes to one key.
use distributive_cache.Base.{
  ℕ, ◌+◌, ◌≤◌, ◌≡◌, refl, ◌≢◌, true, false, Option, none, some, List, [], ◌∷◌, leb, arith, ◌∙◌, ap,
  sym, subst, Option-cases, inl, inr, max, text_keyed, Bool-cases,
}
use distributive_cache.Base.Dict
use distributive_cache.Shared.{CacheKey, CacheEntry, CacheMetadata}
use distributive_cache.Shared.Errors.{Result, ok, err}
use distributive_cache.Storage.{EvictionHook, StorageOptions, Storage, is_expired, expiry}
use distributive_cache.Storage.Engine.{peek}
use distributive_cache.Storage.Written.{old_version}
use distributive_cache.Node.Server.{apply_remote_write, remaining_ttl, store_of, is_stale}
use distributive_cache.Node.Unlimited.{IsUnlimited, set_unlimited}

pub record Delivery : Type 0 where
  pub looked : ℕ
  pub at : ℕ
  pub written : ℕ
  pub metadata : CacheMetadata

-- The version that is the newest after the deliveries.
abbrev pub newest : ℕ → List Delivery → ℕ
newest n [] = n
newest n (d ∷ ds) = newest (max n d.metadata.version) ds

-- Versions start at 1, none is more than one ahead of those before it, and none expires. Repeated and late
-- deliveries are allowed.
abbrev pub IsGapless : ℕ → List Delivery → Type 0
IsGapless n [] = Unit
IsGapless n (d ∷ ds) =
    (1 ≤ d.metadata.version)
    × (d.metadata.version ≤ n + 1)
    × (d.metadata.expires_at ≡ none)
    × IsGapless (max n d.metadata.version) ds

content_of :
    {V : Type 0} {v : V} (o : Option (CacheEntry V)) (e f : CacheEntry V)
    → o ≡ some e
    → o ≡ some f
    → e.value ≡ v
    → e.metadata.expires_at ≡ none
    → (f.value ≡ v) × (f.metadata.expires_at ≡ none)
content_of o e f h g value expires = ground arith

module _ {V S : Type 0} where
  -- The store has the version `n` of the key and its value, or nothing if `n` is 0.
  pub record IsHeld (k : CacheKey) (value_of : ℕ → V) (n : ℕ) (s : Storage V S) : Type 0 where
    pub version : old_version (Dict.get k s.store) ≡ n
    pub content :
        (e : CacheEntry V)
        → Dict.get k s.store ≡ some e
        → (e.value ≡ value_of n) × (e.metadata.expires_at ≡ none)

module _ {V S : Type 0} (hook : EvictionHook S) (size_of : V → ℕ) (o : StorageOptions) where
  -- The deliveries of the versions of one key, with the value that the primary gave to each version.
  unfoldable pub deliver_all :
      CacheKey → (ℕ → V) → List Delivery → Storage V S → Result (Storage V S)
  deliver_all k value_of [] s = ok s
  deliver_all k value_of (d ∷ ds) s =
      elim (apply_remote_write hook size_of o d.looked d.at d.written k
        (value_of d.metadata.version) d.metadata s) [
          | err t ↦ err t
          | ok s' ↦ deliver_all k value_of ds s'
        ]

  pub peek_lasting :
      (now : ℕ) (k : CacheKey) (s : Storage V S) (e : CacheEntry V)
      → Dict.get k s.store ≡ some e
      → e.metadata.expires_at ≡ none
      → peek hook now k s ≡ some e
  unfolding peek is_expired
  peek_lasting now k s e h f = rw (h, f, peek, is_expired) (ground arith)

  pub peek_absent :
      (now : ℕ) (k : CacheKey) (s : Storage V S)
      → Dict.get k s.store ≡ none
      → peek hook now k s ≡ none
  unfolding peek
  peek_absent now k s h = rw (h, peek) refl

  module _ (free : IsUnlimited o) (k : CacheKey) (named : k ≢ []) where
    -- A delivery that is not stale is written with the next version of the replica's own.
    pub apply_fresh :
        (looked at written : ℕ) (v : V) (m : CacheMetadata) (s : Storage V S)
        → is_stale (peek hook looked k s) m ≡ false
        → m.expires_at ≡ none
        → (s' : Storage V S) × (e : CacheEntry V) × (apply_remote_write hook size_of o looked at
              written k v m s
            ≡ ok s')
          × (Dict.get k s'.store ≡ some e)
          × (e.value ≡ v)
          × (e.metadata.version ≡ old_version (Dict.get k s.store) + 1)
          × (e.metadata.expires_at ≡ none)
    unfolding apply_remote_write expiry
    apply_fresh looked at written v m s fresh lasts =
        let (e, s', done, held, value, version, expires) =
          set_unlimited hook size_of o free written k v (remaining_ttl at m.expires_at) s named in
        (
          s',
          e,
          rw (fresh, apply_remote_write) (ap store_of done),
          held,
          value,
          version,
          expires ∙ rw (lasts, free.lasting, expiry) refl,
        )

    pub apply_stale :
        (looked at written : ℕ) (v : V) (m : CacheMetadata) (s : Storage V S)
        → is_stale (peek hook looked k s) m ≡ true
        → apply_remote_write hook size_of o looked at written k v m s ≡ ok s
    unfolding apply_remote_write
    apply_stale looked at written v m s stale = rw (stale, apply_remote_write) refl

    module _ (value_of : ℕ → V) where
      stale_held :
          (looked n : ℕ) (m : CacheMetadata) (s : Storage V S)
          → 1 ≤ m.version
          → IsHeld k value_of n s
          → is_stale (peek hook looked k s) m ≡ leb m.version n
      stale_held looked n m s low v = elim (Option-cases (Dict.get k s.store)) [
        | inl e ↦
            ap (λ x. is_stale x m) (peek_absent looked k s e)
            ∙ ground (arith, sym (ap old_version e) ∙ v.version)
        | inr (x, e) ↦
            ap (λ y. is_stale y m) (peek_lasting looked k s x e (v.content x e).1)
            ∙ ap (leb m.version) (sym (ap old_version e) ∙ v.version)
      ]

      deliver-IsHeld :
          (d : Delivery) (n : ℕ) (s : Storage V S)
          → 1 ≤ d.metadata.version
          → d.metadata.version ≤ n + 1
          → d.metadata.expires_at ≡ none
          → IsHeld k value_of n s
          → (s' : Storage V S) × (apply_remote_write hook size_of o d.looked d.at d.written k
                (value_of d.metadata.version)
                d.metadata
                s
              ≡ ok s')
            × IsHeld k value_of (max n d.metadata.version) s'
      deliver-IsHeld d n s low high lasts v = elim (Bool-cases (leb d.metadata.version n)) [
        | inl old ↦
            let same : n ≡ max n d.metadata.version = ground arith in
            (
              s,
              apply_stale d.looked d.at d.written (value_of d.metadata.version) d.metadata s
                  (stale_held d.looked n d.metadata s low v ∙ old),
              subst (λ j. IsHeld k value_of j s) same v,
            )
        | inr new ↦
            let (s', e, done, held, value, version, expires) =
              apply_fresh d.looked d.at d.written (value_of d.metadata.version) d.metadata s
                (stale_held d.looked n d.metadata s low v ∙ new) lasts in
            let next : n + 1 ≡ max n d.metadata.version = ground arith in
            let last : d.metadata.version ≡ max n d.metadata.version = ground arith in
            (
              s',
              done,
              record {
                version = ap old_version held ∙ version ∙ ap (λ j. j + 1) v.version ∙ next;
                content = λ f h. content_of _ e f held h (value ∙ ap value_of last) expires;
              },
            )
      ]

      -- A replica without limits and without a default time to live, which holds a version of a key, or nothing for
      -- version 0: after deliveries of versions of the key that start at 1, do not expire and never skip one, with any
      -- late or repeated ones among them, it holds the newest version with the value that the primary gave it.
      pub deliver_all-IsHeld :
          (ds : List Delivery) (n : ℕ) (s : Storage V S)
          → IsGapless n ds
          → IsHeld k value_of n s
          → (s' : Storage V S) × (deliver_all k value_of ds s ≡ ok s')
            × IsHeld k value_of (newest n ds) s'
      unfolding deliver_all
      deliver_all-IsHeld [] n s g v = (s, refl, v)
      deliver_all-IsHeld (d ∷ ds) n s g v =
          let (s', done, v') = deliver-IsHeld d n s g.0 g.1 g.2 v in
          let (s'', rest, w) = deliver_all-IsHeld ds (max n d.metadata.version) s' g.3 v' in
          (s'', rw (done, deliver_all) rest, w)
