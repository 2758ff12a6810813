-- ===== src/Node/Cleanup.antt =====
-- What the background sweep of a node removes.
use distributive_cache.Base.{
  ℕ, ◌≡◌, refl, Bool, true, false, Option, none, some, List, [], ◌∷◌, if◌then◌else◌, arith, ◌∙◌, ap,
  sym, Option-cases, inl, inr, includes, text_keyed, Text-discrete, ite, All,
}
use distributive_cache.Base.Dict
use distributive_cache.Base.Dict.{Dict}
use distributive_cache.Shared.{CacheKey, CacheEntry}
use distributive_cache.Storage.{EvictionHook, Storage, is_expired, by_delete}
use distributive_cache.Storage.Engine.{delete, sweep_expired}
use distributive_cache.Storage.Removal.{IsValid, get-remove}
use distributive_cache.Storage.Expiry.{unexpired, sweep-get}
use distributive_cache.Node.Server.{find_expired, delete_keys, finish_sweep}

-- Each entry is stored under its own key.
abbrev pub IsKeyed : {V : Type 0} → Dict CacheKey (CacheEntry V) → Type 0
IsKeyed = All (λ e. e.1.key ≡ e.0)

module _ {V : Type 0} (now : ℕ) where
  abbrev is_old : Option (CacheEntry V) → Bool
  is_old none = false
  is_old (some e) = is_expired now e

  includes-find_expired :
      (m : Dict CacheKey (CacheEntry V)) (j : CacheKey)
      → Dict.IsDistinct m
      → IsKeyed m
      → includes j (find_expired now (Dict.values m)) ≡ is_old (Dict.get j m)
  unfolding find_expired includes Dict.get
  includes-find_expired [] j d v = refl
  includes-find_expired (e ∷ m) j d v = ground (arith, includes-find_expired m j d.1 v.1)

module _ {V S : Type 0} (hook : EvictionHook S) where
  get-delete :
      (k j : CacheKey) (s : Storage V S)
      → Dict.get j (delete hook k s).1.store ≡ ite (Text-discrete k j) none (Dict.get j s.store)
  unfolding delete
  get-delete k j s = elim (Option-cases (Dict.get k s.store)) [
    | inl e ↦ rw (e, delete) (ground arith)
    | inr (x, e) ↦ rw (e, delete) (get-remove hook k by_delete s j)
  ]

  get-delete_keys :
      (ks : List CacheKey) (j : CacheKey) (s : Storage V S)
      → Dict.get j (delete_keys hook ks s).store
        ≡ (if includes j ks then none else Dict.get j s.store)
  unfolding delete_keys includes
  get-delete_keys [] j s = refl
  get-delete_keys (k ∷ ks) j s =
      get-delete_keys ks j (delete hook k s).1 ∙ ground (arith, get-delete k j s)

  -- On a valid store whose entries stand under their own keys: if nothing happens while the worker looks for expired entries, the sweep leaves under each key what the sweep
  -- of the store itself leaves.
  pub finish_sweep-sweep_expired :
      (now : ℕ) (s : Storage V S) (j : CacheKey)
      → IsValid s
      → IsKeyed s.store
      → Dict.get j (finish_sweep hook (find_expired now (Dict.values s.store)) s).store
        ≡ Dict.get j (sweep_expired hook now s).1.store
  unfolding finish_sweep
  finish_sweep-sweep_expired now s j v keyed =
      get-delete_keys (find_expired now (Dict.values s.store)) j s
      ∙ ap (λ b. if b then none else Dict.get j s.store)
          (includes-find_expired now s.store j v.distinct keyed)
      ∙ left (Dict.get j s.store)
      ∙ sym (sweep-get hook now s j v).0
    where
      left : (x : Option (CacheEntry V)) → (if is_old now x then none else x) ≡ unexpired hook now x
      left none = refl
      left (some e) = refl

  -- On a valid store whose entries stand under their own keys: a key whose entry had expired when the worker was asked is gone after the sweep, whatever the store holds for
  -- it when the worker answers: a write in between is lost.
  pub finish_sweep-fresh :
      (now : ℕ) (s later : Storage V S) (k : CacheKey) (e : CacheEntry V)
      → IsValid s
      → IsKeyed s.store
      → Dict.get k s.store ≡ some e
      → is_expired now e ≡ true
      → Dict.get k (finish_sweep hook (find_expired now (Dict.values s.store)) later).store ≡ none
  unfolding finish_sweep
  finish_sweep-fresh now s later k e v keyed held old =
      get-delete_keys (find_expired now (Dict.values s.store)) k later
      ∙ ap (λ b. if b then none else Dict.get k later.store)
          (includes-find_expired now s.store k v.distinct keyed ∙ ap (is_old now) held ∙ old)
