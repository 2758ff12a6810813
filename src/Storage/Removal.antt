-- ===== src/Storage/Removal.antt =====
-- The invariant of the store, and `removeInternal`, which every removal goes through.
use distributive_cache.Base.{
  suc, ◌≤◌, ◌≡◌, inl, inr, none, some, arith, length, Option-cases, text_keyed, Text-discrete, ite,
  ap, ◌∙◌,
}
use distributive_cache.Base.Dict
use distributive_cache.Base.Dict.{Dict}
use distributive_cache.Shared.{CacheKey, CacheEntry}
use distributive_cache.Storage.{EvictionHook, Storage, Reason, entry_size}
use distributive_cache.Storage.Engine.{remove_internal}

-- Every key has one entry, and the byte count is the sum over the entries.
pub record IsValid {V S : Type 0} (s : Storage V S) : Type 0 where
  pub distinct : Dict.IsDistinct s.store
  pub counted : s.total_size_bytes ≡ Dict.total entry_size s.store

module _ {V S : Type 0} (hook : EvictionHook S) (k : CacheKey) (r : Reason) (s : Storage V S) where
  pub remove-IsValid : IsValid s → IsValid (remove_internal hook k r s)
  unfolding remove_internal
  remove-IsValid v = elim (Option-cases (Dict.get k s.store)) [
    | inl e ↦ ground arith
    | inr (x, e) ↦
        ground (arith, Dict.delete-IsDistinct k s.store, Dict.total-delete entry_size k x s.store)
  ]

  -- The store afterwards is the store without the key.
  pub store-remove : (remove_internal hook k r s).store ≡ Dict.delete k s.store
  unfolding remove_internal
  store-remove = ground (arith, Dict.delete_absent k s.store)

  pub get-remove :
      (j : CacheKey)
      → Dict.get j (remove_internal hook k r s).store
        ≡ ite (Text-discrete k j) none (Dict.get j s.store)
  get-remove j = ap (Dict.get j) store-remove ∙ Dict.get-delete k j s.store

  pub length-remove :
      (e : CacheEntry V)
      → IsValid s
      → Dict.get k s.store ≡ some e
      → suc (length (remove_internal hook k r s).store) ≡ length s.store
  unfolding remove_internal
  length-remove e v h = ground (arith, Dict.length-delete k e s.store)

  pub length-remove-le : IsValid s → length (remove_internal hook k r s).store ≤ length s.store
  unfolding remove_internal
  length-remove-le v = elim (Option-cases (Dict.get k s.store)) [
    | inl e ↦ ground arith
    | inr (x, e) ↦ ground (arith, Dict.length-delete k x s.store)
  ]
