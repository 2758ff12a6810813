-- ===== src/Node/Requests/Bodies.antt =====
-- services/cache-node/src/routes/cacheRoutes.ts: which bodies a put accepts, and what it reads from them.
use distributive_cache.Base.{
  ℕ, zero, suc, ◌<◌, ◌≡◌, refl, false, ◌==◌, ◌≢◌, Option, none, some, [], ◌∷◌, arith, inl, inr, ◌⊎◌,
  Text,
}
use distributive_cache.Shared.{CacheKey}
use distributive_cache.Shared.Errors.{ok, err, Thrown, to_error_response, http_status}
use distributive_cache.Storage.{SetOptions}
use distributive_cache.Node.Requests.{
  PutRequestBody, TtlField, absent, not_a_number, negative_number, number, checked_ttl,
  checked_body,
}

-- What a body says of the time to live, as the store is told it.
abbrev pub Asks : TtlField → SetOptions → Type 0
Asks ttl call =
    ((ttl ≡ absent) × (call.ttl_ms ≡ none))
    ⊎ ((t : ℕ) × (ttl ≡ number t) × (0 < t) × (call.ttl_ms ≡ some (some t)))

module _ {V : Type 0} where
  -- A body with a key that is not empty, a value, and a positive time to live or none.
  abbrev pub IsAcceptable :
      Option (PutRequestBody V) → CacheKey → V → TtlField → SetOptions → Type 0
  IsAcceptable body k v ttl call =
      (body ≡ some (record { key = some k; value = some v; ttl_ms = ttl }))
      × (k ≢ [])
      × Asks ttl call

  -- The key is missing or empty, the value is missing, or the time to live is not a positive number.
  abbrev pub IsUnacceptable : Option (PutRequestBody V) → Type 0
  IsUnacceptable none = Unit
  IsUnacceptable (some body) =
      (body.key ≡ none)
      ⊎ (body.key ≡ some [])
      ⊎ (body.value ≡ none)
      ⊎ (body.ttl_ms ≡ not_a_number)
      ⊎ (body.ttl_ms ≡ negative_number)
      ⊎ (body.ttl_ms ≡ number 0)

  -- The test of a body fails with status 400, or it gives what the body says.
  abbrev pub HasVerdict : Option (PutRequestBody V) → Type 0
  HasVerdict body =
      ((t : Thrown) × (checked_body body ≡ err t)
        × ((to_error_response t).status ≡ 400)
        × IsUnacceptable body)
      ⊎ ((k : CacheKey) × (v : V) × (ttl : TtlField) × (call : SetOptions) × (checked_body body
            ≡ ok (k, v, call))
          × IsAcceptable body k v ttl call)

  fields-HasVerdict :
      (key : Option Text) (value : Option V) (ttl : TtlField)
      → HasVerdict (some (record { key = key; value = value; ttl_ms = ttl }))
  unfolding checked_body checked_ttl to_error_response http_status
  fields-HasVerdict none value ttl = inl (_, refl, refl, inl refl)
  fields-HasVerdict (some []) value ttl = inl (_, refl, refl, inr (inl refl))
  fields-HasVerdict (some (c ∷ cs)) none ttl = inl (_, refl, refl, inr (inr (inl refl)))
  fields-HasVerdict (some (c ∷ cs)) (some v) absent =
      inr (_, v, absent, _, refl, (refl, (λ e. cc), inl (refl, refl)))
  fields-HasVerdict (some (c ∷ cs)) (some v) not_a_number =
      inl (_, refl, refl, inr (inr (inr (inl refl))))
  fields-HasVerdict (some (c ∷ cs)) (some v) negative_number =
      inl (_, refl, refl, inr (inr (inr (inr (inl refl)))))
  fields-HasVerdict (some (c ∷ cs)) (some v) (number zero) =
      inl (_, refl, refl, inr (inr (inr (inr (inr refl)))))
  fields-HasVerdict (some (c ∷ cs)) (some v) (number (suc n)) =
      let positive : (suc n == 0) ≡ false = ground arith in
      inr (
        c ∷ cs,
        v,
        number (suc n),
        record { ttl_ms = some (some (suc n)) },
        simp (positive, checked_body, checked_ttl) refl,
        (refl, (λ e. cc), inr (suc n, refl, omega arith, refl)),
      )

  pub checked_body-HasVerdict : (body : Option (PutRequestBody V)) → HasVerdict body
  unfolding checked_body to_error_response http_status
  checked_body-HasVerdict none = inl (_, refl, refl, tt)
  checked_body-HasVerdict (some body) = fields-HasVerdict body.key body.value body.ttl_ms
