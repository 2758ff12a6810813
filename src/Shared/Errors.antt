-- ===== src/Shared/Errors.antt =====
-- packages/shared/src/errors.ts: the error hierarchy, its HTTP statuses and codes, and the
-- response that any thrown value is turned into. A class is a constructor with what it is built from.
use Prim.Native.String.{String}
use Prim.Native.Char.{code}
use distributive_cache.Base.{ℕ, [], ◌∷◌, ◌++◌, Text, ◌≡◌, refl, ◌⊎◌, inl, inr}

-- The code units of an ASCII literal.
abbrev pub codes : String → Text
codes String.[] = []
codes (String.◌∷◌ c s) = code c ∷ codes s

pub data FlowCacheError : Type 0 where
  key_not_found configuration validation node_unavailable : Text → FlowCacheError
  no_healthy_nodes : FlowCacheError
  replication snapshot recovery capacity_exceeded : Text → FlowCacheError

unfoldable pub http_status : FlowCacheError → ℕ
http_status (key_not_found _) = 404
http_status (configuration _) = 500
http_status (validation _) = 400
http_status (node_unavailable _) = 503
http_status no_healthy_nodes = 503
http_status (replication _) = 500
http_status (snapshot _) = 500
http_status (recovery _) = 500
http_status (capacity_exceeded _) = 507

unfoldable pub error_code : FlowCacheError → Text
error_code (key_not_found _) = codes "KEY_NOT_FOUND"
error_code (configuration _) = codes "CONFIGURATION_ERROR"
error_code (validation _) = codes "VALIDATION_ERROR"
error_code (node_unavailable _) = codes "NODE_UNAVAILABLE"
error_code no_healthy_nodes = codes "NO_HEALTHY_NODES"
error_code (replication _) = codes "REPLICATION_ERROR"
error_code (snapshot _) = codes "SNAPSHOT_ERROR"
error_code (recovery _) = codes "RECOVERY_ERROR"
error_code (capacity_exceeded _) = codes "CAPACITY_EXCEEDED"

unfoldable pub message : FlowCacheError → Text
message (key_not_found key) = codes "Key not found: \"" ++ (key ++ codes "\"")
message (configuration m) = m
message (validation m) = m
message (node_unavailable node) = codes "Cache node unavailable: \"" ++ (node ++ codes "\"")
message no_healthy_nodes = codes "No healthy cache nodes are available in the ring"
message (replication m) = m
message (snapshot m) = m
message (recovery m) = m
message (capacity_exceeded m) = m

-- What a `catch` may receive: one of the errors above, or any other value with its text.
pub data Thrown : Type 0 where
  flow : FlowCacheError → Thrown
  other : Text → Thrown

pub record ErrorResponse : Type 0 where
  pub status : ℕ
  pub body_code : Text
  pub body_message : Text

unfoldable pub to_error_response : Thrown → ErrorResponse
unfolding http_status error_code message
to_error_response (flow e) = record {
  status = http_status e;
  body_code = error_code e;
  body_message = message e;
}
to_error_response (other m) = record {
  status = 500;
  body_code = codes "INTERNAL_ERROR";
  body_message = m;
}

-- A computation that may throw.
pub data Result {ℓ} (A : Type ℓ) : Type ℓ where
  ok : A → Result A
  err : Thrown → Result A

pub Result-cases {ℓ} :
    {A : Type ℓ} (r : Result A) → ((e : Thrown) × (r ≡ err e)) ⊎ ((a : A) × (r ≡ ok a))
Result-cases (err e) = inl (e, refl)
Result-cases (ok a) = inr (a, refl)
