-- ===== src/Common/Errors.antt =====
-- crates/common/src/errors.rs: the error type, and the status and code that a response carries.
use payment_gateway_in_rust.Prelude.{ℕ, String, [], ◌∷◌, ◌++◌}
use payment_gateway_in_rust.Prelude.Int.{ℤ}
use payment_gateway_in_rust.Common.Values.{Text, lit, int, nat}

pub data AppError : Type 0 where
  unauthorized : AppError
  forbidden : Text → AppError
  validation : Text → AppError
  invalid_idempotency_key : Text → AppError
  not_found : Text → AppError
  idempotent_replay : AppError
  invalid_state_transition : Text → Text → AppError
  amount_exceeds_limit : ℤ → ℤ → AppError
  currency_mismatch : Text → Text → AppError
  unsupported_payment_method : Text → AppError
  merchant_not_active : AppError
  acquirer_declined : Text → Text → AppError
  acquirer_unavailable : Text → AppError
  all_acquirers_failed : AppError
  authentication_required : Text → AppError
  fraud_blocked : Text → AppError
  rate_limit_exceeded : ℕ → AppError
  database : Text → AppError
  cache : Text → AppError
  messaging : Text → AppError
  serialization : Text → AppError
  config : Text → AppError
  internal : Text → AppError

-- `AppError::status_code`, as the number of the HTTP status.
unfoldable pub status_code : AppError → ℕ
status_code unauthorized = 401
status_code (forbidden _) = 403
status_code (validation _) = 422
status_code (invalid_idempotency_key _) = 422
status_code (not_found _) = 404
status_code idempotent_replay = 200
status_code (rate_limit_exceeded _) = 429
status_code (acquirer_declined _ _) = 402
status_code (fraud_blocked _) = 403
status_code (invalid_state_transition _ _) = 400
status_code (amount_exceeds_limit _ _) = 400
status_code (currency_mismatch _ _) = 400
status_code (unsupported_payment_method _) = 400
status_code merchant_not_active = 400
status_code (acquirer_unavailable _) = 503
status_code all_acquirers_failed = 503
status_code (authentication_required _) = 402
status_code _ = 500

-- `AppError::error_code`.
unfoldable pub error_code : AppError → String
error_code unauthorized = "authentication_error"
error_code (forbidden _) = "authorization_error"
error_code (validation _) = "validation_error"
error_code (invalid_idempotency_key _) = "invalid_idempotency_key"
error_code (not_found _) = "not_found"
error_code idempotent_replay = "idempotent_replay"
error_code (invalid_state_transition _ _) = "invalid_state_transition"
error_code (amount_exceeds_limit _ _) = "amount_exceeds_limit"
error_code (currency_mismatch _ _) = "currency_mismatch"
error_code (unsupported_payment_method _) = "unsupported_payment_method"
error_code merchant_not_active = "merchant_not_active"
error_code (acquirer_declined _ _) = "card_declined"
error_code (acquirer_unavailable _) = "acquirer_unavailable"
error_code all_acquirers_failed = "processing_error"
error_code (authentication_required _) = "authentication_required"
error_code (fraud_blocked _) = "fraud_blocked"
error_code (rate_limit_exceeded _) = "rate_limit_exceeded"
error_code (database _) = "database_error"
error_code (cache _) = "cache_error"
error_code (messaging _) = "messaging_error"
error_code (serialization _) = "serialization_error"
error_code (config _) = "configuration_error"
error_code (internal _) = "internal_server_error"

-- The text of the `#[error(...)]` attributes, which `to_string` gives.
unfoldable pub display_error : AppError → Text
display_error unauthorized = lit "Missing or invalid API key" ∷ []
display_error (forbidden t) = lit "Insufficient permissions: " ∷ t
display_error (validation t) = lit "Validation error: " ∷ t
display_error (invalid_idempotency_key t) = lit "Invalid idempotency key: " ∷ t
display_error (not_found t) = lit "Resource not found: " ∷ t
display_error idempotent_replay = lit "Duplicate request — idempotent response returned" ∷ []
display_error (invalid_state_transition from to) =
    lit "Invalid payment state transition from " ∷ (from ++ (lit " to " ∷ to))
display_error (amount_exceeds_limit amount max) =
    lit "Payment amount " ∷ int amount ∷ lit " exceeds maximum allowed " ∷ int max ∷ []
display_error (currency_mismatch expected got) =
    lit "Currency mismatch: expected " ∷ (expected ++ (lit ", got " ∷ got))
display_error (unsupported_payment_method t) = lit "Payment method not supported: " ∷ t
display_error merchant_not_active = lit "Merchant is not active or KYC not approved" ∷ []
display_error (acquirer_declined code message) =
    lit "Acquirer declined the payment: " ∷ (code ++ (lit " — " ∷ message))
display_error (acquirer_unavailable t) = lit "Acquirer unavailable: " ∷ t
display_error all_acquirers_failed = lit "All acquirers failed for this payment" ∷ []
display_error (authentication_required _) = lit "3DS authentication required" ∷ []
display_error (fraud_blocked t) = lit "Payment blocked by fraud engine: " ∷ t
display_error (rate_limit_exceeded ms) =
    lit "Rate limit exceeded. Retry after " ∷ nat ms ∷ lit "ms" ∷ []
display_error (database t) = lit "Database error: " ∷ t
display_error (cache t) = lit "Cache error: " ∷ t
display_error (messaging t) = lit "Kafka error: " ∷ t
display_error (serialization t) = lit "Serialization error: " ∷ t
display_error (config t) = lit "Configuration error: " ∷ t
display_error (internal t) = lit "Internal server error: " ∷ t

-- `AppResult<T>`.
pub data AppResult {ℓ} (A : Type ℓ) : Type ℓ where
  ok : A → AppResult A
  err : AppError → AppResult A
