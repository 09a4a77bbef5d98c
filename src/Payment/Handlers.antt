-- ===== src/Payment/Handlers.antt =====
-- crates/payment-service/src/handlers.rs: the checks before each operation, and the status and value
-- of the answer, which goes into the envelope of Common/Response.
use payment_gateway_in_rust.Prelude.{
  ℕ, String, Bool, true, not, Option, none, some, List, [], ◌∷◌, or_else, if◌then◌else◌,
}
use payment_gateway_in_rust.Prelude.Int.{ℤ, pos, leb_ℤ}
use payment_gateway_in_rust.Common.{
  Uuid, Text, lit, uuid, Payment, Refund, CreatePaymentRequest, CreateRefundRequest,
  validate_payment, validate_refund, is_automatic, authorized, same_status, debug_status, AppError,
  validation, not_found, invalid_state_transition, AppResult, ok, err,
}
use payment_gateway_in_rust.Payment.World.{World, Env}
use payment_gateway_in_rust.Payment.Statements.{find_payment_by_id}
use payment_gateway_in_rust.Payment.External.{Exchange}
use payment_gateway_in_rust.Payment.Orchestrator.Operations
use payment_gateway_in_rust.Payment.Listings.{
  PaginationParams, PaginatedPayments, list_payments as listed, find_refunds_for_payment,
}

-- The status of a successful answer, and the value in its envelope.
abbrev pub Answer : Type 0 → Type 0
Answer A = AppResult (ℕ × A)

-- `?`, and the answer with a status.
abbrev pub answered : {A : Type 0} → ℕ → AppResult A × World → Answer A × World
answered status (ok a, w) = (ok (status, a), w)
answered status (err e, w) = (err e, w)

-- `errors_text` is what the validator prints of the failed checks; the header is `x-idempotency-key`.
unfoldable pub create_payment :
    (env : Env) (errors_text : Text) (fraud acquirer : Exchange) (merchant_id : Uuid)
    (header : Option String) (req : CreatePaymentRequest)
    → World
    → Answer Payment × World
create_payment env errors_text fraud acquirer merchant_id header req w =
    if validate_payment req
    then answered 201 (
        Operations.create_payment env fraud acquirer merchant_id req
          (or_else header req.idempotency_key) w)
    else (err (validation errors_text), w)

abbrev payment_not_found : Uuid → AppError
payment_not_found payment_id = not_found (lit "Payment " ∷ uuid payment_id ∷ lit " not found" ∷ [])

unfoldable pub get_payment : (merchant_id payment_id : Uuid) → World → Answer Payment
get_payment merchant_id payment_id w = elim (find_payment_by_id payment_id merchant_id w) [
  | some p ↦ ok (200, p)
  | none ↦ err (payment_not_found payment_id)
]

unfoldable pub list_payments :
    (ties : Payment → Payment → Bool)
    → (merchant_id : Uuid) → PaginationParams
    → World
    → Answer PaginatedPayments
list_payments ties merchant_id pagination w = ok (200, listed ties merchant_id pagination w)

-- `CaptureRequest`: an amount, if it is given.
abbrev pub is_positive : Option ℤ → Bool
is_positive none = true
is_positive (some amount) = not (leb_ℤ amount (pos 0))

-- The checks on the stored payment.
unfoldable pub check_capture : (payment_id : Uuid) → Option Payment → AppResult Payment
check_capture payment_id none = err (payment_not_found payment_id)
check_capture payment_id (some p) =
    if is_automatic p.capture_method
    then err (
        validation (lit "This payment uses automatic capture and cannot be captured manually" ∷ []))
    else if same_status p.status authorized
    then ok p
    else err (invalid_state_transition (lit (debug_status p.status) ∷ []) (lit "Captured" ∷ []))

unfoldable pub capture_payment :
    (env : Env) (acquirer : Exchange) (merchant_id payment_id : Uuid) (amount : Option ℤ)
    → World
    → Answer Payment × World
unfolding check_capture
capture_payment env acquirer merchant_id payment_id amount w =
    if is_positive amount
    then elim (check_capture payment_id (find_payment_by_id payment_id merchant_id w)) [
      | err e ↦ (err e, w)
      | ok p ↦
          answered 200 (Operations.capture_payment env acquirer payment_id merchant_id amount w)
    ]
    else (err (validation (lit "capture amount must be positive" ∷ [])), w)

unfoldable pub create_refund :
    (env : Env) (errors_text : Text) (acquirer : Exchange) (merchant_id payment_id : Uuid)
    (req : CreateRefundRequest)
    → World
    → Answer Refund × World
create_refund env errors_text acquirer merchant_id payment_id req w =
    if validate_refund req
    then answered 201 (Operations.create_refund env acquirer payment_id merchant_id req w)
    else (err (validation errors_text), w)

unfoldable pub list_refunds :
    (ties : Refund → Refund → Bool) → (merchant_id payment_id : Uuid) → World → Answer (List Refund)
list_refunds ties merchant_id payment_id w =
    ok (200, find_refunds_for_payment ties payment_id merchant_id w)

unfoldable pub cancel_payment : (merchant_id payment_id : Uuid) → World → Answer Payment × World
cancel_payment merchant_id payment_id w =
    answered 200 (Operations.cancel_payment payment_id merchant_id w)
