-- ===== src/Payment/Served.antt =====
-- What the handlers let through to the operations.
use payment_gateway_in_rust.Prelude.{
  ℕ, ◌≡◌, ◌≢◌, refl, sym, subst, inl, inr, String, Bool, true, false, ◌&&◌, not, Option, none, some,
  [], ◌∷◌, arith, Bool-cases, or_else, if◌then◌else◌,
}
use payment_gateway_in_rust.Prelude.Int.{ℤ}
use payment_gateway_in_rust.Common.{
  Uuid, Text, Payment, CreatePaymentRequest, CreateRefundRequest, validate_payment, validate_refund,
  is_automatic, authorized, same_status, AppError, validation, lit, AppResult, ok, err,
}
use payment_gateway_in_rust.Payment.World.{World, Env}
use payment_gateway_in_rust.Payment.Statements.{find_payment_by_id}
use payment_gateway_in_rust.Payment.External.{Exchange}
use payment_gateway_in_rust.Payment.Orchestrator.Operations
use payment_gateway_in_rust.Payment.Effects.{Result-cases}
use payment_gateway_in_rust.Payment.Steps.{Inv}
use payment_gateway_in_rust.Payment.Histories.{IsOrderly}
use payment_gateway_in_rust.Payment.Safety.{operations-Inv}
use payment_gateway_in_rust.Payment.Handlers.{
  answered, create_payment, capture_payment, create_refund, cancel_payment, check_capture,
  is_positive,
}

-- What a capture asks of the stored payment.
abbrev pub can_capture : Option Payment → Bool
can_capture none = false
can_capture (some p) = not (is_automatic p.capture_method) && same_status p.status authorized

check_capture-passes :
    (i : Uuid) (o : Option Payment)
    → can_capture o ≡ true
    → (p : Payment) × (check_capture i o ≡ ok p)
unfolding check_capture
check_capture-passes i none h = absurd (ground (arith, h))
check_capture-passes i (some p) h = (p, ground (arith, h))

not_passed :
    (i : Uuid) (o : Option Payment) (p : Payment) → can_capture o ≡ false → check_capture i o ≢ ok p
unfolding check_capture
not_passed i none p h e = ground (arith, e)
not_passed i (some q) p h e = ground (arith, h, e)

check_capture-stops :
    (i : Uuid) (o : Option Payment)
    → can_capture o ≡ false
    → (e : AppError) × (check_capture i o ≡ err e)
check_capture-stops i o h = elim (Result-cases (check_capture i o)) [
  | inr (e, stopped) ↦ (e, stopped)
  | inl (p, passed) ↦ absurd (not_passed i o p h passed)
]

both : (a b : Bool) → (a && b) ≡ true → (a ≡ true) × (b ≡ true)
both a b h = ground (arith, h)

second : (a b : Bool) → (a && b) ≡ false → a ≡ true → b ≡ false
second a b h e = ground (arith, h, e)

-- A capture request reaches the operation exactly when it names a positive amount or none and the
-- merchant's payment of that identifier is captured manually and `authorized`; the answer is then the
-- operation's, with status 200. Any other request is answered with an error and changes nothing.
pub capture_payment-guarded :
    (env : Env) (acquirer : Exchange) (m i : Uuid) (amount : Option ℤ) (w : World)
    → ((is_positive amount && can_capture (find_payment_by_id i m w)) ≡ true
        → capture_payment env acquirer m i amount w
          ≡ answered 200 (Operations.capture_payment env acquirer i m amount w))
      × ((is_positive amount && can_capture (find_payment_by_id i m w)) ≡ false
          → (e : AppError) × (capture_payment env acquirer m i amount w ≡ (err e, w)))
unfolding capture_payment
capture_payment-guarded env acquirer m i amount w = (
  λ h.
      let positive : is_positive amount ≡ true = (both _ _ h).0 in
      let passed = check_capture-passes i (find_payment_by_id i m w) (both _ _ h).1 in
      rw (positive, passed.1) refl,
  λ h. elim (Bool-cases (is_positive amount)) [
    | inr e ↦ (validation (lit "capture amount must be positive" ∷ []), rw e refl)
    | inl e ↦
        let stopped = check_capture-stops i (find_payment_by_id i m w) (second _ _ h e) in
        (stopped.0, rw (e, stopped.1) refl)
  ],
)

-- Each handler that changes something keeps the invariant that the operations keep, whatever the
-- request is: a state where identifiers and keys are unique, refunds are within what was captured
-- and the ledger is balanced is left as such a state.
pub handlers-Inv :
    (env : Env) (errors_text : Text) (fraud acquirer : Exchange) (w : World)
    → IsOrderly fraud
    → IsOrderly acquirer
    → Inv w
    → (i m : Uuid) (req : CreatePaymentRequest) (refund_req : CreateRefundRequest)
      (header : Option String) (amount : Option ℤ)
    → Inv (create_payment env errors_text fraud acquirer m header req w).1
      × Inv (capture_payment env acquirer m i amount w).1
      × Inv (create_refund env errors_text acquirer m i refund_req w).1
      × Inv (cancel_payment m i w).1
unfolding create_payment create_refund cancel_payment
handlers-Inv env errors_text fraud acquirer w f a h i m req refund_req header amount =
    let (created, captured, refunded, cancelled) =
      operations-Inv env fraud acquirer w f a h i m req refund_req
        (or_else header req.idempotency_key) amount in
    (
      checked _ _ _ (validate_payment req) created,
      elim (Bool-cases (is_positive amount && can_capture (find_payment_by_id i m w))) [
        | inl e ↦
            subst (λ r. Inv r.1) (sym ((capture_payment-guarded env acquirer m i amount w).0 e))
              (answered-Inv _ _ captured)
        | inr e ↦
            subst (λ r. Inv r.1) (sym ((capture_payment-guarded env acquirer m i amount w).1 e).1) h
      ],
      checked _ _ _ (validate_refund refund_req) refunded,
      answered-Inv _ _ cancelled,
    )
  where
    answered-Inv :
        {A : Type 0} (status : ℕ) (r : AppResult A × World) → Inv r.1 → Inv (answered status r).1
    answered-Inv status (ok x, v) k = k
    answered-Inv status (err x, v) k = k

    checked :
        {A : Type 0} (status : ℕ) (e : AppError) (r : AppResult A × World) (b : Bool)
        → Inv r.1
        → Inv (if b then answered status r else (err e, w)).1
    checked status e r true k = answered-Inv status r k
    checked status e r false k = h
