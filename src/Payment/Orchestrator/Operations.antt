-- ===== src/Payment/Orchestrator/Operations.antt =====
-- crates/payment-service/src/orchestrator.rs: the operations, each a chain of transactions and
-- calls. What other requests commit during a call is part of the exchange.
use payment_gateway_in_rust.Prelude.{String, Bool, Option, none, some, [], ◌∷◌, suc, if◌then◌else◌}
use payment_gateway_in_rust.Prelude.Int.{ℤ}
use payment_gateway_in_rust.Common.{
  Uuid, Text, lit, str, id, Json, text_json, obj, end, field, Payment, Refund, RefundStatus,
  is_automatic, captured, CreatePaymentRequest, CreateRefundRequest, AppError, display_error,
  AppResult, ok, err, fraud_blocked, acquirer_declined, acquirer_unavailable, internal,
}
use payment_gateway_in_rust.Payment.World.{World, Env, Call, charge, capture, refund, Done, run_tx}
use payment_gateway_in_rust.Payment.Statements.{find_payment_by_id, update_refund_status}
use payment_gateway_in_rust.Payment.StateMachine.{new, transition}
use payment_gateway_in_rust.Payment.External.{
  Exchange, run_fraud_check, charge_via_acquirer, acquirer_capture, acquirer_refund, topic_webhooks,
  publish_refund,
}
use payment_gateway_in_rust.Payment.Orchestrator.{
  initial_payment, open_payment, fail_payment, finish_charge, finish_capture, reserve_refund,
  cancel,
}

-- An operation outside any transaction: what it did before an error stays done.
abbrev pub Action : Type 0 → Type 0
Action A = World → AppResult A × World

-- `?` between two steps of an operation.
unfoldable pub and_then :
    {A B : Type 0} → AppResult A × World → (A → Action B) → AppResult B × World
and_then (ok a, w) f = f a w
and_then (err e, w) f = (err e, w)

abbrev pub log_call : Call → World → World
log_call c w = record w { calls = c ∷ w.calls }

abbrev pub or_err : {A : Type 0} → Option A → AppError → AppResult A
or_err none e = err e
or_err (some a) e = ok a

-- A failure is recorded in a transaction of its own, and reported.
unfoldable pub fail_with : Uuid → Text → Text → Json → AppError → Action Payment
fail_with payment_id code message payload e w =
    and_then (run_tx (fail_payment payment_id code message payload) w) λ _ w'. (err e, w')

abbrev failed_because : Uuid → String → Json
failed_because payment_id reason =
    obj (field "payment_id" (id payment_id) (field "reason" (str reason) end))

abbrev declined_payload : Uuid → Text → Text → Json
declined_payload payment_id code message = obj (
    field "payment_id" (id payment_id) (
      field "reason" (str "acquirer_declined")
        (field "code" (text_json code) (field "message" (text_json message) end))))

-- The two arms of `match self.charge_via_acquirer(..)` that take an error.
unfoldable pub charge_failed : Uuid → AppError → Action Payment
unfolding fail_with
charge_failed payment_id (acquirer_declined code message) =
    fail_with payment_id code message (declined_payload payment_id code message)
      (acquirer_declined code message)
charge_failed payment_id e =
    fail_with payment_id (lit "processing_error" ∷ []) (display_error e)
      (failed_because payment_id "processing_error") e

-- From the charge on.
unfoldable pub charge_payment : Env → Exchange → Payment → Action Payment
unfolding charge_failed
charge_payment env x payment w =
    let w' = x.others (log_call (charge payment.id payment.amount automatic) w) in
    elim (charge_via_acquirer env.serde x.reply) [
      | ok (acquirer_id, reference) ↦
          run_tx
            (finish_charge env payment.id payment.merchant_id payment.capture_method payment.amount
              acquirer_id reference)
            w'
      | err e ↦ charge_failed payment.id e w'
    ]
  where
    automatic : Bool
    automatic = is_automatic payment.capture_method

-- `match self.run_fraud_check(..)`: only `FraudBlocked` stops the payment.
unfoldable pub after_fraud_check : Env → Exchange → Payment → AppResult Done → Action Payment
unfolding charge_payment fail_with
after_fraud_check env x payment (ok _) = charge_payment env x payment
after_fraud_check env x payment (err (fraud_blocked reason)) =
    fail_with payment.id (lit "fraud_blocked" ∷ []) reason
      (failed_because payment.id "fraud_blocked") (fraud_blocked reason)
after_fraud_check env x payment (err e) = charge_payment env x payment

unfoldable pub replay_payment : Uuid → Uuid → Action Payment
replay_payment payment_id merchant_id w = (
  or_err (find_payment_by_id payment_id merchant_id w) (internal (lit "Idempotency race" ∷ [])),
  w,
)

unfoldable pub create_payment :
    (env : Env) (fraud : Exchange) (acquirer : Exchange) (merchant_id : Uuid)
    (req : CreatePaymentRequest) (idempotency_key : Option String)
    → Action Payment
unfolding after_fraud_check replay_payment
create_payment env fraud acquirer merchant_id req idempotency_key w =
    and_then (run_tx (open_payment payment) (record w { next_id = suc w.next_id })) λ r w'.
      if r.1
      then after_fraud_check env acquirer payment (run_fraud_check env.serde fraud.reply)
          (fraud.others w')
      else replay_payment r.0 merchant_id w'
  where
    payment : Payment
    payment = initial_payment w.next_id w.now merchant_id req idempotency_key

unfoldable pub capture_payment :
    (env : Env) (acquirer : Exchange) (payment_id merchant_id : Uuid) (capture_amount : Option ℤ)
    → Action Payment
capture_payment env acquirer payment_id merchant_id capture_amount w =
    and_then (found, w)
      λ payment w1.
        and_then ((transition (new payment.status) captured).0, w1)
          λ _ w2.
            and_then
              (acquirer_capture acquirer.reply, acquirer.others (log_call (capture payment_id) w2))
              λ _ w3. run_tx (finish_capture env payment_id merchant_id capture_amount) w3
  where
    found : AppResult Payment
    found =
        or_err (find_payment_by_id payment_id merchant_id w)
          (internal (lit "Payment not found" ∷ []))

-- `match self.acquirer_refund(..)`: the status of the refund, then its event.
unfoldable pub settle_refund : Refund → AppResult String → Action Refund
settle_refund r (ok acquirer_refund_id) w =
    and_then
      (run_tx (update_refund_status r.id RefundStatus.succeeded (some acquirer_refund_id) none) w)
      λ _ w1.
        and_then (run_tx (publish_refund r "refund.succeeded" topic_webhooks) w1)
          λ _ w2. (ok (record r { status = RefundStatus.succeeded }), w2)
settle_refund r (err e) w =
    and_then
      (run_tx (update_refund_status r.id RefundStatus.failed none (some (display_error e))) w)
      λ _ w1. (err (acquirer_unavailable (lit "Refund failed: " ∷ display_error e)), w1)

unfoldable pub create_refund :
    (env : Env) (acquirer : Exchange) (payment_id merchant_id : Uuid) (req : CreateRefundRequest)
    → Action Refund
unfolding settle_refund
create_refund env acquirer payment_id merchant_id req w =
    and_then (run_tx (reserve_refund env payment_id merchant_id req) w) λ r w1.
      settle_refund r (acquirer_refund env.serde acquirer.reply)
        (acquirer.others (log_call (refund payment_id r.amount) w1))

unfoldable pub cancel_payment : (payment_id merchant_id : Uuid) → Action Payment
cancel_payment payment_id merchant_id = run_tx (cancel payment_id merchant_id)
