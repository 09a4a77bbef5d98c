-- ===== src/Payment/Orchestrator.antt =====
-- crates/payment-service/src/orchestrator.rs: the transactions of each operation.
pub mod Operations
use payment_gateway_in_rust.Prelude.{
  ◌+◌, suc, String, Bool, true, false, ◌&&◌, Option, none, some, List, [], ◌∷◌, get_or, or_else,
  if◌then◌else◌,
}
use payment_gateway_in_rust.Prelude.Int.{ℤ, pos, ltb_ℤ}
use payment_gateway_in_rust.Common.{
  Uuid, Timestamp, Text, lit, Json, str, id, obj, end, field, Payment, due_amount,
  refundable_amount, can_refund, is_refundable_status, Refund, PaymentStatus, created, pending,
  authorized, captured, failed, cancelled, debug_status, RefundStatus, CaptureMethod, automatic,
  is_automatic, CreatePaymentRequest, CreateRefundRequest, PaymentMethod, PaymentMethodInput,
  AppResult, ok, err, invalid_state_transition, amount_exceeds_limit,
}
use payment_gateway_in_rust.Payment.World.{
  World, Env, Tx, Done, pure, raise, gets, lift, new_uuid, ◌>>=◌, ◌>>◌,
}
use payment_gateway_in_rust.Payment.Statements.{
  insert_payment_idempotent, lock_payment_for_update, update_payment_after_charge,
  update_payment_status, increment_refunded_amount, insert_outbox_event, insert_refund,
  update_refund_status,
}
use payment_gateway_in_rust.Payment.Ledger.{record_capture, record_fee, record_refund}
use payment_gateway_in_rust.Payment.StateMachine.{new, transition, walk}
use payment_gateway_in_rust.Payment.External.{
  topic_payments, topic_webhooks, publish_payment, publish_refund,
}

unfoldable pub map_payment_method_input : PaymentMethodInput → PaymentMethod
map_payment_method_input (PaymentMethodInput.card token last4 brand exp_month exp_year name) =
    PaymentMethod.card (record {
      token = token;
      last4 = last4;
      brand = brand;
      exp_month = exp_month;
      exp_year = exp_year;
      name = name;
      country = none;
    })
map_payment_method_input (PaymentMethodInput.upi vpa) =
    PaymentMethod.upi (record { vpa = vpa; bank_name = none })
map_payment_method_input (PaymentMethodInput.net_banking bank_code) =
    PaymentMethod.net_banking (record { bank_code = bank_code; bank_name = bank_code })

-- The payment that `create_payment` starts from.
unfoldable pub initial_payment :
    Uuid → Timestamp → Uuid → CreatePaymentRequest → Option String → Payment
unfolding map_payment_method_input
initial_payment payment_id now merchant_id req idempotency_key = record {
  id = payment_id;
  merchant_id = merchant_id;
  order_id = req.order_id;
  amount = req.amount;
  currency = req.currency;
  status = created;
  payment_method = some (map_payment_method_input req.payment_method);
  description = req.description;
  metadata = get_or req.metadata (obj end);
  acquirer_id = none;
  acquirer_reference = none;
  failure_code = none;
  failure_message = none;
  capture_method = get_or req.capture_method automatic;
  captured_amount = none;
  refunded_amount = pos 0;
  idempotency_key = or_else idempotency_key req.idempotency_key;
  created_at = now;
  updated_at = now;
  captured_at = none;
  settled_at = none;
  expires_at = some (now + 86400);
}

-- The first transaction of `create_payment`: the row, and its event if the row is new.
unfoldable pub open_payment : Payment → Tx (Uuid × Bool)
open_payment payment = do
  r ← insert_payment_idempotent payment
  if r.1 then publish_payment payment "payment.created" topic_payments >> pure r else pure r

-- The transaction that records a failure.
unfoldable pub fail_payment : Uuid → Text → Text → Json → Tx Done
fail_payment payment_id code message payload = do
  update_payment_status payment_id failed (some code) (some message)
  insert_outbox_event "payment" payment_id "payment.failed" payload topic_payments

-- The capture entries, and the fee where there is one.
unfoldable pub record_charge : Env → Payment → ℤ → Tx Done
record_charge env p base = do
  record_capture env p
  let fee = env.fee_of base
  if ltb_ℤ (pos 0) fee then record_fee env p fee else pure tt

abbrev pub charge_path : CaptureMethod → List PaymentStatus
charge_path method =
    if is_automatic method then pending ∷ authorized ∷ captured ∷ [] else pending ∷ authorized ∷ []

-- The row as `create_payment` writes it after a charge.
unfoldable pub charged : Payment → CaptureMethod → ℤ → String → String → Timestamp → Payment
charged locked method amount acquirer_id acquirer_reference now = record locked {
  status = if is_automatic method then captured else authorized;
  captured_at = if is_automatic method then some now else locked.captured_at;
  captured_amount = if is_automatic method then some amount else locked.captured_amount;
  acquirer_id = some acquirer_id;
  acquirer_reference = some acquirer_reference;
  updated_at = now;
}

abbrev pub charge_event : CaptureMethod → String
charge_event method = if is_automatic method then "payment.captured" else "payment.authorized"

-- The entries and the events of a charge.
unfoldable pub book_charge : Env → CaptureMethod → Payment → Tx Payment
book_charge env method p = do
  if is_automatic method then record_charge env p p.amount else pure tt
  publish_payment p (charge_event method) topic_payments
  publish_payment p (charge_event method) topic_webhooks
  pure p

-- The transaction of `create_payment` after a charge that the acquirer accepted.
unfoldable pub finish_charge :
    (env : Env) (payment_id merchant_id : Uuid) (method : CaptureMethod) (amount : ℤ)
    (acquirer_id acquirer_reference : String)
    → Tx Payment
finish_charge env payment_id merchant_id method amount acquirer_id acquirer_reference = do
  locked ← lock_payment_for_update payment_id merchant_id
  _ ← lift (walk (new locked.status) (charge_path method))
  now ← gets (λ w. w.now)
  let p = charged locked method amount acquirer_id acquirer_reference now
  update_payment_after_charge p
  book_charge env method p

-- The entries and the events of a capture.
unfoldable pub book_capture : Env → Payment → Tx Payment
book_capture env p = do
  record_charge env p (due_amount p)
  publish_payment p "payment.captured" topic_payments
  publish_payment p "payment.captured" topic_webhooks
  pure p

-- The transaction of `capture_payment` after the acquirer has captured.
unfoldable pub finish_capture : Env → Uuid → Uuid → Option ℤ → Tx Payment
finish_capture env payment_id merchant_id capture_amount = do
  payment ← lock_payment_for_update payment_id merchant_id
  status ← lift (transition (new payment.status) captured).0
  now ← gets (λ w. w.now)
  let p = record payment {
    status = status;
    captured_at = some now;
    captured_amount = some (get_or capture_amount payment.amount);
    updated_at = now;
  }
  update_payment_after_charge p
  book_capture env p

-- The entries and the event of a refund.
unfoldable pub book_refund : Env → Refund → Tx Refund
book_refund env r = do record_refund env r; publish_refund r "refund.pending" topic_payments; pure r

-- The row, the raised total, then the books.
unfoldable pub enter_refund : Env → Refund → Tx Refund
enter_refund env r = do
  insert_refund r
  increment_refunded_amount r.payment_id r.amount
  book_refund env r

-- The refund that a request asks for.
unfoldable pub requested_refund :
    (refund_id : Uuid) (now : Timestamp) (payment_id merchant_id : Uuid) (payment : Payment)
    (req : CreateRefundRequest)
    → Refund
requested_refund refund_id now payment_id merchant_id payment req = record {
  id = refund_id;
  payment_id = payment_id;
  merchant_id = merchant_id;
  amount = get_or req.amount (refundable_amount payment);
  currency = payment.currency;
  status = RefundStatus.pending;
  reason = req.reason;
  acquirer_refund_id = none;
  failure_reason = none;
  idempotency_key = req.idempotency_key;
  created_at = now;
  updated_at = now;
}

-- The guards of `create_refund` on the locked payment.
unfoldable pub refund_guard : Payment → ℤ → AppResult Done
refund_guard payment amount =
    if is_refundable_status payment.status
    then (if can_refund payment amount
        then ok tt
        else err (amount_exceeds_limit amount (refundable_amount payment)))
    else err (invalid_state_transition (lit (debug_status payment.status) ∷ []) (lit "Refund" ∷ []))

-- The first transaction of `create_refund`.
unfoldable pub reserve_refund : Env → Uuid → Uuid → CreateRefundRequest → Tx Refund
reserve_refund env payment_id merchant_id req = do
  refund_id ← new_uuid
  now ← gets (λ w. w.now)
  payment ← lock_payment_for_update payment_id merchant_id
  let r = requested_refund refund_id now payment_id merchant_id payment req
  _ ← lift (refund_guard payment r.amount)
  enter_refund env r

-- The transaction of `cancel_payment`.
unfoldable pub cancel : Uuid → Uuid → Tx Payment
cancel payment_id merchant_id = do
  payment ← lock_payment_for_update payment_id merchant_id
  status ← lift (transition (new payment.status) cancelled).0
  now ← gets (λ w. w.now)
  let p = record payment { status = status; updated_at = now }
  update_payment_status p.id cancelled none none
  publish_payment p "payment.cancelled" topic_payments
  pure p
