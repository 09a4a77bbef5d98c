-- ===== src/Payment/External.antt =====
-- crates/payment-service/src/orchestrator.rs: what is sent to and read from the fraud service and
-- the acquirer router, and the payloads of the events. A reply of an HTTP call is an argument.
use payment_gateway_in_rust.Prelude.{
  ℕ, String, Bool, ◌&&◌, Option, none, some, [], ◌∷◌, get_or, ltb, leb, if◌then◌else◌,
}
use payment_gateway_in_rust.Common.{
  Uuid, Timestamp, Text, lit, Json, null, num, str, id, time, obj, end, field, Payment, Refund,
  currency_text, status_text, refund_status_text, AppResult, ok, err, fraud_blocked,
  acquirer_declined, acquirer_unavailable, internal,
}
use payment_gateway_in_rust.Payment.World.{World, Serde, Tx, Done, gets, new_uuid, ◌>>=◌}
use payment_gateway_in_rust.Payment.Statements.{insert_outbox_event}

-- A body that parses as JSON, or the text of the parse error.
pub data Body : Type 0 where
  json : Json → Body
  malformed : Text → Body

-- The outcome of `send().await`.
pub data HttpReply : Type 0 where
  unreachable : Text → HttpReply
  response : (status : ℕ) (body : Body) → HttpReply

-- One HTTP call: its reply, and what other requests commit until it arrives.
pub record Exchange : Type 0 where
  pub reply : HttpReply
  pub others : World → World

-- A call during which no other request commits.
abbrev pub quiet : HttpReply → Exchange
quiet reply = record { reply = reply; others = λ w. w }

abbrev pub is_success : ℕ → Bool
is_success status = leb 200 status && ltb status 300

-- `resp.json().await.unwrap_or_default()`.
abbrev pub json_or_default : Body → Json
json_or_default (json v) = v
json_or_default (malformed e) = null

module _ (serde : Serde) where
  -- `v[key].as_str().unwrap_or(default)`.
  abbrev pub str_field : Json → String → String → String
  str_field v key default = get_or (serde.as_str (serde.index v key)) default

  abbrev pub bool_field : Json → String → Bool → Bool
  bool_field v key default = get_or (serde.as_bool (serde.index v key)) default

  abbrev fraud_verdict : Json → AppResult Done
  fraud_verdict body =
      if bool_field body "blocked" Bool.false
      then err (fraud_blocked (lit (str_field body "reason" "unknown") ∷ []))
      else ok tt

  unfoldable pub run_fraud_check : HttpReply → AppResult Done
  run_fraud_check (unreachable e) = err (internal (lit "Fraud service unreachable: " ∷ e))
  run_fraud_check (response status body) =
      if is_success status then fraud_verdict (json_or_default body) else ok tt

  abbrev declined_by : Json → AppResult (String × String)
  declined_by body = err (
      acquirer_declined (lit (str_field body "code" "declined") ∷ [])
        (lit (str_field body "message" "Payment declined") ∷ []))

  abbrev charged_by : Body → AppResult (String × String)
  charged_by (json body) =
      ok (str_field body "acquirer_id" "unknown", str_field body "reference" "")
  charged_by (malformed e) = err (internal e)

  unfoldable pub charge_via_acquirer : HttpReply → AppResult (String × String)
  charge_via_acquirer (unreachable e) = err (acquirer_unavailable e)
  charge_via_acquirer (response status body) =
      if is_success status then charged_by body else declined_by (json_or_default body)

  abbrev refunded_by : Body → AppResult String
  refunded_by (json body) = ok (str_field body "refund_id" "")
  refunded_by (malformed e) = err (internal e)

  unfoldable pub acquirer_refund : HttpReply → AppResult String
  acquirer_refund (unreachable e) = err (acquirer_unavailable e)
  acquirer_refund (response status body) =
      if is_success status
      then refunded_by body
      else err (acquirer_unavailable (lit "Refund call failed" ∷ []))

unfoldable pub acquirer_capture : HttpReply → AppResult Done
acquirer_capture (unreachable e) = err (acquirer_unavailable e)
acquirer_capture (response status body) =
    if is_success status then ok tt else err (acquirer_unavailable (lit "Capture call failed" ∷ []))

abbrev opt : {A : Type 0} → (A → Json) → Option A → Json
opt f none = null
opt f (some a) = f a

unfoldable pub build_payment_event_payload : Uuid → Timestamp → Payment → Json
build_payment_event_payload event_id now p = obj (
    field "event_id" (id event_id) (
      field "payment_id" (id p.id) (
        field "merchant_id" (id p.merchant_id) (
          field "order_id" (opt id p.order_id) (
            field "amount" (num p.amount) (
              field "captured_amount" (opt num p.captured_amount) (
                field "currency" (str (currency_text p.currency)) (
                  field "status" (str (status_text p.status)) (
                    field "acquirer_id" (opt str p.acquirer_id) (
                      field "acquirer_reference" (opt str p.acquirer_reference)
                        (field "timestamp" (time now) end)))))))))))

unfoldable pub build_refund_event_payload : Uuid → Timestamp → Refund → Json
build_refund_event_payload event_id now r = obj (
    field "event_id" (id event_id) (
      field "refund_id" (id r.id) (
        field "payment_id" (id r.payment_id) (
          field "merchant_id" (id r.merchant_id) (
            field "amount" (num r.amount) (
              field "currency" (str (currency_text r.currency)) (
                field "status" (str (refund_status_text r.status))
                  (field "reason" (opt str r.reason) (field "timestamp" (time now) end)))))))))

abbrev pub topic_payments : String
topic_payments = "rustpay.payments"

abbrev pub topic_webhooks : String
topic_webhooks = "rustpay.webhooks"

-- `insert_outbox_event` with a payload built for it.
unfoldable pub publish_payment : Payment → String → String → Tx Done
unfolding build_payment_event_payload insert_outbox_event
publish_payment p event_type topic = do
  event_id ← new_uuid
  now ← gets (λ w. w.now)
  insert_outbox_event "payment" p.id event_type (build_payment_event_payload event_id now p) topic

unfoldable pub publish_refund : Refund → String → String → Tx Done
unfolding build_refund_event_payload insert_outbox_event
publish_refund r event_type topic = do
  event_id ← new_uuid
  now ← gets (λ w. w.now)
  insert_outbox_event "refund" r.id event_type (build_refund_event_payload event_id now r) topic
