-- ===== src/Payment/Dispute.antt =====
-- crates/payment-service/src/dispute.rs. An `anyhow` error is an internal one here.
use payment_gateway_in_rust.Prelude.{
  String, ◌≡◌, Option, none, some, [], ◌∷◌, ◌+◌, find, update_where,
}
use payment_gateway_in_rust.Prelude.Int.{ℤ, pos, ltb_ℤ}
use payment_gateway_in_rust.Common.{
  Uuid, Timestamp, AppResult, ok, err, lit, Json, null, num, str, id, time, obj, end, field,
  Payment, Dispute, disputed, currency_text, internal, DisputeStatus,
}
use payment_gateway_in_rust.Payment.World.{
  World, Tx, pure, gets, lift, modify, constraint, new_uuid, ◌>>=◌, ◌>>◌,
}
use payment_gateway_in_rust.Payment.Statements.{owned_by, has_id, insert_outbox_event}

abbrev pub payment_or : Option Payment → AppResult Payment
payment_or (some p) = ok p
payment_or none = err (internal (lit "Payment not found" ∷ []))

abbrev pub set_disputed : Timestamp → Payment → Payment
set_disputed now p = record p { status = disputed; updated_at = now }

abbrev opt_time : Option Timestamp → Json
opt_time none = null
opt_time (some t) = time t

abbrev opt_str : Option String → Json
opt_str none = null
opt_str (some s) = str s

-- `serde_json::to_value(&dispute)` of a dispute that was just made.
abbrev pub dispute_json : Dispute → Json
dispute_json d = obj (
    field "id" (id d.id) (
      field "payment_id" (id d.payment_id) (
        field "merchant_id" (id d.merchant_id) (
          field "amount" (num d.amount) (
            field "currency" (str (currency_text d.currency)) (
              field "status" (str "needs_response") (
                field "reason_code" (str d.reason_code) (
                  field "reason_description" (opt_str d.reason_description) (
                    field "evidence" null (
                      field "evidence_due_by" (opt_time d.evidence_due_by) (
                        field "evidence_submitted_at" (opt_time d.evidence_submitted_at) (
                          field "resolution" (opt_str d.resolution) (
                            field "acquirer_dispute_id" (opt_str d.acquirer_dispute_id) (
                              field "created_at" (time d.created_at)
                                (field "updated_at" (time d.updated_at) end)))))))))))))))

unfoldable pub create_dispute :
    (payment_id merchant_id : Uuid) (amount : ℤ) (reason_code acquirer_dispute_id : String)
    → Tx Dispute
create_dispute payment_id merchant_id amount reason_code acquirer_dispute_id = do
  dispute_id ← new_uuid
  now ← gets (λ w. w.now)
  row ← gets (λ w. find (owned_by payment_id merchant_id) w.payments)
  payment ← lift (payment_or row)
  let dispute : Dispute = record {
    id = dispute_id;
    payment_id = payment_id;
    merchant_id = merchant_id;
    amount = amount;
    currency = payment.currency;
    status = DisputeStatus.needs_response;
    reason_code = reason_code;
    reason_description = none;
    evidence = none;
    evidence_due_by = some (now + 604800);
    evidence_submitted_at = none;
    resolution = none;
    acquirer_dispute_id = some acquirer_dispute_id;
    created_at = now;
    updated_at = now;
  }
  constraint (ltb_ℤ (pos 0) amount) "disputes_amount_check"
  modify (λ w. record w { disputes = dispute ∷ w.disputes })
  modify
      λ w. record w { payments = update_where (has_id payment_id) (set_disputed w.now) w.payments }
  _ ← new_uuid
  insert_outbox_event "dispute" dispute.id "dispute.created" (dispute_json dispute)
      "rustpay.payments"
  pure dispute

-- What a dispute does to the tables: the payment is `disputed` from whatever status it had.
abbrev pub DisputesRow : (i m : Uuid) → World → World → Type 0
DisputesRow i m w w' =
    (q : Payment) × (find (owned_by i m) w.payments ≡ some q)
    × (w'.payments ≡ update_where (has_id i) (set_disputed w.now) w.payments)
    × (w'.ledger_entries ≡ w.ledger_entries)
