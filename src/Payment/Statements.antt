-- ===== src/Payment/Statements.antt =====
-- crates/payment-service/src/db.rs: each statement on the tables, with the constraints that
-- migrations/ declares. An UPDATE rewrites the rows that its WHERE clause selects.
use payment_gateway_in_rust.Prelude.{
  suc, String, Bool, true, false, ◌&&◌, not, Option, none, some, [], ◌∷◌, ◌==◌, str_eq, is_some,
  find, update_where, if◌then◌else◌,
}
use payment_gateway_in_rust.Prelude.Int.{ℤ, pos, ◌+ℤ◌, ltb_ℤ, leb_ℤ}
use payment_gateway_in_rust.Common.{
  Uuid, Timestamp, Text, lit, uuid, Json, Payment, due_amount, Refund, PaymentStatus, RefundStatus,
  captured, settled, same_status, amount_exceeds_limit, not_found, database, ok, err,
}
use payment_gateway_in_rust.Payment.World.{
  World, Tx, Done, pure, raise, gets, modify, constraint, ◌>>=◌, ◌>>◌,
}

-- `idempotency_key = $2`, which no NULL satisfies.
abbrev pub key_eq : Option String → Option String → Bool
key_eq (some k) (some j) = str_eq k j
key_eq _ _ = false

abbrev pub has_key : Uuid → Option String → Payment → Bool
has_key merchant_id key p = (p.merchant_id == merchant_id) && key_eq p.idempotency_key key

abbrev pub has_id : Uuid → Payment → Bool
has_id id p = p.id == id

abbrev pub owned_by : Uuid → Uuid → Payment → Bool
owned_by payment_id merchant_id p = (p.id == payment_id) && (p.merchant_id == merchant_id)

-- The columns that the INSERT does not name start as NULL, and `refunded_amount` as 0.
abbrev pub as_inserted : Payment → Payment
as_inserted p = record p {
  acquirer_id = none;
  acquirer_reference = none;
  failure_code = none;
  failure_message = none;
  refunded_amount = pos 0;
  captured_at = none;
  settled_at = none;
}

unfoldable pub existing_id : Payment → Tx (Uuid × Bool)
existing_id p w = elim (find (has_key p.merchant_id p.idempotency_key) w.payments) [
  | some row ↦ ok ((row.id, false), w)
  | none ↦ err (database (lit "no rows returned" ∷ []))
]

unfoldable pub insert_row : Payment → Tx (Uuid × Bool)
insert_row p = do
  rows ← gets (λ w. w.payments)
  constraint (not (is_some (find (has_id p.id) rows))) "payments_pkey"
  merchants ← gets (λ w. w.merchants)
  constraint (is_some (find (λ m. m == p.merchant_id) merchants)) "payments_merchant_id_fkey"
  modify (λ w. record w { payments = as_inserted p ∷ w.payments })
  pure (p.id, true)

unfoldable pub insert_payment_idempotent : Payment → Tx (Uuid × Bool)
unfolding existing_id insert_row
insert_payment_idempotent p = do
  constraint (ltb_ℤ (pos 0) p.amount) "payments_amount_check"
  rows ← gets (λ w. w.payments)
  if is_some (find (has_key p.merchant_id p.idempotency_key) rows)
      then existing_id p
      else insert_row p

abbrev pub found_or : Uuid → Option Payment → Tx Payment
found_or payment_id (some p) = pure p
found_or payment_id none =
    raise (not_found (lit "Payment " ∷ uuid payment_id ∷ lit " not found" ∷ []))

unfoldable pub lock_payment_for_update : Uuid → Uuid → Tx Payment
lock_payment_for_update payment_id merchant_id = do
  row ← gets (λ w. find (owned_by payment_id merchant_id) w.payments)
  found_or payment_id row

abbrev update_payments : (Payment → Bool) → (World → Payment → Payment) → Tx Done
update_payments p f = modify (λ w. record w { payments = update_where p (f w) w.payments })

abbrev pub set_charge : Payment → Timestamp → Payment → Payment
set_charge q now p = record p {
  status = q.status;
  acquirer_id = q.acquirer_id;
  acquirer_reference = q.acquirer_reference;
  captured_at = q.captured_at;
  captured_amount = q.captured_amount;
  updated_at = now;
}

unfoldable pub update_payment_after_charge : Payment → Tx Done
update_payment_after_charge q = update_payments (has_id q.id) λ w. set_charge q w.now

abbrev pub set_status : PaymentStatus → Option Text → Option Text → Timestamp → Payment → Payment
set_status status failure_code failure_message now p = record p {
  status = status;
  failure_code = failure_code;
  failure_message = failure_message;
  updated_at = now;
}

unfoldable pub update_payment_status : Uuid → PaymentStatus → Option Text → Option Text → Tx Done
update_payment_status payment_id status failure_code failure_message =
    update_payments (has_id payment_id) λ w. set_status status failure_code failure_message w.now

-- The WHERE clause of `increment_refunded_amount`.
abbrev pub fits_refund : Uuid → ℤ → Payment → Bool
fits_refund payment_id amount p =
    (p.id == payment_id) && leb_ℤ (p.refunded_amount +ℤ amount) (due_amount p)

abbrev pub add_refunded : ℤ → Timestamp → Payment → Payment
add_refunded amount now p = record p {
  refunded_amount = p.refunded_amount +ℤ amount;
  updated_at = now;
}

unfoldable pub increment_refunded_amount : Uuid → ℤ → Tx Done
increment_refunded_amount payment_id amount = do
  row ← gets (λ w. find (fits_refund payment_id amount) w.payments)
  update_payments (fits_refund payment_id amount) λ w. add_refunded amount w.now
  if is_some row then pure tt else raise (amount_exceeds_limit amount (pos 0))

unfoldable pub mark_payment_settled : Uuid → Tx Done
mark_payment_settled payment_id =
    update_payments (λ p. (p.id == payment_id) && same_status p.status captured)
      λ w p. record p { status = settled; settled_at = some w.now; updated_at = w.now }

unfoldable pub insert_outbox_event : String → Uuid → String → Json → String → Tx Done
insert_outbox_event aggregate_type aggregate_id event_type payload topic = modify λ w. record w {
  outbox_events =
      record {
        id = w.next_id;
        aggregate_type = aggregate_type;
        aggregate_id = aggregate_id;
        event_type = event_type;
        payload = payload;
        topic = topic;
        published = false;
        failed_attempts = 0;
        last_error = none;
        created_at = w.now;
        published_at = none;
      }
      ∷ w.outbox_events;
  next_id = suc w.next_id;
}

abbrev pub refund_has_key : Uuid → Option String → Refund → Bool
refund_has_key merchant_id key r = (r.merchant_id == merchant_id) && key_eq r.idempotency_key key

abbrev pub refund_as_inserted : Refund → Refund
refund_as_inserted r = record r { acquirer_refund_id = none; failure_reason = none }

-- A conflict on the idempotency key inserts nothing, and is no error.
unfoldable pub insert_refund : Refund → Tx Done
insert_refund r = do
  constraint (ltb_ℤ (pos 0) r.amount) "refunds_amount_check"
  rows ← gets (λ w. w.refunds)
  if is_some (find (refund_has_key r.merchant_id r.idempotency_key) rows)
      then pure tt
      else modify (λ w. record w { refunds = refund_as_inserted r ∷ w.refunds })

unfoldable pub update_refund_status : Uuid → RefundStatus → Option String → Option Text → Tx Done
update_refund_status refund_id status acquirer_refund_id failure_reason = modify λ w. record w {
  refunds =
      update_where (λ r. r.id == refund_id)
        (λ r. record r {
          status = status;
          acquirer_refund_id = acquirer_refund_id;
          failure_reason = failure_reason;
          updated_at = w.now;
        })
        w.refunds;
}

unfoldable pub find_payment_by_id : Uuid → Uuid → World → Option Payment
find_payment_by_id payment_id merchant_id w = find (owned_by payment_id merchant_id) w.payments

unfoldable pub find_by_idempotency_key : Uuid → String → World → Option Payment
unfolding find_payment_by_id
find_by_idempotency_key merchant_id key w =
    elim (find (has_key merchant_id (some key)) w.payments) [
      | some row ↦ find_payment_by_id row.id merchant_id w
      | none ↦ none
    ]
