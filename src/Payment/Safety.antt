-- ===== src/Payment/Safety.antt =====
-- What no history of the payment service can break: tests/invariants.rs asks for some of it.
use payment_gateway_in_rust.Prelude.{◌≡◌, sym, subst, ap, String, Option, some, [], true, arith}
use payment_gateway_in_rust.Prelude.Int.{ℤ, pos, ◌≤ℤ◌}
use payment_gateway_in_rust.Common.{
  Uuid, Payment, due_amount, CreatePaymentRequest, CreateRefundRequest,
}
use payment_gateway_in_rust.Payment.World.{World, Env}
use payment_gateway_in_rust.Payment.Statements.{
  owned_by, find_payment_by_id, find_by_idempotency_key,
}
use payment_gateway_in_rust.Payment.Ledger.{balance, of_merchant}
use payment_gateway_in_rust.Payment.External.{Exchange}
use payment_gateway_in_rust.Payment.Orchestrator.Operations.{
  create_payment, capture_payment, create_refund, cancel_payment,
}
use payment_gateway_in_rust.Payment.Rows.{IsSolvent, All-find, is_open}
use payment_gateway_in_rust.Payment.Invariant.{RowsInv}
use payment_gateway_in_rust.Payment.Steps.{Reach, Inv, Reach-Inv}
use payment_gateway_in_rust.Payment.Histories.{
  IsOrderly, create_payment-Reach, capture_payment-Reach, create_refund-Reach, cancel_payment-Reach,
}
use payment_gateway_in_rust.Payment.Keys.{Among, found_by_key, find_by_id-of_key}

-- The tables of a new database.
pub record IsFresh (w : World) : Type 0 where
  pub no_payments : w.payments ≡ []
  pub no_entries : w.ledger_entries ≡ []

pub fresh-Inv : (w : World) → IsFresh w → Inv w
unfolding balance
fresh-Inv w h = record {
  rows =
      subst RowsInv (sym h.no_payments)
        (record { unique_ids = tt; unique_keys = tt; solvent = tt });
  balanced = λ m. ap (balance (of_merchant m)) h.no_entries;
}

-- From a new database, after any interleaving of transactions of payment requests, captures,
-- refunds, cancellations, failures, disputes and settlements, a payment that is found by its identifier and
-- merchant has a refunded total that is not negative and is at most the captured amount (the
-- amount, where nothing was captured), and that is zero while its status is one before the capture.
pub refunds_within_capture :
    (w w' : World)
    → IsFresh w
    → Reach w w'
    → (i m : Uuid) (q : Payment) → find_payment_by_id i m w' ≡ some q
    → (pos 0 ≤ℤ q.refunded_amount)
      × (q.refunded_amount ≤ℤ due_amount q)
      × (is_open q.status ≡ true → q.refunded_amount ≡ pos 0)
unfolding find_payment_by_id
refunds_within_capture w w' fresh r i m q e =
    let s =
      All-find IsSolvent (owned_by i m) w'.payments (Reach-Inv (fresh-Inv w fresh) r).rows.solvent
        e in
    (s.nonneg, s.within, s.untouched)

-- From a new database, after any interleaving of transactions, the credits of each merchant equal
-- the debits.
pub credits_equal_debits :
    (w w' : World)
    → IsFresh w
    → Reach w w'
    → (m : Uuid) → balance (of_merchant m) w'.ledger_entries ≡ pos 0
credits_equal_debits w w' fresh r = (Reach-Inv (fresh-Inv w fresh) r).balanced

-- From a new database, after any interleaving of transactions, any two stored payments of one
-- merchant with one idempotency key are the same payment, and the lookup under that key finds it.
pub key_names_one_payment :
    (w w' : World)
    → IsFresh w
    → Reach w w'
    → (m : Uuid) (k : String) (p q : Payment) → Among p w'.payments
    → Among q w'.payments
    → (p.merchant_id ≡ m) × (p.idempotency_key ≡ some k)
    → (q.merchant_id ≡ m) × (q.idempotency_key ≡ some k)
    → (p ≡ q) × (find_by_idempotency_key m k w' ≡ some p)
unfolding find_by_idempotency_key find_payment_by_id
key_names_one_payment w w' fresh r m k p q at_p at_q of_p of_q =
    let rows = (Reach-Inv (fresh-Inv w fresh) r).rows in
    let first = found_by_key m k w'.payments p rows.unique_keys at_p of_p in
    let second = found_by_key m k w'.payments q rows.unique_keys at_q of_q in
    let h = find_by_id-of_key m k w'.payments p rows.unique_ids first in
    (ground (arith, first, second), rw (first, find_by_idempotency_key) h.0)

-- Each of the four operations, run in a state where identifiers and keys are unique, refunds are
-- within what was captured and the ledger is balanced, leaves such a state, whatever the fraud
-- service and the acquirer reply and whatever transactions other requests commit during the calls.
pub operations-Inv :
    (env : Env) (fraud acquirer : Exchange) (w : World)
    → IsOrderly fraud
    → IsOrderly acquirer
    → Inv w
    → (i m : Uuid) (req : CreatePaymentRequest) (refund_req : CreateRefundRequest)
      (key : Option String) (amount : Option ℤ)
    → Inv (create_payment env fraud acquirer m req key w).1
      × Inv (capture_payment env acquirer i m amount w).1
      × Inv (create_refund env acquirer i m refund_req w).1
      × Inv (cancel_payment i m w).1
operations-Inv env fraud acquirer w f a h i m req refund_req key amount = (
  Reach-Inv h (create_payment-Reach env fraud acquirer m req key w f a),
  Reach-Inv h (capture_payment-Reach env acquirer i m amount w a),
  Reach-Inv h (create_refund-Reach env acquirer i m refund_req w a),
  Reach-Inv h (cancel_payment-Reach i m w),
)
