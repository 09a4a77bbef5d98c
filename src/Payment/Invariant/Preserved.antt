-- ===== src/Payment/Invariant/Preserved.antt =====
-- Each transaction of the orchestrator keeps the payments table in order.
use payment_gateway_in_rust.Prelude.{
  ◌≡◌, refl, sym, subst, Bool, true, false, String, Option, none, some, List, arith, get_or,
  if◌then◌else◌,
}
use mathlib.Core.Path.{subst₂}
use payment_gateway_in_rust.Prelude.Int.{ℤ, pos, ◌<ℤ◌}
use payment_gateway_in_rust.Common.{
  Uuid, Text, Json, Payment, refundable_amount, failed, cancelled, CaptureMethod,
  CreateRefundRequest,
}
use payment_gateway_in_rust.Payment.World.{World, Env, pure, ◌>>=◌, ◌>>◌}
use payment_gateway_in_rust.Payment.Statements.{
  has_id, fits_refund, as_inserted, insert_payment_idempotent, update_payment_status,
  insert_outbox_event,
}
use payment_gateway_in_rust.Payment.Effects.{Returns, Returns-map, Returns-ok}
use payment_gateway_in_rust.Payment.Effects.Triples.{Returns-bind}
use payment_gateway_in_rust.Payment.External.{publish_payment, topic_payments}
use payment_gateway_in_rust.Payment.Orchestrator.{
  open_payment, fail_payment, finish_charge, finish_capture, reserve_refund, cancel, charged,
}
use payment_gateway_in_rust.Payment.Transactions.Opening.{
  Opened, fresh, replayed, insert_payment_idempotent-Opened,
}
use payment_gateway_in_rust.Payment.Transactions.Charging.{
  finish_charge-ChargesRow, finish_capture-CapturesRow, cancel-CancelsRow, with_capture,
}
use payment_gateway_in_rust.Payment.Transactions.Refunding.{reserve_refund-RefundsRow}
use payment_gateway_in_rust.Payment.Rows.{IsSolvent, found-has_id}
use payment_gateway_in_rust.Payment.Invariant.{
  RowsInv, update-RowsInv, update_all-RowsInv, same_charge, same_status_set, same_refunded,
  charged-IsSolvent, captured-IsSolvent, closed-IsSolvent, refunded-IsSolvent,
}

has_id_eq : (i j : Uuid) (p : Payment) → i ≡ j → has_id i p ≡ true → p.id ≡ j
has_id_eq i j p e h = ground arith

pub finish_charge-RowsInv :
    (env : Env) (i m : Uuid) (method : CaptureMethod) (amount : ℤ) (acquirer reference : String)
    (w : World)
    → RowsInv w.payments
    → Returns
        (λ _ w'. RowsInv w'.payments)
        (finish_charge env i m method amount acquirer reference w)
finish_charge-RowsInv env i m method amount acquirer reference w h =
    Returns-map _ (λ _ w'. RowsInv w'.payments) _
      (λ _ w' (q, e, was, positive, same). subst RowsInv (sym same) (
        update-RowsInv (has_id q.id) _
          (same_charge (charged q method amount acquirer reference w.now) w.now) i m q w.payments e
          (λ p. has_id_eq q.id i p (found-has_id i m w.payments e).0)
          (λ _. charged-IsSolvent q method amount acquirer reference w.now was positive) h))
      (finish_charge-ChargesRow env i m method amount acquirer reference w)

pub finish_capture-RowsInv :
    (env : Env) (i m : Uuid) (amount : Option ℤ) (w : World)
    → RowsInv w.payments
    → Returns (λ _ w'. RowsInv w'.payments) (finish_capture env i m amount w)
finish_capture-RowsInv env i m amount w h =
    Returns-map _ (λ _ w'. RowsInv w'.payments) _
      (λ _ w' (q, e, was, positive, same). subst RowsInv (sym same) (
        update-RowsInv (has_id q.id) _ (same_charge (with_capture q amount w.now) w.now) i m q
          w.payments e (λ p. has_id_eq q.id i p (found-has_id i m w.payments e).0)
          (λ _. captured-IsSolvent q amount w.now was positive) h))
      (finish_capture-CapturesRow env i m amount w)

pub cancel-RowsInv :
    (i m : Uuid) (w : World)
    → RowsInv w.payments
    → Returns (λ _ w'. RowsInv w'.payments) (cancel i m w)
cancel-RowsInv i m w h =
    Returns-map _ (λ _ w'. RowsInv w'.payments) _
      (λ _ w' (q, e, was, same). subst RowsInv (sym same) (
        update_all-RowsInv _ _ w.payments (same_status_set cancelled none none w.now)
          (λ p. closed-IsSolvent cancelled none none w.now p refl) h))
      (cancel-CancelsRow i m w)

pub reserve_refund-RowsInv :
    (env : Env) (i m : Uuid) (req : CreateRefundRequest) (w : World)
    → RowsInv w.payments
    → Returns (λ _ w'. RowsInv w'.payments) (reserve_refund env i m req w)
reserve_refund-RowsInv env i m req w h =
    Returns-map _ (λ _ w'. RowsInv w'.payments) _
      (λ _ w' (q, e, allowed, same).
        let amount = get_or req.amount (refundable_amount q) in
        subst RowsInv (sym same) (
          update-RowsInv (fits_refund i amount) _ (same_refunded amount w.now) i m q w.payments e
            (λ p fits. ground arith) (refunded-IsSolvent i amount w.now q allowed) h))
      (reserve_refund-RefundsRow env i m req w)

pub fail_payment-RowsInv :
    (i : Uuid) (code message : Text) (payload : Json) (w : World)
    → RowsInv w.payments
    → Returns (λ _ w'. RowsInv w'.payments) (fail_payment i code message payload w)
unfolding fail_payment update_payment_status insert_outbox_event ◌>>=◌
fail_payment-RowsInv i code message payload w h =
    update_all-RowsInv _ _ w.payments (same_status_set failed (some code) (some message) w.now)
      (λ p. closed-IsSolvent failed (some code) (some message) w.now p refl) h

inserted-IsSolvent :
    (p : Payment) → pos 0 <ℤ p.amount → p.captured_amount ≡ none → IsSolvent (as_inserted p)
inserted-IsSolvent p positive uncaptured = record {
  nonneg = omega arith;
  within = ground arith;
  untouched = λ _. refl;
}

Opened-RowsInv :
    (p : Payment) (before after : List Payment) (r : Uuid × Bool)
    → p.captured_amount ≡ none
    → Opened p before r after
    → RowsInv before
    → RowsInv after
Opened-RowsInv p before _ _ uncaptured (fresh positive new_id new_key) h = record {
  unique_ids = (new_id, h.unique_ids);
  unique_keys = (new_key, h.unique_keys);
  solvent = (inserted-IsSolvent p positive uncaptured, h.solvent);
}
Opened-RowsInv p before _ _ uncaptured (replayed row e) h = h

announce_created-same :
    (p : Payment) (r : Uuid × Bool) (v : World)
    → Returns
        (λ r' w'. (r' ≡ r) × (w'.payments ≡ v.payments))
        ((if r.1 then publish_payment p "payment.created" topic_payments >> pure r else pure r) v)
unfolding publish_payment ◌>>=◌
announce_created-same p (i, true) v = (refl, refl)
announce_created-same p (i, false) v = (refl, refl)

-- A transaction that opens a payment inserts it or finds its key taken.
pub open_payment-Opened :
    (p : Payment) (w : World)
    → Returns (λ r w'. Opened p w.payments r w'.payments) (open_payment p w)
unfolding open_payment
open_payment-Opened p w = Returns-bind Q (insert_payment_idempotent p) _ w λ r v e.
    Returns-map _ Q _
      (λ r' w' same.
        subst₂ (Opened p w.payments) (sym same.0) (sym same.1)
          (Returns-ok Q _ (insert_payment_idempotent-Opened p w) e))
      (announce_created-same p r v)
  where
    Q : Uuid × Bool → World → Type 0
    Q r w' = Opened p w.payments r w'.payments

pub open_payment-RowsInv :
    (p : Payment) (w : World)
    → p.captured_amount ≡ none
    → RowsInv w.payments
    → Returns (λ _ w'. RowsInv w'.payments) (open_payment p w)
open_payment-RowsInv p w uncaptured h =
    Returns-map _ (λ _ w'. RowsInv w'.payments) _
      (λ r w' opened. Opened-RowsInv p w.payments w'.payments r uncaptured opened h)
      (open_payment-Opened p w)
