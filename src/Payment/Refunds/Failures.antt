-- ===== src/Payment/Refunds/Failures.antt =====
-- Refunds that go wrong: what a repeated key and a failing acquirer leave behind.
use payment_gateway_in_rust.Prelude.{
  String, ap, ◌≡◌, refl, ◌∙◌, some, List, ◌∷◌, find, arith, suc, get_or,
}
use payment_gateway_in_rust.Prelude.Int.{ℤ}
use payment_gateway_in_rust.Common.{
  Uuid, lit, Payment, Refund, CreateRefundRequest, AppError, acquirer_unavailable, display_error,
  AppResult, ok, err, refundable_amount,
}
use payment_gateway_in_rust.Payment.World.{World, Env, refund, run_tx, ◌>>=◌, ◌>>◌, modify}
use payment_gateway_in_rust.Payment.Statements.{
  owned_by, insert_refund, increment_refunded_amount, refund_has_key, update_refund_status,
}
use payment_gateway_in_rust.Payment.Ledger.{record_refund, write_double_entry, insert_entry}
use payment_gateway_in_rust.Payment.External.{HttpReply, acquirer_refund, quiet, publish_refund}
use payment_gateway_in_rust.Payment.Effects.{Returns, Returns-ok, Leaves, leaves_rules}
use payment_gateway_in_rust.Payment.Effects.Triples.{
  Returns-bind, Returns-Leaves, Returns-new_uuid, Returns-gets, Returns-lock, Returns-lift,
}
use payment_gateway_in_rust.Payment.Orchestrator.{
  reserve_refund, requested_refund, enter_refund, book_refund,
}
use payment_gateway_in_rust.Payment.Orchestrator.Operations.{
  settle_refund, and_then, create_refund, log_call,
}
use payment_gateway_in_rust.Payment.Commits.{Succeeds-and, Succeeds, CanPost, run_tx-commits}
use payment_gateway_in_rust.Payment.Refunds.{
  IsRefundable, IsRequested, RaisesTotal, reserve_refund-commits,
}

abbrev refunds_of : World → List Refund
refunds_of w = w.refunds

refunds-increment : (i : Uuid) (amount : ℤ) → Leaves refunds_of (increment_refunded_amount i amount)
unfolding increment_refunded_amount ◌>>=◌
refunds-increment i amount = record { at = λ w. ground arith }

refunds-record_refund : (env : Env) (r : Refund) → Leaves refunds_of (record_refund env r)
unfolding record_refund write_double_entry insert_entry ◌>>=◌
refunds-record_refund env r = record { at = λ w. ground arith }

refunds-publish_refund :
    (r : Refund) (event_type topic : String) → Leaves refunds_of (publish_refund r event_type topic)
unfolding publish_refund ◌>>=◌
refunds-publish_refund r event_type topic = record { at = λ w. refl }

refunds-rest :
    (env : Env) (r : Refund)
    → Leaves refunds_of (increment_refunded_amount r.payment_id r.amount >> book_refund env r)
unfolding book_refund
refunds-rest env r =
    search (leaves_rules, refunds-increment, refunds-record_refund, refunds-publish_refund) depth 12

insert_refund-taken :
    (r earlier : Refund) (w : World)
    → find (refund_has_key r.merchant_id r.idempotency_key) w.refunds ≡ some earlier
    → Returns (λ _ w'. w'.refunds ≡ w.refunds) (insert_refund r w)
unfolding insert_refund ◌>>=◌
insert_refund-taken r earlier w h = ground (arith, h)

enter_refund-keeps_refunds :
    (env : Env) (r earlier : Refund) (w : World)
    → find (refund_has_key r.merchant_id r.idempotency_key) w.refunds ≡ some earlier
    → Returns (λ _ w'. w'.refunds ≡ w.refunds) (enter_refund env r w)
unfolding enter_refund
enter_refund-keeps_refunds env r earlier w taken = Returns-bind Q (insert_refund r) _ w λ _ v e.
    Returns-Leaves Q refunds_of _ v (refunds-rest env r)
      λ _ w' same. same ∙ Returns-ok Q _ (insert_refund-taken r earlier w taken) e
  where
    Q : {A : Type 0} → A → World → Type 0
    Q _ w' = w'.refunds ≡ w.refunds

reserve_refund-keeps_refunds :
    (env : Env) (i m : Uuid) (req : CreateRefundRequest) (w : World) (earlier : Refund)
    → find (refund_has_key m req.idempotency_key) w.refunds ≡ some earlier
    → Returns (λ _ w'. w'.refunds ≡ w.refunds) (reserve_refund env i m req w)
unfolding reserve_refund requested_refund
reserve_refund-keeps_refunds env i m req w earlier taken =
    let w1 : World = record w { next_id = suc w.next_id } in
    Returns-new_uuid Q _ w (
      Returns-gets Q _ _ w1 (
        Returns-lock Q i m _ w1 λ q e. Returns-lift Q _ _ w1 λ t good.
          enter_refund-keeps_refunds env (requested_refund w.next_id w.now i m q req) earlier w1
            taken))
  where
    Q : Refund → World → Type 0
    Q _ w' = w'.refunds ≡ w.refunds

-- With the references between entries checked at the commit, a stored merchant, and the ledger's
-- amounts with twice the refund's below 2^63: where the idempotency key of a refund that the
-- payment allows was used by the merchant before, its reservation commits like a new one; it adds
-- no row to the refunds, and yet the payment then has the amount added to its refunded total once more.
pub repeated_key-refunds_again :
    (env : Env) (i m : Uuid) (req : CreateRefundRequest) (w : World) (q : Payment)
    (earlier : Refund)
    → CanPost m (get_or req.amount (refundable_amount q)) w
    → find (owned_by i m) w.payments ≡ some q
    → IsRefundable q (get_or req.amount (refundable_amount q))
    → find (refund_has_key m req.idempotency_key) w.refunds ≡ some earlier
    → Succeeds
        (λ r w'.
          (IsRequested i m q req r
            × RaisesTotal i m q (get_or req.amount (refundable_amount q)) w w')
          × (w'.refunds ≡ w.refunds))
        (reserve_refund env i m req w)
repeated_key-refunds_again env i m req w q earlier d f h taken =
    Succeeds-and _ _ _ (reserve_refund-commits env i m req w q d f h)
      (reserve_refund-keeps_refunds env i m req w earlier taken)

settle_refund-fails :
    (r : Refund) (e : AppError) (w : World)
    → ((settle_refund r (err e) w).0
        ≡ err (acquirer_unavailable (lit "Refund failed: " ∷ display_error e)))
      × ((settle_refund r (err e) w).1.payments ≡ w.payments)
unfolding settle_refund run_tx and_then update_refund_status modify
settle_refund-fails r e w = (refl, refl)

-- What is left of a refund that failed at the acquirer: the error, and the raised total.
abbrev pub LeftRaised :
    (i m : Uuid) (q : Payment) (amount : ℤ) (e : AppError) (w : World)
    → AppResult Refund × World
    → Type 0
LeftRaised i m q amount e w (r, w') =
    (r ≡ err (acquirer_unavailable (lit "Refund failed: " ∷ display_error e)))
    × RaisesTotal i m q amount w w'

failed_after :
    (env : Env) (reply : HttpReply) (i m : Uuid) (req : CreateRefundRequest) (w : World)
    (q : Payment) (amount : ℤ) (e : AppError) (r : Refund) (w1 : World)
    → acquirer_refund env.serde reply ≡ err e
    → reserve_refund env i m req w ≡ ok (r, w1)
    → RaisesTotal i m q amount w w1
    → LeftRaised i m q amount e w (create_refund env (quiet reply) i m req w)
unfolding create_refund and_then
failed_after env reply i m req w q amount e r w1 declined reserved row =
    rw (run_tx-commits (reserve_refund env i m req) w w1 r reserved) (
      rw declined (
        let v = log_call (refund i r.amount) w1 in
        let ends = settle_refund-fails r e v in (ends.0, ap (find (owned_by i m)) ends.1 ∙ row)))

-- With the references between entries checked at the commit, a stored merchant, the ledger's amounts
-- with twice the refund's below 2^63, and no other request in between: a refund that the
-- payment allows and the acquirer does not make, or cannot be asked for, is answered as unavailable,
-- and the payment is left with the amount added to its refunded total.
pub failed_refund-keeps_total :
    (env : Env) (reply : HttpReply) (i m : Uuid) (req : CreateRefundRequest) (w : World)
    (q : Payment) (e : AppError)
    → CanPost m (get_or req.amount (refundable_amount q)) w
    → find (owned_by i m) w.payments ≡ some q
    → IsRefundable q (get_or req.amount (refundable_amount q))
    → acquirer_refund env.serde reply ≡ err e
    → LeftRaised i m q
        (get_or req.amount (refundable_amount q))
        e
        w
        (create_refund env (quiet reply) i m req w)
failed_refund-keeps_total env reply i m req w q e d f h declined =
    go (reserve_refund env i m req w) refl (reserve_refund-commits env i m req w q d f h)
  where
    go :
        (r : AppResult (Refund × World))
        → reserve_refund env i m req w ≡ r
        → Succeeds
            (λ r w'.
              IsRequested i m q req r
              × RaisesTotal i m q (get_or req.amount (refundable_amount q)) w w')
            r
        → LeftRaised i m q
            (get_or req.amount (refundable_amount q))
            e
            w
            (create_refund env (quiet reply) i m req w)
    go (ok (r, w1)) reserved k = failed_after env reply i m req w q _ e r w1 declined reserved k.1
    go (err x) reserved k = absurd k
