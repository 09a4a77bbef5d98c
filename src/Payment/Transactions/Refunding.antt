-- ===== src/Payment/Transactions/Refunding.antt =====
-- The reservation of a refund.
use payment_gateway_in_rust.Prelude.{suc, ◌≡◌, ◌∙◌, true, some, arith, find, get_or, update_where}
use payment_gateway_in_rust.Prelude.Int.{ℤ}
use payment_gateway_in_rust.Common.{
  Uuid, Payment, Refund, CreateRefundRequest, refundable_amount, can_refund, ok,
}
use payment_gateway_in_rust.Payment.World.{World, Env, ◌>>=◌}
use payment_gateway_in_rust.Payment.Statements.{
  owned_by, fits_refund, add_refunded, insert_refund, increment_refunded_amount,
}
use payment_gateway_in_rust.Payment.Effects.{
  Returns, Returns-map, Returns-ok, Leaves, payments_of, leaves_rules,
}
use payment_gateway_in_rust.Payment.Effects.Triples.{
  Returns-bind, Returns-new_uuid, Returns-lock, Returns-lift, Returns-gets, Returns-Leaves,
}
use payment_gateway_in_rust.Payment.Frames.{payments-publish_refund, payments-record_refund}
use payment_gateway_in_rust.Payment.Orchestrator.{
  book_refund, enter_refund, requested_refund, refund_guard, reserve_refund,
}

payments-book_refund : (env : Env) (r : Refund) → Leaves payments_of (book_refund env r)
unfolding book_refund
payments-book_refund env r =
    search (leaves_rules, payments-publish_refund, payments-record_refund) depth 9

insert_refund-same :
    (r : Refund) (w : World)
    → Returns (λ _ w'. (w'.payments ≡ w.payments) × (w'.now ≡ w.now)) (insert_refund r w)
unfolding insert_refund ◌>>=◌
insert_refund-same r w = ground arith

abbrev Raised : Refund → World → World → Type 0
Raised r w w' =
    w'.payments
    ≡ update_where (fits_refund r.payment_id r.amount) (add_refunded r.amount w.now) w.payments

increment-Raised :
    (r : Refund) (w : World)
    → Returns (λ _ w'. Raised r w w') (increment_refunded_amount r.payment_id r.amount w)
unfolding increment_refunded_amount ◌>>=◌
increment-Raised r w = ground arith

Raised-from :
    (r : Refund) (w v w' : World)
    → (v.payments ≡ w.payments) × (v.now ≡ w.now)
    → Raised r v w'
    → Raised r w w'
Raised-from r w v w' h k = cc

enter_refund-Raised :
    (env : Env) (r : Refund) (w : World) → Returns (λ _ w'. Raised r w w') (enter_refund env r w)
unfolding enter_refund
enter_refund-Raised env r w = Returns-bind Q (insert_refund r) _ w λ a v e.
    Returns-bind Q (increment_refunded_amount r.payment_id r.amount) _ v λ b u g.
      Returns-Leaves Q payments_of (book_refund env r) u (payments-book_refund env r) λ _ w' same.
        same
        ∙ Raised-from r w v u (Returns-ok _ _ (insert_refund-same r w) e)
            (Returns-ok (λ _ w'. Raised r v w') _ (increment-Raised r v) g)
  where
    Q : Refund → World → Type 0
    Q _ w' = Raised r w w'

-- What a reserved refund does to the rows: an amount that the payment allows is added to what is
-- refunded of it.
abbrev pub RefundsRow : (i m : Uuid) (req : CreateRefundRequest) → World → World → Type 0
RefundsRow i m req w w' =
    (q : Payment) × (find (owned_by i m) w.payments ≡ some q)
    × (can_refund q (get_or req.amount (refundable_amount q)) ≡ true)
    × (w'.payments
        ≡ update_where (fits_refund i (get_or req.amount (refundable_amount q)))
            (add_refunded (get_or req.amount (refundable_amount q)) w.now) w.payments)

refund_guard_ok :
    (q : Payment) (amount : ℤ) (d : Unit)
    → refund_guard q amount ≡ ok d
    → can_refund q amount ≡ true
unfolding refund_guard
refund_guard_ok q amount d h = ground arith

pub reserve_refund-RefundsRow :
    (env : Env) (i m : Uuid) (req : CreateRefundRequest) (w : World)
    → Returns (λ _ w'. RefundsRow i m req w w') (reserve_refund env i m req w)
unfolding reserve_refund requested_refund
reserve_refund-RefundsRow env i m req w =
    let w1 : World = record w { next_id = suc w.next_id } in
    Returns-new_uuid Q _ w (
      Returns-gets Q _ _ w1 (
        Returns-lock Q i m _ w1 λ q e. Returns-lift Q _ _ w1 λ t good.
          Returns-map _ Q _ (λ _ w' raised. (q, e, refund_guard_ok q _ t good, raised))
            (enter_refund-Raised env (requested_refund w.next_id w.now i m q req) w1)))
  where
    Q : Refund → World → Type 0
    Q _ w' = RefundsRow i m req w w'
