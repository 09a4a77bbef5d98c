-- ===== src/Payment/Refunds.antt =====
-- Refunds: when a reservation commits, what a repeated key and a failing acquirer leave behind.
pub mod Failures
use payment_gateway_in_rust.Prelude.{
  ℕ, ◌+◌, ◌*◌, ◌<◌, List, ◌∙◌, ◌∷◌, ◌≡◌, refl, sym, subst, some, List, [], ◌∷◌, find, true, arith,
  suc, get_or, is_some, find-update, update_where,
}
use payment_gateway_in_rust.Prelude.Int.{
  ℤ, pos, pos_part, ◌<ℤ◌, ◌≤ℤ◌, ◌+ℤ◌, ◌-ℤ◌, IsI64, wrap_i64_id, +ℤ_parts, -ℤ_parts,
}
use payment_gateway_in_rust.Common.{
  AppError, acquirer_unavailable, display_error, AppResult, lit, err, Uuid, lit, Payment, Refund,
  CreateRefundRequest, AppError, acquirer_unavailable, display_error, ok, err, due_amount,
  RefundStatus, Timestamp, is_refundable_status, can_refund, refundable_amount,
}
use payment_gateway_in_rust.Payment.World.{
  ◌>>◌, run_tx, World, Env, Done, run_tx, ◌>>=◌, pure, modify, gets, new_uuid,
}
use payment_gateway_in_rust.Payment.Statements.{
  add_refunded, refund_has_key, update_refund_status, owned_by, fits_refund, insert_refund,
  increment_refunded_amount, update_refund_status,
}
use payment_gateway_in_rust.Payment.Effects.Triples.{
  Returns-bind, Returns-Leaves, Returns-new_uuid, Returns-gets, Returns-lock, Returns-lift,
}
use payment_gateway_in_rust.Payment.Effects.{Returns-map}
use payment_gateway_in_rust.Payment.External.{HttpReply, acquirer_refund, Exchange, quiet}
use payment_gateway_in_rust.Payment.Rows.{IsSolvent, found-has_id, update-keeps_id, owned-stored}
use payment_gateway_in_rust.Payment.Orchestrator.{
  reserve_refund, requested_refund, refund_guard, enter_refund, book_refund,
}
use payment_gateway_in_rust.Payment.Orchestrator.Operations.{settle_refund, and_then, create_refund}
use payment_gateway_in_rust.Payment.Ledger.{record_refund}
use payment_gateway_in_rust.Payment.Ledger.Balance.{volume}
use payment_gateway_in_rust.Payment.Transactions.Refunding.{RefundsRow, reserve_refund-RefundsRow}
use payment_gateway_in_rust.Payment.Commits.{
  Succeeds, Succeeds-map, Succeeds-and, Succeeds-bind, Succeeds-step, lock-found, lift-ok, Any,
  Accepts, CanPost, known_accounts, write_double_entry-Succeeds, publish_refund-Succeeds,
}

-- On a solvent payment whose captured amount is a 64-bit integer, the subtraction does not wrap.
refundable-exact :
    (q : Payment)
    → IsSolvent q
    → IsI64 (due_amount q)
    → refundable_amount q ≡ due_amount q -ℤ q.refunded_amount
unfolding refundable_amount
refundable-exact q s range =
    wrap_i64_id _ (ground (arith, s.nonneg, s.within, -ℤ_parts (due_amount q) q.refunded_amount))

-- What a refund of this amount needs.
pub record IsRefundable (q : Payment) (amount : ℤ) : Type 0 where
  pub solvent : IsSolvent q
  pub range : IsI64 (due_amount q)
  pub status : is_refundable_status q.status ≡ true
  pub positive : pos 0 <ℤ amount
  pub left : amount ≤ℤ due_amount q -ℤ q.refunded_amount

refundable-can : (q : Payment) (amount : ℤ) → IsRefundable q amount → can_refund q amount ≡ true
unfolding can_refund
refundable-can q amount h =
    rw (h.status, refundable-exact q h.solvent h.range) (ground (arith, h.positive, h.left))

refundable-guard :
    (q : Payment) (amount : ℤ) → IsRefundable q amount → refund_guard q amount ≡ ok tt
unfolding refund_guard
refundable-guard q amount h = rw (h.status, refundable-can q amount h) refl

refundable-fits :
    (i m : Uuid) (q : Payment) (amount : ℤ) (ps : List Payment)
    → find (owned_by i m) ps ≡ some q
    → IsRefundable q amount
    → is_some (find (fits_refund i amount) ps) ≡ true
refundable-fits i m q amount [] e h = ground arith
refundable-fits i m q amount (p ∷ ps) e h = ground (
  arith,
  refundable-fits i m q amount ps,
  +ℤ_parts q.refunded_amount amount,
  -ℤ_parts (due_amount q) q.refunded_amount,
  h.left,
)

-- What the insertion of the refund's row leaves alone.
abbrev RowEntered : (i m : Uuid) (room : ℕ) → World → Done → World → Type 0
RowEntered i m room w _ w' = (w'.payments ≡ w.payments) × Accepts i m room w'

insert_refund-Succeeds :
    (r : Refund) (i m : Uuid) (room : ℕ) (w : World)
    → Accepts i m room w
    → pos 0 <ℤ r.amount
    → Succeeds (RowEntered i m room w) (insert_refund r w)
unfolding insert_refund ◌>>=◌
insert_refund-Succeeds r i m room w d h = ground (arith, d, h)

increment-Succeeds :
    (i m : Uuid) (amount : ℤ) (room : ℕ) (w : World)
    → Accepts i m room w
    → is_some (find (fits_refund i amount) w.payments) ≡ true
    → Succeeds (λ _ w'. Accepts i m room w') (increment_refunded_amount i amount w)
unfolding increment_refunded_amount ◌>>=◌
increment-Succeeds i m amount room w d h =
    let kept =
      update-keeps_id i (fits_refund i amount) (add_refunded amount w.now) w.payments λ p. refl in
    ground (arith, d, h, kept)

book_refund-Succeeds :
    (env : Env) (r : Refund) (room : ℕ) (w : World)
    → Accepts r.payment_id r.merchant_id room w
    → room < 9223372036854775808
    → pos 0 <ℤ r.amount
    → Succeeds (λ q _. q ≡ r) (book_refund env r w)
unfolding book_refund record_refund pure
book_refund-Succeeds env r room w d small h =
    Succeeds-bind (λ _ w'. Accepts r.payment_id r.merchant_id (room + 2 * pos_part r.amount) w') _ _
      _ w
      (write_double_entry-Succeeds env r.payment_id r.merchant_id r.currency r.amount _ _ _ _ room w
        d small known_accounts.1 known_accounts.0 h)
      λ _ w1 _. Succeeds-bind Any _ _ _ w1 (publish_refund-Succeeds r _ _ w1) λ _ w2 _. refl

enter_refund-Succeeds :
    (env : Env) (r : Refund) (room : ℕ) (w : World)
    → Accepts r.payment_id r.merchant_id room w
    → room < 9223372036854775808
    → pos 0 <ℤ r.amount
    → is_some (find (fits_refund r.payment_id r.amount) w.payments) ≡ true
    → Succeeds (λ q _. q ≡ r) (enter_refund env r w)
unfolding enter_refund
enter_refund-Succeeds env r room w d small h fits =
    Succeeds-bind (RowEntered r.payment_id r.merchant_id room w) _ _ _ w
      (insert_refund-Succeeds r r.payment_id r.merchant_id room w d h)
      λ _ w1 k.
        Succeeds-bind (λ _ w'. Accepts r.payment_id r.merchant_id room w') _ _ _ w1
          (increment-Succeeds r.payment_id r.merchant_id r.amount room w1 k.1 (
            subst (λ ps. is_some (find (fits_refund r.payment_id r.amount) ps) ≡ true) (sym k.0)
              fits))
          λ _ w2 d2. book_refund-Succeeds env r room w2 d2 small h

reserve_refund-Succeeds :
    (env : Env) (i m : Uuid) (req : CreateRefundRequest) (w : World) (q : Payment)
    → CanPost m (get_or req.amount (refundable_amount q)) w
    → find (owned_by i m) w.payments ≡ some q
    → IsRefundable q (get_or req.amount (refundable_amount q))
    → Succeeds
        (λ r _. r ≡ requested_refund w.next_id w.now i m q req)
        (reserve_refund env i m req w)
unfolding reserve_refund requested_refund new_uuid gets
reserve_refund-Succeeds env i m req w q d e h = Succeeds-step Q _ _ w w1 w.next_id refl (
    Succeeds-step Q _ _ w1 w1 w.now refl (
      Succeeds-step Q _ _ w1 w1 q (lock-found i m w1 q e) (
        Succeeds-step Q _ _ w1 w1 tt (lift-ok _ tt w1 (refundable-guard q _ h)) (
          enter_refund-Succeeds env (requested_refund w.next_id w.now i m q req)
            (volume w.ledger_entries) w1
            (d.deferred, owned-stored i m w.payments e, d.merchant, omega arith)
            (omega (arith, d.room)) h.positive (refundable-fits i m q _ w.payments e h)))))
  where
    w1 : World
    w1 = record w { next_id = suc w.next_id }

    Q : Refund → World → Type 0
    Q r _ = r ≡ requested_refund w.next_id w.now i m q req

-- The row of the payment, with the amount added to what was refunded of it.
abbrev pub RaisesTotal : (i m : Uuid) (q : Payment) (amount : ℤ) → World → World → Type 0
RaisesTotal i m q amount w w' =
    find (owned_by i m) w'.payments
    ≡ some (record q { refunded_amount = q.refunded_amount +ℤ amount; updated_at = w.now })

-- The refund that is returned.
abbrev pub IsRequested : (i m : Uuid) (q : Payment) (req : CreateRefundRequest) → Refund → Type 0
IsRequested i m q req r =
    (r.payment_id ≡ i)
    × (r.merchant_id ≡ m)
    × (r.amount ≡ get_or req.amount (refundable_amount q))
    × (r.currency ≡ q.currency)
    × (r.status ≡ RefundStatus.pending)
    × (r.idempotency_key ≡ req.idempotency_key)

requested :
    (id : Uuid) (now : Timestamp) (i m : Uuid) (q : Payment) (req : CreateRefundRequest)
    → IsRequested i m q req (requested_refund id now i m q req)
unfolding requested_refund
requested id now i m q req = (refl, refl, refl, refl, refl, refl)

fits :
    (i m : Uuid) (q : Payment) (amount : ℤ) (ps : List Payment)
    → find (owned_by i m) ps ≡ some q
    → IsRefundable q amount
    → fits_refund i amount q ≡ true
fits i m q amount ps e h = ground (
  arith,
  found-has_id i m ps e,
  +ℤ_parts q.refunded_amount amount,
  -ℤ_parts (due_amount q) q.refunded_amount,
  h.left,
)

RefundsRow-RaisesTotal :
    (i m : Uuid) (req : CreateRefundRequest) (w w' : World) (q : Payment)
    → find (owned_by i m) w.payments ≡ some q
    → IsRefundable q (get_or req.amount (refundable_amount q))
    → RefundsRow i m req w w'
    → RaisesTotal i m q (get_or req.amount (refundable_amount q)) w w'
RefundsRow-RaisesTotal i m req w w' q e h (q', found, can, rows) =
    let same : q' ≡ q = ground (arith, e, found) in
    let amount = get_or req.amount (refundable_amount q) in
    let written =
      subst
        (λ r.
          w'.payments
          ≡ update_where (fits_refund i (get_or req.amount (refundable_amount r)))
              (add_refunded (get_or req.amount (refundable_amount r)) w.now) w.payments)
        same rows in
    rw written (
      find-update (owned_by i m) (fits_refund i amount) (add_refunded amount w.now) q w.payments
        (λ p. refl) e (fits i m q amount w.payments e h))

-- With the references between entries checked at the commit, a stored merchant, and the ledger's
-- amounts with twice this one below 2^63: reserving a refund of a captured or settled payment that is solvent, with a captured amount in 64 bits, for a positive amount within what is
-- captured and not yet refunded (all of it, where none is given), commits and returns a pending
-- refund of that amount with the request's key; the payment then has that amount added to its refunded total, and is otherwise as it was
-- but for the time of its update. It does so whether or not the refund's idempotency key was used
-- before.
pub reserve_refund-commits :
    (env : Env) (i m : Uuid) (req : CreateRefundRequest) (w : World) (q : Payment)
    → CanPost m (get_or req.amount (refundable_amount q)) w
    → find (owned_by i m) w.payments ≡ some q
    → IsRefundable q (get_or req.amount (refundable_amount q))
    → Succeeds
        (λ r w'.
          IsRequested i m q req r
          × RaisesTotal i m q (get_or req.amount (refundable_amount q)) w w')
        (reserve_refund env i m req w)
reserve_refund-commits env i m req w q d e h =
    Succeeds-and _ _ _
      (Succeeds-map _ (λ r _. IsRequested i m q req r) _
        (λ r _ same. subst (IsRequested i m q req) (sym same) (requested w.next_id w.now i m q req))
        (reserve_refund-Succeeds env i m req w q d e h))
      (Returns-map _ (λ _ w'. RaisesTotal i m q (get_or req.amount (refundable_amount q)) w w') _
        (λ _ w' row. RefundsRow-RaisesTotal i m req w w' q e h row)
        (reserve_refund-RefundsRow env i m req w))
