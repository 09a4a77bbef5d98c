-- ===== src/Payment/Refusals.antt =====
-- What the operations refuse, and that a refusal leaves no trace; what is done at the acquirer and
-- refused afterwards.
use payment_gateway_in_rust.Prelude.{
  ap, ◌∙◌, ==_iff, find-update, ◌≡◌, ◌≢◌, refl, ◌⊎◌, String, Option, none, some, [], ◌∷◌, find,
  arith, suc, get_or, update_where,
}
use payment_gateway_in_rust.Prelude.Int.{ℤ}
use payment_gateway_in_rust.Common.{
  Timestamp, Uuid, lit, Payment, PaymentStatus, created, authorized, captured, cancelled,
  requires_action, debug_status, is_automatic, CaptureMethod, automatic, manual,
  CreateRefundRequest, AppError, AppResult, ok, err, invalid_state_transition, refundable_amount,
  pending,
}
use payment_gateway_in_rust.Payment.World.{
  World, Env, Tx, charge, Done, ◌>>=◌, pure, modify, gets, new_uuid, lift,
}
use payment_gateway_in_rust.Payment.Statements.{
  owned_by, find_payment_by_id, update_payment_status, has_id, set_status,
}
use payment_gateway_in_rust.Payment.Rows.{found-has_id, find-untouched}
use payment_gateway_in_rust.Payment.StateMachine.{new, walk, transition}
use payment_gateway_in_rust.Payment.External.{Exchange, charge_via_acquirer, publish_payment}
use payment_gateway_in_rust.Payment.Orchestrator.{
  charge_path, finish_charge, reserve_refund, refund_guard, requested_refund, cancel,
}
use payment_gateway_in_rust.Payment.Orchestrator.Operations.{
  capture_payment, create_refund, charge_payment, and_then, log_call,
}
use payment_gateway_in_rust.Payment.Commits.{
  run_tx-rolls_back, lock-found, Succeeds, lift-ok, Succeeds-step, Succeeds-bind,
}

-- The error of a transition that the table does not have.
abbrev pub refused : PaymentStatus → PaymentStatus → AppError
refused s next = invalid_state_transition (lit (debug_status s) ∷ []) (lit (debug_status next) ∷ [])

capture_refused :
    (s : PaymentStatus)
    → s ≢ authorized
    → (transition (new s) captured).0 ≡ err (refused s captured)
unfolding transition
capture_refused s h = ground arith

-- A capture of a payment whose status is not `authorized` is an invalid transition; nothing is
-- changed and the acquirer is not called.
pub capture_payment-refused :
    (env : Env) (x : Exchange) (i m : Uuid) (amount : Option ℤ) (w : World) (q : Payment)
    → find_payment_by_id i m w ≡ some q
    → q.status ≢ authorized
    → capture_payment env x i m amount w ≡ (err (refused q.status captured), w)
unfolding capture_payment and_then
capture_payment-refused env x i m amount w q e h = rw e (rw (capture_refused q.status h) refl)

bind-fails :
    {A B : Type 0} (m : Tx A) (k : A → Tx B) (w w' : World) (a : A) (x : AppError)
    → m w ≡ ok (a, w')
    → k a w' ≡ err x
    → (m >>= k) w ≡ err x
unfolding ◌>>=◌
bind-fails m k w w' a x e f = rw (e, ◌>>=◌) f

lift-fails :
    {A B : Type 0} (r : AppResult A) (k : A → Tx B) (w : World) (x : AppError)
    → r ≡ err x
    → (lift r >>= k) w ≡ err x
unfolding ◌>>=◌
lift-fails r k w x e = rw (e, ◌>>=◌) refl

reserve_refund-fails :
    (env : Env) (i m : Uuid) (req : CreateRefundRequest) (w : World) (q : Payment) (e : AppError)
    → find (owned_by i m) w.payments ≡ some q
    → refund_guard q (get_or req.amount (refundable_amount q)) ≡ err e
    → reserve_refund env i m req w ≡ err e
unfolding reserve_refund requested_refund new_uuid gets
reserve_refund-fails env i m req w q e f g =
    let w1 : World = record w { next_id = suc w.next_id } in
    bind-fails _ _ w w1 w.next_id e refl (
      bind-fails _ _ w1 w1 w.now e refl (
        bind-fails _ _ w1 w1 q e (lock-found i m w1 q f)
          (lift-fails (refund_guard q (get_or req.amount (refundable_amount q))) _ w1 e g)))

-- A refund that the guards refuse on the stored payment, for its status or its amount, is answered
-- with their error; nothing is changed and the acquirer is not called.
pub create_refund-refused :
    (env : Env) (x : Exchange) (i m : Uuid) (req : CreateRefundRequest) (w : World) (q : Payment)
    (e : AppError)
    → find_payment_by_id i m w ≡ some q
    → refund_guard q (get_or req.amount (refundable_amount q)) ≡ err e
    → create_refund env x i m req w ≡ (err e, w)
unfolding create_refund and_then find_payment_by_id
create_refund-refused env x i m req w q e f g =
    rw
      (run_tx-rolls_back (reserve_refund env i m req) w e
        (reserve_refund-fails env i m req w q e f g))
      refl

charge_refused :
    (method : CaptureMethod) (s : PaymentStatus)
    → s ≢ created
    → walk (new s) (charge_path method) ≡ err (refused s pending)
unfolding walk
charge_refused automatic s h = ground arith
charge_refused manual s h = ground arith

finish_charge-fails :
    (env : Env) (i m : Uuid) (method : CaptureMethod) (amount : ℤ) (acquirer reference : String)
    (w : World) (q : Payment)
    → find (owned_by i m) w.payments ≡ some q
    → q.status ≢ created
    → finish_charge env i m method amount acquirer reference w ≡ err (refused q.status pending)
unfolding finish_charge
finish_charge-fails env i m method amount acquirer reference w q f h =
    bind-fails _ _ w w q _ (lock-found i m w q f) (
      lift-fails (walk (new q.status) (charge_path method)) _ w _
        (charge_refused method q.status h))

-- If the payment is no longer `created` when the acquirer's acceptance of its charge arrives (it was
-- cancelled meanwhile, say), the operation reports an invalid transition and records nothing of the
-- charge, which the acquirer was asked for and has made.
pub late_charge-unrecorded :
    (env : Env) (x : Exchange) (p q : Payment) (w : World) (acquirer reference : String)
    → charge_via_acquirer env.serde x.reply ≡ ok (acquirer, reference)
    → find_payment_by_id p.id p.merchant_id
        (x.others (log_call (charge p.id p.amount (is_automatic p.capture_method)) w))
      ≡ some q
    → q.status ≢ created
    → charge_payment env x p w ≡ (
      err (refused q.status pending),
      x.others (log_call (charge p.id p.amount (is_automatic p.capture_method)) w),
    )
unfolding charge_payment find_payment_by_id
late_charge-unrecorded env x p q w acquirer reference e f h =
    rw (e, charge_payment)
      (run_tx-rolls_back
        (finish_charge env p.id p.merchant_id p.capture_method p.amount acquirer reference) _ _
        (finish_charge-fails env p.id p.merchant_id p.capture_method p.amount acquirer reference _ q
          f h))

abbrev OnlyOutbox : World → Done → World → Type 0
OnlyOutbox w _ w' =
    (w'.payments ≡ w.payments) × (w'.ledger_entries ≡ w.ledger_entries) × (w'.calls ≡ w.calls)

publish-OnlyOutbox :
    (p : Payment) (event_type topic : String) (w : World)
    → Succeeds (OnlyOutbox w) (publish_payment p event_type topic w)
unfolding publish_payment ◌>>=◌
publish-OnlyOutbox p event_type topic w = (refl, refl, refl)

-- The row after a cancellation.
abbrev pub cancelled_row : Payment → Timestamp → Payment
cancelled_row q now = record q {
  status = cancelled;
  failure_code = none;
  failure_message = none;
  updated_at = now;
}

-- The payment is returned as cancelled and found so, no row of another identifier is changed, and
-- neither are the ledger and the calls.
abbrev pub CancelsTo : (i m : Uuid) → Payment → World → Payment → World → Type 0
CancelsTo i m q w p w' =
    (p ≡ record q { status = cancelled; updated_at = w.now })
    × (find (owned_by i m) w'.payments ≡ some (cancelled_row q w.now))
    × ((j : Uuid) → j ≢ i → find (has_id j) w'.payments ≡ find (has_id j) w.payments)
    × (w'.ledger_entries ≡ w.ledger_entries)
    × (w'.calls ≡ w.calls)

cancel_path :
    (s : PaymentStatus)
    → (s ≡ created) ⊎ (s ≡ authorized) ⊎ (s ≡ requires_action)
    → (transition (new s) cancelled).0 ≡ ok cancelled
unfolding transition
cancel_path s h = ground arith

-- Cancelling a payment that is `created`, `authorized` or `requires_action` commits: it returns the
-- payment as cancelled, after which the payment is found as cancelled, without a failure code or
-- message, no row of another identifier is changed, nothing is posted to the ledger and the acquirer
-- is not called, which keeps what it has authorised.
pub cancel-commits :
    (i m : Uuid) (w : World) (q : Payment)
    → find (owned_by i m) w.payments ≡ some q
    → (q.status ≡ created) ⊎ (q.status ≡ authorized) ⊎ (q.status ≡ requires_action)
    → Succeeds (CancelsTo i m q w) (cancel i m w)
unfolding cancel update_payment_status modify gets pure
cancel-commits i m w q f h = Succeeds-step Q _ _ w w q (lock-found i m w q f) (
    Succeeds-step Q _ _ w w cancelled (lift-ok _ _ w (cancel_path q.status h)) (
      Succeeds-step Q _ _ w w w.now refl (
        Succeeds-step Q _ _ w w1 tt refl (
          Succeeds-bind (OnlyOutbox w1) _ _ _ w1 (publish-OnlyOutbox _ "payment.cancelled" _ w1)
            λ _ w2 k. (
              refl,
              ap (find (owned_by i m)) k.0 ∙ found,
              λ j other. ap (find (has_id j)) k.0 ∙ untouched j other,
              k.1,
              k.2,
            )))))
  where
    Q : Payment → World → Type 0
    Q = CancelsTo i m q w

    w1 : World
    w1 = record w {
      payments = update_where (has_id q.id) (set_status cancelled none none w.now) w.payments;
    }

    found : find (owned_by i m) w1.payments ≡ some (cancelled_row q w.now)
    found =
        find-update (owned_by i m) (has_id q.id) (set_status cancelled none none w.now) q w.payments
          (λ _. refl) f ((==_iff q.id q.id).1 refl)

    untouched : (j : Uuid) → j ≢ i → find (has_id j) w1.payments ≡ find (has_id j) w.payments
    untouched j other =
        let owner = found-has_id i m w.payments f in
        find-untouched j (has_id q.id) (set_status cancelled none none w.now) w.payments
          λ x hit. (ground (arith, owner.0, other, hit), refl)
