-- ===== src/Payment/Histories.antt =====
-- The operations of crates/payment-service/src/orchestrator.rs as histories of steps, with those of
-- other requests that fall between their transactions.
use payment_gateway_in_rust.Prelude.{
  suc, ◌≡◌, refl, inl, inr, Bool, true, false, String, Option, none, some, if◌then◌else◌, arith,
}
use payment_gateway_in_rust.Prelude.Int.{ℤ}
use payment_gateway_in_rust.Common.{
  Uuid, Text, Json, Payment, Refund, RefundStatus, AppError, AppResult, ok, err, acquirer_declined,
  display_error, is_automatic, fraud_blocked, CreatePaymentRequest, CreateRefundRequest,
}
use payment_gateway_in_rust.Payment.World.{
  World, Env, charge, capture, refund, Tx, Done, run_tx, ◌>>=◌, modify,
}
use payment_gateway_in_rust.Payment.Statements.{update_refund_status}
use payment_gateway_in_rust.Payment.External.{
  Exchange, charge_via_acquirer, run_fraud_check, acquirer_refund, publish_refund, topic_webhooks,
}
use payment_gateway_in_rust.Payment.Effects.{Result-cases}
use payment_gateway_in_rust.Payment.Orchestrator.{
  initial_payment, finish_charge, fail_payment, open_payment, finish_capture, reserve_refund,
  cancel,
}
use payment_gateway_in_rust.Payment.Orchestrator.Operations.{
  Action, and_then, log_call, fail_with, charge_failed, charge_payment, after_fraud_check,
  replay_payment, create_payment, capture_payment, settle_refund, create_refund, cancel_payment,
}
use payment_gateway_in_rust.Payment.Steps.{
  Step, opens, fails, charges, captures, refunds, cancels, idles, Reach, here, next, Reach-trans,
}

-- What other requests commit during a call is a history of steps too.
abbrev pub IsOrderly : Exchange → Type 0
IsOrderly x = (w : World) → Reach w (x.others w)

module _ {A : Type 0} where
  run_tx-Reach :
      (m : Tx A) (w : World)
      → ((a : A) (w' : World) → m w ≡ ok (a, w') → Step w w')
      → Reach w (run_tx m w).1
  unfolding run_tx
  run_tx-Reach m w h = go (m w) refl
    where
      go :
          (r : AppResult (A × World))
          → m w ≡ r
          → Reach w
              (let t : AppResult A × World = elim r [ ok r ↦ (ok r.0, r.1) | err e ↦ (err e, w) ] in
                t).1
      go (ok (a, w')) e = next here (h a w' e)
      go (err x) e = here

idle-Reach :
    (w v : World) → v.payments ≡ w.payments → v.ledger_entries ≡ w.ledger_entries → Reach w v
idle-Reach w v rows books = next here (idles rows books)

module _ {A B : Type 0} (f : A → Action B) where
  and_then-Reach :
      (w v : World) (r : AppResult A)
      → Reach w v
      → ((a : A) → Reach v (f a v).1)
      → Reach w (and_then (r, v) f).1
  unfolding and_then
  and_then-Reach w v (ok a) h k = Reach-trans h (k a)
  and_then-Reach w v (err e) h k = h

  tx_then-Reach :
      (m : Tx A) (w : World)
      → ((a : A) (w' : World) → m w ≡ ok (a, w') → Step w w')
      → ((a : A) (v : World) → Reach v (f a v).1)
      → Reach w (and_then (run_tx m w) f).1
  tx_then-Reach m w h k =
      let t = run_tx m w in and_then-Reach w t.1 t.0 (run_tx-Reach m w h) (λ a. k a t.1)

fail_with-Reach :
    (i : Uuid) (code message : Text) (payload : Json) (e : AppError) (w : World)
    → Reach w (fail_with i code message payload e w).1
unfolding fail_with
fail_with-Reach i code message payload e w =
    tx_then-Reach _ (fail_payment i code message payload) w
      (λ a w' h. fails i code message payload h) (λ _ _. here)

charge_failed-Reach : (i : Uuid) (e : AppError) (w : World) → Reach w (charge_failed i e w).1
unfolding charge_failed
charge_failed-Reach i (acquirer_declined code message) w = fail_with-Reach i _ _ _ _ w
charge_failed-Reach i e w = fail_with-Reach i _ _ _ _ w

charge_payment-Reach :
    (env : Env) (x : Exchange) (p : Payment) (w : World)
    → IsOrderly x
    → Reach w (charge_payment env x p w).1
unfolding charge_payment
charge_payment-Reach env x p w orderly =
    elim (Result-cases (charge_via_acquirer env.serde x.reply)) [
      | inl ((a, ref), e) ↦
          rw (e, charge_payment)
            (Reach-trans called (
              run_tx-Reach (finish_charge env p.id p.merchant_id p.capture_method p.amount a ref)
                (x.others v)
                λ q w' h. charges env p.id p.merchant_id p.capture_method p.amount a ref q h))
      | inr (x', e) ↦
          rw (e, charge_payment) (Reach-trans called (charge_failed-Reach p.id x' (x.others v)))
    ]
  where
    v : World
    v = log_call (charge p.id p.amount (is_automatic p.capture_method)) w

    called : Reach w (x.others v)
    called = Reach-trans (idle-Reach w v refl refl) (orderly v)

after_fraud_check-Reach :
    (env : Env) (x : Exchange) (p : Payment) (r : AppResult Done) (w : World)
    → IsOrderly x
    → Reach w (after_fraud_check env x p r w).1
unfolding after_fraud_check
after_fraud_check-Reach env x p (ok d) w orderly = charge_payment-Reach env x p w orderly
after_fraud_check-Reach env x p (err (fraud_blocked reason)) w orderly =
    fail_with-Reach p.id _ _ _ _ w
after_fraud_check-Reach env x p (err e) w orderly = charge_payment-Reach env x p w orderly

created_then-Reach :
    (env : Env) (fraud acquirer : Exchange) (m : Uuid) (p : Payment) (r : Uuid × Bool) (v : World)
    → IsOrderly fraud
    → IsOrderly acquirer
    → Reach v
        ((if r.1
          then after_fraud_check env acquirer p
              (run_fraud_check env.serde fraud.reply)
              (fraud.others v)
          else replay_payment r.0 m v)).1
unfolding replay_payment
created_then-Reach env fraud acquirer m p (i, true) v f a =
    Reach-trans (f v) (after_fraud_check-Reach env acquirer p _ (fraud.others v) a)
created_then-Reach env fraud acquirer m p (i, false) v f a = here

-- A payment request is a history of steps.
pub create_payment-Reach :
    (env : Env) (fraud acquirer : Exchange) (m : Uuid) (req : CreatePaymentRequest)
    (key : Option String) (w : World)
    → IsOrderly fraud
    → IsOrderly acquirer
    → Reach w (create_payment env fraud acquirer m req key w).1
unfolding create_payment initial_payment
create_payment-Reach env fraud acquirer m req key w f a =
    let v : World = record w { next_id = suc w.next_id } in
    let p = initial_payment w.next_id w.now m req key in
    Reach-trans (idle-Reach w v refl refl) (
      tx_then-Reach _ (open_payment p) v (λ r w' h. opens p r refl h)
        (λ r u. created_then-Reach env fraud acquirer m p r u f a))

-- A capture request is a history of steps.
pub capture_payment-Reach :
    (env : Env) (acquirer : Exchange) (i m : Uuid) (amount : Option ℤ) (w : World)
    → IsOrderly acquirer
    → Reach w (capture_payment env acquirer i m amount w).1
unfolding capture_payment
capture_payment-Reach env x i m amount w orderly = and_then-Reach _ w w _ here λ p.
    and_then-Reach _ w w _ here λ _.
      and_then-Reach _ w (x.others v) _ (Reach-trans (idle-Reach w v refl refl) (orderly v)) λ _.
        run_tx-Reach (finish_capture env i m amount) (x.others v)
          (λ p w' h. captures env i m amount p h)
  where
    v : World
    v = log_call (capture i) w

refund_status-idle :
    (i : Uuid) (s : RefundStatus) (id : Option String) (reason : Option Text) (w w' : World)
    → update_refund_status i s id reason w ≡ ok (tt, w')
    → Step w w'
unfolding update_refund_status modify
refund_status-idle i s id reason w w' h = idles (ground arith) (ground arith)

publish_refund-idle :
    (r : Refund) (event topic : String) (w w' : World)
    → publish_refund r event topic w ≡ ok (tt, w')
    → Step w w'
unfolding publish_refund ◌>>=◌
publish_refund-idle r event topic w w' h = idles (ground arith) (ground arith)

settle_refund-Reach :
    (r : Refund) (reply : AppResult String) (w : World) → Reach w (settle_refund r reply w).1
unfolding settle_refund
settle_refund-Reach r (ok id) w =
    tx_then-Reach _ (update_refund_status r.id RefundStatus.succeeded (some id) none) w
      (λ _ w' h. refund_status-idle r.id RefundStatus.succeeded (some id) none w w' h)
      λ _ v.
        tx_then-Reach _ (publish_refund r "refund.succeeded" topic_webhooks) v
          (λ _ w' h. publish_refund-idle r "refund.succeeded" topic_webhooks v w' h) λ _ _. here
settle_refund-Reach r (err e) w =
    tx_then-Reach _ (update_refund_status r.id RefundStatus.failed none (some (display_error e))) w
      (λ _ w' h. refund_status-idle r.id RefundStatus.failed none (some (display_error e)) w w' h)
      λ _ _. here

-- A refund request is a history of steps.
pub create_refund-Reach :
    (env : Env) (acquirer : Exchange) (i m : Uuid) (req : CreateRefundRequest) (w : World)
    → IsOrderly acquirer
    → Reach w (create_refund env acquirer i m req w).1
unfolding create_refund
create_refund-Reach env x i m req w orderly =
    tx_then-Reach _ (reserve_refund env i m req) w (λ r w' h. refunds env i m req r h)
      λ r u.
        let v = log_call (refund i r.amount) u in
        Reach-trans (Reach-trans (idle-Reach u v refl refl) (orderly v))
          (settle_refund-Reach r (acquirer_refund env.serde x.reply) (x.others v))

-- A cancellation is a history of steps.
pub cancel_payment-Reach : (i m : Uuid) (w : World) → Reach w (cancel_payment i m w).1
unfolding cancel_payment
cancel_payment-Reach i m w = run_tx-Reach (cancel i m) w (λ p w' h. cancels i m p h)
