-- ===== src/Payment/Examples/Runs.antt =====
-- A history of three transactions, and the theorems on histories at it.
use payment_gateway_in_rust.Prelude.{inl, ◌≡◌, refl, Bool, true, false, some, ap, sym, ◌∙◌}
use payment_gateway_in_rust.Prelude.Int.{pos, ◌≤ℤ◌, ◌+ℤ◌, ◌-ℤ◌, wrap_i64}
use payment_gateway_in_rust.Common.{
  can_refund, captured, Uuid, Payment, automatic, Refund, AppResult, ok, err,
}
use payment_gateway_in_rust.Payment.World.{World, ◌>>=◌, run_tx, Tx}
use payment_gateway_in_rust.Payment.Statements.{
  find_payment_by_id, find_by_idempotency_key, insert_payment_idempotent, lock_payment_for_update,
  update_payment_after_charge, insert_refund, increment_refunded_amount,
}
use payment_gateway_in_rust.Payment.Ledger.{
  balance, of_merchant, write_double_entry, record_capture, record_fee, record_refund, insert_entry,
}
use payment_gateway_in_rust.Payment.External.{publish_payment, publish_refund}
use payment_gateway_in_rust.Payment.StateMachine.{walk}
use payment_gateway_in_rust.Payment.Orchestrator.{
  open_payment, finish_charge, reserve_refund, charged, book_charge, record_charge, book_refund,
  enter_refund, refund_guard, requested_refund,
}
use payment_gateway_in_rust.Payment.Commits.{run_tx-commits}
use payment_gateway_in_rust.Payment.Keys.{Among}
use payment_gateway_in_rust.Payment.Steps.{Reach, here, next, opens, charges, refunds}
use payment_gateway_in_rust.Payment.Safety.{
  IsFresh, refunds_within_capture, credits_equal_debits, key_names_one_payment,
}
use payment_gateway_in_rust.Payment.Examples.{fresh_world, payment_1, test_env, refund_request}

abbrev opening : Tx (Uuid × Bool)
opening = open_payment payment_1

abbrev charging : Tx Payment
charging = finish_charge test_env 1 7 automatic (pos 100) "stripe" "ch_1"

abbrev refunding : Tx Refund
refunding = reserve_refund test_env 1 7 refund_request

abbrev opened_world : World
opened_world = (run_tx opening fresh_world).1

abbrev charged_world : World
charged_world = (run_tx charging opened_world).1

abbrev refunded_world : World
refunded_world = (run_tx refunding charged_world).1

abbrev succeeded : {A : Type 0} → AppResult A → Bool
succeeded (ok a) = true
succeeded (err e) = false

committed :
    {A : Type 0} (m : Tx A) (w : World)
    → succeeded (m w) ≡ true
    → (a : A) × (m w ≡ ok (a, (run_tx m w).1))
committed {A} m w h = go (m w) refl h
  where
    go :
        (r : AppResult (A × World))
        → m w ≡ r
        → succeeded r ≡ true
        → (a : A) × (m w ≡ ok (a, (run_tx m w).1))
    go (ok (a, w')) e k = (a, e ∙ ap (λ t. ok (a, t.1)) (sym (run_tx-commits m w w' a e)))
    go (err x) e k = cc

opening-Succeeds : succeeded (opening fresh_world) ≡ true
unfolding open_payment insert_payment_idempotent ◌>>=◌ publish_payment
opening-Succeeds = refl

charging-Succeeds : succeeded (charging opened_world) ≡ true
unfolding open_payment insert_payment_idempotent ◌>>=◌ publish_payment finish_charge run_tx
    lock_payment_for_update update_payment_after_charge book_charge record_charge record_capture
    record_fee write_double_entry insert_entry walk charged
charging-Succeeds = refl

refunding-Succeeds : succeeded (refunding charged_world) ≡ true
unfolding open_payment insert_payment_idempotent ◌>>=◌ publish_payment publish_refund finish_charge
    run_tx lock_payment_for_update update_payment_after_charge book_charge record_charge
    record_capture record_fee write_double_entry insert_entry walk charged reserve_refund
    requested_refund refund_guard enter_refund insert_refund increment_refunded_amount book_refund
    record_refund can_refund wrap_i64 ◌-ℤ◌ ◌+ℤ◌
refunding-Succeeds = refl

fresh_world-IsFresh : IsFresh fresh_world
fresh_world-IsFresh = record { no_payments = refl; no_entries = refl }

-- Opened, charged, then refunded.
three_steps : Reach fresh_world refunded_world
three_steps =
    let o = committed opening fresh_world opening-Succeeds in
    let c = committed charging opened_world charging-Succeeds in
    let r = committed refunding charged_world refunding-Succeeds in
    next
      (next (next here (opens payment_1 o.0 refl o.1))
        (charges test_env 1 7 automatic (pos 100) "stripe" "ch_1" c.0 c.1))
      (refunds test_env 1 7 refund_request r.0 r.1)

abbrev refunded_1 : Payment
refunded_1 = record payment_1 {
  status = captured;
  acquirer_id = some "stripe";
  acquirer_reference = some "ch_1";
  captured_amount = some (pos 100);
  captured_at = some 20;
  refunded_amount = pos 40;
  updated_at = 20;
}

is_found : find_payment_by_id 1 7 refunded_world ≡ some refunded_1
unfolding open_payment insert_payment_idempotent ◌>>=◌ publish_payment publish_refund finish_charge
    run_tx lock_payment_for_update update_payment_after_charge book_charge record_charge
    record_capture record_fee write_double_entry insert_entry walk charged reserve_refund
    requested_refund refund_guard enter_refund insert_refund increment_refunded_amount book_refund
    record_refund can_refund find_payment_by_id wrap_i64 ◌-ℤ◌ ◌+ℤ◌
is_found = refl

is_stored : Among refunded_1 refunded_world.payments
unfolding open_payment insert_payment_idempotent ◌>>=◌ publish_payment publish_refund finish_charge
    run_tx lock_payment_for_update update_payment_after_charge book_charge record_charge
    record_capture record_fee write_double_entry insert_entry walk charged reserve_refund
    requested_refund refund_guard enter_refund insert_refund increment_refunded_amount book_refund
    record_refund can_refund wrap_i64 ◌-ℤ◌ ◌+ℤ◌
is_stored = inl refl

refunds_within_capture_example :
    (pos 0 ≤ℤ pos 40) × (pos 40 ≤ℤ pos 100) × (false ≡ true → pos 40 ≡ pos 0)
refunds_within_capture_example =
    refunds_within_capture fresh_world refunded_world fresh_world-IsFresh three_steps 1 7 refunded_1
      is_found

credits_equal_debits_example : balance (of_merchant 7) refunded_world.ledger_entries ≡ pos 0
credits_equal_debits_example =
    credits_equal_debits fresh_world refunded_world fresh_world-IsFresh three_steps 7

key_names_one_payment_example :
    (refunded_1 ≡ refunded_1) × (find_by_idempotency_key 7 "key-1" refunded_world ≡ some refunded_1)
key_names_one_payment_example =
    key_names_one_payment fresh_world refunded_world fresh_world-IsFresh three_steps 7 "key-1"
      refunded_1 refunded_1 is_stored is_stored (refl, refl) (refl, refl)
