-- ===== src/Payment/Examples/Cases.antt =====
-- The theorems on single operations at concrete requests and replies.
use payment_gateway_in_rust.Prelude.{
  ◌<◌, ◌≡◌, refl, inl, inr, true, none, some, List, [], ◌∷◌, arith, ◌+◌, ◌≤◌,
}
use payment_gateway_in_rust.Prelude.Int.{ℤ, pos_part, pos, ◌-ℤ◌}
use payment_gateway_in_rust.Common.{
  Payment, is_terminal, PaymentStatus, created, pending, authorized, captured, settled, disputed,
  cancelled, automatic, ok, err, lit, inr as rupees, acquirer_unavailable, invalid_state_transition,
}
use payment_gateway_in_rust.Payment.World.{World, charge}
use payment_gateway_in_rust.Payment.External.{acquirer_refund, charge_via_acquirer, quiet, Exchange}
use payment_gateway_in_rust.Payment.Statements.{find_payment_by_id}
use payment_gateway_in_rust.Payment.Rows.{IsSolvent}
use payment_gateway_in_rust.Payment.StateMachine.{new, walk}
use payment_gateway_in_rust.Payment.Lifecycle.{walk-raises}
use payment_gateway_in_rust.Payment.Replay.{create_payment-replays}
use payment_gateway_in_rust.Payment.Orchestrator.{
  finish_charge, finish_capture, reserve_refund, cancel, refund_guard,
}
use payment_gateway_in_rust.Payment.Orchestrator.Operations.{
  create_payment, create_refund, charge_payment,
}
use payment_gateway_in_rust.Payment.Commits.{CanPost, Succeeds}
use payment_gateway_in_rust.Payment.Outcomes.{
  Stores, charge_row, capture_row, finish_charge-commits, finish_capture-commits,
}
use payment_gateway_in_rust.Payment.Refunds.{
  IsRefundable, IsRequested, RaisesTotal, reserve_refund-commits,
}
use payment_gateway_in_rust.Payment.Refunds.Failures.{
  repeated_key-refunds_again, LeftRaised, failed_refund-keeps_total,
}
use payment_gateway_in_rust.Payment.Unposted.{Fails, postings-Fail}
use payment_gateway_in_rust.Payment.Refusals.{
  refused, late_charge-unrecorded, cancel-commits, CancelsTo,
}
use payment_gateway_in_rust.Payment.Examples.{
  tables, payment_1, authorized_1, captured_1, cancelled_1, test_env, json_access, request,
  refund_request, first_refund, down, accepted,
}

create_payment-replays_example :
    create_payment test_env
      (quiet down)
      (quiet accepted)
      7
      request
      (some "key-1")
      (tables (captured_1 ∷ []))
    ≡ (ok captured_1, record (tables (captured_1 ∷ [])) { next_id = 51 })
create_payment-replays_example =
    create_payment-replays test_env (quiet down) (quiet accepted) 7 request "key-1"
      (tables (captured_1 ∷ [])) captured_1 (refl, tt) (ground arith) refl

can_post : (p : Payment) (amount : ℤ) → pos_part amount < 1000 → CanPost 7 amount (tables (p ∷ []))
can_post p amount h = record { deferred = refl; merchant = refl; room = omega (arith, h) }

finish_charge-commits_example :
    Succeeds
      (Stores 1 7
        (charge_row payment_1 automatic (pos 100) "stripe" "ch_1" 20)
        (tables (payment_1 ∷ [])))
      (finish_charge test_env 1 7 automatic (pos 100) "stripe" "ch_1" (tables (payment_1 ∷ [])))
finish_charge-commits_example =
    finish_charge-commits test_env 1 7 automatic (pos 100) "stripe" "ch_1" (tables (payment_1 ∷ []))
      payment_1 (λ e. can_post payment_1 (pos 100) (ground arith)) refl refl (λ e. ground arith)

finish_capture-commits_example :
    Succeeds
      (Stores 1 7 (capture_row authorized_1 (pos 250) 20) (tables (authorized_1 ∷ [])))
      (finish_capture test_env 1 7 (some (pos 250)) (tables (authorized_1 ∷ [])))
finish_capture-commits_example =
    finish_capture-commits test_env 1 7 (some (pos 250)) (tables (authorized_1 ∷ [])) authorized_1
      (can_post authorized_1 (pos 250) (ground arith)) refl refl (ground arith)

captured_1-IsSolvent : IsSolvent captured_1
captured_1-IsSolvent = record {
  nonneg = ground arith;
  within = ground arith;
  untouched = λ o. refl;
}

captured_1-IsRefundable : IsRefundable captured_1 (pos 40)
unfolding ◌-ℤ◌
captured_1-IsRefundable = record {
  solvent = captured_1-IsSolvent;
  range = ground arith;
  status = refl;
  positive = ground arith;
  left = ground arith;
}

reserve_refund-commits_example :
    Succeeds
      (λ r w'.
        IsRequested 1 7 captured_1 refund_request r
        × RaisesTotal 1 7 captured_1 (pos 40) (tables (captured_1 ∷ [])) w')
      (reserve_refund test_env 1 7 refund_request (tables (captured_1 ∷ [])))
reserve_refund-commits_example =
    reserve_refund-commits test_env 1 7 refund_request (tables (captured_1 ∷ [])) captured_1
      (can_post captured_1 (pos 40) (ground arith)) refl captured_1-IsRefundable

abbrev refunded_once : World
refunded_once = record (tables (captured_1 ∷ [])) { refunds = first_refund ∷ [] }

repeated_key-refunds_again_example :
    Succeeds
      (λ r w'.
        (IsRequested 1 7 captured_1 refund_request r
          × RaisesTotal 1 7 captured_1 (pos 40) refunded_once w')
        × (w'.refunds ≡ first_refund ∷ []))
      (reserve_refund test_env 1 7 refund_request refunded_once)
repeated_key-refunds_again_example =
    repeated_key-refunds_again test_env 1 7 refund_request refunded_once captured_1 first_refund
      (record { deferred = refl; merchant = refl; room = ground arith }) refl
      captured_1-IsRefundable refl

down_refuses :
    acquirer_refund json_access down ≡ err (acquirer_unavailable (lit "connection refused" ∷ []))
unfolding acquirer_refund
down_refuses = refl

failed_refund-keeps_total_example :
    LeftRaised 1 7 captured_1
      (pos 40)
      (acquirer_unavailable (lit "connection refused" ∷ []))
      (tables (captured_1 ∷ []))
      (create_refund test_env (quiet down) 1 7 refund_request (tables (captured_1 ∷ [])))
failed_refund-keeps_total_example =
    failed_refund-keeps_total test_env down 1 7 refund_request (tables (captured_1 ∷ [])) captured_1
      (acquirer_unavailable (lit "connection refused" ∷ []))
      (can_post captured_1 (pos 40) (ground arith)) refl captured_1-IsRefundable down_refuses

captured_1-found : find_payment_by_id 1 7 (tables (captured_1 ∷ [])) ≡ some captured_1
unfolding find_payment_by_id
captured_1-found = refl

authorized_1-found : find_payment_by_id 1 7 (tables (authorized_1 ∷ [])) ≡ some authorized_1
unfolding find_payment_by_id
authorized_1-found = refl

cancelled_1-found :
    find_payment_by_id 1 7
      (record (tables (cancelled_1 ∷ [])) { calls = charge 1 (pos 100) true ∷ [] })
    ≡ some cancelled_1
unfolding find_payment_by_id
cancelled_1-found = refl

authorized_1-guarded :
    refund_guard authorized_1 (pos 40)
    ≡ err (invalid_state_transition (lit "Authorized" ∷ []) (lit "Refund" ∷ []))
unfolding refund_guard
authorized_1-guarded = refl

charge_accepted : charge_via_acquirer json_access accepted ≡ ok ("stripe", "ch_1")
unfolding charge_via_acquirer
charge_accepted = refl

charge_walk : walk (new created) (pending ∷ authorized ∷ captured ∷ []) ≡ ok captured
unfolding walk
charge_walk = refl

dispute_walk : walk (new settled) (disputed ∷ []) ≡ ok disputed
unfolding walk
dispute_walk = refl

-- The payment is cancelled while the acquirer charges it.
abbrev cancelled_meanwhile : Exchange
cancelled_meanwhile = record {
  reply = accepted;
  others = λ w. record w { payments = cancelled_1 ∷ [] };
}

late_charge-unrecorded_example :
    charge_payment test_env cancelled_meanwhile payment_1 (tables (payment_1 ∷ [])) ≡ (
      err (refused cancelled pending),
      record (tables (cancelled_1 ∷ [])) { calls = charge 1 (pos 100) true ∷ [] },
    )
late_charge-unrecorded_example =
    late_charge-unrecorded test_env cancelled_meanwhile payment_1 cancelled_1
      (tables (payment_1 ∷ [])) "stripe" "ch_1" charge_accepted cancelled_1-found
      (λ e. ground (arith, e))

cancel-commits_example :
    Succeeds
      (CancelsTo 1 7 authorized_1 (tables (authorized_1 ∷ [])))
      (cancel 1 7 (tables (authorized_1 ∷ [])))
cancel-commits_example =
    cancel-commits 1 7 (tables (authorized_1 ∷ [])) authorized_1 refl (inr (inl refl))

walk-raises_example : 0 + 3 ≤ 4
walk-raises_example =
    walk-raises created captured (pending ∷ authorized ∷ captured ∷ []) charge_walk

settled_is_terminal : is_terminal settled ≡ true
unfolding is_terminal
settled_is_terminal = refl

abbrev no_more : List PaymentStatus
no_more = []

abbrev as_migrated : World
as_migrated = record (tables (payment_1 ∷ [])) { immediate_reference = true }

postings-Fail_example :
    Fails (finish_charge test_env 1 7 automatic (pos 100) "stripe" "ch_1" as_migrated)
    × Fails (finish_capture test_env 1 7 none as_migrated)
    × Fails (reserve_refund test_env 1 7 refund_request as_migrated)
postings-Fail_example =
    postings-Fail test_env 1 7 (pos 100) "stripe" "ch_1" none refund_request as_migrated refl tt
