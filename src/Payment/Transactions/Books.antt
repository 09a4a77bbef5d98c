-- ===== src/Payment/Transactions/Books.antt =====
-- Every transaction leaves the ledger's balances as they were.
use payment_gateway_in_rust.Prelude.{arith, String, refl, Option}
use payment_gateway_in_rust.Prelude.Int.{ℤ}
use payment_gateway_in_rust.Common.{
  Uuid, Text, Json, Payment, Refund, PaymentStatus, RefundStatus, CaptureMethod,
  CreateRefundRequest,
}
use payment_gateway_in_rust.Payment.World.{Env, new_uuid, modify, ◌>>=◌}
use payment_gateway_in_rust.Payment.Statements.{
  insert_payment_idempotent, existing_id, insert_row, lock_payment_for_update,
  update_payment_after_charge, update_payment_status, increment_refunded_amount,
  insert_outbox_event, insert_refund, update_refund_status,
}
use payment_gateway_in_rust.Payment.Effects.{Leaves, leaves_rules}
use payment_gateway_in_rust.Payment.Ledger.{record_capture, record_refund, record_fee}
use payment_gateway_in_rust.Payment.Ledger.Balance.{balances_of, balances-write_double_entry}
use payment_gateway_in_rust.Payment.External.{publish_payment, publish_refund}
use payment_gateway_in_rust.Payment.Orchestrator.{
  record_charge, open_payment, fail_payment, book_charge, finish_charge, book_capture,
  finish_capture, book_refund, enter_refund, reserve_refund, cancel,
}

balances-new_uuid : Leaves balances_of new_uuid
unfolding new_uuid
balances-new_uuid = record { at = λ w. refl }

balances-publish_payment :
    (p : Payment) (event_type topic : String)
    → Leaves balances_of (publish_payment p event_type topic)
unfolding publish_payment ◌>>=◌
balances-publish_payment p event_type topic = record { at = λ w. refl }

pub balances-publish_refund :
    (r : Refund) (event_type topic : String)
    → Leaves balances_of (publish_refund r event_type topic)
unfolding publish_refund ◌>>=◌
balances-publish_refund r event_type topic = record { at = λ w. refl }

balances-insert_outbox_event :
    (kind : String) (id : Uuid) (event_type : String) (payload : Json) (topic : String)
    → Leaves balances_of (insert_outbox_event kind id event_type payload topic)
unfolding insert_outbox_event modify
balances-insert_outbox_event kind id event_type payload topic = record { at = λ w. refl }

balances-insert_payment : (p : Payment) → Leaves balances_of (insert_payment_idempotent p)
unfolding insert_payment_idempotent insert_row existing_id ◌>>=◌
balances-insert_payment p = record { at = λ w. ground arith }

balances-lock : (i m : Uuid) → Leaves balances_of (lock_payment_for_update i m)
unfolding lock_payment_for_update ◌>>=◌
balances-lock i m = record { at = λ w. ground arith }

balances-after_charge : (p : Payment) → Leaves balances_of (update_payment_after_charge p)
unfolding update_payment_after_charge modify
balances-after_charge p = record { at = λ w. refl }

balances-status :
    (i : Uuid) (s : PaymentStatus) (code message : Option Text)
    → Leaves balances_of (update_payment_status i s code message)
unfolding update_payment_status modify
balances-status i s code message = record { at = λ w. refl }

balances-increment :
    (i : Uuid) (amount : ℤ) → Leaves balances_of (increment_refunded_amount i amount)
unfolding increment_refunded_amount ◌>>=◌
balances-increment i amount = record { at = λ w. ground arith }

balances-insert_refund : (r : Refund) → Leaves balances_of (insert_refund r)
unfolding insert_refund ◌>>=◌
balances-insert_refund r = record { at = λ w. ground arith }

pub balances-refund_status :
    (i : Uuid) (s : RefundStatus) (id : Option String) (reason : Option Text)
    → Leaves balances_of (update_refund_status i s id reason)
unfolding update_refund_status modify
balances-refund_status i s id reason = record { at = λ w. refl }

ruleset statement_rules = (
  leaves_rules, balances-new_uuid, balances-publish_payment, balances-publish_refund,
  balances-insert_outbox_event, balances-insert_payment, balances-lock, balances-after_charge,
  balances-status, balances-increment, balances-insert_refund, balances-write_double_entry,
)

balances-record_charge :
    (env : Env) (p : Payment) (base : ℤ) → Leaves balances_of (record_charge env p base)
unfolding record_charge record_capture record_fee
balances-record_charge env p base = search statement_rules depth 9

pub balances-open_payment : (p : Payment) → Leaves balances_of (open_payment p)
unfolding open_payment
balances-open_payment p = search statement_rules depth 9

pub balances-fail_payment :
    (i : Uuid) (code message : Text) (payload : Json)
    → Leaves balances_of (fail_payment i code message payload)
unfolding fail_payment
balances-fail_payment i code message payload = search statement_rules depth 9

pub balances-finish_charge :
    (env : Env) (i m : Uuid) (method : CaptureMethod) (amount : ℤ) (acquirer reference : String)
    → Leaves balances_of (finish_charge env i m method amount acquirer reference)
unfolding finish_charge book_charge
balances-finish_charge env i m method amount acquirer reference =
    search (statement_rules, balances-record_charge) depth 12

pub balances-finish_capture :
    (env : Env) (i m : Uuid) (amount : Option ℤ)
    → Leaves balances_of (finish_capture env i m amount)
unfolding finish_capture book_capture
balances-finish_capture env i m amount = search (statement_rules, balances-record_charge) depth 12

pub balances-reserve_refund :
    (env : Env) (i m : Uuid) (req : CreateRefundRequest)
    → Leaves balances_of (reserve_refund env i m req)
unfolding reserve_refund enter_refund book_refund record_refund
balances-reserve_refund env i m req = search statement_rules depth 12

pub balances-cancel : (i m : Uuid) → Leaves balances_of (cancel i m)
unfolding cancel
balances-cancel i m = search statement_rules depth 9
