-- ===== src/Payment/Frames.antt =====
-- Which tables the statements leave alone.
use payment_gateway_in_rust.Prelude.{String, refl, Option, List}
use payment_gateway_in_rust.Prelude.Int.{ℤ}
use payment_gateway_in_rust.Common.{Uuid, Text, Payment, Refund, Currency, LedgerEntry}
use payment_gateway_in_rust.Payment.World.{World, Env, modify, ◌>>=◌}
use payment_gateway_in_rust.Payment.Ledger.{
  insert_entry, write_double_entry, record_capture, record_fee, record_refund,
}
use payment_gateway_in_rust.Payment.External.{publish_payment, publish_refund}
use payment_gateway_in_rust.Payment.Orchestrator.{record_charge}
use payment_gateway_in_rust.Payment.Effects.{
  Leaves, payments_of, entries_of, payments-new_uuid, leaves_rules,
}

pub payments-publish_payment :
    (p : Payment) (event_type topic : String)
    → Leaves payments_of (publish_payment p event_type topic)
unfolding publish_payment ◌>>=◌
payments-publish_payment p event_type topic = record { at = λ w. refl }

pub entries-publish_payment :
    (p : Payment) (event_type topic : String)
    → Leaves entries_of (publish_payment p event_type topic)
unfolding publish_payment ◌>>=◌
entries-publish_payment p event_type topic = record { at = λ w. refl }

pub payments-publish_refund :
    (r : Refund) (event_type topic : String)
    → Leaves payments_of (publish_refund r event_type topic)
unfolding publish_refund ◌>>=◌
payments-publish_refund r event_type topic = record { at = λ w. refl }

pub entries-publish_refund :
    (r : Refund) (event_type topic : String) → Leaves entries_of (publish_refund r event_type topic)
unfolding publish_refund ◌>>=◌
entries-publish_refund r event_type topic = record { at = λ w. refl }

payments-modify_entries :
    (f : World → List LedgerEntry)
    → Leaves payments_of (modify (λ w. record w { ledger_entries = f w }))
unfolding modify
payments-modify_entries f = record { at = λ w. refl }

ruleset payments_rules = (leaves_rules, payments-new_uuid, payments-modify_entries)

payments-insert_entry : (e : LedgerEntry) → Leaves payments_of (insert_entry e)
unfolding insert_entry
payments-insert_entry e = search payments_rules depth 9

pub payments-write_double_entry :
    (env : Env) (payment_id merchant_id : Uuid) (currency : Currency) (amount : ℤ)
    (debit_account credit_account : Uuid) (description : Text) (notes : Option String)
    → Leaves payments_of (
        write_double_entry env payment_id merchant_id currency amount debit_account credit_account
          description notes)
unfolding write_double_entry
payments-write_double_entry env payment_id merchant_id currency amount debit_account credit_account
      description notes =
    search (payments_rules, payments-insert_entry) depth 12

pub payments-record_charge :
    (env : Env) (p : Payment) (base : ℤ) → Leaves payments_of (record_charge env p base)
unfolding record_charge record_capture record_fee
payments-record_charge env p base = search (payments_rules, payments-write_double_entry) depth 9

pub payments-record_refund : (env : Env) (r : Refund) → Leaves payments_of (record_refund env r)
unfolding record_refund
payments-record_refund env r = search payments-write_double_entry
