-- ===== src/Payment/Transactions/Positive.antt =====
-- crates/payment-service/src/orchestrator.rs: the sign of the amounts that charges and captures
-- commit, which the constraint on the ledger decides.
use payment_gateway_in_rust.Prelude.{◌≡◌, false, true, List, [], ◌∷◌}
use payment_gateway_in_rust.Prelude.Int.{ℤ, pos, ◌<ℤ◌}
use payment_gateway_in_rust.Common.{
  Uuid, LedgerEntry, Payment, due_amount, CaptureMethod, automatic, manual, is_automatic,
}
use payment_gateway_in_rust.Payment.World.{World, Env}
use payment_gateway_in_rust.Payment.Ledger.{record_capture}
use payment_gateway_in_rust.Payment.Ledger.Pairs.{Posts, write_double_entry-Posts}
use payment_gateway_in_rust.Payment.Effects.{Returns, Returns-map, Returns-ok, Returns-const}
use payment_gateway_in_rust.Payment.Effects.Triples.{Returns-bind}
use payment_gateway_in_rust.Payment.Orchestrator.{record_charge, book_charge, book_capture}

Posts-positive :
    (env : Env) (payment_id merchant_id : Uuid) (amount : ℤ) (debit_account credit_account : Uuid)
    (w : World) (es : List LedgerEntry)
    → Posts env payment_id merchant_id amount debit_account credit_account w es
    → pos 0 <ℤ amount
Posts-positive env payment_id merchant_id amount debit_account credit_account w (c ∷ d ∷ es) h =
    h.1.positive
Posts-positive env payment_id merchant_id amount debit_account credit_account w (c ∷ []) h =
    absurd h
Posts-positive env payment_id merchant_id amount debit_account credit_account w [] h = absurd h

record_capture-positive :
    (env : Env) (p : Payment) (w : World)
    → Returns (λ _ _. pos 0 <ℤ due_amount p) (record_capture env p w)
unfolding record_capture
record_capture-positive env p w =
    Returns-map _ _ _
      (λ _ w'. Posts-positive env p.id p.merchant_id (due_amount p) _ _ w w'.ledger_entries)
      (write_double_entry-Posts env p.id p.merchant_id p.currency (due_amount p) _ _ _ _ w)

record_charge-positive :
    (env : Env) (p : Payment) (base : ℤ) (w : World)
    → Returns (λ _ _. pos 0 <ℤ due_amount p) (record_charge env p base w)
unfolding record_charge
record_charge-positive env p base w =
    Returns-bind (λ _ _. pos 0 <ℤ due_amount p) (record_capture env p) _ w
      λ a w' e.
        Returns-const _ _
          (Returns-ok (λ _ _. pos 0 <ℤ due_amount p) _ (record_capture-positive env p w) e)

book_automatic-positive :
    (env : Env) (p : Payment) (w : World)
    → Returns (λ _ _. pos 0 <ℤ due_amount p) (book_charge env automatic p w)
unfolding book_charge
book_automatic-positive env p w =
    Returns-bind (λ _ _. pos 0 <ℤ due_amount p) (record_charge env p p.amount) _ w
      λ a w' e.
        Returns-const _ _
          (Returns-ok (λ _ _. pos 0 <ℤ due_amount p) _ (record_charge-positive env p p.amount w) e)

pub book_charge-positive :
    (env : Env) (method : CaptureMethod) (p : Payment) (w : World)
    → Returns
        (λ _ _. is_automatic method ≡ true → pos 0 <ℤ due_amount p)
        (book_charge env method p w)
book_charge-positive env automatic p w =
    Returns-map (λ _ _. pos 0 <ℤ due_amount p) (λ _ _. true ≡ true → pos 0 <ℤ due_amount p) _
      (λ _ _ h _. h) (book_automatic-positive env p w)
book_charge-positive env manual p w =
    Returns-const (false ≡ true → pos 0 <ℤ due_amount p) (book_charge env manual p w) (λ e. cc)

pub book_capture-positive :
    (env : Env) (p : Payment) (w : World)
    → Returns (λ _ _. pos 0 <ℤ due_amount p) (book_capture env p w)
unfolding book_capture
book_capture-positive env p w =
    Returns-bind (λ _ _. pos 0 <ℤ due_amount p) (record_charge env p (due_amount p)) _ w
      λ a w' e. Returns-const _ _ (
        Returns-ok (λ _ _. pos 0 <ℤ due_amount p) _ (record_charge-positive env p (due_amount p) w)
          e)
