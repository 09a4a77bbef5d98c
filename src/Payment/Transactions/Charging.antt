-- ===== src/Payment/Transactions/Charging.antt =====
-- The charge, the capture and the cancellation: each rewrites the row that it has locked.
use payment_gateway_in_rust.Prelude.{
  ◌≡◌, ◌⊎◌, String, true, Option, none, some, List, arith, find, update_where, get_or,
}
use payment_gateway_in_rust.Prelude.Int.{ℤ, pos, ◌<ℤ◌}
use payment_gateway_in_rust.Common.{
  Uuid, Timestamp, Payment, due_amount, PaymentStatus, created, authorized, captured, cancelled,
  requires_action, CaptureMethod, automatic, manual, is_automatic, ok,
}
use payment_gateway_in_rust.Payment.World.{World, Env, pure, ◌>>◌}
use payment_gateway_in_rust.Payment.Statements.{
  owned_by, has_id, set_charge, set_status, update_payment_after_charge, update_payment_status,
}
use payment_gateway_in_rust.Payment.StateMachine.{new, walk, transition}
use payment_gateway_in_rust.Payment.Effects.{
  Returns, Returns-map, Returns-and, Leaves, payments_of, leaves_rules,
}
use payment_gateway_in_rust.Payment.Effects.Triples.{
  Returns-lock, Returns-lift, Returns-gets, Returns-modify, Returns-Leaves,
}
use payment_gateway_in_rust.Payment.Transactions.Positive.{
  book_charge-positive, book_capture-positive,
}
use payment_gateway_in_rust.Payment.External.{publish_payment}
use payment_gateway_in_rust.Payment.Frames.{payments-publish_payment, payments-record_charge}
use payment_gateway_in_rust.Payment.Orchestrator.{
  charge_path, finish_charge, finish_capture, book_charge, book_capture, cancel, charged,
}

ruleset book_rules = (leaves_rules, payments-publish_payment, payments-record_charge)

pub payments-book_charge :
    (env : Env) (method : CaptureMethod) (p : Payment)
    → Leaves payments_of (book_charge env method p)
unfolding book_charge
payments-book_charge env method p = search book_rules depth 9

payments-announce :
    (p : Payment) (event_type topic : String)
    → Leaves payments_of (publish_payment p event_type topic >> pure p)
payments-announce p event_type topic = search book_rules

pub payments-book_capture : (env : Env) (p : Payment) → Leaves payments_of (book_capture env p)
unfolding book_capture
payments-book_capture env p = search book_rules depth 9

-- Only from `created` does the machine go the way of a charge.
pub walk-charge_path :
    (method : CaptureMethod) (s t : PaymentStatus)
    → walk (new s) (charge_path method) ≡ ok t
    → s ≡ created
unfolding walk
walk-charge_path automatic s t h = ground arith
walk-charge_path manual s t h = ground arith

-- One row was rewritten: the one of this identifier and merchant, which met the condition.
pub record Rewritten (i m : Uuid) (was : Payment → Type 0) (f : Payment → Payment)
    (before after : List Payment) : Type 0 where
  pub row : Payment
  pub found : find (owned_by i m) before ≡ some row
  pub condition : was row
  pub rewritten : after ≡ update_where (has_id i) f before

-- What an accepted charge does to the rows: a `created` one becomes what `charged` makes of it,
-- and what is captured at once is positive.
abbrev pub ChargesRow :
    (i m : Uuid) (method : CaptureMethod) (amount : ℤ) (acquirer reference : String)
    → World
    → World
    → Type 0
ChargesRow i m method amount acquirer reference w w' =
    (q : Payment) × (find (owned_by i m) w.payments ≡ some q)
    × (q.status ≡ created)
    × (is_automatic method ≡ true → pos 0 <ℤ amount)
    × (w'.payments
        ≡ update_where (has_id q.id)
            (set_charge (charged q method amount acquirer reference w.now) w.now) w.payments)

due-charged :
    (q : Payment) (method : CaptureMethod) (amount : ℤ) (acquirer reference : String)
    (now : Timestamp)
    → (is_automatic method ≡ true
        → pos 0 <ℤ due_amount (charged q method amount acquirer reference now))
    → is_automatic method ≡ true
    → pos 0 <ℤ amount
unfolding charged
due-charged q automatic amount acquirer reference now h e = h e
due-charged q manual amount acquirer reference now h e = cc

pub finish_charge-ChargesRow :
    (env : Env) (i m : Uuid) (method : CaptureMethod) (amount : ℤ) (acquirer reference : String)
    (w : World)
    → Returns
        (λ _ w'. ChargesRow i m method amount acquirer reference w w')
        (finish_charge env i m method amount acquirer reference w)
unfolding finish_charge update_payment_after_charge charged
finish_charge-ChargesRow env i m method amount acquirer reference w = Returns-lock Q i m _ w λ q e.
    Returns-lift Q _ _ w λ t good.
      let p = charged q method amount acquirer reference w.now in
      let w1 : World = record w {
        payments = update_where (has_id q.id) (set_charge p w.now) w.payments;
      } in
      Returns-gets Q _ _ w (
        Returns-modify Q _ _ w (
          Returns-map _ Q (book_charge env method p w1)
            (λ _ w' h. (
              q,
              e,
              walk-charge_path method q.status t good,
              due-charged q method amount acquirer reference w.now h.1,
              h.0,
            ))
            (Returns-and (λ _ w'. w'.payments ≡ w1.payments)
              (λ _ _. is_automatic method ≡ true → pos 0 <ℤ due_amount p)
              (book_charge env method p w1) ((payments-book_charge env method p).at w1)
              (book_charge-positive env method p w1))))
  where
    Q : Payment → World → Type 0
    Q _ w' = ChargesRow i m method amount acquirer reference w w'

-- The payment that a capture writes.
abbrev pub with_capture : Payment → Option ℤ → Timestamp → Payment
with_capture q amount now = record q {
  status = captured;
  captured_at = some now;
  captured_amount = some (get_or amount q.amount);
  updated_at = now;
}

-- What a capture does to the rows: an `authorized` one is captured, and for a positive amount.
abbrev pub CapturesRow : (i m : Uuid) (amount : Option ℤ) → World → World → Type 0
CapturesRow i m amount w w' =
    (q : Payment) × (find (owned_by i m) w.payments ≡ some q)
    × (q.status ≡ authorized)
    × (pos 0 <ℤ get_or amount q.amount)
    × (w'.payments
        ≡ update_where (has_id q.id) (set_charge (with_capture q amount w.now) w.now) w.payments)

transition-captured :
    (s t : PaymentStatus)
    → (transition (new s) captured).0 ≡ ok t
    → (s ≡ authorized) × (t ≡ captured)
unfolding transition
transition-captured s t h = ground arith

pub finish_capture-CapturesRow :
    (env : Env) (i m : Uuid) (amount : Option ℤ) (w : World)
    → Returns (λ _ w'. CapturesRow i m amount w w') (finish_capture env i m amount w)
unfolding finish_capture update_payment_after_charge
finish_capture-CapturesRow env i m amount w = Returns-lock Q i m _ w λ q e.
    Returns-lift Q _ _ w λ t good.
      let step = transition-captured q.status t good in
      let p : Payment = record (with_capture q amount w.now) { status = t } in
      let w1 : World = record w {
        payments = update_where (has_id q.id) (set_charge p w.now) w.payments;
      } in
      Returns-gets Q _ _ w (
        Returns-modify Q _ _ w (
          Returns-map _ Q (book_capture env p w1) (λ _ w' h. (q, e, step.0, h.1, rw (← step.1) h.0))
            (Returns-and (λ _ w'. w'.payments ≡ w1.payments) (λ _ _. pos 0 <ℤ due_amount p)
              (book_capture env p w1) ((payments-book_capture env p).at w1)
              (book_capture-positive env p w1))))
  where
    Q : Payment → World → Type 0
    Q _ w' = CapturesRow i m amount w w'

-- What a cancellation does to the rows.
abbrev pub CancelsRow : (i m : Uuid) → World → World → Type 0
CancelsRow i m w w' =
    (q : Payment) × (find (owned_by i m) w.payments ≡ some q)
    × ((q.status ≡ created) ⊎ (q.status ≡ authorized) ⊎ (q.status ≡ requires_action))
    × (w'.payments ≡ update_where (has_id q.id) (set_status cancelled none none w.now) w.payments)

transition-cancelled :
    (s t : PaymentStatus)
    → (transition (new s) cancelled).0 ≡ ok t
    → (s ≡ created) ⊎ (s ≡ authorized) ⊎ (s ≡ requires_action)
unfolding transition
transition-cancelled s t h = ground arith

pub cancel-CancelsRow :
    (i m : Uuid) (w : World) → Returns (λ _ w'. CancelsRow i m w w') (cancel i m w)
unfolding cancel update_payment_status
cancel-CancelsRow i m w = Returns-lock Q i m _ w λ q e. Returns-lift Q _ _ w λ t good.
    Returns-gets Q _ _ w (
      Returns-modify Q _ _ w (
        Returns-Leaves Q payments_of _ _ (payments-announce _ _ _)
          λ _ w' same. (q, e, transition-cancelled q.status t good, same)))
  where
    Q : Payment → World → Type 0
    Q _ w' = CancelsRow i m w w'
