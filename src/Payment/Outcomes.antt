-- ===== src/Payment/Outcomes.antt =====
-- The transactions that commit, and what they then have done.
use payment_gateway_in_rust.Prelude.{
  ℕ, ◌+◌, ◌*◌, ◌<◌, ◌≡◌, ◌≢◌, ◌∙◌, ap, subst, refl, ==_iff, find-update, String, Option, some, find,
  true, arith, get_or, update_where, if◌then◌else◌,
}
use payment_gateway_in_rust.Prelude.Int.{ℤ, pos, pos_part, ◌<ℤ◌}
use payment_gateway_in_rust.Common.{
  Uuid, Timestamp, Payment, PaymentStatus, created, authorized, captured, CaptureMethod, automatic,
  manual, is_automatic, ok, due_amount,
}
use payment_gateway_in_rust.Payment.World.{World, Env, ◌>>◌, pure, modify, gets}
use payment_gateway_in_rust.Payment.Statements.{
  set_charge, owned_by, has_id, update_payment_after_charge,
}
use payment_gateway_in_rust.Payment.Rows.{
  found-has_id, find-untouched, update-keeps_id, owned-stored,
}
use payment_gateway_in_rust.Payment.StateMachine.{new, walk, transition}
use payment_gateway_in_rust.Payment.External.{publish_payment}
use payment_gateway_in_rust.Payment.Orchestrator.{
  charge_path, charged, finish_charge, finish_capture, book_charge, book_capture, record_charge,
}
use payment_gateway_in_rust.Payment.Transactions.Charging.{
  ChargesRow, CapturesRow, finish_charge-ChargesRow, finish_capture-CapturesRow, with_capture,
}
use payment_gateway_in_rust.Payment.Ledger.Balance.{volume}
use payment_gateway_in_rust.Payment.Commits.{
  Succeeds-step, lock-found, lift-ok, Succeeds, Succeeds-map, Succeeds-and, Succeeds-bind, Any,
  Accepts, CanPost, record_charge-Succeeds, publish_payment-Succeeds,
}

charge_path-walks :
    (method : CaptureMethod) (s : PaymentStatus)
    → s ≡ created
    → walk (new s) (charge_path method) ≡ ok (if is_automatic method then captured else authorized)
unfolding walk
charge_path-walks automatic s e = ground arith
charge_path-walks manual s e = ground arith

announce-Succeeds :
    (p : Payment) (event topic1 topic2 : String) (w : World)
    → Succeeds
        (λ q w'. q ≡ p)
        ((publish_payment p event topic1 >> (publish_payment p event topic2 >> pure p)) w)
unfolding pure
announce-Succeeds p event topic1 topic2 w =
    Succeeds-bind Any _ _ _ w (publish_payment-Succeeds p event topic1 w) λ _ w1 _.
      Succeeds-bind Any _ _ _ w1 (publish_payment-Succeeds p event topic2 w1) λ _ w2 _. refl

book_charge-Succeeds :
    (env : Env) (method : CaptureMethod) (p : Payment) (room : ℕ) (w : World)
    → (is_automatic method ≡ true → Accepts p.id p.merchant_id room w)
    → (is_automatic method ≡ true → room + 2 * pos_part (due_amount p) < 9223372036854775808)
    → (is_automatic method ≡ true → pos 0 <ℤ due_amount p)
    → Succeeds (λ q w'. q ≡ p) (book_charge env method p w)
unfolding book_charge pure
book_charge-Succeeds env automatic p room w a small h =
    Succeeds-bind Any _ (record_charge env p p.amount) _ w
      (record_charge-Succeeds env p p.amount room w (a refl) (small refl) (h refl))
      λ _ w1 _. announce-Succeeds p _ _ _ w1
book_charge-Succeeds env manual p room w a small h =
    Succeeds-bind Any _ (pure tt) _ w tt λ _ w1 _. announce-Succeeds p _ _ _ w1

-- Rewriting a stored payment leaves its entries postable.
charge-Accepts :
    (i m : Uuid) (amount : ℤ) (w : World) (q p : Payment)
    → find (owned_by i m) w.payments ≡ some q
    → CanPost m amount w
    → Accepts q.id q.merchant_id
        (volume w.ledger_entries)
        (record w { payments = update_where (has_id q.id) (set_charge p w.now) w.payments })
charge-Accepts i m amount w q p e k =
    let owner = found-has_id i m w.payments e in
    (
      k.deferred,
      rw owner.0 (
          update-keeps_id i (has_id i) (set_charge p w.now) w.payments (λ x. refl)
          ∙ owned-stored i m w.payments e),
      rw owner.1 k.merchant,
      omega arith,
    )

charged-Accepts :
    (q : Payment) (method : CaptureMethod) (amount : ℤ) (acquirer reference : String)
    (now : Timestamp) (room : ℕ) (w : World)
    → (is_automatic method ≡ true → Accepts q.id q.merchant_id room w)
    → (is_automatic method ≡ true → room + 2 * pos_part amount < 9223372036854775808)
    → let p = charged q method amount acquirer reference now in
      (is_automatic method ≡ true → Accepts p.id p.merchant_id room w)
      × (is_automatic method ≡ true → room + 2 * pos_part (due_amount p) < 9223372036854775808)
unfolding charged
charged-Accepts q automatic amount acquirer reference now room w a small = (a, small)
charged-Accepts q manual amount acquirer reference now room w a small = (a, λ e. cc)

due :
    (q : Payment) (method : CaptureMethod) (amount : ℤ) (acquirer reference : String)
    (now : Timestamp)
    → (is_automatic method ≡ true → pos 0 <ℤ amount)
    → is_automatic method ≡ true
    → pos 0 <ℤ due_amount (charged q method amount acquirer reference now)
unfolding charged
due q automatic amount acquirer reference now h e = h e
due q manual amount acquirer reference now h e = cc

finish_charge-Succeeds :
    (env : Env) (i m : Uuid) (method : CaptureMethod) (amount : ℤ) (acquirer reference : String)
    (w : World) (q : Payment)
    → (is_automatic method ≡ true → CanPost m amount w)
    → find (owned_by i m) w.payments ≡ some q
    → q.status ≡ created
    → (is_automatic method ≡ true → pos 0 <ℤ amount)
    → Succeeds
        (λ p _. p ≡ charged q method amount acquirer reference w.now)
        (finish_charge env i m method amount acquirer reference w)
unfolding finish_charge update_payment_after_charge modify gets charged
finish_charge-Succeeds env i m method amount acquirer reference w q d e s h =
    Succeeds-step Q _ _ w w q (lock-found i m w q e) (
      Succeeds-step Q _ _ w w _ (lift-ok _ _ w (charge_path-walks method q.status s)) (
        Succeeds-step Q _ _ w w w.now refl (
          Succeeds-step Q _ _ w w1 tt refl (
            book_charge-Succeeds env method p (volume w.ledger_entries) w1 ready.0 ready.1
              (due q method amount acquirer reference w.now h)))))
  where
    Q : Payment → World → Type 0
    Q p _ = p ≡ charged q method amount acquirer reference w.now

    p : Payment
    p = charged q method amount acquirer reference w.now

    w1 : World
    w1 = record w { payments = update_where (has_id p.id) (set_charge p w.now) w.payments }

    ready :
        (is_automatic method ≡ true → Accepts p.id p.merchant_id (volume w.ledger_entries) w1)
        × (is_automatic method ≡ true
            → volume w.ledger_entries + 2 * pos_part (due_amount p) < 9223372036854775808)
    ready =
        charged-Accepts q method amount acquirer reference w.now (volume w.ledger_entries) w1
          (λ x. charge-Accepts i m amount w q p e (d x)) (λ x. (d x).room)

-- The row after a charge of this amount that the acquirer accepted.
abbrev pub charge_row :
    Payment → CaptureMethod → (amount : ℤ) (acquirer reference : String) → Timestamp → Payment
charge_row q automatic amount acquirer reference now = record q {
  status = captured;
  captured_amount = some amount;
  captured_at = some now;
  acquirer_id = some acquirer;
  acquirer_reference = some reference;
  updated_at = now;
}
charge_row q manual amount acquirer reference now = record q {
  status = authorized;
  acquirer_id = some acquirer;
  acquirer_reference = some reference;
  updated_at = now;
}

charged-row :
    (q : Payment) (method : CaptureMethod) (amount : ℤ) (acquirer reference : String)
    (now : Timestamp)
    → charged q method amount acquirer reference now
      ≡ charge_row q method amount acquirer reference now
unfolding charged
charged-row q automatic amount acquirer reference now = refl
charged-row q manual amount acquirer reference now = refl

-- The payment is returned so, is found so, and no row of another identifier is changed.
abbrev pub Stores : (i m : Uuid) (r : Payment) → World → Payment → World → Type 0
Stores i m r w p w' =
    (p ≡ r)
    × (find (owned_by i m) w'.payments ≡ some r)
    × ((j : Uuid) → j ≢ i → find (has_id j) w'.payments ≡ find (has_id j) w.payments)

stored :
    (i m : Uuid) (p r q : Payment) (w w' : World)
    → find (owned_by i m) w.payments ≡ some q
    → p ≡ r
    → set_charge r w.now q ≡ r
    → w'.payments ≡ update_where (has_id q.id) (set_charge r w.now) w.payments
    → Stores i m r w p w'
stored i m p r q w w' e same whole rows =
    let owner = found-has_id i m w.payments e in
    (
      same,
      rw rows (
          find-update (owned_by i m) (has_id q.id) (set_charge r w.now) q w.payments (λ _. refl) e
            ((==_iff q.id q.id).1 refl)
          ∙ ap some whole),
      λ j other. rw rows (
          find-untouched j (has_id q.id) (set_charge r w.now) w.payments
            λ x hit. (ground (arith, owner.0, other, hit), refl)),
    )

ChargesRow-Stores :
    (i m : Uuid) (method : CaptureMethod) (amount : ℤ) (acquirer reference : String) (w w' : World)
    (q p : Payment)
    → find (owned_by i m) w.payments ≡ some q
    → p ≡ charged q method amount acquirer reference w.now
    → ChargesRow i m method amount acquirer reference w w'
    → Stores i m (charge_row q method amount acquirer reference w.now) w p w'
ChargesRow-Stores i m method amount acquirer reference w w' q p e same (q', f, s, positive, rows) =
    let here : q' ≡ q = ground (arith, e, f) in
    let row = charged-row q method amount acquirer reference w.now in
    stored i m p (charge_row q method amount acquirer reference w.now) q w w' e (same ∙ row)
      (whole method)
      (subst (λ r. w'.payments ≡ update_where (has_id q.id) (set_charge r w.now) w.payments) row
        (subst
          (λ r.
            w'.payments
            ≡ update_where (has_id r.id)
                (set_charge (charged r method amount acquirer reference w.now) w.now) w.payments)
          here rows))
  where
    whole :
        (method : CaptureMethod)
        → set_charge (charge_row q method amount acquirer reference w.now) w.now q
          ≡ charge_row q method amount acquirer reference w.now
    whole automatic = refl
    whole manual = refl

-- Charging a payment that is `created` commits; if it is captured at once, then for a positive amount
-- with the references between entries checked at the commit, a stored merchant, and the ledger's
-- amounts with twice this one below 2^63. It returns the payment with the
-- acquirer and its reference, `captured` for the amount and now if it is captured at once and
-- `authorized` if not; the payment is then found so, and no row of another identifier is changed.
pub finish_charge-commits :
    (env : Env) (i m : Uuid) (method : CaptureMethod) (amount : ℤ) (acquirer reference : String)
    (w : World) (q : Payment)
    → (is_automatic method ≡ true → CanPost m amount w)
    → find (owned_by i m) w.payments ≡ some q
    → q.status ≡ created
    → (is_automatic method ≡ true → pos 0 <ℤ amount)
    → Succeeds
        (Stores i m (charge_row q method amount acquirer reference w.now) w)
        (finish_charge env i m method amount acquirer reference w)
finish_charge-commits env i m method amount acquirer reference w q d e s h =
    Succeeds-map
      (λ p w'.
        (p ≡ charged q method amount acquirer reference w.now)
        × ChargesRow i m method amount acquirer reference w w')
      _ _ (λ p w' k. ChargesRow-Stores i m method amount acquirer reference w w' q p e k.0 k.1)
      (Succeeds-and _ _ _
        (finish_charge-Succeeds env i m method amount acquirer reference w q d e s h)
        (finish_charge-ChargesRow env i m method amount acquirer reference w))

-- The row after a capture of this amount.
abbrev pub capture_row : Payment → (amount : ℤ) → Timestamp → Payment
capture_row q amount now = record q {
  status = captured;
  captured_amount = some amount;
  captured_at = some now;
  updated_at = now;
}

to_captured : (s : PaymentStatus) → s ≡ authorized → (transition (new s) captured).0 ≡ ok captured
unfolding transition
to_captured s e = ground arith

finish_capture-Succeeds :
    (env : Env) (i m : Uuid) (amount : Option ℤ) (w : World) (q : Payment)
    → CanPost m (get_or amount q.amount) w
    → find (owned_by i m) w.payments ≡ some q
    → q.status ≡ authorized
    → pos 0 <ℤ get_or amount q.amount
    → Succeeds (λ p _. p ≡ with_capture q amount w.now) (finish_capture env i m amount w)
unfolding finish_capture update_payment_after_charge modify gets book_capture
finish_capture-Succeeds env i m amount w q d e s h =
    Succeeds-step Q _ _ w w q (lock-found i m w q e) (
      Succeeds-step Q _ _ w w _ (lift-ok _ _ w (to_captured q.status s)) (
        Succeeds-step Q _ _ w w w.now refl (
          Succeeds-step Q _ _ w w1 tt refl (
            Succeeds-bind Any Q (record_charge env p (due_amount p)) _ w1
              (record_charge-Succeeds env p (due_amount p) (volume w.ledger_entries) w1
                (charge-Accepts i m (get_or amount q.amount) w q p e d) d.room h)
              λ _ w2 _. announce-Succeeds p _ _ _ w2))))
  where
    p : Payment
    p = with_capture q amount w.now

    w1 : World
    w1 = record w { payments = update_where (has_id q.id) (set_charge p w.now) w.payments }

    Q : Payment → World → Type 0
    Q r _ = r ≡ with_capture q amount w.now

CapturesRow-Stores :
    (i m : Uuid) (amount : Option ℤ) (w w' : World) (q p : Payment)
    → find (owned_by i m) w.payments ≡ some q
    → p ≡ with_capture q amount w.now
    → CapturesRow i m amount w w'
    → Stores i m (capture_row q (get_or amount q.amount) w.now) w p w'
CapturesRow-Stores i m amount w w' q p e same (q', f, s, positive, rows) =
    let here : q' ≡ q = ground (arith, e, f) in
    stored i m p (capture_row q (get_or amount q.amount) w.now) q w w' e same refl (
      subst
        (λ r.
          w'.payments
          ≡ update_where (has_id r.id) (set_charge (with_capture r amount w.now) w.now) w.payments)
        here rows)

-- With the references between entries checked at the commit, a stored merchant, and the ledger's
-- amounts with twice this one below 2^63: capturing a payment that is `authorized`, for any positive
-- amount, the authorised amount where none is given and also one above it, commits and
-- returns the payment as `captured` now for that amount; the payment is then found so, and no row of
-- another identifier is changed.
pub finish_capture-commits :
    (env : Env) (i m : Uuid) (amount : Option ℤ) (w : World) (q : Payment)
    → CanPost m (get_or amount q.amount) w
    → find (owned_by i m) w.payments ≡ some q
    → q.status ≡ authorized
    → pos 0 <ℤ get_or amount q.amount
    → Succeeds
        (Stores i m (capture_row q (get_or amount q.amount) w.now) w)
        (finish_capture env i m amount w)
finish_capture-commits env i m amount w q d e s h =
    Succeeds-map (λ p w'. (p ≡ with_capture q amount w.now) × CapturesRow i m amount w w') _ _
      (λ p w' k. CapturesRow-Stores i m amount w w' q p e k.0 k.1)
      (Succeeds-and _ _ _ (finish_capture-Succeeds env i m amount w q d e s h)
        (finish_capture-CapturesRow env i m amount w))
