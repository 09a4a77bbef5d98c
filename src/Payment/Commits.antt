-- ===== src/Payment/Commits.antt =====
-- Transactions that commit: the condition holds of the result, and there is no error.
use payment_gateway_in_rust.Prelude.{
  ℕ, ◌+◌, ◌*◌, ◌<◌, ◌≤◌, ◌==◌, is_some, true, find, some, refl, sym, subst, ◌≡◌, refl, inl, inr,
  String, Option, false, Bool-cases, arith, if◌then◌else◌,
}
use payment_gateway_in_rust.Prelude.Int.{ℤ, pos, pos_part, ◌<ℤ◌, ltb_ℤ, eqb_ℤ}
use payment_gateway_in_rust.Common.{
  Uuid, Text, Currency, Payment, Refund, AppError, AppResult, ok, err, due_amount,
}
use payment_gateway_in_rust.Payment.World.{lift, World, Env, Tx, run_tx, ◌>>=◌, pure}
use payment_gateway_in_rust.Payment.Statements.{has_id, owned_by, lock_payment_for_update}
use payment_gateway_in_rust.Payment.Effects.{Returns}
use payment_gateway_in_rust.Payment.Ledger.{
  write_double_entry, insert_entry, record_capture, record_fee, in_account, is_account,
  foreign_keys, gateway_float, merchant_payable, fee_income,
}
use payment_gateway_in_rust.Payment.Ledger.Balance.{volume, balance-fits}
use payment_gateway_in_rust.Payment.External.{publish_payment, publish_refund}
use payment_gateway_in_rust.Payment.Orchestrator.{record_charge}

abbrev pub Succeeds : {A : Type 0} → (A → World → Type 0) → AppResult (A × World) → Type 0
Succeeds Q (ok (a, w)) = Q a w
Succeeds Q (err e) = ⊥

module _ {A : Type 0} where
  pub run_tx-commits :
      (m : Tx A) (w w' : World) (a : A) → m w ≡ ok (a, w') → run_tx m w ≡ (ok a, w')
  unfolding run_tx
  run_tx-commits m w w' a e = rw (e, run_tx) refl

  pub run_tx-rolls_back :
      (m : Tx A) (w : World) (x : AppError) → m w ≡ err x → run_tx m w ≡ (err x, w)
  unfolding run_tx
  run_tx-rolls_back m w x e = rw (e, run_tx) refl

  pub Succeeds-and :
      (P Q : A → World → Type 0) (r : AppResult (A × World))
      → Succeeds P r
      → Returns Q r
      → Succeeds (λ a w. P a w × Q a w) r
  Succeeds-and P Q (ok (a, w)) h k = (h, k)
  Succeeds-and P Q (err e) h k = absurd h

  pub Succeeds-map :
      (P Q : A → World → Type 0) (r : AppResult (A × World))
      → ((a : A) (w : World) → P a w → Q a w)
      → Succeeds P r
      → Succeeds Q r
  Succeeds-map P Q (ok (a, w)) f h = f a w h
  Succeeds-map P Q (err e) f h = absurd h

pub Succeeds-bind :
    {A B : Type 0} (P : A → World → Type 0) (Q : B → World → Type 0) (m : Tx A) (k : A → Tx B)
    (w : World)
    → Succeeds P (m w)
    → ((a : A) (w' : World) → P a w' → Succeeds Q (k a w'))
    → Succeeds Q ((m >>= k) w)
unfolding ◌>>=◌
Succeeds-bind {A} {B} P Q m k w h f = go (m w) h
  where
    go :
        (r : AppResult (A × World))
        → Succeeds P r
        → Succeeds Q (elim r [ ok r ↦ k r.0 r.1 | err e ↦ err e ])
    go (ok (a, w')) p = f a w' p
    go (err e) p = absurd p

-- A first statement whose outcome is known.
pub Succeeds-step :
    {A B : Type 0} (Q : B → World → Type 0) (m : Tx A) (k : A → Tx B) (w w' : World) (a : A)
    → m w ≡ ok (a, w')
    → Succeeds Q (k a w')
    → Succeeds Q ((m >>= k) w)
Succeeds-step Q m k w w' a e h =
    Succeeds-bind (λ b v. Succeeds Q (k b v)) Q m k w
      (subst (Succeeds (λ b v. Succeeds Q (k b v))) (sym e) h) λ b v p. p

pub lock-found :
    (i m : Uuid) (w : World) (q : Payment)
    → find (owned_by i m) w.payments ≡ some q
    → lock_payment_for_update i m w ≡ ok (q, w)
unfolding lock_payment_for_update ◌>>=◌
lock-found i m w q e = rw (e, lock_payment_for_update) refl

pub lift-ok : {A : Type 0} (r : AppResult A) (a : A) (w : World) → r ≡ ok a → lift r w ≡ ok (a, w)
unfolding lift
lift-ok r a w e = rw (e, lift) refl

-- Entries of this payment and merchant can be posted: a reference between entries is checked at the
-- commit only, the payment and the merchant are stored, and the amounts of the ledger are bounded.
abbrev pub Accepts : (payment_id merchant_id : Uuid) (room : ℕ) → World → Type 0
Accepts i m room w =
    (w.immediate_reference ≡ false)
    × (is_some (find (has_id i) w.payments) ≡ true)
    × (is_some (find (λ n. n == m) w.merchants) ≡ true)
    × (volume w.ledger_entries ≤ room)

abbrev pub Any : {A : Type 0} → A → World → Type 0
Any _ w = Unit {0}

module _ (env : Env) (payment_id merchant_id : Uuid) (currency : Currency) (amount : ℤ)
    (debit_account credit_account : Uuid) (description : Text) (notes : Option String) where
  pub write_double_entry-Succeeds :
      (room : ℕ) (w : World)
      → Accepts payment_id merchant_id room w
      → room < 9223372036854775808
      → is_account debit_account ≡ true
      → is_account credit_account ≡ true
      → pos 0 <ℤ amount
      → Succeeds
          (λ _ w'. Accepts payment_id merchant_id (room + 2 * pos_part amount) w')
          (write_double_entry env payment_id merchant_id currency amount debit_account
            credit_account description notes w)
  unfolding write_double_entry insert_entry foreign_keys ◌>>=◌
  write_double_entry-Succeeds room w a small d c h =
      let fits =
        balance-fits (in_account merchant_id credit_account) w.ledger_entries
          (omega (arith, a.3, small)) in
      rw fits (ground (arith, a.0, a.1, a.2, a.3, d, c, h))

pub known_accounts :
    (is_account gateway_float ≡ true)
    × (is_account merchant_payable ≡ true)
    × (is_account fee_income ≡ true)
unfolding is_account
known_accounts = (refl, refl, refl)

fee-Succeeds :
    (env : Env) (p : Payment) (fee : ℤ) (room : ℕ) (w : World)
    → Accepts p.id p.merchant_id room w
    → room < 9223372036854775808
    → Succeeds Any ((if ltb_ℤ (pos 0) fee then record_fee env p fee else pure tt) w)
unfolding record_fee pure
fee-Succeeds env p fee room w a small = elim (Bool-cases (ltb_ℤ (pos 0) fee)) [
  | inr none_due ↦ rw none_due tt
  | inl due ↦
      let nonzero : eqb_ℤ fee (pos 0) ≡ false = ground (arith, due) in
      rw due (
        rw nonzero (
          Succeeds-map (λ _ w'. Accepts p.id p.merchant_id (room + 2 * pos_part fee) w') Any _
            (λ _ _ _. tt)
            (write_double_entry-Succeeds env p.id p.merchant_id p.currency fee _ _ _ _ room w a
              small known_accounts.1 known_accounts.2 (ground (arith, due)))))
]

pub record_charge-Succeeds :
    (env : Env) (p : Payment) (base : ℤ) (room : ℕ) (w : World)
    → Accepts p.id p.merchant_id room w
    → room + 2 * pos_part (due_amount p) < 9223372036854775808
    → pos 0 <ℤ due_amount p
    → Succeeds Any (record_charge env p base w)
unfolding record_charge record_capture
record_charge-Succeeds env p base room w a small h =
    Succeeds-bind (λ _ w'. Accepts p.id p.merchant_id (room + 2 * pos_part (due_amount p)) w') Any
      (record_capture env p) _ w
      (write_double_entry-Succeeds env p.id p.merchant_id p.currency (due_amount p) _ _ _ _ room w a
        (omega (arith, small)) known_accounts.0 known_accounts.1 h)
      λ _ w' a'. fee-Succeeds env p (env.fee_of base) _ w' a' small

-- The same before a charge, a capture or a refund of a stored payment: the merchant is stored, and
-- the amounts of the ledger and two of this one are below 2^63.
pub record CanPost (m : Uuid) (amount : ℤ) (w : World) : Type 0 where
  pub deferred : w.immediate_reference ≡ false
  pub merchant : is_some (find (λ n. n == m) w.merchants) ≡ true
  pub room : volume w.ledger_entries + 2 * pos_part amount < 9223372036854775808

pub publish_payment-Succeeds :
    (p : Payment) (event topic : String) (w : World)
    → Succeeds Any (publish_payment p event topic w)
unfolding publish_payment ◌>>=◌
publish_payment-Succeeds p event topic w = tt

pub publish_refund-Succeeds :
    (r : Refund) (event topic : String) (w : World) → Succeeds Any (publish_refund r event topic w)
unfolding publish_refund ◌>>=◌
publish_refund-Succeeds r event topic w = tt
