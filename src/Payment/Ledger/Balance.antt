-- ===== src/Payment/Ledger/Balance.antt =====
-- Debits and credits of each merchant: what the ledger's pairs add up to.
use payment_gateway_in_rust.Prelude.{
  ℕ, ◌+◌, ◌≤◌, ◌<◌, Bool, true, Bool-cases, inl, inr, ◌≡◌, ap, String, Option, List, [], ◌∷◌, ◌∙◌,
  arith,
}
use mathlib.Core.Path.{fun_ext}
use payment_gateway_in_rust.Prelude.Int.{
  ℤ, pos, ◌+ℤ◌, ◌-ℤ◌, int_laws, pos_part, neg_part, +ℤ_parts, -ℤ_parts,
}
use payment_gateway_in_rust.Common.{Uuid, Text, Currency, LedgerEntry, EntryType, debit, credit}
use payment_gateway_in_rust.Payment.World.{World, Env}
use payment_gateway_in_rust.Payment.Effects.{Returns-map, Leaves}
use payment_gateway_in_rust.Payment.Ledger.{
  write_double_entry, balance, of_merchant, signed_amount, sum_in_range,
}
use payment_gateway_in_rust.Payment.Ledger.Pairs.{IsPair, Posts, write_double_entry-Posts}

-- Credits minus debits of each merchant, over all accounts.
abbrev pub balances_of : World → Uuid → ℤ
balances_of w m = balance (of_merchant m) w.ledger_entries

-- Credits equal debits for every merchant: the query of tests/invariants.rs.
abbrev pub IsBalanced : World → Type 0
IsBalanced w = (m : Uuid) → balances_of w m ≡ pos 0

cancel_out : (x y : ℤ) → x +ℤ (pos 0 -ℤ x +ℤ y) ≡ y
cancel_out x y = omega int_laws

balance-pair :
    {env : Env} {prev : String} {payment_id merchant_id debit_account credit_account : Uuid}
    {amount : ℤ} (m : Uuid) (d c : LedgerEntry) (es : List LedgerEntry)
    → IsPair env prev payment_id merchant_id amount debit_account credit_account d c
    → balance (of_merchant m) (c ∷ d ∷ es) ≡ balance (of_merchant m) es
unfolding balance
balance-pair m d c es h = ground (arith, cancel_out d.amount (balance (of_merchant m) es))

Posts-balance :
    (env : Env) (payment_id merchant_id : Uuid) (amount : ℤ) (debit_account credit_account : Uuid)
    (w : World) (es : List LedgerEntry)
    → Posts env payment_id merchant_id amount debit_account credit_account w es
    → (m : Uuid) → balance (of_merchant m) es ≡ balance (of_merchant m) w.ledger_entries
Posts-balance env payment_id merchant_id amount debit_account credit_account w (c ∷ d ∷ es) h m =
    balance-pair m d c es h.1 ∙ ap (balance (of_merchant m)) h.0
Posts-balance env payment_id merchant_id amount debit_account credit_account w (c ∷ []) h m =
    absurd h
Posts-balance env payment_id merchant_id amount debit_account credit_account w [] h m = absurd h

pub balances-write_double_entry :
    (env : Env) (payment_id merchant_id : Uuid) (currency : Currency) (amount : ℤ)
    (debit_account credit_account : Uuid) (description : Text) (notes : Option String)
    → Leaves balances_of (
        write_double_entry env payment_id merchant_id currency amount debit_account credit_account
          description notes)
balances-write_double_entry env payment_id merchant_id currency amount debit_account credit_account
      description notes =
    record {
      at = λ w.
          Returns-map _ _ _
            (λ _ w' h. fun_ext (
              Posts-balance env payment_id merchant_id amount debit_account credit_account w
                w'.ledger_entries h))
            (write_double_entry-Posts env payment_id merchant_id currency amount debit_account
              credit_account description notes w);
    }

-- The sum of the sizes of all amounts.
abbrev pub volume : List LedgerEntry → ℕ
volume [] = 0
volume (e ∷ es) = pos_part e.amount + neg_part e.amount + volume es

signed_parts :
    (t : EntryType) (amount : ℤ)
    → (pos_part (signed_amount t amount) ≤ pos_part amount + neg_part amount)
      × (neg_part (signed_amount t amount) ≤ pos_part amount + neg_part amount)
signed_parts credit amount = (omega arith, omega arith)
signed_parts debit amount = ground (arith, -ℤ_parts (pos 0) amount)

-- No balance is further from zero than the amounts go.
pub balance-within :
    (p : LedgerEntry → Bool) (es : List LedgerEntry)
    → (pos_part (balance p es) ≤ volume es) × (neg_part (balance p es) ≤ volume es)
unfolding balance
balance-within p [] = (omega arith, omega arith)
balance-within p (e ∷ es) =
    let rest = balance-within p es in
    let signed = signed_parts e.entry_type e.amount in
    elim (Bool-cases (p e)) [
      | inl hit ↦ rw hit (
          ground
            (arith, rest, signed, +ℤ_parts (signed_amount e.entry_type e.amount) (balance p es)))
      | inr miss ↦ rw miss (ground (arith, rest))
    ]

pub balance-fits :
    (p : LedgerEntry → Bool) (es : List LedgerEntry)
    → volume es < 9223372036854775808
    → sum_in_range (balance p es) ≡ true
unfolding sum_in_range
balance-fits p es h = ground (arith, h, balance-within p es)
