-- ===== src/Payment/Ledger.antt =====
-- crates/payment-service/src/ledger.rs: every movement of money is a pair of entries, a debit and
-- a credit, that the hashes chain together.
pub mod Pairs
pub mod Balance
use payment_gateway_in_rust.Prelude.{
  ℕ, String, Bool, true, ◌&&◌, ◌||◌, not, Option, none, some, List, [], ◌∷◌, ◌==◌, is_some, get_or,
  find, keep, if◌then◌else◌,
}
use payment_gateway_in_rust.Prelude.Int.{fits_bigint, ℤ, pos, ◌+ℤ◌, ◌-ℤ◌, ltb_ℤ, eqb_ℤ, wrap_i64}
use payment_gateway_in_rust.Common.{
  Uuid, Text, lit, uuid, int, nat, Payment, Refund, LedgerEntry, EntryType, debit, credit, Currency,
  currency_text, due_amount,
}
use payment_gateway_in_rust.Payment.World.{
  World, Env, Tx, Done, pure, gets, modify, constraint, new_uuid, ◌>>=◌, ◌>>◌,
}

-- The identifiers of `mod accounts`, as numbers of 128 bits.
abbrev pub gateway_float : Uuid
gateway_float = 0x10000000000000000000000000000001

abbrev pub merchant_payable : Uuid
merchant_payable = 0x20000000000000000000000000000001

abbrev pub fee_income : Uuid
fee_income = 0x30000000000000000000000000000001

abbrev pub of_merchant : Uuid → LedgerEntry → Bool
of_merchant merchant_id e = e.merchant_id == merchant_id

abbrev pub in_account : Uuid → Uuid → LedgerEntry → Bool
in_account merchant_id account_id e = (e.merchant_id == merchant_id) && (e.account_id == account_id)

-- `CASE WHEN entry_type = 'credit' THEN amount ELSE -amount END`.
abbrev pub signed_amount : EntryType → ℤ → ℤ
signed_amount credit amount = amount
signed_amount debit amount = pos 0 -ℤ amount

-- The sum of the signed amounts of the entries that a test selects.
unfoldable pub balance : (LedgerEntry → Bool) → List LedgerEntry → ℤ
balance p [] = pos 0
balance p (e ∷ es) =
    let rest = balance p es in if p e then signed_amount e.entry_type e.amount +ℤ rest else rest

-- `ledger_entry_hash` of crates/common/src/crypto.rs.
abbrev pub ledger_entry_hash : Env → String → Uuid → ℤ → ℕ → String
ledger_entry_hash env prev_hash entry_id amount created_at =
    env.sha256_hex (lit prev_hash ∷ uuid entry_id ∷ int amount ∷ nat created_at ∷ [])

unfoldable pub get_prev_hash : Env → Uuid → World → String
get_prev_hash env merchant_id w =
    elim (env.newest (keep (of_merchant merchant_id) w.ledger_entries)) [
      | some e ↦ e.hash
      | none ↦ "genesis"
    ]

abbrev pub has_entry : Uuid → LedgerEntry → Bool
has_entry id e = e.id == id

abbrev refers : Option Uuid → List LedgerEntry → Bool
refers none es = true
refers (some id) es = is_some (find (has_entry id) es)

-- The rows of `ledger_accounts` that migrations/008 inserts.
abbrev pub ledger_accounts : List Uuid
ledger_accounts =
    gateway_float ∷ merchant_payable ∷ fee_income ∷ 0x40000000000000000000000000000001
    ∷ 0x50000000000000000000000000000001 ∷ []

unfoldable pub is_account : Uuid → Bool
is_account account_id = is_some (find (λ i. i == account_id) ledger_accounts)

-- The foreign keys of migrations/004 and 008 to other tables.
unfoldable pub foreign_keys : LedgerEntry → World → Bool
unfolding is_account
foreign_keys e w =
    is_some (find (λ p. p.id == e.payment_id) w.payments)
    && (is_some (find (λ m. m == e.merchant_id) w.merchants) && is_account e.account_id)

-- The INSERT of one entry, with the constraints of migrations/004 and 008.
unfoldable pub insert_entry : LedgerEntry → Tx Done
unfolding foreign_keys
insert_entry e = do
  constraint (ltb_ℤ (pos 0) e.amount) "ledger_entries_amount_check"
  w ← gets (λ w. w)
  constraint (not w.immediate_reference || refers e.reference_entry_id (e ∷ w.ledger_entries))
      "ledger_entries_reference_entry_id_fkey"
  constraint (foreign_keys e w) "ledger_entries_fkey"
  modify (λ w. record w { ledger_entries = e ∷ w.ledger_entries })

-- The cast of the sum, `::bigint`.
unfoldable pub sum_in_range : ℤ → Bool
sum_in_range sum = fits_bigint sum

unfoldable pub write_double_entry :
    (env : Env) (payment_id merchant_id : Uuid) (currency : Currency) (amount : ℤ)
    (debit_account credit_account : Uuid) (description : Text) (notes : Option String)
    → Tx Done
unfolding insert_entry balance get_prev_hash sum_in_range
write_double_entry env payment_id merchant_id currency amount debit_account credit_account
      description notes =
    do
      debit_id ← new_uuid
      credit_id ← new_uuid
      w ← gets (λ w. w)
      let prev_balance = balance (in_account merchant_id credit_account) w.ledger_entries
      constraint (sum_in_range prev_balance) "bigint out of range"
      let prev_hash = get_prev_hash env merchant_id w
      let debit_hash = ledger_entry_hash env prev_hash debit_id amount w.now
      let credit_hash = ledger_entry_hash env debit_hash credit_id amount w.now
      insert_entry (record {
        id = debit_id;
        payment_id = payment_id;
        merchant_id = merchant_id;
        entry_type = debit;
        account_id = debit_account;
        reference_entry_id = some credit_id;
        amount = amount;
        currency = currency;
        balance_before = prev_balance;
        balance_after = prev_balance;
        description = description;
        notes = notes;
        hash = debit_hash;
        created_at = w.now;
      })
      insert_entry (record {
        id = credit_id;
        payment_id = payment_id;
        merchant_id = merchant_id;
        entry_type = credit;
        account_id = credit_account;
        reference_entry_id = some debit_id;
        amount = amount;
        currency = currency;
        balance_before = prev_balance;
        balance_after = wrap_i64 (prev_balance +ℤ amount);
        description = description;
        notes = notes;
        hash = credit_hash;
        created_at = w.now;
      })

unfoldable pub record_capture : Env → Payment → Tx Done
record_capture env p =
    write_double_entry env p.id p.merchant_id p.currency (due_amount p) gateway_float
      merchant_payable
      (lit "Capture for payment "
        ∷ uuid p.id
        ∷ lit " ("
        ∷ lit (get_or p.acquirer_reference "no-ref")
        ∷ lit ")"
        ∷ [])
      none

unfoldable pub record_refund : Env → Refund → Tx Done
record_refund env r =
    write_double_entry env r.payment_id r.merchant_id r.currency r.amount merchant_payable
      gateway_float
      (lit "Refund "
        ∷ uuid r.id
        ∷ lit " for payment "
        ∷ uuid r.payment_id
        ∷ lit " — "
        ∷ lit (get_or r.reason "no reason")
        ∷ [])
      none

unfoldable pub record_fee : Env → Payment → ℤ → Tx Done
record_fee env p fee_amount =
    if eqb_ℤ fee_amount (pos 0)
    then pure tt
    else write_double_entry env p.id p.merchant_id p.currency fee_amount merchant_payable fee_income
        (lit "Platform fee "
          ∷ int fee_amount
          ∷ lit " "
          ∷ lit (currency_text p.currency)
          ∷ lit " for payment "
          ∷ uuid p.id
          ∷ [])
        none

unfoldable pub record_settlement : Env → Uuid → Uuid → Currency → ℤ → Tx Done
record_settlement env payment_id merchant_id currency amount =
    write_double_entry env payment_id merchant_id currency amount merchant_payable gateway_float
      (lit "Settlement for payment " ∷ uuid payment_id ∷ []) (some "settlement")
