-- ===== src/Payment/Ledger/Pairs.antt =====
-- What `write_double_entry` appends to the ledger.
use payment_gateway_in_rust.Prelude.{
  suc, refl, sym, subst, ◌≡◌, String, Option, some, List, [], ◌∷◌, arith,
}
use payment_gateway_in_rust.Prelude.Int.{ℤ, pos, ◌+ℤ◌, ◌<ℤ◌, wrap_i64}
use payment_gateway_in_rust.Common.{
  lit, uuid, int, nat, Uuid, Text, Currency, LedgerEntry, debit, credit,
}
use payment_gateway_in_rust.Payment.World.{World, Env, Tx, Done, ◌>>=◌}
use payment_gateway_in_rust.Payment.Effects.{Returns, Returns-ok, Returns-map}
use payment_gateway_in_rust.Payment.Effects.Triples.{
  Returns-constraint, Returns-bind, Returns-new_uuid, Returns-gets,
}
use payment_gateway_in_rust.Payment.Ledger.{
  write_double_entry, insert_entry, ledger_entry_hash, get_prev_hash, balance, in_account,
}

-- A debit and a credit of one amount, merchant, payment and instant, that refer to one another;
-- the debit's hash covers the hash before the pair, and the credit's the debit's.
pub record IsPair (env : Env) (prev_hash : String) (payment_id merchant_id : Uuid) (amount : ℤ)
    (debit_account credit_account : Uuid) (d c : LedgerEntry) : Type 0 where
  pub positive : pos 0 <ℤ amount
  pub is_debit : d.entry_type ≡ debit
  pub is_credit : c.entry_type ≡ credit
  pub debited : d.account_id ≡ debit_account
  pub credited : c.account_id ≡ credit_account
  pub amounts : (d.amount ≡ amount) × (c.amount ≡ amount)
  pub merchants : (d.merchant_id ≡ merchant_id) × (c.merchant_id ≡ merchant_id)
  pub payments : (d.payment_id ≡ payment_id) × (c.payment_id ≡ payment_id)
  pub references : (d.reference_entry_id ≡ some c.id) × (c.reference_entry_id ≡ some d.id)
  pub debit_hash :
      d.hash ≡ env.sha256_hex (lit prev_hash ∷ uuid d.id ∷ int amount ∷ nat d.created_at ∷ [])
  pub credit_hash :
      c.hash ≡ env.sha256_hex (lit d.hash ∷ uuid c.id ∷ int amount ∷ nat c.created_at ∷ [])

-- The ledger grew by one such pair, and the credit carries the balance of its account forward.
abbrev pub Posts :
    (env : Env) (payment_id merchant_id : Uuid) (amount : ℤ) (debit_account credit_account : Uuid)
    → World
    → List LedgerEntry
    → Type 0
Posts env payment_id merchant_id amount debit_account credit_account w (c ∷ d ∷ es) =
    (es ≡ w.ledger_entries)
    × IsPair env (get_prev_hash env merchant_id w) payment_id merchant_id amount debit_account
        credit_account d c
    × (c.balance_before ≡ balance (in_account merchant_id credit_account) w.ledger_entries)
    × (c.balance_after ≡ wrap_i64 (c.balance_before +ℤ amount))
Posts env payment_id merchant_id amount debit_account credit_account w _ = ⊥

insert_entry-Adds :
    (e : LedgerEntry) (w : World)
    → Returns
        (λ _ w'. (pos 0 <ℤ e.amount) × (w'.ledger_entries ≡ e ∷ w.ledger_entries))
        (insert_entry e w)
unfolding insert_entry ◌>>=◌
insert_entry-Adds e w = ground arith

insert_last :
    (P : List LedgerEntry → Type 0) (e : LedgerEntry) (w : World)
    → (pos 0 <ℤ e.amount → P (e ∷ w.ledger_entries))
    → Returns (λ _ w'. P w'.ledger_entries) (insert_entry e w)
insert_last P e w h =
    Returns-map (λ _ w'. (pos 0 <ℤ e.amount) × (w'.ledger_entries ≡ e ∷ w.ledger_entries))
      (λ _ w'. P w'.ledger_entries) _ (λ _ w' k. subst P (sym k.1) (h k.0)) (insert_entry-Adds e w)

insert_first :
    {B : Type 0} (Q : B → World → Type 0) (e : LedgerEntry) (k : Done → Tx B) (w : World)
    → ((v : World)
        → pos 0 <ℤ e.amount
        → v.ledger_entries ≡ e ∷ w.ledger_entries
        → Returns Q (k tt v))
    → Returns Q ((insert_entry e >>= k) w)
insert_first Q e k w h = Returns-bind Q (insert_entry e) k w λ _ v done.
    let added =
      Returns-ok (λ _ w'. (pos 0 <ℤ e.amount) × (w'.ledger_entries ≡ e ∷ w.ledger_entries)) _
        (insert_entry-Adds e w) done in
    h v added.0 added.1

module _ (env : Env) (payment_id merchant_id : Uuid) (currency : Currency) (amount : ℤ)
    (debit_account credit_account : Uuid) (description : Text) (notes : Option String) where
  -- What a written double entry adds to the ledger is one pair, and nothing else.
  pub write_double_entry-Posts :
      (w : World)
      → Returns
          (λ _ w'.
            Posts env payment_id merchant_id amount debit_account credit_account w
              w'.ledger_entries)
          (write_double_entry env payment_id merchant_id currency amount debit_account
            credit_account description notes w)
  unfolding write_double_entry get_prev_hash
  write_double_entry-Posts w =
      let w1 : World = record w { next_id = suc w.next_id } in
      let w2 : World = record w { next_id = suc (suc w.next_id) } in
      Returns-new_uuid Q _ w (
        Returns-new_uuid Q _ w1 (
          Returns-gets Q _ _ w2 (
            Returns-constraint Q _ _ _ w2 λ _.
              insert_first Q d (λ _. insert_entry c) w2
                λ v positive first. insert_last P c v λ _.
                  subst (λ es. P (c ∷ es)) (sym first)
                    (
                      refl,
                      record {
                        positive = positive;
                        is_debit = refl;
                        is_credit = refl;
                        debited = refl;
                        credited = refl;
                        amounts = (refl, refl);
                        merchants = (refl, refl);
                        payments = (refl, refl);
                        references = (refl, refl);
                        debit_hash = refl;
                        credit_hash = refl;
                      },
                      refl,
                      refl,
                    ))))
    where
      P : List LedgerEntry → Type 0
      P es = Posts env payment_id merchant_id amount debit_account credit_account w es

      Q : Done → World → Type 0
      Q _ w' = P w'.ledger_entries

      prev : ℤ
      prev = balance (in_account merchant_id credit_account) w.ledger_entries

      d : LedgerEntry
      d = record {
        id = w.next_id;
        payment_id = payment_id;
        merchant_id = merchant_id;
        entry_type = debit;
        account_id = debit_account;
        reference_entry_id = some (suc w.next_id);
        amount = amount;
        currency = currency;
        balance_before = prev;
        balance_after = prev;
        description = description;
        notes = notes;
        hash = ledger_entry_hash env (get_prev_hash env merchant_id w) w.next_id amount w.now;
        created_at = w.now;
      }

      c : LedgerEntry
      c = record {
        id = suc w.next_id;
        payment_id = payment_id;
        merchant_id = merchant_id;
        entry_type = credit;
        account_id = credit_account;
        reference_entry_id = some w.next_id;
        amount = amount;
        currency = currency;
        balance_before = prev;
        balance_after = wrap_i64 (prev +ℤ amount);
        description = description;
        notes = notes;
        hash = ledger_entry_hash env d.hash (suc w.next_id) amount w.now;
        created_at = w.now;
      }
