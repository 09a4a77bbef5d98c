-- ===== src/Payment/Unposted.antt =====
-- The foreign key between entries as migrations/008 declares it: what it lets through.
use payment_gateway_in_rust.Prelude.{
  ℕ, suc, ◌<◌, ◌≡◌, refl, String, true, Option, none, some, List, [], ◌∷◌, find, All, arith,
}
use payment_gateway_in_rust.Prelude.Int.{ℤ}
use payment_gateway_in_rust.Common.{
  Uuid, Text, Currency, Payment, Refund, LedgerEntry, CreateRefundRequest, automatic, AppResult,
}
use payment_gateway_in_rust.Payment.World.{World, Env, Tx, ◌>>=◌}
use payment_gateway_in_rust.Payment.Effects.{Returns, Returns-ok}
use payment_gateway_in_rust.Payment.Effects.Triples.{
  Returns-bind, Returns-new_uuid, Returns-gets, Returns-modify, Returns-lock, Returns-lift,
  Returns-constraint,
}
use payment_gateway_in_rust.Payment.Statements.{
  update_payment_after_charge, insert_refund, increment_refunded_amount,
}
use payment_gateway_in_rust.Payment.Ledger.{
  has_entry, insert_entry, write_double_entry, record_capture, record_refund,
}
use payment_gateway_in_rust.Payment.Orchestrator.{
  finish_charge, finish_capture, reserve_refund, book_charge, book_capture, record_charge,
  enter_refund, book_refund, requested_refund,
}

-- It fails: there is no result.
abbrev pub Fails : {A : Type 0} → AppResult (A × World) → Type 0
Fails r = Returns (λ _ _. ⊥) r

Fails-bind :
    {A B : Type 0} (m : Tx A) (k : A → Tx B) (w : World) → Fails (m w) → Fails ((m >>= k) w)
Fails-bind m k w h = Returns-bind (λ _ _. ⊥) m k w λ a v e. absurd (Returns-ok (λ _ _. ⊥) (m w) h e)

-- References are checked at each statement, and no entry has the identifier after this one.
abbrev Guarded : Uuid → World → Type 0
Guarded id w = (w.immediate_reference ≡ true) × (find (has_entry (suc id)) w.ledger_entries ≡ none)

insert_entry-Fails :
    (e : LedgerEntry) (w : World)
    → Guarded e.id w
    → e.reference_entry_id ≡ some (suc e.id)
    → Fails (insert_entry e w)
unfolding insert_entry ◌>>=◌
insert_entry-Fails e w g r = ground (arith, g, r)

write_double_entry-Fails :
    (env : Env) (payment_id merchant_id : Uuid) (currency : Currency) (amount : ℤ)
    (debit_account credit_account : Uuid) (description : Text) (notes : Option String) (w : World)
    → Guarded w.next_id w
    → Fails (
        write_double_entry env payment_id merchant_id currency amount debit_account credit_account
          description notes w)
unfolding write_double_entry
write_double_entry-Fails env payment_id merchant_id currency amount debit_account credit_account
      description notes w g =
    Returns-new_uuid (λ _ _. ⊥) _ w
      (Returns-new_uuid (λ _ _. ⊥) _ (record w { next_id = suc w.next_id })
        (Returns-gets (λ _ _. ⊥) _ _ w2
          (Returns-constraint (λ _ _. ⊥) _ _ _ w2
            λ _. Fails-bind _ _ w2 (insert_entry-Fails _ w2 g refl))))
  where
    w2 : World
    w2 = record w { next_id = suc (suc w.next_id) }

record_charge-Fails :
    (env : Env) (p : Payment) (base : ℤ) (w : World)
    → Guarded w.next_id w
    → Fails (record_charge env p base w)
unfolding record_charge record_capture
record_charge-Fails env p base w g =
    Fails-bind (record_capture env p) _ w
      (write_double_entry-Fails env p.id p.merchant_id p.currency _ _ _ _ _ w g)

-- What the statements of a refund before its entries leave alone.
abbrev SameBooks : World → World → Type 0
SameBooks w w' =
    (w'.ledger_entries ≡ w.ledger_entries)
    × (w'.immediate_reference ≡ w.immediate_reference)
    × (w'.next_id ≡ w.next_id)

insert_refund-SameBooks :
    (r : Refund) (w : World) → Returns (λ _ w'. SameBooks w w') (insert_refund r w)
unfolding insert_refund ◌>>=◌
insert_refund-SameBooks r w = ground arith

increment-SameBooks :
    (i : Uuid) (amount : ℤ) (w : World)
    → Returns (λ _ w'. SameBooks w w') (increment_refunded_amount i amount w)
unfolding increment_refunded_amount ◌>>=◌
increment-SameBooks i amount w = ground arith

Guarded-same : (w w' : World) → SameBooks w w' → Guarded w.next_id w → Guarded w'.next_id w'
Guarded-same w w' s g = rw (s.0, s.1, s.2) g

enter_refund-Fails :
    (env : Env) (r : Refund) (w : World) → Guarded w.next_id w → Fails (enter_refund env r w)
unfolding enter_refund book_refund record_refund
enter_refund-Fails env r w g =
    Returns-bind (λ _ _. ⊥) (insert_refund r) _ w
      λ _ v e.
        let at_v =
          Guarded-same w v (Returns-ok (λ _ w'. SameBooks w w') _ (insert_refund-SameBooks r w) e)
            g in
        Returns-bind (λ _ _. ⊥) (increment_refunded_amount r.payment_id r.amount) _ v
          λ _ u f.
            let at_u =
              Guarded-same v u
                (Returns-ok (λ _ w'. SameBooks v w') _ (increment-SameBooks r.payment_id r.amount v)
                  f)
                at_v in
            Fails-bind (record_refund env r) _ u (
              write_double_entry-Fails env r.payment_id r.merchant_id r.currency r.amount _ _ _ _ u
                at_u)

-- Identifiers are given out in order, so those of the entries are below the next one.
abbrev pub EntriesBelow : ℕ → List LedgerEntry → Type 0
EntriesBelow n = All λ e. e.id < n

below-absent :
    (n j : ℕ) (es : List LedgerEntry) → EntriesBelow n es → n < j → find (has_entry j) es ≡ none
below-absent n j [] h l = refl
below-absent n j (e ∷ es) h l = ground (arith, h.0, l, below-absent n j es h.1 l)

-- Where the reference of an entry is checked at each statement, as the migrations declare it, and the
-- identifiers of the entries were given out before: no charge that is captured at once, no capture
-- and no reservation of a refund commits, whatever the payment and the amount.
pub postings-Fail :
    (env : Env) (i m : Uuid) (amount : ℤ) (acquirer reference : String) (capture_amount : Option ℤ)
    (req : CreateRefundRequest) (w : World)
    → w.immediate_reference ≡ true
    → EntriesBelow w.next_id w.ledger_entries
    → Fails (finish_charge env i m automatic amount acquirer reference w)
      × Fails (finish_capture env i m capture_amount w)
      × Fails (reserve_refund env i m req w)
unfolding finish_charge finish_capture reserve_refund update_payment_after_charge book_charge
    book_capture requested_refund
postings-Fail env i m amount acquirer reference capture_amount req w now below = (
  Returns-lock (λ _ _. ⊥) i m _ w
      λ q e.
        Returns-lift (λ _ _. ⊥) _ _ w
          λ t good.
            Returns-gets (λ _ _. ⊥) _ _ w
              (Returns-modify (λ _ _. ⊥) _ _ w
                (Fails-bind (record_charge env _ _) _ _ (record_charge-Fails env _ _ _ guarded))),
  Returns-lock (λ _ _. ⊥) i m _ w
      λ q e.
        Returns-lift (λ _ _. ⊥) _ _ w
          λ t good.
            Returns-gets (λ _ _. ⊥) _ _ w
              (Returns-modify (λ _ _. ⊥) _ _ w
                (Fails-bind (record_charge env _ _) _ _ (record_charge-Fails env _ _ _ guarded))),
  Returns-new_uuid (λ _ _. ⊥) _ w
      (Returns-gets (λ _ _. ⊥) _ _ w1
        (Returns-lock (λ _ _. ⊥) i m _ w1
          λ q e.
            Returns-lift (λ _ _. ⊥) _ _ w1
              λ t good.
                enter_refund-Fails env _ w1
                  (now, below-absent w.next_id _ w.ledger_entries below (ground arith)))),
)
  where
    w1 : World
    w1 = record w { next_id = suc w.next_id }

    guarded : Guarded w.next_id w
    guarded = (now, below-absent w.next_id _ w.ledger_entries below (ground arith))
