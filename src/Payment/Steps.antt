-- ===== src/Payment/Steps.antt =====
-- The service as a step relation: a step is the commit of one transaction of some request, or
-- anything that leaves the payments and the ledger alone. A history is any interleaving of such
-- steps: row locks make each transaction one step.
use payment_gateway_in_rust.Prelude.{
  suc, ◌≡◌, refl, sym, subst, Bool, String, Option, none, some, ◌∙◌, arith, ap,
}
use payment_gateway_in_rust.Prelude.Int.{ℤ, pos}
use payment_gateway_in_rust.Common.{
  Uuid, Timestamp, Text, Json, Payment, Refund, Dispute, CaptureMethod, CreateRefundRequest,
  AppResult, ok,
}
use payment_gateway_in_rust.Payment.World.{World, Env, modify, new_uuid, pure}
use payment_gateway_in_rust.Payment.Statements.{insert_outbox_event}
use payment_gateway_in_rust.Payment.Rows.{IsSolvent, KeepsIdentity}
use payment_gateway_in_rust.Payment.Effects.{Returns, Returns-ok}
use payment_gateway_in_rust.Payment.Effects.Triples.{
  Returns-gets, Returns-lift, Returns-constraint, Returns-new_uuid, Returns-modify,
}
use payment_gateway_in_rust.Payment.Ledger.{balance, of_merchant}
use payment_gateway_in_rust.Payment.Ledger.Balance.{balances_of, IsBalanced}
use payment_gateway_in_rust.Payment.Orchestrator.{
  open_payment, fail_payment, finish_charge, finish_capture, reserve_refund, cancel,
}
use payment_gateway_in_rust.Settlement.Settler.{Books, settle_merchant}
use payment_gateway_in_rust.Settlement.Kept.{settle_merchant-Keeps}
use payment_gateway_in_rust.Payment.Dispute.{create_dispute, DisputesRow, set_disputed, payment_or}
use payment_gateway_in_rust.Payment.Transactions.Books.{
  balances-open_payment, balances-fail_payment, balances-finish_charge, balances-finish_capture,
  balances-reserve_refund, balances-cancel,
}
use payment_gateway_in_rust.Payment.Invariant.{RowsInv, update_all-RowsInv}
use payment_gateway_in_rust.Payment.Invariant.Preserved.{
  open_payment-RowsInv, fail_payment-RowsInv, finish_charge-RowsInv, finish_capture-RowsInv,
  reserve_refund-RowsInv, cancel-RowsInv,
}

pub data Step (w w' : World) : Type 0 where
  opens :
      (p : Payment) (r : Uuid × Bool)
      → p.captured_amount ≡ none
      → open_payment p w ≡ ok (r, w')
      → Step w w'
  fails :
      (i : Uuid) (code message : Text) (payload : Json)
      → fail_payment i code message payload w ≡ ok (tt, w')
      → Step w w'
  charges :
      (env : Env) (i m : Uuid) (method : CaptureMethod) (amount : ℤ) (acquirer reference : String)
      (p : Payment)
      → finish_charge env i m method amount acquirer reference w ≡ ok (p, w')
      → Step w w'
  captures :
      (env : Env) (i m : Uuid) (amount : Option ℤ) (p : Payment)
      → finish_capture env i m amount w ≡ ok (p, w')
      → Step w w'
  refunds :
      (env : Env) (i m : Uuid) (req : CreateRefundRequest) (r : Refund)
      → reserve_refund env i m req w ≡ ok (r, w')
      → Step w w'
  cancels : (i m : Uuid) (p : Payment) → cancel i m w ≡ ok (p, w') → Step w w'
  disputes :
      (i m : Uuid) (amount : ℤ) (reason acquirer : String) (d : Dispute)
      → create_dispute i m amount reason acquirer w ≡ ok (d, w')
      → Step w w'
  settles :
      (env : Env) (skips : Uuid → Bool) (m : Uuid) (b : Books)
      → b.world ≡ w
      → (settle_merchant env skips m b).1.world ≡ w'
      → Step w w'
  idles : w'.payments ≡ w.payments → w'.ledger_entries ≡ w.ledger_entries → Step w w'

pub data Reach (w : World) : World → Type 0 where
  here : Reach w w
  next : {v u : World} → Reach w v → Step v u → Reach w u

pub Reach-trans : {w v u : World} → Reach w v → Reach v u → Reach w u
Reach-trans r here = r
Reach-trans r (next s t) = next (Reach-trans r s) t

-- What holds between any two steps.
pub record Inv (w : World) : Type 0 where
  pub rows : RowsInv w.payments
  pub balanced : IsBalanced w

same_disputed : (now : Timestamp) → KeepsIdentity (set_disputed now)
same_disputed now = record { same_id = λ p. refl; same_merchant = λ p. refl; same_key = λ p. refl }

disputed-IsSolvent : (now : Timestamp) (p : Payment) → IsSolvent p → IsSolvent (set_disputed now p)
disputed-IsSolvent now p h = record { nonneg = h.nonneg; within = h.within; untouched = λ o. cc }

payment_or-some : (o : Option Payment) (q : Payment) → payment_or o ≡ ok q → o ≡ some q
payment_or-some o q h = ground arith

-- A dispute marks the payment of its merchant and writes nothing to the ledger.
pub create_dispute-DisputesRow :
    (i m : Uuid) (amount : ℤ) (reason acquirer : String) (w : World)
    → Returns (λ _ w'. DisputesRow i m w w') (create_dispute i m amount reason acquirer w)
unfolding create_dispute insert_outbox_event modify new_uuid pure
create_dispute-DisputesRow i m amount reason acquirer w =
    let w1 : World = record w { next_id = suc w.next_id } in
    Returns-new_uuid Q _ w (
      Returns-gets Q _ _ w1 (
        Returns-gets Q _ _ w1 (
          Returns-lift Q _ _ w1 λ q found. Returns-constraint Q _ _ _ w1 λ positive.
            Returns-modify Q _ _ w1 (
              Returns-modify Q _ _ _ (
                Returns-new_uuid Q _ _
                  (Returns-modify Q _ _ _ (q, payment_or-some _ q found, refl, refl)))))))
  where
    Q : Dispute → World → Type 0
    Q _ w' = DisputesRow i m w w'

module _ {w w' : World} (h : Inv w) where
  kept :
      {A : Type 0} {a : A} (r : AppResult (A × World))
      → Returns (λ _ v. RowsInv v.payments) r
      → Returns (λ _ v. balances_of v ≡ balances_of w) r
      → r ≡ ok (a, w')
      → Inv w'
  kept r rows books e = record {
    rows = Returns-ok (λ _ v. RowsInv v.payments) r rows e;
    balanced = λ m.
        ap (λ f. f m) (Returns-ok (λ _ v. balances_of v ≡ balances_of w) r books e) ∙ h.balanced m;
  }

  disputed-Inv : (i m : Uuid) → DisputesRow i m w w' → Inv w'
  disputed-Inv i m (q, e, rows, books) = record {
    rows =
        subst RowsInv (sym rows) (
          update_all-RowsInv _ _ w.payments (same_disputed w.now) (disputed-IsSolvent w.now)
            h.rows);
    balanced = λ k. subst (λ es. balance (of_merchant k) es ≡ pos 0) (sym books) (h.balanced k);
  }

  pub Step-Inv : Step w w' → Inv w'
  Step-Inv (opens p r u e) =
      kept _ (open_payment-RowsInv p w u h.rows) ((balances-open_payment p).at w) e
  Step-Inv (fails i code message payload e) =
      kept _ (fail_payment-RowsInv i code message payload w h.rows)
        ((balances-fail_payment i code message payload).at w) e
  Step-Inv (charges env i m method amount acquirer reference p e) =
      kept _ (finish_charge-RowsInv env i m method amount acquirer reference w h.rows)
        ((balances-finish_charge env i m method amount acquirer reference).at w) e
  Step-Inv (captures env i m amount p e) =
      kept _ (finish_capture-RowsInv env i m amount w h.rows)
        ((balances-finish_capture env i m amount).at w) e
  Step-Inv (refunds env i m req r e) =
      kept _ (reserve_refund-RowsInv env i m req w h.rows)
        ((balances-reserve_refund env i m req).at w) e
  Step-Inv (cancels i m p e) = kept _ (cancel-RowsInv i m w h.rows) ((balances-cancel i m).at w) e
  Step-Inv (disputes i m amount reason acquirer d e) =
      disputed-Inv i m (Returns-ok _ _ (create_dispute-DisputesRow i m amount reason acquirer w) e)
  Step-Inv (settles env skips m b from to) =
      let k = settle_merchant-Keeps env skips m b in
      let rows = subst RowsInv (sym (ap (λ v. v.payments) from)) h.rows in
      record {
        rows = subst RowsInv (ap (λ v. v.payments) to) (k.0 rows);
        balanced = λ i.
            subst (λ es. balance (of_merchant i) es ≡ pos 0)
              (sym (ap (λ v. v.ledger_entries) from) ∙ (sym k.1) ∙ ap (λ v. v.ledger_entries) to)
              (h.balanced i);
      }
  Step-Inv (idles rows books) = record {
    rows = subst RowsInv (sym rows) h.rows;
    balanced = λ k. subst (λ es. balance (of_merchant k) es ≡ pos 0) (sym books) (h.balanced k);
  }

-- The invariant survives every history of transactions.
pub Reach-Inv : {w w' : World} → Inv w → Reach w w' → Inv w'
Reach-Inv h here = h
Reach-Inv h (next r s) = Step-Inv (Reach-Inv h r) s
