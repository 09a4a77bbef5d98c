-- ===== src/Payment/Invariant.antt =====
-- What holds of the tables between any two transactions of the payment service, and that each
-- transaction keeps it.
pub mod Preserved
use payment_gateway_in_rust.Prelude.{
  ◌≡◌, refl, sym, subst, ◌∙◌, inl, inr, ◌⊎◌, Bool, true, false, String, Option, none, some, List,
  [], ◌∷◌, arith, find, All, All-update, update_where, get_or, if◌then◌else◌,
}
use mathlib.Core.Path.{ap}
use payment_gateway_in_rust.Prelude.Int.{ℤ, pos, ◌+ℤ◌, ◌<ℤ◌, +ℤ_parts}
use payment_gateway_in_rust.Common.{
  Uuid, Timestamp, Text, Json, Payment, due_amount, can_refund, refundable_amount, PaymentStatus,
  created, authorized, failed, cancelled, requires_action, CaptureMethod, automatic, manual,
  is_automatic, CreateRefundRequest,
}
use payment_gateway_in_rust.Payment.World.{World, Env}
use payment_gateway_in_rust.Payment.Statements.{
  has_id, owned_by, fits_refund, set_charge, set_status, add_refunded, as_inserted,
}
use payment_gateway_in_rust.Payment.Rows.{
  IsSolvent, UniqueIds, UniqueKeys, KeepsIdentity, UniqueIds-update, UniqueKeys-update, OnlyRow,
  All-OnlyRow, is_open, All-find,
}
use payment_gateway_in_rust.Payment.Orchestrator.{charged}
use payment_gateway_in_rust.Payment.Transactions.Charging.{with_capture}

-- The payments table is in order.
pub record RowsInv (ps : List Payment) : Type 0 where
  pub unique_ids : UniqueIds ps
  pub unique_keys : UniqueKeys ps
  pub solvent : All IsSolvent ps

-- An UPDATE of the columns that do not identify a row keeps the table in order if it keeps each row
-- that it touches solvent; it may use that the row found by its identifier is the only one.
module _ (t : Payment → Bool) (f : Payment → Payment) (same : KeepsIdentity f) (i m : Uuid)
    (q : Payment) (ps : List Payment) where
  pub update-RowsInv :
      find (owned_by i m) ps ≡ some q
      → ((p : Payment) → t p ≡ true → p.id ≡ i)
      → (t q ≡ true → IsSolvent q → IsSolvent (f q))
      → RowsInv ps
      → RowsInv (update_where t f ps)
  update-RowsInv e only step h = record {
    unique_ids = UniqueIds-update t f same ps h.unique_ids;
    unique_keys = UniqueKeys-update t f same ps h.unique_keys;
    solvent =
        All-update (OnlyRow IsSolvent i q) IsSolvent t f ps
          (λ p hit k.
            subst (λ r. t r ≡ true → IsSolvent r → IsSolvent (f r)) (sym (k.1 (only p hit))) step
              hit k.0)
          (λ p k. k.0) (All-OnlyRow IsSolvent i m q ps h.unique_ids e h.solvent);
  }

pub update_all-RowsInv :
    (t : Payment → Bool) (f : Payment → Payment) (ps : List Payment)
    → KeepsIdentity f
    → ((p : Payment) → IsSolvent p → IsSolvent (f p))
    → RowsInv ps
    → RowsInv (update_where t f ps)
update_all-RowsInv t f ps same step h = record {
  unique_ids = UniqueIds-update t f same ps h.unique_ids;
  unique_keys = UniqueKeys-update t f same ps h.unique_keys;
  solvent = All-update IsSolvent IsSolvent t f ps (λ p _. step p) (λ p s. s) h.solvent;
}

pub same_charge : (q : Payment) (now : Timestamp) → KeepsIdentity (set_charge q now)
same_charge q now = record { same_id = λ p. refl; same_merchant = λ p. refl; same_key = λ p. refl }

pub same_status_set :
    (s : PaymentStatus) (code message : Option Text) (now : Timestamp)
    → KeepsIdentity (set_status s code message now)
same_status_set s code message now = record {
  same_id = λ p. refl;
  same_merchant = λ p. refl;
  same_key = λ p. refl;
}

pub same_refunded : (amount : ℤ) (now : Timestamp) → KeepsIdentity (add_refunded amount now)
same_refunded amount now = record {
  same_id = λ p. refl;
  same_merchant = λ p. refl;
  same_key = λ p. refl;
}

pub charged-IsSolvent :
    (q : Payment) (method : CaptureMethod) (amount : ℤ) (acquirer reference : String)
    (now : Timestamp)
    → q.status ≡ created
    → (is_automatic method ≡ true → pos 0 <ℤ amount)
    → IsSolvent q
    → IsSolvent (set_charge (charged q method amount acquirer reference now) now q)
unfolding charged
charged-IsSolvent q automatic amount acquirer reference now e k h =
    let zero : q.refunded_amount ≡ pos 0 = h.untouched (ap is_open e) in
    record { nonneg = h.nonneg; within = rw zero (omega (arith, k refl)); untouched = λ _. zero }
charged-IsSolvent q manual amount acquirer reference now e k h = record {
  nonneg = h.nonneg;
  within = h.within;
  untouched = λ _. h.untouched (ap is_open e);
}

pub captured-IsSolvent :
    (q : Payment) (amount : Option ℤ) (now : Timestamp)
    → q.status ≡ authorized
    → pos 0 <ℤ get_or amount q.amount
    → IsSolvent q
    → IsSolvent (set_charge (with_capture q amount now) now q)
captured-IsSolvent q amount now e k h =
    let zero : q.refunded_amount ≡ pos 0 = h.untouched (ap is_open e) in
    record { nonneg = h.nonneg; within = rw zero (omega (arith, k)); untouched = λ _. zero }

-- A status after the capture, failed or cancelled asks for nothing new.
pub closed-IsSolvent :
    (s : PaymentStatus) (code message : Option Text) (now : Timestamp) (p : Payment)
    → is_open s ≡ false
    → IsSolvent p
    → IsSolvent (set_status s code message now p)
closed-IsSolvent s code message now p e h = record {
  nonneg = h.nonneg;
  within = h.within;
  untouched = λ o. cc;
}

pub refunded-IsSolvent :
    (i : Uuid) (amount : ℤ) (now : Timestamp) (q : Payment)
    → can_refund q amount ≡ true
    → fits_refund i amount q ≡ true
    → IsSolvent q
    → IsSolvent (add_refunded amount now q)
unfolding can_refund
refunded-IsSolvent i amount now q ok fits h = record {
  nonneg = ground (arith, +ℤ_parts q.refunded_amount amount);
  within = ground arith;
  untouched = λ o. ground arith;
}
