-- ===== src/Payment/Transactions/Opening.antt =====
-- The insertion of a payment.
use payment_gateway_in_rust.Prelude.{
  ◌≡◌, inl, inr, Bool, true, false, none, some, List, ◌∷◌, arith, find, Bool-cases, Option-cases,
  is_some, ◌==◌,
}
use payment_gateway_in_rust.Prelude.Int.{pos, ltb_ℤ, ◌<ℤ◌}
use payment_gateway_in_rust.Common.{Uuid, Payment}
use payment_gateway_in_rust.Payment.World.{World, ◌>>=◌}
use payment_gateway_in_rust.Payment.Statements.{
  insert_payment_idempotent, as_inserted, has_id, has_key, existing_id, insert_row,
}
use payment_gateway_in_rust.Payment.Effects.{Returns}

-- What an insertion did: the row is new, or its key was taken and nothing changed.
pub data Opened (p : Payment) (before : List Payment) : Uuid × Bool → List Payment → Type 0 where
  fresh :
      pos 0 <ℤ p.amount
      → find (has_id p.id) before ≡ none
      → find (has_key p.merchant_id p.idempotency_key) before ≡ none
      → Opened p before (p.id, true) (as_inserted p ∷ before)
  replayed :
      (row : Payment)
      → find (has_key p.merchant_id p.idempotency_key) before ≡ some row
      → Opened p before (row.id, false) before

pub insert_payment_idempotent-Opened :
    (p : Payment) (w : World)
    → Returns (λ r w'. Opened p w.payments r w'.payments) (insert_payment_idempotent p w)
unfolding insert_payment_idempotent ◌>>=◌
insert_payment_idempotent-Opened p w = elim (Bool-cases (ltb_ℤ (pos 0) p.amount)) [
  | inr bad ↦ rw bad tt
  | inl good ↦
      rw good (elim (Option-cases (find (has_key p.merchant_id p.idempotency_key) w.payments)) [
        | inr (row, e) ↦ rw e (rw (e, existing_id) (replayed row e))
        | inl new ↦ rw new (elim (Option-cases (find (has_id p.id) w.payments)) [
          | inl free ↦ elim (Bool-cases (is_some (find (λ m. m == p.merchant_id) w.merchants))) [
            | inl known ↦ rw (free, insert_row, known) (fresh (ground (arith, good)) free new)
            | inr unknown ↦ rw (free, insert_row, unknown) tt
          ]
          | inr (row, e) ↦ rw (e, insert_row) tt
        ])
      ])
]
