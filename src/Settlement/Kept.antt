-- ===== src/Settlement/Kept.antt =====
-- What the settlement of a merchant keeps, whether it succeeds or not.
use payment_gateway_in_rust.Prelude.{
  ◌≡◌, refl, inl, inr, Bool, List, [], ◌∷◌, find, is_some, keep, Bool-cases,
}
use payment_gateway_in_rust.Prelude.Int.{ℤ}
use payment_gateway_in_rust.Common.{Uuid, Timestamp, Payment}
use payment_gateway_in_rust.Payment.World.{Env}
use payment_gateway_in_rust.Payment.Rows.{IsSolvent, KeepsIdentity}
use payment_gateway_in_rust.Payment.Invariant.{RowsInv, update_all-RowsInv}
use payment_gateway_in_rust.Settlement.Settler.{
  Books, is_selected, set_settled, settle_payments, write_settlement, settle_merchant, overflows,
  commit_settlement, is_any, payment_ids,
}

same_settled : (now : Timestamp) → KeepsIdentity (set_settled now)
same_settled now = record { same_id = λ p. refl; same_merchant = λ p. refl; same_key = λ p. refl }

settled-IsSolvent : (now : Timestamp) (p : Payment) → IsSolvent p → IsSolvent (set_settled now p)
settled-IsSolvent now p h = record { nonneg = h.nonneg; within = h.within; untouched = λ o. cc }

-- The payments stay in order, and the ledger is left alone.
abbrev pub Keeps : Books → Books → Type 0
Keeps b b' =
    (RowsInv b.world.payments → RowsInv b'.world.payments)
    × (b'.world.ledger_entries ≡ b.world.ledger_entries)

write_settlement-Keeps :
    (m : Uuid) (ps : List Payment) (total fee net : ℤ) (b : Books)
    → Keeps b (write_settlement m ps total fee net b).1
unfolding write_settlement commit_settlement
write_settlement-Keeps m ps total fee net b =
    elim (Bool-cases (is_some (find (overflows m net total) b.merchant_balances))) [
      | inl e ↦ rw e (λ h. h, refl)
      | inr e ↦ rw e (
        update_all-RowsInv (λ p. is_any (payment_ids ps) p.id) (set_settled b.world.now)
            b.world.payments (same_settled b.world.now) (settled-IsSolvent b.world.now),
        refl,
      )
    ]

settle_payments-Keeps :
    (env : Env) (m : Uuid) (ps : List Payment) (b : Books) → Keeps b (settle_payments env m ps b).1
unfolding settle_payments
settle_payments-Keeps env m [] b = (λ h. h, refl)
settle_payments-Keeps env m (p ∷ ps) b = write_settlement-Keeps m (p ∷ ps) _ _ _ b

pub settle_merchant-Keeps :
    (env : Env) (skips : Uuid → Bool) (m : Uuid) (b : Books)
    → Keeps b (settle_merchant env skips m b).1
unfolding settle_merchant
settle_merchant-Keeps env skips m b =
    settle_payments-Keeps env m (keep (is_selected skips m) b.world.payments) b
