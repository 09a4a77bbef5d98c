-- ===== src/Settlement/Paid.antt =====
-- What the settlement of one merchant does to the payments and pays out.
use payment_gateway_in_rust.Prelude.{
  ◌==◌, some, if◌then◌else◌, ◌+◌, ◌<◌, ◌≡◌, refl, sym, ap, subst, ◌∙◌, inl, inr, Bool, true, false,
  none, List, [], ◌∷◌, map, is_some, arith, find, keep, update_where, All, Bool-cases,
}
use payment_gateway_in_rust.Prelude.Int.{
  ltb_ℤ, ℤ, pos, ◌+ℤ◌, ◌-ℤ◌, ◌≤ℤ◌, +ℤ_parts, -ℤ_parts, eq_of_parts, wrap_i64, wrap_i64_id, pos_part,
}
use payment_gateway_in_rust.Common.{Uuid, Timestamp, Payment, due_amount, settled, ok}
use payment_gateway_in_rust.Payment.World.{Env}
use payment_gateway_in_rust.Payment.Statements.{has_id}
use payment_gateway_in_rust.Payment.Rows.{UniqueIds}
use payment_gateway_in_rust.Settlement.Settler.{
  Books, Settlement, is_selected, is_any, payment_ids, set_settled, sum_amounts, settle_payments,
  write_settlement, settle_merchant, commit_settlement, MerchantBalance, overflows,
}

module _ (t : Payment → Bool) where
  is_any-absent :
      (i : Uuid) (ps : List Payment)
      → find (has_id i) ps ≡ none
      → is_any (payment_ids (keep t ps)) i ≡ false
  unfolding is_any
  is_any-absent i [] h = refl
  is_any-absent i (p ∷ ps) h = elim (Bool-cases (t p)) [
    | inl e ↦ rw e (ground (arith, is_any-absent i ps))
    | inr e ↦ rw e (is_any-absent i ps (ground (arith, h)))
  ]

  add_first :
      (i : Uuid) (js : List Uuid) (ps : List Payment)
      → find (has_id i) ps ≡ none
      → All (λ p. is_any js p.id ≡ t p) ps
      → All (λ p. is_any (i ∷ js) p.id ≡ t p) ps
  unfolding is_any
  add_first i js [] h k = tt
  add_first i js (p ∷ ps) h k = (ground (arith, h, k.0), add_first i js ps (ground (arith, h)) k.1)

  keep_hit : (p : Payment) (ps : List Payment) → t p ≡ true → keep t (p ∷ ps) ≡ p ∷ keep t ps
  keep_hit p ps e = rw e refl

  keep_miss : (p : Payment) (ps : List Payment) → t p ≡ false → keep t (p ∷ ps) ≡ keep t ps
  keep_miss p ps e = rw e refl

  -- Identifiers are unique, so the rows of the identifiers that were selected are those selected.
  pub is_any-selected :
      (ps : List Payment) → UniqueIds ps → All (λ p. is_any (payment_ids (keep t ps)) p.id ≡ t p) ps
  unfolding is_any
  is_any-selected [] u = tt
  is_any-selected (p ∷ ps) u = elim (Bool-cases (t p)) [
    | inl e ↦
        subst (λ qs. All (λ r. is_any (payment_ids qs) r.id ≡ t r) (p ∷ ps)) (sym (keep_hit p ps e))
          (ground (arith, e), add_first p.id _ ps u.0 (is_any-selected ps u.1))
    | inr e ↦
        subst (λ qs. All (λ r. is_any (payment_ids qs) r.id ≡ t r) (p ∷ ps))
          (sym (keep_miss p ps e)) (is_any-absent p.id ps u.0 ∙ sym e, is_any-selected ps u.1)
  ]

pub update-agree :
    (s t : Payment → Bool) (f : Payment → Payment) (ps : List Payment)
    → All (λ p. s p ≡ t p) ps
    → update_where s f ps ≡ update_where t f ps
update-agree s t f [] h = refl
update-agree s t f (p ∷ ps) h = rw (h.0, update-agree s t f ps h.1) refl

-- After the UPDATE nothing of the selection is left.
pub keep-settled :
    (skips : Uuid → Bool) (m : Uuid) (now : Timestamp) (ps : List Payment)
    → keep (is_selected skips m) (update_where (is_selected skips m) (set_settled now) ps) ≡ []
keep-settled skips m now [] = refl
keep-settled skips m now (p ∷ ps) = elim (Bool-cases (is_selected skips m p)) [
  | inl e ↦ rw e (ground (arith, keep-settled skips m now ps))
  | inr e ↦ rw (e, keep-settled skips m now ps, e) refl
]

-- The exact sum.
unfoldable pub due_total : List Payment → ℤ
due_total [] = pos 0
due_total (p ∷ ps) = due_amount p +ℤ due_total ps

abbrev pub DueNonneg : List Payment → Type 0
DueNonneg = All λ p. pos 0 ≤ℤ due_amount p

due_total_nonneg : (ps : List Payment) → DueNonneg ps → pos 0 ≤ℤ due_total ps
unfolding due_total
due_total_nonneg [] h = ground arith
due_total_nonneg (p ∷ ps) h =
    ground (arith, h.0, due_total_nonneg ps h.1, +ℤ_parts (due_amount p) (due_total ps))

-- Within the range of `i64` the loop computes the exact sum.
pub sum_amounts-exact :
    (ps : List Payment) (t : ℤ)
    → pos 0 ≤ℤ t
    → DueNonneg ps
    → pos_part t + pos_part (due_total ps) < 9223372036854775808
    → sum_amounts ps t ≡ t +ℤ due_total ps
unfolding sum_amounts due_total
sum_amounts-exact [] t n h b = eq_of_parts _ _ (ground (arith, +ℤ_parts t (pos 0)))
sum_amounts-exact (p ∷ ps) t n h b =
    let rest = due_total_nonneg ps h.1 in
    let first = +ℤ_parts t (due_amount p) in
    let all = +ℤ_parts (due_amount p) (due_total ps) in
    let same : wrap_i64 (t +ℤ due_amount p) ≡ t +ℤ due_amount p =
      wrap_i64_id (t +ℤ due_amount p) (ground (arith, h.0)) in
    let rest_exact =
      sum_amounts-exact ps (t +ℤ due_amount p) (ground (arith, h.0)) h.1 (ground (arith, h.0)) in
    rw (same, rest_exact)
      (eq_of_parts _ _ (
        ground (
          arith,
          +ℤ_parts (t +ℤ due_amount p) (due_total ps),
          +ℤ_parts t (due_amount p +ℤ due_total ps),
        )))

pub write_settlement-commits :
    (m : Uuid) (ps : List Payment) (total fee net : ℤ) (b : Books) {n : ℤ} {b' : Books}
    → write_settlement m ps total fee net b ≡ (ok n, b')
    → (n ≡ net) × (b' ≡ commit_settlement m ps total fee net b)
unfolding write_settlement
write_settlement-commits m ps total fee net b {n} {b'} h =
    elim (Bool-cases (is_some (find (overflows m net total) b.merchant_balances))) [
      | inl e ↦ absurd (ground (arith, e, h))
      | inr e ↦ (ground (arith, e, h), ground (arith, e, h))
    ]

-- Taking a fee within the total off it stays within the range of `i64`.
net-exact :
    (total fee : ℤ)
    → pos 0 ≤ℤ total
    → pos_part total < 9223372036854775808
    → pos 0 ≤ℤ fee
    → fee ≤ℤ total
    → wrap_i64 (total -ℤ fee) ≡ total -ℤ fee
net-exact total fee n small f within =
    wrap_i64_id (total -ℤ fee) (ground (arith, -ℤ_parts total fee))

abbrev pub payout : Settlement → Uuid × ℤ
payout s = (s.merchant_id, s.amount)

-- A payment that is paid out, and the balances that the payout leaves.
abbrev pub paid_out : Timestamp → Payment → Payment
paid_out now p = record p { status = settled; settled_at = some now; updated_at = now }

abbrev pub paid_into : (net total : ℤ) → MerchantBalance → MerchantBalance
paid_into net total b = record b {
  available = b.available +ℤ net;
  pending = if ltb_ℤ (pos 0) (b.pending -ℤ total) then b.pending -ℤ total else pos 0;
}

-- The settlement of one merchant: the payments that are selected, and no other row, become settled,
-- so that none is left to select; what is returned, recorded as a settlement and made available is
-- the total less the fee.
pub record Settles (env : Env) (skips : Uuid → Bool) (m : Uuid) (net : ℤ) (b b' : Books)
    : Type 0 where
  pub total : ℤ
  pub exact : total ≡ due_total (keep (is_selected skips m) b.world.payments)
  pub parts : net +ℤ env.fee_of total ≡ total
  pub rows :
      b'.world.payments ≡ update_where (is_selected skips m) (paid_out b.world.now) b.world.payments
  pub none_left : keep (is_selected skips m) b'.world.payments ≡ []
  pub recorded : map payout b'.settlements ≡ (m, net) ∷ map payout b.settlements
  pub balances :
      b'.merchant_balances
      ≡ update_where (λ r. r.merchant_id == m) (paid_into net total) b.merchant_balances
  pub books : b'.world.ledger_entries ≡ b.world.ledger_entries

-- Where the payments are solvent with unique identifiers, the captured amounts of those that are
-- selected add up within 64 bits, and the fee is between zero and the total: a settlement of a
-- merchant with anything to settle that succeeds settles exactly the selected payments, leaves
-- none to select, records and adds to what is available of the merchant's balances the total of their captured amounts less the fee,
-- takes the total off what is pending down to
-- zero, and posts nothing to the ledger. What was refunded of them is not taken off the total.
pub settle_merchant-Settles :
    (env : Env) (skips : Uuid → Bool) (m : Uuid) (b : Books) (p : Payment) (ps : List Payment)
    (n : ℤ) (b' : Books)
    → UniqueIds b.world.payments
    → keep (is_selected skips m) b.world.payments ≡ p ∷ ps
    → DueNonneg (p ∷ ps)
    → pos_part (due_total (p ∷ ps)) < 9223372036854775808
    → pos 0 ≤ℤ env.fee_of (due_total (p ∷ ps))
    → env.fee_of (due_total (p ∷ ps)) ≤ℤ due_total (p ∷ ps)
    → settle_merchant env skips m b ≡ (ok n, b')
    → Settles env skips m n b b'
unfolding settle_merchant settle_payments commit_settlement
settle_merchant-Settles env skips m b p ps n b' unique sel nonneg small fee_nonneg fee_within h =
    let exact : sum_amounts (p ∷ ps) (pos 0) ≡ due_total (p ∷ ps) =
      sum_amounts-exact (p ∷ ps) (pos 0) (ground arith) nonneg (omega (arith, small))
      ∙ eq_of_parts _ _ (ground (arith, +ℤ_parts (pos 0) (due_total (p ∷ ps)))) in
    let wrote = write_settlement-commits m (p ∷ ps) _ _ _ b (rw (sel, exact) at h) in
    let agree =
      subst (λ qs. All (λ r. is_any (payment_ids qs) r.id ≡ is_selected skips m r) b.world.payments)
        sel (is_any-selected (is_selected skips m) b.world.payments unique) in
    let rows = ap (λ v. v.world.payments) wrote.1 ∙ update-agree _ _ _ b.world.payments agree in
    let net =
      wrote.0
      ∙ net-exact (due_total (p ∷ ps)) _ (due_total_nonneg (p ∷ ps) nonneg) small fee_nonneg
          fee_within in
    record {
      total = due_total (p ∷ ps);
      exact = ap due_total (sym sel);
      parts = eq_of_parts _ _ (
          rw net (
            ground (
              arith,
              -ℤ_parts (due_total (p ∷ ps)) (env.fee_of (due_total (p ∷ ps))),
              +ℤ_parts (due_total (p ∷ ps) -ℤ env.fee_of (due_total (p ∷ ps)))
                  (env.fee_of (due_total (p ∷ ps))),
            )));
      rows = rows;
      none_left = ap (keep (is_selected skips m)) rows ∙ keep-settled skips m _ b.world.payments;
      recorded = rw (wrote.1, wrote.0) refl;
      balances = rw (wrote.1, wrote.0) refl;
      books = ap (λ v. v.world.ledger_entries) wrote.1;
    }
