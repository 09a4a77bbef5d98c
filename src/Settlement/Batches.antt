-- ===== src/Settlement/Batches.antt =====
-- What a batch over all merchants leaves.
use payment_gateway_in_rust.Prelude.{
  ℕ, suc, ◌+◌, ◌≤◌, ◌≡◌, refl, sym, ap, subst, inl, inr, Bool, true, false, List, [], ◌∷◌, arith,
  keep, length, update_where, All, Bool-cases,
}
use payment_gateway_in_rust.Prelude.Int.{ℤ}
use payment_gateway_in_rust.Common.{Uuid, Timestamp, Payment, ok}
use payment_gateway_in_rust.Payment.World.{Env}
use payment_gateway_in_rust.Payment.Effects.{Result-cases}
use payment_gateway_in_rust.Settlement.Settler.{
  Books, is_unsettled, is_selected, is_any, payment_ids, set_settled, settle_payments,
  settle_merchant, settle_all, distinct_merchants, run_settlement_batch,
}
use payment_gateway_in_rust.Settlement.Paid.{write_settlement-commits}

-- No other transaction holds a row.
abbrev pub unlocked : Uuid → Bool
unlocked i = false

-- Every payment that is captured and not settled is of one of the merchants.
abbrev pub Covered : List Uuid → List Payment → Type 0
Covered ms = All λ p. is_unsettled p ≡ true → is_any ms p.merchant_id ≡ true

module _ (m : Uuid) where
  abbrev chosen : Payment → Bool
  chosen = is_selected unlocked m

  chosen_ids :
      (js : List Uuid) (ps : List Payment)
      → ((i : Uuid) → is_any (payment_ids (keep chosen ps)) i ≡ true → is_any js i ≡ true)
      → All (λ p. chosen p ≡ true → is_any js p.id ≡ true) ps
  unfolding is_any
  chosen_ids js [] h = tt
  chosen_ids js (p ∷ ps) h = elim (Bool-cases (chosen p)) [
    | inl e ↦
        let h' = rw e at h in
        (λ _. h' p.id (ground arith), chosen_ids js ps λ i k. h' i (ground (arith, k)))
    | inr e ↦ (λ c. absurd (ground (arith, c, e)), chosen_ids js ps (rw e at h))
  ]

  uncovered :
      (ms : List Uuid) (ps : List Payment)
      → All (λ p. chosen p ≡ true → is_any [] p.id ≡ true) ps
      → Covered (m ∷ ms) ps
      → Covered ms ps
  unfolding is_any
  uncovered ms [] h c = tt
  uncovered ms (p ∷ ps) h c = (λ u. ground (arith, u, c.0 u, h.0), uncovered ms ps h.1 c.1)

  settled-Covered :
      (now : Timestamp) (js ms : List Uuid) (ps : List Payment)
      → All (λ p. chosen p ≡ true → is_any js p.id ≡ true) ps
      → Covered (m ∷ ms) ps
      → Covered ms (update_where (λ p. is_any js p.id) (set_settled now) ps)
  unfolding is_any
  settled-Covered now js ms [] h c = tt
  settled-Covered now js ms (p ∷ ps) h c = elim (Bool-cases (is_any js p.id)) [
    | inl e ↦ rw e (λ u. absurd (ground (arith, u)), settled-Covered now js ms ps h.1 c.1)
    | inr e ↦ rw e (λ u. ground (arith, u, c.0 u, h.0, e), settled-Covered now js ms ps h.1 c.1)
  ]

  settle_payments-Covered :
      (env : Env) (qs : List Payment) (ms : List Uuid) (b : Books) {n : ℤ} {b' : Books}
      → settle_payments env m qs b ≡ (ok n, b')
      → All (λ p. chosen p ≡ true → is_any (payment_ids qs) p.id ≡ true) b.world.payments
      → Covered (m ∷ ms) b.world.payments
      → Covered ms b'.world.payments
  unfolding settle_payments
  settle_payments-Covered env [] ms b e h c =
      subst (λ v. Covered ms v.world.payments) (ap (λ r. r.1) e) (uncovered ms b.world.payments h c)
  settle_payments-Covered env (q ∷ qs) ms b e h c =
      subst (λ v. Covered ms v.world.payments)
        (sym (write_settlement-commits m (q ∷ qs) _ _ _ b e).1)
        (settled-Covered b.world.now (payment_ids (q ∷ qs)) ms b.world.payments h c)

  -- A settlement that succeeds leaves nothing of its merchant.
  settle_merchant-Covered :
      (env : Env) (ms : List Uuid) (b : Books) {n : ℤ} {b' : Books}
      → settle_merchant env unlocked m b ≡ (ok n, b')
      → Covered (m ∷ ms) b.world.payments
      → Covered ms b'.world.payments
  unfolding settle_merchant
  settle_merchant-Covered env ms b e c =
      settle_payments-Covered env (keep chosen b.world.payments) ms b e
        (chosen_ids _ b.world.payments λ i k. k) c

settle_all-at_most :
    (env : Env) (ms : List Uuid) (b : Books) (c : ℕ)
    → (settle_all env unlocked ms b c).0 ≤ c + length ms
unfolding settle_all
settle_all-at_most env [] b c = omega arith
settle_all-at_most env (m ∷ ms) b c = elim (Result-cases (settle_merchant env unlocked m b).0) [
  | inl (n, e) ↦
      rw (e, settle_all)
        (omega (arith, settle_all-at_most env ms (settle_merchant env unlocked m b).1 (suc c)))
  | inr (x, e) ↦
      rw (e, settle_all)
        (omega (arith, settle_all-at_most env ms (settle_merchant env unlocked m b).1 c))
]

settle_all-Covered :
    (env : Env) (ms : List Uuid) (b : Books) (c : ℕ)
    → (settle_all env unlocked ms b c).0 ≡ c + length ms
    → Covered ms b.world.payments
    → Covered [] (settle_all env unlocked ms b c).1.world.payments
unfolding settle_all
settle_all-Covered env [] b c h k = k
settle_all-Covered env (m ∷ ms) b c h k = elim (Result-cases (settle_merchant env unlocked m b).0) [
  | inl (n, e) ↦
      let h' = rw (e, settle_all) at h in
      rw (e, settle_all)
        (settle_all-Covered env ms (settle_merchant env unlocked m b).1 (suc c) (omega (arith, h'))
          (settle_merchant-Covered m env ms b
            (ap (λ o. (o, (settle_merchant env unlocked m b).1)) e) k))
  | inr (x, e) ↦
      let h' = rw (e, settle_all) at h in
      absurd (omega (arith, h', settle_all-at_most env ms (settle_merchant env unlocked m b).1 c))
]

widen :
    (js ks : List Uuid) (ps : List Payment)
    → ((i : Uuid) → is_any js i ≡ true → is_any ks i ≡ true)
    → Covered js ps
    → Covered ks ps
widen js ks [] h c = tt
widen js ks (p ∷ ps) h c = (λ u. h p.merchant_id (c.0 u), widen js ks ps h c.1)

every_merchant : (ps : List Payment) → Covered (distinct_merchants ps) ps
unfolding distinct_merchants is_any
every_merchant [] = tt
every_merchant (p ∷ ps) = (
  λ u. ground (arith, u),
  widen (distinct_merchants ps) (distinct_merchants (p ∷ ps)) ps (λ i k. ground (arith, k))
      (every_merchant ps),
)

none_unsettled : (ps : List Payment) → Covered [] ps → keep is_unsettled ps ≡ []
unfolding is_any
none_unsettled [] c = refl
none_unsettled (p ∷ ps) c = ground (arith, c.0, none_unsettled ps c.1)

-- A batch that meets no row that another transaction has locked, and that counts every merchant it
-- selected as settled, leaves no payment that is captured and not settled.
pub run_settlement_batch-leaves_none :
    (env : Env) (b : Books)
    → (run_settlement_batch env unlocked b).0 ≡ length (distinct_merchants b.world.payments)
    → keep is_unsettled (run_settlement_batch env unlocked b).1.world.payments ≡ []
unfolding run_settlement_batch
run_settlement_batch-leaves_none env b h = none_unsettled _ (
    settle_all-Covered env (distinct_merchants b.world.payments) b 0 (omega (arith, h))
      (every_merchant b.world.payments))
