-- ===== src/Reconciliation/Reports.antt =====
-- The comparison of payments with charges: what is counted, and what agrees where nothing is.
use payment_gateway_in_rust.Prelude.{
  ℕ, ◌+◌, ◌-◌, ◌%◌, ◌≤◌, ◌<◌, ◌≡◌, refl, String, str_eq, eq_iff, Bool, true, false, not, ◌&&◌,
  get_or, subst, Option, none, some, List, [], ◌∷◌, inl, inr, arith, All, length,
}
use payment_gateway_in_rust.Prelude.Int.{pos, eq_of_parts}
use payment_gateway_in_rust.Common.{
  Uuid, Text, Json, Payment, status_text, captured, settled, failed,
}
use payment_gateway_in_rust.Reconciliation.Tables.{Mismatch, ReconEnv}
use payment_gateway_in_rust.Reconciliation.Reconciler.{
  Progress, and_then, record_mismatch, record_if, find_charge, stripe_status, expected_stripe,
  compare_charge, check_payment, check_payments, amount_differs, status_differs, status_mismatch,
  missing_in_provider,
}

-- No error yet: the count rose by the rows that were added, modulo 2^32, and P holds if none were.
abbrev pub Reports : Type 0 → ℕ → List Mismatch → Progress → Type 0
Reports P n rows (inl e, rows') = Unit
Reports P n rows (inr n', rows') =
    (length rows ≤ length rows')
    × ((n' ≡ (n + (length rows' - length rows)) % 4294967296) × (length rows' ≡ length rows → P))

record_mismatch-Reports :
    (o : Option Text) (P : Type 0) (m : Mismatch) (n : ℕ) (rows : List Mismatch)
    → n < 4294967296
    → Reports P n rows (record_mismatch o m n rows)
record_mismatch-Reports none P m n rows h =
    (ground arith, (ground arith, λ l. absurd (ground (arith, l))))
record_mismatch-Reports (some e) P m n rows h = tt

record_if-Reports :
    (env : ReconEnv) (t : Bool) (m : Mismatch) (n : ℕ) (rows : List Mismatch)
    → n < 4294967296
    → Reports (t ≡ false) n rows (record_if env t m n rows)
unfolding record_if
record_if-Reports env false m n rows h = (ground arith, (ground arith, λ e. refl))
record_if-Reports env true m n rows h = record_mismatch-Reports _ _ m n rows h

negated : (s t : String) → not (str_eq s t) ≡ false → s ≡ t
negated s t h = (eq_iff s t).0 (ground (arith, h))

and_then-Reports :
    (P Q : Type 0) (n : ℕ) (rows : List Mismatch) (r : Progress) (k : ℕ → List Mismatch → Progress)
    → Reports P n rows r
    → ((n' : ℕ) (rows' : List Mismatch) → n' < 4294967296 → Reports Q n' rows' (k n' rows'))
    → Reports (P × Q) n rows (and_then r k)
and_then-Reports P Q n rows (inl e, rows') k h next = tt
and_then-Reports P Q n rows (inr n', rows') k (l, (c, p)) next =
    joined (k n' rows') (next n' rows' (ground (arith, c)))
  where
    joined : (r : Progress) → Reports Q n' rows' r → Reports (P × Q) n rows r
    joined (inl e, rows'') h = tt
    joined (inr n'', rows'') (l', (c', q)) =
        (ground arith, (ground arith, λ e. (p (ground arith), q (ground arith))))

Reports-map :
    (P Q : Type 0) (n : ℕ) (rows : List Mismatch) (r : Progress)
    → (P → Q)
    → Reports P n rows r
    → Reports Q n rows r
Reports-map P Q n rows (inl e, rows') f h = tt
Reports-map P Q n rows (inr n', rows') f (l, (c, p)) = (l, (c, λ e. f (p e)))

module _ (env : ReconEnv) where
  -- The charge is of the payment's amount, and its status is the one that the payment's asks for.
  abbrev pub AgreesWith : Payment → Json → Type 0
  AgreesWith p charge =
      (get_or (env.as_i64 (env.serde.index charge "amount")) (pos 0) ≡ p.amount)
      × (p.status ≡ captured → stripe_status env charge ≡ "succeeded")
      × (p.status ≡ settled → stripe_status env charge ≡ "succeeded")
      × (p.status ≡ failed → stripe_status env charge ≡ "failed")

  -- A payment without a reference is not compared.
  abbrev pub Agrees : List Json → Payment → Option String → Type 0
  Agrees charges p none = Unit
  Agrees charges p (some reference) =
      (charge : Json) × ((find_charge env charges reference ≡ some charge) × AgreesWith p charge)

  abbrev differs : (ours theirs : String) → Bool
  differs ours theirs =
      not (str_eq (expected_stripe ours) "") && not (str_eq theirs (expected_stripe ours))

  undiffering :
      (p : Payment) (charge : Json)
      → (amount_differs env p charge ≡ false) × (status_differs env p charge ≡ false)
      → AgreesWith p charge
  undiffering p charge (a, b) = (
    eq_of_parts _ _ (ground (arith, a)),
    λ e. negated _ _ (subst (λ s. differs (status_text s) (stripe_status env charge) ≡ false) e b),
    λ e. negated _ _ (subst (λ s. differs (status_text s) (stripe_status env charge) ≡ false) e b),
    λ e. negated _ _ (subst (λ s. differs (status_text s) (stripe_status env charge) ≡ false) e b),
  )

  module _ (run_id : Uuid) where
    compare_charge-Reports :
        (p : Payment) (found : Option Json) (n : ℕ) (rows : List Mismatch)
        → n < 4294967296
        → Reports
            ((charge : Json) × ((found ≡ some charge) × AgreesWith p charge))
            n
            rows
            (compare_charge env run_id p found n rows)
    unfolding compare_charge
    compare_charge-Reports p none n rows h =
        Reports-map _ _ n rows (record_if env true (missing_in_provider env run_id p) n rows)
          (λ e. absurd (ground (arith, e)))
          (record_if-Reports env true (missing_in_provider env run_id p) n rows h)
    compare_charge-Reports p (some charge) n rows h =
        Reports-map _ _ n rows _ (λ e. (charge, (refl, undiffering p charge e)))
          (and_then-Reports _ _ n rows _ _
            (record_if-Reports env (amount_differs env p charge) _ n rows h)
            (record_if-Reports env (status_differs env p charge)
              (status_mismatch env run_id p charge)))

    check_payment-Reports :
        (charges : List Json) (p : Payment) (o : Option String) (n : ℕ) (rows : List Mismatch)
        → n < 4294967296
        → Reports (Agrees charges p o) n rows (check_payment env run_id charges p o n rows)
    unfolding check_payment
    check_payment-Reports charges p none n rows h = (ground arith, (ground arith, λ e. tt))
    check_payment-Reports charges p (some r) n rows h =
        compare_charge-Reports p (find_charge env charges r) n rows h

    pub check_payments-Reports :
        (charges : List Json) (ps : List Payment) (n : ℕ) (rows : List Mismatch)
        → n < 4294967296
        → Reports
            (All (λ p. Agrees charges p p.acquirer_reference) ps)
            n
            rows
            (check_payments env run_id charges ps n rows)
    unfolding check_payments
    check_payments-Reports charges [] n rows h = (ground arith, (ground arith, λ e. tt))
    check_payments-Reports charges (p ∷ ps) n rows h =
        and_then-Reports _ _ n rows _ _
          (check_payment-Reports charges p p.acquirer_reference n rows h)
          (check_payments-Reports charges ps)
