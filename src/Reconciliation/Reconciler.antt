-- ===== src/Reconciliation/Reconciler.antt =====
-- crates/reconciliation-service/src/reconciler.rs: a run over the payments of the last day. The
-- column `status` of a payment is never NULL.
use payment_gateway_in_rust.Prelude.{
  ℕ, ◌+◌, ◌-◌, ◌%◌, String, str_eq, Bool, true, false, not, ◌&&◌, ◌||◌, Option, none, some, List,
  [], ◌∷◌, ◌⊎◌, inl, inr, ltb, leb, ◌==◌, get_or, or_else, length, keep, update_where,
  if◌then◌else◌,
}
use payment_gateway_in_rust.Prelude.Int.{ℤ, pos, negsuc, eqb_ℤ}
use payment_gateway_in_rust.Common.{Uuid, Timestamp, Text, lit, int, Json, Payment, status_text}
use payment_gateway_in_rust.Reconciliation.Tables.{
  Run, Mismatch, Records, insert_run, select_payments, insert_mismatch, update_run, ReconEnv,
}

-- An `i32` given by its 32 bits.
abbrev pub signed_32 : ℕ → ℤ
signed_32 n = if ltb n 2147483648 then pos n else negsuc (4294967295 - n)

-- The count so far, as the bits of an `i32`, or the error that ends the run; and the mismatches.
abbrev pub Progress : Type 0
Progress = (Text ⊎ ℕ) × List Mismatch

-- `?`
abbrev pub and_then : Progress → (ℕ → List Mismatch → Progress) → Progress
and_then (inl e, rows) k = (inl e, rows)
and_then (inr n, rows) k = k n rows

-- The INSERT of `record_mismatch`, which may fail, and `mismatches += 1`.
abbrev pub record_mismatch : (failure : Option Text) → Mismatch → ℕ → List Mismatch → Progress
record_mismatch (some e) m n rows = (inl e, rows)
record_mismatch none m n rows = (inr ((n + 1) % 4294967296), m ∷ rows)

-- `record_mismatch(..).await?; mismatches += 1`, where the test holds.
unfoldable pub record_if : ReconEnv → Bool → Mismatch → ℕ → List Mismatch → Progress
record_if env false m n rows = (inr n, rows)
record_if env true m n rows =
    record_mismatch (env.failure (insert_mismatch m (length rows))) m n rows

-- `c["id"].as_str()` is the reference.
abbrev pub has_charge_id : ReconEnv → String → Json → Bool
has_charge_id env reference c = elim (env.serde.as_str (env.serde.index c "id")) [
  | none ↦ false
  | some i ↦ str_eq i reference
]

-- `stripe_index.get(..)`: of the charges with one id the last is kept.
unfoldable pub find_charge : ReconEnv → List Json → (reference : String) → Option Json
find_charge env [] reference = none
find_charge env (c ∷ cs) reference =
    or_else (find_charge env cs reference) (if has_charge_id env reference c then some c else none)

abbrev pub stripe_amount : ReconEnv → Json → ℤ
stripe_amount env charge = get_or (env.as_i64 (env.serde.index charge "amount")) (pos 0)

abbrev pub stripe_status : ReconEnv → Json → String
stripe_status env charge = get_or (env.serde.as_str (env.serde.index charge "status")) "unknown"

abbrev pub expected_stripe : (our_status : String) → String
expected_stripe our_status =
    if str_eq our_status "captured" || str_eq our_status "settled"
    then "succeeded"
    else if str_eq our_status "failed"
    then "failed"
    else ""

abbrev pub amount_differs : ReconEnv → Payment → Json → Bool
amount_differs env p charge = not (eqb_ℤ (stripe_amount env charge) p.amount)

abbrev pub status_differs : ReconEnv → Payment → Json → Bool
status_differs env p charge =
    not (str_eq (expected_stripe (status_text p.status)) "")
    && not (str_eq (stripe_status env charge) (expected_stripe (status_text p.status)))

module _ (env : ReconEnv) (run_id : Uuid) where
  abbrev pub missing_in_provider : Payment → Mismatch
  missing_in_provider p = record {
    run_id = run_id;
    payment_id = p.id;
    mismatch_type = "missing_in_provider";
    our_value = lit (status_text p.status) ∷ [];
    provider_value = lit "not_found_in_stripe" ∷ [];
  }

  abbrev pub amount_mismatch : Payment → Json → Mismatch
  amount_mismatch p charge = record {
    run_id = run_id;
    payment_id = p.id;
    mismatch_type = "amount_mismatch";
    our_value = int p.amount ∷ [];
    provider_value = int (stripe_amount env charge) ∷ [];
  }

  abbrev pub status_mismatch : Payment → Json → Mismatch
  status_mismatch p charge = record {
    run_id = run_id;
    payment_id = p.id;
    mismatch_type = "status_mismatch";
    our_value = lit (status_text p.status) ∷ [];
    provider_value = lit (stripe_status env charge) ∷ [];
  }

  unfoldable pub compare_charge : Payment → Option Json → ℕ → List Mismatch → Progress
  unfolding record_if
  compare_charge p none n rows = record_if env true (missing_in_provider p) n rows
  compare_charge p (some charge) n rows =
      and_then (record_if env (amount_differs env p charge) (amount_mismatch p charge) n rows)
        (record_if env (status_differs env p charge) (status_mismatch p charge))

  unfoldable pub check_payment :
      List Json → Payment → (reference : Option String) → ℕ → List Mismatch → Progress
  unfolding compare_charge find_charge
  check_payment charges p none n rows = (inr n, rows)
  check_payment charges p (some reference) n rows =
      compare_charge p (find_charge env charges reference) n rows

  unfoldable pub check_payments : List Json → List Payment → ℕ → List Mismatch → Progress
  unfolding check_payment
  check_payments charges [] n rows = (inr n, rows)
  check_payments charges (p ∷ ps) n rows =
      and_then (check_payment charges p p.acquirer_reference n rows)
        (λ n' rows'. check_payments charges ps n' rows')

unfoldable pub fetch_stripe_charges :
    ReconEnv → (created_gte created_lte : Timestamp) → Text ⊎ List Json
fetch_stripe_charges env created_gte created_lte =
    if str_eq env.stripe_api_key ""
    then inr []
    else elim (env.stripe_reply created_gte created_lte) [
      | inl e ↦ inl e
      | inr reply ↦ inr (get_or (env.as_array (env.serde.index reply "data")) [])
    ]

-- `acquirer_id = 'stripe' AND captured_at BETWEEN $1 AND $2`, which no NULL satisfies.
abbrev pub is_captured_within : (period_start period_end : Timestamp) → Payment → Bool
is_captured_within period_start period_end p =
    elim p.acquirer_id [ none ↦ false | some a ↦ str_eq a "stripe" ]
    && elim p.captured_at [ none ↦ false | some t ↦ leb period_start t && leb t period_end ]

-- The loop's result, in place of the pair `(checked, mismatches)`: `checked` is the number of rows.
unfoldable pub reconcile_stripe :
    ReconEnv
    → (run_id : Uuid) → (period_start period_end : Timestamp) → List Payment
    → List Mismatch
    → Progress
unfolding fetch_stripe_charges check_payments
reconcile_stripe env run_id period_start period_end our_payments rows =
    elim (env.failure select_payments) [
      | some e ↦ (inl e, rows)
      | none ↦ elim (fetch_stripe_charges env period_start period_end) [
        | inl e ↦ (inl e, rows)
        | inr charges ↦ check_payments env run_id charges our_payments 0 rows
      ]
    ]

abbrev pub new_run : (run_id : Uuid) (now : Timestamp) → Run
new_run run_id now = record {
  id = run_id;
  provider = "stripe";
  period_start = now - 86400;
  period_end = now;
  status = "running";
  payments_checked = pos 0;
  mismatches_found = pos 0;
  error = none;
  started_at = now;
  completed_at = none;
}

abbrev pub set_completed : (now : Timestamp) (checked mismatches : ℤ) → Run → Run
set_completed now checked mismatches r = record r {
  status = "completed";
  payments_checked = checked;
  mismatches_found = mismatches;
  completed_at = some now;
}

abbrev pub set_run_failed : (now : Timestamp) → Text → Run → Run
set_run_failed now e r = record r { status = "failed"; error = some e; completed_at = some now }

-- From the result of the comparison to the answer; `runs` has the new run.
unfoldable pub finish_run :
    ReconEnv
    → (run_id : Uuid) (now : Timestamp) (checked : ℕ) → Progress
    → List Run
    → (Text ⊎ Uuid) × Records
finish_run env run_id now checked (inr n, rows) runs =
    elim (env.failure (update_run run_id "completed")) [
      | some e ↦ (inl e, record { runs = runs; mismatches = rows })
      | none ↦ (
        inr run_id,
        record {
          runs =
              update_where (λ r. r.id == run_id)
                (set_completed now (signed_32 (checked % 4294967296)) (signed_32 n)) runs;
          mismatches = rows;
        },
      )
    ]
finish_run env run_id now checked (inl e, rows) runs =
    elim (env.failure (update_run run_id "failed")) [
      | some e' ↦ (inl e', record { runs = runs; mismatches = rows })
      | none ↦ (
        inl e,
        record {
          runs = update_where (λ r. r.id == run_id) (set_run_failed now e) runs;
          mismatches = rows;
        },
      )
    ]

abbrev pub our_payments : (now : Timestamp) → List Payment → List Payment
our_payments now payments = keep (is_captured_within (now - 86400) now) payments

unfoldable pub run_daily :
    ReconEnv → (run_id : Uuid) (now : Timestamp) → List Payment → Records → (Text ⊎ Uuid) × Records
unfolding reconcile_stripe finish_run
run_daily env run_id now payments s = elim (env.failure (insert_run (new_run run_id now))) [
  | some e ↦ (inl e, s)
  | none ↦
      finish_run env run_id now (length (our_payments now payments))
        (reconcile_stripe env run_id (now - 86400) now (our_payments now payments) s.mismatches)
        (new_run run_id now ∷ s.runs)
]
