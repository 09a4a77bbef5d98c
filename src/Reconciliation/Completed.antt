-- ===== src/Reconciliation/Completed.antt =====
-- What a run that completes records of the payments it compared.
use payment_gateway_in_rust.Prelude.{
  ℕ, ◌-◌, ◌%◌, ◌≤◌, ◌==◌, ◌≡◌, List, ◌∷◌, inr, All, length, update_where,
}
use payment_gateway_in_rust.Common.{Uuid, Timestamp, Json, Payment}
use payment_gateway_in_rust.Reconciliation.Tables.{Mismatch, ReconEnv, Records, Run}
use payment_gateway_in_rust.Reconciliation.Reconciler.{
  Progress, fetch_stripe_charges, new_run, set_completed, our_payments, signed_32,
}
use payment_gateway_in_rust.Reconciliation.Reports.{Reports, Agrees}

module _ (env : ReconEnv) where
  module _ (run_id : Uuid) (now : Timestamp) (checked : ℕ) where
    abbrev completed : (mismatches : ℕ) → List Mismatch → List Run → Records
    completed mismatches rows runs = record {
      runs =
          update_where (λ r. r.id == run_id)
            (set_completed now (signed_32 (checked % 4294967296)) (signed_32 mismatches)) runs;
      mismatches = rows;
    }

    abbrev Completes : Progress → List Run → Records → Type 0
    Completes r runs s' =
        (n : ℕ) × ((r ≡ (inr n, s'.mismatches)) × (s' ≡ completed n s'.mismatches runs))

  -- What is known of a run that completed: its row counts the payments and the rows it added, and
  -- where it added none, every payment that was compared agrees with a charge.
  pub record Reconciles (run_id : Uuid) (now : Timestamp) (ps : List Payment) (s s' : Records)
      : Type 0 where
    charges : List Json
    fetched : fetch_stripe_charges env (now - 86400) now ≡ inr charges
    grown : length s.mismatches ≤ length s'.mismatches
    counted :
        s'
        ≡ completed run_id now
            (length (our_payments now ps))
            ((length s'.mismatches - length s.mismatches) % 4294967296)
            s'.mismatches
            (new_run run_id now ∷ s.runs)
    agreed :
        length s'.mismatches ≡ length s.mismatches
        → All (λ p. Agrees env charges p p.acquirer_reference) (our_payments now ps)
