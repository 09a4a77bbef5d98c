-- ===== src/Reconciliation/Tables.antt =====
-- The rows and the statements of crates/reconciliation-service/src/reconciler.rs, which
-- migrations/008_ledger_accounts.sql declares, and what a run takes from elsewhere.
use payment_gateway_in_rust.Prelude.{ℕ, String, Option, List, ◌⊎◌}
use payment_gateway_in_rust.Prelude.Int.{ℤ}
use payment_gateway_in_rust.Common.{Uuid, Timestamp, Text, Json}
use payment_gateway_in_rust.Payment.World.{Serde}

-- A row of `reconciliation_runs`.
pub record Run : Type 0 where
  pub id : Uuid
  pub provider : String
  pub period_start : Timestamp
  pub period_end : Timestamp
  pub status : String
  pub payments_checked : ℤ
  pub mismatches_found : ℤ
  pub error : Option Text
  pub started_at : Timestamp
  pub completed_at : Option Timestamp

-- A row of `reconciliation_mismatches`.
pub record Mismatch : Type 0 where
  pub run_id : Uuid
  pub payment_id : Uuid
  pub mismatch_type : String
  pub our_value : Text
  pub provider_value : Text

pub record Records : Type 0 where
  pub runs : List Run
  pub mismatches : List Mismatch

-- The statements of a run; an INSERT of a mismatch is told apart by the rows before it.
pub data Statement : Type 0 where
  insert_run : Run → Statement
  select_payments : Statement
  insert_mismatch : Mismatch → (rows : ℕ) → Statement
  update_run : Uuid → (status : String) → Statement

-- What a run takes from elsewhere.
pub record ReconEnv : Type 0 where
  pub serde : Serde
  pub as_i64 : Json → Option ℤ
  pub as_array : Json → Option (List Json)
  pub stripe_api_key : String
  -- The answer to GET /v1/charges, at most 100 charges that were created between the two times.
  pub stripe_reply : (created_gte created_lte : Timestamp) → Text ⊎ Json
  -- The error of a statement that the database refuses.
  pub failure : Statement → Option Text
