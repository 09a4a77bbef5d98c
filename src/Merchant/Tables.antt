-- ===== src/Merchant/Tables.antt =====
-- The tables that crates/merchant-service works on: `merchants` with the trigger on its version, the
-- balances, the endpoints of webhooks and the audit log.
use payment_gateway_in_rust.Prelude.{String, Bool, Option, List}
use payment_gateway_in_rust.Prelude.Int.{ℤ, pos, ◌+ℤ◌}
use payment_gateway_in_rust.Common.{Uuid, Timestamp}
use payment_gateway_in_rust.Crypto.Bytes.{Bytes}
use payment_gateway_in_rust.Settlement.Settler.{MerchantBalance}

pub data KycStatus : Type 0 where
  pending under_review approved rejected requires_documents : KycStatus

pub record Merchant : Type 0 where
  pub id : Uuid
  pub business_name : String
  pub email : String
  pub phone : Option String
  pub website : Option String
  pub kyc_status : KycStatus
  pub api_key_hash : Bytes
  pub test_api_key_hash : Bytes
  pub webhook_url : Option String
  pub webhook_secret_enc : Option Bytes
  pub fee_plan_id : Option Uuid
  pub is_active : Bool
  pub created_at : Timestamp
  pub updated_at : Timestamp

-- A row has a version beside the fields of the struct.
pub record MerchantRow : Type 0 where
  pub merchant : Merchant
  pub version : ℤ

pub record WebhookEndpointRow : Type 0 where
  pub id : Uuid
  pub merchant_id : Uuid
  pub url : String
  pub secret_enc : Bytes
  pub events : List String
  pub is_active : Bool

pub record AuditRow : Type 0 where
  pub actor_type : String
  pub actor_id : Uuid
  pub event : String
  pub resource_type : String
  pub resource_id : Uuid

pub record Tables : Type 0 where
  pub merchants : List MerchantRow
  pub merchant_balances : List MerchantBalance
  pub webhook_endpoints : List WebhookEndpointRow
  -- It takes no UPDATE and no DELETE.
  pub audit_log : List AuditRow
  pub now : Timestamp
  pub next_id : Uuid

-- What every UPDATE of a row of `merchants` does beside its own columns: the triggers
-- `merchants_updated_at` and `merchants_version`.
abbrev pub triggered : Timestamp → MerchantRow → MerchantRow
triggered now r = record r {
  merchant = record r.merchant { updated_at = now };
  version = r.version +ℤ pos 1;
}
