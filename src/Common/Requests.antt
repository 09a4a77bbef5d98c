-- ===== src/Common/Requests.antt =====
-- crates/common/src/models.rs: the requests, and the rules that `validate` checks for them.
use payment_gateway_in_rust.Prelude.{ℕ, String, Bool, true, ◌&&◌, Option, none, some, leb}
use payment_gateway_in_rust.Prelude.Int.{ℤ, pos, leb_ℤ}
use payment_gateway_in_rust.Common.Values.{Uuid, Json}
use payment_gateway_in_rust.Common.Status.{Currency, CaptureMethod}
use payment_gateway_in_rust.Common.Models.{CardBrand}
use Prim.Native.String.{count}

pub data PaymentMethodInput : Type 0 where
  card :
      (token last4 : String) (brand : CardBrand) (exp_month exp_year : ℕ) (name : Option String)
      → PaymentMethodInput
  upi : (vpa : String) → PaymentMethodInput
  net_banking : (bank_code : String) → PaymentMethodInput

pub record CreatePaymentRequest : Type 0 where
  pub amount : ℤ
  pub currency : Currency
  pub description : Option String
  pub payment_method : PaymentMethodInput
  pub capture_method : Option CaptureMethod
  pub order_id : Option Uuid
  pub metadata : Option Json
  pub idempotency_key : Option String

pub record CreateRefundRequest : Type 0 where
  pub amount : Option ℤ
  pub reason : Option String
  pub idempotency_key : Option String

-- `#[validate(length(min, max))]` on an optional text counts its characters.
abbrev length_within : ℕ → ℕ → Option String → Bool
length_within lo hi none = true
length_within lo hi (some s) = leb lo (count s) && leb (count s) hi

abbrev at_least : ℤ → Option ℤ → Bool
at_least lo none = true
at_least lo (some a) = leb_ℤ lo a

-- The derived `CreatePaymentRequest::validate`.
unfoldable pub validate_payment : CreatePaymentRequest → Bool
validate_payment r =
    (leb_ℤ (pos 1) r.amount && leb_ℤ r.amount (pos 10000000000))
    && (length_within 0 500 r.description && length_within 1 255 r.idempotency_key)

-- The derived `CreateRefundRequest::validate`.
unfoldable pub validate_refund : CreateRefundRequest → Bool
validate_refund r = at_least (pos 1) r.amount && length_within 1 255 r.idempotency_key
