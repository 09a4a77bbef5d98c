-- ===== src/Payment/Examples.antt =====
-- The theorems on the payment service at concrete tables, requests and replies.
pub mod Runs
pub mod Cases
pub mod Requests
use payment_gateway_in_rust.Prelude.{
  ◌≡◌, ◌≢◌, refl, inl, inr, String, Bool, true, false, Option, none, some, List, [], ◌∷◌, str_eq,
  if◌then◌else◌, find, arith, eq_iff, ap,
}
use payment_gateway_in_rust.Prelude.Int.{ℤ, pos}
use payment_gateway_in_rust.Common.{
  Uuid, Text, lit, Json, null, str, bool, obj, end, field, Fields, Payment, PaymentStatus, created,
  authorized, captured, cancelled, settled, disputed, pending, CaptureMethod, automatic, manual,
  Refund, RefundStatus, CreatePaymentRequest, CreateRefundRequest, PaymentMethodInput,
  inr as rupees, acquirer_unavailable, invalid_state_transition, amount_exceeds_limit, LedgerEntry,
  fraud_blocked,
}
use payment_gateway_in_rust.Payment.World.{World, Env, Serde, SerdeLaws}
use payment_gateway_in_rust.Payment.External.{
  HttpReply, unreachable, response, json, Exchange, quiet,
}
use payment_gateway_in_rust.Payment.Rows.{IsSolvent}
use payment_gateway_in_rust.Payment.Invariant.{RowsInv}
use payment_gateway_in_rust.Payment.Steps.{Step, Reach, here, next, Inv, opens, cancels}

-- `serde_json` on the documents of the model: the first field of the name.
abbrev field_of : Fields → String → Json
field_of end key = null
field_of (field k v fs) key = if str_eq k key then v else field_of fs key

abbrev index_of : Json → String → Json
index_of (obj fs) key = field_of fs key
index_of _ key = null

abbrev string_of : Json → Option String
string_of (str s) = some s
string_of _ = none

abbrev bool_of : Json → Option Bool
bool_of (bool b) = some b
bool_of _ = none

abbrev pub json_access : Serde
json_access = record { index = index_of; as_str = string_of; as_bool = bool_of }

same_key : (k : String) → str_eq k k ≡ true
same_key k = (eq_iff k k).1 refl

other_key : (k j : String) → k ≢ j → str_eq k j ≡ false
other_key k j h = ground (arith, (eq_iff k j).0, h)

pub json_access_laws : SerdeLaws json_access
json_access_laws = record {
  index_here = λ k v fs. rw (same_key k) refl;
  index_there = λ k j v fs h. rw (other_key k j h) refl;
  index_end = λ j. refl;
  as_str_null = refl;
  as_str_str = λ t. refl;
  as_bool_null = refl;
  as_bool_bool = λ b. refl;
}

abbrev newest_of : List LedgerEntry → Option LedgerEntry
newest_of [] = none
newest_of (e ∷ es) = some e

-- A flat fee of 2, and a constant in place of the digest.
abbrev pub test_env : Env
test_env = record {
  fee_of = λ x. pos 2;
  serde = json_access;
  sha256_hex = λ t. "digest";
  newest = newest_of;
}

abbrev pub payment_1 : Payment
payment_1 = record {
  id = 1;
  merchant_id = 7;
  order_id = none;
  amount = pos 100;
  currency = rupees;
  status = created;
  payment_method = none;
  description = none;
  metadata = obj end;
  acquirer_id = none;
  acquirer_reference = none;
  failure_code = none;
  failure_message = none;
  capture_method = automatic;
  captured_amount = none;
  refunded_amount = pos 0;
  idempotency_key = some "key-1";
  created_at = 10;
  updated_at = 10;
  captured_at = none;
  settled_at = none;
  expires_at = none;
}

abbrev pub authorized_1 : Payment
authorized_1 = record payment_1 { status = authorized; capture_method = manual }

abbrev pub captured_1 : Payment
captured_1 = record payment_1 { status = captured; captured_amount = some (pos 100) }

abbrev pub cancelled_1 : Payment
cancelled_1 = record payment_1 { status = cancelled }

abbrev pub tables : List Payment → World
tables ps = record {
  payments = ps;
  refunds = [];
  ledger_entries = [];
  outbox_events = [];
  disputes = [];
  calls = [];
  now = 20;
  next_id = 50;
  merchants = 7 ∷ [];
  immediate_reference = false;
}

abbrev pub fresh_world : World
fresh_world = tables []

abbrev pub request : CreatePaymentRequest
request = record {
  amount = pos 100;
  currency = rupees;
  description = none;
  payment_method = PaymentMethodInput.upi "a@b";
  capture_method = none;
  order_id = none;
  metadata = none;
  idempotency_key = none;
}

abbrev pub refund_request : CreateRefundRequest
refund_request = record { amount = some (pos 40); reason = none; idempotency_key = some "refund-1" }

abbrev pub first_refund : Refund
first_refund = record {
  id = 3;
  payment_id = 1;
  merchant_id = 7;
  amount = pos 40;
  currency = rupees;
  status = RefundStatus.succeeded;
  reason = none;
  acquirer_refund_id = none;
  failure_reason = none;
  idempotency_key = some "refund-1";
  created_at = 10;
  updated_at = 10;
}

abbrev pub down : HttpReply
down = unreachable (lit "connection refused" ∷ [])

abbrev pub accepted : HttpReply
accepted =
    response 200
      (json (obj (field "acquirer_id" (str "stripe") (field "reference" (str "ch_1") end))))
