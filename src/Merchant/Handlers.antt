-- ===== src/Merchant/Handlers.antt =====
-- crates/merchant-service/src/handlers.rs: the validation of requests, the calls of db.rs, and the
-- responses. The checks of addresses are library functions, and the vault key is an argument.
use Prim.Native.String.{count}
use payment_gateway_in_rust.Prelude.{
  ℕ, String, Bool, true, ◌&&◌, Option, none, some, List, [], ◌∷◌, inl, inr, leb, if◌then◌else◌,
}
use payment_gateway_in_rust.Common.{
  Uuid, Text, lit, uuid, Json, null, bool, num, str, utf8, id as id_json, time, obj, end, field,
  validation, not_found, internal, AppResult, ok, err, api_ok,
}
use payment_gateway_in_rust.Crypto.Bytes.{Bytes}
use payment_gateway_in_rust.Crypto.Primitives.{Primitives}
use payment_gateway_in_rust.Merchant.Tables.{
  KycStatus, pending, under_review, approved, rejected, requires_documents, Merchant, Tables,
}
use payment_gateway_in_rust.Merchant.Store

-- A status and the data of the envelope.
pub record Response : Type 0 where
  pub status : ℕ
  pub body : Json

-- The checks of the crate `validator`; `errors_text` is what it prints of the failed ones.
pub record Validator : Type 0 where
  pub is_email : String → Bool
  pub is_url : String → Bool
  pub errors_text : Text

pub record CreateMerchantRequest : Type 0 where
  pub business_name : String
  pub email : String
  pub phone : Option String
  pub website : Option String

abbrev when_given : (String → Bool) → Option String → Bool
when_given p none = true
when_given p (some s) = p s

-- The derived `validate`.
unfoldable pub validate_merchant : Validator → CreateMerchantRequest → Bool
validate_merchant v r =
    (leb 1 (count r.business_name) && leb (count r.business_name) 200)
    && (v.is_email r.email
        && (when_given (λ s. leb (count s) 20) r.phone && when_given v.is_url r.website))

abbrev kyc_text : KycStatus → String
kyc_text pending = "pending"
kyc_text under_review = "under_review"
kyc_text approved = "approved"
kyc_text rejected = "rejected"
kyc_text requires_documents = "requires_documents"

abbrev optional : Option String → Json
optional none = null
optional (some s) = str s

abbrev optional_bytes : Option Bytes → Json
optional_bytes none = null
optional_bytes (some b) = utf8 b

abbrev optional_id : Option Uuid → Json
optional_id none = null
optional_id (some i) = id_json i

-- What serde writes of a `Merchant`: every field, the hashes and the secret too, and no version.
unfoldable pub merchant_json : Merchant → Json
merchant_json m = obj (
    field "id" (id_json m.id) (
      field "business_name" (str m.business_name) (
        field "email" (str m.email) (
          field "phone" (optional m.phone) (
            field "website" (optional m.website) (
              field "kyc_status" (str (kyc_text m.kyc_status)) (
                field "api_key_hash" (utf8 m.api_key_hash) (
                  field "test_api_key_hash" (utf8 m.test_api_key_hash) (
                    field "webhook_url" (optional m.webhook_url) (
                      field "webhook_secret_enc" (optional_bytes m.webhook_secret_enc) (
                        field "fee_plan_id" (optional_id m.fee_plan_id) (
                          field "is_active" (bool m.is_active) (
                            field "created_at" (time m.created_at)
                              (field "updated_at" (time m.updated_at) end))))))))))))))

abbrev answer : ℕ → (request_id : String) → Json → Response
answer status request_id body = record { status = status; body = api_ok body request_id }

abbrev created_json : Store.CreateMerchantResult → Json
created_json r = obj (
    field "merchant" (merchant_json r.merchant) (
      field "live_api_key" (utf8 r.live_api_key) (
        field "test_api_key" (utf8 r.test_api_key)
          (field "message" (str "Save these API keys — they will not be shown again.") end))))

unfoldable pub create_merchant :
    Primitives
    → Validator
    → Store.Randoms
    → (vault_key_hex : Bytes) → (request_id : String) → CreateMerchantRequest
    → Tables
    → AppResult Response × Tables
unfolding validate_merchant
create_merchant c v x vault_key_hex request_id req t =
    if validate_merchant v req
    then (let r =
          Store.create_merchant c x
            (record {
              business_name = req.business_name;
              email = req.email;
              phone = req.phone;
              website = req.website;
            })
            vault_key_hex t in
        elim r.0 [
          | inl e ↦ (err (internal e), r.1)
          | inr made ↦ (ok (answer 201 request_id (created_json made)), r.1)
        ])
    else (err (validation v.errors_text), t)

unfoldable pub get_merchant : (request_id : String) → Uuid → Tables → AppResult Response
get_merchant request_id merchant_id t = elim (Store.get_merchant_by_id merchant_id t) [
  | none ↦ err (not_found (lit "Merchant " ∷ uuid merchant_id ∷ lit " not found" ∷ []))
  | some m ↦ ok (answer 200 request_id (merchant_json m))
]

unfoldable pub update_merchant :
    (request_id : String) → Uuid → Store.MerchantUpdate → Tables → AppResult Response × Tables
update_merchant request_id merchant_id req t =
    let r = Store.update_merchant merchant_id req t in
    if r.0
    then elim (Store.get_merchant_by_id merchant_id r.1) [
      | none ↦ (err (not_found (lit "Merchant " ∷ uuid merchant_id ∷ [])), r.1)
      | some m ↦ (ok (answer 200 request_id (merchant_json m)), r.1)
    ]
    else (
      err (
          validation (
            lit "Optimistic locking conflict — another update was applied. Refetch and retry."
            ∷ [])),
      r.1,
    )

abbrev rotated_json : (is_live : Bool) → Bytes → Json
rotated_json is_live new_key = obj (
    field "new_key" (utf8 new_key) (
      field "is_live" (bool is_live) (
        field "message"
          (str "This key will not be shown again. Update your integration immediately.") end)))

unfoldable pub rotate_api_key :
    Primitives
    → (random : Bytes) (request_id : String) → Uuid
    → (is_live : Bool) → Tables
    → AppResult Response × Tables
rotate_api_key c random request_id merchant_id is_live t =
    let r = Store.rotate_api_key c random merchant_id is_live t in
    elim r.0 [
      | inl e ↦ (err (internal e), r.1)
      | inr new_key ↦ (ok (answer 200 request_id (rotated_json is_live new_key)), r.1)
    ]

unfoldable pub get_balance : (request_id : String) → Uuid → Tables → Response
get_balance request_id merchant_id t =
    let b = Store.get_merchant_balance merchant_id t in
    answer 200 request_id (
      obj (
        field "merchant_id" (id_json merchant_id) (
          field "available" (num b.0)
            (field "pending" (num b.1) (field "reserved" (num b.2) end)))))

unfoldable pub register_webhook :
    Primitives
    → Validator
    → Store.Randoms
    → (vault_key_hex : Bytes) → (request_id : String) → Uuid
    → (url : String) (events : List String) → Tables
    → AppResult Response × Tables
register_webhook c v x vault_key_hex request_id merchant_id url events t =
    if v.is_url url
    then (let r = Store.register_webhook_endpoint c x merchant_id url events vault_key_hex t in
        elim r.0 [
          | inl e ↦ (err (internal e), r.1)
          | inr endpoint_id ↦ (
            ok (answer 201 request_id (obj (field "endpoint_id" (id_json endpoint_id) end))),
            r.1,
          )
        ])
    else (err (validation v.errors_text), t)
