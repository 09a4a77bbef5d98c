-- ===== src/Merchant/Store.antt =====
-- crates/merchant-service/src/db.rs: the statements, over the tables.
use payment_gateway_in_rust.Prelude.{
  suc, String, str_eq, Bool, true, false, ◌&&◌, ◌||◌, not, Option, none, some, List, [], ◌∷◌, ◌⊎◌,
  inl, inr, ◌==◌, is_some, or_else, get_or, find, update_where, if◌then◌else◌,
}
use payment_gateway_in_rust.Prelude.Int.{ℤ, pos, eqb_ℤ}
use payment_gateway_in_rust.Common.{Uuid, Timestamp, Text, lit, inr as rupees, ok, err}
use payment_gateway_in_rust.Crypto.Bytes.{Bytes, bytes_eq}
use payment_gateway_in_rust.Crypto.Primitives.{Primitives}
use payment_gateway_in_rust.Crypto.Digests.{hash_api_key, generate_api_key, generate_webhook_secret}
use payment_gateway_in_rust.Crypto.Cipher.{encrypt_aes256gcm}
use payment_gateway_in_rust.Settlement.Settler.{MerchantBalance}
use payment_gateway_in_rust.Merchant.Tables.{KycStatus, Merchant, MerchantRow, Tables, triggered}

pub record CreateMerchantInput : Type 0 where
  pub business_name : String
  pub email : String
  pub phone : Option String
  pub website : Option String

pub record CreateMerchantResult : Type 0 where
  pub merchant : Merchant
  pub live_api_key : Bytes
  pub test_api_key : Bytes

-- The random bytes of one request.
pub record Randoms : Type 0 where
  pub live : Bytes
  pub test : Bytes
  pub secret : Bytes
  pub nonce : Bytes

-- What an `anyhow` error prints.
abbrev pub Fallible : Type 0 → Type 0
Fallible A = Text ⊎ A

abbrev pub has_merchant_id : Uuid → MerchantRow → Bool
has_merchant_id id r = r.merchant.id == id

unfoldable pub get_merchant_by_id : Uuid → Tables → Option Merchant
get_merchant_by_id id t = elim (find (has_merchant_id id) t.merchants) [
  | some r ↦ some r.merchant
  | none ↦ none
]

abbrev pub has_api_key_hash : Bytes → MerchantRow → Bool
has_api_key_hash h r =
    (bytes_eq r.merchant.api_key_hash h || bytes_eq r.merchant.test_api_key_hash h)
    && r.merchant.is_active

unfoldable pub get_merchant_by_api_key_hash : Bytes → Tables → Option Merchant
get_merchant_by_api_key_hash h t = elim (find (has_api_key_hash h) t.merchants) [
  | some r ↦ some r.merchant
  | none ↦ none
]

-- The UNIQUE columns of `merchants`: each column by itself.
abbrev pub collides : Merchant → MerchantRow → Bool
collides m r =
    str_eq r.merchant.email m.email
    || (bytes_eq r.merchant.api_key_hash m.api_key_hash
        || bytes_eq r.merchant.test_api_key_hash m.test_api_key_hash)

abbrev pub new_merchant :
    (id : Uuid) (now : Timestamp)
    → CreateMerchantInput
    → (live_hash test_hash secret_enc : Bytes) → Merchant
new_merchant id now input live_hash test_hash secret_enc = record {
  id = id;
  business_name = input.business_name;
  email = input.email;
  phone = input.phone;
  website = input.website;
  kyc_status = KycStatus.pending;
  api_key_hash = live_hash;
  test_api_key_hash = test_hash;
  webhook_url = none;
  webhook_secret_enc = some secret_enc;
  fee_plan_id = none;
  is_active = true;
  created_at = now;
  updated_at = now;
}

abbrev pub zero_balance : Uuid → Timestamp → MerchantBalance
zero_balance id now = record {
  merchant_id = id;
  currency = rupees;
  available = pos 0;
  pending = pos 0;
  reserved = pos 0;
  updated_at = now;
}

-- The transaction of `create_merchant`.
unfoldable pub insert_merchant : Merchant → Tables → Fallible Tables
insert_merchant m t =
    if is_some (find (collides m) t.merchants) || is_some (find (has_merchant_id m.id) t.merchants)
    then inl (lit "duplicate key value violates unique constraint" ∷ [])
    else inr (record t {
      merchants = record { merchant = m; version = pos 1 } ∷ t.merchants;
      merchant_balances =
          if is_some (find (λ (b : MerchantBalance). b.merchant_id == m.id) t.merchant_balances)
          then t.merchant_balances
          else zero_balance m.id t.now ∷ t.merchant_balances;
      next_id = suc t.next_id;
    })

unfoldable pub create_merchant :
    Primitives
    → Randoms
    → CreateMerchantInput
    → (vault_key_hex : Bytes) → Tables
    → Fallible CreateMerchantResult × Tables
unfolding insert_merchant get_merchant_by_id
create_merchant c x input vault_key_hex t =
    let live_key = generate_api_key c x.live true in
    let test_key = generate_api_key c x.test false in
    elim (encrypt_aes256gcm c x.nonce vault_key_hex (generate_webhook_secret c x.secret)) [
      | err e ↦ (inl (lit "Failed to encrypt webhook secret" ∷ []), t)
      | ok secret_enc ↦
          elim (insert_merchant
            (new_merchant t.next_id t.now input (hash_api_key c live_key) (hash_api_key c test_key)
              secret_enc)
            t) [
              | inl e ↦ (inl e, t)
              | inr t' ↦ elim (get_merchant_by_id t.next_id t') [
                | none ↦ (inl (lit "Merchant not found after insert" ∷ []), t')
                | some m ↦ (
                  inr (record { merchant = m; live_api_key = live_key; test_api_key = test_key }),
                  t',
                )
              ]
            ]
    ]

pub record MerchantUpdate : Type 0 where
  pub business_name : Option String
  pub phone : Option String
  pub website : Option String
  pub webhook_url : Option String
  pub version : ℤ

-- The WHERE clause of `update_merchant`.
abbrev pub is_current : Uuid → ℤ → MerchantRow → Bool
is_current merchant_id expected_version r =
    has_merchant_id merchant_id r && (eqb_ℤ r.version expected_version && r.merchant.is_active)

-- COALESCE keeps a column where nothing is given.
abbrev pub set_details : MerchantUpdate → Timestamp → MerchantRow → MerchantRow
set_details u now r = triggered now (record r {
  merchant = record r.merchant {
    business_name = get_or u.business_name r.merchant.business_name;
    phone = or_else u.phone r.merchant.phone;
    website = or_else u.website r.merchant.website;
    webhook_url = or_else u.webhook_url r.merchant.webhook_url;
  };
})

-- Whether a row was affected.
unfoldable pub update_merchant : Uuid → MerchantUpdate → Tables → Bool × Tables
update_merchant merchant_id u t = (
  is_some (find (is_current merchant_id u.version) t.merchants),
  record t {
    merchants = update_where (is_current merchant_id u.version) (set_details u t.now) t.merchants;
  },
)

abbrev pub set_key : (is_live : Bool) → Bytes → Timestamp → MerchantRow → MerchantRow
set_key true h now r =
    triggered now (record r { merchant = record r.merchant { api_key_hash = h } })
set_key false h now r =
    triggered now (record r { merchant = record r.merchant { test_api_key_hash = h } })

-- The UNIQUE column that the UPDATE sets.
abbrev pub holds_key : (is_live : Bool) → Bytes → MerchantRow → Bool
holds_key true h r = bytes_eq r.merchant.api_key_hash h
holds_key false h r = bytes_eq r.merchant.test_api_key_hash h

abbrev pub holds_key_elsewhere : Uuid → (is_live : Bool) → Bytes → MerchantRow → Bool
holds_key_elsewhere merchant_id is_live h r =
    not (has_merchant_id merchant_id r) && holds_key is_live h r

-- The UPDATE, whether or not it finds a row, and the entry in the audit log.
unfoldable pub rotate_api_key :
    Primitives → (random : Bytes) → Uuid → (is_live : Bool) → Tables → Fallible Bytes × Tables
rotate_api_key c random merchant_id is_live t =
    let new_key = generate_api_key c random is_live in
    let new_hash = hash_api_key c new_key in
    if is_some (find (has_merchant_id merchant_id) t.merchants)
      && is_some (find (holds_key_elsewhere merchant_id is_live new_hash) t.merchants)
    then (inl (lit "duplicate key value violates unique constraint" ∷ []), t)
    else (
      inr new_key,
      record t {
        merchants =
            update_where (has_merchant_id merchant_id) (set_key is_live new_hash t.now) t.merchants;
        audit_log =
            record {
              actor_type = "system";
              actor_id = merchant_id;
              event = "api_key.rotated";
              resource_type = "merchant";
              resource_id = merchant_id;
            }
            ∷ t.audit_log;
      },
    )

unfoldable pub register_webhook_endpoint :
    Primitives
    → Randoms
    → Uuid
    → (url : String) (events : List String) (vault_key_hex : Bytes) → Tables
    → Fallible Uuid × Tables
register_webhook_endpoint c x merchant_id url events vault_key_hex t =
    elim (encrypt_aes256gcm c x.nonce vault_key_hex (generate_webhook_secret c x.secret)) [
      | err e ↦ (inl (lit "Failed to encrypt webhook secret" ∷ []), t)
      | ok secret_enc ↦
          if is_some (find (has_merchant_id merchant_id) t.merchants)
          then (
            inr t.next_id,
            record t {
              webhook_endpoints =
                  record {
                    id = t.next_id;
                    merchant_id = merchant_id;
                    url = url;
                    secret_enc = secret_enc;
                    events = events;
                    is_active = true;
                  }
                  ∷ t.webhook_endpoints;
              next_id = suc t.next_id;
            },
          )
          else (inl (lit "webhook_endpoints_merchant_id_fkey" ∷ []), t)
    ]

-- Zeros where the merchant has no row.
unfoldable pub get_merchant_balance : Uuid → Tables → ℤ × ℤ × ℤ
get_merchant_balance merchant_id t =
    elim (find (λ (b : MerchantBalance). b.merchant_id == merchant_id) t.merchant_balances) [
      | some b ↦ (b.available, b.pending, b.reserved)
      | none ↦ (pos 0, pos 0, pos 0)
    ]
