-- ===== src/Vault/Tokenizer.antt =====
-- `tokenize`, `detokenize` and `generate_vault_token` of crates/vault-service/src/tokenizer.rs, over
-- the rows of `vault_tokens`. The statements are no transaction: other requests may commit between.
use payment_gateway_in_rust.Prelude.{
  ℕ, zero, suc, ◌-◌, String, Bool, true, false, ◌&&◌, Option, none, some, List, [], ◌∷◌, ◌⊎◌, inl,
  inr, ltb, leb, ◌==◌, is_some, find, length, if◌then◌else◌,
}
use payment_gateway_in_rust.Prelude.Int.{ℤ, pos, negsuc}
use payment_gateway_in_rust.Common.{
  Uuid, Text, lit, raw, Json, null, num, utf8, obj, end, field, validation, not_found, database,
  serialization, AppResult, ok, err,
}
use payment_gateway_in_rust.Crypto.Bytes.{Bytes, bytes_eq}
use payment_gateway_in_rust.Crypto.Primitives.{Primitives}
use payment_gateway_in_rust.Crypto.Digests.{hmac_sha256, sha256_hex}
use payment_gateway_in_rust.Crypto.Cipher.{encrypt_aes256gcm, decrypt_aes256gcm}
use payment_gateway_in_rust.Vault.Luhn.{luhn_check, detect_card_brand}

pub record RawCardData : Type 0 where
  pub pan : Bytes
  pub exp_month : ℕ
  pub exp_year : ℕ
  pub cvv : Bytes
  pub cardholder_name : Option Bytes

pub record VaultToken : Type 0 where
  pub token : Bytes
  pub last4 : Bytes
  pub brand : String
  pub exp_month : ℕ
  pub exp_year : ℕ

-- A row of `vault_tokens`.
pub record VaultRow : Type 0 where
  pub token : Bytes
  pub encrypted_data : Bytes
  pub fingerprint : Bytes
  pub last4 : Bytes
  pub card_brand : String
  pub exp_month : ℤ
  pub exp_year : ℤ
  pub merchant_id : Option Uuid
  pub is_active : Bool

abbrev pub Rows : Type 0
Rows = List VaultRow

-- The keys, and `to_string` and `from_slice` of serde_json.
pub record VaultEnv : Type 0 where
  pub primitives : Primitives
  pub master_key : Bytes
  pub hmac_key : Bytes
  pub to_string : Json → Bytes
  pub from_slice : Bytes → Text ⊎ Json

-- A panic, or what the function returns.
pub data Reply (A : Type 0) : Type 0 where
  panicked : Reply A
  returned : AppResult A → Reply A

-- `s[n..]`, which panics inside a character; the bytes 128 to 191 continue one.
unfoldable pub slice_from : ℕ → Bytes → Option Bytes
slice_from zero [] = some []
slice_from zero (x ∷ xs) = if leb 128 x && ltb x 192 then none else some (x ∷ xs)
slice_from (suc n) [] = none
slice_from (suc n) (x ∷ xs) = slice_from n xs

-- "vt_"
unfoldable pub generate_vault_token : Primitives → (random : Bytes) → Bytes
generate_vault_token c random = 118 ∷ 116 ∷ 95 ∷ c.hex_encode random

-- `merchant_id = $2`, which no NULL satisfies.
abbrev pub same_merchant : Option Uuid → Option Uuid → Bool
same_merchant (some m) (some n) = m == n
same_merchant _ _ = false

abbrev pub has_fingerprint : Bytes → Option Uuid → VaultRow → Bool
has_fingerprint fingerprint merchant_id r =
    bytes_eq r.fingerprint fingerprint && (same_merchant r.merchant_id merchant_id && r.is_active)

abbrev pub has_token : Bytes → VaultRow → Bool
has_token token r = bytes_eq r.token token

abbrev pub has_active_token : Bytes → VaultRow → Bool
has_active_token token r = bytes_eq r.token token && r.is_active

abbrev null_or : Option Bytes → Json
null_or none = null
null_or (some bs) = utf8 bs

abbrev pub payload : Primitives → RawCardData → Json
payload c card = obj (
    field "pan" (utf8 card.pan) (
      field "exp_month" (num (pos card.exp_month)) (
        field "exp_year" (num (pos card.exp_year)) (
          field "cvv_sha256" (utf8 (sha256_hex c card.cvv))
            (field "name" (null_or card.cardholder_name) end)))))

-- `as i16` of an unsigned number of 16 bits.
abbrev as_i16 : ℕ → ℤ
as_i16 n = if ltb n 32768 then pos n else negsuc (65535 - n)

abbrev pub described : Bytes → RawCardData → Bytes → VaultToken
described token card last4 = record {
  token = token;
  last4 = last4;
  brand = detect_card_brand card.pan;
  exp_month = card.exp_month;
  exp_year = card.exp_year;
}

abbrev pub new_row :
    (token encrypted fingerprint last4 : Bytes) → RawCardData → Option Uuid → VaultRow
new_row token encrypted fingerprint last4 card merchant_id = record {
  token = token;
  encrypted_data = encrypted;
  fingerprint = fingerprint;
  last4 = last4;
  card_brand = detect_card_brand card.pan;
  exp_month = as_i16 card.exp_month;
  exp_year = as_i16 card.exp_year;
  merchant_id = merchant_id;
  is_active = true;
}

-- The INSERT, with the primary key and the unique index on active fingerprints.
unfoldable pub insert_token : VaultRow → Rows → AppResult Rows
insert_token r rows =
    if is_some (find (has_token r.token) rows)
    then err (database (lit "vault_tokens_pkey" ∷ []))
    else if is_some (find (has_fingerprint r.fingerprint r.merchant_id) rows)
    then err (database (lit "idx_vault_fingerprint_merchant" ∷ []))
    else ok (r ∷ rows)

-- From the encryption of a card that is not stored yet; `rows` is what the INSERT finds.
unfoldable pub store_card :
    VaultEnv
    → (nonce random : Bytes) (card : RawCardData) (merchant_id : Option Uuid)
      (last4 fingerprint : Bytes) (rows : Rows)
    → AppResult VaultToken × Rows
unfolding insert_token generate_vault_token
store_card env nonce random card merchant_id last4 fingerprint rows =
    let token = generate_vault_token env.primitives random in
    elim (encrypt_aes256gcm env.primitives nonce env.master_key
      (env.to_string (payload env.primitives card))) [
        | err e ↦ (err e, rows)
        | ok encrypted ↦
            elim (insert_token (new_row token encrypted fingerprint last4 card merchant_id) rows) [
              | err e ↦ (err e, rows)
              | ok rows' ↦ (ok (described token card last4), rows')
            ]
      ]

-- After the last four digits are cut off: the token of the card, or a new one. `others` is what
-- other requests commit between the SELECT and the INSERT.
unfoldable pub token_for :
    VaultEnv
    → (nonce random : Bytes) (card : RawCardData) (merchant_id : Option Uuid) (last4 : Bytes)
      (others : Rows → Rows) (rows : Rows)
    → AppResult VaultToken × Rows
unfolding store_card
token_for env nonce random card merchant_id last4 others rows =
    let fingerprint = hmac_sha256 env.primitives env.hmac_key card.pan in
    elim (find (has_fingerprint fingerprint merchant_id) rows) [
      | some r ↦ (ok (described r.token card last4), rows)
      | none ↦ store_card env nonce random card merchant_id last4 fingerprint (others rows)
    ]

unfoldable pub tokenize :
    VaultEnv
    → (nonce random : Bytes) (card : RawCardData) (merchant_id : Option Uuid) (others : Rows → Rows)
      (rows : Rows)
    → Reply VaultToken × Rows
unfolding slice_from token_for
tokenize env nonce random card merchant_id others rows =
    if luhn_check card.pan
    then elim (slice_from (length card.pan - 4) card.pan) [
      | none ↦ (panicked, rows)
      | some last4 ↦
          let r = token_for env nonce random card merchant_id last4 others rows in
          (returned r.0, r.1)
    ]
    else (returned (err (validation (lit "Invalid card number" ∷ []))), rows)

-- `from_slice`, and `map_err(AppError::Serialization)`.
abbrev parse_payload : VaultEnv → Bytes → AppResult Json
parse_payload env plaintext = elim (env.from_slice plaintext) [
  | inl e ↦ err (serialization e)
  | inr j ↦ ok j
]

-- The UPDATE of `last_used_at` changes nothing: migrations/006_audit_log.sql declares the rule
-- `vault_no_update`, ON UPDATE DO INSTEAD NOTHING.
unfoldable pub detokenize : VaultEnv → (token : Bytes) → Rows → AppResult Json
detokenize env token rows = elim (find (has_active_token token) rows) [
  | none ↦ err (not_found (lit "Token " ∷ raw token ∷ lit " not found or inactive" ∷ []))
  | some r ↦ elim (decrypt_aes256gcm env.primitives env.master_key r.encrypted_data) [
    | err e ↦ err e
    | ok plaintext ↦ parse_payload env plaintext
  ]
]
