-- ===== src/Merchant/Examples.antt =====
-- The theorems on merchants at one that is created, updated and given a new key.
use payment_gateway_in_rust.Prelude.{
  ℕ, zero, suc, ◌≡◌, ◌≢◌, refl, inr, true, false, none, some, [], ◌∷◌, ◌++◌, arith, find, All,
}
use payment_gateway_in_rust.Prelude.Int.{pos}
use payment_gateway_in_rust.Crypto.Bytes.{Bytes, bytes_eq}
use payment_gateway_in_rust.Crypto.Digests.{
  hash_api_key, generate_api_key, sha256_hex, generate_webhook_secret,
}
use payment_gateway_in_rust.Crypto.Cipher.{encrypt_aes256gcm, decode_key}
use payment_gateway_in_rust.Crypto.Examples.{plain_primitives}
use payment_gateway_in_rust.Merchant.Tables.{Merchant, MerchantRow, Tables}
use payment_gateway_in_rust.Merchant.Store.{
  CreateMerchantInput, CreateMerchantResult, Randoms, MerchantUpdate, create_merchant,
  insert_merchant, get_merchant_by_id, get_merchant_by_api_key_hash, update_merchant,
  rotate_api_key, new_merchant, zero_balance,
}
use payment_gateway_in_rust.Merchant.Keys.{
  IsOnlyKey, holds_any, rotate_api_key-replaces, create_merchant-authenticates,
}
use payment_gateway_in_rust.Merchant.Versions.{update_merchant-once}

abbrev zeros : ℕ → Bytes
zeros zero = []
zeros (suc n) = 0 ∷ zeros n

abbrev no_tables : Tables
no_tables = record {
  merchants = [];
  merchant_balances = [];
  webhook_endpoints = [];
  audit_log = [];
  now = 4;
  next_id = 7;
}

abbrev shop : CreateMerchantInput
shop = record { business_name = "Shop"; email = "a@b.c"; phone = none; website = none }

abbrev shop_randoms : Randoms
shop_randoms = record { live = 1 ∷ []; test = 2 ∷ []; secret = 3 ∷ []; nonce = zeros 12 }

abbrev vault_key : Bytes
vault_key = zeros 32

abbrev live_key : Bytes
live_key = generate_api_key plain_primitives (1 ∷ []) true

abbrev test_key : Bytes
test_key = generate_api_key plain_primitives (2 ∷ []) false

abbrev shop_merchant : Merchant
shop_merchant =
    new_merchant 7 4 shop (hash_api_key plain_primitives live_key)
      (hash_api_key plain_primitives test_key)
      (zeros 12 ++ generate_webhook_secret plain_primitives (3 ∷ []))

abbrev shop_row : MerchantRow
shop_row = record { merchant = shop_merchant; version = pos 1 }

abbrev shop_tables : Tables
shop_tables = record no_tables {
  merchants = shop_row ∷ [];
  merchant_balances = zero_balance 7 4 ∷ [];
  next_id = 8;
}

abbrev shop_result : CreateMerchantResult
shop_result = record { merchant = shop_merchant; live_api_key = live_key; test_api_key = test_key }

created_shop :
    create_merchant plain_primitives shop_randoms shop vault_key no_tables
    ≡ (inr shop_result, shop_tables)
unfolding create_merchant insert_merchant get_merchant_by_id encrypt_aes256gcm decode_key
created_shop = refl

create_merchant-authenticates_example :
    (get_merchant_by_api_key_hash (hash_api_key plain_primitives live_key) shop_tables
      ≡ some shop_merchant)
    × (get_merchant_by_api_key_hash (hash_api_key plain_primitives test_key) shop_tables
        ≡ some shop_merchant)
    × (get_merchant_by_id 7 shop_tables ≡ some shop_merchant)
create_merchant-authenticates_example =
    create_merchant-authenticates plain_primitives shop_randoms shop vault_key no_tables shop_result
      shop_tables created_shop

new_key_is_free :
    find
      (holds_any (hash_api_key plain_primitives (generate_api_key plain_primitives (9 ∷ []) true)))
      shop_tables.merchants
    ≡ none
unfolding hash_api_key generate_api_key sha256_hex bytes_eq
new_key_is_free = refl

other_key :
    hash_api_key plain_primitives (generate_api_key plain_primitives (9 ∷ []) true)
    ≢ hash_api_key plain_primitives live_key
unfolding hash_api_key generate_api_key sha256_hex
other_key e = ground (arith, e)

live_key-IsOnlyKey :
    All (IsOnlyKey true 7 (hash_api_key plain_primitives live_key)) shop_tables.merchants
unfolding hash_api_key generate_api_key sha256_hex bytes_eq
live_key-IsOnlyKey = (λ e. (refl, refl), tt)

rotate_api_key-replaces_example :
    ((rotate_api_key plain_primitives (9 ∷ []) 7 true shop_tables).0
      ≡ inr (generate_api_key plain_primitives (9 ∷ []) true))
    × ((m : Merchant) × (get_merchant_by_api_key_hash
            (hash_api_key plain_primitives (generate_api_key plain_primitives (9 ∷ []) true))
            (rotate_api_key plain_primitives (9 ∷ []) 7 true shop_tables).1
          ≡ some m)
        × (m.id ≡ 7))
    × (get_merchant_by_api_key_hash
          (hash_api_key plain_primitives live_key)
          (rotate_api_key plain_primitives (9 ∷ []) 7 true shop_tables).1
        ≡ none)
rotate_api_key-replaces_example =
    rotate_api_key-replaces plain_primitives (9 ∷ []) 7 true shop_tables
      (hash_api_key plain_primitives live_key) shop_row new_key_is_free refl refl other_key
      live_key-IsOnlyKey

abbrev rename : MerchantUpdate
rename = record {
  business_name = some "New shop";
  phone = none;
  website = none;
  webhook_url = none;
  version = pos 1;
}

update_merchant-once_example :
    update_merchant 7 rename (update_merchant 7 rename shop_tables).1
    ≡ (false, (update_merchant 7 rename shop_tables).1)
update_merchant-once_example = update_merchant-once 7 rename rename shop_tables refl
