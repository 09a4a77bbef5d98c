-- ===== src/Vault/Examples.antt =====
-- The theorems on the vault at a card number of the tests in tokenizer.rs.
use payment_gateway_in_rust.Prelude.{
  ℕ, zero, suc, ◌≡◌, refl, inr, true, false, none, some, [], ◌∷◌, arith, ◌++◌,
}
use payment_gateway_in_rust.Common.{ok}
use payment_gateway_in_rust.Crypto.Bytes.{Bytes}
use payment_gateway_in_rust.Crypto.Digests.{sha256_hex, hmac_sha256}
use payment_gateway_in_rust.Crypto.Cipher.{encrypt_aes256gcm, decode_key}
use payment_gateway_in_rust.Crypto.Examples.{plain_primitives, plain_laws}
use payment_gateway_in_rust.Vault.Luhn.{luhn_check, digits_of, luhn_sum}
use payment_gateway_in_rust.Vault.Detected.{luhn_check-detects}
use payment_gateway_in_rust.Vault.Tokenizer.{
  RawCardData, VaultToken, Rows, VaultEnv, returned, slice_from, payload, described, insert_token,
  store_card, token_for, tokenize, detokenize, generate_vault_token, new_row,
}
use payment_gateway_in_rust.Vault.Roundtrip.{card_document, detokenize-tokenize, tokenize-again}

abbrev ones : ℕ → Bytes → Bytes
ones zero bs = bs
ones (suc n) bs = 49 ∷ ones n bs

abbrev visa_pan : Bytes
visa_pan = 52 ∷ ones 15 []

visa_passes : luhn_check visa_pan ≡ true
unfolding luhn_check digits_of luhn_sum
visa_passes = refl

luhn_check-detects_example : luhn_check (52 ∷ 50 ∷ ones 14 []) ≡ false
luhn_check-detects_example =
    luhn_check-detects (52 ∷ []) (ones 14 []) 1 2 (ground arith) (ground arith)
      (λ e. absurd (ground (arith, e))) visa_passes

abbrev visa_card : RawCardData
visa_card = record {
  pan = visa_pan;
  exp_month = 4;
  exp_year = 2030;
  cvv = 49 ∷ [];
  cardholder_name = none;
}

abbrev test_vault : VaultEnv
test_vault = record {
  primitives = plain_primitives;
  master_key = ones 32 [];
  hmac_key = 7 ∷ [];
  to_string = λ j. 1 ∷ [];
  from_slice = λ bs. inr (payload plain_primitives visa_card);
}

abbrev nonce_12 : Bytes
nonce_12 = ones 12 []

abbrev no_others : Rows → Rows
no_others rows = rows

abbrev visa_token : VaultToken
visa_token = described (generate_vault_token plain_primitives (3 ∷ [])) visa_card (ones 4 [])

abbrev visa_rows : Rows
visa_rows =
    new_row (generate_vault_token plain_primitives (3 ∷ [])) (nonce_12 ++ 1 ∷ [])
      (hmac_sha256 plain_primitives (7 ∷ []) visa_pan) (ones 4 []) visa_card (some 5)
    ∷ []

visa_tokenised :
    tokenize test_vault nonce_12 (3 ∷ []) visa_card (some 5) no_others []
    ≡ (returned (ok visa_token), visa_rows)
unfolding tokenize token_for store_card insert_token slice_from luhn_check digits_of luhn_sum
    encrypt_aes256gcm decode_key
visa_tokenised = refl

detokenize-tokenize_example :
    detokenize test_vault visa_token.token visa_rows ≡ ok (card_document plain_primitives visa_card)
unfolding sha256_hex
detokenize-tokenize_example =
    detokenize-tokenize test_vault nonce_12 (3 ∷ []) visa_card (some 5) no_others [] visa_token
      visa_rows plain_laws refl refl refl visa_tokenised

tokenize-again_example :
    (u : VaultToken) × (tokenize test_vault (9 ∷ []) (8 ∷ []) visa_card (some 5) no_others visa_rows
      ≡ (returned (ok u), visa_rows))
    × (u.token ≡ visa_token.token)
tokenize-again_example =
    tokenize-again test_vault nonce_12 (3 ∷ []) visa_card 5 no_others [] visa_token visa_rows
      visa_tokenised (9 ∷ []) (8 ∷ []) no_others
