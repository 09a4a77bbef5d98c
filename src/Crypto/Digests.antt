-- ===== src/Crypto/Digests.antt =====
-- The digests, the comparison of signatures, and the generated keys and secrets of
-- crates/common/src/crypto.rs. Random bytes are arguments.
use Prim.Native.Nat.{bit_or, bit_xor}
use payment_gateway_in_rust.Prelude.{
  ℕ, ◌≡◌, refl, subst, ap, ◌∙◌, ◌↔◌, Bool, true, false, ◌&&◌, [], ◌∷◌, ◌++◌, arith, ◌==◌, length,
  if◌then◌else◌,
}
use payment_gateway_in_rust.Prelude.Bits.{bit_xor_zero, bit_xor_same, bit_or_zero}
use payment_gateway_in_rust.Crypto.Bytes.{Bytes}
use payment_gateway_in_rust.Crypto.Primitives.{Primitives}

-- `hex::encode` of the code.
unfoldable pub hmac_sha256 : Primitives → (key message : Bytes) → Bytes
hmac_sha256 c key message = c.hex_encode (c.hmac key message)

-- `zip`, folded: every pair is compared, wherever the first difference is.
unfoldable pub fold_differences : ℕ → (xs ys : Bytes) → ℕ
fold_differences acc [] ys = acc
fold_differences acc (x ∷ xs) [] = acc
fold_differences acc (x ∷ xs) (y ∷ ys) = fold_differences (bit_or acc (bit_xor x y)) xs ys

unfoldable pub verify_hmac_sha256 : Primitives → (key message expected_hex : Bytes) → Bool
unfolding hmac_sha256 fold_differences
verify_hmac_sha256 c key message expected_hex =
    let computed = hmac_sha256 c key message in
    (length computed == length expected_hex) && (fold_differences 0 computed expected_hex == 0)

unfoldable pub sha256_hex : Primitives → Bytes → Bytes
sha256_hex c message = c.hex_encode (c.sha256 message)

unfoldable pub hash_api_key : Primitives → Bytes → Bytes
unfolding sha256_hex
hash_api_key c api_key = sha256_hex c api_key

-- "rp_live" and "rp_test".
abbrev key_prefix : Bool → Bytes
key_prefix true = 114 ∷ 112 ∷ 95 ∷ 108 ∷ 105 ∷ 118 ∷ 101 ∷ []
key_prefix false = 114 ∷ 112 ∷ 95 ∷ 116 ∷ 101 ∷ 115 ∷ 116 ∷ []

unfoldable pub generate_api_key : Primitives → (random : Bytes) (is_live : Bool) → Bytes
generate_api_key c random is_live = key_prefix is_live ++ 95 ∷ c.hex_encode random

-- "whsec_"
abbrev secret_prefix : Bytes
secret_prefix = 119 ∷ 104 ∷ 115 ∷ 101 ∷ 99 ∷ 95 ∷ []

unfoldable pub generate_webhook_secret : Primitives → (random : Bytes) → Bytes
generate_webhook_secret c random = secret_prefix ++ c.b64_encode random

-- `+` becomes `-`, `/` becomes `_`, and `=` is dropped.
unfoldable pub url_safe : Bytes → Bytes
url_safe [] = []
url_safe (x ∷ xs) =
    let rest = url_safe xs in
    if x == 61 then rest else if x == 43 then 45 ∷ rest else if x == 47 then 95 ∷ rest else x ∷ rest

unfoldable pub generate_checkout_token : Primitives → (random : Bytes) → Bytes
unfolding url_safe
generate_checkout_token c random = url_safe (c.b64_encode random)

fold_differences_zero :
    (acc : ℕ) (xs ys : Bytes)
    → length xs ≡ length ys
    → fold_differences acc xs ys ≡ 0
    → (acc ≡ 0) × (xs ≡ ys)
unfolding fold_differences
fold_differences_zero acc [] [] l h = (h, refl)
fold_differences_zero acc [] (y ∷ ys) l h = absurd (omega (arith, l))
fold_differences_zero acc (x ∷ xs) [] l h = absurd (omega (arith, l))
fold_differences_zero acc (x ∷ xs) (y ∷ ys) l h =
    let rest = fold_differences_zero (bit_or acc (bit_xor x y)) xs ys (omega (arith, l)) h in
    let first = bit_or_zero acc (bit_xor x y) rest.0 in
    (first.0, ground (arith, rest.1, bit_xor_zero x y first.1))

fold_differences_same : (xs : Bytes) → fold_differences 0 xs xs ≡ 0
unfolding fold_differences
fold_differences_same [] = refl
fold_differences_same (x ∷ xs) =
    ap (λ d. fold_differences (bit_or 0 d) xs xs) (bit_xor_same x) ∙ fold_differences_same xs

-- The comparison that takes the same time wherever two signatures differ is equality: a text is
-- accepted exactly when it is the HMAC of the message in hexadecimal.
pub verify_hmac_sha256_iff :
    (c : Primitives) (key message expected_hex : Bytes)
    → (verify_hmac_sha256 c key message expected_hex ≡ true)
      ↔ (hmac_sha256 c key message ≡ expected_hex)
unfolding verify_hmac_sha256
verify_hmac_sha256_iff c key message expected_hex = (
  λ h.
      (fold_differences_zero 0 (hmac_sha256 c key message) expected_hex (ground (arith, h))
        (ground (arith, h))).1,
  λ e.
      subst (λ ys. verify_hmac_sha256 c key message ys ≡ true) e
        (ground (arith, fold_differences_same (hmac_sha256 c key message))),
)
