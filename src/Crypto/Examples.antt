-- ===== src/Crypto/Examples.antt =====
-- Simple stand-ins for the foreign functions, and the theorems on signatures at them.
use payment_gateway_in_rust.Prelude.{
  ◌+◌, ◌-◌, ◌≡◌, ◌≢◌, ◌↔◌, refl, ap, inr, Option, none, some, [], ◌∷◌, ◌++◌, map, arith,
}
use payment_gateway_in_rust.Prelude.Int.{ℤ, pos, negsuc, ◌-ℤ◌, wrap_i64, ◌≤ℤ◌}
use payment_gateway_in_rust.Common.{ok, err, unauthorized}
use payment_gateway_in_rust.Crypto.Bytes.{Bytes, Lacks}
use payment_gateway_in_rust.Crypto.Primitives.{Primitives, PrimitivesLaws, comma}
use payment_gateway_in_rust.Crypto.Signatures.{
  build_webhook_signature, verify_webhook_signature, age,
}
use payment_gateway_in_rust.Crypto.Accepted.{
  last_parts, IsSigned, verify_webhook_signature_iff, verify-build,
}

abbrev shifted : Bytes → Bytes
shifted = map λ x. x + 45

abbrev number_text : ℤ → Bytes
number_text (pos n) = (n + 45) ∷ []
number_text (negsuc n) = (n + 45) ∷ 45 ∷ []

abbrev text_number : Bytes → Option ℤ
text_number (x ∷ []) = some (pos (x - 45))
text_number (x ∷ y ∷ []) = some (negsuc (x - 45))
text_number _ = none

abbrev pub plain_primitives : Primitives
plain_primitives = record {
  hmac = λ key message. key ++ message;
  sha256 = λ message. message;
  hex_encode = shifted;
  hex_decode = λ bs. inr bs;
  b64_encode = λ bs. bs;
  b64_decode = λ bs. inr bs;
  aes_encrypt = λ key nonce plaintext. inr plaintext;
  aes_decrypt = λ key nonce ciphertext. some ciphertext;
  utf8_lossy = λ bs. bs;
  show_i64 = number_text;
  parse_i64 = text_number;
}

shifted_plain : (bs : Bytes) → Lacks comma (shifted bs)
shifted_plain [] = tt
shifted_plain (x ∷ xs) = (λ e. absurd (omega (arith, e)), shifted_plain xs)

number_text_plain : (z : ℤ) → Lacks comma (number_text z)
number_text_plain (pos n) = (λ e. absurd (omega (arith, e)), tt)
number_text_plain (negsuc n) =
    (λ e. absurd (omega (arith, e)), (λ e. absurd (omega (arith, e)), tt))

text_number_text : (z : ℤ) → text_number (number_text z) ≡ some z
text_number_text (pos n) = ap (λ m. some (pos m)) (omega arith)
text_number_text (negsuc n) = ap (λ m. some (negsuc m)) (omega arith)

pub plain_laws : PrimitivesLaws plain_primitives
plain_laws = record {
  hex_plain = shifted_plain;
  show_plain = number_text_plain;
  parse_show = text_number_text;
  b64_decode_encode = λ bs. refl;
  decrypt_encrypt = λ key nonce plaintext ciphertext e. ground (arith, e);
}

fresh_enough : age (pos 130) (pos 100) ≤ℤ pos 300
unfolding ◌-ℤ◌ wrap_i64
fresh_enough = ground arith

verify-build_example :
    verify_webhook_signature plain_primitives
      (7 ∷ [])
      (1 ∷ 2 ∷ [])
      (build_webhook_signature plain_primitives (7 ∷ []) (1 ∷ 2 ∷ []) (pos 100))
      (pos 300)
      (pos 130)
    ≡ ok tt
verify-build_example =
    verify-build plain_primitives plain_laws (7 ∷ []) (1 ∷ 2 ∷ []) (pos 100) (pos 300) (pos 130)
      fresh_enough

verify_webhook_signature_iff_example :
    ((verify_webhook_signature plain_primitives (7 ∷ []) (1 ∷ []) (116 ∷ 61 ∷ []) (pos 300) (pos 0)
        ≡ ok tt)
      ↔ IsSigned plain_primitives
          (7 ∷ [])
          (1 ∷ [])
          (pos 300)
          (pos 0)
          (last_parts plain_primitives (116 ∷ 61 ∷ [])))
    × ((verify_webhook_signature plain_primitives
            (7 ∷ [])
            (1 ∷ [])
            (116 ∷ 61 ∷ [])
            (pos 300)
            (pos 0)
          ≢ ok tt)
        → verify_webhook_signature plain_primitives
            (7 ∷ [])
            (1 ∷ [])
            (116 ∷ 61 ∷ [])
            (pos 300)
            (pos 0)
          ≡ err unauthorized)
verify_webhook_signature_iff_example =
    verify_webhook_signature_iff plain_primitives (7 ∷ []) (1 ∷ []) (116 ∷ 61 ∷ []) (pos 300)
      (pos 0)
