-- ===== src/Crypto/Cipher.antt =====
-- `encrypt_aes256gcm` and `decrypt_aes256gcm` of crates/common/src/crypto.rs: the ciphertext is kept
-- behind its nonce, in base64.
use payment_gateway_in_rust.Prelude.{
  ℕ, zero, suc, ◌≡◌, refl, ap, ◌⊎◌, inl, inr, true, false, none, some, [], ◌∷◌, ◌++◌, arith, ltb,
  ◌==◌, length, if◌then◌else◌, Bool-cases, subst, Sum-cases,
}
use payment_gateway_in_rust.Common.{Text, lit, AppError, config, internal, AppResult, ok, err}
use payment_gateway_in_rust.Crypto.Bytes.{Bytes}
use payment_gateway_in_rust.Crypto.Primitives.{Primitives, PrimitivesLaws}

-- `map_err` on a foreign error.
abbrev pub or_fail : {A : Type 0} → (Text → AppError) → Text ⊎ A → AppResult A
or_fail f (inl e) = err (f e)
or_fail f (inr a) = ok a

abbrev invalid_key : Text → AppError
invalid_key e = config (lit "Invalid encryption key: " ∷ e)

-- The key of 32 bytes.
unfoldable pub decode_key : Primitives → (too_short : Text) → (key_hex : Bytes) → AppResult Bytes
decode_key c too_short key_hex = elim (c.hex_decode key_hex) [
  | inl e ↦ err (invalid_key e)
  | inr key ↦ if length key == 32 then ok key else err (config too_short)
]

unfoldable pub encrypt_aes256gcm : Primitives → (nonce key_hex plaintext : Bytes) → AppResult Bytes
unfolding decode_key
encrypt_aes256gcm c nonce key_hex plaintext =
    elim (decode_key c (lit "Encryption key must be exactly 32 bytes (64 hex chars)" ∷ [])
      key_hex) [
        | err e ↦ err e
        | ok key ↦ elim (c.aes_encrypt key nonce plaintext) [
          | inl e ↦ err (internal (lit "Encryption failed: " ∷ e))
          | inr ciphertext ↦ ok (c.b64_encode (nonce ++ ciphertext))
        ]
      ]

-- `split_at(12)`, where there are 12 bytes.
unfoldable pub split_at : ℕ → Bytes → Bytes × Bytes
split_at zero xs = ([], xs)
split_at (suc n) [] = ([], [])
split_at (suc n) (x ∷ xs) = let rest = split_at n xs in (x ∷ rest.0, rest.1)

-- What follows the base64.
unfoldable pub open_sealed : Primitives → (key combined : Bytes) → AppResult Bytes
unfolding split_at
open_sealed c key combined =
    if ltb (length combined) 12
    then err (internal (lit "Ciphertext too short" ∷ []))
    else elim (c.aes_decrypt key (split_at 12 combined).0 (split_at 12 combined).1) [
      | none ↦ err (internal (lit "Decryption failed — data may be tampered" ∷ []))
      | some plaintext ↦ ok plaintext
    ]

unfoldable pub decrypt_aes256gcm : Primitives → (key_hex ciphertext_b64 : Bytes) → AppResult Bytes
unfolding decode_key open_sealed
decrypt_aes256gcm c key_hex ciphertext_b64 =
    elim (decode_key c (lit "Encryption key must be exactly 32 bytes" ∷ []) key_hex) [
      | err e ↦ err e
      | ok key ↦ elim (c.b64_decode ciphertext_b64) [
        | inl e ↦ err (internal (lit "Invalid base64 ciphertext: " ∷ e))
        | inr combined ↦ open_sealed c key combined
      ]
    ]

split_at-append : (xs ys : Bytes) → split_at (length xs) (xs ++ ys) ≡ (xs, ys)
unfolding split_at
split_at-append [] ys = refl
split_at-append (x ∷ xs) ys = ap (λ r. (x ∷ r.0, r.1)) (split_at-append xs ys)

at_least : (xs ys : Bytes) → ltb (length (xs ++ ys)) (length xs) ≡ false
at_least [] ys = ground arith
at_least (x ∷ xs) ys = ground (arith, at_least xs ys)

open_sealed-append :
    (c : Primitives) (key nonce ciphertext plaintext : Bytes)
    → length nonce ≡ 12
    → c.aes_decrypt key nonce ciphertext ≡ some plaintext
    → open_sealed c key (nonce ++ ciphertext) ≡ ok plaintext
unfolding open_sealed
open_sealed-append c key nonce ciphertext plaintext l e =
    let parts : split_at 12 (nonce ++ ciphertext) ≡ (nonce, ciphertext) =
      subst (λ n. split_at n (nonce ++ ciphertext) ≡ (nonce, ciphertext)) l
        (split_at-append nonce ciphertext) in
    let long : ltb (length (nonce ++ ciphertext)) 12 ≡ false =
      subst (λ n. ltb (length (nonce ++ ciphertext)) n ≡ false) l (at_least nonce ciphertext) in
    rw (long, parts, e) refl

-- How an encryption that succeeds was made.
record Sealing (c : Primitives) (nonce key_hex plaintext sealed : Bytes) : Type 0 where
  key : Bytes
  ciphertext : Bytes
  decoded : c.hex_decode key_hex ≡ inr key
  long_enough : (length key == 32) ≡ true
  encrypted : c.aes_encrypt key nonce plaintext ≡ inr ciphertext
  packed : sealed ≡ c.b64_encode (nonce ++ ciphertext)

encrypt-Sealing :
    (c : Primitives) (nonce key_hex plaintext sealed : Bytes)
    → encrypt_aes256gcm c nonce key_hex plaintext ≡ ok sealed
    → Sealing c nonce key_hex plaintext sealed
unfolding encrypt_aes256gcm decode_key
encrypt-Sealing c nonce key_hex plaintext sealed h = elim (Sum-cases (c.hex_decode key_hex)) [
  | inl (e, bad) ↦ absurd (ground (arith, h, bad))
  | inr (key, good) ↦ elim (Bool-cases (length key == 32)) [
    | inr short ↦ absurd (ground (arith, h, good, short))
    | inl long ↦ elim (Sum-cases (c.aes_encrypt key nonce plaintext)) [
      | inl (e, bad) ↦ absurd (ground (arith, h, good, long, bad))
      | inr (ciphertext, made) ↦ record {
        key = key;
        ciphertext = ciphertext;
        decoded = good;
        long_enough = long;
        encrypted = made;
        packed = ground (arith, h, good, long, made);
      }
    ]
  ]
]

-- What is encrypted under a key with a nonce of 12 bytes is decrypted with that key to the same
-- bytes.
pub decrypt-encrypt :
    (c : Primitives)
    → PrimitivesLaws c
    → (nonce key_hex plaintext sealed : Bytes) → length nonce ≡ 12
    → encrypt_aes256gcm c nonce key_hex plaintext ≡ ok sealed
    → decrypt_aes256gcm c key_hex sealed ≡ ok plaintext
unfolding encrypt_aes256gcm decrypt_aes256gcm decode_key
decrypt-encrypt c laws nonce key_hex plaintext sealed l h =
    let k = encrypt-Sealing c nonce key_hex plaintext sealed h in
    let opened =
      open_sealed-append c k.key nonce k.ciphertext plaintext l
        (laws.decrypt_encrypt k.key nonce plaintext k.ciphertext k.encrypted) in
    ground (
      arith,
      k.packed,
      k.decoded,
      k.long_enough,
      laws.b64_decode_encode (nonce ++ k.ciphertext),
      opened,
    )
