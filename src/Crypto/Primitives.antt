-- ===== src/Crypto/Primitives.antt =====
-- What crates/common/src/crypto.rs takes from libraries: HMAC, SHA-256, hexadecimal, base64,
-- AES-256-GCM, and the printing and parsing of numbers.
use payment_gateway_in_rust.Prelude.{ℕ, ◌≡◌, ◌⊎◌, inr, Option, some}
use payment_gateway_in_rust.Prelude.Int.{ℤ}
use payment_gateway_in_rust.Common.{Text}
use payment_gateway_in_rust.Crypto.Bytes.{Bytes, Lacks}

pub record Primitives : Type 0 where
  -- HMAC-SHA-256 and SHA-256.
  pub hmac : (key message : Bytes) → Bytes
  pub sha256 : Bytes → Bytes
  pub hex_encode : Bytes → Bytes
  -- An error is the text that `{e}` prints.
  pub hex_decode : Bytes → Text ⊎ Bytes
  pub b64_encode : Bytes → Bytes
  pub b64_decode : Bytes → Text ⊎ Bytes
  pub aes_encrypt : (key nonce plaintext : Bytes) → Text ⊎ Bytes
  pub aes_decrypt : (key nonce ciphertext : Bytes) → Option Bytes
  -- `String::from_utf8_lossy`.
  pub utf8_lossy : Bytes → Bytes
  -- `{timestamp}` and `parse::<i64>`.
  pub show_i64 : ℤ → Bytes
  pub parse_i64 : Bytes → Option ℤ

-- The code of the comma.
abbrev pub comma : ℕ
comma = 44

-- What the code relies on of them.
pub record PrimitivesLaws (c : Primitives) : Type 0 where
  -- Hexadecimal digits and numbers have no commas.
  pub hex_plain : (bs : Bytes) → Lacks comma (c.hex_encode bs)
  pub show_plain : (z : ℤ) → Lacks comma (c.show_i64 z)
  pub parse_show : (z : ℤ) → c.parse_i64 (c.show_i64 z) ≡ some z
  pub b64_decode_encode : (bs : Bytes) → c.b64_decode (c.b64_encode bs) ≡ inr bs
  pub decrypt_encrypt :
      (key nonce plaintext ciphertext : Bytes)
      → c.aes_encrypt key nonce plaintext ≡ inr ciphertext
      → c.aes_decrypt key nonce ciphertext ≡ some plaintext
