-- ===== src/Crypto/Signatures.antt =====
-- `build_webhook_signature` and `verify_webhook_signature` of crates/common/src/crypto.rs.
use payment_gateway_in_rust.Prelude.{suc, Option, none, some, List, [], ◌∷◌, ◌++◌, if◌then◌else◌}
use payment_gateway_in_rust.Prelude.Int.{ℤ, pos, negsuc, ◌-ℤ◌, ltb_ℤ, wrap_i64}
use payment_gateway_in_rust.Common.{AppResult, ok, err, unauthorized}
use payment_gateway_in_rust.Payment.World.{Done}
use payment_gateway_in_rust.Crypto.Bytes.{Bytes, split, strip_prefix}
use payment_gateway_in_rust.Crypto.Primitives.{Primitives, comma}
use payment_gateway_in_rust.Crypto.Digests.{hmac_sha256, verify_hmac_sha256}

-- `{timestamp}.{payload}`
abbrev pub signed_payload : Primitives → ℤ → Bytes → Bytes
signed_payload c timestamp payload = c.show_i64 timestamp ++ 46 ∷ c.utf8_lossy payload

-- "t=" and "v1="
abbrev pub t_prefix : Bytes
t_prefix = 116 ∷ 61 ∷ []

abbrev pub v1_prefix : Bytes
v1_prefix = 118 ∷ 49 ∷ 61 ∷ []

unfoldable pub build_webhook_signature : Primitives → (secret payload : Bytes) → ℤ → Bytes
build_webhook_signature c secret payload timestamp =
    let sig = hmac_sha256 c secret (signed_payload c timestamp payload) in
    (t_prefix ++ c.show_i64 timestamp) ++ comma ∷ (v1_prefix ++ sig)

abbrev pub HeaderType : Type 0
HeaderType = Option ℤ × Option Bytes

-- One part of the header: the timestamp, which a later one overwrites even where it is no number,
-- or the signature.
unfoldable pub read_part : Primitives → Bytes → HeaderType → HeaderType
read_part c part h = elim (strip_prefix t_prefix part) [
  | some ts ↦ (c.parse_i64 ts, h.1)
  | none ↦ elim (strip_prefix v1_prefix part) [ some sig ↦ (h.0, some sig) | none ↦ h ]
]

unfoldable pub read_parts : Primitives → List Bytes → HeaderType → HeaderType
unfolding read_part
read_parts c [] h = h
read_parts c (part ∷ parts) h = read_parts c parts (read_part c part h)

unfoldable pub read_header : Primitives → Bytes → HeaderType
unfolding read_parts
read_header c signature_header = read_parts c (split comma signature_header) (none, none)

-- `(now - ts).abs()` on `i64`.
abbrev pub abs_i64 : ℤ → ℤ
abs_i64 (pos n) = pos n
abs_i64 (negsuc n) = wrap_i64 (pos (suc n))

abbrev pub age : (now ts : ℤ) → ℤ
age now ts = abs_i64 (wrap_i64 (now -ℤ ts))

-- What follows the reading of the header.
unfoldable pub check_signature :
    Primitives → (secret payload : Bytes) (max_age_secs now : ℤ) → HeaderType → AppResult Done
unfolding verify_hmac_sha256
check_signature c secret payload max_age_secs now (none, sig_v1) = err unauthorized
check_signature c secret payload max_age_secs now (some ts, none) = err unauthorized
check_signature c secret payload max_age_secs now (some ts, some sig) =
    if ltb_ℤ max_age_secs (age now ts)
    then err unauthorized
    else if verify_hmac_sha256 c secret (signed_payload c ts payload) sig
    then ok tt
    else err unauthorized

unfoldable pub verify_webhook_signature :
    Primitives → (secret payload signature_header : Bytes) (max_age_secs now : ℤ) → AppResult Done
unfolding read_header check_signature
verify_webhook_signature c secret payload signature_header max_age_secs now =
    check_signature c secret payload max_age_secs now (read_header c signature_header)
