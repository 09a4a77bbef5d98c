-- ===== src/Crypto/Accepted.antt =====
-- Which signatures of a webhook are accepted.
use payment_gateway_in_rust.Prelude.{
  Option, List, [], ◌∷◌, or_else, Option-cases, inl, inr, ◌≡◌, ◌≢◌, refl, sym, ap, subst, ◌∙◌, ◌↔◌,
  Bool, true, false, none, some, if◌then◌else◌, ◌++◌, arith,
}
use payment_gateway_in_rust.Prelude.Int.{ℤ, ltb_ℤ, ◌≤ℤ◌}
use payment_gateway_in_rust.Common.{AppResult, ok, err, unauthorized}
use payment_gateway_in_rust.Payment.World.{Done}
use payment_gateway_in_rust.Crypto.Bytes.{Bytes, Lacks, split, split_two, strip_prefix}
use payment_gateway_in_rust.Crypto.Primitives.{Primitives, PrimitivesLaws, comma}
use payment_gateway_in_rust.Crypto.Digests.{hmac_sha256, verify_hmac_sha256_iff}
use payment_gateway_in_rust.Crypto.Signatures.{
  signed_payload, t_prefix, v1_prefix, build_webhook_signature, HeaderType, read_part, read_parts,
  read_header, age, check_signature, verify_webhook_signature,
}

-- The header names a timestamp that is recent, and the signature of the payload at that time.
pub record IsSigned (c : Primitives) (secret payload : Bytes) (max_age_secs now : ℤ)
    (h : HeaderType) : Type 0 where
  pub timestamp : ℤ
  pub read : h ≡ (some timestamp, some (hmac_sha256 c secret (signed_payload c timestamp payload)))
  pub recent : age now timestamp ≤ℤ max_age_secs

-- The two guards after the header is read.
abbrev gate : (late same : Bool) → AppResult Done
gate late same = if late then err unauthorized else if same then ok tt else err unauthorized

gate-refused : (late same : Bool) → gate late same ≢ ok tt → gate late same ≡ err unauthorized
gate-refused late same n = ground (arith, n)

guards_iff : (late same : Bool) → (gate late same ≡ ok tt) ↔ ((late ≡ false) × (same ≡ true))
guards_iff late same = ground arith

not_late_iff : (max_age_secs z : ℤ) → (ltb_ℤ max_age_secs z ≡ false) ↔ (z ≤ℤ max_age_secs)
not_late_iff max_age_secs z = ground arith

check_signature_iff :
    (c : Primitives) (secret payload : Bytes) (max_age_secs now : ℤ) (h : HeaderType)
    → (check_signature c secret payload max_age_secs now h ≡ ok tt)
      ↔ IsSigned c secret payload max_age_secs now h
unfolding check_signature
check_signature_iff c secret payload max_age_secs now (none, sig) =
    (λ e. absurd (ground (arith, e)), λ s. absurd (ground (arith, s.read)))
check_signature_iff c secret payload max_age_secs now (some ts, none) =
    (λ e. absurd (ground (arith, e)), λ s. absurd (ground (arith, s.read)))
check_signature_iff c secret payload max_age_secs now (some ts, some sig) = (
  λ e.
      let guards = (guards_iff _ _).0 e in
      record {
        timestamp = ts;
        read =
            ap (λ x. (some ts, some x))
              (sym
                ((verify_hmac_sha256_iff c secret (signed_payload c ts payload) sig).0 guards.1));
        recent = (not_late_iff max_age_secs (age now ts)).0 guards.0;
      },
  λ s.
      subst (λ h. check_signature c secret payload max_age_secs now h ≡ ok tt) (sym s.read)
        ((guards_iff _ _).1 (
          (not_late_iff max_age_secs (age now s.timestamp)).1 s.recent,
          (verify_hmac_sha256_iff c secret (signed_payload c s.timestamp payload) _).1 refl,
        )),
)

ok_or_unauthorized :
    (c : Primitives) (secret payload : Bytes) (max_age_secs now : ℤ) (h : HeaderType)
    → check_signature c secret payload max_age_secs now h ≢ ok tt
    → check_signature c secret payload max_age_secs now h ≡ err unauthorized
unfolding check_signature
ok_or_unauthorized c secret payload max_age_secs now (none, sig) n = refl
ok_or_unauthorized c secret payload max_age_secs now (some ts, none) n = refl
ok_or_unauthorized c secret payload max_age_secs now (some ts, some sig) n = gate-refused _ _ n

-- What follows the prefix in the last of the parts that begin with it.
abbrev pub last_after : (prefix : Bytes) → List Bytes → Option Bytes
last_after prefix [] = none
last_after prefix (part ∷ parts) = or_else (last_after prefix parts) (strip_prefix prefix part)

abbrev pub number_of : Primitives → Option Bytes → Option ℤ
number_of c none = none
number_of c (some text) = c.parse_i64 text

-- The number of the last timestamp, and the last signature, where there is no earlier one.
abbrev read_last : Primitives → Option Bytes → Option Bytes → HeaderType → HeaderType
read_last c none sig h = (h.0, or_else sig h.1)
read_last c (some text) sig h = (c.parse_i64 text, or_else sig h.1)

one_prefix :
    (part ts : Bytes) → strip_prefix t_prefix part ≡ some ts → strip_prefix v1_prefix part ≡ none
unfolding strip_prefix
one_prefix [] ts h = refl
one_prefix (x ∷ []) ts h = ground (arith, h)
one_prefix (x ∷ y ∷ rest) ts h = ground (arith, h)

after_timestamp :
    (c : Primitives) (last sig : Option Bytes) (ts : Bytes) (h : HeaderType)
    → read_last c last sig (c.parse_i64 ts, h.1)
      ≡ read_last c (or_else last (some ts)) (or_else sig none) h
after_timestamp c none none ts h = refl
after_timestamp c none (some x) ts h = refl
after_timestamp c (some l) none ts h = refl
after_timestamp c (some l) (some x) ts h = refl

after_signature :
    (c : Primitives) (last sig : Option Bytes) (s : Bytes) (h : HeaderType)
    → read_last c last sig (h.0, some s) ≡ read_last c (or_else last none) (or_else sig (some s)) h
after_signature c none none s h = refl
after_signature c none (some x) s h = refl
after_signature c (some l) none s h = refl
after_signature c (some l) (some x) s h = refl

after_other :
    (c : Primitives) (last sig : Option Bytes) (h : HeaderType)
    → read_last c last sig h ≡ read_last c (or_else last none) (or_else sig none) h
after_other c none none h = refl
after_other c none (some x) h = refl
after_other c (some l) none h = refl
after_other c (some l) (some x) h = refl

read_part-last :
    (c : Primitives) (part : Bytes) (last sig : Option Bytes) (h : HeaderType)
    → read_last c last sig (read_part c part h)
      ≡ read_last c
          (or_else last (strip_prefix t_prefix part))
          (or_else sig (strip_prefix v1_prefix part))
          h
unfolding read_part strip_prefix
read_part-last c part last sig h = elim (Option-cases (strip_prefix t_prefix part)) [
  | inr (ts, e) ↦ rw (e, one_prefix part ts e) (after_timestamp c last sig ts h)
  | inl e ↦ elim (Option-cases (strip_prefix v1_prefix part)) [
    | inr (x, f) ↦ rw (e, f) (after_signature c last sig x h)
    | inl f ↦ rw (e, f) (after_other c last sig h)
  ]
]

read_parts-last :
    (c : Primitives) (parts : List Bytes) (h : HeaderType)
    → read_parts c parts h ≡ read_last c (last_after t_prefix parts) (last_after v1_prefix parts) h
unfolding read_parts
read_parts-last c [] h = refl
read_parts-last c (part ∷ parts) h =
    read_parts-last c parts (read_part c part h)
    ∙ read_part-last c part (last_after t_prefix parts) (last_after v1_prefix parts) h

-- The header as its last parts give it.
abbrev pub last_parts : Primitives → (signature_header : Bytes) → HeaderType
last_parts c signature_header =
    let parts = split comma signature_header in
    (number_of c (last_after t_prefix parts), last_after v1_prefix parts)

read_last-parts :
    (c : Primitives) (last sig : Option Bytes)
    → read_last c last sig (none, none) ≡ (number_of c last, sig)
read_last-parts c none none = refl
read_last-parts c none (some sig) = refl
read_last-parts c (some text) none = refl
read_last-parts c (some text) (some sig) = refl

read_header-last :
    (c : Primitives) (signature_header : Bytes)
    → read_header c signature_header ≡ last_parts c signature_header
unfolding read_header
read_header-last c signature_header =
    read_parts-last c (split comma signature_header) (none, none) ∙ read_last-parts c _ _

-- A webhook is accepted exactly when, of the parts of its header between commas, the last one that
-- begins with `t=` gives a timestamp that is not further from now than the maximal age, and the last
-- one that begins with `v1=` the HMAC, in hexadecimal, of the payload at that timestamp; every other
-- webhook is unauthorized.
pub verify_webhook_signature_iff :
    (c : Primitives) (secret payload signature_header : Bytes) (max_age_secs now : ℤ)
    → ((verify_webhook_signature c secret payload signature_header max_age_secs now ≡ ok tt)
        ↔ IsSigned c secret payload max_age_secs now (last_parts c signature_header))
      × ((verify_webhook_signature c secret payload signature_header max_age_secs now ≢ ok tt)
          → verify_webhook_signature c secret payload signature_header max_age_secs now
            ≡ err unauthorized)
unfolding verify_webhook_signature
verify_webhook_signature_iff c secret payload signature_header max_age_secs now = (
  subst
      (λ h.
        (check_signature c secret payload max_age_secs now (read_header c signature_header) ≡ ok tt)
        ↔ IsSigned c secret payload max_age_secs now h)
      (read_header-last c signature_header)
      (check_signature_iff c secret payload max_age_secs now (read_header c signature_header)),
  ok_or_unauthorized c secret payload max_age_secs now (read_header c signature_header),
)

-- What is built is read back.
read_header-build :
    (c : Primitives)
    → PrimitivesLaws c
    → (secret payload : Bytes) (timestamp : ℤ)
    → read_header c (build_webhook_signature c secret payload timestamp)
      ≡ (some timestamp, some (hmac_sha256 c secret (signed_payload c timestamp payload)))
unfolding read_header read_parts read_part build_webhook_signature strip_prefix hmac_sha256
read_header-build c laws secret payload timestamp =
    let sig = hmac_sha256 c secret (signed_payload c timestamp payload) in
    let plain : Lacks comma sig = laws.hex_plain _ in
    let parts =
      split_two comma (t_prefix ++ c.show_i64 timestamp) (v1_prefix ++ sig)
        (
          (λ e. absurd (ground (arith, e))),
          ((λ e. absurd (ground (arith, e))), laws.show_plain timestamp),
        )
        (
          λ e. absurd (ground (arith, e)),
          (λ e. absurd (ground (arith, e)), (λ e. absurd (ground (arith, e)), plain)),
        ) in
    ap (λ ps. read_parts c ps (none, none)) parts ∙ rw (laws.parse_show timestamp) refl

-- A webhook with the signature that is built for its payload is accepted with the same secret as
-- long as its timestamp is not further from now than the maximal age.
pub verify-build :
    (c : Primitives)
    → PrimitivesLaws c
    → (secret payload : Bytes) (timestamp max_age_secs now : ℤ) → age now timestamp ≤ℤ max_age_secs
    → verify_webhook_signature c secret payload
        (build_webhook_signature c secret payload timestamp)
        max_age_secs
        now
      ≡ ok tt
verify-build c laws secret payload timestamp max_age_secs now recent =
    (verify_webhook_signature_iff c secret payload
        (build_webhook_signature c secret payload timestamp) max_age_secs now).0.1
      (record {
        timestamp = timestamp;
        read =
            sym (read_header-last c (build_webhook_signature c secret payload timestamp))
            ∙ read_header-build c laws secret payload timestamp;
        recent = recent;
      })
