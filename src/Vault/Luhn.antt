-- ===== src/Vault/Luhn.antt =====
-- `luhn_check` and `detect_card_brand` of crates/vault-service/src/tokenizer.rs, on the bytes of a
-- card number: a decimal digit is one byte, and no other character has such a byte.
use mathlib.Core.List.{reverse}
use payment_gateway_in_rust.Prelude.{
  ℕ, suc, ◌+◌, ◌-◌, ◌*◌, ◌%◌, String, Bool, false, ◌&&◌, ◌||◌, Option, none, some, List, [], ◌∷◌,
  ltb, leb, ◌==◌, length, if◌then◌else◌,
}
use payment_gateway_in_rust.Crypto.Bytes.{Bytes, starts_with}

-- `char::to_digit(10)`.
abbrev pub to_digit : ℕ → Option ℕ
to_digit c = if leb 48 c && leb c 57 then some (c - 48) else none

unfoldable pub digits_of : Bytes → List ℕ
digits_of [] = []
digits_of (c ∷ cs) =
    let rest = digits_of cs in elim (to_digit c) [ some d ↦ d ∷ rest | none ↦ rest ]

-- What the digit at a position counts for, from the right.
abbrev pub digit_value : ℕ → ℕ → ℕ
digit_value i d = if i % 2 == 1 then (if ltb 9 (d * 2) then d * 2 - 9 else d * 2) else d

-- The sum over `enumerate()`.
unfoldable pub luhn_sum : List ℕ → ℕ → ℕ
luhn_sum [] i = 0
luhn_sum (d ∷ ds) i = digit_value i d + luhn_sum ds (suc i)

unfoldable pub luhn_check : Bytes → Bool
unfolding digits_of luhn_sum
luhn_check pan =
    let digits = digits_of pan in
    if ltb (length digits) 13 || ltb 19 (length digits)
    then false
    else luhn_sum (reverse digits) 0 % 10 == 0

-- The digits are 48 to 57.
unfoldable pub detect_card_brand : Bytes → String
detect_card_brand pan =
    if starts_with (52 ∷ []) pan
    then "visa"
    else if starts_with (53 ∷ 49 ∷ []) pan
        || (starts_with (53 ∷ 50 ∷ []) pan
            || (starts_with (53 ∷ 51 ∷ []) pan
                || (starts_with (53 ∷ 52 ∷ []) pan || starts_with (53 ∷ 53 ∷ []) pan)))
    then "mastercard"
    else if starts_with (51 ∷ 52 ∷ []) pan || starts_with (51 ∷ 55 ∷ []) pan
    then "amex"
    else if starts_with (54 ∷ 48 ∷ []) pan || starts_with (54 ∷ 53 ∷ []) pan
    then "rupay"
    else "unknown"
