-- ===== src/Vault/Detected.antt =====
-- The Luhn check under a mistyped digit.
use mathlib.Core.List.{reverse, reverse-append, reverse-cons, append_assoc}
use payment_gateway_in_rust.Prelude.{
  ℕ, suc, ◌+◌, ◌%◌, ◌<◌, ◌≡◌, ◌≢◌, ap, subst, ◌∙◌, true, false, List, [], ◌∷◌, ◌++◌, arith, length,
}
use payment_gateway_in_rust.Crypto.Bytes.{Bytes}
use payment_gateway_in_rust.Vault.Luhn.{digits_of, digit_value, luhn_sum, luhn_check}

-- The character of a digit.
abbrev pub digit_char : ℕ → ℕ
digit_char d = 48 + d

digits_of-at :
    (xs ys : Bytes) (d : ℕ)
    → d < 10
    → digits_of (xs ++ digit_char d ∷ ys) ≡ digits_of xs ++ d ∷ digits_of ys
unfolding digits_of
digits_of-at [] ys d h = ground arith
digits_of-at (x ∷ xs) ys d h = ground (arith, digits_of-at xs ys d h)

luhn_sum-append :
    (xs ys : List ℕ) (i : ℕ) → luhn_sum (xs ++ ys) i ≡ luhn_sum xs i + luhn_sum ys (i + length xs)
unfolding luhn_sum
luhn_sum-append [] ys i = let same : i ≡ i + 0 = omega arith in omega (arith, ap (luhn_sum ys) same)
luhn_sum-append (x ∷ xs) ys i =
    let shift : suc i + length xs ≡ i + length (x ∷ xs) = omega arith in
    omega (arith, luhn_sum-append xs ys (suc i), ap (luhn_sum ys) shift)

reverse-at : (xs ys : List ℕ) (d : ℕ) → reverse (xs ++ d ∷ ys) ≡ reverse ys ++ d ∷ reverse xs
reverse-at xs ys d =
    reverse-append xs (d ∷ ys)
    ∙ ap (λ l. l ++ reverse xs) (reverse-cons d ys)
    ∙ append_assoc (reverse ys) (d ∷ []) (reverse xs)

-- Where a digit stands it counts for a value of its own.
digit_value-injective :
    (i d e : ℕ) → d < 10 → e < 10 → digit_value i d % 10 ≡ digit_value i e % 10 → d ≡ e
digit_value-injective i d e hd he h = ground arith

digit_value-small : (i d : ℕ) → d < 10 → digit_value i d < 10
digit_value-small i d h = ground arith

-- The sum, seen from one digit.
sum_at :
    (xs ys : List ℕ) (d : ℕ)
    → luhn_sum (reverse (xs ++ d ∷ ys)) 0
      ≡ luhn_sum (reverse ys) 0
        + (digit_value (length (reverse ys)) d + luhn_sum (reverse xs) (suc (length (reverse ys))))
unfolding luhn_sum
sum_at xs ys d =
    ap (λ l. luhn_sum l 0) (reverse-at xs ys d)
    ∙ luhn_sum-append (reverse ys) (d ∷ reverse xs) 0
    ∙ ap (λ i. luhn_sum (reverse ys) 0 + (digit_value i d + luhn_sum (reverse xs) (suc i)))
        (omega arith)

sum_differs :
    (xs ys : List ℕ) (d e : ℕ)
    → d < 10
    → e < 10
    → d ≢ e
    → luhn_sum (reverse (xs ++ d ∷ ys)) 0 % 10 ≡ 0
    → luhn_sum (reverse (xs ++ e ∷ ys)) 0 % 10 ≢ 0
sum_differs xs ys d e hd he n h k = n (
    digit_value-injective (length (reverse ys)) d e hd he (
      same_values _ _ _ _ (subst (λ t. t % 10 ≡ 0) (sum_at xs ys d) h)
        (subst (λ t. t % 10 ≡ 0) (sum_at xs ys e) k)))
  where
    same_values : (a v w b : ℕ) → (a + (v + b)) % 10 ≡ 0 → (a + (w + b)) % 10 ≡ 0 → v % 10 ≡ w % 10
    same_values a v w b p q = omega (arith, p, q)

sum_of_passed :
    (pan : Bytes) → luhn_check pan ≡ true → luhn_sum (reverse (digits_of pan)) 0 % 10 ≡ 0
unfolding luhn_check
sum_of_passed pan h = ground (arith, h)

not_passed : (pan : Bytes) → luhn_sum (reverse (digits_of pan)) 0 % 10 ≢ 0 → luhn_check pan ≡ false
unfolding luhn_check
not_passed pan n = ground (arith, n)

-- A card number that passes the check passes it no longer when one of its digits is replaced by
-- another digit, wherever the digit stands and whatever else the number contains.
pub luhn_check-detects :
    (xs ys : Bytes) (d e : ℕ)
    → d < 10
    → e < 10
    → d ≢ e
    → luhn_check (xs ++ digit_char d ∷ ys) ≡ true
    → luhn_check (xs ++ digit_char e ∷ ys) ≡ false
luhn_check-detects xs ys d e hd he n h = not_passed _ λ k.
    sum_differs (digits_of xs) (digits_of ys) d e hd he n
      (subst (λ l. luhn_sum (reverse l) 0 % 10 ≡ 0) (digits_of-at xs ys d hd) (sum_of_passed _ h))
      (subst (λ l. luhn_sum (reverse l) 0 % 10 ≡ 0) (digits_of-at xs ys e he) k)
