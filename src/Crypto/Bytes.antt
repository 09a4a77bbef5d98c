-- ===== src/Crypto/Bytes.antt =====
-- Texts as lists of bytes, and what the code does with them: `==`, `split`, `strip_prefix`.
use payment_gateway_in_rust.Prelude.{
  ℕ, ◌≡◌, ◌≢◌, refl, ◌↔◌, Bool, true, false, ◌&&◌, Option, none, some, List, [], ◌∷◌, ◌++◌, arith,
  ◌==◌, All, if◌then◌else◌,
}

abbrev pub Bytes : Type 0
Bytes = List ℕ

unfoldable pub bytes_eq : Bytes → Bytes → Bool
bytes_eq [] [] = true
bytes_eq (x ∷ xs) (y ∷ ys) = (x == y) && bytes_eq xs ys
bytes_eq _ _ = false

pub bytes_eq_iff : (xs ys : Bytes) → (bytes_eq xs ys ≡ true) ↔ (xs ≡ ys)
unfolding bytes_eq
bytes_eq_iff [] [] = (λ _. refl, λ _. refl)
bytes_eq_iff [] (y ∷ ys) = ground arith
bytes_eq_iff (x ∷ xs) [] = ground arith
bytes_eq_iff (x ∷ xs) (y ∷ ys) = ground (arith, bytes_eq_iff xs ys)

-- Adds a byte to the first piece.
abbrev extend_first : ℕ → List Bytes → List Bytes
extend_first x [] = (x ∷ []) ∷ []
extend_first x (p ∷ ps) = (x ∷ p) ∷ ps

-- `str::split` at one byte.
unfoldable pub split : ℕ → Bytes → List Bytes
split c [] = [] ∷ []
split c (x ∷ xs) = let rest = split c xs in if x == c then [] ∷ rest else extend_first x rest

-- `str::strip_prefix`.
unfoldable pub strip_prefix : Bytes → Bytes → Option Bytes
strip_prefix [] xs = some xs
strip_prefix (p ∷ ps) [] = none
strip_prefix (p ∷ ps) (x ∷ xs) = if x == p then strip_prefix ps xs else none

-- `str::starts_with`.
abbrev pub starts_with : Bytes → Bytes → Bool
starts_with p xs = elim (strip_prefix p xs) [ some _ ↦ true | none ↦ false ]

abbrev pub Lacks : ℕ → Bytes → Type 0
Lacks c = All λ x. x ≢ c

split_alone : (c : ℕ) (xs : Bytes) → Lacks c xs → split c xs ≡ xs ∷ []
unfolding split
split_alone c [] h = refl
split_alone c (x ∷ xs) h = rw (split_alone c xs h.1) (ground (arith, h.0))

-- Two pieces without the separator are split there.
pub split_two :
    (c : ℕ) (xs ys : Bytes) → Lacks c xs → Lacks c ys → split c (xs ++ c ∷ ys) ≡ xs ∷ ys ∷ []
unfolding split
split_two c [] ys h k = rw (split_alone c ys k) (ground arith)
split_two c (x ∷ xs) ys h k = rw (split_two c xs ys h.1 k) (ground (arith, h.0))

pub append-Lacks : (c : ℕ) (xs ys : Bytes) → Lacks c xs → Lacks c ys → Lacks c (xs ++ ys)
append-Lacks c [] ys h k = k
append-Lacks c (x ∷ xs) ys h k = (h.0, append-Lacks c xs ys h.1 k)

pub strip_prefix-append : (p xs : Bytes) → strip_prefix p (p ++ xs) ≡ some xs
unfolding strip_prefix
strip_prefix-append [] xs = refl
strip_prefix-append (p ∷ ps) xs = rw (strip_prefix-append ps xs) (ground arith)
