-- ===== src/Prelude/Lists.antt =====
-- Lists: the first element that passes a test, and predicates on every element.
use Prim.Native.Nat.{ℕ, zero, suc}
use mathlib.Core.Path.{◌≡◌, ap}
use native.Mathlib.Omega.{arith}
use mathlib.Core.Logic.{◌⊎◌, inl, inr}
use mathlib.Core.Bool.{Bool, true, false}
use mathlib.Core.List.{List, [], ◌∷◌}
use mathlib.Core.Option.{Option, none, some}
use payment_gateway_in_rust.Prelude.Tests.{if◌then◌else◌, Bool-cases}

module _ {ℓ} {A : Type ℓ} where
  abbrev pub length : List A → ℕ
  length [] = 0
  length (x ∷ xs) = suc (length xs)

  -- `iter().find(p)`, and a query with LIMIT 1.
  abbrev pub find : (A → Bool) → List A → Option A
  find p [] = none
  find p (x ∷ xs) = if p x then some x else find p xs

  -- `iter().filter(p)`, and a WHERE clause.
  abbrev pub keep : (A → Bool) → List A → List A
  keep p [] = []
  keep p (x ∷ xs) = let rest = keep p xs in if p x then x ∷ rest else rest

  -- UPDATE: every row that passes the test is rewritten.
  abbrev pub update_where : (A → Bool) → (A → A) → List A → List A
  update_where p f [] = []
  update_where p f (x ∷ xs) = (if p x then f x else x) ∷ update_where p f xs

  -- LIMIT and OFFSET.
  abbrev pub take : ℕ → List A → List A
  take zero xs = []
  take (suc n) [] = []
  take (suc n) (x ∷ xs) = x ∷ take n xs

  abbrev pub drop : ℕ → List A → List A
  drop zero xs = xs
  drop (suc n) [] = []
  drop (suc n) (x ∷ xs) = drop n xs

  -- ORDER BY: `before x y` puts x in front of y, and rows that are equal stay in their order.
  abbrev pub insert_sorted : (before : A → A → Bool) → A → List A → List A
  insert_sorted before x [] = x ∷ []
  insert_sorted before x (y ∷ ys) =
      let rest = insert_sorted before x ys in if before x y then x ∷ y ∷ ys else y ∷ rest

  abbrev pub sort_by : (before : A → A → Bool) → List A → List A
  sort_by before [] = []
  sort_by before (x ∷ xs) = insert_sorted before x (sort_by before xs)

  abbrev pub All {κ} : (A → Type κ) → List A → Type κ
  All P [] = Unit
  All P (x ∷ xs) = P x × All P xs

module _ {A : Type 0} (P Q : A → Type 0) (t : A → Bool) (f : A → A) where
  -- An UPDATE takes rows with one property to rows with another if each row, hit or missed, is.
  pub All-update :
      (ps : List A)
      → ((p : A) → t p ≡ true → P p → Q (f p))
      → ((p : A) → P p → Q p)
      → All P ps
      → All Q (update_where t f ps)
  All-update [] hit miss h = tt
  All-update (p ∷ ps) hit miss h = (head (Bool-cases (t p)), All-update ps hit miss h.1)
    where
      head : (t p ≡ true) ⊎ (t p ≡ false) → Q (if t p then f p else p)
      head (inl e) = rw e (hit p e h.0)
      head (inr e) = rw e (miss p h.0)

-- A row that is found and hit by an UPDATE is found rewritten, if rewriting does not change the test.
pub find-update :
    {A : Type 0} (t s : A → Bool) (f : A → A) (q : A) (ps : List A)
    → ((p : A) → t (f p) ≡ t p)
    → find t ps ≡ some q
    → s q ≡ true
    → find t (update_where s f ps) ≡ some (f q)
find-update t s f q [] same e h = absurd (ground (arith, e))
find-update t s f q (p ∷ ps) same e h = elim (Bool-cases (t p)) [
  | inl hit ↦
      let here : p ≡ q = ground (arith, e, hit) in
      let updated : s p ≡ true = rw here h in rw (updated, same p, hit) (ap (λ r. some (f r)) here)
  | inr miss ↦ elim (Bool-cases (s p)) [
    | inl updated ↦
        rw (updated, same p, miss) (find-update t s f q ps same (ground (arith, e, miss)) h)
    | inr kept ↦ rw (kept, miss) (find-update t s f q ps same (ground (arith, e, miss)) h)
  ]
]
