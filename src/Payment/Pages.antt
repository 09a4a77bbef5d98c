-- ===== src/Payment/Pages.antt =====
-- The pages of a listing.
use payment_gateway_in_rust.Prelude.{
  ℕ, zero, suc, ◌+◌, ◌-◌, ◌*◌, ◌/◌, ◌≤◌, ◌<◌, ◌≡◌, refl, sym, ap, subst, ◌∙◌, inl, inr, Bool, false,
  List, [], ◌∷◌, ◌++◌, arith, leb, ◌==◌, length, keep, take, drop, sort_by, insert_sorted,
  Bool-cases,
}
use native.Mathlib.Nat.{div-add-mod, mod-lt}
use payment_gateway_in_rust.Common.{Uuid, Payment}
use payment_gateway_in_rust.Payment.World.{World}
use payment_gateway_in_rust.Payment.Listings.{
  newer, PaginationParams, min, u32_max, page_count, newest_payments, list_payments,
}

module _ {A : Type 0} where
  take-nil : (n : ℕ) → take {A = A} n [] ≡ []
  take-nil zero = refl
  take-nil (suc n) = refl

  take-add : (a b : ℕ) (xs : List A) → take (a + b) xs ≡ take a xs ++ take b (drop a xs)
  take-add zero b xs = ap (λ n. take n xs) (omega arith)
  take-add (suc a) b [] = take-nil (suc a + b) ∙ sym (take-nil b)
  take-add (suc a) b (x ∷ xs) =
      let shift : suc a + b ≡ suc (a + b) = omega arith in
      ap (λ n. take n (x ∷ xs)) shift ∙ ap (λ l. x ∷ l) (take-add a b xs)

  take-all : (n : ℕ) (xs : List A) → length xs ≤ n → take n xs ≡ xs
  take-all zero [] h = refl
  take-all zero (x ∷ xs) h = absurd (omega (arith, h))
  take-all (suc n) [] h = refl
  take-all (suc n) (x ∷ xs) h = ap (λ l. x ∷ l) (take-all n xs (omega (arith, h)))

  length-insert_sorted :
      (before : A → A → Bool) (x : A) (xs : List A)
      → length (insert_sorted before x xs) ≡ suc (length xs)
  length-insert_sorted before x [] = refl
  length-insert_sorted before x (y ∷ ys) = elim (Bool-cases (before x y)) [
    | inl e ↦ rw e refl
    | inr e ↦ rw e (ap suc (length-insert_sorted before x ys))
  ]

  length-sort_by : (before : A → A → Bool) (xs : List A) → length (sort_by before xs) ≡ length xs
  length-sort_by before [] = refl
  length-sort_by before (x ∷ xs) =
      length-insert_sorted before x (sort_by before xs) ∙ ap suc (length-sort_by before xs)

enough_pages : (total d : ℕ) → 0 < d → total ≤ (total + d - 1) / d * d
enough_pages total d h = grind (arith, div-add-mod (total + d - 1) d, mod-lt (total + d - 1) h)

page_count-enough : (total d : ℕ) → 0 < d → total ≤ u32_max → total ≤ page_count total d * d
unfolding page_count
page_count-enough total d h small =
    let some_rows : (d == 0) ≡ false = ground (arith, h) in
    elim (Bool-cases (leb u32_max ((total + d - 1) / d))) [
      | inl e ↦ rw (some_rows, e) (grind (arith, h, small))
      | inr e ↦ rw (some_rows, e) (enough_pages total d h)
    ]

-- The order of the rows of one instant is the same in all queries here.
module _ (ties : Payment → Payment → Bool) where
  -- The rows of the first pages, one after another.
  abbrev pub first_pages : Uuid → (per_page pages : ℕ) → World → List Payment
  first_pages merchant_id per_page zero w = []
  first_pages merchant_id per_page (suc n) w =
      first_pages merchant_id per_page n w
      ++ (list_payments ties merchant_id (record { page = suc n; per_page = per_page }) w).rows

  first_pages-take :
      (m : Uuid) (per_page n : ℕ) (w : World)
      → first_pages m per_page n w ≡ take (n * min per_page 100) (newest_payments ties m w)
  unfolding list_payments
  first_pages-take m per_page zero w =
      let none_yet : 0 ≡ 0 * min per_page 100 = grind arith in
      ap (λ n. take n (newest_payments ties m w)) none_yet
  first_pages-take m per_page (suc n) w =
      let size = min per_page 100 in
      let rows = newest_payments ties m w in
      let offset : suc n - 1 ≡ n = omega arith in
      let next : n * size + size ≡ suc n * size = grind arith in
      rw (first_pages-take m per_page n w, offset)
        (sym (take-add (n * size) size rows) ∙ ap (λ k. take k rows) next)

  -- With at least one row to a page and no more payments than a 32-bit number counts: the pages of a
  -- merchant's payments, as many as a page says that there are, are together all payments of the
  -- merchant, newest first, each once, if ties are
  -- ordered alike in all of them.
  pub first_pages-all :
      (m : Uuid) (pagination : PaginationParams) (w : World)
      → 0 < pagination.per_page
      → (list_payments ties m pagination w).total ≤ u32_max
      → first_pages m pagination.per_page (list_payments ties m pagination w).total_pages w
        ≡ newest_payments ties m w
  unfolding list_payments newest_payments
  first_pages-all m pagination w h small =
      let per_page = pagination.per_page in
      let mine = keep (λ (p : Payment). p.merchant_id == m) w.payments in
      let size_positive : 0 < min per_page 100 = ground (arith, h) in
      let enough = page_count-enough (length mine) (min per_page 100) size_positive small in
      first_pages-take m per_page (page_count (length mine) (min per_page 100)) w
      ∙ take-all _ (newest_payments ties m w) (
          subst (λ n. n ≤ page_count (length mine) (min per_page 100) * min per_page 100)
            (sym (length-sort_by (λ p q. newer p.created_at q.created_at (ties p q)) mine)) enough)
