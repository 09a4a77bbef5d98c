-- ===== src/Payment/Listings.antt =====
-- crates/payment-service/src/db.rs: the listings, `list_payments` by pages and
-- `find_refunds_for_payment`. How rows of one instant are ordered is a
-- parameter, `ties`, which each query has for itself.
use payment_gateway_in_rust.Prelude.{
  ℕ, ◌+◌, ◌-◌, ◌*◌, ◌/◌, ◌&&◌, ◌||◌, Bool, List, ltb, leb, ◌==◌, length, keep, take, drop, sort_by,
  if◌then◌else◌,
}
use payment_gateway_in_rust.Common.{Uuid, Payment, Refund}
use payment_gateway_in_rust.Payment.World.{World}

pub record PaginationParams : Type 0 where
  pub page : ℕ
  pub per_page : ℕ

pub record PaginatedPayments : Type 0 where
  pub rows : List Payment
  pub total : ℕ
  pub page : ℕ
  pub per_page : ℕ
  pub total_pages : ℕ

abbrev pub min : ℕ → ℕ → ℕ
min a b = if leb a b then a else b

abbrev pub u32_max : ℕ
u32_max = 4294967295

-- `(total as f64 / per_page as f64).ceil() as u32`, for totals that `f64` represents exactly: a cast
-- of infinity is the largest number, and one of 0 / 0 is zero.
unfoldable pub page_count : (total per_page : ℕ) → ℕ
page_count total per_page =
    if per_page == 0
    then (if total == 0 then 0 else u32_max)
    else min u32_max ((total + per_page - 1) / per_page)

-- `ORDER BY created_at DESC`.
abbrev pub newer : (p_at q_at : ℕ) → (tie : Bool) → Bool
newer p_at q_at tie = ltb q_at p_at || ((q_at == p_at) && tie)

-- The payments of a merchant, newest first.
unfoldable pub newest_payments : (ties : Payment → Payment → Bool) → Uuid → World → List Payment
newest_payments ties merchant_id w =
    sort_by (λ p q. newer p.created_at q.created_at (ties p q))
      (keep (λ p. p.merchant_id == merchant_id) w.payments)

unfoldable pub list_payments :
    (ties : Payment → Payment → Bool) → Uuid → PaginationParams → World → PaginatedPayments
unfolding newest_payments page_count
list_payments ties merchant_id pagination w =
    let per_page = min pagination.per_page 100 in
    let rows = newest_payments ties merchant_id w in
    record {
      rows = take per_page (drop ((pagination.page - 1) * per_page) rows);
      total = length (keep (λ p. p.merchant_id == merchant_id) w.payments);
      page = pagination.page;
      per_page = pagination.per_page;
      total_pages =
          page_count (length (keep (λ p. p.merchant_id == merchant_id) w.payments)) per_page;
    }

unfoldable pub find_refunds_for_payment :
    (ties : Refund → Refund → Bool) → (payment_id merchant_id : Uuid) → World → List Refund
find_refunds_for_payment ties payment_id merchant_id w =
    sort_by (λ r s. newer r.created_at s.created_at (ties r s))
      (keep (λ r. (r.payment_id == payment_id) && (r.merchant_id == merchant_id)) w.refunds)
