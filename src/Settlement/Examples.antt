-- ===== src/Settlement/Examples.antt =====
-- The settlement of two captured payments of one merchant, with a balance row of its own.
use payment_gateway_in_rust.Prelude.{◌≡◌, refl, [], ◌∷◌, none, keep, arith, length}
use payment_gateway_in_rust.Prelude.Int.{pos, ◌+ℤ◌, ◌-ℤ◌, wrap_i64}
use payment_gateway_in_rust.Common.{Payment, inr, ok}
use payment_gateway_in_rust.Payment.Examples.{test_env, captured_1, tables}
use payment_gateway_in_rust.Settlement.Settler.{
  Books, MerchantBalance, is_unsettled, is_any, sum_amounts, settle_payments, write_settlement,
  settle_merchant, settle_all, distinct_merchants, run_settlement_batch, commit_settlement,
}
use payment_gateway_in_rust.Settlement.Paid.{Settles, due_total, settle_merchant-Settles}
use payment_gateway_in_rust.Settlement.Batches.{unlocked, run_settlement_batch-leaves_none}

abbrev captured_2 : Payment
captured_2 = record captured_1 { id = 2; refunded_amount = pos 30; captured_amount = none }

abbrev balance_7 : MerchantBalance
balance_7 = record {
  merchant_id = 7;
  currency = inr;
  available = pos 5;
  pending = pos 150;
  reserved = pos 0;
  updated_at = 0;
}

abbrev books_7 : Books
books_7 = record {
  world = tables (captured_1 ∷ captured_2 ∷ []);
  settlements = [];
  merchant_balances = balance_7 ∷ [];
}

abbrev settled_books : Books
settled_books =
    commit_settlement 7 (captured_1 ∷ captured_2 ∷ []) (pos 200) (pos 2) (pos 198) books_7

settled_7 : settle_merchant test_env unlocked 7 books_7 ≡ (ok (pos 198), settled_books)
unfolding settle_merchant settle_payments sum_amounts write_settlement ◌+ℤ◌ ◌-ℤ◌ wrap_i64
settled_7 = refl

two_due : due_total (captured_1 ∷ captured_2 ∷ []) ≡ pos 200
unfolding due_total ◌+ℤ◌
two_due = refl

settle_merchant-Settles_example : Settles test_env unlocked 7 (pos 198) books_7 settled_books
settle_merchant-Settles_example =
    settle_merchant-Settles test_env unlocked 7 books_7 captured_1 (captured_2 ∷ []) (pos 198)
      settled_books (refl, (refl, tt)) refl (ground arith, (ground arith, tt))
      (rw two_due (ground arith)) (ground arith) (rw two_due (ground arith)) settled_7

batch_count : (run_settlement_batch test_env unlocked books_7).0 ≡ 1
unfolding run_settlement_batch settle_all settle_merchant settle_payments sum_amounts
    write_settlement distinct_merchants is_any ◌+ℤ◌ ◌-ℤ◌ wrap_i64
batch_count = refl

one_merchant : length (distinct_merchants books_7.world.payments) ≡ 1
unfolding distinct_merchants is_any
one_merchant = refl

run_settlement_batch-leaves_none_example :
    keep is_unsettled (run_settlement_batch test_env unlocked books_7).1.world.payments ≡ []
run_settlement_batch-leaves_none_example =
    run_settlement_batch-leaves_none test_env books_7 (rw one_merchant batch_count)
