-- ===== src/Settlement/Settler.antt =====
-- crates/settlement-worker/src/settler.rs: `settle_merchant` and the batch over the merchants. The
-- worker shares the payments and the outbox with the payment service and adds two tables.
use payment_gateway_in_rust.Prelude.{
  ℕ, suc, String, Bool, false, ◌&&◌, ◌||◌, not, none, some, List, [], ◌∷◌, map, ◌==◌, is_some,
  length, keep, find, update_where, if◌then◌else◌,
}
use payment_gateway_in_rust.Prelude.Int.{fits_bigint, ℤ, pos, ◌+ℤ◌, ◌-ℤ◌, ltb_ℤ, wrap_i64}
use payment_gateway_in_rust.Common.{
  Uuid, Timestamp, lit, Json, num, id as id_json, time, obj, end, field, Payment, due_amount,
  Currency, inr, captured, settled, same_status, AppResult, ok, err, database,
}
use payment_gateway_in_rust.Payment.World.{World, Env}

pub record Settlement : Type 0 where
  pub id : Uuid
  pub merchant_id : Uuid
  pub amount : ℤ
  pub currency : Currency
  pub status : String
  pub created_at : Timestamp

pub record MerchantBalance : Type 0 where
  pub merchant_id : Uuid
  pub currency : Currency
  pub available : ℤ
  pub pending : ℤ
  pub reserved : ℤ
  pub updated_at : Timestamp

-- The tables that the worker writes.
pub record Books : Type 0 where
  pub world : World
  pub settlements : List Settlement
  pub merchant_balances : List MerchantBalance

-- `status = 'captured' AND settled_at IS NULL`.
abbrev pub is_unsettled : Payment → Bool
is_unsettled p = same_status p.status captured && not (is_some p.settled_at)

-- The WHERE clause of `settle_merchant`; `skips` is the rows that other transactions have locked.
abbrev pub is_selected : (skips : Uuid → Bool) (merchant_id : Uuid) → Payment → Bool
is_selected skips merchant_id p =
    (p.merchant_id == merchant_id) && (is_unsettled p && not (skips p.id))

-- `sum()` over `captured_amount.unwrap_or(amount)`, on `i64`.
unfoldable pub sum_amounts : List Payment → ℤ → ℤ
sum_amounts [] total = total
sum_amounts (p ∷ ps) total = sum_amounts ps (wrap_i64 (total +ℤ due_amount p))

-- `id = ANY($1)`.
unfoldable pub is_any : List Uuid → Uuid → Bool
is_any [] i = false
is_any (j ∷ js) i = (i == j) || is_any js i

abbrev pub payment_ids : List Payment → List Uuid
payment_ids ps = map (λ p. p.id) ps

abbrev pub set_settled : Timestamp → Payment → Payment
set_settled now p = record p { status = settled; settled_at = some now; updated_at = now }

abbrev pub has_balance : Uuid → MerchantBalance → Bool
has_balance merchant_id b = b.merchant_id == merchant_id

-- The UPDATE fails if a row of the merchant leaves the range of its columns.
abbrev pub overflows : (merchant_id : Uuid) (net total : ℤ) → MerchantBalance → Bool
overflows merchant_id net total b =
    has_balance merchant_id b
    && not (fits_bigint (b.available +ℤ net) && fits_bigint (b.pending -ℤ total))

-- `GREATEST(0, z)`.
abbrev pub at_least_zero : ℤ → ℤ
at_least_zero z = if ltb_ℤ (pos 0) z then z else pos 0

abbrev pub add_balance : (net total : ℤ) → MerchantBalance → MerchantBalance
add_balance net total b = record b {
  available = b.available +ℤ net;
  pending = at_least_zero (b.pending -ℤ total);
}

abbrev settlement_event :
    (settlement_id merchant_id : Uuid) (total fee net : ℤ) (payment_count : ℕ) (now : Timestamp)
    → Json
settlement_event settlement_id merchant_id total fee net payment_count now = obj (
    field "settlement_id" (id_json settlement_id) (
      field "merchant_id" (id_json merchant_id) (
        field "total_amount" (num total) (
          field "fee_amount" (num fee) (
            field "net_amount" (num net) (
              field "payment_count" (num (pos payment_count))
                (field "timestamp" (time now) end)))))))

-- The statements after the amounts are computed, up to the commit.
unfoldable pub commit_settlement :
    (merchant_id : Uuid) (payments : List Payment) (total fee net : ℤ) → Books → Books
unfolding is_any
commit_settlement merchant_id payments total fee net b = record {
  world = record b.world {
    payments =
        update_where (λ p. is_any (payment_ids payments) p.id) (set_settled b.world.now)
          b.world.payments;
    outbox_events =
        record {
          id = suc b.world.next_id;
          aggregate_type = "settlement";
          aggregate_id = b.world.next_id;
          event_type = "settlement.completed";
          payload =
              settlement_event b.world.next_id merchant_id total fee net (length payments)
                b.world.now;
          topic = "rustpay.webhooks";
          published = false;
          failed_attempts = 0;
          last_error = none;
          created_at = b.world.now;
          published_at = none;
        }
        ∷ b.world.outbox_events;
    next_id = suc (suc b.world.next_id);
  };
  settlements =
      record {
        id = b.world.next_id;
        merchant_id = merchant_id;
        amount = net;
        currency = inr;
        status = "completed";
        created_at = b.world.now;
      }
      ∷ b.settlements;
  merchant_balances =
      update_where (has_balance merchant_id) (add_balance net total) b.merchant_balances;
}

-- From the amounts to the commit, or the rollback where a column overflows.
unfoldable pub write_settlement :
    (merchant_id : Uuid) (payments : List Payment) (total fee net : ℤ) → Books → AppResult ℤ × Books
unfolding commit_settlement
write_settlement merchant_id payments total fee net b =
    if is_some (find (overflows merchant_id net total) b.merchant_balances)
    then (err (database (lit "bigint out of range" ∷ [])), b)
    else (ok net, commit_settlement merchant_id payments total fee net b)

unfoldable pub settle_payments :
    Env → (merchant_id : Uuid) (payments : List Payment) → Books → AppResult ℤ × Books
unfolding sum_amounts write_settlement
settle_payments env merchant_id [] b = (ok (pos 0), b)
settle_payments env merchant_id (p ∷ ps) b =
    let total = sum_amounts (p ∷ ps) (pos 0) in
    let fee = env.fee_of total in
    write_settlement merchant_id (p ∷ ps) total fee (wrap_i64 (total -ℤ fee)) b

unfoldable pub settle_merchant :
    Env → (skips : Uuid → Bool) (merchant_id : Uuid) → Books → AppResult ℤ × Books
unfolding settle_payments
settle_merchant env skips merchant_id b =
    settle_payments env merchant_id (keep (is_selected skips merchant_id) b.world.payments) b

-- `SELECT DISTINCT merchant_id`, in some order.
unfoldable pub distinct_merchants : List Payment → List Uuid
unfolding is_any
distinct_merchants [] = []
distinct_merchants (p ∷ ps) =
    let rest = distinct_merchants ps in
    if is_unsettled p && not (is_any rest p.merchant_id) then p.merchant_id ∷ rest else rest

-- The loop of the batch: a merchant that fails is logged and the next one is settled.
unfoldable pub settle_all :
    Env → (skips : Uuid → Bool) → List Uuid → Books → (settled_count : ℕ) → ℕ × Books
unfolding settle_merchant
settle_all env skips [] b settled_count = (settled_count, b)
settle_all env skips (m ∷ ms) b settled_count = elim ((settle_merchant env skips m b).0) [
  | ok amount ↦ settle_all env skips ms (settle_merchant env skips m b).1 (suc settled_count)
  | err e ↦ settle_all env skips ms (settle_merchant env skips m b).1 settled_count
]

unfoldable pub run_settlement_batch : Env → (skips : Uuid → Bool) → Books → ℕ × Books
unfolding distinct_merchants settle_all
run_settlement_batch env skips b = settle_all env skips (distinct_merchants b.world.payments) b 0
