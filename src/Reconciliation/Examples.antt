-- ===== src/Reconciliation/Examples.antt =====
-- A run over two payments: one agrees with its charge, the provider has another amount for the other.
use payment_gateway_in_rust.Prelude.{◌≡◌, refl, inr, [], ◌∷◌, none, some, Option, List, ℕ, String}
use payment_gateway_in_rust.Prelude.Int.{ℤ, pos}
use payment_gateway_in_rust.Common.{
  Payment, Json, Items, num, str, arr, nil, cons, obj, field, end, lit, int,
}
use payment_gateway_in_rust.Payment.Examples.{captured_1, json_access}
use payment_gateway_in_rust.Reconciliation.Tables.{Mismatch, ReconEnv, Records}
use payment_gateway_in_rust.Reconciliation.Reconciler.{
  run_daily, reconcile_stripe, fetch_stripe_charges, check_payments, check_payment, compare_charge,
  find_charge, record_if, finish_run, new_run, set_completed,
}

abbrev integer_of : Json → Option ℤ
integer_of (num z) = some z
integer_of _ = none

abbrev items_of : Items → List Json
items_of nil = []
items_of (cons j js) = j ∷ items_of js

abbrev array_of : Json → Option (List Json)
array_of (arr js) = some (items_of js)
array_of _ = none

abbrev charge : String → ℤ → Json
charge i amount =
    obj (field "id" (str i) (field "amount" (num amount) (field "status" (str "succeeded") end)))

abbrev stripe_env : ReconEnv
stripe_env = record {
  serde = json_access;
  as_i64 = integer_of;
  as_array = array_of;
  stripe_api_key = "sk_test";
  stripe_reply = λ a b. inr (
      obj (
        field "data" (arr (cons (charge "ch_1" (pos 100)) (cons (charge "ch_2" (pos 90)) nil)))
          end));
  failure = λ s. none;
}

abbrev at_stripe : ℕ → String → Payment
at_stripe i reference = record captured_1 {
  id = i;
  acquirer_id = some "stripe";
  acquirer_reference = some reference;
  captured_at = some 100000;
}

abbrev day : List Payment
day = at_stripe 1 "ch_1" ∷ at_stripe 2 "ch_2" ∷ []

abbrev no_records : Records
no_records = record { runs = []; mismatches = [] }

abbrev reported : Records
reported = record {
  runs = set_completed 100001 (pos 2) (pos 1) (new_run 9 100001) ∷ [];
  mismatches =
      record {
        run_id = 9;
        payment_id = 2;
        mismatch_type = "amount_mismatch";
        our_value = int (pos 100) ∷ [];
        provider_value = int (pos 90) ∷ [];
      }
      ∷ [];
}

-- Without an API key nothing is fetched, and every payment is reported as missing.
abbrev keyless_env : ReconEnv
keyless_env = record stripe_env { stripe_api_key = "" }

abbrev missing : ℕ → Mismatch
missing i = record {
  run_id = 9;
  payment_id = i;
  mismatch_type = "missing_in_provider";
  our_value = lit "captured" ∷ [];
  provider_value = lit "not_found_in_stripe" ∷ [];
}

day-keyless :
    (run_daily keyless_env 9 100001 day no_records).1.mismatches ≡ missing 2 ∷ missing 1 ∷ []
unfolding run_daily reconcile_stripe fetch_stripe_charges check_payments check_payment
    compare_charge find_charge record_if finish_run
day-keyless = refl
