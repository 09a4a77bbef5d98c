-- ===== src/Fraud/Examples.antt =====
-- The theorems on the fraud engine at concrete payments.
use payment_gateway_in_rust.Prelude.{◌≡◌, refl, true, false, none, some, [], ◌∷◌, arith}
use payment_gateway_in_rust.Prelude.Int.{pos}
use payment_gateway_in_rust.Common.{ok, lit}
use payment_gateway_in_rust.Payment.Examples.{json_access, json_access_laws}
use payment_gateway_in_rust.Fraud.Rules.{FraudContext, FraudDb, RuleResult}
use payment_gateway_in_rust.Fraud.Engine.{evaluate, default_engine}
use payment_gateway_in_rust.Fraud.Verdicts.{
  evaluate-considered, BlockedAndPasses, over_threshold-BlockedAndPasses,
}

abbrev large_payment : FraudContext
large_payment = record {
  payment_id = 1;
  merchant_id = 7;
  amount = pos 20000000;
  currency = "INR";
  card_token = some "vt_1";
  customer_email = none;
  ip_address = none;
}

abbrev no_rows : FraudDb
no_rows = record { payments = []; fraud_checks = []; now = 100 }

abbrev noticed : RuleResult
noticed = record { rule_name = "first"; blocked = false; risk_score = pos 45; reason = none }

abbrev stopped : RuleResult
stopped = record {
  rule_name = "second";
  blocked = true;
  risk_score = pos 30;
  reason = some (lit "stop" ∷ []);
}

evaluate-considered_example :
    evaluate
      ((λ c d. ok noticed) ∷ (λ c d. ok stopped) ∷ (λ c d. ok noticed) ∷ [])
      large_payment
      no_rows
    ≡ ok (record {
      payment_id = 1;
      blocked = true;
      risk_score = pos 45;
      decision = "block";
      triggered_rules = "first" ∷ "second" ∷ [];
      reasons = (lit "stop" ∷ []) ∷ [];
    })
evaluate-considered_example =
    evaluate-considered large_payment no_rows
      ((λ c d. ok noticed) ∷ (λ c d. ok stopped) ∷ (λ c d. ok noticed) ∷ [])
      (noticed ∷ stopped ∷ noticed ∷ []) (refl, (refl, (refl, tt)))

over_threshold-BlockedAndPasses_example :
    BlockedAndPasses json_access "req_1"
      (evaluate (default_engine (λ n m. pos 0)) large_payment no_rows)
over_threshold-BlockedAndPasses_example =
    over_threshold-BlockedAndPasses json_access json_access_laws (λ n m. pos 0) large_payment
      no_rows "req_1" (ground arith)
