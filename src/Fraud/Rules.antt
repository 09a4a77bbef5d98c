-- ===== src/Fraud/Rules.antt =====
-- crates/fraud-service/src/rules.rs: the rules. The tables that they query are an argument.
use payment_gateway_in_rust.Prelude.{
  ℕ, String, ◌+◌, ◌*◌, Bool, false, not, ◌&&◌, ◌||◌, Option, none, some, List, [], ◌∷◌, leb, length,
  str_eq, keep, find, is_some, if◌then◌else◌, ◌==◌,
}
use payment_gateway_in_rust.Prelude.Int.{ℤ, pos, ltb_ℤ}
use payment_gateway_in_rust.Common.{
  Uuid, Timestamp, Text, lit, int, nat, Payment, PaymentMethod, cancelled, failed, same_status,
  AppResult, ok,
}

pub record FraudContext : Type 0 where
  pub payment_id : Uuid
  pub merchant_id : Uuid
  pub amount : ℤ
  pub currency : String
  pub card_token : Option String
  pub customer_email : Option String
  pub ip_address : Option String

pub record RuleResult : Type 0 where
  pub rule_name : String
  pub blocked : Bool
  pub risk_score : ℤ
  pub reason : Option Text

-- A row of `fraud_checks`.
pub record FraudCheck : Type 0 where
  pub merchant_id : Uuid
  pub blocked : Bool
  pub triggered_rules : List String

-- What the rules read.
pub record FraudDb : Type 0 where
  pub payments : List Payment
  pub fraud_checks : List FraudCheck
  pub now : Timestamp

-- `FraudRule::evaluate`.
abbrev pub FraudRule : Type 0
FraudRule = FraudContext → FraudDb → AppResult RuleResult

-- `payment_method->>'token'`, which only a card has.
abbrev token_of : Option PaymentMethod → Option String
token_of (some (PaymentMethod.card d)) = some d.token
token_of _ = none

abbrev is_token : String → Option String → Bool
is_token token none = false
is_token token (some t) = str_eq t token

-- The WHERE clause of the velocity query.
abbrev pub counted : String → ℕ → Timestamp → Payment → Bool
counted token window_minutes now p =
    is_token token (token_of p.payment_method)
    && (leb now (p.created_at + 60 * window_minutes)
        && not (same_status p.status cancelled || same_status p.status failed))

-- The result without a card token.
abbrev no_card : String → RuleResult
no_card name = record { rule_name = name; blocked = false; risk_score = pos 0; reason = none }

-- The score is computed on floating-point numbers from the count and the maximum.
unfoldable pub velocity_rule :
    (velocity_score : ℕ → ℕ → ℤ) (max_payments window_minutes : ℕ) → FraudRule
velocity_rule velocity_score max_payments window_minutes ctx db = ok (elim ctx.card_token [
  | none ↦ no_card "velocity_check"
  | some token ↦
      let count = length (keep (counted token window_minutes db.now) db.payments) in
      record {
        rule_name = "velocity_check";
        blocked = leb max_payments count;
        risk_score = velocity_score count max_payments;
        reason =
            if leb max_payments count
            then some (
                lit "Card token used "
                ∷ nat count
                ∷ lit " times in "
                ∷ nat window_minutes
                ∷ lit " minutes (max "
                ∷ nat max_payments
                ∷ lit ")"
                ∷ [])
            else none;
      }
])

unfoldable pub amount_threshold_rule : (threshold_minor : ℤ) → FraudRule
amount_threshold_rule threshold_minor ctx db =
    let over = ltb_ℤ threshold_minor ctx.amount in
    ok (record {
      rule_name = "amount_threshold";
      blocked = over;
      risk_score = if over then pos 60 else pos 0;
      reason =
          if over
          then some (
              lit "Amount "
              ∷ int ctx.amount
              ∷ lit " exceeds threshold "
              ∷ int threshold_minor
              ∷ lit " "
              ∷ lit ctx.currency
              ∷ [])
          else none;
    })

-- The WHERE clause of the blocklist query.
abbrev pub lists_token : Uuid → String → FraudCheck → Bool
lists_token merchant_id token fc =
    (fc.merchant_id == merchant_id)
    && (fc.blocked && is_some (find (λ r. str_eq r token) fc.triggered_rules))

unfoldable pub blocklist_rule : FraudRule
blocklist_rule ctx db = ok (elim ctx.card_token [
  | none ↦ no_card "blocklist"
  | some token ↦
      let listed = is_some (find (lists_token ctx.merchant_id token) db.fraud_checks) in
      record {
        rule_name = "blocklist";
        blocked = listed;
        risk_score = if listed then pos 100 else pos 0;
        reason = if listed then some (lit "Card token found on blocklist" ∷ []) else none;
      }
])
