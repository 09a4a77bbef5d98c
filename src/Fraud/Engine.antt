-- ===== src/Fraud/Engine.antt =====
-- crates/fraud-service/src/rules.rs: the engine; and the answer of handlers.rs.
use payment_gateway_in_rust.Prelude.{
  ℕ, String, ◌++◌, Bool, true, false, Option, none, some, List, [], ◌∷◌, if◌then◌else◌,
}
use payment_gateway_in_rust.Prelude.Int.{ℤ, pos, ltb_ℤ, leb_ℤ}
use payment_gateway_in_rust.Common.{
  Uuid, Text, Json, bool, num, str, id, text_json, arr, Items, nil, cons, obj, end, field,
  AppResult, ok, err,
}
use payment_gateway_in_rust.Fraud.Rules.{
  FraudContext, FraudDb, FraudRule, RuleResult, velocity_rule, amount_threshold_rule,
  blocklist_rule,
}

unfoldable pub default_engine : (velocity_score : ℕ → ℕ → ℤ) → List FraudRule
default_engine velocity_score =
    velocity_rule velocity_score 5 10 ∷ amount_threshold_rule (pos 10000000) ∷ blocklist_rule ∷ []

-- The variables of the loop.
pub record Tally : Type 0 where
  pub max_risk : ℤ
  pub blocked : Bool
  pub triggered : List String
  pub reasons : List Text

abbrev pub raise_risk : ℤ → ℤ → ℤ
raise_risk max_risk score = if ltb_ℤ max_risk score then score else max_risk

abbrev pub reason_of : Option Text → List Text
reason_of none = []
reason_of (some r) = r ∷ []

abbrev pub tally_blocked : RuleResult → Tally → Tally
tally_blocked r t = record {
  max_risk = raise_risk t.max_risk r.risk_score;
  blocked = true;
  triggered = t.triggered ++ (r.rule_name ∷ []);
  reasons = t.reasons ++ reason_of r.reason;
}

abbrev pub tally_passed : RuleResult → Tally → Tally
tally_passed r t = record t {
  max_risk = raise_risk t.max_risk r.risk_score;
  triggered =
      if leb_ℤ (pos 40) r.risk_score then t.triggered ++ (r.rule_name ∷ []) else t.triggered;
}

-- The loop: it ends at the first rule that blocks, and at the first error.
unfoldable pub run_rules : FraudContext → FraudDb → List FraudRule → Tally → AppResult Tally
run_rules ctx db [] t = ok t
run_rules ctx db (rule ∷ rules) t = elim (rule ctx db) [
  | err e ↦ err e
  | ok r ↦
      let rest = run_rules ctx db rules (tally_passed r t) in
      if r.blocked then ok (tally_blocked r t) else rest
]

pub record EvaluationResult : Type 0 where
  pub payment_id : Uuid
  pub blocked : Bool
  pub risk_score : ℤ
  pub decision : String
  pub triggered_rules : List String
  pub reasons : List Text

abbrev pub decide : Bool → ℤ → String
decide blocked max_risk =
    if blocked then "block" else (if leb_ℤ (pos 40) max_risk then "review" else "allow")

abbrev pub no_tally : Tally
no_tally = record { max_risk = pos 0; blocked = false; triggered = []; reasons = [] }

unfoldable pub evaluate : List FraudRule → FraudContext → FraudDb → AppResult EvaluationResult
unfolding run_rules
evaluate rules ctx db = elim (run_rules ctx db rules no_tally) [
  | err e ↦ err e
  | ok t ↦ ok (record {
    payment_id = ctx.payment_id;
    blocked = t.blocked;
    risk_score = t.max_risk;
    decision = decide t.blocked t.max_risk;
    triggered_rules = t.triggered;
    reasons = t.reasons;
  })
]

abbrev strings : List String → Items
strings [] = nil
strings (s ∷ ss) = cons (str s) (strings ss)

abbrev texts : List Text → Items
texts [] = nil
texts (t ∷ ts) = cons (text_json t) (texts ts)

-- What serde writes of an `EvaluationResult`.
unfoldable pub evaluation_json : EvaluationResult → Json
evaluation_json r = obj (
    field "payment_id" (id r.payment_id) (
      field "blocked" (bool r.blocked) (
        field "risk_score" (num r.risk_score) (
          field "decision" (str r.decision) (
            field "triggered_rules" (arr (strings r.triggered_rules))
              (field "reasons" (arr (texts r.reasons)) end))))))
