-- ===== src/Fraud/Verdicts.antt =====
-- What the engine decides, and what the payment service makes of it.
use payment_gateway_in_rust.Prelude.{
  ℕ, String, ◌≡◌, refl, sym, ◌++◌, ◌∙◌, ap, Bool, true, false, ◌||◌, List, [], ◌∷◌, if◌then◌else◌,
  arith, Bool-cases, inl, inr,
}
use payment_gateway_in_rust.Prelude.Int.{ℤ, pos, ltb_ℤ, leb_ℤ, ◌<ℤ◌}
use payment_gateway_in_rust.Common.{AppResult, ok, err, Text, api_ok}
use payment_gateway_in_rust.Payment.World.{Serde, SerdeLaws}
use payment_gateway_in_rust.Payment.External.{response, json, run_fraud_check}
use payment_gateway_in_rust.Payment.Replies.{enveloped_verdict-passes}
use payment_gateway_in_rust.Fraud.Rules.{
  FraudContext, FraudDb, FraudRule, RuleResult, velocity_rule, amount_threshold_rule,
  blocklist_rule,
}
use payment_gateway_in_rust.Fraud.Engine.{
  Tally, tally_passed, run_rules, no_tally, evaluate, EvaluationResult, evaluation_json, decide,
  reason_of, default_engine,
}

-- The results that count: those up to the first one that blocks, this one included.
abbrev pub considered : List RuleResult → List RuleResult
considered [] = []
considered (r ∷ rs) = let rest = considered rs in r ∷ (if r.blocked then [] else rest)

abbrev pub any_blocked : List RuleResult → Bool
any_blocked [] = false
any_blocked (r ∷ rs) = r.blocked || any_blocked rs

-- The highest score from a start on.
abbrev pub highest : ℤ → List RuleResult → ℤ
highest m [] = m
highest m (r ∷ rs) = highest (if ltb_ℤ m r.risk_score then r.risk_score else m) rs

-- The word for it: what is blocked is blocked, and a score of 40 and more is reviewed.
abbrev pub verdict : Bool → ℤ → String
verdict true score = "block"
verdict false score = if leb_ℤ (pos 40) score then "review" else "allow"

verdict-decide : (b : Bool) (score : ℤ) → decide b score ≡ verdict b score
verdict-decide true score = refl
verdict-decide false score = refl

-- The names of those that block or score 40 and more, and the reasons of those that block.
abbrev pub names_of : List RuleResult → List String
names_of [] = []
names_of (r ∷ rs) =
    let rest = names_of rs in
    if r.blocked || leb_ℤ (pos 40) r.risk_score then r.rule_name ∷ rest else rest

abbrev pub blocked_reasons : List RuleResult → List Text
blocked_reasons [] = []
blocked_reasons (r ∷ rs) =
    let rest = blocked_reasons rs in if r.blocked then reason_of r.reason ++ rest else rest

-- Each rule returns the result at its place.
abbrev pub Answers : FraudContext → FraudDb → List FraudRule → List RuleResult → Type 0
Answers ctx db [] [] = Unit
Answers ctx db (f ∷ fs) (r ∷ rs) = (f ctx db ≡ ok r) × Answers ctx db fs rs
Answers ctx db _ _ = ⊥

abbrev tally_of : Tally → List RuleResult → Tally
tally_of t rs = record {
  max_risk = highest t.max_risk (considered rs);
  blocked = t.blocked || any_blocked rs;
  triggered = t.triggered ++ names_of (considered rs);
  reasons = t.reasons ++ blocked_reasons (considered rs);
}

abbrev tally : ℤ → Bool → List String → List Text → Tally
tally a b c d = record { max_risk = a; blocked = b; triggered = c; reasons = d }

append_nil : {A : Type 0} (xs : List A) → xs ++ [] ≡ xs
append_nil [] = refl
append_nil (x ∷ xs) = ap (λ ys. x ∷ ys) (append_nil xs)

append_assoc : {A : Type 0} (xs ys zs : List A) → (xs ++ ys) ++ zs ≡ xs ++ (ys ++ zs)
append_assoc [] ys zs = refl
append_assoc (x ∷ xs) ys zs = ap (λ ws. x ∷ ws) (append_assoc xs ys zs)

-- A tally from its four parts.
tally_eq :
    {a : ℤ} {b : Bool} {c c' : List String} {d d' : List Text} (t : Bool)
    → b ≡ t
    → c ≡ c'
    → d ≡ d'
    → ok (tally a b c d) ≡ ok (tally a t c' d')
tally_eq t e f g = cc

push_name :
    (c : Bool) (xs : List String) (x : String) (ys : List String)
    → (if c then xs ++ (x ∷ []) else xs) ++ ys ≡ xs ++ (if c then x ∷ ys else ys)
push_name true xs x ys = append_assoc xs (x ∷ []) ys
push_name false xs x ys = refl

run_rules-tally :
    (ctx : FraudContext) (db : FraudDb) (fs : List FraudRule) (rs : List RuleResult) (t : Tally)
    → t.blocked ≡ false
    → Answers ctx db fs rs
    → run_rules ctx db fs t ≡ ok (tally_of t rs)
unfolding run_rules
run_rules-tally ctx db [] [] t b h =
    tally_eq _ (ground (arith, b)) (sym (append_nil t.triggered)) (sym (append_nil t.reasons))
run_rules-tally ctx db (f ∷ fs) (r ∷ rs) t b h = elim (Bool-cases r.blocked) [
  | inl hit ↦
      rw (h.0, hit)
        (tally_eq _ (ground (arith, b)) refl
          (ap (λ xs. t.reasons ++ xs) (sym (append_nil (reason_of r.reason)))))
  | inr miss ↦
      rw (h.0, miss)
        (run_rules-tally ctx db fs rs (tally_passed r t) b h.1
          ∙ tally_eq _ refl
              (push_name (leb_ℤ (pos 40) r.risk_score) t.triggered r.rule_name
                (names_of (considered rs)))
              refl)
]
run_rules-tally ctx db [] (r ∷ rs) t b h = absurd h
run_rules-tally ctx db (f ∷ fs) [] t b h = absurd h

-- Where every rule returns a result, the evaluation blocks exactly when some result blocks; its score
-- is the highest score, or 0, of the results up to the first one that blocks, and its rules and
-- reasons are taken from these; the decision is to block, or else to review from a score of 40 on, or
-- else to allow.
pub evaluate-considered :
    (ctx : FraudContext) (db : FraudDb) (fs : List FraudRule) (rs : List RuleResult)
    → Answers ctx db fs rs
    → evaluate fs ctx db
      ≡ ok (record {
        payment_id = ctx.payment_id;
        blocked = any_blocked rs;
        risk_score = highest (pos 0) (considered rs);
        decision = verdict (any_blocked rs) (highest (pos 0) (considered rs));
        triggered_rules = names_of (considered rs);
        reasons = blocked_reasons (considered rs);
      })
unfolding evaluate
evaluate-considered ctx db fs rs h =
    rw
      (
        run_rules-tally ctx db fs rs no_tally refl h,
        evaluate,
        verdict-decide (any_blocked rs) (highest (pos 0) (considered rs)),
      )
      refl

-- An evaluation that blocks, and that the payment service lets pass.
abbrev pub BlockedAndPasses : Serde → String → AppResult EvaluationResult → Type 0
BlockedAndPasses serde request_id (ok r) =
    (r.blocked ≡ true)
    × (run_fraud_check serde (response 200 (json (api_ok (evaluation_json r) request_id))) ≡ ok tt)
BlockedAndPasses serde request_id (err e) = ⊥

velocity-returns :
    (score : ℕ → ℕ → ℤ) (ctx : FraudContext) (db : FraudDb)
    → (r : RuleResult) × (velocity_rule score 5 10 ctx db ≡ ok r)
unfolding velocity_rule
velocity-returns score ctx db = (_, refl)

blocklist-returns :
    (ctx : FraudContext) (db : FraudDb) → (r : RuleResult) × (blocklist_rule ctx db ≡ ok r)
unfolding blocklist_rule
blocklist-returns ctx db = (_, refl)

over_threshold-blocks :
    (ctx : FraudContext) (db : FraudDb)
    → pos 10000000 <ℤ ctx.amount
    → (r : RuleResult) × (amount_threshold_rule (pos 10000000) ctx db ≡ ok r) × (r.blocked ≡ true)
unfolding amount_threshold_rule
over_threshold-blocks ctx db h = (_, refl, ground (arith, h))

second_blocked : (v a b : RuleResult) → a.blocked ≡ true → any_blocked (v ∷ a ∷ b ∷ []) ≡ true
second_blocked v a b h = ground (arith, h)

-- The default engine blocks every payment above 10000000 minor units, whatever the tables and the
-- velocity score, and the payment service, which gets this verdict in the fraud service's envelope,
-- lets each of them pass.
pub over_threshold-BlockedAndPasses :
    (serde : Serde) (laws : SerdeLaws serde) (velocity_score : ℕ → ℕ → ℤ) (ctx : FraudContext)
    (db : FraudDb) (request_id : String)
    → pos 10000000 <ℤ ctx.amount
    → BlockedAndPasses serde request_id (evaluate (default_engine velocity_score) ctx db)
unfolding default_engine
over_threshold-BlockedAndPasses serde laws velocity_score ctx db request_id h =
    let v = velocity-returns velocity_score ctx db in
    let a = over_threshold-blocks ctx db h in
    let b = blocklist-returns ctx db in
    rw
      (evaluate-considered ctx db (default_engine velocity_score) (v.0 ∷ a.0 ∷ b.0 ∷ [])
        (v.1, (a.1, (b.1, tt))))
      (second_blocked v.0 a.0 b.0 a.2, enveloped_verdict-passes serde laws 200 _ request_id)
