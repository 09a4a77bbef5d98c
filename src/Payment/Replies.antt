-- ===== src/Payment/Replies.antt =====
-- What the payment service makes of the replies of the fraud service.
use payment_gateway_in_rust.Prelude.{
  ap, ◌&&◌, str_eq, eq_iff, ℕ, ◌≡◌, ◌≢◌, refl, sym, ◌∙◌, String, Bool, false, [], ◌∷◌,
  if◌then◌else◌, Bool-cases, inl, inr, arith,
}
use mathlib.Core.Bool.{false≢true}
use payment_gateway_in_rust.Common.{
  null, lit, Json, bool, str, obj, end, field, api_ok, ok, err, fraud_blocked,
}
use payment_gateway_in_rust.Payment.World.{Serde, SerdeLaws}
use payment_gateway_in_rust.Payment.External.{response, json, run_fraud_check, is_success}

-- The verdict that the payment service reads.
abbrev pub flat_verdict : Bool → String → Json
flat_verdict blocked reason = obj (field "blocked" (bool blocked) (field "reason" (str reason) end))

pub differ : (s t : String) → str_eq s t ≡ false → s ≢ t
differ s t h e = false≢true (sym h ∙ (eq_iff s t).1 e)

module _ (serde : Serde) (laws : SerdeLaws serde) where
  no_blocked : (body : Json) (id : String) → serde.index (api_ok body id) "blocked" ≡ null
  unfolding api_ok
  no_blocked body id =
      laws.index_there "success" "blocked" _ _ (differ _ _ refl)
      ∙ laws.index_there "data" "blocked" _ _ (differ _ _ refl)
      ∙ laws.index_there "error" "blocked" _ _ (differ _ _ refl)
      ∙ laws.index_there "request_id" "blocked" _ _ (differ _ _ refl)
      ∙ laws.index_end "blocked"

  -- A reply in the envelope that the services answer with, `ApiResponse::ok`, never blocks a payment,
  -- whatever its status, verdict and request identifier: the verdict is looked for beside the
  -- envelope's fields and not in its data.
  pub enveloped_verdict-passes :
      (status : ℕ) (verdict : Json) (request_id : String)
      → run_fraud_check serde (response status (json (api_ok verdict request_id))) ≡ ok tt
  unfolding run_fraud_check
  enveloped_verdict-passes status verdict request_id =
      let absent = ap serde.as_bool (no_blocked verdict request_id) ∙ laws.as_bool_null in
      rw (absent, run_fraud_check)
        (elim (Bool-cases (is_success status)) [ inl e ↦ rw e refl | inr e ↦ rw e refl ])

  -- A reply that has the verdict at its top level blocks the payment, with the reason that it gives,
  -- exactly when its status is a success and its `blocked` is true; any other such reply passes.
  pub flat_verdict-decides :
      (status : ℕ) (blocked : Bool) (reason : String)
      → run_fraud_check serde (response status (json (flat_verdict blocked reason)))
        ≡ (if is_success status && blocked then err (fraud_blocked (lit reason ∷ [])) else ok tt)
  unfolding run_fraud_check
  flat_verdict-decides status blocked reason =
      let said =
        ap serde.as_bool
          (laws.index_here "blocked" (bool blocked) (field "reason" (str reason) end))
        ∙ laws.as_bool_bool blocked in
      let why =
        ap serde.as_str (
          laws.index_there "blocked" "reason" (bool blocked) (field "reason" (str reason) end)
            (differ _ _ refl)
          ∙ laws.index_here "reason" (str reason) end)
        ∙ laws.as_str_str reason in
      ground (arith, said, why)
