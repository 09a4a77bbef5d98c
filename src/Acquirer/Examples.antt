-- ===== src/Acquirer/Examples.antt =====
-- The theorems on the breakers and the router at concrete acquirers.
use payment_gateway_in_rust.Prelude.{keep, All, ℕ, ◌≡◌, true, none, [], ◌∷◌}
use payment_gateway_in_rust.Prelude.Int.{pos}
use payment_gateway_in_rust.Common.{
  null, AppResult, ok, err, lit, acquirer_unavailable, all_acquirers_failed,
}
use payment_gateway_in_rust.Acquirer.CircuitBreaker.{closed, open_until, CircuitBreaker}
use payment_gateway_in_rust.Acquirer.Router.{
  candidate, ChargeRequest, ChargeResponse, ChargeStatus, CaptureResponse, AcquirerAdapter,
  AcquirerRouter, charge,
}
use payment_gateway_in_rust.Acquirer.Routing.{
  until_final, IsOfCandidate, first_answer, replies, charge-first_answer, KeepsOpen,
  charge-KeepsOpen,
}

abbrev down : AcquirerAdapter
down = record {
  name = "stripe";
  charge = λ r. (err (acquirer_unavailable (lit "timeout" ∷ [])), 10);
  capture = λ r. (err (acquirer_unavailable (lit "timeout" ∷ [])), 10);
  refund = λ r. (err (acquirer_unavailable (lit "timeout" ∷ [])), 10);
}

abbrev response : ChargeResponse
response = record {
  acquirer_reference = "ref";
  status = ChargeStatus.captured;
  acquirer_id = "razorpay";
  redirect_url = none;
}

abbrev up : AcquirerAdapter
up = record {
  name = "razorpay";
  charge = λ r. (ok response, 1);
  capture = λ r. (ok (record { acquirer_reference = "ref"; captured_amount = pos 5 }), 1);
  refund = λ r. (ok (record { refund_reference = "ref"; refunded_amount = pos 5 }), 1);
}

abbrev tripped : CircuitBreaker
tripped = record { state = open_until 100; failure_count = 0; success_count = 0 }

abbrev at_rest : CircuitBreaker
at_rest = record { state = closed; failure_count = 0; success_count = 0 }

abbrev two : AcquirerRouter
two =
    record { adapter = down; circuit_breaker = tripped; priority = 1 }
    ∷ record { adapter = up; circuit_breaker = at_rest; priority = 2 }
    ∷ []

abbrev charge_request : ChargeRequest
charge_request = record {
  payment_id = 1;
  amount = pos 5;
  currency = "INR";
  payment_method = null;
  capture = true;
  description = none;
  metadata = null;
}

charge-first_answer_example :
    ((charge charge_request 500 two).0
      ≡ first_answer all_acquirers_failed (replies charge_request two))
    × ((charge charge_request 500 two).2 ≡ until_final charge_request (keep candidate two))
charge-first_answer_example = charge-first_answer charge_request 500 two

charge-KeepsOpen_example :
    KeepsOpen two (charge charge_request 500 two).1
    × All (IsOfCandidate two) (charge charge_request 500 two).2
charge-KeepsOpen_example = charge-KeepsOpen charge_request 500 two

abbrev capture_call : AcquirerAdapter → AppResult CaptureResponse × ℕ
capture_call a = a.capture (record { payment_id = 1; acquirer_reference = "ref"; amount = pos 5 })
