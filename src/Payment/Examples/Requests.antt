-- ===== src/Payment/Examples/Requests.antt =====
-- The theorems on the handlers and the listings at small tables.
use payment_gateway_in_rust.Prelude.{refl, none, some, [], ◌∷◌}
use payment_gateway_in_rust.Payment.World.{World}
use payment_gateway_in_rust.Payment.External.{quiet}
use payment_gateway_in_rust.Payment.Steps.{here, Inv}
use payment_gateway_in_rust.Payment.Safety.{fresh-Inv}
use payment_gateway_in_rust.Payment.Handlers.{
  create_payment, capture_payment, create_refund, cancel_payment,
}
use payment_gateway_in_rust.Payment.Served.{handlers-Inv}
use payment_gateway_in_rust.Payment.Examples.{
  test_env, authorized_1, tables, fresh_world, request, refund_request, down, accepted,
}

abbrev one_authorized : World
one_authorized = tables (authorized_1 ∷ [])

handlers-Inv_example :
    Inv
      (create_payment test_env []
        (quiet down)
        (quiet accepted)
        7
        (some "key-1")
        request
        fresh_world).1
    × Inv (capture_payment test_env (quiet accepted) 7 1 none fresh_world).1
    × Inv (create_refund test_env [] (quiet accepted) 7 1 refund_request fresh_world).1
    × Inv (cancel_payment 7 1 fresh_world).1
handlers-Inv_example =
    handlers-Inv test_env [] (quiet down) (quiet accepted) fresh_world (λ w. here) (λ w. here)
      (fresh-Inv fresh_world (record { no_payments = refl; no_entries = refl })) 1 7 request
      refund_request (some "key-1") none
