-- ===== src/Webhook/Examples.antt =====
-- The theorems on the scheduler at concrete deliveries.
use payment_gateway_in_rust.Prelude.{ℕ, ◌≤◌, ◌≡◌, refl, true, none, some, List, [], ◌∷◌, arith}
use payment_gateway_in_rust.Common.{Timestamp, lit}
use payment_gateway_in_rust.Webhook.Deliveries.{
  Delivery, DeliveryStatus, Progress, stopped_after_count, done, answered, unanswered,
}
use payment_gateway_in_rust.Prelude.{inr, false, map}
use payment_gateway_in_rust.Common.{Json, str, obj, field, end}
use payment_gateway_in_rust.Payment.Examples.{
  json_access, json_access_laws, captured_1, first_refund,
}
use payment_gateway_in_rust.Payment.External.{
  build_payment_event_payload, build_refund_event_payload,
}
use payment_gateway_in_rust.Merchant.Tables.{WebhookEndpointRow}
use payment_gateway_in_rust.Webhook.Dispatcher
use payment_gateway_in_rust.Webhook.Dispatcher.{Hooks, Parsers, persist_and_dispatch}
use payment_gateway_in_rust.Webhook.Untyped.{payment_events-undelivered}
use payment_gateway_in_rust.Webhook.Consumer.{Message, is_processed, process_message, run}
use payment_gateway_in_rust.Webhook.Once.{run-once, target, process_message-fans_out}
use payment_gateway_in_rust.Webhook.Attempts.{runs, IsUsedUp, runs-sent_within, IsUsedUp-stays}

abbrev new_delivery : Delivery
new_delivery = record {
  status = DeliveryStatus.pending;
  attempt_count = 0;
  max_attempts = 10;
  next_retry_at = some 100;
  processing_started_at = none;
  last_http_status = none;
  last_error = none;
  dead_lettered_at = none;
  sent = 0;
}

abbrev delivered : Delivery
delivered = record new_delivery { status = DeliveryStatus.success; attempt_count = 1; sent = 1 }

abbrev crashed : Delivery
crashed = record new_delivery {
  status = DeliveryStatus.processing;
  attempt_count = 10;
  processing_started_at = some 100;
  sent = 9;
}

abbrev three_runs : List (Timestamp × Progress)
three_runs =
    (100, done 101 (unanswered (lit "timeout" ∷ [])))
    ∷ (500, stopped_after_count)
    ∷ (900, done 901 (answered 200 []))
    ∷ []

abbrev constant_delay : ℕ → ℕ
constant_delay n = 1

runs-sent_within_example : (runs constant_delay three_runs new_delivery).sent ≤ 10
runs-sent_within_example =
    runs-sent_within constant_delay three_runs new_delivery
      (record { sent_counted = ground arith; within = ground arith })

IsUsedUp-stays_example :
    IsUsedUp (runs constant_delay three_runs crashed)
    × ((runs constant_delay three_runs crashed).sent ≡ 9)
IsUsedUp-stays_example =
    IsUsedUp-stays constant_delay three_runs crashed
      (record { still_open = refl; used = ground arith })

-- A subscribed endpoint, one of another merchant, and one message for the first.
abbrev endpoint_1 : WebhookEndpointRow
endpoint_1 = record {
  id = 31;
  merchant_id = 7;
  url = "https://shop.example/hook";
  secret_enc = [];
  events = "payment.captured" ∷ [];
  is_active = true;
}

abbrev hooks : Hooks
hooks = record {
  endpoints = endpoint_1 ∷ record endpoint_1 { id = 32; merchant_id = 8 } ∷ [];
  deliveries = [];
  processed = [];
  now = 100;
  next_id = 50;
}

abbrev captured_event : Json
captured_event =
    obj (field "merchant_id" (str "7") (field "event_type" (str "payment.captured") end))

abbrev parsers : Parsers
parsers = record {
  serde = json_access;
  from_slice = λ bs. inr captured_event;
  parse_uuid = λ s. inr 7;
  reparsed = λ j. j;
}

abbrev message_1 : Message
message_1 = record { event_id = "rustpay.webhooks-0-1"; payload = [] }

not_processed : is_processed hooks.processed message_1.event_id ≡ false
unfolding is_processed
not_processed = refl

run-once_example :
    (run parsers (message_1 ∷ message_1 ∷ []) ([], (run parsers (message_1 ∷ []) ([], hooks)).1)).1
    ≡ (run parsers (message_1 ∷ []) ([], hooks)).1
run-once_example =
    run-once parsers (message_1 ∷ []) (message_1 ∷ message_1 ∷ []) [] [] hooks (refl, (refl, tt))

process_message-fans_out_example :
    map target (process_message parsers message_1 hooks).1.deliveries
    ≡ (31, "payment.captured", Dispatcher.new_delivery 100) ∷ []
process_message-fans_out_example =
    process_message-fans_out parsers message_1 captured_event 7 hooks not_processed refl refl

payment_events-undelivered_example :
    ((persist_and_dispatch parsers (build_payment_event_payload 5 100 captured_1) hooks).1 ≡ hooks)
    × ((persist_and_dispatch parsers (build_refund_event_payload 5 100 first_refund) hooks).1
        ≡ hooks)
payment_events-undelivered_example =
    payment_events-undelivered parsers hooks json_access_laws (refl, (refl, tt)) 5 100 captured_1
      first_refund
