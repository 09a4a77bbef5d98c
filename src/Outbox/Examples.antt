-- ===== src/Outbox/Examples.antt =====
-- The theorems on the outbox at a table of three events.
use payment_gateway_in_rust.Prelude.{
  ◌≡◌, refl, false, none, some, List, [], ◌∷◌, arith, length, keep, All,
}
use payment_gateway_in_rust.Common.{Timestamp, lit, null}
use payment_gateway_in_rust.Outbox.Worker.{OutboxRow, Outbox, Broker, Progress, stopped, finished}
use payment_gateway_in_rust.Outbox.Delivered.{WasSent, runs, runs-WasSent}
use payment_gateway_in_rust.Outbox.Spent.{Spent, count, Spent-never_sent}
use payment_gateway_in_rust.Outbox.Drained.{accepted_runs, is_waiting, runs-drain}

abbrev event_1 : OutboxRow
event_1 = record {
  event = record {
    id = 1;
    aggregate_type = "payment";
    aggregate_id = 9;
    event_type = "payment.captured";
    payload = null;
    topic = "rustpay.webhooks";
    published = false;
    failed_attempts = 0;
    last_error = none;
    created_at = 5;
    published_at = none;
  };
  locked_at = none;
}

abbrev event_2 : OutboxRow
event_2 = record event_1 { event = record event_1.event { id = 2; created_at = 3 } }

-- It has failed ten times.
abbrev event_3 : OutboxRow
event_3 = record event_1 { event = record event_1.event { id = 3; failed_attempts = 10 } }

abbrev outbox : Outbox
outbox = record { rows = event_1 ∷ event_2 ∷ event_3 ∷ []; delivered = [] }

abbrev refuses : Broker
refuses e = some (lit "timeout" ∷ [])

abbrev two_runs : List (Timestamp × Broker × Progress)
two_runs = (10, refuses, finished) ∷ (400, refuses, stopped 1) ∷ []

no_event_sent : All (WasSent []) outbox.rows
no_event_sent = (
  λ e. absurd (ground (arith, e)),
  (λ e. absurd (ground (arith, e)), (λ e. absurd (ground (arith, e)), tt)),
)

runs-WasSent_example :
    All (WasSent (runs 2 two_runs outbox).delivered) (runs 2 two_runs outbox).rows
runs-WasSent_example = runs-WasSent 2 two_runs outbox no_event_sent

third-Spent : All (Spent 3) outbox.rows
third-Spent = (λ e. absurd (ground (arith, e)), (λ e. absurd (ground (arith, e)), (λ e. refl, tt)))

Spent-never_sent_example :
    All (Spent 3) (runs 2 two_runs outbox).rows
    × (count 3 (runs 2 two_runs outbox).delivered ≡ count 3 [])
Spent-never_sent_example = Spent-never_sent 3 2 two_runs outbox third-Spent

runs-drain_example :
    length (keep is_waiting (runs 1 (accepted_runs (10 ∷ 20 ∷ [])) outbox).rows) ≡ 0
runs-drain_example = runs-drain 0 (10 ∷ 20 ∷ []) outbox (refl, (refl, (refl, tt))) (ground arith)
