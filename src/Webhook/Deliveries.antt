-- ===== src/Webhook/Deliveries.antt =====
-- crates/webhook-service/src/retry_scheduler.rs: one row of `webhook_deliveries` as the scheduler's
-- statements change it. They act on each row by itself: the limit of a batch and the order in it
-- only put a row off to a later run.
use payment_gateway_in_rust.Prelude.{
  ℕ, suc, ◌+◌, Bool, true, false, ◌&&◌, Option, none, some, ◌∷◌, ltb, leb, if◌then◌else◌,
}
use payment_gateway_in_rust.Common.{Timestamp, Text, lit, nat}

pub data DeliveryStatus : Type 0 where
  pending processing success dead_lettered : DeliveryStatus

pub record Delivery : Type 0 where
  pub status : DeliveryStatus
  pub attempt_count : ℕ
  pub max_attempts : ℕ
  pub next_retry_at : Option Timestamp
  pub processing_started_at : Option Timestamp
  pub last_http_status : Option ℕ
  pub last_error : Option Text
  pub dead_lettered_at : Option Timestamp
  -- The requests that were sent for it; no column of the table.
  pub sent : ℕ

abbrev is_pending : DeliveryStatus → Bool
is_pending pending = true
is_pending _ = false

abbrev pub is_processing : DeliveryStatus → Bool
is_processing processing = true
is_processing _ = false

abbrev older_than : Timestamp → Option Timestamp → Bool
older_than limit none = false
older_than limit (some t) = ltb (t + 300) limit

-- The first UPDATE of `run_once`: five minutes after it was claimed, a row is free again.
unfoldable pub reset_stale : Timestamp → Delivery → Delivery
reset_stale now d =
    if is_processing d.status && older_than now d.processing_started_at
    then record d { status = pending; processing_started_at = none }
    else d

-- `next_retry_at <= NOW()`, which NULL does not meet.
abbrev reached : Timestamp → Option Timestamp → Bool
reached now none = false
reached now (some t) = leb t now

abbrev pub is_due : Timestamp → Delivery → Bool
is_due now d =
    is_pending d.status && (reached now d.next_retry_at && ltb d.attempt_count d.max_attempts)

-- The second UPDATE of `run_once`, on a row that it selects.
unfoldable pub claim : Timestamp → Delivery → Delivery
claim now d = record d { status = processing; processing_started_at = some now }

-- The UPDATE before the request.
unfoldable pub count_attempt : Delivery → Delivery
count_attempt d = record d { attempt_count = suc d.attempt_count }

-- The outcome of the request.
pub data Outcome : Type 0 where
  answered : (status : ℕ) (body : Text) → Outcome
  unanswered : Text → Outcome

-- `handle_failure`; the delay is computed from a power of two and a random number.
unfoldable pub handle_failure :
    (delay : ℕ → ℕ) (now : Timestamp) (attempt http_status : ℕ) (error : Text) → Delivery → Delivery
handle_failure delay now attempt http_status error d =
    if leb d.max_attempts attempt
    then record d {
      status = dead_lettered;
      last_http_status = some http_status;
      last_error = some error;
      dead_lettered_at = some now;
    }
    else record d {
      last_http_status = some http_status;
      last_error = some error;
      next_retry_at = some (now + delay attempt);
    }

-- What follows the request; `attempt` is the number of this attempt, from the claimed row.
unfoldable pub finish :
    (delay : ℕ → ℕ) (now : Timestamp) (attempt : ℕ) → Outcome → Delivery → Delivery
unfolding handle_failure
finish delay now attempt (answered status body) d =
    if leb 200 status && ltb status 300
    then record d { status = success; last_http_status = some status }
    else handle_failure delay now attempt status (lit "HTTP " ∷ nat status ∷ lit ": " ∷ body) d
finish delay now attempt (unanswered e) d = handle_failure delay now attempt 0 e d

-- How far the process comes with a claimed row.
pub data Progress : Type 0 where
  stopped : Progress
  stopped_after_count : Progress
  stopped_after_request : Progress
  done : Timestamp → Outcome → Progress

abbrev pub sent_once : Delivery → Delivery
sent_once d = record d { sent = suc d.sent }

-- The future that `run_once` makes for a claimed row, as far as it comes.
unfoldable pub attempt_delivery : (delay : ℕ → ℕ) → Progress → Delivery → Delivery
unfolding count_attempt finish
attempt_delivery delay stopped d = d
attempt_delivery delay stopped_after_count d = count_attempt d
attempt_delivery delay stopped_after_request d = sent_once (count_attempt d)
attempt_delivery delay (done now outcome) d =
    finish delay now (suc d.attempt_count) outcome (sent_once (count_attempt d))

-- One run of the scheduler on the row.
unfoldable pub run_once : (delay : ℕ → ℕ) → Timestamp → Progress → Delivery → Delivery
unfolding reset_stale claim attempt_delivery
run_once delay now progress d =
    let d' = reset_stale now d in
    if is_due now d' then attempt_delivery delay progress (claim now d') else d'
