-- ===== src/Webhook/Attempts.antt =====
-- The runs of the scheduler on one delivery, whatever is answered and wherever the process stops.
use payment_gateway_in_rust.Prelude.{
  ℕ, ◌≤◌, ◌≡◌, refl, ◌∙◌, ap, Bool, true, false, ◌&&◌, ltb, leb, List, [], ◌∷◌, arith,
}
use payment_gateway_in_rust.Common.{Timestamp}
use payment_gateway_in_rust.Webhook.Deliveries.{
  Delivery, DeliveryStatus, success, dead_lettered, Progress, run_once, reset_stale, claim,
  attempt_delivery, count_attempt, finish, handle_failure, Outcome, answered, unanswered,
}

-- The runs, the first one first.
abbrev pub runs : (ℕ → ℕ) → List (Timestamp × Progress) → Delivery → Delivery
runs delay [] d = d
runs delay ((now, progress) ∷ rest) d = runs delay rest (run_once delay now progress d)

pub record IsCounted (d : Delivery) : Type 0 where
  pub sent_counted : d.sent ≤ d.attempt_count
  pub within : d.attempt_count ≤ d.max_attempts

run_once-IsCounted :
    (delay : ℕ → ℕ) (now : Timestamp) (progress : Progress) (d : Delivery)
    → IsCounted d
    → IsCounted (run_once delay now progress d)
      × ((run_once delay now progress d).max_attempts ≡ d.max_attempts)
unfolding run_once reset_stale claim attempt_delivery count_attempt finish handle_failure
run_once-IsCounted delay now progress d h = (
  record {
    sent_counted = ground (arith, h.sent_counted, h.within);
    within = ground (arith, h.sent_counted, h.within);
  },
  ground arith,
)

runs-IsCounted :
    (delay : ℕ → ℕ) (rs : List (Timestamp × Progress)) (d : Delivery)
    → IsCounted d
    → IsCounted (runs delay rs d) × ((runs delay rs d).max_attempts ≡ d.max_attempts)
runs-IsCounted delay [] d h = (h, refl)
runs-IsCounted delay ((now, progress) ∷ rest) d h =
    let once = run_once-IsCounted delay now progress d h in
    let more = runs-IsCounted delay rest (run_once delay now progress d) once.0 in
    (more.0, more.1 ∙ once.1)

-- However often the scheduler runs, whatever the endpoint answers and wherever the process stops, a
-- delivery that was not sent more often than its attempts count, and not counted above its maximum,
-- is never sent more often than its maximum of attempts.
pub runs-sent_within :
    (delay : ℕ → ℕ) (rs : List (Timestamp × Progress)) (d : Delivery)
    → IsCounted d
    → (runs delay rs d).sent ≤ d.max_attempts
runs-sent_within delay rs d h =
    let k = runs-IsCounted delay rs d h in omega (arith, k.0.sent_counted, k.0.within, k.1)

abbrev pub is_final : DeliveryStatus → Bool
is_final success = true
is_final dead_lettered = true
is_final _ = false

run_once-final :
    (delay : ℕ → ℕ) (now : Timestamp) (progress : Progress) (d : Delivery)
    → is_final d.status ≡ true
    → run_once delay now progress d ≡ d
unfolding run_once reset_stale
run_once-final delay now progress d h = ground (arith, h)

-- A delivery that has succeeded or is dead-lettered is not changed or sent by any further runs.
pub runs-final :
    (delay : ℕ → ℕ) (rs : List (Timestamp × Progress)) (d : Delivery)
    → is_final d.status ≡ true
    → runs delay rs d ≡ d
runs-final delay [] d h = refl
runs-final delay ((now, progress) ∷ rest) d h =
    ap (runs delay rest) (run_once-final delay now progress d h) ∙ runs-final delay rest d h

-- An open delivery whose attempts are used up.
pub record IsUsedUp (d : Delivery) : Type 0 where
  pub still_open : is_final d.status ≡ false
  pub used : d.max_attempts ≤ d.attempt_count

run_once-IsUsedUp :
    (delay : ℕ → ℕ) (now : Timestamp) (progress : Progress) (d : Delivery)
    → IsUsedUp d
    → IsUsedUp (run_once delay now progress d) × ((run_once delay now progress d).sent ≡ d.sent)
unfolding run_once reset_stale
run_once-IsUsedUp delay now progress d h = (
  record {
    still_open = ground (arith, h.still_open, h.used);
    used = ground (arith, h.still_open, h.used);
  },
  ground (arith, h.still_open, h.used),
)

-- A delivery whose attempts are used up while it is still open (the process stopped during the last
-- one) stays open through all further runs: it is not sent again, and never becomes a success or a
-- dead letter.
pub IsUsedUp-stays :
    (delay : ℕ → ℕ) (rs : List (Timestamp × Progress)) (d : Delivery)
    → IsUsedUp d
    → IsUsedUp (runs delay rs d) × ((runs delay rs d).sent ≡ d.sent)
IsUsedUp-stays delay [] d h = (h, refl)
IsUsedUp-stays delay ((now, progress) ∷ rest) d h =
    let once = run_once-IsUsedUp delay now progress d h in
    let more = IsUsedUp-stays delay rest (run_once delay now progress d) once.0 in
    (more.0, more.1 ∙ once.1)

-- An answer with a status of 200 to 299.
abbrev pub is_accepted : Outcome → Bool
is_accepted (answered status body) = leb 200 status && ltb status 300
is_accepted (unanswered e) = false
