-- ===== src/Acquirer/Breakers.antt =====
-- The runs of a breaker: its counters, how it trips, and how it recovers.
use payment_gateway_in_rust.Prelude.{
  suc, ◌+◌, ◌≤◌, ◌<◌, ◌≡◌, refl, true, false, List, [], ◌∷◌, arith, subst, length, ap, ◌∙◌,
}
use payment_gateway_in_rust.Common.{Timestamp}
use payment_gateway_in_rust.Acquirer.CircuitBreaker.{
  closed, open_until, half_open, CircuitBreaker, new_breaker, allow_request, record_success,
  record_failure, is_half_open, failure_threshold, success_threshold, timeout,
}

-- A call of the breaker, at a time where it looks at the clock.
pub data Operation : Type 0 where
  asked : Timestamp → Operation
  succeeded : Operation
  failed : Timestamp → Operation

abbrev pub apply : Operation → CircuitBreaker → CircuitBreaker
apply (asked now) b = (allow_request now b).1
apply succeeded b = record_success b
apply (failed now) b = record_failure now b

-- The operations, the first one first.
abbrev pub run : List Operation → CircuitBreaker → CircuitBreaker
run [] b = b
run (o ∷ os) b = run os (apply o b)

-- The failures counted are below the threshold, and so are the successes while the breaker is half
-- open; no count goes above its threshold.
pub record IsBounded (b : CircuitBreaker) : Type 0 where
  pub failures : b.failure_count < failure_threshold
  pub successes : b.success_count ≤ success_threshold
  pub half_open_successes : is_half_open b.state ≡ true → b.success_count < success_threshold

apply-IsBounded : (o : Operation) (b : CircuitBreaker) → IsBounded b → IsBounded (apply o b)
unfolding allow_request record_success record_failure
apply-IsBounded (asked now) b h = record {
  failures = ground (arith, h.failures);
  successes = ground (arith, h.successes);
  half_open_successes = ground (arith, h.half_open_successes);
}
apply-IsBounded succeeded b h = record {
  failures = ground (arith, h.failures);
  successes = ground (arith, h.successes, h.half_open_successes);
  half_open_successes = ground (arith, h.half_open_successes);
}
apply-IsBounded (failed now) b h = record {
  failures = ground (arith, h.failures);
  successes = ground (arith, h.successes);
  half_open_successes = ground (arith, h.half_open_successes);
}

run-IsBounded_from : (os : List Operation) (b : CircuitBreaker) → IsBounded b → IsBounded (run os b)
run-IsBounded_from [] b h = h
run-IsBounded_from (o ∷ os) b h = run-IsBounded_from os (apply o b) (apply-IsBounded o b h)

new_breaker-IsBounded : IsBounded new_breaker
unfolding new_breaker
new_breaker-IsBounded = record {
  failures = ground arith;
  successes = ground arith;
  half_open_successes = λ e. ground arith;
}

-- After any sequence of calls on a new breaker, at any times, the failures counted are fewer than 5,
-- the successes counted at most 2, and fewer than 2 while it is half open: the counters of 32 bits
-- do not overflow.
pub run-IsBounded : (os : List Operation) → IsBounded (run os new_breaker)
run-IsBounded os = run-IsBounded_from os new_breaker new_breaker-IsBounded

abbrev pub all_failed : List Timestamp → List Operation
all_failed [] = []
all_failed (t ∷ ts) = failed t ∷ all_failed ts

failing :
    (ts : List Timestamp) (b : CircuitBreaker)
    → b.state ≡ closed
    → b.failure_count + length ts < failure_threshold
    → run (all_failed ts) b ≡ record b { failure_count = b.failure_count + length ts }
unfolding record_failure
failing [] b e h = ground arith
failing (t ∷ ts) b e h =
    let b' : CircuitBreaker = record b { failure_count = suc b.failure_count } in
    let once : record_failure t b ≡ b' = ground (arith, e, h) in
    let count : suc b.failure_count + length ts ≡ b.failure_count + suc (length ts) = omega arith in
    ap (run (all_failed ts)) once
    ∙ (subst (λ n. run (all_failed ts) b' ≡ record b { failure_count = n }) count
        (failing ts b' e (omega (arith, h))))

-- A closed breaker stays closed while the failures counted, with those that follow without a success,
-- are fewer than 5; the fifth opens it for 30 seconds and resets the count.
pub fifth_failure-opens :
    (ts : List Timestamp) (t : Timestamp) (b : CircuitBreaker)
    → b.state ≡ closed
    → suc (b.failure_count + length ts) ≡ failure_threshold
    → ((run (all_failed ts) b).state ≡ closed)
      × (record_failure t (run (all_failed ts) b)
          ≡ record b { state = open_until (t + timeout); failure_count = 0 })
unfolding record_failure
fifth_failure-opens ts t b e h =
    let counted = failing ts b e (omega (arith, h)) in rw counted (e, ground (arith, e, h))

-- An open breaker refuses every request before its deadline and is not changed by them; the first
-- request from the deadline on is allowed and makes it half open, and then two successes close it,
-- while a failure opens it again for 30 seconds.
pub open-recovers :
    (b : CircuitBreaker) (deadline early now later : Timestamp)
    → b.state ≡ open_until deadline
    → early < deadline
    → deadline ≤ now
    → (allow_request early b ≡ (false, b))
      × ((allow_request now b).0 ≡ true)
      × ((run (asked now ∷ succeeded ∷ succeeded ∷ []) b).state ≡ closed)
      × ((run (asked now ∷ succeeded ∷ failed later ∷ []) b).state ≡ open_until (later + timeout))
unfolding allow_request record_success record_failure
open-recovers b deadline early now later e h k =
    let half : (allow_request now b).1 ≡ record b { state = half_open; success_count = 0 } =
      ground (arith, e, k) in
    (ground (arith, e, h), ground (arith, e, k), rw half refl, rw half refl)
