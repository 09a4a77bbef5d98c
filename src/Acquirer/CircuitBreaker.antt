-- ===== src/Acquirer/CircuitBreaker.antt =====
-- crates/acquirer-router/src/circuit_breaker.rs: the breaker of one acquirer. A time is a number of
-- seconds, and each operation runs under the breaker's lock, so it is one function on its state.
use payment_gateway_in_rust.Prelude.{ℕ, suc, ◌+◌, Bool, true, false, ◌||◌, leb, if◌then◌else◌}
use payment_gateway_in_rust.Common.{Timestamp}

pub data CircuitState : Type 0 where
  closed : CircuitState
  open_until : (deadline : Timestamp) → CircuitState
  half_open : CircuitState

pub record CircuitBreaker : Type 0 where
  pub state : CircuitState
  pub failure_count : ℕ
  pub success_count : ℕ

abbrev pub failure_threshold : ℕ
failure_threshold = 5

abbrev pub success_threshold : ℕ
success_threshold = 2

abbrev pub timeout : ℕ
timeout = 30

unfoldable pub new_breaker : CircuitBreaker
new_breaker = record { state = closed; failure_count = 0; success_count = 0 }

abbrev pub is_half_open : CircuitState → Bool
is_half_open half_open = true
is_half_open _ = false

-- What `allow_request` makes of the state that it matches on.
abbrev allow_in : CircuitState → Timestamp → CircuitBreaker → Bool × CircuitBreaker
allow_in closed now b = (true, b)
allow_in (open_until deadline) now b =
    if leb deadline now
    then (true, record b { state = half_open; success_count = 0 })
    else (false, b)
allow_in half_open now b = (true, b)

unfoldable pub allow_request : Timestamp → CircuitBreaker → Bool × CircuitBreaker
allow_request now b = allow_in b.state now b

-- `success_count` raised, and the breaker closed at the threshold.
abbrev count_success : CircuitBreaker → CircuitBreaker
count_success b =
    if leb success_threshold (suc b.success_count)
    then record b { state = closed; success_count = suc b.success_count }
    else record b { success_count = suc b.success_count }

unfoldable pub record_success : CircuitBreaker → CircuitBreaker
record_success b =
    let b' : CircuitBreaker = record b { failure_count = 0 } in
    if is_half_open b.state then count_success b' else b'

unfoldable pub record_failure : Timestamp → CircuitBreaker → CircuitBreaker
record_failure now b =
    if leb failure_threshold (suc b.failure_count) || is_half_open b.state
    then record b { state = open_until (now + timeout); failure_count = 0 }
    else record b { failure_count = suc b.failure_count }

unfoldable pub is_open : CircuitBreaker → Bool
is_open b = elim b.state [ open_until deadline ↦ true | _ ↦ false ]
