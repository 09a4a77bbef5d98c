-- ===== src/Acquirer/Router.antt =====
-- crates/acquirer-router/src/router.rs and adapter.rs: the acquirers in the order of their
-- priorities, each behind its breaker. An adapter is what it replies and how long it takes; one
-- request is followed, so nothing else touches a breaker between its check and its update.
use payment_gateway_in_rust.Prelude.{
  ℕ, String, ◌+◌, Bool, true, false, not, Option, List, [], ◌∷◌, ltb, is_some, find, if◌then◌else◌,
}
use payment_gateway_in_rust.Prelude.Int.{ℤ}
use payment_gateway_in_rust.Common.{
  Uuid, Timestamp, Json, AppError, AppResult, ok, err, acquirer_declined, all_acquirers_failed,
}
use payment_gateway_in_rust.Acquirer.CircuitBreaker.{
  CircuitBreaker, new_breaker, allow_request, record_success, record_failure, is_open,
}

pub record ChargeRequest : Type 0 where
  pub payment_id : Uuid
  pub amount : ℤ
  pub currency : String
  pub payment_method : Json
  pub capture : Bool
  pub description : Option String
  pub metadata : Json

pub data ChargeStatus : Type 0 where
  authorized captured declined pending requires_action : ChargeStatus

pub record ChargeResponse : Type 0 where
  pub acquirer_reference : String
  pub status : ChargeStatus
  pub acquirer_id : String
  pub redirect_url : Option String

pub record CaptureRequest : Type 0 where
  pub payment_id : Uuid
  pub acquirer_reference : String
  pub amount : ℤ

pub record CaptureResponse : Type 0 where
  pub acquirer_reference : String
  pub captured_amount : ℤ

pub record RefundRequest : Type 0 where
  pub payment_id : Uuid
  pub acquirer_reference : String
  pub amount : ℤ
  pub reason : Option String

pub record RefundResponse : Type 0 where
  pub refund_reference : String
  pub refunded_amount : ℤ

-- A reply, and the seconds until it comes.
abbrev pub Reply : Type 0 → Type 0
Reply A = AppResult A × ℕ

-- The methods of the trait that the router calls.
pub record AcquirerAdapter : Type 0 where
  pub name : String
  pub charge : ChargeRequest → Reply ChargeResponse
  pub capture : CaptureRequest → Reply CaptureResponse
  pub refund : RefundRequest → Reply RefundResponse

pub record AcquirerEntry : Type 0 where
  pub adapter : AcquirerAdapter
  pub circuit_breaker : CircuitBreaker
  pub priority : ℕ

abbrev pub AcquirerRouter : Type 0
AcquirerRouter = List AcquirerEntry

-- A stable sort puts an entry that was appended before the first one of a higher priority number.
abbrev pub insert_by_priority : AcquirerEntry → AcquirerRouter → AcquirerRouter
insert_by_priority e [] = e ∷ []
insert_by_priority e (f ∷ fs) =
    let rest = insert_by_priority e fs in if ltb e.priority f.priority then e ∷ f ∷ fs else f ∷ rest

unfoldable pub register : AcquirerAdapter → ℕ → AcquirerRouter → AcquirerRouter
register adapter priority acquirers =
    insert_by_priority
      (record { adapter = adapter; circuit_breaker = new_breaker; priority = priority }) acquirers

abbrev pub with_breaker : AcquirerEntry → CircuitBreaker → AcquirerEntry
with_breaker e b = record e { circuit_breaker = b }

-- `AppError::AcquirerDeclined { .. }`, which is returned as it is.
abbrev pub is_decline : AppError → Bool
is_decline (acquirer_declined code message) = true
is_decline _ = false

-- The answer and the breakers, and, which the code does not return, the acquirers that were asked.
abbrev pub Charged : Type 0
Charged = AppResult ChargeResponse × AcquirerRouter × List AcquirerAdapter

-- One turn of the loop of `charge`: the reply of this acquirer, and what the turns after it would
-- give, if the last error is the one given and the clock stands at the time given.
unfoldable pub after_reply :
    AcquirerEntry
    → CircuitBreaker
    → List AcquirerEntry
    → Timestamp
    → AppResult ChargeResponse
    → (AppError → Charged)
    → Charged
after_reply e b es now (ok response) later =
    (ok response, with_breaker e (record_success b) ∷ es, e.adapter ∷ [])
after_reply e b es now (err x) later =
    let (r, es', asked) = later x in
    if is_decline x
    then (err x, with_breaker e b ∷ es, e.adapter ∷ [])
    else (r, with_breaker e (record_failure now b) ∷ es', e.adapter ∷ asked)

-- The loop of `charge`. An acquirer whose breaker is open is no candidate; none is opened before
-- its own turn, so the filter may be asked at the turn.
unfoldable pub charge_loop : ChargeRequest → List AcquirerEntry → Timestamp → AppError → Charged
unfolding after_reply
charge_loop request [] now last_err = (err last_err, [], [])
charge_loop request (e ∷ es) now last_err =
    let (allowed, b) = allow_request now e.circuit_breaker in
    let (reply, seconds) = e.adapter.charge request in
    let (skipped, es', asked) = charge_loop request es now last_err in
    let later = charge_loop request es (now + seconds) in
    if is_open e.circuit_breaker
    then (skipped, e ∷ es', asked)
    else (if allowed
        then after_reply e b es (now + seconds) reply later
        else (skipped, with_breaker e b ∷ es', asked))

-- Those that the filter of `charge` leaves.
abbrev pub candidate : AcquirerEntry → Bool
candidate e = not (is_open e.circuit_breaker)

unfoldable pub charge : ChargeRequest → Timestamp → AcquirerRouter → Charged
unfolding charge_loop
charge request now acquirers =
    if is_some (find candidate acquirers)
    then charge_loop request acquirers now all_acquirers_failed
    else (err all_acquirers_failed, acquirers, [])

-- The breaker after the only attempt of a capture or a refund.
unfoldable pub record_outcome :
    {A : Type 0} → Timestamp → AppResult A → CircuitBreaker → CircuitBreaker
record_outcome now (ok a) b = record_success b
record_outcome now (err x) b = record_failure now b

-- The loop that `capture` and `refund` share: the first acquirer that its breaker allows is asked,
-- and its answer is final.
unfoldable pub ask_first :
    {A : Type 0}
    → (AcquirerAdapter → Reply A)
    → Timestamp
    → AcquirerRouter
    → AppResult A × AcquirerRouter
unfolding record_outcome
ask_first ask now [] = (err all_acquirers_failed, [])
ask_first ask now (e ∷ es) =
    let (allowed, b) = allow_request now e.circuit_breaker in
    let (reply, seconds) = ask e.adapter in
    let (r, es') = ask_first ask now es in
    if allowed
    then (reply, with_breaker e (record_outcome (now + seconds) reply b) ∷ es)
    else (r, with_breaker e b ∷ es')

unfoldable pub capture :
    CaptureRequest → Timestamp → AcquirerRouter → AppResult CaptureResponse × AcquirerRouter
unfolding ask_first
capture request now acquirers = ask_first (λ a. a.capture request) now acquirers

unfoldable pub refund :
    RefundRequest → Timestamp → AcquirerRouter → AppResult RefundResponse × AcquirerRouter
unfolding ask_first
refund request now acquirers = ask_first (λ a. a.refund request) now acquirers
