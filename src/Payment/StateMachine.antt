-- ===== src/Payment/StateMachine.antt =====
-- crates/payment-service/src/state_machine.rs.
use payment_gateway_in_rust.Prelude.{List, [], ◌∷◌, if◌then◌else◌}
use payment_gateway_in_rust.Common.{
  PaymentStatus, debug_status, can_transition_to, lit, AppResult, ok, err, invalid_state_transition,
}

pub record PaymentStateMachine : Type 0 where
  pub current : PaymentStatus

abbrev pub new : PaymentStatus → PaymentStateMachine
new status = record { current = status }

-- `transition(&mut self, next)`: the result, and the machine after the call.
unfoldable pub transition :
    PaymentStateMachine → PaymentStatus → AppResult PaymentStatus × PaymentStateMachine
unfolding can_transition_to
transition sm next =
    if can_transition_to sm.current next then (ok next, record sm { current = next }) else (
      err (
          invalid_state_transition (lit (debug_status sm.current) ∷ [])
            (lit (debug_status next) ∷ [])),
      sm,
    )

-- Calls of `transition`, one after the other, each with `?`; the status of the last one.
unfoldable pub walk : PaymentStateMachine → List PaymentStatus → AppResult PaymentStatus
unfolding transition
walk sm [] = ok sm.current
walk sm (next ∷ rest) =
    let (r, sm') = transition sm next in
    let tail = walk sm' rest in elim r [ ok _ ↦ tail | err e ↦ err e ]
