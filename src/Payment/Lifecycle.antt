-- ===== src/Payment/Lifecycle.antt =====
-- The runs of the state machine of crates/payment-service/src/state_machine.rs.
use payment_gateway_in_rust.Prelude.{
  Bool-cases, ℕ, ◌+◌, ◌≤◌, ◌<◌, ◌≡◌, ◌≢◌, refl, true, List, [], ◌∷◌, length, arith, inl, inr,
}
use payment_gateway_in_rust.Common.{
  can_transition_to, PaymentStatus, created, pending, authorized, captured, settled, failed,
  refunded, disputed, cancelled, requires_action, is_terminal, ok,
}
use payment_gateway_in_rust.Payment.StateMachine.{new, transition, walk}

-- How far a payment has come.
abbrev pub rank : PaymentStatus → ℕ
rank created = 0
rank pending = 1
rank requires_action = 2
rank authorized = 3
rank captured = 4
rank settled = 5
rank failed = 6
rank refunded = 6
rank disputed = 6
rank cancelled = 6

can_transition_to-rank : (s t : PaymentStatus) → can_transition_to s t ≡ true → rank s < rank t
unfolding can_transition_to
can_transition_to-rank s t h = ground arith

walk-step :
    (s t u : PaymentStatus) (ts : List PaymentStatus)
    → walk (new s) (t ∷ ts) ≡ ok u
    → (can_transition_to s t ≡ true) × (walk (new t) ts ≡ ok u)
unfolding walk transition
walk-step s t u ts h = elim (Bool-cases (can_transition_to s t)) [
  | inl e ↦ (e, ground (arith, e, h))
  | inr e ↦ absurd (ground (arith, e, h))
]

-- A run of accepted transitions, from any status, raises the rank by at least its length; ranks are
-- at most 6, so no run is longer than that and none returns to a status that it has left.
pub walk-raises :
    (s u : PaymentStatus) (path : List PaymentStatus)
    → walk (new s) path ≡ ok u
    → rank s + length path ≤ rank u
unfolding walk
walk-raises s u [] h = ground arith
walk-raises s u (t ∷ ts) h =
    let step = walk-step s t u ts h in
    omega (arith, can_transition_to-rank s t step.0, walk-raises t u ts step.1)

disputed_final : (t v : PaymentStatus) → t ≡ disputed → can_transition_to t v ≢ true
unfolding can_transition_to
disputed_final t v e h = ground arith

from_terminal :
    (s t : PaymentStatus)
    → is_terminal s ≡ true
    → can_transition_to s t ≡ true
    → (s ≡ settled) × (t ≡ disputed)
unfolding is_terminal can_transition_to
from_terminal s t e h = ground arith

disputed-stays :
    (t u : PaymentStatus) (ts : List PaymentStatus)
    → t ≡ disputed
    → walk (new t) ts ≡ ok u
    → (ts ≡ []) × (u ≡ disputed)
unfolding walk
disputed-stays t u [] e h = (refl, ground (arith, e, h))
disputed-stays t u (v ∷ vs) e h =
    let step = walk-step t v u vs h in absurd (disputed_final t v e step.0)

-- A run of at least one accepted transition that starts in a terminal status is the one step from
-- `settled` to `disputed`; every other terminal status is final.
pub terminal-walk :
    (s t u : PaymentStatus) (ts : List PaymentStatus)
    → is_terminal s ≡ true
    → walk (new s) (t ∷ ts) ≡ ok u
    → (s ≡ settled) × (t ≡ disputed) × (ts ≡ []) × (u ≡ disputed)
terminal-walk s t u ts e h =
    let step = walk-step s t u ts h in
    let ends = from_terminal s t e step.0 in
    let stays = disputed-stays t u ts ends.1 step.1 in (ends.0, ends.1, stays.0, stays.1)

not_to_refunded : (s t : PaymentStatus) → can_transition_to s t ≡ true → t ≢ refunded
unfolding can_transition_to
not_to_refunded s t h e = ground arith

-- No run of accepted transitions from another status ends in `refunded`.
pub walk-never_refunded :
    (s u : PaymentStatus) (path : List PaymentStatus)
    → s ≢ refunded
    → walk (new s) path ≡ ok u
    → u ≢ refunded
unfolding walk
walk-never_refunded s u [] n h = λ e. n (ground (arith, h, e))
walk-never_refunded s u (t ∷ ts) n h =
    let step = walk-step s t u ts h in
    walk-never_refunded t u ts (not_to_refunded s t step.0) step.1
