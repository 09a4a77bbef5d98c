-- ===== src/Payment/Replay.antt =====
-- crates/payment-service/src/orchestrator.rs: a payment request with a repeated idempotency key.
use payment_gateway_in_rust.Prelude.{◌≡◌, refl, String, some, find, false, arith, suc}
use payment_gateway_in_rust.Prelude.Int.{pos, ◌<ℤ◌}
use payment_gateway_in_rust.Common.{Uuid, Payment, CreatePaymentRequest, ok}
use payment_gateway_in_rust.Payment.World.{World, Env, ◌>>=◌}
use payment_gateway_in_rust.Payment.Statements.{
  has_key, existing_id, insert_payment_idempotent, find_payment_by_id,
}
use payment_gateway_in_rust.Payment.External.{Exchange}
use payment_gateway_in_rust.Payment.Orchestrator.{open_payment, initial_payment}
use payment_gateway_in_rust.Payment.Orchestrator.Operations.{
  create_payment, and_then, replay_payment,
}
use payment_gateway_in_rust.Payment.Rows.{UniqueIds}
use payment_gateway_in_rust.Payment.Commits.{run_tx-commits}
use payment_gateway_in_rust.Payment.Keys.{find_by_id-of_key}

open_payment-taken :
    (p : Payment) (k : String) (w : World) (q : Payment)
    → pos 0 <ℤ p.amount
    → find (has_key p.merchant_id p.idempotency_key) w.payments ≡ some q
    → open_payment p w ≡ ok ((q.id, false), w)
unfolding open_payment insert_payment_idempotent existing_id ◌>>=◌
open_payment-taken p k w q positive e = ground arith

-- A payment request for a positive amount, whose idempotency key names a stored payment of the
-- merchant, returns that payment as it is stored, and changes nothing but the supply of identifiers:
-- no row, event or entry is written and the acquirer is not called.
pub create_payment-replays :
    (env : Env) (fraud acquirer : Exchange) (m : Uuid) (req : CreatePaymentRequest) (k : String)
    (w : World) (q : Payment)
    → UniqueIds w.payments
    → pos 0 <ℤ req.amount
    → find (has_key m (some k)) w.payments ≡ some q
    → create_payment env fraud acquirer m req (some k) w
      ≡ (ok q, record w { next_id = suc w.next_id })
unfolding create_payment initial_payment find_payment_by_id and_then replay_payment
create_payment-replays env fraud acquirer m req k w q unique positive e =
    let v : World = record w { next_id = suc w.next_id } in
    let p = initial_payment w.next_id w.now m req (some k) in
    rw (run_tx-commits (open_payment p) v v _ (open_payment-taken p k v q positive e))
      (rw (find_by_id-of_key m k w.payments q unique e).0 refl)
