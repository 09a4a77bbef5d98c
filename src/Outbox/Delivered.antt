-- ===== src/Outbox/Delivered.antt =====
-- What the broker has acknowledged, over any runs of the worker.
use payment_gateway_in_rust.Prelude.{
  take, ℕ, ◌≡◌, refl, sym, subst, true, List, [], ◌∷◌, ◌++◌, arith, ◌==◌, All, All-update,
}
use payment_gateway_in_rust.Common.{Uuid, Timestamp, Text}
use payment_gateway_in_rust.Outbox.Worker.{
  OutboxRow, Outbox, is_stale, unlock, reset_locks, claimed, ids, is_one_of, lock, Broker, Progress,
  stopped, finished, acknowledged, failures, set_published, set_failed, record_failures, publish,
  claim_and_publish, run_once,
}

-- The identifiers that are acknowledged in a run.
abbrev pub sent_of : Broker → Progress → List OutboxRow → List Uuid
sent_of broker (stopped sends) events = ids (acknowledged broker (take sends events))
sent_of broker finished events = ids (acknowledged broker events)

abbrev pub sent_in : (batch_size : ℕ) → Timestamp → Broker → Progress → Outbox → List Uuid
sent_in batch_size now broker progress o =
    sent_of broker progress (claimed batch_size (reset_locks now o.rows))

-- A property of rows that the statements of the worker keep, given what was acknowledged.
pub record IsKept (Q : OutboxRow → Type 0) (sent : List Uuid) : Type 0 where
  pub unlocked : (r : OutboxRow) → Q r → Q (unlock r)
  pub locked : (now : Timestamp) (r : OutboxRow) → Q r → Q (lock now r)
  pub published :
      (now : Timestamp) (r : OutboxRow)
      → is_one_of sent r.event.id ≡ true
      → Q r
      → Q (set_published now r)
  pub failed : (error : Text) (r : OutboxRow) → Q r → Q (set_failed error r)

module _ (Q : OutboxRow → Type 0) {sent : List Uuid} (k : IsKept Q sent) where
  record_failures-All :
      (fs : List (Uuid × Text)) (rows : List OutboxRow)
      → All Q rows
      → All Q (record_failures fs rows)
  unfolding record_failures
  record_failures-All [] rows h = h
  record_failures-All ((i, error) ∷ fs) rows h = record_failures-All fs _ (
      All-update Q Q (λ r. r.event.id == i) (set_failed error) rows (λ r _. k.failed error r)
        (λ r q. q) h)

module _ (Q : OutboxRow → Type 0) (now : Timestamp) (broker : Broker) where
  publish-All :
      (progress : Progress) (events : List OutboxRow) (o : Outbox)
      → IsKept Q (sent_of broker progress events)
      → All Q o.rows
      → All Q (publish now broker progress events o).1.rows
  unfolding publish
  publish-All (stopped sends) events o k h = h
  publish-All finished events o k h = record_failures-All Q k (failures broker events) _ (
      All-update Q Q (λ r. is_one_of (ids (acknowledged broker events)) r.event.id)
        (set_published now) o.rows (k.published now) (λ r q. q) h)

  pub run_once-All :
      (batch_size : ℕ) (progress : Progress) (o : Outbox)
      → IsKept Q (sent_in batch_size now broker progress o)
      → All Q o.rows
      → All Q (run_once batch_size now broker progress o).1.rows
  unfolding run_once claim_and_publish
  run_once-All batch_size progress o k h =
      let rows = reset_locks now o.rows in
      publish-All progress (claimed batch_size rows) _ k (
        All-update Q Q (λ r. is_one_of (ids (claimed batch_size rows)) r.event.id) (lock now) rows
          (λ r _. k.locked now r) (λ r q. q)
          (All-update Q Q (is_stale now) unlock o.rows (λ r _. k.unlocked r) (λ r q. q) h))

publish-sent :
    (now : Timestamp) (broker : Broker) (progress : Progress) (events : List OutboxRow) (o : Outbox)
    → (publish now broker progress events o).1.delivered
      ≡ sent_of broker progress events ++ o.delivered
unfolding publish
publish-sent now broker (stopped sends) events o = refl
publish-sent now broker finished events o = refl

pub run_once-sent :
    (batch_size : ℕ) (now : Timestamp) (broker : Broker) (progress : Progress) (o : Outbox)
    → (run_once batch_size now broker progress o).1.delivered
      ≡ sent_in batch_size now broker progress o ++ o.delivered
unfolding run_once claim_and_publish
run_once-sent batch_size now broker progress o = publish-sent now broker progress _ _

-- Runs of one worker or of several, in the order of their commits.
abbrev pub runs : (batch_size : ℕ) → List (Timestamp × Broker × Progress) → Outbox → Outbox
runs batch_size [] o = o
runs batch_size ((now, broker, progress) ∷ rest) o =
    runs batch_size rest (run_once batch_size now broker progress o).1

-- A published event has been acknowledged.
abbrev pub WasSent : List Uuid → OutboxRow → Type 0
WasSent delivered r = r.event.published ≡ true → is_one_of delivered r.event.id ≡ true

is_one_of-append_left :
    (xs ys : List Uuid) (i : Uuid) → is_one_of xs i ≡ true → is_one_of (xs ++ ys) i ≡ true
unfolding is_one_of
is_one_of-append_left [] ys i h = absurd (ground (arith, h))
is_one_of-append_left (x ∷ xs) ys i h = ground (arith, h, is_one_of-append_left xs ys i)

is_one_of-append_right :
    (xs ys : List Uuid) (i : Uuid) → is_one_of ys i ≡ true → is_one_of (xs ++ ys) i ≡ true
unfolding is_one_of
is_one_of-append_right [] ys i h = h
is_one_of-append_right (x ∷ xs) ys i h = ground (arith, is_one_of-append_right xs ys i h)

sent-IsKept : (sent delivered : List Uuid) → IsKept (WasSent (sent ++ delivered)) sent
sent-IsKept sent delivered = record {
  unlocked = λ r q. q;
  locked = λ now r q. q;
  published = λ now r hit q _. is_one_of-append_left sent delivered r.event.id hit;
  failed = λ error r q. q;
}

more-WasSent :
    (sent delivered : List Uuid) (rows : List OutboxRow)
    → All (WasSent delivered) rows
    → All (WasSent (sent ++ delivered)) rows
more-WasSent sent delivered [] h = tt
more-WasSent sent delivered (r ∷ rs) h = (
  λ p. is_one_of-append_right sent delivered r.event.id (h.0 p),
  more-WasSent sent delivered rs h.1,
)

-- If every event that is marked as published was acknowledged by the broker, then so it is after any
-- runs, whatever the broker answers and wherever the worker stops: no event is marked without
-- having been delivered.
pub runs-WasSent :
    (batch_size : ℕ) (rs : List (Timestamp × Broker × Progress)) (o : Outbox)
    → All (WasSent o.delivered) o.rows
    → All (WasSent (runs batch_size rs o).delivered) (runs batch_size rs o).rows
runs-WasSent batch_size [] o h = h
runs-WasSent batch_size ((now, broker, progress) ∷ rest) o h =
    let sent = sent_in batch_size now broker progress o in
    let o' = (run_once batch_size now broker progress o).1 in
    runs-WasSent batch_size rest o' (
      subst (λ d. All (WasSent d) o'.rows) (sym (run_once-sent batch_size now broker progress o))
        (run_once-All (WasSent (sent ++ o.delivered)) now broker batch_size progress o
          (sent-IsKept sent o.delivered) (more-WasSent sent o.delivered o.rows h)))
