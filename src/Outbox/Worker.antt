-- ===== src/Outbox/Worker.antt =====
-- crates/outbox-worker/src/worker.rs: one poll of the outbox, `run_once`, over the rows of
-- `outbox_events` with the column that migrations/014_worker_locks.sql adds.
use payment_gateway_in_rust.Prelude.{
  ℕ, suc, ◌+◌, Bool, true, false, ◌&&◌, ◌||◌, not, Option, none, some, List, [], ◌∷◌, ◌++◌, map,
  ltb, leb, ◌==◌, is_some, length, keep, take, update_where, if◌then◌else◌,
}
use payment_gateway_in_rust.Common.{Uuid, Timestamp, Text, OutboxEvent}

pub record OutboxRow : Type 0 where
  pub event : OutboxEvent
  pub locked_at : Option Timestamp

-- The table, and the identifiers of the events that the broker has acknowledged, newest first.
pub record Outbox : Type 0 where
  pub rows : List OutboxRow
  pub delivered : List Uuid

abbrev pub max_failed_attempts : ℕ
max_failed_attempts = 10

-- `locked_at IS NOT NULL AND locked_at < NOW() - INTERVAL '5 minutes'`.
abbrev lock_expired : Timestamp → Option Timestamp → Bool
lock_expired now none = false
lock_expired now (some t) = ltb (t + 300) now

abbrev pub is_stale : Timestamp → OutboxRow → Bool
is_stale now r = not r.event.published && lock_expired now r.locked_at

abbrev pub unlock : OutboxRow → OutboxRow
unlock r = record r { locked_at = none }

-- The first UPDATE.
abbrev pub reset_locks : Timestamp → List OutboxRow → List OutboxRow
reset_locks now rows = update_where (is_stale now) unlock rows

-- The WHERE clause of the claim.
abbrev pub is_claimable : OutboxRow → Bool
is_claimable r =
    not r.event.published
    && (not (is_some r.locked_at) && ltb r.event.failed_attempts max_failed_attempts)

-- `ORDER BY created_at ASC`.
unfoldable pub insert_by_age : OutboxRow → List OutboxRow → List OutboxRow
insert_by_age r [] = r ∷ []
insert_by_age r (s ∷ ss) =
    let rest = insert_by_age r ss in
    if leb r.event.created_at s.event.created_at then r ∷ s ∷ ss else s ∷ rest

unfoldable pub by_age : List OutboxRow → List OutboxRow
unfolding insert_by_age
by_age [] = []
by_age (r ∷ rs) = insert_by_age r (by_age rs)

-- The rows that the claim selects.
unfoldable pub claimed : (batch_size : ℕ) → List OutboxRow → List OutboxRow
unfolding by_age
claimed batch_size rows = take batch_size (by_age (keep is_claimable rows))

abbrev pub ids : List OutboxRow → List Uuid
ids rs = map (λ r. r.event.id) rs

-- `id IN (...)`, `id = ANY($1)`.
unfoldable pub is_one_of : List Uuid → Uuid → Bool
is_one_of [] i = false
is_one_of (j ∷ js) i = (i == j) || is_one_of js i

abbrev pub lock : Timestamp → OutboxRow → OutboxRow
lock now r = record r { locked_at = some now }

-- What the broker answers to an event: nothing where it acknowledges it, else the error.
abbrev pub Broker : Type 0
Broker = OutboxEvent → Option Text

-- How far the worker comes with the rows that it has claimed.
pub data Progress : Type 0 where
  -- It stops after it has sent some of them, and commits nothing.
  stopped : (sends : ℕ) → Progress
  finished : Progress

-- The rows that were acknowledged, and those that failed with their errors.
abbrev pub acknowledged : Broker → List OutboxRow → List OutboxRow
acknowledged broker rs = keep (λ r. not (is_some (broker r.event))) rs

abbrev pub failures : Broker → List OutboxRow → List (Uuid × Text)
failures broker [] = []
failures broker (r ∷ rs) =
    let rest = failures broker rs in
    elim (broker r.event) [ some e ↦ (r.event.id, e) ∷ rest | none ↦ rest ]

abbrev pub set_published : Timestamp → OutboxRow → OutboxRow
set_published now r = record r {
  event = record r.event { published = true; published_at = some now };
  locked_at = none;
}

abbrev pub set_failed : Text → OutboxRow → OutboxRow
set_failed error r = record r {
  event = record r.event { failed_attempts = suc r.event.failed_attempts; last_error = some error };
  locked_at = none;
}

-- The loop over the failed events.
unfoldable pub record_failures : List (Uuid × Text) → List OutboxRow → List OutboxRow
record_failures [] rows = rows
record_failures ((i, error) ∷ fs) rows =
    record_failures fs (update_where (λ r. r.event.id == i) (set_failed error) rows)

-- From the sends to the commit, for the events that were claimed.
unfoldable pub publish : Timestamp → Broker → Progress → List OutboxRow → Outbox → ℕ × Outbox
unfolding is_one_of record_failures
publish now broker (stopped sends) events o =
    (0, record o { delivered = ids (acknowledged broker (take sends events)) ++ o.delivered })
publish now broker finished events o =
    let published_ids = ids (acknowledged broker events) in
    (
      length published_ids,
      record {
        rows =
            record_failures (failures broker events)
              (update_where (λ r. is_one_of published_ids r.event.id) (set_published now) o.rows);
        delivered = published_ids ++ o.delivered;
      },
    )

-- The claim, and what follows it.
unfoldable pub claim_and_publish :
    (batch_size : ℕ) → Timestamp → Broker → Progress → Outbox → ℕ × Outbox
unfolding claimed publish
claim_and_publish batch_size now broker progress o =
    let events = claimed batch_size o.rows in
    publish now broker progress events
      (record o { rows = update_where (λ r. is_one_of (ids events) r.event.id) (lock now) o.rows })

unfoldable pub run_once : (batch_size : ℕ) → Timestamp → Broker → Progress → Outbox → ℕ × Outbox
unfolding claim_and_publish
run_once batch_size now broker progress o =
    claim_and_publish batch_size now broker progress (record o { rows = reset_locks now o.rows })
