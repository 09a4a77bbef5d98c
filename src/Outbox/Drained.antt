-- ===== src/Outbox/Drained.antt =====
-- The outbox while the broker acknowledges everything.
use payment_gateway_in_rust.Prelude.{
  take, ℕ, suc, ◌≤◌, ◌<◌, ◌≡◌, ◌≢◌, ◌⊎◌, refl, sym, ap, subst, ◌∙◌, inl, inr, Bool, false, ◌&&◌,
  not, none, List, [], ◌∷◌, arith, ltb, length, keep, take, update_where, All, Bool-cases,
}
use payment_gateway_in_rust.Common.{Uuid, Timestamp}
use payment_gateway_in_rust.Outbox.Worker.{
  OutboxRow, Outbox, max_failed_attempts, is_stale, reset_locks, is_claimable, insert_by_age,
  by_age, claimed, ids, is_one_of, lock, Broker, Progress, finished, acknowledged, failures,
  set_published, record_failures, publish, claim_and_publish, run_once,
}
use payment_gateway_in_rust.Outbox.Delivered.{runs}
use payment_gateway_in_rust.Outbox.Spent.{by_age-All}

abbrev pub accepts : Broker
accepts e = none

-- Not published, and not given up.
abbrev pub is_waiting : OutboxRow → Bool
is_waiting r = not r.event.published && ltb r.event.failed_attempts max_failed_attempts

abbrev pub Unlocked : List OutboxRow → Type 0
Unlocked = All λ r. r.locked_at ≡ none

abbrev left : List OutboxRow → ℕ
left rows = length (keep is_waiting rows)

-- A run that is accepted, on the rows with the identifiers that it claimed.
abbrev accepted_rows : List Uuid → Timestamp → List OutboxRow → List OutboxRow
accepted_rows js now rows =
    update_where (λ r. is_one_of js r.event.id) (set_published now)
      (update_where (λ r. is_one_of js r.event.id) (lock now) rows)

reset-Unlocked :
    (now : Timestamp) (rows : List OutboxRow) → Unlocked rows → reset_locks now rows ≡ rows
reset-Unlocked now [] u = refl
reset-Unlocked now (r ∷ rs) u =
    let free : is_stale now r ≡ false = ground (arith, u.0) in
    rw (free, reset-Unlocked now rs u.1) refl

claimable-Unlocked :
    (rows : List OutboxRow) → Unlocked rows → keep is_claimable rows ≡ keep is_waiting rows
claimable-Unlocked [] u = refl
claimable-Unlocked (r ∷ rs) u = ground (arith, u.0, claimable-Unlocked rs u.1)

accepted-Unlocked :
    (js : List Uuid) (now : Timestamp) (rows : List OutboxRow)
    → Unlocked rows
    → Unlocked (accepted_rows js now rows)
accepted-Unlocked js now [] u = tt
accepted-Unlocked js now (r ∷ rs) u = (ground (arith, u.0), accepted-Unlocked js now rs u.1)

-- The waiting rows get no more, and fewer if one of them was claimed.
fewer :
    (js : List Uuid) (now : Timestamp) (rows : List OutboxRow)
    → (left (accepted_rows js now rows) ≤ left rows)
      × (All (λ r. is_one_of js r.event.id ≡ false) (keep is_waiting rows)
          ⊎ (left (accepted_rows js now rows) < left rows))
fewer js now [] = (omega arith, inl tt)
fewer js now (r ∷ rs) =
    let rest = fewer js now rs in
    elim (Bool-cases (is_one_of js r.event.id)) [
      | inl e ↦ elim (Bool-cases (is_waiting r)) [
        | inl w ↦ rw (e, e, w) (omega (arith, rest.0), inr (omega (arith, rest.0)))
        | inr w ↦ rw (e, e, w) (rest.0, rest.1)
      ]
      | inr e ↦ elim (Bool-cases (is_waiting r)) [
        | inl w ↦
            rw (e, e, w)
              (
                omega (arith, rest.0),
                elim rest.1 [
                  | inl none_of ↦ inl (e, none_of)
                  | inr less ↦ inr (omega (arith, less))
                ],
              )
        | inr w ↦ rw (e, e, w) (rest.0, rest.1)
      ]
    ]

insert-nonempty : (r : OutboxRow) (rs : List OutboxRow) → insert_by_age r rs ≢ []
unfolding insert_by_age
insert-nonempty r [] h = ground (arith, h)
insert-nonempty r (s ∷ ss) h = ground (arith, h)

by_age-empty : (rs : List OutboxRow) → by_age rs ≡ [] → rs ≡ []
unfolding by_age
by_age-empty [] h = refl
by_age-empty (r ∷ rs) h = absurd (insert-nonempty r (by_age rs) h)

-- A batch of at least one claims a row if there is any.
none_claimed :
    (b : ℕ) (sorted : List OutboxRow)
    → All (λ r. is_one_of (ids (take (suc b) sorted)) r.event.id ≡ false) sorted
    → sorted ≡ []
unfolding is_one_of
none_claimed b [] h = refl
none_claimed b (r ∷ rs) h = absurd (ground (arith, h.0))

accepted-all : (rs : List OutboxRow) → acknowledged accepts rs ≡ rs
accepted-all [] = refl
accepted-all (r ∷ rs) = ap (λ l. r ∷ l) (accepted-all rs)

no-failures : (rs : List OutboxRow) → failures accepts rs ≡ []
no-failures [] = refl
no-failures (r ∷ rs) = no-failures rs

-- What an accepted run leaves.
run_once-accepted :
    (batch_size : ℕ) (now : Timestamp) (o : Outbox)
    → Unlocked o.rows
    → (run_once batch_size now accepts finished o).1.rows
      ≡ accepted_rows (ids (claimed batch_size o.rows)) now o.rows
unfolding run_once claim_and_publish publish record_failures
run_once-accepted batch_size now o u =
    rw
      (
        reset-Unlocked now o.rows u,
        accepted-all (claimed batch_size o.rows),
        no-failures (claimed batch_size o.rows),
      )
      refl

progresses :
    (b : ℕ) (now : Timestamp) (rows : List OutboxRow)
    → Unlocked rows
    → (left rows ≡ 0) ⊎ (left (accepted_rows (ids (claimed (suc b) rows)) now rows) < left rows)
unfolding claimed
progresses b now rows u = elim ((fewer (ids (claimed (suc b) rows)) now rows).1) [
  | inr less ↦ inr less
  | inl none_of ↦
      let js = ids (claimed (suc b) rows) in
      let Q : OutboxRow → Type 0 = λ r. is_one_of js r.event.id ≡ false in
      let sorted = by_age-All Q _ (subst (All Q) (sym (claimable-Unlocked rows u)) none_of) in
      inl (
        ap length (
          sym (claimable-Unlocked rows u)
          ∙ by_age-empty (keep is_claimable rows) (none_claimed b _ sorted)))
]

abbrev pub accepted_runs : List Timestamp → List (Timestamp × Broker × Progress)
accepted_runs [] = []
accepted_runs (now ∷ nows) = (now, accepts, finished) ∷ accepted_runs nows

-- With a batch of at least one row, no row locked at the start, and a broker that acknowledges
-- everything: after as many runs as there are events waiting (neither published nor failed ten
-- times), none is waiting.
pub runs-drain :
    (b : ℕ) (nows : List Timestamp) (o : Outbox)
    → Unlocked o.rows
    → length (keep is_waiting o.rows) ≤ length nows
    → length (keep is_waiting (runs (suc b) (accepted_runs nows) o).rows) ≡ 0
runs-drain b [] o u h = omega (arith, h)
runs-drain b (now ∷ nows) o u h =
    let o' = (run_once (suc b) now accepts finished o).1 in
    let after = run_once-accepted (suc b) now o u in
    let js = ids (claimed (suc b) o.rows) in
    runs-drain b nows o' (subst Unlocked (sym after) (accepted-Unlocked js now o.rows u)) (
      rw after (elim (progresses b now o.rows u) [
        | inl none_left ↦ omega (arith, none_left, (fewer js now o.rows).0)
        | inr less ↦ omega (arith, less, h)
      ]))
