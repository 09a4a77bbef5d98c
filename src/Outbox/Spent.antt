-- ===== src/Outbox/Spent.antt =====
-- The events that the worker never sends again.
use payment_gateway_in_rust.Prelude.{
  take, ℕ, zero, suc, ◌+◌, ◌≡◌, ◌≢◌, refl, ap, ◌∙◌, inl, inr, Bool, true, ◌||◌, not, List, [], ◌∷◌,
  ◌++◌, arith, leb, ◌==◌, is_some, keep, All, All-update, Bool-cases, if◌then◌else◌,
}
use payment_gateway_in_rust.Common.{Uuid, Timestamp}
use payment_gateway_in_rust.Outbox.Worker.{
  OutboxRow, Outbox, max_failed_attempts, is_stale, reset_locks, is_claimable, insert_by_age,
  by_age, claimed, ids, Broker, Progress, stopped, finished, acknowledged, run_once, unlock,
}
use payment_gateway_in_rust.Outbox.Delivered.{
  sent_of, sent_in, IsKept, run_once-All, run_once-sent, runs,
}

module _ (P : OutboxRow → Type 0) where
  pub keep-All :
      (t : OutboxRow → Bool) (rs : List OutboxRow)
      → All P rs
      → All (λ r. P r × (t r ≡ true)) (keep t rs)
  keep-All t [] h = tt
  keep-All t (r ∷ rs) h = elim (Bool-cases (t r)) [
    | inl e ↦ rw e ((h.0, e), keep-All t rs h.1)
    | inr e ↦ rw e (keep-All t rs h.1)
  ]

  insert_by_age-All :
      (r : OutboxRow) (rs : List OutboxRow) → P r → All P rs → All P (insert_by_age r rs)
  unfolding insert_by_age
  insert_by_age-All r [] p h = (p, tt)
  insert_by_age-All r (s ∷ ss) p h = elim (Bool-cases (leb r.event.created_at s.event.created_at)) [
    | inl e ↦ rw e (p, h)
    | inr e ↦ rw e (h.0, insert_by_age-All r ss p h.1)
  ]

  pub by_age-All : (rs : List OutboxRow) → All P rs → All P (by_age rs)
  unfolding by_age
  by_age-All [] h = tt
  by_age-All (r ∷ rs) h = insert_by_age-All r (by_age rs) h.0 (by_age-All rs h.1)

  take-All : (n : ℕ) (rs : List OutboxRow) → All P rs → All P (take n rs)
  take-All zero rs h = tt
  take-All (suc n) [] h = tt
  take-All (suc n) (r ∷ rs) h = (h.0, take-All n rs h.1)

  weaken-All :
      {Q : OutboxRow → Type 0}
      → ((r : OutboxRow) → P r → Q r)
      → (rs : List OutboxRow) → All P rs
      → All Q rs
  weaken-All f [] h = tt
  weaken-All f (r ∷ rs) h = (f r h.0, weaken-All f rs h.1)

-- What is claimed was in the table, and claimable.
pub claimed-All :
    (P : OutboxRow → Type 0) (batch_size : ℕ) (rows : List OutboxRow)
    → All P rows
    → All (λ r. P r × (is_claimable r ≡ true)) (claimed batch_size rows)
unfolding claimed
claimed-All P batch_size rows h =
    let Q : OutboxRow → Type 0 = λ r. P r × (is_claimable r ≡ true) in
    take-All Q batch_size _ (by_age-All Q _ (keep-All P is_claimable rows h))

abbrev pub is_spent : OutboxRow → Bool
is_spent r = r.event.published || leb max_failed_attempts r.event.failed_attempts

-- Every row of the event is published or has failed ten times.
abbrev pub Spent : Uuid → OutboxRow → Type 0
Spent i r = r.event.id ≡ i → is_spent r ≡ true

unfoldable pub count : Uuid → List Uuid → ℕ
count i [] = 0
count i (j ∷ js) = let rest = count i js in if i == j then suc rest else rest

count-append : (i : Uuid) (xs ys : List Uuid) → count i (xs ++ ys) ≡ count i xs + count i ys
unfolding count
count-append i [] ys = omega arith
count-append i (x ∷ xs) ys = ground (arith, count-append i xs ys)

count-others :
    (i : Uuid) (rs : List OutboxRow) → All (λ r. r.event.id ≢ i) rs → count i (ids rs) ≡ 0
unfolding count
count-others i [] h = refl
count-others i (r ∷ rs) h = ground (arith, h.0, count-others i rs h.1)

kept_others :
    (i : Uuid) (broker : Broker) (rs : List OutboxRow)
    → All (λ r. r.event.id ≢ i) rs
    → All (λ r. r.event.id ≢ i) (acknowledged broker rs)
kept_others i broker rs h =
    weaken-All _ (λ r p. p.0) _ (keep-All _ (λ r. not (is_some (broker r.event))) rs h)

sent_of-others :
    (i : Uuid) (broker : Broker) (progress : Progress) (events : List OutboxRow)
    → All (λ r. r.event.id ≢ i) events
    → count i (sent_of broker progress events) ≡ 0
sent_of-others i broker (stopped sends) events h =
    count-others i _ (kept_others i broker (take sends events) (take-All _ sends events h))
sent_of-others i broker finished events h = count-others i _ (kept_others i broker events h)

Spent-IsKept : (i : Uuid) (sent : List Uuid) → IsKept (Spent i) sent
Spent-IsKept i sent = record {
  unlocked = λ r q. q;
  locked = λ now r q. q;
  published = λ now r hit q same. refl;
  failed = λ error r q same. ground (arith, q same);
}

not_claimed :
    (i : Uuid) (batch_size : ℕ) (now : Timestamp) (o : Outbox)
    → All (Spent i) o.rows
    → All (λ r. r.event.id ≢ i) (claimed batch_size (reset_locks now o.rows))
not_claimed i batch_size now o h =
    weaken-All _ (λ r k same. ground (arith, k.1, k.0 same)) _
      (claimed-All (Spent i) batch_size (reset_locks now o.rows)
        (All-update (Spent i) (Spent i) (is_stale now) unlock o.rows (λ r _ q. q) (λ r q. q) h))

-- An event whose rows are all published, or have failed ten times, stays so through any runs, and
-- the broker receives it no more: it is acknowledged as often after them as before.
pub Spent-never_sent :
    (i : Uuid) (batch_size : ℕ) (rs : List (Timestamp × Broker × Progress)) (o : Outbox)
    → All (Spent i) o.rows
    → All (Spent i) (runs batch_size rs o).rows
      × (count i (runs batch_size rs o).delivered ≡ count i o.delivered)
Spent-never_sent i batch_size [] o h = (h, refl)
Spent-never_sent i batch_size ((now, broker, progress) ∷ rest) o h =
    let sent = sent_in batch_size now broker progress o in
    let o' = (run_once batch_size now broker progress o).1 in
    let once = run_once-All (Spent i) now broker batch_size progress o (Spent-IsKept i sent) h in
    let none_sent : count i sent ≡ 0 =
      sent_of-others i broker progress _ (not_claimed i batch_size now o h) in
    let same : count i o'.delivered ≡ count i o.delivered =
      ap (count i) (run_once-sent batch_size now broker progress o)
      ∙ count-append i sent o.delivered
      ∙ omega (arith, none_sent) in
    let more = Spent-never_sent i batch_size rest o' once in (more.0, more.1 ∙ same)
