-- ===== src/Payment/Rows.antt =====
-- The rows of the payments table: identifiers and idempotency keys are unique, and amounts are in
-- order. What an UPDATE of one row keeps.
use payment_gateway_in_rust.Prelude.{
  ◌≡◌, refl, subst, inl, inr, Bool, true, false, Option, none, some, List, [], ◌∷◌, String, arith,
  is_some, ==_iff, find, update_where, All, Bool-cases,
}
use payment_gateway_in_rust.Prelude.Int.{pos, ◌≤ℤ◌}
use payment_gateway_in_rust.Common.{
  Uuid, Payment, due_amount, PaymentStatus, created, pending, authorized, requires_action,
}
use payment_gateway_in_rust.Payment.Statements.{has_id, has_key, owned_by}

-- The statuses before a capture.
abbrev pub is_open : PaymentStatus → Bool
is_open created = true
is_open pending = true
is_open authorized = true
is_open requires_action = true
is_open _ = false

-- What was refunded is not negative and within what was captured, and nothing is refunded before
-- the capture.
pub record IsSolvent (p : Payment) : Type 0 where
  pub nonneg : pos 0 ≤ℤ p.refunded_amount
  pub within : p.refunded_amount ≤ℤ due_amount p
  pub untouched : is_open p.status ≡ true → p.refunded_amount ≡ pos 0

abbrev pub UniqueIds : List Payment → Type 0
UniqueIds [] = Unit
UniqueIds (p ∷ ps) = (find (has_id p.id) ps ≡ none) × UniqueIds ps

-- Of one merchant no two rows have one key; rows without a key are not compared.
abbrev pub UniqueKeys : List Payment → Type 0
UniqueKeys [] = Unit
UniqueKeys (p ∷ ps) = (find (has_key p.merchant_id p.idempotency_key) ps ≡ none) × UniqueKeys ps

-- An UPDATE that leaves the identifying columns alone.
pub record KeepsIdentity (f : Payment → Payment) : Type 0 where
  pub same_id : (p : Payment) → (f p).id ≡ p.id
  pub same_merchant : (p : Payment) → (f p).merchant_id ≡ p.merchant_id
  pub same_key : (p : Payment) → (f p).idempotency_key ≡ p.idempotency_key

module _ (t : Payment → Bool) (f : Payment → Payment) (same : KeepsIdentity f) where
  find_id-update :
      (i : Uuid) (ps : List Payment)
      → find (has_id i) ps ≡ none
      → find (has_id i) (update_where t f ps) ≡ none
  find_id-update i [] h = refl
  find_id-update i (p ∷ ps) h = ground (arith, same.same_id p, find_id-update i ps)

  pub UniqueIds-update : (ps : List Payment) → UniqueIds ps → UniqueIds (update_where t f ps)
  UniqueIds-update [] u = tt
  UniqueIds-update (p ∷ ps) u =
      ground (arith, same.same_id p, find_id-update p.id ps, UniqueIds-update ps u.1)

  find_key-update :
      (m : Uuid) (k : Option String) (ps : List Payment)
      → find (has_key m k) ps ≡ none
      → find (has_key m k) (update_where t f ps) ≡ none
  find_key-update m k [] h = refl
  find_key-update m k (p ∷ ps) h =
      ground (arith, same.same_merchant p, same.same_key p, find_key-update m k ps)

  pub UniqueKeys-update : (ps : List Payment) → UniqueKeys ps → UniqueKeys (update_where t f ps)
  UniqueKeys-update [] u = tt
  UniqueKeys-update (p ∷ ps) u = ground (
    arith,
    same.same_merchant p,
    same.same_key p,
    find_key-update p.merchant_id p.idempotency_key ps,
    UniqueKeys-update ps u.1,
  )

pub found-has_id :
    (i m : Uuid) (ps : List Payment) {q : Payment}
    → find (owned_by i m) ps ≡ some q
    → (q.id ≡ i) × (q.merchant_id ≡ m)
found-has_id i m [] h = cc
found-has_id i m (p ∷ ps) {q} h = ground (arith, found-has_id i m ps {q = q})

-- An UPDATE that keeps identifiers keeps which of them are stored.
pub update-keeps_id :
    (i : Uuid) (s : Payment → Bool) (f : Payment → Payment) (ps : List Payment)
    → ((p : Payment) → (f p).id ≡ p.id)
    → is_some (find (has_id i) (update_where s f ps)) ≡ is_some (find (has_id i) ps)
update-keeps_id i s f [] h = refl
update-keeps_id i s f (p ∷ ps) h = ground (arith, h p, update-keeps_id i s f ps h)

pub owned-stored :
    (i m : Uuid) (ps : List Payment) {q : Payment}
    → find (owned_by i m) ps ≡ some q
    → is_some (find (has_id i) ps) ≡ true
owned-stored i m [] h = cc
owned-stored i m (p ∷ ps) {q} h = ground (arith, owned-stored i m ps {q = q})

-- An UPDATE of rows of other identifiers, which keeps identifiers, leaves what an identifier finds.
pub find-untouched :
    (j : Uuid) (s : Payment → Bool) (f : Payment → Payment) (ps : List Payment)
    → ((p : Payment) → s p ≡ true → (has_id j p ≡ false) × ((f p).id ≡ p.id))
    → find (has_id j) (update_where s f ps) ≡ find (has_id j) ps
find-untouched j s f [] h = refl
find-untouched j s f (p ∷ ps) h = elim (Bool-cases (s p)) [
  | inl hit ↦ let k = h p hit in ground (arith, hit, k.0, k.1, find-untouched j s f ps h)
  | inr miss ↦ rw (miss, find-untouched j s f ps h) refl
]

pub absent_id :
    (i m : Uuid) (ps : List Payment) → find (has_id i) ps ≡ none → find (owned_by i m) ps ≡ none
absent_id i m [] h = refl
absent_id i m (p ∷ ps) h = ground (arith, absent_id i m ps)

pub All-find :
    (P : Payment → Type 0) (t : Payment → Bool) (ps : List Payment) {q : Payment}
    → All P ps
    → find t ps ≡ some q
    → P q
All-find P t [] h e = cc
All-find P t (p ∷ ps) {q} h e = elim (Bool-cases (t p)) [
  | inl hit ↦ let same : p ≡ q = ground arith in subst P same h.0
  | inr miss ↦ All-find P t ps h.1 (rw miss at e)
]

-- A row with its property, and the row that was found if it has that identifier.
abbrev pub OnlyRow : (Payment → Type 0) → Uuid → Payment → Payment → Type 0
OnlyRow P i q p = P p × (p.id ≡ i → p ≡ q)

others_differ :
    (P : Payment → Type 0) (i : Uuid) (q : Payment) (ps : List Payment)
    → find (has_id i) ps ≡ none
    → All P ps
    → All (OnlyRow P i q) ps
others_differ P i q [] e h = tt
others_differ P i q (p ∷ ps) e h =
    ((h.0, λ same. absurd (ground (arith, same))), others_differ P i q ps (ground arith) h.1)

found_head :
    (i m : Uuid) (p q : Payment) (ps : List Payment)
    → p.id ≡ i
    → find (has_id i) ps ≡ none
    → find (owned_by i m) (p ∷ ps) ≡ some q
    → p ≡ q
found_head i m p q ps hit fresh e = ground (arith, absent_id i m ps)

-- Identifiers are unique, so the row that was found is the only one of its identifier.
pub All-OnlyRow :
    (P : Payment → Type 0) (i m : Uuid) (q : Payment) (ps : List Payment)
    → UniqueIds ps
    → find (owned_by i m) ps ≡ some q
    → All P ps
    → All (OnlyRow P i q) ps
All-OnlyRow P i m q [] u e h = tt
All-OnlyRow P i m q (p ∷ ps) u e h = elim (Bool-cases (has_id i p)) [
  | inl hit ↦
      let same : p.id ≡ i = (==_iff p.id i).0 hit in
      let fresh : find (has_id i) ps ≡ none = subst (λ j. find (has_id j) ps ≡ none) same u.0 in
      ((h.0, λ _. found_head i m p q ps same fresh e), others_differ P i q ps fresh h.1)
  | inr miss ↦
      ((h.0, λ same. absurd (ground (arith, same))), All-OnlyRow P i m q ps u.1 (rw miss at e) h.1)
]
