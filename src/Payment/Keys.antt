-- ===== src/Payment/Keys.antt =====
-- Lookups in the payments table by identifier and by idempotency key.
use payment_gateway_in_rust.Prelude.{
  ◌≡◌, ◌⊎◌, refl, sym, subst, ap, inl, inr, String, Option, none, some, List, [], ◌∷◌, find, true,
  Bool-cases, eq_iff, arith, ==_iff,
}
use payment_gateway_in_rust.Common.{Uuid, Payment}
use payment_gateway_in_rust.Payment.Statements.{owned_by, has_key, has_id, key_eq}
use payment_gateway_in_rust.Payment.Rows.{UniqueIds, UniqueKeys, absent_id}

-- The first row of a merchant's key is the only row of its identifier, and has the key.
abbrev pub KeyFinds : Uuid → String → List Payment → Payment → Type 0
KeyFinds m k ps q =
    (find (owned_by q.id m) ps ≡ some q) × (q.idempotency_key ≡ some k) × (q.merchant_id ≡ m)

key_eq-some : (o : Option String) (k : String) → key_eq o (some k) ≡ true → o ≡ some k
key_eq-some none k h = cc
key_eq-some (some j) k h = ap some ((eq_iff j k).0 h)

owned_parts :
    (m : Uuid) (k : String) (p : Payment)
    → has_key m (some k) p ≡ true
    → (p.merchant_id ≡ m) × (p.idempotency_key ≡ some k)
owned_parts m k p hit = (ground arith, key_eq-some p.idempotency_key k (ground arith))

other_id :
    (i m : Uuid) (p : Payment) (ps : List Payment) (q : Payment)
    → find (has_id p.id) ps ≡ none
    → find (owned_by i m) ps ≡ some q
    → find (owned_by i m) (p ∷ ps) ≡ some q
other_id i m p ps q fresh e = elim (Bool-cases (has_id i p)) [
  | inl hit ↦
      let same : p.id ≡ i = (==_iff p.id i).0 hit in
      let gone : find (owned_by i m) ps ≡ none =
        absent_id i m ps (subst (λ j. find (has_id j) ps ≡ none) same fresh) in
      absurd (ground (arith, gone, e))
  | inr miss ↦ ground (arith, miss, e)
]

pub find_by_id-of_key :
    (m : Uuid) (k : String) (ps : List Payment) (q : Payment)
    → UniqueIds ps
    → find (has_key m (some k)) ps ≡ some q
    → KeyFinds m k ps q
find_by_id-of_key m k [] q u e = cc
find_by_id-of_key m k (p ∷ ps) q u e = elim (Bool-cases (has_key m (some k) p)) [
  | inl hit ↦
      let same : p ≡ q = ground arith in
      let parts = owned_parts m k p hit in
      subst (λ r. KeyFinds m k (p ∷ ps) r) same (ground (arith, parts.0), parts.1, parts.0)
  | inr miss ↦
      let rest = find_by_id-of_key m k ps q u.1 (rw miss at e) in
      (other_id q.id m p ps q u.0 rest.0, rest.1, rest.2)
]

-- The payment is a row of the table.
abbrev pub Among : Payment → List Payment → Type 0
Among p [] = ⊥
Among p (q ∷ qs) = (p ≡ q) ⊎ Among p qs

same_key_eq : (k : String) → key_eq (some k) (some k) ≡ true
same_key_eq k = (eq_iff k k).1 refl

has_own_key :
    (m : Uuid) (k : String) (p : Payment)
    → (p.merchant_id ≡ m) × (p.idempotency_key ≡ some k)
    → has_key m (some k) p ≡ true
has_own_key m k p h = rw (h.0, h.1) (ground (arith, (==_iff m m).1 refl, same_key_eq k))

not_found :
    (m : Uuid) (k : String) (ps : List Payment) (p : Payment)
    → find (has_key m (some k)) ps ≡ none
    → has_key m (some k) p ≡ true
    → Among p ps
    → ⊥
not_found m k [] p e h at_p = at_p
not_found m k (q ∷ qs) p e h (inl same) =
    let hit : has_key m (some k) q ≡ true = subst (λ r. has_key m (some k) r ≡ true) same h in
    ground (arith, e, hit)
not_found m k (q ∷ qs) p e h (inr later) = elim (Bool-cases (has_key m (some k) q)) [
  | inl hit ↦ ground (arith, e, hit)
  | inr miss ↦ not_found m k qs p (ground (arith, e, miss)) h later
]

-- Keys are unique, so the lookup finds every row that has the key.
pub found_by_key :
    (m : Uuid) (k : String) (ps : List Payment) (p : Payment)
    → UniqueKeys ps
    → Among p ps
    → (p.merchant_id ≡ m) × (p.idempotency_key ≡ some k)
    → find (has_key m (some k)) ps ≡ some p
found_by_key m k [] p u at_p h = absurd at_p
found_by_key m k (q ∷ qs) p u (inl same) h =
    let hit : has_key m (some k) q ≡ true =
      subst (λ r. has_key m (some k) r ≡ true) same (has_own_key m k p h) in
    rw hit (ap some (sym same))
found_by_key m k (q ∷ qs) p u (inr later) h = elim (Bool-cases (has_key m (some k) q)) [
  | inl hit ↦
      let parts = owned_parts m k q hit in
      absurd (
        not_found m k qs p
          (subst (λ o. find (has_key m o) qs ≡ none) parts.1
            (subst (λ n. find (has_key n q.idempotency_key) qs ≡ none) parts.0 u.0))
          (has_own_key m k p h) later)
  | inr miss ↦ rw miss (found_by_key m k qs p u.1 later h)
]
