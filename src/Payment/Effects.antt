-- ===== src/Payment/Effects.antt =====
-- What a transaction returns, and what it leaves alone: one rule for each way to build it.
pub mod Triples
use payment_gateway_in_rust.Prelude.{
  String, Bool, true, false, ◌≡◌, refl, subst, ◌∙◌, ◌⊎◌, inl, inr, List, if◌then◌else◌,
}
use payment_gateway_in_rust.Common.{Payment, LedgerEntry, AppError, AppResult, ok, err}
use payment_gateway_in_rust.Payment.World.{
  World, Tx, pure, raise, gets, lift, constraint, new_uuid, ◌>>=◌,
}

-- The condition holds of what a transaction commits; nothing is asked of a rollback.
abbrev pub Returns : {A : Type 0} → (A → World → Type 0) → AppResult (A × World) → Type 0
Returns Q (ok (a, w)) = Q a w
Returns Q (err e) = Unit

-- The part of the state that `f` reads is the same after the commit.
pub record Leaves {A B : Type 0} (f : World → B) (m : Tx A) : Type 0 where
  pub at : (w : World) → Returns (λ _ w'. f w' ≡ f w) (m w)

module _ {A B : Type 0} (f : World → B) where
  pub Leaves-pure : (a : A) → Leaves f (pure a)
  unfolding pure
  Leaves-pure a = record { at = λ w. refl }

  pub Leaves-raise : (e : AppError) → Leaves f (raise {A = A} e)
  unfolding raise
  Leaves-raise e = record { at = λ w. tt }

  pub Leaves-gets : (g : World → A) → Leaves f (gets g)
  unfolding gets
  Leaves-gets g = record { at = λ w. refl }

  pub Leaves-lift : (r : AppResult A) → Leaves f (lift r)
  unfolding lift
  Leaves-lift (ok a) = record { at = λ w. refl }
  Leaves-lift (err e) = record { at = λ w. tt }

  pub Leaves-if : (b : Bool) (m n : Tx A) → Leaves f m → Leaves f n → Leaves f (if b then m else n)
  Leaves-if true m n hm hn = hm
  Leaves-if false m n hm hn = hn

pub Leaves-constraint :
    {B : Type 0} (f : World → B) (b : Bool) (name : String) → Leaves f (constraint b name)
unfolding constraint
Leaves-constraint f true name = record { at = λ w. refl }
Leaves-constraint f false name = record { at = λ w. tt }

module _ {A B C : Type 0} (f : World → B) (m : Tx A) (k : A → Tx C) where
  then-Leaves :
      (k' : (a : A) → Leaves f (k a)) (b : B) (r : AppResult (A × World))
      → Returns (λ _ w'. f w' ≡ b) r
      → Returns (λ _ w'. f w' ≡ b) (elim r [ ok r ↦ k r.0 r.1 | err e ↦ err e ])
  then-Leaves k' b (ok (a, w)) h = trans_returns (k a w) ((k' a).at w)
    where
      trans_returns :
          (r : AppResult (C × World))
          → Returns (λ _ w'. f w' ≡ f w) r
          → Returns (λ _ w'. f w' ≡ b) r
      trans_returns (ok (c, w')) e = e ∙ h
      trans_returns (err e) _ = tt
  then-Leaves k' b (err e) h = tt

  pub Leaves-bind : Leaves f m → ((a : A) → Leaves f (k a)) → Leaves f (m >>= k)
  unfolding ◌>>=◌
  Leaves-bind hm hk = record { at = λ w. then-Leaves hk (f w) (m w) (hm.at w) }

abbrev pub payments_of : World → List Payment
payments_of w = w.payments

abbrev pub entries_of : World → List LedgerEntry
entries_of w = w.ledger_entries

pub payments-new_uuid : Leaves payments_of new_uuid
unfolding new_uuid
payments-new_uuid = record { at = λ w. refl }

pub entries-new_uuid : Leaves entries_of new_uuid
unfolding new_uuid
entries-new_uuid = record { at = λ w. refl }

pub ruleset leaves_rules =
    (Leaves-pure, Leaves-raise, Leaves-gets, Leaves-lift, Leaves-if, Leaves-constraint, Leaves-bind)

pub Returns-map :
    {A : Type 0} (P Q : A → World → Type 0) (r : AppResult (A × World))
    → ((a : A) (w : World) → P a w → Q a w)
    → Returns P r
    → Returns Q r
Returns-map P Q (ok (a, w)) f h = f a w h
Returns-map P Q (err e) f h = tt

pub Result-cases :
    {A : Type 0} (r : AppResult A) → ((a : A) × (r ≡ ok a)) ⊎ ((e : AppError) × (r ≡ err e))
Result-cases (ok a) = inl (a, refl)
Result-cases (err e) = inr (e, refl)

module _ {A : Type 0} (P Q : A → World → Type 0) where
  pub Returns-and :
      (r : AppResult (A × World)) → Returns P r → Returns Q r → Returns (λ a w. P a w × Q a w) r
  Returns-and (ok (a, w)) h k = (h, k)
  Returns-and (err e) h k = tt

-- What is returned meets the condition.
pub Returns-ok :
    {A : Type 0} (P : A → World → Type 0) (r : AppResult (A × World)) {a : A} {w : World}
    → Returns P r
    → r ≡ ok (a, w)
    → P a w
Returns-ok P r h e = subst (Returns P) e h

pub Returns-const : {A : Type 0} (P : Type 0) (r : AppResult (A × World)) → P → Returns (λ _ _. P) r
Returns-const P (ok (a, w)) h = h
Returns-const P (err e) h = tt
