-- ===== src/Payment/Effects/Triples.antt =====
-- What a chain of statements returns, one rule for each first statement.
use payment_gateway_in_rust.Prelude.{
  suc, String, Bool, true, false, ◌≡◌, refl, Option, none, some, find,
}
use payment_gateway_in_rust.Common.{Uuid, Payment, AppResult, ok, err}
use payment_gateway_in_rust.Payment.World.{
  World, Tx, Done, gets, lift, modify, constraint, new_uuid, ◌>>=◌,
}
use payment_gateway_in_rust.Payment.Statements.{owned_by, found_or, lock_payment_for_update}
use payment_gateway_in_rust.Payment.Effects.{Returns, Returns-map, Leaves}

module _ {A B : Type 0} (Q : B → World → Type 0) where
  pub Returns-bind :
      (m : Tx A) (k : A → Tx B) (w : World)
      → ((a : A) (w' : World) → m w ≡ ok (a, w') → Returns Q (k a w'))
      → Returns Q ((m >>= k) w)
  unfolding ◌>>=◌
  Returns-bind m k w h = go (m w) refl
    where
      go :
          (r : AppResult (A × World))
          → m w ≡ r
          → Returns Q (elim r [ ok r ↦ k r.0 r.1 | err e ↦ err e ])
      go (ok (a, w')) e = h a w' e
      go (err x) e = tt

  pub Returns-gets :
      (f : World → A) (k : A → Tx B) (w : World)
      → Returns Q (k (f w) w)
      → Returns Q ((gets f >>= k) w)
  unfolding ◌>>=◌
  Returns-gets f k w h = h

  pub Returns-lift :
      (r : AppResult A) (k : A → Tx B) (w : World)
      → ((a : A) → r ≡ ok a → Returns Q (k a w))
      → Returns Q ((lift r >>= k) w)
  unfolding ◌>>=◌
  Returns-lift (ok a) k w h = h a refl
  Returns-lift (err e) k w h = tt

module _ {B : Type 0} (Q : B → World → Type 0) where
  pub Returns-modify :
      (f : World → World) (k : Done → Tx B) (w : World)
      → Returns Q (k tt (f w))
      → Returns Q ((modify f >>= k) w)
  unfolding ◌>>=◌
  Returns-modify f k w h = h

  pub Returns-constraint :
      (b : Bool) (name : String) (k : Done → Tx B) (w : World)
      → (b ≡ true → Returns Q (k tt w))
      → Returns Q ((constraint b name >>= k) w)
  unfolding ◌>>=◌
  Returns-constraint true name k w h = h refl
  Returns-constraint false name k w h = tt

  pub Returns-new_uuid :
      (k : Uuid → Tx B) (w : World)
      → Returns Q (k w.next_id (record w { next_id = suc w.next_id }))
      → Returns Q ((new_uuid >>= k) w)
  unfolding ◌>>=◌
  Returns-new_uuid k w h = h

  Returns-found :
      (i : Uuid) (o : Option Payment) (k : Payment → Tx B) (w : World)
      → ((q : Payment) → o ≡ some q → Returns Q (k q w))
      → Returns Q ((found_or i o >>= k) w)
  unfolding ◌>>=◌
  Returns-found i none k w h = tt
  Returns-found i (some q) k w h = h q refl

  pub Returns-lock :
      (i m : Uuid) (k : Payment → Tx B) (w : World)
      → ((q : Payment) → find (owned_by i m) w.payments ≡ some q → Returns Q (k q w))
      → Returns Q ((lock_payment_for_update i m >>= k) w)
  unfolding lock_payment_for_update ◌>>=◌
  Returns-lock i m k w h = Returns-found i (find (owned_by i m) w.payments) k w h

-- The last statements: what they leave alone is as before them.
pub Returns-Leaves :
    {A B : Type 0} (Q : A → World → Type 0) (f : World → B) (m : Tx A) (w : World)
    → Leaves f m
    → ((a : A) (w' : World) → f w' ≡ f w → Q a w')
    → Returns Q (m w)
Returns-Leaves Q f m w h k = Returns-map _ Q (m w) k (h.at w)
