-- ===== src/Merchant/Versions.antt =====
-- Updates of a merchant that race.
use payment_gateway_in_rust.Prelude.{
  ◌≡◌, refl, inl, inr, Bool, false, none, List, [], ◌∷◌, arith, find, update_where, Bool-cases,
}
use payment_gateway_in_rust.Prelude.Int.{ℤ, pos, +ℤ_parts}
use payment_gateway_in_rust.Common.{Uuid, Timestamp}
use payment_gateway_in_rust.Merchant.Tables.{MerchantRow, Tables}
use payment_gateway_in_rust.Merchant.Store.{
  MerchantUpdate, is_current, set_details, update_merchant,
}

none_current :
    (i : Uuid) (v : ℤ) (u : MerchantUpdate) (now : Timestamp) (rows : List MerchantRow)
    → find (is_current i v) (update_where (is_current i v) (set_details u now) rows) ≡ none
none_current i v u now [] = refl
none_current i v u now (r ∷ rs) = elim (Bool-cases (is_current i v r)) [
  | inl e ↦ rw e (ground (arith, e, +ℤ_parts r.version (pos 1), none_current i v u now rs))
  | inr e ↦ rw (e, e) (none_current i v u now rs)
]

nothing_updated :
    (t : MerchantRow → Bool) (f : MerchantRow → MerchantRow) (rows : List MerchantRow)
    → find t rows ≡ none
    → update_where t f rows ≡ rows
nothing_updated t f [] h = refl
nothing_updated t f (r ∷ rs) h = ground (arith, h, nothing_updated t f rs)

-- Of two updates of one merchant that name the same version, the one that comes second is refused
-- and changes nothing, whether or not the first was accepted: no update is lost.
pub update_merchant-once :
    (i : Uuid) (u v : MerchantUpdate) (t : Tables)
    → v.version ≡ u.version
    → update_merchant i v (update_merchant i u t).1 ≡ (false, (update_merchant i u t).1)
unfolding update_merchant
update_merchant-once i u v t same =
    let none_left = none_current i u.version u t.now t.merchants in
    rw (same, none_left, nothing_updated _ (set_details v t.now) _ none_left) refl
