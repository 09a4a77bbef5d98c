-- ===== src/Merchant/Keys.antt =====
-- Which API keys find a merchant after one of them is replaced.
use payment_gateway_in_rust.Prelude.{
  ◌≡◌, ◌≢◌, refl, ap, ◌∙◌, inl, inr, Bool, true, false, ◌||◌, not, none, some, List, [], ◌∷◌, arith,
  find, update_where, All, Bool-cases, Sum-cases, if◌then◌else◌,
}
use payment_gateway_in_rust.Common.{Uuid, Timestamp}
use payment_gateway_in_rust.Crypto.Bytes.{Bytes, bytes_eq, bytes_eq_iff}
use payment_gateway_in_rust.Crypto.Primitives.{Primitives}
use payment_gateway_in_rust.Crypto.Digests.{hash_api_key, generate_api_key, generate_webhook_secret}
use payment_gateway_in_rust.Crypto.Cipher.{encrypt_aes256gcm}
use payment_gateway_in_rust.Payment.Effects.{Result-cases}
use payment_gateway_in_rust.Prelude.Int.{pos}
use payment_gateway_in_rust.Merchant.Tables.{Merchant, MerchantRow, Tables}
use payment_gateway_in_rust.Merchant.Store.{
  has_merchant_id, has_api_key_hash, get_merchant_by_api_key_hash, set_key, holds_key,
  holds_key_elsewhere, rotate_api_key, Randoms, CreateMerchantInput, CreateMerchantResult,
  create_merchant, insert_merchant, new_merchant, get_merchant_by_id,
}

-- The row has the hash as one of its keys.
abbrev pub holds_any : Bytes → MerchantRow → Bool
holds_any h r = bytes_eq r.merchant.api_key_hash h || bytes_eq r.merchant.test_api_key_hash h

-- Only the replaced key of the merchant has the hash.
abbrev pub IsOnlyKey : (is_live : Bool) → Uuid → Bytes → MerchantRow → Type 0
IsOnlyKey is_live i h r =
    holds_any h r ≡ true → (r.merchant.id ≡ i) × (holds_key (not is_live) h r ≡ false)

old_key_row :
    (is_live : Bool) (i : Uuid) (new old : Bytes) (now : Timestamp) (r : MerchantRow)
    → bytes_eq new old ≡ false
    → IsOnlyKey is_live i old r
    → has_api_key_hash old (if has_merchant_id i r then set_key is_live new now r else r) ≡ false
old_key_row true i new old now r n h = elim (Bool-cases (holds_any old r)) [
  | inl e ↦ ground (arith, n, h e)
  | inr e ↦ ground (arith, n, e)
]
old_key_row false i new old now r n h = elim (Bool-cases (holds_any old r)) [
  | inl e ↦ ground (arith, n, h e)
  | inr e ↦ ground (arith, n, e)
]

new_key_row :
    (is_live : Bool) (new : Bytes) (now : Timestamp) (r : MerchantRow)
    → r.merchant.is_active ≡ true
    → has_api_key_hash new (set_key is_live new now r) ≡ true
new_key_row true new now r active = ground (arith, active, (bytes_eq_iff new new).1 refl)
new_key_row false new now r active = ground (arith, active, (bytes_eq_iff new new).1 refl)

module _ (is_live : Bool) (i : Uuid) (new : Bytes) (now : Timestamp) where
  abbrev rotated : List MerchantRow → List MerchantRow
  rotated rows = update_where (has_merchant_id i) (set_key is_live new now) rows

  old_key_gone :
      (old : Bytes) (rows : List MerchantRow)
      → bytes_eq new old ≡ false
      → All (IsOnlyKey is_live i old) rows
      → find (has_api_key_hash old) (rotated rows) ≡ none
  old_key_gone old [] n h = refl
  old_key_gone old (r ∷ rs) n h =
      rw (old_key_row is_live i new old now r n h.0) (old_key_gone old rs n h.1)

  new_key_found :
      (rows : List MerchantRow) {r : MerchantRow}
      → find (holds_any new) rows ≡ none
      → find (has_merchant_id i) rows ≡ some r
      → r.merchant.is_active ≡ true
      → find (has_api_key_hash new) (rotated rows) ≡ some (set_key is_live new now r)
  new_key_found [] fresh found active = absurd (ground (arith, found))
  new_key_found (s ∷ ss) {r} fresh found active = elim (Bool-cases (has_merchant_id i s)) [
    | inl e ↦
        let same : s ≡ r = ground (arith, found, e) in
        let row = new_key_row is_live new now s (ap (λ q. q.merchant.is_active) same ∙ active) in
        rw (e, row) (ap (λ q. some (set_key is_live new now q)) same)
    | inr e ↦
        let other : has_api_key_hash new s ≡ false = ground (arith, fresh) in
        rw (e, other)
          (new_key_found ss {r = r} (ground (arith, fresh)) (ground (arith, found, e)) active)
  ]

unheld :
    (is_live : Bool) (i : Uuid) (new : Bytes) (rows : List MerchantRow)
    → find (holds_any new) rows ≡ none
    → find (holds_key_elsewhere i is_live new) rows ≡ none
unheld is_live i new [] h = refl
unheld true i new (r ∷ rs) h = ground (arith, h, unheld true i new rs)
unheld false i new (r ∷ rs) h = ground (arith, h, unheld false i new rs)

same_id :
    (is_live : Bool) (new : Bytes) (now : Timestamp) (r : MerchantRow)
    → (set_key is_live new now r).merchant.id ≡ r.merchant.id
same_id true new now r = refl
same_id false new now r = refl

found_id :
    (i : Uuid) (rows : List MerchantRow) {r : MerchantRow}
    → find (has_merchant_id i) rows ≡ some r
    → r.merchant.id ≡ i
found_id i [] h = absurd (ground (arith, h))
found_id i (s ∷ ss) {r} h = ground (arith, h, found_id i ss {r = r})

other_bytes : (xs ys : Bytes) → xs ≢ ys → bytes_eq xs ys ≡ false
other_bytes xs ys n = ground (arith, n, bytes_eq_iff xs ys)

-- Replacing a key of an active merchant, by a key whose hash no row has yet: it succeeds, the hash
-- of the new key finds the merchant, and the hash of the old one, if it was this key of the merchant
-- and no other and differs from the new one, finds nothing.
pub rotate_api_key-replaces :
    (c : Primitives) (random : Bytes) (i : Uuid) (is_live : Bool) (t : Tables) (old : Bytes)
    (r : MerchantRow)
    → find (holds_any (hash_api_key c (generate_api_key c random is_live))) t.merchants ≡ none
    → find (has_merchant_id i) t.merchants ≡ some r
    → r.merchant.is_active ≡ true
    → hash_api_key c (generate_api_key c random is_live) ≢ old
    → All (IsOnlyKey is_live i old) t.merchants
    → ((rotate_api_key c random i is_live t).0 ≡ inr (generate_api_key c random is_live))
      × ((m : Merchant) × (get_merchant_by_api_key_hash
              (hash_api_key c (generate_api_key c random is_live))
              (rotate_api_key c random i is_live t).1
            ≡ some m)
          × (m.id ≡ i))
      × (get_merchant_by_api_key_hash old (rotate_api_key c random i is_live t).1 ≡ none)
unfolding rotate_api_key get_merchant_by_api_key_hash
rotate_api_key-replaces c random i is_live t old r fresh found active differs only =
    let new = hash_api_key c (generate_api_key c random is_live) in
    let free = unheld is_live i new t.merchants fresh in
    let differ : bytes_eq new old ≡ false = other_bytes new old differs in
    rw (free, found)
      (
        refl,
        (
          (set_key is_live new t.now r).merchant,
          rw
              (
                get_merchant_by_api_key_hash,
                new_key_found is_live i new t.now t.merchants fresh found active,
              )
              refl,
          same_id is_live new t.now r ∙ found_id i t.merchants found,
        ),
        rw
            (
              get_merchant_by_api_key_hash,
              old_key_gone is_live i new t.now old t.merchants differ only,
            )
            refl,
      )

insert_merchant-first :
    (m : Merchant) (t t' : Tables)
    → insert_merchant m t ≡ inr t'
    → t'.merchants ≡ record { merchant = m; version = pos 1 } ∷ t.merchants
unfolding insert_merchant
insert_merchant-first m t t' h = ground (arith, h)

-- A merchant that is created is found by the hash of either of the keys that are handed out, and
-- by its identifier.
pub create_merchant-authenticates :
    (c : Primitives) (x : Randoms) (input : CreateMerchantInput) (vault_key_hex : Bytes)
    (t : Tables) (r : CreateMerchantResult) (t' : Tables)
    → create_merchant c x input vault_key_hex t ≡ (inr r, t')
    → (get_merchant_by_api_key_hash (hash_api_key c r.live_api_key) t' ≡ some r.merchant)
      × (get_merchant_by_api_key_hash (hash_api_key c r.test_api_key) t' ≡ some r.merchant)
      × (get_merchant_by_id r.merchant.id t' ≡ some r.merchant)
unfolding create_merchant get_merchant_by_api_key_hash get_merchant_by_id
create_merchant-authenticates c x input vault_key_hex t r t' h =
    let live_hash = hash_api_key c (generate_api_key c x.live true) in
    let test_hash = hash_api_key c (generate_api_key c x.test false) in
    elim (Result-cases
      (encrypt_aes256gcm c x.nonce vault_key_hex (generate_webhook_secret c x.secret))) [
        | inr (e, bad) ↦ absurd (ground (arith, h, bad))
        | inl (secret_enc, good) ↦
            let m = new_merchant t.next_id t.now input live_hash test_hash secret_enc in
            elim (Sum-cases (insert_merchant m t)) [
              | inl (e, bad) ↦ absurd (ground (arith, h, good, bad))
              | inr (after, made) ↦
                  let first = insert_merchant-first m t after made in
                  let live = (bytes_eq_iff live_hash live_hash).1 refl in
                  let test = (bytes_eq_iff test_hash test_hash).1 refl in
                  (
                    ground (arith, h, good, made, first, live),
                    ground (arith, h, good, made, first, test),
                    ground (arith, h, good, made, first),
                  )
            ]
      ]
