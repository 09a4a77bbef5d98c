-- ===== src/Vault/Roundtrip.antt =====
-- A card that is tokenised and looked up again.
use payment_gateway_in_rust.Prelude.{
  ◌-◌, ◌≡◌, refl, sym, ap, ◌∙◌, subst, inl, inr, true, Option, none, some, ◌∷◌, arith, find, length,
  Bool-cases, Option-cases,
}
use payment_gateway_in_rust.Prelude.Int.{pos}
use payment_gateway_in_rust.Common.{Uuid, Json, null, num, utf8, obj, end, field, ok}
use payment_gateway_in_rust.Payment.Effects.{Result-cases}
use payment_gateway_in_rust.Crypto.Bytes.{Bytes, bytes_eq, bytes_eq_iff}
use payment_gateway_in_rust.Crypto.Primitives.{Primitives, PrimitivesLaws}
use payment_gateway_in_rust.Crypto.Digests.{hmac_sha256, sha256_hex}
use payment_gateway_in_rust.Crypto.Cipher.{encrypt_aes256gcm, decrypt-encrypt}
use payment_gateway_in_rust.Vault.Luhn.{luhn_check}
use payment_gateway_in_rust.Vault.Tokenizer.{
  RawCardData, VaultToken, VaultRow, Rows, VaultEnv, returned, slice_from, has_fingerprint, payload,
  described, new_row, insert_token, store_card, token_for, tokenize, detokenize,
  generate_vault_token,
}

-- The document of a card: its number, expiry and name, and the digest of its CVV.
abbrev pub name_json : Option Bytes → Json
name_json none = null
name_json (some name) = utf8 name

abbrev pub card_document : Primitives → RawCardData → Json
card_document c card = obj (
    field "pan" (utf8 card.pan) (
      field "exp_month" (num (pos card.exp_month)) (
        field "exp_year" (num (pos card.exp_year)) (
          field "cvv_sha256" (utf8 (c.hex_encode (c.sha256 card.cvv)))
            (field "name" (name_json card.cardholder_name) end)))))

named-document :
    (c : Primitives) (card : RawCardData) (name : Option Bytes)
    → payload c (record card { cardholder_name = name })
      ≡ card_document c (record card { cardholder_name = name })
unfolding sha256_hex
named-document c card none = refl
named-document c card (some name) = refl

payload-document : (c : Primitives) (card : RawCardData) → payload c card ≡ card_document c card
payload-document c card = named-document c card card.cardholder_name

insert_token-adds :
    (r : VaultRow) (rows rows' : Rows) → insert_token r rows ≡ ok rows' → rows' ≡ r ∷ rows
unfolding insert_token
insert_token-adds r rows rows' h = ground (arith, h)

module _ (env : VaultEnv) (nonce random : Bytes) (card : RawCardData)
    (merchant_id : Option Uuid) where
  abbrev card_fingerprint : Bytes
  card_fingerprint = hmac_sha256 env.primitives env.hmac_key card.pan

  -- How a card that was not stored yet was stored.
  record IsStored (rows : Rows) (t : VaultToken) (rows' : Rows) : Type 0 where
    encrypted : Bytes
    last4 : Bytes
    made :
        encrypt_aes256gcm env.primitives nonce env.master_key
          (env.to_string (payload env.primitives card))
        ≡ ok encrypted
    token : t ≡ described (generate_vault_token env.primitives random) card last4
    added :
        rows'
        ≡ new_row
            (generate_vault_token env.primitives random)
            encrypted
            card_fingerprint
            last4
            card
            merchant_id
          ∷ rows

  store_card-IsStored :
      (last4 : Bytes) (rows : Rows) (t : VaultToken) (rows' : Rows)
      → store_card env nonce random card merchant_id last4 card_fingerprint rows ≡ (ok t, rows')
      → IsStored rows t rows'
  unfolding store_card
  store_card-IsStored last4 rows t rows' h =
      elim (Result-cases (
        encrypt_aes256gcm env.primitives nonce env.master_key
          (env.to_string (payload env.primitives card)))) [
            | inr (x, e) ↦ absurd (ground (arith, h, e))
            | inl (encrypted, e) ↦
                let row =
                  new_row (generate_vault_token env.primitives random) encrypted card_fingerprint
                    last4 card merchant_id in
                elim (Result-cases (insert_token row rows)) [
                  | inr (x, f) ↦ absurd (ground (arith, h, e, f))
                  | inl (after, f) ↦ record {
                    encrypted = encrypted;
                    last4 = last4;
                    made = e;
                    token = ground (arith, h, e, f);
                    added = ground (arith, h, e, f, insert_token-adds row rows after f);
                  }
                ]
          ]

  -- What a tokenisation that returns a token came from.
  record IsTokenised (others : Rows → Rows) (rows : Rows) (t : VaultToken) (rows' : Rows)
      : Type 0 where
    cut : Bytes
    checked : luhn_check card.pan ≡ true
    last4 : slice_from (length card.pan - 4) card.pan ≡ some cut
    origin : token_for env nonce random card merchant_id cut others rows ≡ (ok t, rows')

  tokenize-IsTokenised :
      (others : Rows → Rows) (rows : Rows) (t : VaultToken) (rows' : Rows)
      → tokenize env nonce random card merchant_id others rows ≡ (returned (ok t), rows')
      → IsTokenised others rows t rows'
  unfolding tokenize
  tokenize-IsTokenised others rows t rows' h = elim (Bool-cases (luhn_check card.pan)) [
    | inr bad ↦ absurd (ground (arith, h, bad))
    | inl good ↦ elim (Option-cases (slice_from (length card.pan - 4) card.pan)) [
      | inl e ↦ absurd (ground (arith, h, good, e))
      | inr (cut, e) ↦ record {
        cut = cut;
        checked = good;
        last4 = e;
        origin = ground (arith, h, good, e);
      }
    ]
  ]

  -- Decrypting a stored card gives its payload.
  detokenize-IsStored :
      PrimitivesLaws env.primitives
      → env.from_slice (env.to_string (payload env.primitives card))
        ≡ inr (payload env.primitives card)
      → length nonce ≡ 12
      → (rows : Rows) (t : VaultToken) (rows' : Rows) → IsStored rows t rows'
      → detokenize env t.token rows' ≡ ok (payload env.primitives card)
  unfolding detokenize
  detokenize-IsStored laws parses l rows t rows' s =
      let token = generate_vault_token env.primitives random in
      let same : bytes_eq token token ≡ true = (bytes_eq_iff token token).1 refl in
      let plain =
        decrypt-encrypt env.primitives laws nonce env.master_key
          (env.to_string (payload env.primitives card)) s.encrypted l s.made in
      ground (arith, s.token, s.added, same, plain, parses)

-- Where encryption is undone by decryption and printing the card's document by parsing it, with
-- nonces of 12 bytes: if no active row of the merchant has the fingerprint of a card, whatever other requests
-- commit before the card is stored, a tokenisation that succeeds gives a token that is looked up to
-- the number, the expiry, the name and the digest of the CVV of this card.
pub detokenize-tokenize :
    (env : VaultEnv) (nonce random : Bytes) (card : RawCardData) (merchant_id : Option Uuid)
    (others : Rows → Rows) (rows : Rows) (t : VaultToken) (rows' : Rows)
    → PrimitivesLaws env.primitives
    → env.from_slice (env.to_string (card_document env.primitives card))
      ≡ inr (card_document env.primitives card)
    → length nonce ≡ 12
    → find (has_fingerprint (hmac_sha256 env.primitives env.hmac_key card.pan) merchant_id) rows
      ≡ none
    → tokenize env nonce random card merchant_id others rows ≡ (returned (ok t), rows')
    → detokenize env t.token rows' ≡ ok (card_document env.primitives card)
unfolding token_for
detokenize-tokenize env nonce random card merchant_id others rows t rows' laws parses l fresh h =
    let k = tokenize-IsTokenised env nonce random card merchant_id others rows t rows' h in
    let same = payload-document env.primitives card in
    detokenize-IsStored env nonce random card merchant_id laws
      (subst (λ j. env.from_slice (env.to_string j) ≡ inr j) (sym same) parses) l (others rows) t
      rows'
      (store_card-IsStored env nonce random card merchant_id k.cut (others rows) t rows'
        (ground (arith, k.origin, fresh)))
    ∙ ap ok same

-- The row of the card's fingerprint after it was tokenised for a merchant.
found_after :
    (env : VaultEnv) (nonce random : Bytes) (card : RawCardData) (m : Uuid) (others : Rows → Rows)
    (rows : Rows) (t : VaultToken) (rows' : Rows)
    → tokenize env nonce random card (some m) others rows ≡ (returned (ok t), rows')
    → (r : VaultRow) × (find
          (has_fingerprint (hmac_sha256 env.primitives env.hmac_key card.pan) (some m))
          rows'
        ≡ some r)
      × (r.token ≡ t.token)
unfolding token_for
found_after env nonce random card m others rows t rows' h =
    let k = tokenize-IsTokenised env nonce random card (some m) others rows t rows' h in
    let fingerprint = hmac_sha256 env.primitives env.hmac_key card.pan in
    elim (Option-cases (find (has_fingerprint fingerprint (some m)) rows)) [
      | inr (r, e) ↦
          let unchanged : rows ≡ rows' = ground (arith, k.origin, e) in
          (
            r,
            subst (λ v. find (has_fingerprint fingerprint (some m)) v ≡ some r) unchanged e,
            ground (arith, k.origin, e),
          )
      | inl e ↦
          let s =
            store_card-IsStored env nonce random card (some m) k.cut (others rows) t rows'
              (ground (arith, k.origin, e)) in
          (
            new_row (generate_vault_token env.primitives random) s.encrypted fingerprint s.last4
                card (some m),
            ground (arith, s.added, (bytes_eq_iff fingerprint fingerprint).1 refl),
            ground (arith, s.token),
          )
    ]

-- For one merchant a card has one token: after a tokenisation that succeeded, the next one of the
-- same card, with whatever nonce and random bytes, returns the same token and stores nothing.
pub tokenize-again :
    (env : VaultEnv) (nonce random : Bytes) (card : RawCardData) (m : Uuid) (others : Rows → Rows)
    (rows : Rows) (t : VaultToken) (rows' : Rows)
    → tokenize env nonce random card (some m) others rows ≡ (returned (ok t), rows')
    → (nonce' random' : Bytes) (others' : Rows → Rows)
    → (u : VaultToken) × (tokenize env nonce' random' card (some m) others' rows'
        ≡ (returned (ok u), rows'))
      × (u.token ≡ t.token)
unfolding tokenize token_for
tokenize-again env nonce random card m others rows t rows' h nonce' random' others' =
    let k = tokenize-IsTokenised env nonce random card (some m) others rows t rows' h in
    let (r, found, same) = found_after env nonce random card m others rows t rows' h in
    (described r.token card k.cut, ground (arith, k.checked, k.last4, found), same)
