-- ===== src/Webhook/Untyped.antt =====
-- The events of the payment service at the dispatcher.
use payment_gateway_in_rust.Prelude.{
  ◌≡◌, refl, sym, ap, subst, ◌∙◌, String, str_eq, false, inl, inr, List, [], ◌∷◌, arith, keep, All,
  get_or, Sum-cases,
}
use payment_gateway_in_rust.Common.{Uuid, Timestamp, Json, Payment, Refund, obj, field, Fields}
use payment_gateway_in_rust.Payment.World.{Serde, SerdeLaws}
use payment_gateway_in_rust.Payment.External.{
  build_payment_event_payload, build_refund_event_payload,
}
use payment_gateway_in_rust.Payment.Replies.{differ}
use payment_gateway_in_rust.Merchant.Tables.{WebhookEndpointRow}
use payment_gateway_in_rust.Webhook.Dispatcher.{
  Parsers, Hooks, is_subscribed, mentions, insert_deliveries, text_field, persist_and_dispatch,
}

module _ (s : Serde) (laws : SerdeLaws s) where
  skip :
      (k : String) (v : Json) (fs : Fields)
      → str_eq k "event_type" ≡ false
      → s.index (obj (field k v fs)) "event_type" ≡ s.index (obj fs) "event_type"
  skip k v fs h = laws.index_there k "event_type" v fs (differ k "event_type" h)

  payment_event-untyped :
      (i : Uuid) (now : Timestamp) (p : Payment)
      → text_field s (build_payment_event_payload i now p) "event_type" ≡ ""
  unfolding build_payment_event_payload
  payment_event-untyped i now p =
      ap (λ o. get_or (s.as_str o) "")
        (skip "event_id" _ _ refl
          ∙ skip "payment_id" _ _ refl
          ∙ skip "merchant_id" _ _ refl
          ∙ skip "order_id" _ _ refl
          ∙ skip "amount" _ _ refl
          ∙ skip "captured_amount" _ _ refl
          ∙ skip "currency" _ _ refl
          ∙ skip "status" _ _ refl
          ∙ skip "acquirer_id" _ _ refl
          ∙ skip "acquirer_reference" _ _ refl
          ∙ skip "timestamp" _ _ refl
          ∙ laws.index_end "event_type")
      ∙ ap (λ o. get_or o "") laws.as_str_null

  refund_event-untyped :
      (i : Uuid) (now : Timestamp) (r : Refund)
      → text_field s (build_refund_event_payload i now r) "event_type" ≡ ""
  unfolding build_refund_event_payload
  refund_event-untyped i now r =
      ap (λ o. get_or (s.as_str o) "")
        (skip "event_id" _ _ refl
          ∙ skip "refund_id" _ _ refl
          ∙ skip "payment_id" _ _ refl
          ∙ skip "merchant_id" _ _ refl
          ∙ skip "amount" _ _ refl
          ∙ skip "currency" _ _ refl
          ∙ skip "status" _ _ refl
          ∙ skip "reason" _ _ refl
          ∙ skip "timestamp" _ _ refl
          ∙ laws.index_end "event_type")
      ∙ ap (λ o. get_or o "") laws.as_str_null

nobody :
    (m : Uuid) (es : List WebhookEndpointRow)
    → All (λ e. mentions "" e.events ≡ false) es
    → keep (is_subscribed m "") es ≡ []
nobody m [] h = refl
nobody m (e ∷ es) h = ground (arith, h.0, nobody m es h.1)

untyped-undelivered :
    (ps : Parsers) (event : Json) (h : Hooks)
    → text_field ps.serde event "event_type" ≡ ""
    → All (λ e. mentions "" e.events ≡ false) h.endpoints
    → (persist_and_dispatch ps event h).1 ≡ h
unfolding persist_and_dispatch insert_deliveries
untyped-undelivered ps event h untyped unnamed =
    elim (Sum-cases (ps.parse_uuid (text_field ps.serde event "merchant_id"))) [
      | inl (e, bad) ↦ rw (bad, persist_and_dispatch) refl
      | inr (m, good) ↦
          let none_left =
            subst (λ t. keep (is_subscribed m t) h.endpoints ≡ []) (sym untyped)
              (nobody m h.endpoints unnamed) in
          rw (good, persist_and_dispatch)
            (ap
              (λ es.
                insert_deliveries m (text_field ps.serde event "event_type") (ps.reparsed event) es
                  h)
              none_left)
    ]

-- The payloads that the payment service publishes for payments and refunds have no event type, so
-- unless an endpoint subscribes to the empty type, dispatching them changes nothing: no webhook of a
-- payment or a refund is ever delivered.
pub payment_events-undelivered :
    (ps : Parsers) (h : Hooks)
    → SerdeLaws ps.serde
    → All (λ e. mentions "" e.events ≡ false) h.endpoints
    → (i : Uuid) (now : Timestamp) (p : Payment) (r : Refund)
    → ((persist_and_dispatch ps (build_payment_event_payload i now p) h).1 ≡ h)
      × ((persist_and_dispatch ps (build_refund_event_payload i now r) h).1 ≡ h)
payment_events-undelivered ps h laws unnamed i now p r = (
  untyped-undelivered ps _ h (payment_event-untyped ps.serde laws i now p) unnamed,
  untyped-undelivered ps _ h (refund_event-untyped ps.serde laws i now r) unnamed,
)
