-- ===== src/Webhook/Dispatcher.antt =====
-- crates/webhook-service/src/dispatcher.rs: an event becomes one pending delivery for each endpoint
-- that subscribes to it.
use payment_gateway_in_rust.Prelude.{
  suc, String, str_eq, Bool, false, ◌&&◌, ◌||◌, none, some, List, [], ◌∷◌, ◌⊎◌, inl, inr, ◌==◌,
  get_or, keep,
}
use payment_gateway_in_rust.Common.{Uuid, Timestamp, Text, Json}
use payment_gateway_in_rust.Payment.World.{Serde}
use payment_gateway_in_rust.Crypto.Bytes.{Bytes}
use payment_gateway_in_rust.Merchant.Tables.{WebhookEndpointRow}
use payment_gateway_in_rust.Webhook.Deliveries.{Delivery, DeliveryStatus}

-- The functions of serde_json and uuid; an error is what it prints.
pub record Parsers : Type 0 where
  pub serde : Serde
  pub from_slice : Bytes → Text ⊎ Json
  pub parse_uuid : String → Text ⊎ Uuid
  -- `to_string`, and `parse` of that.
  pub reparsed : Json → Json

-- A row of `webhook_deliveries`; its state is the one that the scheduler works on.
pub record DeliveryRow : Type 0 where
  pub id : Uuid
  pub endpoint_id : Uuid
  pub merchant_id : Uuid
  pub event_type : String
  pub payload : Json
  pub delivery : Delivery

-- The tables of the service.
pub record Hooks : Type 0 where
  pub endpoints : List WebhookEndpointRow
  pub deliveries : List DeliveryRow
  -- The keys of `processed_events` in the group of the service.
  pub processed : List String
  pub now : Timestamp
  pub next_id : Uuid

abbrev pub mentions : String → List String → Bool
mentions s [] = false
mentions s (t ∷ ts) = str_eq t s || mentions s ts

abbrev pub is_subscribed : Uuid → String → WebhookEndpointRow → Bool
is_subscribed merchant_id event_type e =
    (e.merchant_id == merchant_id) && (e.is_active && mentions event_type e.events)

abbrev pub new_delivery : Timestamp → Delivery
new_delivery now = record {
  status = DeliveryStatus.pending;
  attempt_count = 0;
  max_attempts = 10;
  next_retry_at = some now;
  processing_started_at = none;
  last_http_status = none;
  last_error = none;
  dead_lettered_at = none;
  sent = 0;
}

-- The loop over the endpoints.
unfoldable pub insert_deliveries :
    (merchant_id : Uuid) (event_type : String) (payload : Json)
    → List WebhookEndpointRow
    → Hooks
    → Hooks
insert_deliveries merchant_id event_type payload [] h = h
insert_deliveries merchant_id event_type payload (e ∷ es) h =
    insert_deliveries merchant_id event_type payload es (record h {
      deliveries =
          record {
            id = h.next_id;
            endpoint_id = e.id;
            merchant_id = merchant_id;
            event_type = event_type;
            payload = payload;
            delivery = new_delivery h.now;
          }
          ∷ h.deliveries;
      next_id = suc h.next_id;
    })

-- `event[key].as_str().unwrap_or("")`.
abbrev pub text_field : Serde → Json → String → String
text_field s event key = get_or (s.as_str (s.index event key)) ""

unfoldable pub persist_and_dispatch : Parsers → Json → Hooks → (Text ⊎ Unit {0}) × Hooks
unfolding insert_deliveries
persist_and_dispatch ps event h = elim (ps.parse_uuid (text_field ps.serde event "merchant_id")) [
  | inl e ↦ (inl e, h)
  | inr merchant_id ↦
      let event_type = text_field ps.serde event "event_type" in
      (
        inr tt,
        insert_deliveries merchant_id event_type (ps.reparsed event)
            (keep (is_subscribed merchant_id event_type) h.endpoints) h,
      )
]
