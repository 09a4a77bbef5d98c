-- ===== src/Webhook/Once.antt =====
-- What a message of the event log leads to, however often it is delivered.
use mathlib.Core.List.{reverse_aux}
use payment_gateway_in_rust.Prelude.{
  ◌≡◌, refl, sym, ap, subst, ◌∙◌, String, str_eq, eq_iff, Bool, true, false, ◌||◌, ◌&&◌, some, none,
  ◌==◌, if◌then◌else◌, List, [], ◌∷◌, map, inl, inr, arith, keep, All, Bool-cases, Sum-cases,
}
use payment_gateway_in_rust.Common.{Uuid, Timestamp, Json}
use payment_gateway_in_rust.Crypto.Bytes.{Bytes}
use payment_gateway_in_rust.Merchant.Tables.{WebhookEndpointRow}
use payment_gateway_in_rust.Webhook.Deliveries.{Delivery, DeliveryStatus}
use payment_gateway_in_rust.Webhook.Dispatcher.{
  Parsers, DeliveryRow, Hooks, is_subscribed, mentions, insert_deliveries, text_field,
  persist_and_dispatch,
}
use payment_gateway_in_rust.Webhook.Consumer.{
  Message, is_processed, dispatch_payload, process_message, run,
}

insert_deliveries-processed :
    (m : Uuid) (t : String) (j : Json) (es : List WebhookEndpointRow) (h : Hooks)
    → (insert_deliveries m t j es h).processed ≡ h.processed
unfolding insert_deliveries
insert_deliveries-processed m t j [] h = refl
insert_deliveries-processed m t j (e ∷ es) h = insert_deliveries-processed m t j es _

persist_and_dispatch-processed :
    (ps : Parsers) (event : Json) (h : Hooks)
    → (persist_and_dispatch ps event h).1.processed ≡ h.processed
unfolding persist_and_dispatch
persist_and_dispatch-processed ps event h =
    elim (Sum-cases (ps.parse_uuid (text_field ps.serde event "merchant_id"))) [
      | inl (e, bad) ↦ rw (bad, persist_and_dispatch) refl
      | inr (m, good) ↦
          rw (good, persist_and_dispatch)
            (insert_deliveries-processed m (text_field ps.serde event "event_type")
              (ps.reparsed event)
              (keep (is_subscribed m (text_field ps.serde event "event_type")) h.endpoints) h)
    ]

dispatch_payload-processed :
    (ps : Parsers) (payload : Bytes) (h : Hooks)
    → (dispatch_payload ps payload h).1.processed ≡ h.processed
unfolding dispatch_payload
dispatch_payload-processed ps payload h = elim (Sum-cases (ps.from_slice payload)) [
  | inl (e, bad) ↦ rw (bad, dispatch_payload) refl
  | inr (event, good) ↦ rw (good, dispatch_payload) (persist_and_dispatch-processed ps event h)
]

-- Whatever comes of it, a message is processed afterwards, and so is every one that was before.
process_message-marks :
    (ps : Parsers) (m : Message) (h : Hooks)
    → is_processed (process_message ps m h).1.processed m.event_id ≡ true
unfolding process_message is_processed
process_message-marks ps m h = elim (Bool-cases (is_processed h.processed m.event_id)) [
  | inl e ↦ rw (e, e) refl
  | inr e ↦
      let kept =
        dispatch_payload-processed ps m.payload
          (record h { processed = m.event_id ∷ h.processed }) in
      rw (e, kept) (ground (arith, (eq_iff m.event_id m.event_id).1 refl))
]

process_message-keeps :
    (ps : Parsers) (m : Message) (h : Hooks) (i : String)
    → is_processed h.processed i ≡ true
    → is_processed (process_message ps m h).1.processed i ≡ true
unfolding process_message is_processed
process_message-keeps ps m h i k = elim (Bool-cases (is_processed h.processed m.event_id)) [
  | inl e ↦ rw e k
  | inr e ↦
      let kept =
        dispatch_payload-processed ps m.payload
          (record h { processed = m.event_id ∷ h.processed }) in
      rw (e, kept) (ground (arith, k))
]

-- What the loop makes of the tables alone.
abbrev tables_after : Parsers → List Message → Hooks → Hooks
tables_after ps [] h = h
tables_after ps (m ∷ ms) h = tables_after ps ms (process_message ps m h).1

run-tables :
    (ps : Parsers) (ms : List Message) (c : List String) (h : Hooks)
    → (run ps ms (c, h)).1 ≡ tables_after ps ms h
unfolding run
run-tables ps [] c h = refl
run-tables ps (m ∷ ms) c h = elim (Sum-cases (process_message ps m h).0) [
  | inl (e, bad) ↦ rw (bad, run) (run-tables ps ms _ _)
  | inr (skipped, good) ↦ rw (good, run) (run-tables ps ms _ _)
]

abbrev pub occurs : String → List Message → Bool
occurs i [] = false
occurs i (m ∷ ms) = str_eq m.event_id i || occurs i ms

tables_after-keeps :
    (ps : Parsers) (ms : List Message) (h : Hooks) (i : String)
    → is_processed h.processed i ≡ true
    → is_processed (tables_after ps ms h).processed i ≡ true
tables_after-keeps ps [] h i k = k
tables_after-keeps ps (m ∷ ms) h i k =
    tables_after-keeps ps ms _ i (process_message-keeps ps m h i k)

occurs-IsProcessed :
    (ps : Parsers) (ms : List Message) (h : Hooks) (i : String)
    → occurs i ms ≡ true
    → is_processed (tables_after ps ms h).processed i ≡ true
occurs-IsProcessed ps [] h i o = absurd (ground (arith, o))
occurs-IsProcessed ps (m ∷ ms) h i o = elim (Bool-cases (str_eq m.event_id i)) [
  | inl e ↦ tables_after-keeps ps ms _ i (
      subst (λ k. is_processed (process_message ps m h).1.processed k ≡ true)
        ((eq_iff m.event_id i).0 e) (process_message-marks ps m h))
  | inr e ↦ occurs-IsProcessed ps ms _ i (ground (arith, o, e))
]

tables_after-repeats :
    (ps : Parsers) (ms : List Message) (h : Hooks)
    → All (λ m. is_processed h.processed m.event_id ≡ true) ms
    → tables_after ps ms h ≡ h
unfolding process_message
tables_after-repeats ps [] h k = refl
tables_after-repeats ps (m ∷ ms) h k = rw (k.0) (tables_after-repeats ps ms h k.1)

repeats_processed :
    (ps : Parsers) (ms again : List Message) (h : Hooks)
    → All (λ m. occurs m.event_id ms ≡ true) again
    → All (λ m. is_processed (tables_after ps ms h).processed m.event_id ≡ true) again
repeats_processed ps ms [] h k = tt
repeats_processed ps ms (m ∷ rest) h k =
    (occurs-IsProcessed ps ms h m.event_id k.0, repeats_processed ps ms rest h k.1)

-- After a stream of messages was worked off, any further stream that only repeats messages of it, in
-- any order and number, changes no table: each event leads to its deliveries at most once, also
-- where the first attempt at it failed.
pub run-once :
    (ps : Parsers) (ms again : List Message) (c d : List String) (h : Hooks)
    → All (λ m. occurs m.event_id ms ≡ true) again
    → (run ps again (d, (run ps ms (c, h)).1)).1 ≡ (run ps ms (c, h)).1
run-once ps ms again c d h k =
    run-tables ps again d (run ps ms (c, h)).1
    ∙ ap (tables_after ps again) (run-tables ps ms c h)
    ∙ tables_after-repeats ps again (tables_after ps ms h) (repeats_processed ps ms again h k)
    ∙ sym (run-tables ps ms c h)

-- What a delivery is for, and its state.
abbrev pub target : DeliveryRow → Uuid × String × Delivery
target d = (d.endpoint_id, d.event_type, d.delivery)

abbrev pub first_delivery : Timestamp → Delivery
first_delivery now = record {
  status = DeliveryStatus.pending;
  attempt_count = 0;
  max_attempts = 10;
  next_retry_at = some now;
  processing_started_at = none;
  last_http_status = none;
  last_error = none;
  dead_lettered_at = none;
  sent = 0;
}

abbrev pub wanted : String → Timestamp → WebhookEndpointRow → Uuid × String × Delivery
wanted event_type now e = (e.id, event_type, first_delivery now)

-- The type is one of the list.
abbrev pub is_listed : String → List String → Bool
is_listed t [] = false
is_listed t (u ∷ us) = str_eq u t || is_listed t us

-- An active endpoint of the merchant that subscribes to the type.
abbrev pub wants : Uuid → String → WebhookEndpointRow → Bool
wants m t e = (e.merchant_id == m) && (e.is_active && is_listed t e.events)

is_listed-mentions : (t : String) (us : List String) → mentions t us ≡ is_listed t us
is_listed-mentions t [] = refl
is_listed-mentions t (u ∷ us) = ap (λ b. str_eq u t || b) (is_listed-mentions t us)

keep-wants :
    (m : Uuid) (t : String) (es : List WebhookEndpointRow)
    → keep (is_subscribed m t) es ≡ keep (wants m t) es
keep-wants m t [] = refl
keep-wants m t (e ∷ es) = rw (keep-wants m t es) (
    ap
      (λ b.
        if (e.merchant_id == m) && (e.is_active && b)
        then e ∷ keep (wants m t) es
        else keep (wants m t) es)
      (is_listed-mentions t e.events))

insert_deliveries-targets :
    (m : Uuid) (t : String) (j : Json) (es : List WebhookEndpointRow) (h : Hooks)
    → map target (insert_deliveries m t j es h).deliveries
      ≡ reverse_aux (map (wanted t h.now) es) (map target h.deliveries)
unfolding insert_deliveries
insert_deliveries-targets m t j [] h = refl
insert_deliveries-targets m t j (e ∷ es) h = insert_deliveries-targets m t j es _

-- A message that was not processed before and whose payload is an event of a merchant adds one
-- pending delivery, due now and with ten attempts to make, for each active endpoint of the merchant that subscribes to the event's type,
-- and no other, the last endpoint's first.
pub process_message-fans_out :
    (ps : Parsers) (msg : Message) (event : Json) (m : Uuid) (h : Hooks)
    → is_processed h.processed msg.event_id ≡ false
    → ps.from_slice msg.payload ≡ inr event
    → ps.parse_uuid (text_field ps.serde event "merchant_id") ≡ inr m
    → map target (process_message ps msg h).1.deliveries
      ≡ reverse_aux
          (map
            (wanted (text_field ps.serde event "event_type") h.now)
            (keep (wants m (text_field ps.serde event "event_type")) h.endpoints))
          (map target h.deliveries)
unfolding process_message dispatch_payload persist_and_dispatch
process_message-fans_out ps msg event m h fresh parsed named =
    rw (fresh, parsed, dispatch_payload, named, persist_and_dispatch)
      (insert_deliveries-targets m (text_field ps.serde event "event_type") (ps.reparsed event)
          (keep (is_subscribed m (text_field ps.serde event "event_type")) h.endpoints)
          (record h { processed = msg.event_id ∷ h.processed })
        ∙ ap
            (λ es.
              reverse_aux (map (wanted (text_field ps.serde event "event_type") h.now) es)
                (map target h.deliveries))
            (keep-wants m (text_field ps.serde event "event_type") h.endpoints))
