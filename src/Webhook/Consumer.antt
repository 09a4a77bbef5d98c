-- ===== src/Webhook/Consumer.antt =====
-- crates/webhook-service/src/consumer.rs: the messages of the event log, each one once.
use payment_gateway_in_rust.Prelude.{
  String, str_eq, Bool, true, false, ◌||◌, List, [], ◌∷◌, ◌⊎◌, inl, inr, if◌then◌else◌,
}
use payment_gateway_in_rust.Common.{Text}
use payment_gateway_in_rust.Crypto.Bytes.{Bytes}
use payment_gateway_in_rust.Webhook.Dispatcher.{Parsers, Hooks, persist_and_dispatch}

-- A message, with the text that is formatted from its topic, partition and offset.
pub record Message : Type 0 where
  pub event_id : String
  pub payload : Bytes

unfoldable pub is_processed : List String → String → Bool
is_processed [] event_id = false
is_processed (k ∷ ks) event_id = str_eq k event_id || is_processed ks event_id

-- After the key is inserted: no transaction takes it back where this fails.
unfoldable pub dispatch_payload : Parsers → Bytes → Hooks → (Text ⊎ Bool) × Hooks
unfolding persist_and_dispatch
dispatch_payload ps payload h = elim (ps.from_slice payload) [
  | inl e ↦ (inl e, h)
  | inr event ↦
      let r = persist_and_dispatch ps event h in
      (elim r.0 [ inl e ↦ inl e | inr done ↦ inr false ], r.1)
]

-- Whether the message was skipped.
unfoldable pub process_message : Parsers → Message → Hooks → (Text ⊎ Bool) × Hooks
unfolding is_processed dispatch_payload
process_message ps m h =
    if is_processed h.processed m.event_id
    then (inr true, h)
    else dispatch_payload ps m.payload (record h { processed = m.event_id ∷ h.processed })

-- The loop over the stream; the identifiers of the messages whose offset is committed come first. A
-- message that fails is passed over.
unfoldable pub run : Parsers → List Message → List String × Hooks → List String × Hooks
unfolding process_message
run ps [] (commits, h) = (commits, h)
run ps (m ∷ ms) (commits, h) =
    let r = process_message ps m h in
    run ps ms (elim r.0 [ inl e ↦ (commits, r.1) | inr skipped ↦ (m.event_id ∷ commits, r.1) ])
