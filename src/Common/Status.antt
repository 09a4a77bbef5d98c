-- ===== src/Common/Status.antt =====
-- crates/common/src/models.rs: the enums. A derived `==` on an enum without fields compares the
-- discriminants.
use payment_gateway_in_rust.Prelude.{ℕ, String, Bool, true, false, ◌||◌, List, [], ◌∷◌, ◌==◌}

pub data Currency : Type 0 where
  inr usd eur gbp aed sgd : Currency

abbrev pub currency_text : Currency → String
currency_text inr = "INR"
currency_text usd = "USD"
currency_text eur = "EUR"
currency_text gbp = "GBP"
currency_text aed = "AED"
currency_text sgd = "SGD"

pub data PaymentStatus : Type 0 where
  created pending authorized captured settled failed refunded disputed cancelled requires_action :
      PaymentStatus

abbrev pub discriminant : PaymentStatus → ℕ
discriminant created = 0
discriminant pending = 1
discriminant authorized = 2
discriminant captured = 3
discriminant settled = 4
discriminant failed = 5
discriminant refunded = 6
discriminant disputed = 7
discriminant cancelled = 8
discriminant requires_action = 9

abbrev pub same_status : PaymentStatus → PaymentStatus → Bool
same_status a b = discriminant a == discriminant b

-- The name that `{:?}` prints.
abbrev pub debug_status : PaymentStatus → String
debug_status created = "Created"
debug_status pending = "Pending"
debug_status authorized = "Authorized"
debug_status captured = "Captured"
debug_status settled = "Settled"
debug_status failed = "Failed"
debug_status refunded = "Refunded"
debug_status disputed = "Disputed"
debug_status cancelled = "Cancelled"
debug_status requires_action = "RequiresAction"

-- The name that serde writes.
abbrev pub status_text : PaymentStatus → String
status_text created = "created"
status_text pending = "pending"
status_text authorized = "authorized"
status_text captured = "captured"
status_text settled = "settled"
status_text failed = "failed"
status_text refunded = "refunded"
status_text disputed = "disputed"
status_text cancelled = "cancelled"
status_text requires_action = "requires_action"

-- `PaymentStatus::valid_transitions`.
unfoldable pub valid_transitions : PaymentStatus → List PaymentStatus
valid_transitions created = pending ∷ cancelled ∷ []
valid_transitions pending = authorized ∷ failed ∷ requires_action ∷ []
valid_transitions requires_action = authorized ∷ failed ∷ cancelled ∷ []
valid_transitions authorized = captured ∷ cancelled ∷ []
valid_transitions captured = settled ∷ disputed ∷ []
valid_transitions settled = disputed ∷ []
valid_transitions failed = []
valid_transitions cancelled = []
valid_transitions refunded = []
valid_transitions disputed = []

-- `<[PaymentStatus]>::contains`.
unfoldable pub contains : List PaymentStatus → PaymentStatus → Bool
contains [] s = false
contains (t ∷ ts) s = same_status t s || contains ts s

unfoldable pub can_transition_to : PaymentStatus → PaymentStatus → Bool
unfolding valid_transitions contains
can_transition_to from next = contains (valid_transitions from) next

unfoldable pub is_terminal : PaymentStatus → Bool
is_terminal settled = true
is_terminal failed = true
is_terminal cancelled = true
is_terminal refunded = true
is_terminal disputed = true
is_terminal _ = false

pub data CaptureMethod : Type 0 where
  automatic manual : CaptureMethod

abbrev pub is_automatic : CaptureMethod → Bool
is_automatic automatic = true
is_automatic manual = false

pub data EntryType : Type 0 where
  debit credit : EntryType

pub data RefundStatus : Type 0 where
  pending processing succeeded failed : RefundStatus

abbrev pub refund_status_text : RefundStatus → String
refund_status_text RefundStatus.pending = "pending"
refund_status_text RefundStatus.processing = "processing"
refund_status_text RefundStatus.succeeded = "succeeded"
refund_status_text RefundStatus.failed = "failed"

pub data DisputeStatus : Type 0 where
  warning_needs_response warning_under_review warning_closed needs_response under_review
        charge_refunded won lost :
      DisputeStatus
