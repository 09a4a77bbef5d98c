-- ===== src/Payment/World.antt =====
-- The state that the service works on: the tables of migrations/, the clock, the supply of fresh
-- identifiers, and the calls that were made to the acquirer. A transaction is a function from the
-- state to a result and the new state; an error drops the transaction, and nothing of it is kept.
use payment_gateway_in_rust.Prelude.{
  String, Bool, true, false, Option, none, some, ◌≡◌, ◌≢◌, suc, List, ◌∷◌, [],
}
use payment_gateway_in_rust.Prelude.Int.{ℤ}
use payment_gateway_in_rust.Common.{
  Uuid, Timestamp, Text, lit, Json, null, bool, str, obj, Fields, end, field, Payment, Refund,
  LedgerEntry, OutboxEvent, Dispute, AppError, database, AppResult, ok, err,
}

-- What was asked of the acquirer, in the order of the calls, newest first.
pub data Call : Type 0 where
  charge : (payment_id : Uuid) (amount : ℤ) (capture : Bool) → Call
  capture : (payment_id : Uuid) → Call
  refund : (payment_id : Uuid) (amount : ℤ) → Call

pub record World : Type 0 where
  pub payments : List Payment
  pub refunds : List Refund
  -- Newest first; the table takes no UPDATE and no DELETE.
  pub ledger_entries : List LedgerEntry
  pub outbox_events : List OutboxEvent
  pub disputes : List Dispute
  pub calls : List Call
  pub now : Timestamp
  -- `Uuid::new_v4` and `gen_random_uuid` never repeat: they count.
  pub next_id : Uuid
  -- The rows of `merchants`, by their identifiers; other services write them.
  pub merchants : List Uuid
  -- Whether `reference_entry_id REFERENCES ledger_entries(id)` is checked at each statement, as
  -- migrations/008_ledger_accounts.sql declares it, or put off to the commit.
  pub immediate_reference : Bool

-- The accessors of `serde_json::Value`.
pub record Serde : Type 0 where
  -- `v[key]`, which is `Null` where there is no such field.
  pub index : Json → String → Json
  pub as_str : Json → Option String
  pub as_bool : Json → Option Bool

-- What the service relies on of them.
pub record SerdeLaws (s : Serde) : Type 0 where
  pub index_here : (k : String) (v : Json) (fs : Fields) → s.index (obj (field k v fs)) k ≡ v
  pub index_there :
      (k j : String) (v : Json) (fs : Fields)
      → k ≢ j
      → s.index (obj (field k v fs)) j ≡ s.index (obj fs) j
  pub index_end : (j : String) → s.index (obj end) j ≡ null
  pub as_str_null : s.as_str null ≡ none
  pub as_str_str : (t : String) → s.as_str (str t) ≡ some t
  pub as_bool_null : s.as_bool null ≡ none
  pub as_bool_bool : (b : Bool) → s.as_bool (bool b) ≡ some b

-- The computations on formatted and foreign values that the service takes from elsewhere.
pub record Env : Type 0 where
  -- `(x as f64 * system_fee_percentage) as i64`.
  pub fee_of : ℤ → ℤ
  pub serde : Serde
  -- SHA-256 of the formatted text, in hexadecimal.
  pub sha256_hex : Text → String
  -- `ORDER BY created_at DESC LIMIT 1`, which leaves open how rows of one instant are ordered.
  pub newest : List LedgerEntry → Option LedgerEntry

abbrev pub Tx : Type 0 → Type 0
Tx A = World → AppResult (A × World)

abbrev pub Done : Type 0
Done = Unit {0}

module _ {A : Type 0} where
  unfoldable pub pure : A → Tx A
  pure a w = ok (a, w)

  unfoldable pub raise : AppError → Tx A
  raise e w = err e

  unfoldable pub gets : (World → A) → Tx A
  gets f w = ok (f w, w)

  -- `?` on a result.
  unfoldable pub lift : AppResult A → Tx A
  lift (ok a) w = ok (a, w)
  lift (err e) w = err e

unfoldable pub modify : (World → World) → Tx Done
modify f w = ok (tt, f w)

-- A constraint of the schema: the statement fails unless the test holds.
unfoldable pub constraint : Bool → String → Tx Done
constraint true name w = ok (tt, w)
constraint false name w = err (database (lit name ∷ []))

-- `Uuid::new_v4()`.
unfoldable pub new_uuid : Tx Uuid
new_uuid w = ok (w.next_id, record w { next_id = suc w.next_id })

infixl 5 ◌>>=◌ ◌>>◌
-- Opening this opens the statements above too.
unfoldable pub ◌>>=◌ : {A B : Type 0} → Tx A → (A → Tx B) → Tx B
unfolding pure raise gets lift modify constraint new_uuid
◌>>=◌ m f w = elim (m w) [ ok r ↦ f r.0 r.1 | err e ↦ err e ]

abbrev pub ◌>>◌ : {B : Type 0} → Tx Done → Tx B → Tx B
m >> k = m >>= λ _. k

-- `begin` to `commit`, or the rollback of a transaction that is dropped on an error.
unfoldable pub run_tx : {A : Type 0} → Tx A → World → AppResult A × World
run_tx m w = elim (m w) [ ok r ↦ (ok r.0, r.1) | err e ↦ (err e, w) ]
