-- ===== src/Common/Values.antt =====
-- The values that the models are built of: identifiers, times, formatted texts, JSON documents.
use payment_gateway_in_rust.Prelude.{ℕ, String, Bool, List}
use payment_gateway_in_rust.Prelude.Int.{ℤ}

-- `uuid::Uuid`: only compared and displayed.
abbrev pub Uuid : Type 0
Uuid = ℕ

-- `DateTime<Utc>`, in seconds.
abbrev pub Timestamp : Type 0
Timestamp = ℕ

-- A piece of a `format!`: a literal, or a value that is displayed in its place.
pub data Piece : Type 0 where
  lit : String → Piece
  uuid : Uuid → Piece
  int : ℤ → Piece
  nat : ℕ → Piece
  raw : List ℕ → Piece

abbrev pub Text : Type 0
Text = List Piece

-- `serde_json::Value`.
mutual
  pub data Json : Type 0 where
    null : Json
    bool : Bool → Json
    num : ℤ → Json
    str : String → Json
    -- A string that is given by its bytes.
    utf8 : List ℕ → Json
    -- A string that is formatted.
    text_json : Text → Json
    id : Uuid → Json
    time : Timestamp → Json
    arr : Items → Json
    obj : Fields → Json

  pub data Items : Type 0 where
    nil : Items
    cons : Json → Items → Items

  pub data Fields : Type 0 where
    end : Fields
    field : String → Json → Fields → Fields
