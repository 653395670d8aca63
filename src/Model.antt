-- ===== src/Model.antt =====
-- internal/model: the log entry, its validation, its content hash and its reference.
pub mod Decimal
use sentinellog.Prelude.{
  ℕ, Text, codes, List, [], ◌∷◌, ◌++◌, Bool, Option, none, some, if◌then◌else◌, ◌==◌, text_eq, take,
}
use sentinellog.Prelude.Strings.{hex_encode, Runtime}
use sentinellog.Model.Decimal.{format_uint}

-- The values of `map[string]any` that encoding/json produces.
mutual
  pub data Value : Type 0 where
    str : Text → Value
    num : ℕ → Value  -- the 64 bits of the float64
    bool : Bool → Value
    null : Value
    arr : Items → Value
    obj : Fields → Value

  pub data Items : Type 0 where
    end : Items
    item : Value → Items → Items

  pub data Fields : Type 0 where
    close : Fields
    field : Text → Value → Fields → Fields

-- A `time.Time` in UTC as the nanoseconds since Go's zero time, the first of January of year 1.
abbrev pub Time : Type 0
Time = ℕ

pub record LogEntry : Type 0 where
  pub tenant_id : Text
  pub timestamp : Time
  pub service : Text
  pub level : Text
  pub trace_id : Text
  pub message : Text
  pub attrs : List (Text × Value)
  pub redacted : Bool

-- `ErrMissingField`, with the name of the field.
pub data Error : Type 0 where
  missing_field : Text → Error

-- The text of the error.
unfoldable pub error_text : Error → Text
error_text (missing_field name) = codes "missing required field: " ++ name

unfoldable pub validate : LogEntry → Option Error
validate e =
    if e.service == codes ""
    then some (missing_field (codes "service"))
    else if e.message == codes ""
    then some (missing_field (codes "message"))
    else none

-- The embedded `LogEntry` is opened, as Go promotes its fields.
pub record StoredEntry : Type 0 where
  pub id : ℕ
  pub entry : LogEntry
  pub open entry use *

-- The bytes that `ContentHash` feeds to the hash.
unfoldable pub hash_input : LogEntry → Text
hash_input e = e.tenant_id ++ (0 ∷ e.service ++ (0 ∷ e.message))

unfoldable pub content_hash : ⦃rt : Runtime⦄ → LogEntry → Text
unfolding hash_input
content_hash ⦃rt⦄ e = hex_encode (take 8 (rt.sha256 (hash_input e)))

unfoldable pub ref : StoredEntry → Text
ref e = codes "log:" ++ format_uint e.id
