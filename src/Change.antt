-- ===== src/Change.antt =====
-- internal/change: the row-change events that the sources emit and the reverse engine consumes
-- (change.go). Strings are lists of bytes.
pub mod Raw
pub mod Filter
pub mod Ddl
pub mod Readonly
use mulligan.Base.{ℕ, Bool, true, false, ◌&&◌, List, Option, none, some}
use mulligan.Base.Int.{ℤ}
use mulligan.Base.Text.{Bytes, beq}
use mulligan.Base.Time.{Time}

-- `other` is any value of the underlying uint8 that has no name.
pub data Op : Type 0 where
  insert update delete schema_change : Op
  other : ℕ → Op

-- The dynamic values that an `any` may hold. The floats are their bit patterns; `nil_bytes` is a
-- nil []byte; `unsupported` is a value of any type that the code does not name, by its class under
-- reflect.DeepEqual.
pub data Value : Type 0 where
  null : Value
  bool : Bool → Value
  int int8 int16 int32 int64 : ℤ → Value
  uint uint8 uint16 uint32 uint64 : ℕ → Value
  float32 float64 : ℕ → Value
  string bytes raw : Bytes → Value
  nil_bytes : Value
  time : Time → Value
  unsupported : ℕ → Value

pub record Column : Type 0 where
  pub name : Bytes
  pub primary_key : Bool
  pub read_only : Bool

-- A nil slice of values is `none`.
abbrev pub Image : Type 0
Image = Option (List Value)

abbrev pub values : Image → List Value
values none = List.[]
values (some row) = row

pub record Event : Type 0 where
  pub schema : Bytes
  pub table : Bytes
  pub op : Op
  pub columns : List Column
  pub before : Image
  pub after : Image
  pub log_file : Bytes
  pub log_pos : ℕ
  pub at : Time
  pub server_id : ℕ
  pub query : Bytes

pub record Transaction : Type 0 where
  pub source_id : Bytes
  pub committed_at : Time
  pub server_id : ℕ
  pub events : List Event

pub record Checkpoint : Type 0 where
  pub log_file : Bytes
  pub log_pos : ℕ
  pub gtid : Bytes
  pub updated_at : Time

-- `Checkpoint.IsZero`
unfoldable pub is_zero : Checkpoint → Bool
is_zero c = beq c.log_file List.[] && beq c.gtid List.[]

abbrev is_schema_op : Op → Bool
is_schema_op Op.schema_change = true
is_schema_op _ = false

unfoldable pub is_schema_change : Event → Bool
is_schema_change ev = is_schema_op ev.op
