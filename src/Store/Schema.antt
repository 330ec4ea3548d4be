-- ===== src/Store/Schema.antt =====
-- The tables of internal/store/schema.go, and what SQLite does with them.
use mulligan.Base.{ℕ, ◌<◌, Bool, true, false, Option, some, List, All, if◌then◌else◌}
use mulligan.Base.Int.{ℤ}
use mulligan.Base.Text.{Bytes}
use mulligan.Codec.Format.{CodecError}

pub record Txn : Type 0 where
  pub id : ℕ
  pub source_txn_id : Bytes
  pub committed_at : ℤ
  pub server_id : ℕ

pub record RowChange : Type 0 where
  pub id : ℕ
  pub txn_id : ℕ
  pub schema_name : Bytes
  pub table_name : Bytes
  pub op : ℕ
  pub log_file : Bytes
  pub log_pos : ℕ
  pub query : Option Bytes
  pub columns : Bytes
  pub before : Option Bytes
  pub after : Option Bytes

pub record GapRow : Type 0 where
  pub from_at : ℤ
  pub to_at : ℤ
  pub reason : Bytes

pub record MissRow : Type 0 where
  pub at : ℤ
  pub reason : Bytes

pub record CheckpointRow : Type 0 where
  pub log_file : Option Bytes
  pub log_pos : ℕ
  pub gtid : Option Bytes
  pub updated_at : ℤ

-- `Binding`: the one row of the table `source`.
pub record Binding : Type 0 where
  pub flavor : Bytes
  pub server_identity : Bytes
  pub gtid_dialect : Bytes
  pub decode_fingerprint : Bytes

-- The keys of the table `meta` that the collector writes.
pub data Key : Type 0 where
  coverage_from coverage_to max_staleness_seconds retention_seconds : Key

-- A value of `meta`: the decimal text of a number of 64 bits, or any other text.
pub data Text : Type 0 where
  number : ℤ → Text
  other : Bytes → Text

pub record Tables : Type 0 where
  pub txns : List Txn
  pub row_changes : List RowChange
  pub gaps : List GapRow
  pub misses : List MissRow
  pub checkpoint : Option CheckpointRow
  pub meta : Key → Option Text
  pub source : Option Binding

abbrev pub same_key : Key → Key → Bool
same_key coverage_from coverage_from = true
same_key coverage_to coverage_to = true
same_key max_staleness_seconds max_staleness_seconds = true
same_key retention_seconds retention_seconds = true
same_key _ _ = false

abbrev pub set_meta : Key → Text → (Key → Option Text) → Key → Option Text
set_meta k v meta j = if same_key j k then some v else meta j

-- What SQLite decides: the id that it gives a new row, above all ids of the table, and the integer
-- that CAST makes of a text that is no number.
pub record Sqlite : Type 0 where
  pub new_rowid : List ℕ → ℕ
  pub new_rowid_fresh : (ids : List ℕ) → All (λ i. i < new_rowid ids) ids
  pub cast_text : Bytes → ℤ

abbrev pub cast_integer : Sqlite → Text → ℤ
cast_integer sql (number z) = z
cast_integer sql (other t) = sql.cast_text t

-- One constructor for each message; `driver` is an error of the database driver.
pub data StoreError : Type 0 where
  driver no_coverage stale before_coverage beyond_coverage : StoreError
  overlaps_gap : GapRow → StoreError
  includes_miss : MissRow → StoreError
  not_a_number : Key → StoreError
  other_source : Bytes → Bytes → StoreError
  codec : CodecError → StoreError
  row : ℕ → CodecError → StoreError
