-- ===== src/Binlog/Event.antt =====
-- The events that the replication library decodes, with the fields that the program reads.
use mulligan.Base.{ℕ, Option, List}
use mulligan.Base.Text.{Bytes}
use mulligan.Change.{Value}

pub data EventType : Type 0 where
  write_rows_v0 write_rows_v1 write_rows_v2 mariadb_write_rows_compressed : EventType
  update_rows_v0 update_rows_v1 update_rows_v2 mariadb_update_rows_compressed : EventType
  delete_rows_v0 delete_rows_v1 delete_rows_v2 mariadb_delete_rows_compressed : EventType
  partial_update_rows anonymous_gtid xa_prepare : EventType
  other_type : ℕ → EventType

pub record Header : Type 0 where
  pub timestamp : ℕ
  pub event_type : EventType
  pub server_id : ℕ
  pub event_size : ℕ
  pub log_pos : ℕ

-- A decoded column: a value of a basic Go type, or a decimal, or a pointer to one that may be nil.
-- A decimal is held by its own text.
pub data RowValue : Type 0 where
  plain : Value → RowValue
  decimal : Bytes → RowValue
  decimal_pointer : Option Bytes → RowValue

pub record TableMap : Type 0 where
  pub schema : Bytes
  pub table : Bytes
  pub column_count : ℕ
  pub column_names : List Bytes
  pub primary_key : List ℕ

-- `skipped_columns` has a list for each row image.
pub record RowsEvent : Type 0 where
  pub table : Option TableMap
  pub rows : List (List RowValue)
  pub skipped_columns : List (List ℕ)

-- The result of `GTIDNext` is part of its event, and so is the GTID set that the library adds to an
-- event that commits. `untyped` is any event of another Go type.
mutual
  pub data BinlogEvent : Type 0 where
    event : Header → Body → BinlogEvent

  pub data Body : Type 0 where
    rotate rows_query annotate_rows : Bytes → Body
    gtid : Option Bytes → Body
    mariadb_gtid : Bytes → Body
    rows : RowsEvent → Body
    xid : Option Bytes → Body
    payload : Events → Body
    query : Bytes → Bytes → Option Bytes → Body
    untyped : Body

  pub data Events : Type 0 where
    nil : Events
    cons : BinlogEvent → Events → Events

abbrev pub header_of : BinlogEvent → Header
header_of (event h b) = h

abbrev pub body_of : BinlogEvent → Body
body_of (event h b) = b
