-- ===== src/Binlog/Convert.antt =====
-- internal/binlog/convert.go.
use mulligan.Base.{
  ℕ, zero, suc, ◌%◌, Bool, true, false, not, Option, none, some, List, [], ◌∷◌, map, length, ◌==◌,
  ltb, Result, ok, err, ◌>>=◌, guard, ◌>>◌,
}
use mulligan.Base.Int.{pos}
use mulligan.Base.Text.{Bytes}
use mulligan.Base.Time.{unix}
use mulligan.Change.{Op, Value, Column, Event}
use mulligan.Binlog.Event.{
  EventType, write_rows_v0, write_rows_v1, write_rows_v2, mariadb_write_rows_compressed,
  update_rows_v0, update_rows_v1, update_rows_v2, mariadb_update_rows_compressed, delete_rows_v0,
  delete_rows_v1, delete_rows_v2, mariadb_delete_rows_compressed, partial_update_rows, Header,
  RowValue, plain, decimal, decimal_pointer, TableMap, RowsEvent,
}

-- One constructor for each message.
pub data ConvertError : Type 0 where
  not_rows : EventType → ConvertError
  partial_json no_table_map partial_image no_column_names : ConvertError
  odd_images : ℕ → ConvertError
  bad_key_column : ℕ → ConvertError

-- `opFor`
unfoldable pub op_for : EventType → Result ConvertError Op
op_for write_rows_v0 = ok Op.insert
op_for write_rows_v1 = ok Op.insert
op_for write_rows_v2 = ok Op.insert
op_for mariadb_write_rows_compressed = ok Op.insert
op_for update_rows_v0 = ok Op.update
op_for update_rows_v1 = ok Op.update
op_for update_rows_v2 = ok Op.update
op_for mariadb_update_rows_compressed = ok Op.update
op_for partial_update_rows = err partial_json
op_for delete_rows_v0 = ok Op.delete
op_for delete_rows_v1 = ok Op.delete
op_for delete_rows_v2 = ok Op.delete
op_for mariadb_delete_rows_compressed = ok Op.delete
op_for t = err (not_rows t)

-- `skippedColumns`
unfoldable pub skipped_columns : List (List ℕ) → Bool
skipped_columns [] = false
skipped_columns ((i ∷ skipped) ∷ rows) = true
skipped_columns ([] ∷ rows) = skipped_columns rows

-- `cols[i].PrimaryKey = true`
unfoldable pub set_primary_key : List Column → ℕ → List Column
set_primary_key [] i = []
set_primary_key (c ∷ cols) zero = record c { primary_key = true } ∷ cols
set_primary_key (c ∷ cols) (suc i) = c ∷ set_primary_key cols i

-- The second loop of `columnsOf`.
unfoldable pub mark_keys : List Column → List ℕ → Result ConvertError (List Column)
mark_keys cols [] = ok cols
mark_keys cols (i ∷ key) = do
  guard (ltb i (length cols)) (bad_key_column i)
  mark_keys (set_primary_key cols i) key

abbrev pub named_column : Bytes → Column
named_column name = record { name = name; primary_key = false; read_only = false }

-- `columnsOf`
unfoldable pub columns_of : TableMap → Result ConvertError (List Column)
columns_of tm = do
  guard (length tm.column_names == tm.column_count) no_column_names
  mark_keys (map named_column tm.column_names) tm.primary_key

-- `normalize`
unfoldable pub normalize : RowValue → Value
normalize (plain v) = v
normalize (decimal text) = Value.raw text
normalize (decimal_pointer none) = Value.null
normalize (decimal_pointer (some text)) = Value.raw text

-- `normalizeRow`
unfoldable pub normalize_row : List RowValue → List Value
normalize_row [] = []
normalize_row (v ∷ row) = normalize v ∷ normalize_row row

unfoldable pub base_event : Bytes → Header → TableMap → Op → List Column → Event
base_event log_file hdr tm op cols = record {
  schema = tm.schema;
  table = tm.table;
  op = op;
  columns = cols;
  before = none;
  after = none;
  log_file = log_file;
  log_pos = hdr.log_pos;
  at = unix (pos hdr.timestamp);
  server_id = hdr.server_id;
  query = [];
}

-- The loop over the images of an update, two by two. Their number is even where it is called.
unfoldable pub update_events : Event → List (List RowValue) → List Event
update_events base [] = []
update_events base (before ∷ []) = []
update_events base (before ∷ (after ∷ rows)) =
    record base { before = some (normalize_row before); after = some (normalize_row after) }
    ∷ update_events base rows

unfoldable pub row_event : Event → Op → List RowValue → Event
row_event base Op.insert row = record base { after = some (normalize_row row) }
row_event base op row = record base { before = some (normalize_row row) }

unfoldable pub rows_of : Event → Op → List (List RowValue) → Result ConvertError (List Event)
rows_of base Op.update rows = do
  guard (length rows % 2 == 0) (odd_images (length rows))
  ok (update_events base rows)
rows_of base op rows = ok (map (row_event base op) rows)

unfoldable pub table_of : Option TableMap → Result ConvertError TableMap
table_of none = err no_table_map
table_of (some tm) = ok tm

-- `Convert`
unfoldable pub convert : Bytes → Header → RowsEvent → Result ConvertError (List Event)
convert log_file hdr rows = do
  op ← op_for hdr.event_type
  tm ← table_of rows.table
  guard (not (skipped_columns rows.skipped_columns)) partial_image
  cols ← columns_of tm
  rows_of (base_event log_file hdr tm op cols) op rows.rows
