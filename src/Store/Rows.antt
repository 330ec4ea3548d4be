-- ===== src/Store/Rows.antt =====
-- The row of a change: `encodeEvent`, `insertRow` and `eventRow.decode` of
-- internal/store/append.go.
use mulligan.Base.{
  ℕ, ◌+◌, ◌%◌, Bool, true, false, Option, none, some, List, [], ◌∷◌, Result, ok, ◌>>=◌, wrap, ◌==◌,
  if◌then◌else◌,
}
use mulligan.Base.Text.{Bytes}
use mulligan.Base.Time.{unix}
use mulligan.Change.{Op, Event, Image}
use mulligan.Codec.Format.{CodecError}
use mulligan.Codec.Encode.{encode_row, encode_columns}
use mulligan.Codec.Decode.{decode_row, decode_columns}
use mulligan.Store.Schema.{Txn, RowChange, StoreError}

-- `int(r.op)` and `change.Op(r.op)`, by way of uint8.
unfoldable pub op_code : Op → ℕ
op_code Op.insert = 1
op_code Op.update = 2
op_code Op.delete = 3
op_code Op.schema_change = 4
op_code (Op.other n) = n

unfoldable pub op_of : ℕ → Op
op_of n =
    let code = n % 256 in
    if code == 1
    then Op.insert
    else if code == 2
    then Op.update
    else if code == 3
    then Op.delete
    else if code == 4
    then Op.schema_change
    else Op.other code

pub record EncodedRow : Type 0 where
  pub schema : Bytes
  pub table : Bytes
  pub op : Op
  pub log_file : Bytes
  pub log_pos : ℕ
  pub query : Option Bytes
  pub columns : Bytes
  pub before : Bytes
  pub after : Bytes
  pub has_before : Bool
  pub has_after : Bool

-- An image is encoded unless it is nil.
unfoldable pub encode_image : Image → Result CodecError (Bytes × Bool)
encode_image none = ok ([], false)
encode_image (some row) = do b ← encode_row row; ok (b, true)

-- `sql.NullString{String: ev.Query, Valid: ev.Query != ""}`
abbrev pub null_string : Bytes → Option Bytes
null_string [] = none
null_string (c ∷ s) = some (c ∷ s)

unfoldable pub encode_event : Event → Result CodecError EncodedRow
encode_event ev = do
  columns ← encode_columns ev.columns
  (before, has_before) ← encode_image ev.before
  (after, has_after) ← encode_image ev.after
  ok (record {
    schema = ev.schema;
    table = ev.table;
    op = ev.op;
    log_file = ev.log_file;
    log_pos = ev.log_pos;
    query = null_string ev.query;
    columns = columns;
    before = before;
    after = after;
    has_before = has_before;
    has_after = has_after;
  })

-- The row that `insertRow` gives to SQLite, under the id that it gets.
unfoldable pub row_of : ℕ → ℕ → EncodedRow → RowChange
row_of id txn_id r = record {
  id = id;
  txn_id = txn_id;
  schema_name = r.schema;
  table_name = r.table;
  op = op_code r.op;
  log_file = r.log_file;
  log_pos = r.log_pos;
  query = r.query;
  columns = r.columns;
  before = if r.has_before then some r.before else none;
  after = if r.has_after then some r.after else none;
}

unfoldable pub decode_image : Option Bytes → Result CodecError Image
decode_image none = ok none
decode_image (some b) = do row ← decode_row b; ok (some row)

abbrev pub text_of : Option Bytes → Bytes
text_of none = []
text_of (some s) = s

-- `eventRow.decode`, of a row joined with its transaction.
unfoldable pub decode_event : Txn → RowChange → Result CodecError Event
decode_event t r = do
  columns ← decode_columns r.columns
  before ← decode_image r.before
  after ← decode_image r.after
  ok (record {
    schema = r.schema_name;
    table = r.table_name;
    op = op_of r.op;
    columns = columns;
    before = before;
    after = after;
    log_file = r.log_file;
    log_pos = r.log_pos;
    at = unix t.committed_at;
    server_id = t.server_id;
    query = text_of r.query;
  })

-- The first loop of `AppendTransaction`, from row `i` on.
unfoldable pub encode_events : ℕ → List Event → Result StoreError (List EncodedRow)
encode_events i [] = ok []
encode_events i (ev ∷ events) = do
  enc ← wrap (StoreError.row i) (encode_event ev)
  rows ← encode_events (i + 1) events
  ok (enc ∷ rows)
