-- ===== src/Tests/Binlog.antt =====
-- Rows events and a file of a binlog, at concrete values.
use mulligan.Base.{
  ◌≡◌, refl, true, false, Option, none, some, List, [], ◌∷◌, map, filter, ok, All, arith,
}
use mulligan.Base.Int.{pos}
use mulligan.Base.Text.{Bytes, codes}
use mulligan.Base.Time.{unix}
use mulligan.Change.{Op, Value, Event}
use mulligan.Change.Filter.{Filter, match}
use mulligan.Reverse.Statement.{validate}
use mulligan.Binlog.Event.{
  write_rows_v2, other_type, Header, plain, decimal, TableMap, RowsEvent, BinlogEvent, event, query,
  rows,
}
use mulligan.Binlog.Convert.{
  convert, columns_of, normalize_row, op_for, table_of, skipped_columns, mark_keys, rows_of,
  row_event, base_event, set_primary_key, normalize,
}
use mulligan.Binlog.Images.{images_of, IsFrom, HasImages, convert-Images}
use mulligan.Binlog.Valid.{convert-validate}
use mulligan.Binlog.Read.{read_file}
use mulligan.Binlog.Read.Filtered.{everything, on_ok, read_file-filtered}
use mulligan.Tests.Change.{ascii}

abbrev pub orders : TableMap
orders = record {
  schema = codes "shop";
  table = codes "orders";
  column_count = 2;
  column_names = codes "id" ∷ codes "price" ∷ [];
  primary_key = 0 ∷ [];
}

abbrev pub written : RowsEvent
written = record {
  table = some orders;
  rows = (plain (Value.int32 (pos 1)) ∷ decimal (codes "1.50") ∷ []) ∷ [];
  skipped_columns = [] ∷ [];
}

abbrev pub write_header : Header
write_header = record {
  timestamp = 100;
  event_type = write_rows_v2;
  server_id = 1;
  event_size = 40;
  log_pos = 546;
}

abbrev pub written_event : Event
written_event = record {
  schema = codes "shop";
  table = codes "orders";
  op = Op.insert;
  columns =
      record { name = codes "id"; primary_key = true; read_only = false }
      ∷ record { name = codes "price"; primary_key = false; read_only = false }
      ∷ [];
  before = none;
  after = some (Value.int32 (pos 1) ∷ Value.raw (codes "1.50") ∷ []);
  log_file = codes "binlog.1";
  log_pos = 546;
  at = unix (pos 100);
  server_id = 1;
  query = [];
}

pub convert-written : convert (codes "binlog.1") write_header written ≡ ok (written_event ∷ [])
unfolding convert op_for table_of skipped_columns columns_of mark_keys rows_of row_event base_event
    normalize_row set_primary_key normalize
convert-written = refl

convert-Images_example :
    (tm : TableMap) × (some orders ≡ some tm)
    × (images_of (written_event ∷ []) ≡ map normalize_row written.rows)
    × All
        (λ ev.
          IsFrom (codes "binlog.1") write_header tm ev
          × HasImages ev.op ev
          × (columns_of tm ≡ ok ev.columns))
        (written_event ∷ [])
convert-Images_example = convert-Images (codes "binlog.1") write_header written convert-written

convert-validate_example : All (λ ev. validate ev ≡ ok tt) (written_event ∷ [])
convert-validate_example =
    convert-validate (codes "binlog.1") write_header written orders refl (omega arith) (refl, tt)
      convert-written

abbrev logged : List BinlogEvent
logged =
    event (record write_header { event_type = other_type 2; log_pos = 0 })
      (query (codes "shop") (codes "ALTER TABLE orders ADD total INT") none)
    ∷ event write_header (rows written)
    ∷ []

abbrev parse_logged : Bytes → List BinlogEvent × Option Bytes
parse_logged path = (logged, none)

abbrev of_orders : Filter
of_orders = record everything { tables = codes "orders" ∷ [] }

read_file-filtered_example :
    read_file ascii parse_logged (λ path. path) (codes "binlog.1") of_orders
    ≡ on_ok
        (filter (match ascii.equal_fold of_orders))
        (read_file ascii parse_logged (λ path. path) (codes "binlog.1") everything)
read_file-filtered_example =
    read_file-filtered ascii parse_logged (λ path. path) (codes "binlog.1") of_orders
