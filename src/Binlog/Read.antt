-- ===== src/Binlog/Read.antt =====
-- internal/binlog/read.go. `parse` is the library's parser: the events that it hands over of the file
-- at a path, and the error that it ends with, if any. `file_name` is `filepath.Base`.
pub mod Filtered
use mulligan.Base.{
  ℕ, ◌+◌, ◌%◌, ◌^◌, not, Option, none, some, List, [], ◌∷◌, ◌++◌, filter, ◌==◌, if◌then◌else◌,
  Result, ok, err, ◌>>=◌, ◌>>◌, wrap,
}
use mulligan.Base.Int.{pos}
use mulligan.Base.Text.{Bytes}
use mulligan.Base.Time.{unix}
use mulligan.Base.Unicode.{Unicode}
use mulligan.Change.{Op, Event}
use mulligan.Change.Filter.{Filter, match}
use mulligan.Change.Ddl.{is_ddl}
use mulligan.Binlog.Event.{Header, BinlogEvent, event, Body, query, rows, header_of}
use mulligan.Binlog.Convert.{ConvertError, convert}

abbrev pub binlog_header_size : ℕ
binlog_header_size = 4

-- `positionOf`
unfoldable pub position_of : Header → ℕ → ℕ
position_of hdr scanned_pos = if hdr.log_pos == 0 then scanned_pos else hdr.log_pos

abbrev pub schema_event : Bytes → Header → ℕ → Bytes → Bytes → Event
schema_event log_file hdr log_pos schema stmt = record {
  schema = schema;
  table = [];
  op = Op.schema_change;
  columns = [];
  before = none;
  after = none;
  log_file = log_file;
  log_pos = log_pos;
  at = unix (pos hdr.timestamp);
  server_id = hdr.server_id;
  query = stmt;
}

-- `pos += e.Header.EventSize` on 32 bits.
unfoldable pub next_pos : ℕ → Header → ℕ
next_pos scanned_pos hdr = (scanned_pos + hdr.event_size) % 2 ^ 32

pub data ReadError (P : Type 0) : Type 0 where
  parsing : P → ReadError P
  converting : ConvertError → ReadError P

abbrev pub ended : {P : Type 0} → Option P → Result (ReadError P) (Unit {0})
ended none = ok tt
ended (some e) = err (parsing e)

module _ (u : Unicode) where
  -- `eventsFrom`
  unfoldable pub events_from : Bytes → BinlogEvent → ℕ → Filter → Result ConvertError (List Event)
  events_from log_file (event hdr (query schema stmt gset)) scanned_pos f =
      let ev = schema_event log_file hdr (position_of hdr scanned_pos) schema stmt in
      if not (is_ddl u stmt)
      then ok []
      else if not (match u.equal_fold f ev)
      then ok []
      else ok (ev ∷ [])
  events_from log_file (event hdr (rows r)) scanned_pos f = do
    events ← convert log_file (record hdr { log_pos = position_of hdr scanned_pos }) r
    ok (filter (match u.equal_fold f) events)
  events_from log_file (event hdr body) scanned_pos f = ok []

  -- The callback of `ReadFile` on each event.
  unfoldable pub read_events :
      Bytes → Filter → ℕ → List BinlogEvent → Result ConvertError (List Event)
  read_events log_file f scanned_pos [] = ok []
  read_events log_file f scanned_pos (e ∷ es) = do
    events ← events_from log_file e (next_pos scanned_pos (header_of e)) f
    rest ← read_events log_file f (next_pos scanned_pos (header_of e)) es
    ok (events ++ rest)

  -- `ReadFile`
  unfoldable pub read_file :
      {P : Type 0} (parse : Bytes → List BinlogEvent × Option P) (file_name : Bytes → Bytes)
      → Bytes
      → Filter
      → Result (ReadError P) (List Event)
  read_file parse file_name path f = do
    out ← wrap converting (read_events (file_name path) f binlog_header_size ((parse path).0))
    ended ((parse path).1)
    ok out
