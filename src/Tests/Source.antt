-- ===== src/Tests/Source.antt =====
-- A binlog of three transactions and what the collector makes of it.
use mulligan.Base.{ℕ, ◌≡◌, refl, none, some, List, [], ◌∷◌, ◌*◌, Result}
use mulligan.Base.Int.{pos}
use mulligan.Base.Text.{Bytes, codes, has_prefix, contains}
use mulligan.Base.Time.{Time, second, unix}
use mulligan.Change.{Op, Event, Transaction}
use mulligan.Binlog.Event.{
  Header, BinlogEvent, event, query, rows, xid, gtid, payload, other_type, nil, cons,
}
use mulligan.Binlog.Read.Filtered.{everything}
use mulligan.Store.Source.{no_checkpoint}
use mulligan.Store.Schema.{StoreError}
use mulligan.Source.Assemble.{Assembler, HandleResult, nothing, advanced, statement_of, source_id}
use mulligan.Source.Log.{marks, ahead, transactions, unpacked_log}
use mulligan.Source.Marked.{place_of}
use mulligan.Source.Stream.{
  not_running, StreamError, Config, Loop, cancelled, fresh_assembler, read_loop,
}
use mulligan.Store.Coverage.{Coverage}
use mulligan.Change.Filter.{Filter}
use mulligan.Change.{Checkpoint}
use mulligan.Source.Journal.{recorded}
use mulligan.Source.Stored.{Store, store_sink}
use mulligan.Tests.Change.{ascii}
use mulligan.Tests.Binlog.{written, write_header, written_event}
use mulligan.Tests.Store.{sqlite, no_tables}
use mulligan.Binlog.Convert.{
  convert, op_for, table_of, skipped_columns, columns_of, mark_keys, rows_of, row_event, base_event,
  set_primary_key, normalize_row, normalize,
}
use mulligan.Change.Ddl.{is_ddl, has_any_prefix}

abbrev header : ℕ → Header
header p = record {
  timestamp = 100;
  event_type = other_type 2;
  server_id = 1;
  event_size = 40;
  log_pos = p;
}

abbrev statement : Bytes → BinlogEvent
statement text = event (header 500) (query (codes "shop") text none)

-- A compressed transaction, one that is rolled back, a schema change, and rows that nothing ends.
abbrev log : List BinlogEvent
log =
    event (header 4) (gtid (some (codes "a:1")))
    ∷ event (header 600) (
        payload (
          cons (statement (codes "BEGIN"))
            (cons (event write_header (rows written)) (cons (event (header 600) (xid none)) nil))))
    ∷ statement (codes "BEGIN")
    ∷ event write_header (rows written)
    ∷ statement (codes "ROLLBACK")
    ∷ statement (codes "DROP TABLE old")
    ∷ event write_header (rows written)
    ∷ []

abbrev clock : ℕ → Time
clock n = unix (pos 100)

abbrev message : {A : Type 0} → A → Bytes
message e = []

abbrev all_of : Config
all_of = record { collect = everything; gtid_dialect = []; generated = [] }

abbrev fresh : Assembler
fresh = fresh_assembler (codes "binlog.1")

-- Run, the log gives the committed rows and the schema change alone.
abbrev dropped : Event
dropped = record {
  schema = codes "shop";
  table = [];
  op = Op.schema_change;
  columns = [];
  before = none;
  after = none;
  log_file = codes "binlog.1";
  log_pos = 500;
  at = unix (pos 100);
  server_id = 1;
  query = codes "DROP TABLE old";
}

abbrev two_groups : List (List Event)
two_groups = (written_event ∷ []) ∷ (dropped ∷ []) ∷ []

log-two_groups :
    transactions [] (ahead (marks ascii clock (place_of fresh) (unpacked_log log))) ≡ two_groups
unfolding statement_of has_prefix convert op_for table_of skipped_columns columns_of mark_keys
    rows_of row_event base_event set_primary_key normalize_row is_ddl normalize contains
    has_any_prefix
log-two_groups = refl

abbrev txn_result : Transaction → HandleResult
txn_result txn = record nothing { txn = some txn }

abbrev log_results : List HandleResult
log_results =
    nothing
    ∷ txn_result (record {
      source_id = codes "a:1";
      committed_at = unix (pos 100);
      server_id = 1;
      events = written_event ∷ [];
    })
    ∷ nothing
    ∷ nothing
    ∷ advanced (unix (pos 100))
    ∷ txn_result (record {
      source_id = codes "binlog.1:500";
      committed_at = unix (pos 100);
      server_id = 1;
      events = dropped ∷ [];
    })
    ∷ nothing
    ∷ []

abbrev at_start : Loop
at_start = record { assembler = fresh; pending_gap = none }

abbrev store_at_start : Store
store_at_start = (no_tables, [])

abbrev collected : (Store × List (List Event)) × Result (StreamError StoreError) (Unit {0})
collected =
    read_loop (recorded (store_sink sqlite)) ascii message all_of clock no_checkpoint cancelled
      at_start log (store_at_start, [])

abbrev before_outage : Checkpoint
before_outage = record no_checkpoint { log_file = codes "binlog.1"; updated_at = unix (pos 50) }

abbrev resumed_at : BinlogEvent
resumed_at = event (header 4) (gtid (some (codes "a:1")))

abbrev outage_over : Store
outage_over = (
  record no_tables {
    gaps = record { from_at = pos 50; to_at = pos 100; reason = not_running } ∷ [];
  },
  [],
)

abbrev past_outage : Loop
past_outage = record { assembler = record fresh { gtid = codes "a:1" }; pending_gap = none }

abbrev since_50 : Coverage
since_50 = record {
  from = unix (pos 50);
  to = unix (pos 200);
  max_staleness = pos (300 * second);
  retention = pos 0;
}

abbrev behind_outage : Filter
behind_outage = record { tables = []; from = unix (pos 120); to = unix (pos 180) }
