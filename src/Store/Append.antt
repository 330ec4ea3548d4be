-- ===== src/Store/Append.antt =====
-- The writes of internal/store/append.go and coverage.go: `AppendTransaction`, `AdvanceCoverage`,
-- `OpenCoverage`, `RecordGap` and `RecordMiss`.
use mulligan.Base.{
  ℕ, Bool, false, ◌||◌, Option, none, some, List, [], ◌∷◌, ◌++◌, map, if◌then◌else◌, Result, ok,
  err,
}
use mulligan.Base.Int.{ℤ, ltb_ℤ}
use mulligan.Base.Text.{Bytes, beq}
use mulligan.Base.Time.{Time, unix_seconds}
use mulligan.Change.{Transaction, Checkpoint}
use mulligan.Store.Rows.{EncodedRow, row_of, encode_events, null_string}
use mulligan.Store.Schema.{
  Txn, RowChange, Key, coverage_from, coverage_to, number, Tables, set_meta, Sqlite, cast_integer,
  StoreError,
}
use mulligan.Store.Tx.{Tx, Faults, ◌>>=◌, ◌>>◌, give, exec, call, transact}

-- `t.Unix()`
abbrev pub seconds : Time → ℤ
seconds t = unix_seconds t.instant

unfoldable pub has_source_id : Bytes → List Txn → Bool
has_source_id id [] = false
has_source_id id (t ∷ txns) = beq t.source_txn_id id || has_source_id id txns

-- INSERT INTO checkpoint … ON CONFLICT (id) DO UPDATE
unfoldable pub put_checkpoint : Checkpoint → Tables → Tables
put_checkpoint cp t = record t {
  checkpoint = some (record {
    log_file = null_string cp.log_file;
    log_pos = cp.log_pos;
    gtid = null_string cp.gtid;
    updated_at = seconds cp.updated_at;
  });
}

abbrev pub write_checkpoint : Checkpoint → Tx (Unit {0})
write_checkpoint cp = exec (put_checkpoint cp)

module _ (sql : Sqlite) where
  -- INSERT INTO txn … ON CONFLICT (source_txn_id) DO NOTHING: the id of the new row, if there is one.
  unfoldable pub insert_txn : Transaction → Tables → Option ℕ × Tables
  insert_txn txn t =
      let id = sql.new_rowid (map (λ (x : Txn). x.id) t.txns) in
      if has_source_id txn.source_id t.txns then (none, t) else (
        some id,
        record t {
          txns =
              t.txns
              ++ record {
                id = id;
                source_txn_id = txn.source_id;
                committed_at = seconds txn.committed_at;
                server_id = txn.server_id;
              }
                ∷ [];
        },
      )

  -- INSERT INTO row_change …
  unfoldable pub put_row : ℕ → EncodedRow → Tables → Tables
  put_row txn_id r t = record t {
    row_changes =
        t.row_changes
        ++ row_of (sql.new_rowid (map (λ (x : RowChange). x.id) t.row_changes)) txn_id r ∷ [];
  }

  unfoldable pub insert_rows : ℕ → List EncodedRow → Tx (Unit {0})
  insert_rows txn_id [] = give tt
  insert_rows txn_id (r ∷ rows) = do exec (put_row txn_id r); insert_rows txn_id rows

  -- INSERT INTO meta … ON CONFLICT (key) DO UPDATE SET value = … WHERE the new value is greater.
  unfoldable pub raise_to : Key → ℤ → Tables → Tables
  raise_to k when t = elim (t.meta k) [
    | none ↦ record t { meta = set_meta k (number when) t.meta }
    | some old ↦
        if ltb_ℤ (cast_integer sql old) when
        then record t { meta = set_meta k (number when) t.meta }
        else t
  ]

  abbrev pub advance_coverage_to : Time → Tx (Unit {0})
  advance_coverage_to when = exec (raise_to coverage_to (seconds when))

  -- `LastInsertId`, which is a call that may fail, and the rows.
  unfoldable pub insert_if_new : Option ℕ → List EncodedRow → Tx (Unit {0})
  insert_if_new none rows = give tt
  insert_if_new (some txn_id) rows = do exec (λ t. t); insert_rows txn_id rows

  -- What changes no table here is `RowsAffected`, which may fail.
  unfoldable pub append_body : Transaction → Checkpoint → List EncodedRow → Tx (Unit {0})
  append_body txn cp rows = do
    inserted ← call (insert_txn txn)
    exec (λ t. t)
    insert_if_new inserted rows
    write_checkpoint cp
    advance_coverage_to txn.committed_at

  unfoldable pub append_encoded :
      Transaction
      → Checkpoint
      → Result StoreError (List EncodedRow)
      → Tables
      → Faults
      → Tables × Result StoreError (Unit {0})
  append_encoded txn cp (ok rows) t fs = transact (append_body txn cp rows) t fs
  append_encoded txn cp (err e) t fs = (t, err e)

  -- `AppendTransaction`. The rows are encoded before the transaction begins.
  unfoldable pub append_transaction :
      Transaction → Checkpoint → Tables → Faults → Tables × Result StoreError (Unit {0})
  append_transaction txn cp t fs = append_encoded txn cp (encode_events 0 txn.events) t fs

  -- `AdvanceCoverage`
  unfoldable pub advance_coverage : Time → Tables → Faults → Tables × Result StoreError (Unit {0})
  advance_coverage to t fs = transact (advance_coverage_to to) t fs

-- One statement outside a transaction of the program's own.
abbrev pub single : (Tables → Tables) → Tables → Faults → Tables × Result StoreError (Unit {0})
single op t fs = elim (exec op (record { tables = t; faults = fs })) [
  | ok p ↦ (p.1.tables, ok p.0)
  | err e ↦ (t, err e)
]

-- `OpenCoverage`: INSERT INTO meta … ON CONFLICT (key) DO NOTHING
unfoldable pub put_new : Key → ℤ → Tables → Tables
put_new k when t = elim (t.meta k) [
  | none ↦ record t { meta = set_meta k (number when) t.meta }
  | some old ↦ t
]

unfoldable pub open_coverage : Time → Tables → Faults → Tables × Result StoreError (Unit {0})
open_coverage when t fs = single (put_new coverage_from (seconds when)) t fs

-- `RecordGap`
unfoldable pub record_gap :
    Time → Time → Bytes → Tables → Faults → Tables × Result StoreError (Unit {0})
record_gap from to reason t fs =
    single
      (λ u. record u {
        gaps =
            u.gaps ++ record { from_at = seconds from; to_at = seconds to; reason = reason } ∷ [];
      })
      t fs

-- `RecordMiss`
unfoldable pub record_miss : Time → Bytes → Tables → Faults → Tables × Result StoreError (Unit {0})
record_miss when reason t fs =
    single
      (λ u. record u { misses = u.misses ++ record { at = seconds when; reason = reason } ∷ [] }) t
      fs
