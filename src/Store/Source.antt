-- ===== src/Store/Source.antt =====
-- `Bind` of internal/store/store.go, and `Checkpoint` of internal/store/append.go.
use mulligan.Base.{◌%◌, ◌^◌, Option, none, some, List, [], ◌∷◌, Result, ok, err, if◌then◌else◌}
use mulligan.Base.Text.{Bytes, beq}
use mulligan.Base.Time.{unix, zero_time}
use mulligan.Change.{Checkpoint}
use mulligan.Store.Schema.{Binding, CheckpointRow, Tables, StoreError, other_source}
use mulligan.Store.Tx.{Tx, Faults, session, ◌>>=◌, give, from_result, query, exec, settle}
use mulligan.Store.Rows.{text_of}

-- `binding`
abbrev pub binding : Tx (Option Binding)
binding = query (λ t. t.source)

-- `writeBinding`
unfoldable pub write_binding : Binding → Tx (Unit {0})
write_binding b = exec (λ t. record t { source = some b })

-- The loop of `Bind`: the first field that differs.
unfoldable pub same_fields : List (Bytes × Bytes) → Result StoreError (Unit {0})
same_fields [] = ok tt
same_fields ((was, is_now) ∷ fields) =
    let rest = same_fields fields in if beq was is_now then rest else err (other_source was is_now)

unfoldable pub same_binding : Binding → Binding → Result StoreError (Unit {0})
same_binding stored b = same_fields (
    (stored.flavor, b.flavor)
    ∷ (stored.server_identity, b.server_identity)
    ∷ (stored.gtid_dialect, b.gtid_dialect)
    ∷ (stored.decode_fingerprint, b.decode_fingerprint)
    ∷ [])

unfoldable pub check_binding : Binding → Option Binding → Tx (Unit {0})
check_binding b none = write_binding b
check_binding b (some stored) = from_result (same_binding stored b)

-- `Bind`
unfoldable pub bind : Binding → Tables → Faults → Tables × Result StoreError (Unit {0})
bind b t fs = settle t ((do stored ← binding; check_binding b stored) (session t fs))

abbrev pub no_checkpoint : Checkpoint
no_checkpoint = record { log_file = []; log_pos = 0; gtid = []; updated_at = zero_time }

unfoldable pub read_checkpoint_row : Option CheckpointRow → Checkpoint
read_checkpoint_row none = no_checkpoint
read_checkpoint_row (some row) = record {
  log_file = text_of row.log_file;
  log_pos = row.log_pos % 2 ^ 32;
  gtid = text_of row.gtid;
  updated_at = unix row.updated_at;
}

-- `Checkpoint`
unfoldable pub checkpoint : Tables → Faults → Result StoreError Checkpoint
checkpoint t fs =
    (settle t
      ((do row ← query (λ u. u.checkpoint); give (read_checkpoint_row row)) (session t fs))).1
