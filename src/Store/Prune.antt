-- ===== src/Store/Prune.antt =====
-- internal/store/prune.go.
use mulligan.Base.{
  ℕ, zero, suc, Bool, false, not, Option, none, some, List, [], ◌∷◌, Result, length, filter, ◌==◌,
  ◌||◌,
}
use mulligan.Base.Int.{ℤ, pos, negsuc, ltb_ℤ}
use mulligan.Base.Time.{Time, Duration, add}
use mulligan.Store.Schema.{
  Txn, RowChange, GapRow, MissRow, coverage_from, retention_seconds, max_staleness_seconds, Key,
  number, Tables, set_meta, Sqlite, StoreError,
}
use mulligan.Store.Tx.{Tx, Faults, ◌>>=◌, ◌>>◌, give, exec, call, session, settle}
use mulligan.Store.Append.{seconds, raise_to, single}
use mulligan.Store.Coverage.{meta_int, in_seconds}

-- INSERT INTO meta … ON CONFLICT (key) DO UPDATE SET value = excluded.value
unfoldable pub put_meta : Key → ℤ → Tables → Tables
put_meta k z t = record t { meta = set_meta k (number z) t.meta }

-- `int64(d.Seconds())` is a parameter.
unfoldable pub set_retention :
    (Duration → ℤ) → Duration → Tables → Faults → Tables × Result StoreError (Unit {0})
set_retention whole_seconds d t fs = single (put_meta retention_seconds (whole_seconds d)) t fs

unfoldable pub set_max_staleness :
    (Duration → ℤ) → Duration → Tables → Faults → Tables × Result StoreError (Unit {0})
set_max_staleness whole_seconds d t fs =
    single (put_meta max_staleness_seconds (whole_seconds d)) t fs

unfoldable pub has_txn : ℕ → List Txn → Bool
has_txn id [] = false
has_txn id (t ∷ txns) = t.id == id || has_txn id txns

abbrev pub kept_txns : ℤ → List Txn → List Txn
kept_txns edge txns = filter (λ (t : Txn). not (ltb_ℤ t.committed_at edge)) txns

-- DELETE FROM txn WHERE committed_at < ?, with ON DELETE CASCADE: the number of transactions
-- removed.
unfoldable pub delete_txns : ℤ → Tables → ℕ × Tables
delete_txns edge t =
    let kept = kept_txns edge t.txns in
    (
      length (filter (λ (x : Txn). ltb_ℤ x.committed_at edge) t.txns),
      record t {
        txns = kept;
        row_changes = filter (λ (r : RowChange). has_txn r.txn_id kept) t.row_changes;
      },
    )

-- DELETE FROM gap WHERE to_at < ?
unfoldable pub delete_gaps : ℤ → Tables → Tables
delete_gaps edge t = record t { gaps = filter (λ (g : GapRow). not (ltb_ℤ g.to_at edge)) t.gaps }

-- DELETE FROM miss WHERE at < ?
unfoldable pub delete_misses : ℤ → Tables → Tables
delete_misses edge t = record t {
  misses = filter (λ (m : MissRow). not (ltb_ℤ m.at edge)) t.misses;
}

module _ (sql : Sqlite) where
  -- The calls that change no table are `RowsAffected` and `Commit`.
  unfoldable pub prune_to : ℤ → Tx ℕ
  prune_to edge = do
    removed ← call (delete_txns edge)
    exec (λ t. t)
    exec (delete_gaps edge)
    exec (delete_misses edge)
    exec (raise_to sql coverage_from edge)
    exec (λ t. t)
    give removed

  -- No retention, or none above zero, keeps everything.
  unfoldable pub prune_with : Time → Option ℤ → Tx ℕ
  prune_with now none = give 0
  prune_with now (some (negsuc n)) = give 0
  prune_with now (some (pos zero)) = give 0
  prune_with now (some (pos (suc n))) = prune_to (seconds (add now (in_seconds (negsuc n))))

  -- `Prune`
  unfoldable pub prune : Time → Tables → Faults → Tables × Result StoreError ℕ
  prune now t fs = settle t (
      (do exec (λ u. u); retention ← meta_int retention_seconds; prune_with now retention)
        (session t fs))
