-- ===== src/Store/Atomic.antt =====
-- The writes of internal/store/append.go and prune.go are all or nothing, whichever call of the
-- driver fails.
use mulligan.Base.{
  ℕ, zero, suc, ◌≡◌, refl, Option, none, some, List, [], ◌∷◌, Result, ok, err, inl, ◌⊎◌,
}
use mulligan.Base.Int.{ℤ, pos, negsuc}
use mulligan.Base.Time.{Time}
use mulligan.Change.{Transaction, Checkpoint}
use mulligan.Store.Schema.{
  Key, Text, number, other, Tables, Sqlite, StoreError, retention_seconds, coverage_from,
}
use mulligan.Store.Tx.{
  Faults, Steady, ◌>>=◌, ◌>>◌, give, exec, call, query, give-Steady, fail-Steady, call-Steady,
  >>=-Steady, >>-Steady, transact-cases, settle-cases,
}
use mulligan.Store.Rows.{EncodedRow, encode_events}
use mulligan.Store.Append.{
  insert_txn, put_row, insert_rows, insert_if_new, append_body, append_encoded, append_transaction,
  write_checkpoint, advance_coverage_to, raise_to,
}
use mulligan.Store.Coverage.{parse_meta, meta_int}
use mulligan.Store.Prune.{delete_txns, delete_gaps, delete_misses, prune_to, prune_with, prune}

module _ (sql : Sqlite) where
  insert_rows-Steady : (id : ℕ) (rows : List EncodedRow) → Steady (insert_rows sql id rows)
  unfolding insert_rows
  insert_rows-Steady id [] = give-Steady tt
  insert_rows-Steady id (r ∷ rows) =
      >>-Steady (exec (put_row sql id r)) (insert_rows sql id rows) (call-Steady _)
        (insert_rows-Steady id rows)

  insert_if_new-Steady :
      (new : Option ℕ) (rows : List EncodedRow) → Steady (insert_if_new sql new rows)
  unfolding insert_if_new
  insert_if_new-Steady none rows = give-Steady tt
  insert_if_new-Steady (some id) rows =
      >>-Steady (exec (λ t. t)) (insert_rows sql id rows) (call-Steady _)
        (insert_rows-Steady id rows)

  append_body-Steady :
      (txn : Transaction) (cp : Checkpoint) (rows : List EncodedRow)
      → Steady (append_body sql txn cp rows)
  unfolding append_body
  append_body-Steady txn cp rows = >>=-Steady (call (insert_txn sql txn)) _ (call-Steady _) λ new.
      >>-Steady (exec (λ t. t)) _ (call-Steady _) (
        >>-Steady (insert_if_new sql new rows) _ (insert_if_new-Steady new rows) (
          >>-Steady (write_checkpoint cp) (advance_coverage_to sql txn.committed_at) (call-Steady _)
            (call-Steady _)))

  append_encoded-Atomic :
      (txn : Transaction) (cp : Checkpoint) (r : Result StoreError (List EncodedRow)) (t : Tables)
      (fs : Faults)
      → ((e : StoreError) × (append_encoded sql txn cp r t fs ≡ (t, err e)))
        ⊎ (append_encoded sql txn cp r t fs ≡ append_encoded sql txn cp r t [])
  unfolding append_encoded
  append_encoded-Atomic txn cp (ok rows) t fs =
      transact-cases (append_body sql txn cp rows) t fs (append_body-Steady txn cp rows)
  append_encoded-Atomic txn cp (err e) t fs = inl (e, refl)

  -- Whichever calls of the driver fail, storing a transaction fails and leaves all tables as they
  -- were, or does exactly what it does when no call fails.
  pub append_transaction-Atomic :
      (txn : Transaction) (cp : Checkpoint) (t : Tables) (fs : Faults)
      → ((e : StoreError) × (append_transaction sql txn cp t fs ≡ (t, err e)))
        ⊎ (append_transaction sql txn cp t fs ≡ append_transaction sql txn cp t [])
  unfolding append_transaction
  append_transaction-Atomic txn cp t fs =
      append_encoded-Atomic txn cp (encode_events 0 txn.events) t fs

  prune_to-Steady : (edge : ℤ) → Steady (prune_to sql edge)
  unfolding prune_to
  prune_to-Steady edge = >>=-Steady (call (delete_txns edge)) _ (call-Steady _) λ removed.
      >>-Steady (exec (λ t. t)) _ (call-Steady _) (
        >>-Steady (exec (delete_gaps edge)) _ (call-Steady _) (
          >>-Steady (exec (delete_misses edge)) _ (call-Steady _) (
            >>-Steady (exec (raise_to sql coverage_from edge)) _ (call-Steady _)
              (>>-Steady (exec (λ t. t)) (give removed) (call-Steady _) (give-Steady removed)))))

  prune_with-Steady : (now : Time) (retention : Option ℤ) → Steady (prune_with sql now retention)
  unfolding prune_with
  prune_with-Steady now none = give-Steady 0
  prune_with-Steady now (some (negsuc n)) = give-Steady 0
  prune_with-Steady now (some (pos zero)) = give-Steady 0
  prune_with-Steady now (some (pos (suc n))) = prune_to-Steady _

  parse_meta-Steady : (k : Key) (raw : Option Text) → Steady (parse_meta k raw)
  unfolding parse_meta
  parse_meta-Steady k none = give-Steady _
  parse_meta-Steady k (some (number n)) = give-Steady _
  parse_meta-Steady k (some (other s)) = fail-Steady _

  meta_int-Steady : (k : Key) → Steady (meta_int k)
  unfolding meta_int
  meta_int-Steady k = >>=-Steady (query _) (parse_meta k) (call-Steady _) (parse_meta-Steady k)

  -- Whichever calls of the driver fail, pruning fails and leaves all tables as they were, or does
  -- exactly what it does when no call fails.
  pub prune-Atomic :
      (now : Time) (t : Tables) (fs : Faults)
      → ((e : StoreError) × (prune sql now t fs ≡ (t, err e)))
        ⊎ (prune sql now t fs ≡ prune sql now t [])
  unfolding prune
  prune-Atomic now t fs =
      settle-cases
        (do exec (λ u. u); retention ← meta_int retention_seconds; prune_with sql now retention) t
        fs
        (>>-Steady (exec (λ u. u)) _ (call-Steady _) (
          >>=-Steady (meta_int retention_seconds) (prune_with sql now) (meta_int-Steady _)
            (prune_with-Steady now)))
