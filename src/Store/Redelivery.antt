-- ===== src/Store/Redelivery.antt =====
-- What `AppendTransaction` of internal/store/append.go writes, and what a transaction that comes
-- again changes.
use mulligan.Base.{
  ℕ, ◌≡◌, refl, ap, sym, ◌∙◌, true, false, Option, none, some, List, [], ◌∷◌, ◌++◌, Result, ok, err,
  Result-cases, Bool-cases, inl, inr, arith, map,
}
use mulligan.Base.Int.{ℤ}
use mulligan.Base.Text.{Bytes, beq_self}
use mulligan.Change.{Transaction, Checkpoint}
use mulligan.Store.Schema.{Txn, Key, Tables, Sqlite, StoreError, coverage_to}
use mulligan.Store.Tx.{Faults, session, call, transact}
use mulligan.Store.Atomic.{append_transaction-Atomic}
use mulligan.Store.Rows.{EncodedRow, encode_events}
use mulligan.Store.Append.{
  seconds, has_source_id, insert_txn, put_row, insert_rows, insert_if_new, append_body,
  append_encoded, append_transaction, put_checkpoint, raise_to,
}

ok≢err : {e : StoreError} → ◌≡◌ {A = Result StoreError (Unit {0})} (ok tt) (err e) → ⊥
ok≢err h = cc

module _ (sql : Sqlite) where
  -- The effect of `insert_rows` where no call fails.
  unfoldable pub put_rows : ℕ → List EncodedRow → Tables → Tables
  put_rows txn_id [] t = t
  put_rows txn_id (r ∷ rows) t = put_rows txn_id rows (put_row sql txn_id r t)

  unfoldable pub put_if_new : Option ℕ → List EncodedRow → Tables → Tables
  put_if_new none rows t = t
  put_if_new (some id) rows t = put_rows id rows t

  -- The tables after a transaction is stored.
  unfoldable pub appended : Transaction → Checkpoint → List EncodedRow → Tables → Tables
  appended txn cp rows t =
      raise_to sql coverage_to (seconds txn.committed_at)
        (put_checkpoint cp (put_if_new (insert_txn sql txn t).0 rows (insert_txn sql txn t).1))

  insert_rows-put_rows :
      (id : ℕ) (rows : List EncodedRow) (t : Tables)
      → insert_rows sql id rows (session t []) ≡ ok (tt, session (put_rows id rows t) [])
  unfolding insert_rows put_rows call
  insert_rows-put_rows id [] t = refl
  insert_rows-put_rows id (r ∷ rows) t = insert_rows-put_rows id rows (put_row sql id r t)

  insert_if_new-put_if_new :
      (new : Option ℕ) (rows : List EncodedRow) (t : Tables)
      → insert_if_new sql new rows (session t []) ≡ ok (tt, session (put_if_new new rows t) [])
  unfolding insert_if_new put_if_new call insert_rows
  insert_if_new-put_if_new none rows t = refl
  insert_if_new-put_if_new (some id) rows t = insert_rows-put_rows id rows t

  pub append_transaction-appended :
      (txn : Transaction) (cp : Checkpoint) (t : Tables) {rows : List EncodedRow}
      → encode_events 0 txn.events ≡ ok rows
      → append_transaction sql txn cp t [] ≡ (appended txn cp rows t, ok tt)
  unfolding append_transaction append_encoded append_body transact appended call insert_if_new
      raise_to insert_txn put_checkpoint has_source_id put_if_new
  append_transaction-appended txn cp t {rows} h =
      rw (h, insert_if_new-put_if_new (insert_txn sql txn t).0 rows (insert_txn sql txn t).1) refl

  pub append_transaction-refused :
      (txn : Transaction) (cp : Checkpoint) (t : Tables) (fs : Faults) {e : StoreError}
      → encode_events 0 txn.events ≡ err e
      → append_transaction sql txn cp t fs ≡ (t, err e)
  unfolding append_transaction append_encoded
  append_transaction-refused txn cp t fs h = rw (h) refl

  put_rows-txns :
      (id : ℕ) (rows : List EncodedRow) (t : Tables) → (put_rows id rows t).txns ≡ t.txns
  unfolding put_rows put_row
  put_rows-txns id [] t = refl
  put_rows-txns id (r ∷ rows) t = put_rows-txns id rows (put_row sql id r t)

  put_if_new-txns :
      (new : Option ℕ) (rows : List EncodedRow) (t : Tables) → (put_if_new new rows t).txns ≡ t.txns
  unfolding put_if_new
  put_if_new-txns none rows t = refl
  put_if_new-txns (some id) rows t = put_rows-txns id rows t

  -- Raising a mark touches no row.
  pub raise_to-rows :
      (k : Key) (when : ℤ) (t : Tables)
      → ((raise_to sql k when t).txns ≡ t.txns)
        × ((raise_to sql k when t).row_changes ≡ t.row_changes)
  unfolding raise_to
  raise_to-rows k when t = ground arith

  appended-txns :
      (txn : Transaction) (cp : Checkpoint) (rows : List EncodedRow) (t : Tables)
      → (appended txn cp rows t).txns ≡ (insert_txn sql txn t).1.txns
  unfolding appended put_checkpoint
  appended-txns txn cp rows t =
      (raise_to-rows coverage_to (seconds txn.committed_at) _).0
      ∙ put_if_new-txns (insert_txn sql txn t).0 rows (insert_txn sql txn t).1

  has_source_id-append :
      (id : Bytes) (txns : List Txn) (t : Txn)
      → t.source_txn_id ≡ id
      → has_source_id id (txns ++ t ∷ []) ≡ true
  unfolding has_source_id
  has_source_id-append id [] t h = rw (h, beq_self id) refl
  has_source_id-append id (x ∷ txns) t h = ground (arith, has_source_id-append id txns t h)

  abbrev pub new_txn : Transaction → Tables → Txn
  new_txn txn t = record {
    id = sql.new_rowid (map (λ (x : Txn). x.id) t.txns);
    source_txn_id = txn.source_id;
    committed_at = seconds txn.committed_at;
    server_id = txn.server_id;
  }

  pub insert_txn-known :
      (txn : Transaction) (t : Tables)
      → has_source_id txn.source_id t.txns ≡ true
      → insert_txn sql txn t ≡ (none, t)
  unfolding insert_txn
  insert_txn-known txn t h = rw (h) refl

  pub insert_txn-new :
      (txn : Transaction) (t : Tables)
      → has_source_id txn.source_id t.txns ≡ false
      → insert_txn sql txn t
        ≡ (some (new_txn txn t).id, record t { txns = t.txns ++ new_txn txn t ∷ [] })
  unfolding insert_txn
  insert_txn-new txn t h = rw (h) refl

  insert_txn-has_source_id :
      (txn : Transaction) (t : Tables)
      → has_source_id txn.source_id (insert_txn sql txn t).1.txns ≡ true
  insert_txn-has_source_id txn t = elim (Bool-cases (has_source_id txn.source_id t.txns)) [
    | inl h ↦ rw (insert_txn-known txn t h) h
    | inr h ↦
        rw (insert_txn-new txn t h) (has_source_id-append txn.source_id t.txns (new_txn txn t) refl)
  ]

  -- A transaction whose source id is stored adds no row.
  appended-known :
      (txn : Transaction) (cp : Checkpoint) (rows : List EncodedRow) (t : Tables)
      → has_source_id txn.source_id t.txns ≡ true
      → ((appended txn cp rows t).txns ≡ t.txns)
        × ((appended txn cp rows t).row_changes ≡ t.row_changes)
  unfolding appended put_checkpoint put_if_new
  appended-known txn cp rows t h = rw (insert_txn-known txn t h) (raise_to-rows coverage_to _ _)

  append_transaction-known :
      (txn : Transaction) (cp : Checkpoint) (t : Tables) (fs : Faults)
      → has_source_id txn.source_id t.txns ≡ true
      → ((append_transaction sql txn cp t fs).0.txns ≡ t.txns)
        × ((append_transaction sql txn cp t fs).0.row_changes ≡ t.row_changes)
  append_transaction-known txn cp t fs h = elim (append_transaction-Atomic sql txn cp t fs) [
    | inl (e, p) ↦ rw (p) (refl, refl)
    | inr p ↦ rw (p) (elim (Result-cases (encode_events 0 txn.events)) [
      | inl (rows, q) ↦ rw (append_transaction-appended txn cp t q) (appended-known txn cp rows t h)
      | inr (e, q) ↦ rw (append_transaction-refused txn cp t [] q) (refl, refl)
    ])
  ]

  append_transaction-has_source_id :
      (txn : Transaction) (cp : Checkpoint) (t : Tables) (fs : Faults)
      → (append_transaction sql txn cp t fs).1 ≡ ok tt
      → has_source_id txn.source_id (append_transaction sql txn cp t fs).0.txns ≡ true
  append_transaction-has_source_id txn cp t fs h =
      elim (append_transaction-Atomic sql txn cp t fs) [
        | inl (e, p) ↦ absurd (ok≢err (sym h ∙ ap (λ x. x.1) p))
        | inr p ↦ elim (Result-cases (encode_events 0 txn.events)) [
          | inl (rows, q) ↦
              rw (p, append_transaction-appended txn cp t q, appended-txns txn cp rows t)
                (insert_txn-has_source_id txn t)
          | inr (e, q) ↦
              absurd (ok≢err (sym h ∙ ap (λ x. x.1) (p ∙ append_transaction-refused txn cp t [] q)))
        ]
      ]

  has_source_id-more :
      (id : Bytes) (txns more : List Txn)
      → has_source_id id txns ≡ true
      → has_source_id id (txns ++ more) ≡ true
  unfolding has_source_id
  has_source_id-more id [] more h = absurd (cc)
  has_source_id-more id (x ∷ txns) more h = ground (arith, has_source_id-more id txns more)

  insert_txn-keeps :
      (id : Bytes) (txn : Transaction) (t : Tables)
      → has_source_id id t.txns ≡ true
      → has_source_id id (insert_txn sql txn t).1.txns ≡ true
  insert_txn-keeps id txn t k = elim (Bool-cases (has_source_id txn.source_id t.txns)) [
    | inl h ↦ rw (insert_txn-known txn t h) k
    | inr h ↦ rw (insert_txn-new txn t h) (has_source_id-more id t.txns (new_txn txn t ∷ []) k)
  ]

  append_transaction-keeps :
      (id : Bytes) (txn : Transaction) (cp : Checkpoint) (t : Tables) (fs : Faults)
      → has_source_id id t.txns ≡ true
      → has_source_id id (append_transaction sql txn cp t fs).0.txns ≡ true
  append_transaction-keeps id txn cp t fs k = elim (append_transaction-Atomic sql txn cp t fs) [
    | inl (e, p) ↦ rw (p) k
    | inr p ↦ rw (p) (elim (Result-cases (encode_events 0 txn.events)) [
      | inl (rows, q) ↦
          rw (append_transaction-appended txn cp t q, appended-txns txn cp rows t)
            (insert_txn-keeps id txn t k)
      | inr (e, q) ↦ rw (append_transaction-refused txn cp t [] q) k
    ])
  ]

  -- The tables after transactions are delivered in order, each with its checkpoint and its faults.
  abbrev pub deliveries : List (Transaction × Checkpoint × Faults) → Tables → Tables
  deliveries [] t = t
  deliveries (d ∷ ds) t = deliveries ds (append_transaction sql d.0 d.1 t d.2).0

  deliveries-keeps :
      (id : Bytes) (ds : List (Transaction × Checkpoint × Faults)) (t : Tables)
      → has_source_id id t.txns ≡ true
      → has_source_id id (deliveries ds t).txns ≡ true
  deliveries-keeps id [] t k = k
  deliveries-keeps id (d ∷ ds) t k =
      deliveries-keeps id ds _ (append_transaction-keeps id d.0 d.1 t d.2 k)

  -- A transaction that was stored and is delivered again, behind whichever other deliveries, with any
  -- checkpoint and whichever calls fail then, adds no transaction and no change.
  pub append_transaction-twice :
      (txn : Transaction) (cp cp' : Checkpoint) (t : Tables) (fs fs' : Faults)
      (ds : List (Transaction × Checkpoint × Faults))
      → (append_transaction sql txn cp t fs).1 ≡ ok tt
      → ((append_transaction sql txn cp'
            (deliveries ds (append_transaction sql txn cp t fs).0)
            fs').0.txns
          ≡ (deliveries ds (append_transaction sql txn cp t fs).0).txns)
        × ((append_transaction sql txn cp'
              (deliveries ds (append_transaction sql txn cp t fs).0)
              fs').0.row_changes
            ≡ (deliveries ds (append_transaction sql txn cp t fs).0).row_changes)
  append_transaction-twice txn cp cp' t fs fs' ds h =
      append_transaction-known txn cp' _ fs'
        (deliveries-keeps txn.source_id ds _ (append_transaction-has_source_id txn cp t fs h))
