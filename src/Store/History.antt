-- ===== src/Store/History.antt =====
-- The history that the tables of internal/store hold, and what storing a transaction adds to it.
use mulligan.Base.{
  ℕ, ◌+◌, ◌≡◌, refl, sym, ap, ◌∙◌, true, false, ltb, Option, none, some, List, [], ◌∷◌, ◌++◌, map,
  All, append-nil, append_assoc, Result, ok, err, ◌>>=◌, wrap, >>=-eq-ok, arith,
}
use mulligan.Change.{Event, Transaction, Checkpoint}
use mulligan.Codec.Format.{CodecError}
use mulligan.Store.Schema.{Txn, RowChange, Tables, Sqlite, StoreError, coverage_to}
use mulligan.Store.Rows.{EncodedRow, encode_event, encode_events, row_of, decode_event}
use mulligan.Store.Append.{append_transaction, put_row, put_checkpoint, has_source_id}
use mulligan.Store.Prune.{has_txn}
use mulligan.Store.Read.{Stored, find_txn, join, join_row}
use mulligan.Store.Redelivery.{
  put_rows, put_if_new, appended, append_transaction-appended, insert_txn-new, raise_to-rows,
  new_txn,
}
use mulligan.Store.Wellformed.{Wellformed, Owned, fresh_id}
use mulligan.Store.Events.{EventFits, stored_event, decode_event-encode_event}

-- All stored changes, in the order of their ids.
unfoldable pub read_all : List Stored → Result CodecError (List Event)
read_all [] = ok []
read_all (r ∷ rows) = do ev ← decode_event r.txn r.row; rest ← read_all rows; ok (ev ∷ rest)

unfoldable pub history : Tables → Result CodecError (List Event)
history t = read_all (join t.txns t.row_changes)

read_all-append :
    (xs ys : List Stored) {a b : List Event}
    → read_all xs ≡ ok a
    → read_all ys ≡ ok b
    → read_all (xs ++ ys) ≡ ok (a ++ b)
unfolding read_all
read_all-append [] ys ha hb = ground (arith, hb)
read_all-append (x ∷ xs) ys ha hb =
    let (ev, e, h) = >>=-eq-ok (decode_event x.txn x.row) _ ha in
    let (rest, e', h') = >>=-eq-ok (read_all xs) _ h in
    rw (e, read_all-append xs ys e' hb) (ground arith)

join-append :
    (txns : List Txn) (xs ys : List RowChange) → join txns (xs ++ ys) ≡ join txns xs ++ join txns ys
unfolding join
join-append txns [] ys = refl
join-append txns (r ∷ xs) ys = go (join-append txns xs ys) (find_txn r.txn_id txns)
  where
    go :
        join txns (xs ++ ys) ≡ join txns xs ++ join txns ys
        → (found : Option Txn)
        → join_row found r (join txns (xs ++ ys)) ≡ join_row found r (join txns xs) ++ join txns ys
    go h none = h
    go h (some t) = ap (λ l. record { txn = t; row = r } ∷ l) h

find_txn-append :
    (id : ℕ) (txns : List Txn) (x : Txn)
    → has_txn id txns ≡ true
    → find_txn id (txns ++ x ∷ []) ≡ find_txn id txns
unfolding find_txn has_txn
find_txn-append id [] x h = absurd (cc)
find_txn-append id (t ∷ txns) x h = ground (arith, find_txn-append id txns x)

find_txn-last :
    (txns : List Txn) (x : Txn)
    → All (λ (t : Txn). ltb t.id x.id ≡ true) txns
    → find_txn x.id (txns ++ x ∷ []) ≡ some x
unfolding find_txn
find_txn-last [] x h = ground arith
find_txn-last (t ∷ txns) x (ht, h) = ground (arith, find_txn-last txns x h)

join-new_txn :
    (txns : List Txn) (x : Txn) (rows : List RowChange)
    → Owned txns rows
    → join (txns ++ x ∷ []) rows ≡ join txns rows
unfolding join
join-new_txn txns x [] h = refl
join-new_txn txns x (r ∷ rows) (hr, h) =
    rw (find_txn-append r.txn_id txns x hr, join-new_txn txns x rows h) refl

read_one :
    (txns : List Txn) (x : Txn) (row : RowChange) {ev : Event}
    → find_txn row.txn_id txns ≡ some x
    → decode_event x row ≡ ok ev
    → read_all (join txns (row ∷ [])) ≡ ok (ev ∷ [])
unfolding join read_all
read_one txns x row hx e = rw (hx, e) refl

ok-rows :
    {a b : List EncodedRow} → ◌≡◌ {A = Result StoreError (List EncodedRow)} (ok a) (ok b) → a ≡ b
ok-rows h = cc

wrap-ok :
    {A : Type 0} (f : CodecError → StoreError) (m : Result CodecError A) {a : A}
    → wrap f m ≡ ok a
    → m ≡ ok a
wrap-ok f (ok b) h = cc
wrap-ok f (err e) h = absurd (cc)

module _ (sql : Sqlite) where
  put_row-history :
      (id : ℕ) (r : EncodedRow) (t : Tables) (x : Txn) (ev : Event) {old : List Event}
      → find_txn id t.txns ≡ some x
      → EventFits ev
      → encode_event ev ≡ ok r
      → history t ≡ ok old
      → history (put_row sql id r t) ≡ ok (old ++ stored_event x ev ∷ [])
  unfolding history put_row row_of
  put_row-history id r t x ev hx hf he h =
      rw
        (join-append t.txns t.row_changes
          (row_of (sql.new_rowid (map (λ (y : RowChange). y.id) t.row_changes)) id r ∷ []))
        (read_all-append (join t.txns t.row_changes) _ h
          (read_one t.txns x _ hx (decode_event-encode_event ev x _ id hf he)))

  put_rows-history :
      (id i : ℕ) (rows : List EncodedRow) (t : Tables) (x : Txn) (events : List Event)
      {old : List Event}
      → find_txn id t.txns ≡ some x
      → All EventFits events
      → encode_events i events ≡ ok rows
      → history t ≡ ok old
      → history (put_rows sql id rows t) ≡ ok (old ++ map (stored_event x) events)
  unfolding put_rows encode_events put_row
  put_rows-history id i rows t x [] {old} hx hf he h = rw (sym (ok-rows he), append-nil old) h
  put_rows-history id i rows t x (ev ∷ events) {old} hx (hev, hf) he h =
      let (r, e, he') = >>=-eq-ok (wrap (StoreError.row i) (encode_event ev)) _ he in
      let (rest, e', q) = >>=-eq-ok (encode_events (i + 1) events) _ he' in
      let one =
        put_row-history id r t x ev hx hev (wrap-ok (StoreError.row i) (encode_event ev) e) h in
      rw (sym (ok-rows q)) (
        put_rows-history id (i + 1) rest (put_row sql id r t) x events hx hf e' one
        ∙ ap ok (append_assoc old (stored_event x ev ∷ []) (map (stored_event x) events)))

  -- Storing a transaction that is new appends its changes, each as the store gives changes back, to
  -- the history, and keeps the history that was there; the tables are well formed, the codec accepts
  -- the changes, their fields hold what Go's types can hold, and no call of the driver fails.
  pub append_transaction-history :
      (txn : Transaction) (cp : Checkpoint) (t : Tables) {rows : List EncodedRow} {old : List Event}
      → Wellformed t
      → has_source_id txn.source_id t.txns ≡ false
      → All EventFits txn.events
      → encode_events 0 txn.events ≡ ok rows
      → history t ≡ ok old
      → history (append_transaction sql txn cp t []).0
        ≡ ok (old ++ map (stored_event (new_txn sql txn t)) txn.events)
  unfolding history appended put_checkpoint put_if_new
  append_transaction-history txn cp t {rows} {old} (ht, hr, ho, hd) hn hf he h =
      let x = new_txn sql txn t in
      let u = record t { txns = t.txns ++ x ∷ [] } in
      let kept : history u ≡ ok old = rw (join-new_txn t.txns x t.row_changes ho) h in
      let found = find_txn-last t.txns x (fresh_id sql (λ (y : Txn). y.id) t.txns) in
      let added = put_rows-history x.id 0 rows u x txn.events found hf he kept in
      rw (append_transaction-appended sql txn cp t he) (
        rw ((raise_to-rows sql coverage_to _ _).0, (raise_to-rows sql coverage_to _ _).1)
          (rw (insert_txn-new sql txn t hn) added))
