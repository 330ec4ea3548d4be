-- ===== src/Store/Read.antt =====
-- The reads of internal/store: `Events` and `EachEvent` of append.go, `Page` of page.go and `Change`
-- of lookup.go.
use mulligan.Base.{
  ℕ, zero, suc, Bool, true, false, ◌||◌, Option, none, some, List, [], ◌∷◌, ltb, ◌==◌,
  if◌then◌else◌, Result, ok, err, wrap,
}
use mulligan.Base.Int.{ℤ, pos, negsuc, ltb_ℤ}
use mulligan.Base.Sorting.{sort_by}
use mulligan.Base.Text.{Bytes}
use mulligan.Base.Time.{Time}
use mulligan.Change.{Event}
use mulligan.Change.Filter.{Filter, match}
use mulligan.Store.Schema.{Txn, RowChange, GapRow, MissRow, Tables, StoreError}
use mulligan.Store.Tx.{
  Tx, Session, session, Faults, ◌>>=◌, ◌>>◌, give, exec, query, from_result, read_only,
}
use mulligan.Store.Rows.{decode_event}
use mulligan.Store.Coverage.{read_coverage, check_coverage}

-- A row of the join of `row_change` and `txn`.
pub record Stored : Type 0 where
  pub txn : Txn
  pub row : RowChange

unfoldable pub find_txn : ℕ → List Txn → Option Txn
find_txn id [] = none
find_txn id (t ∷ txns) = if t.id == id then some t else find_txn id txns

abbrev pub join_row : Option Txn → RowChange → List Stored → List Stored
join_row none r rest = rest
join_row (some t) r rest = record { txn = t; row = r } ∷ rest

-- FROM row_change r JOIN txn t ON t.id = r.txn_id
unfoldable pub join : List Txn → List RowChange → List Stored
join txns [] = []
join txns (r ∷ rows) = join_row (find_txn r.txn_id txns) r (join txns rows)

abbrev pub older : Stored → Stored → Bool
older a b = ltb a.row.id b.row.id

abbrev pub newer : Stored → Stored → Bool
newer a b = older b a

unfoldable pub oldest_first : Tables → List Stored
oldest_first t = sort_by older (join t.txns t.row_changes)

unfoldable pub newest_first : Tables → List Stored
newest_first t = sort_by newer (join t.txns t.row_changes)

unfoldable pub decode_stored : Stored → Result StoreError Event
decode_stored r = wrap StoreError.codec (decode_event r.txn r.row)

-- `rows.Next()`: an error of the driver is what `rows.Err()` returns.
abbrev pub next : Tx (Unit {0})
next = exec (λ t. t)

-- `readGaps` and `readMisses`
abbrev pub read_gaps : Tx (List GapRow)
read_gaps = query (λ t. sort_by (λ (a b : GapRow). ltb_ℤ a.from_at b.from_at) t.gaps)

abbrev pub read_misses : Tx (List MissRow)
read_misses = query (λ t. sort_by (λ (a b : MissRow). ltb_ℤ a.at b.at) t.misses)

-- What every read of a window does first.
unfoldable pub admit : Filter → Time → Tx (Unit {0})
admit f now = do
  coverage ← read_coverage
  gaps ← read_gaps
  misses ← read_misses
  from_result (check_coverage coverage f now gaps misses)

unfoldable pub scan_event : Stored → Tx Event
scan_event r = do next; from_result (decode_stored r)

abbrev pub cons_if : {A : Type 0} → Bool → A → List A → List A
cons_if true x xs = x ∷ xs
cons_if false x xs = xs

unfoldable pub collect : (Event → Bool) → List Stored → Tx (List Event)
collect keep [] = do next; give []
collect keep (r ∷ rows) = do
  ev ← scan_event r
  rest ← collect keep rows
  give (cons_if (keep ev) ev rest)

-- The error that ends `EachEvent`: the store's, or the one that the visitor returns.
pub data VisitError (E : Type 0) : Type 0 where
  store : StoreError → VisitError E
  visitor : E → VisitError E

-- The loop of `EachEvent`. The visitor has a state, which it keeps when the loop ends in an error.
unfoldable pub each_row :
    {S E : Type 0}
    → (Event → Bool)
    → (Event → S → S × Result E (Unit {0}))
    → List Stored
    → Session
    → S
    → S × Result (VisitError E) (Unit {0})
each_row keep visit [] s st = elim (next s) [ ok p ↦ (st, ok tt) | err e ↦ (st, err (store e)) ]
each_row keep visit (r ∷ rows) s st = elim (scan_event r s) [
  | err e ↦ (st, err (store e))
  | ok p ↦ elim (keep p.0) [
    | false ↦ each_row keep visit rows p.1 st
    | true ↦ elim ((visit p.0 st).1) [
      | ok u ↦ each_row keep visit rows p.1 (visit p.0 st).0
      | err e ↦ ((visit p.0 st).0, err (visitor e))
    ]
  ]
]

pub record Entry : Type 0 where
  pub id : ℕ
  pub event : Event

-- The loop of `Page`, with the number of entries that there is still room for.
unfoldable pub page_rows : (Event → Bool) → ℕ → List Stored → Tx (List Entry)
page_rows keep room [] = do next; give []
page_rows keep zero (r ∷ rows) = do next; give []
page_rows keep (suc n) (r ∷ rows) = do
  ev ← scan_event r
  elim (keep ev) [
    | true ↦ do rest ← page_rows keep n rows; give (record { id = r.row.id; event = ev } ∷ rest)
    | false ↦ page_rows keep (suc n) rows
  ]

-- `DefaultPageSize` and `MaxPageSize`
unfoldable pub page_size : ℤ → ℕ
page_size (negsuc n) = 100
page_size (pos n) = if n == 0 then 100 else if ltb 1000 n then 1000 else n

-- WHERE (? = 0 OR r.id < ?)
unfoldable pub behind : ℤ → List Stored → List Stored
behind cursor [] = []
behind cursor (r ∷ rows) =
    let rest = behind cursor rows in
    if is_start cursor || ltb_ℤ (pos r.row.id) cursor then r ∷ rest else rest
  where
    is_start : ℤ → Bool
    is_start (pos n) = n == 0
    is_start (negsuc n) = false

module _ (equal_fold : Bytes → Bytes → Bool) where
  -- `Events`
  unfoldable pub events : Filter → Time → Tables → Faults → Result StoreError (List Event)
  events f now t fs =
      read_only (do admit f now; rows ← query oldest_first; collect (match equal_fold f) rows) t fs

  -- `EachEvent`
  unfoldable pub each_event :
      {S E : Type 0}
      → Filter
      → Time
      → (Event → S → S × Result E (Unit {0}))
      → Tables
      → Faults
      → S
      → S × Result (VisitError E) (Unit {0})
  each_event f now visit t fs st =
      elim ((do next; admit f now; query newest_first) (session t fs)) [
        | ok p ↦ each_row (match equal_fold f) visit p.0 p.1 st
        | err e ↦ (st, err (store e))
      ]

  -- `Page`
  unfoldable pub page : Filter → ℤ → ℤ → Time → Tables → Faults → Result StoreError (List Entry)
  page f cursor limit now t fs =
      read_only
        (do
          admit f now
          rows ← query (λ u. behind cursor (newest_first u))
          page_rows (match equal_fold f) (page_size limit) rows)
        t fs
