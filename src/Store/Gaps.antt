-- ===== src/Store/Gaps.antt =====
-- No write of the collector takes a gap out of the tables of internal/store.
use mulligan.Base.{
  ℕ, ◌≡◌, refl, ap, ◌∙◌, true, false, Option, none, some, List, [], ◌∷◌, ◌++◌, append_assoc, ok,
  All, Result-cases, inl, inr, arith,
}
use mathlib.Core.Path.{subst}
use mulligan.Base.Text.{Bytes}
use mulligan.Base.Time.{Time}
use mulligan.Change.{Transaction, Checkpoint}
use mulligan.Store.Schema.{Tables, Sqlite, GapRow, coverage_to}
use mulligan.Store.Tx.{Faults, call}
use mulligan.Store.Rows.{EncodedRow, encode_events}
use mulligan.Store.Append.{
  seconds, put_row, raise_to, insert_txn, put_checkpoint, append_transaction, record_gap,
  record_miss, advance_coverage,
}
use mulligan.Store.Atomic.{append_transaction-Atomic}
use mulligan.Store.Effects.{advance_coverage-Leaves}
use mulligan.Store.Redelivery.{
  put_rows, put_if_new, appended, append_transaction-appended, append_transaction-refused,
}

-- A gap is among others.
abbrev pub Has : GapRow → List GapRow → Type 0
Has g gaps = (front : List GapRow) × (back : List GapRow) × (gaps ≡ front ++ g ∷ back)

Has-more : (g : GapRow) (gaps more : List GapRow) → Has g gaps → Has g (gaps ++ more)
Has-more g gaps more (front, back, h) =
    (front, back ++ more, ap (λ l. l ++ more) h ∙ append_assoc front (g ∷ back) more)

pub All-Has :
    (P : GapRow → Type 0) (g : GapRow) (gaps : List GapRow) → All P gaps → Has g gaps → P g
All-Has P g gaps h (front, back, e) = middle front (subst (All P) e h)
  where
    middle : (front : List GapRow) → All P (front ++ g ∷ back) → P g
    middle [] h = h.0
    middle (x ∷ front) h = middle front h.1

-- The gap between two times.
abbrev pub gap_row : Time → Time → Bytes → GapRow
gap_row from to why = record { from_at = seconds from; to_at = seconds to; reason = why }

pub record_gap-gaps :
    (from to : Time) (why : Bytes) (t : Tables) (fs : Faults)
    → (record_gap from to why t fs).1 ≡ ok tt
    → (record_gap from to why t fs).0.gaps ≡ t.gaps ++ gap_row from to why ∷ []
unfolding record_gap call
record_gap-gaps from to why t [] h = refl
record_gap-gaps from to why t (true ∷ fs) h = absurd (cc)
record_gap-gaps from to why t (false ∷ fs) h = refl

pub record_gap-Has :
    (g : GapRow) (from to : Time) (why : Bytes) (t : Tables) (fs : Faults)
    → Has g t.gaps
    → Has g (record_gap from to why t fs).0.gaps
unfolding record_gap call
record_gap-Has g from to why t [] h = Has-more g t.gaps _ h
record_gap-Has g from to why t (true ∷ fs) h = h
record_gap-Has g from to why t (false ∷ fs) h = Has-more g t.gaps _ h

pub record_miss-gaps :
    (when : Time) (why : Bytes) (t : Tables) (fs : Faults)
    → (record_miss when why t fs).0.gaps ≡ t.gaps
unfolding record_miss call
record_miss-gaps when why t [] = refl
record_miss-gaps when why t (true ∷ fs) = refl
record_miss-gaps when why t (false ∷ fs) = refl

module _ (sql : Sqlite) where
  raise_to-gaps : (t : Tables) (to : Time) → (raise_to sql coverage_to (seconds to) t).gaps ≡ t.gaps
  unfolding raise_to
  raise_to-gaps t to = ground arith

  pub advance_coverage-gaps :
      (to : Time) (t : Tables) (fs : Faults) → (advance_coverage sql to t fs).0.gaps ≡ t.gaps
  advance_coverage-gaps to t fs = elim (advance_coverage-Leaves sql to t fs) [
    | inl e ↦ ap (λ x. x.gaps) e
    | inr e ↦ ap (λ x. x.gaps) e ∙ raise_to-gaps t to
  ]

  put_rows-gaps :
      (id : ℕ) (rows : List EncodedRow) (t : Tables) → (put_rows sql id rows t).gaps ≡ t.gaps
  unfolding put_rows put_row
  put_rows-gaps id [] t = refl
  put_rows-gaps id (r ∷ rows) t = put_rows-gaps id rows (put_row sql id r t)

  put_if_new-gaps :
      (new : Option ℕ) (rows : List EncodedRow) (t : Tables)
      → (put_if_new sql new rows t).gaps ≡ t.gaps
  unfolding put_if_new
  put_if_new-gaps none rows t = refl
  put_if_new-gaps (some id) rows t = put_rows-gaps id rows t

  insert_txn-gaps : (txn : Transaction) (t : Tables) → (insert_txn sql txn t).1.gaps ≡ t.gaps
  unfolding insert_txn
  insert_txn-gaps txn t = ground arith

  appended-gaps :
      (txn : Transaction) (cp : Checkpoint) (rows : List EncodedRow) (t : Tables)
      → (appended sql txn cp rows t).gaps ≡ t.gaps
  unfolding appended put_checkpoint
  appended-gaps txn cp rows t =
      raise_to-gaps _ txn.committed_at
      ∙ put_if_new-gaps (insert_txn sql txn t).0 rows (insert_txn sql txn t).1
      ∙ insert_txn-gaps txn t

  pub append_transaction-gaps :
      (txn : Transaction) (cp : Checkpoint) (t : Tables) (fs : Faults)
      → (append_transaction sql txn cp t fs).0.gaps ≡ t.gaps
  append_transaction-gaps txn cp t fs = elim (append_transaction-Atomic sql txn cp t fs) [
    | inl (e, p) ↦ rw (p) refl
    | inr p ↦ rw (p) (elim (Result-cases (encode_events 0 txn.events)) [
      | inl (rows, q) ↦
          rw (append_transaction-appended sql txn cp t q) (appended-gaps txn cp rows t)
      | inr (e, q) ↦ rw (append_transaction-refused sql txn cp t [] q) refl
    ])
  ]
