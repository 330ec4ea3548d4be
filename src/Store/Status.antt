-- ===== src/Store/Status.antt =====
-- internal/store/status.go, integrity.go and lookup.go. What `PRAGMA integrity_check` answers is a
-- parameter.
use mulligan.Base.{
  ℕ, Bool, true, false, not, ◌||◌, ◌==◌, Option, none, some, List, [], ◌∷◌, ◌++◌, filter, length,
  ltb, if◌then◌else◌, Result, ok, err,
}
use mulligan.Base.Int.{ℤ, pos, ltb_ℤ}
use mulligan.Base.Text.{Bytes, beq}
use mulligan.Base.Time.{Time, Duration, is_zero, sub}
use mulligan.Store.Schema.{
  Txn, RowChange, GapRow, MissRow, CheckpointRow, Binding, Tables, StoreError,
}
use mulligan.Store.Tx.{Tx, Faults, session, settle, ◌>>=◌, give, query, from_result, read_only}
use mulligan.Store.Coverage.{Coverage, read_coverage}
use mulligan.Store.Read.{Stored, join, decode_stored, read_gaps, read_misses, Entry}
use mulligan.Store.Source.{binding}

pub data Problem : Type 0 where
  damaged : Bytes → Problem
  rowless : ℕ → Problem
  checkpoint_ahead : Problem

abbrev pub word_ok : Bytes
word_ok = b'o' ∷ b'k' ∷ []

unfoldable pub damage : List Bytes → List Problem
damage [] = []
damage (line ∷ lines) =
    let rest = damage lines in if beq line word_ok then rest else damaged line ∷ rest

unfoldable pub has_row : ℕ → List RowChange → Bool
has_row id [] = false
has_row id (r ∷ rows) = r.txn_id == id || has_row id rows

-- SELECT count(*) FROM txn WHERE id NOT IN (SELECT txn_id FROM row_change)
unfoldable pub count_rowless : Tables → ℕ
count_rowless t = length (filter (λ (x : Txn). not (has_row x.id t.row_changes)) t.txns)

unfoldable pub latest : ℤ → List Txn → ℤ
latest z [] = z
latest z (t ∷ txns) = latest (if ltb_ℤ z t.committed_at then t.committed_at else z) txns

-- updated_at > COALESCE((SELECT MAX(committed_at) FROM txn), updated_at)
unfoldable pub later_than_all : ℤ → List Txn → Bool
later_than_all z [] = false
later_than_all z (t ∷ txns) = ltb_ℤ (latest t.committed_at txns) z

unfoldable pub is_ahead : Option CheckpointRow → List Txn → Bool
is_ahead none txns = false
is_ahead (some cp) txns = later_than_all cp.updated_at txns

abbrev pub problem_if : Bool → Problem → List Problem
problem_if true p = p ∷ []
problem_if false p = []

-- `Integrity`
unfoldable pub integrity : List Bytes → Tx (List Problem)
integrity pragma = do
  lines ← query (λ t. pragma)
  count ← query count_rowless
  ahead ← query (λ t. is_ahead t.checkpoint t.txns)
  give (
      damage lines ++ problem_if (ltb 0 count) (rowless count) ++ problem_if ahead checkpoint_ahead)

pub record Report : Type 0 where
  pub coverage : Coverage
  pub stale : Duration
  pub gaps : List GapRow
  pub misses : List MissRow
  pub bound : Option Binding
  pub problems : List Problem

-- Why a store is not healthy.
pub data Verdict : Type 0 where
  healthy empty_store behind_source : Verdict
  unsound : Problem → Verdict

-- `Report.Verdict`
unfoldable pub verdict : Report → Verdict
verdict r = elim r.problems [
  | p ∷ ps ↦ unsound p
  | [] ↦
      if is_zero r.coverage.to
      then empty_store
      else if ltb_ℤ r.coverage.max_staleness r.stale
      then behind_source
      else healthy
]

unfoldable pub staleness : Time → Coverage → Duration
staleness now c = if is_zero c.to then pos 0 else sub now c.to

-- `Status`
unfoldable pub status : Time → List Bytes → Tables → Faults → Result StoreError Report
status now pragma t fs =
    read_only
      (do
        c ← read_coverage
        gaps ← read_gaps
        misses ← read_misses
        bound ← binding
        problems ← integrity pragma
        give (record {
          coverage = c;
          stale = staleness now c;
          gaps = gaps;
          misses = misses;
          bound = bound;
          problems = problems;
        }))
      t fs

unfoldable pub find_change : ℤ → List Stored → Option Stored
find_change id [] = none
find_change id (r ∷ rows) =
    let rest = find_change id rows in if is_row id r.row.id then some r else rest
  where
    is_row : ℤ → ℕ → Bool
    is_row (pos n) m = n == m
    is_row _ m = false

unfoldable pub decode_found : Option Stored → Result StoreError (Option Entry)
decode_found none = ok none
decode_found (some r) = elim (decode_stored r) [
  | ok ev ↦ ok (some (record { id = r.row.id; event = ev }))
  | err e ↦ err e
]

-- `Change`
unfoldable pub change : ℤ → Tables → Faults → Result StoreError (Option Entry)
change id t fs =
    (settle t (
      (do
        found ← query (λ u. find_change id (join u.txns u.row_changes))
        from_result (decode_found found))
        (session t fs))).1
