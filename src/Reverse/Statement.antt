-- ===== src/Reverse/Statement.antt =====
-- internal/reverse/reverse.go, validate.go and plan.go: the statement that undoes one event, and the
-- plan that undoes a sequence of them.
use mulligan.Base.{
  ℕ, zero, suc, ◌+◌, Bool, true, false, not, List, [], ◌∷◌, ◌++◌, ◌==◌, if◌then◌else◌, length,
  Result, ok, err, ◌>>=◌, ◌>>◌, guard, wrap,
}
use mulligan.Base.Strings.{double}
use mulligan.Base.Text.{Bytes, codes, join}
use mulligan.Change.{Op, Value, Column, Event, values, is_schema_change}
use mulligan.Reverse.Equality.{equal_value}
use mulligan.Reverse.Literal.{
  Formats, ReverseError, no_columns, bad_before, bad_after, unsupported_op, all_read_only,
  nothing_changed, nothing_to_insert, out_of_range, literal,
}

abbrev pub backtick : ℕ
backtick = b'`'

unfoldable pub quote_ident : Bytes → Bytes
quote_ident name = backtick ∷ (double backtick name ++ backtick ∷ [])

unfoldable pub qualify : Bytes → Bytes → Bytes
qualify schema table = quote_ident schema ++ b'.' ∷ quote_ident table

-- `row[i]`, which panics behind the end.
unfoldable pub at : {A : Type 0} → List A → ℕ → Result ReverseError A
at [] i = err out_of_range
at (x ∷ xs) zero = ok x
at (x ∷ xs) (suc i) = at xs i

-- `validate`
check_image : List Column → List Value → ReverseError → Result ReverseError (Unit {0})
check_image cols row e = guard (length row == length cols) e

unfoldable pub validate_op : Op → Event → Result ReverseError (Unit {0})
unfolding check_image
validate_op Op.insert ev = check_image ev.columns (values ev.after) bad_after
validate_op Op.update ev = do
  check_image ev.columns (values ev.before) bad_before
  check_image ev.columns (values ev.after) bad_after
validate_op Op.delete ev = check_image ev.columns (values ev.before) bad_before
validate_op op ev = err (unsupported_op op)

unfoldable pub validate : Event → Result ReverseError (Unit {0})
unfolding validate_op
validate ev = do guard (not (length ev.columns == 0)) no_columns; validate_op ev.op ev

-- `primaryKeyIndexes`, of columns that begin at index `i`.
unfoldable pub primary_key_indexes : ℕ → List Column → List ℕ
primary_key_indexes i [] = []
primary_key_indexes i (c ∷ cols) =
    let rest = primary_key_indexes (i + 1) cols in if c.primary_key then i ∷ rest else rest

-- 0, 1, …, one for each column.
unfoldable pub all_indexes : ℕ → List Column → List ℕ
all_indexes i [] = []
all_indexes i (c ∷ cols) = i ∷ all_indexes (i + 1) cols

unfoldable pub where_indexes : List Column → List ℕ
where_indexes cols = elim (primary_key_indexes 0 cols) [
  | [] ↦ all_indexes 0 cols
  | i ∷ idx ↦ i ∷ idx
]

-- What one round of the loop of `updateRow` does with a column.
pub data Round : Type 0 where
  unchanged computed : Round
  restored : Bytes → Round

abbrev pub add_round : Round → List Bytes × Bool → List Bytes × Bool
add_round unchanged rest = rest
add_round computed rest = (rest.0, true)
add_round (restored set) rest = (set ∷ rest.0, rest.1)

pub record Reversal : Type 0 where
  pub event : Event
  pub statement : Bytes

module _ (f : Formats) where
  -- One predicate: a comparison with NULL is written IS NULL.
  unfoldable pub predicate : Column → Value → Result ReverseError Bytes
  predicate c Value.null = ok (quote_ident c.name ++ codes " IS NULL")
  predicate c v = do lit ← literal f v; ok (quote_ident c.name ++ (codes " = " ++ lit))

  unfoldable pub predicates : List Column → List Value → List ℕ → Result ReverseError (List Bytes)
  predicates cols row [] = ok []
  predicates cols row (i ∷ idx) = do
    c ← at cols i
    v ← at row i
    p ← predicate c v
    preds ← predicates cols row idx
    ok (p ∷ preds)

  unfoldable pub where_clause : List Column → List Value → Result ReverseError Bytes
  where_clause cols row = do
    preds ← predicates cols row (where_indexes cols)
    ok (join (codes " AND ") preds)

  unfoldable pub delete_row : Event → Result ReverseError Bytes
  delete_row ev = do
    clause ← where_clause ev.columns (values ev.after)
    ok (
        codes "DELETE FROM "
        ++ (qualify ev.schema ev.table ++ (codes " WHERE " ++ (clause ++ codes " LIMIT 1;"))))

  -- One round of the loop of `updateRow`.
  unfoldable pub assign : Column → Value → Value → Result ReverseError Round
  assign c old new =
      if equal_value old new
      then ok unchanged
      else if c.read_only
      then ok computed
      else (do lit ← literal f old; ok (restored (quote_ident c.name ++ (codes " = " ++ lit))))

  -- The loop of `updateRow` from index `i` on: the assignments, and whether a read-only column was
  -- passed over.
  unfoldable pub assignments :
      ℕ → List Column → List Value → List Value → Result ReverseError (List Bytes × Bool)
  assignments i [] before after = ok ([], false)
  assignments i (c ∷ cols) before after = do
    old ← at before i
    new ← at after i
    round ← assign c old new
    rest ← assignments (i + 1) cols before after
    ok (add_round round rest)

  unfoldable pub update_row : Event → Result ReverseError Bytes
  update_row ev = do
    (sets, skipped) ← assignments 0 ev.columns (values ev.before) (values ev.after)
    guard (not (length sets == 0)) (if skipped then all_read_only else nothing_changed)
    clause ← where_clause ev.columns (values ev.after)
    ok (
        codes "UPDATE "
        ++ (qualify ev.schema ev.table
            ++ (codes " SET "
                ++ (join (codes ", ") sets ++ (codes " WHERE " ++ (clause ++ codes " LIMIT 1;"))))))

  -- The loop of `insertRow` from index `i` on: the names and the values.
  unfoldable pub insertions :
      ℕ → List Column → List Value → Result ReverseError (List Bytes × List Bytes)
  insertions i [] before = ok ([], [])
  insertions i (c ∷ cols) before =
      let rest : Result ReverseError (List Bytes × List Bytes) = insertions (i + 1) cols before in
      if c.read_only then rest else (do
        v ← at before i
        lit ← literal f v
        (names, vals) ← rest
        ok (quote_ident c.name ∷ names, lit ∷ vals))

  unfoldable pub insert_row : Event → Result ReverseError Bytes
  insert_row ev = do
    (names, vals) ← insertions 0 ev.columns (values ev.before)
    guard (not (length names == 0)) nothing_to_insert
    ok (
        codes "INSERT INTO "
        ++ (qualify ev.schema ev.table
            ++ (codes " ("
                ++ (join (codes ", ") names
                    ++ (codes ") VALUES (" ++ (join (codes ", ") vals ++ codes ");"))))))

  unfoldable pub by_op : Op → Event → Result ReverseError Bytes
  by_op Op.insert ev = delete_row ev
  by_op Op.update ev = update_row ev
  by_op Op.delete ev = insert_row ev
  by_op op ev = err (unsupported_op op)

  -- `Statement`
  unfoldable pub statement : Event → Result ReverseError Bytes
  unfolding by_op
  statement ev = do validate ev; by_op ev.op ev

  unfoldable pub plan_one : ℕ → Event → List Reversal → Result ReverseError (List Reversal)
  plan_one i ev out = if is_schema_change ev then ok out else (do
    stmt ← wrap (ReverseError.event i) (statement ev)
    ok (out ++ record { event = ev; statement = stmt } ∷ []))

  -- `Plan`. The loop counts down, so the events behind the first are done before it; `i` is the
  -- index of the first.
  unfoldable pub plan_from : ℕ → List Event → Result ReverseError (List Reversal)
  unfolding plan_one
  plan_from i [] = ok []
  plan_from i (ev ∷ events) = do out ← plan_from (i + 1) events; plan_one i ev out

  unfoldable pub plan : List Event → Result ReverseError (List Reversal)
  plan events = plan_from 0 events
