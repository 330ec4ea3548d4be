-- ===== src/Reverse/Bounds.antt =====
-- The engine never indexes behind the end of a row image: `validate` rules it out.
use mulligan.Base.{
  ℕ, zero, suc, ◌+◌, ◌<◌, ◌≡◌, ◌≢◌, refl, Bool, true, false, not, List, [], ◌∷◌, All, length, arith,
  Result, ok, err, ◌>>=◌, ◌>>◌, guard, ◌==◌, Bool-cases, inl, inr, if◌then◌else◌,
}
use mulligan.Change.{Op, Value, Column, Event, values}
use mulligan.Reverse.Equality.{equal_value}
use mulligan.Reverse.Literal.{Formats, ReverseError, out_of_range, literal}
use mulligan.Reverse.Statement.{
  at, primary_key_indexes, all_indexes, where_indexes, predicate, predicates, where_clause,
  delete_row, assign, assignments, update_row, insertions, insert_row, validate_op, validate, by_op,
  statement,
}

-- The result is not a panic.
abbrev Safe : {A : Type 0} → Result ReverseError A → Type 0
Safe r = r ≢ err out_of_range

ok-Safe : {A : Type 0} (a : A) → Safe (ok a)
ok-Safe a e = cc

>>=-Safe :
    {A B : Type 0} (m : Result ReverseError A) (k : A → Result ReverseError B)
    → Safe m
    → ((a : A) → m ≡ ok a → Safe (k a))
    → Safe (m >>= k)
>>=-Safe (ok a) k hm hk = hk a refl
>>=-Safe (err e) k hm hk = λ h. hm (cc)

at-Safe : {A : Type 0} (xs : List A) (i : ℕ) → i < length xs → Safe (at xs i)
unfolding at
at-Safe [] i h = absurd (omega arith)
at-Safe (x ∷ xs) zero h = λ e. cc
at-Safe (x ∷ xs) (suc i) h = at-Safe xs i (omega arith)

module _ (f : Formats) where
  literal-Safe : (v : Value) → Safe (literal f v)
  unfolding literal
  literal-Safe (Value.raw s) = ground arith
  literal-Safe (Value.bool true) = λ e. cc
  literal-Safe (Value.bool false) = λ e. cc
  literal-Safe _ = λ e. cc

  predicate-Safe : (c : Column) (v : Value) → Safe (predicate f c v)
  unfolding predicate
  predicate-Safe c Value.null = λ e. cc
  predicate-Safe c v = >>=-Safe (literal f v) _ (literal-Safe v) (λ lit _ e. cc)

  predicates-Safe :
      (cols : List Column) (row : List Value) (idx : List ℕ)
      → length row ≡ length cols
      → All (λ i. i < length cols) idx
      → Safe (predicates f cols row idx)
  unfolding predicates
  predicates-Safe cols row [] n h = λ e. cc
  predicates-Safe cols row (i ∷ idx) n h = >>=-Safe (at cols i) _ (at-Safe cols i h.0) λ c _.
      >>=-Safe (at row i) _ (at-Safe row i (omega (arith, h.0))) λ v _.
        >>=-Safe (predicate f c v) _ (predicate-Safe c v) λ p _.
          >>=-Safe (predicates f cols row idx) _ (predicates-Safe cols row idx n h.1) λ ps _ e. cc

  primary_key_indexes-bounds :
      (i : ℕ) (cols : List Column) (n : ℕ)
      → i + length cols ≡ n
      → All (λ j. j < n) (primary_key_indexes i cols)
  unfolding primary_key_indexes
  primary_key_indexes-bounds i [] n h = tt
  primary_key_indexes-bounds i (c ∷ cols) n h =
      let rest = primary_key_indexes-bounds (i + 1) cols n (omega arith) in
      elim (Bool-cases c.primary_key) [ inl e ↦ rw e (omega arith, rest) | inr e ↦ rw e rest ]

  all_indexes-bounds :
      (i : ℕ) (cols : List Column) (n : ℕ)
      → i + length cols ≡ n
      → All (λ j. j < n) (all_indexes i cols)
  unfolding all_indexes
  all_indexes-bounds i [] n h = tt
  all_indexes-bounds i (c ∷ cols) n h =
      (omega arith, all_indexes-bounds (i + 1) cols n (omega arith))

  where_indexes-bounds : (cols : List Column) → All (λ j. j < length cols) (where_indexes cols)
  unfolding where_indexes
  where_indexes-bounds cols =
      pick (primary_key_indexes 0 cols)
        (primary_key_indexes-bounds 0 cols (length cols) (omega arith))
    where
      pick :
          (idx : List ℕ)
          → All (λ j. j < length cols) idx
          → All (λ j. j < length cols) (elim idx [ [] ↦ all_indexes 0 cols | i ∷ rest ↦ i ∷ rest ])
      pick [] h = all_indexes-bounds 0 cols (length cols) (omega arith)
      pick (i ∷ rest) h = h

  where_clause-Safe :
      (cols : List Column) (row : List Value)
      → length row ≡ length cols
      → Safe (where_clause f cols row)
  unfolding where_clause
  where_clause-Safe cols row n =
      >>=-Safe (predicates f cols row (where_indexes cols)) _
        (predicates-Safe cols row (where_indexes cols) n (where_indexes-bounds cols)) λ ps _ e. cc

  assign-Safe : (c : Column) (old new : Value) → Safe (assign f c old new)
  unfolding assign
  assign-Safe c old new = elim (Bool-cases (equal_value old new)) [
    | inl e ↦ rw e (λ p. cc)
    | inr e ↦ elim (Bool-cases c.read_only) [
      | inl r ↦ rw (e, r) (λ p. cc)
      | inr r ↦ rw (e, r) (>>=-Safe (literal f old) _ (literal-Safe old) (λ lit _ p. cc))
    ]
  ]

  assignments-Safe :
      (i : ℕ) (cols : List Column) (before after : List Value)
      → length before ≡ i + length cols
      → length after ≡ i + length cols
      → Safe (assignments f i cols before after)
  unfolding assignments
  assignments-Safe i [] before after m n = λ e. cc
  assignments-Safe i (c ∷ cols) before after m n =
      >>=-Safe (at before i) _ (at-Safe before i (omega arith)) λ v _.
        >>=-Safe (at after i) _ (at-Safe after i (omega arith)) λ w _.
          >>=-Safe (assign f c v w) _ (assign-Safe c v w) λ r _.
            >>=-Safe (assignments f (i + 1) cols before after) _
              (assignments-Safe (i + 1) cols before after (omega arith) (omega arith))
              λ rest _ e. cc

  insertions-Safe :
      (i : ℕ) (cols : List Column) (before : List Value)
      → length before ≡ i + length cols
      → Safe (insertions f i cols before)
  unfolding insertions
  insertions-Safe i [] before m = λ e. cc
  insertions-Safe i (c ∷ cols) before m =
      let rest = insertions-Safe (i + 1) cols before (omega arith) in
      elim (Bool-cases c.read_only) [
        | inl e ↦ rw e rest
        | inr e ↦ rw e (
            >>=-Safe (at before i) _ (at-Safe before i (omega arith)) λ v _.
              >>=-Safe (literal f v) _ (literal-Safe v)
                λ lit _. >>=-Safe (insertions f (i + 1) cols before) _ rest λ p _ q. cc)
      ]

  delete_row-Safe :
      (ev : Event) → length (values ev.after) ≡ length ev.columns → Safe (delete_row f ev)
  unfolding delete_row
  delete_row-Safe ev n =
      >>=-Safe _ _ (where_clause-Safe ev.columns (values ev.after) n) (λ s _ e. cc)

  guard-Safe :
      {A : Type 0} (b : Bool) (x : ReverseError) (m : Result ReverseError A)
      → x ≢ out_of_range
      → Safe m
      → Safe (guard b x >> m)
  guard-Safe true x m hx hm = hm
  guard-Safe false x m hx hm = λ e. hx (cc)

  update_row-Safe :
      (ev : Event)
      → length (values ev.before) ≡ length ev.columns
      → length (values ev.after) ≡ length ev.columns
      → Safe (update_row f ev)
  unfolding update_row
  update_row-Safe ev m n =
      >>=-Safe _ _
        (assignments-Safe 0 ev.columns (values ev.before) (values ev.after) (omega arith)
          (omega arith))
        λ sets _.
          guard-Safe _ _ _ (reason sets.1)
            (>>=-Safe _ _ (where_clause-Safe ev.columns (values ev.after) n) (λ s _ e. cc))
    where
      reason :
          (skipped : Bool)
          → (if skipped then ReverseError.all_read_only else ReverseError.nothing_changed)
            ≢ out_of_range
      reason true e = cc
      reason false e = cc

  insert_row-Safe :
      (ev : Event) → length (values ev.before) ≡ length ev.columns → Safe (insert_row f ev)
  unfolding insert_row
  insert_row-Safe ev m =
      >>=-Safe _ _ (insertions-Safe 0 ev.columns (values ev.before) (omega arith))
        λ p _. guard-Safe _ ReverseError.nothing_to_insert _ (λ e. cc) (ok-Safe _)

  by_op-Safe : (op : Op) (ev : Event) → validate_op op ev ≡ ok tt → Safe (by_op f op ev)
  unfolding by_op validate_op
  by_op-Safe Op.insert ev h = delete_row-Safe ev (ground arith)
  by_op-Safe Op.update ev h = update_row-Safe ev (ground arith) (ground arith)
  by_op-Safe Op.delete ev h = insert_row-Safe ev (ground arith)
  by_op-Safe Op.schema_change ev h = absurd (cc)
  by_op-Safe (Op.other n) ev h = absurd (cc)

  validate_op-Safe : (op : Op) (ev : Event) → Safe (validate_op op ev)
  unfolding validate_op
  validate_op-Safe Op.insert ev = ground arith
  validate_op-Safe Op.update ev = ground arith
  validate_op-Safe Op.delete ev = ground arith
  validate_op-Safe Op.schema_change ev = λ e. cc
  validate_op-Safe (Op.other n) ev = λ e. cc

  -- Whatever event the engine is given, it never reads behind the end of a row image or of the column
  -- list: the images that are out of step are refused first.
  pub statement-Safe : (ev : Event) → statement f ev ≢ err out_of_range
  unfolding statement validate
  statement-Safe ev =
      >>=-Safe
        (guard (not (length ev.columns == 0)) ReverseError.no_columns >> validate_op ev.op ev) _
        (guard-Safe _ _ _ (λ e. cc) (validate_op-Safe ev.op ev))
        λ u h. by_op-Safe ev.op ev (valid (not (length ev.columns == 0)) (validate_op ev.op ev) h)
    where
      valid :
          (b : Bool) (m : Result ReverseError (Unit {0})) {u : Unit {0}}
          → (guard b ReverseError.no_columns >> m) ≡ ok u
          → m ≡ ok tt
      valid true m h = h
      valid false m h = absurd (cc)
