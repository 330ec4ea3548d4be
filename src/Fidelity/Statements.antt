-- ===== src/Fidelity/Statements.antt =====
-- The statement for an event that went through the store beside the one for the event itself.
use mulligan.Base.{
  ℕ, zero, suc, ◌+◌, ◌≡◌, refl, true, false, none, some, List, [], ◌∷◌, map, arith, ok, ◌>>=◌,
  Result-cases, Bool-cases, inl, inr, length-map,
}
use mathlib.Core.Path.{subst₂}
use mulligan.Change.{Op, Value, Column, Event, Image, values}
use mulligan.Codec.RoundTrip.Value.{stored}
use mulligan.Reverse.Equality.{equal_value}
use mulligan.Reverse.Literal.{Formats, literal, quote_time}
use mulligan.Reverse.Statement.{
  at, predicate, predicates, where_indexes, where_clause, delete_row, assign, assignments,
  update_row, insertions, insert_row, validate_op, validate, by_op, statement,
}
use mulligan.Fidelity.Values.{literal-stored}

-- Two values of one column: one of them NULL, or both of the same dynamic type; times with the same zone,
-- byte slices both nil or both not.
abbrev pub Kindred : Value → Value → Type 0
Kindred Value.null v = Unit
Kindred v Value.null = Unit
Kindred Value.nil_bytes Value.nil_bytes = Unit
Kindred (Value.unsupported x) (Value.unsupported y) = Unit
Kindred (Value.time t) (Value.time u) = t.zone ≡ u.zone
Kindred (Value.bool x) (Value.bool y) = Unit
Kindred (Value.int x) (Value.int y) = Unit
Kindred (Value.int8 x) (Value.int8 y) = Unit
Kindred (Value.int16 x) (Value.int16 y) = Unit
Kindred (Value.int32 x) (Value.int32 y) = Unit
Kindred (Value.int64 x) (Value.int64 y) = Unit
Kindred (Value.uint x) (Value.uint y) = Unit
Kindred (Value.uint8 x) (Value.uint8 y) = Unit
Kindred (Value.uint16 x) (Value.uint16 y) = Unit
Kindred (Value.uint32 x) (Value.uint32 y) = Unit
Kindred (Value.uint64 x) (Value.uint64 y) = Unit
Kindred (Value.float32 x) (Value.float32 y) = Unit
Kindred (Value.float64 x) (Value.float64 y) = Unit
Kindred (Value.string x) (Value.string y) = Unit
Kindred (Value.bytes x) (Value.bytes y) = Unit
Kindred (Value.raw x) (Value.raw y) = Unit
Kindred v w = ⊥

-- The two images of an update, column by column.
abbrev pub KindredRows : List Value → List Value → Type 0
KindredRows [] after = Unit
KindredRows (v ∷ before) [] = Unit
KindredRows (v ∷ before) (w ∷ after) = Kindred v w × KindredRows before after

equal_value-stored :
    (v w : Value) → Kindred v w → equal_value (stored v) (stored w) ≡ equal_value v w
unfolding equal_value stored
equal_value-stored (Value.time t) (Value.time u) h = ground arith
equal_value-stored (Value.bool true) (Value.bool c) h = refl
equal_value-stored (Value.bool false) (Value.bool c) h = refl
equal_value-stored (Value.int x) (Value.int y) h = refl
equal_value-stored (Value.int8 x) (Value.int8 y) h = refl
equal_value-stored (Value.int16 x) (Value.int16 y) h = refl
equal_value-stored (Value.int32 x) (Value.int32 y) h = refl
equal_value-stored (Value.int64 x) (Value.int64 y) h = refl
equal_value-stored (Value.uint x) (Value.uint y) h = refl
equal_value-stored (Value.uint8 x) (Value.uint8 y) h = refl
equal_value-stored (Value.uint16 x) (Value.uint16 y) h = refl
equal_value-stored (Value.uint32 x) (Value.uint32 y) h = refl
equal_value-stored (Value.uint64 x) (Value.uint64 y) h = refl
equal_value-stored (Value.float32 x) (Value.float32 y) h = refl
equal_value-stored (Value.float64 x) (Value.float64 y) h = refl
equal_value-stored (Value.string x) (Value.string y) h = refl
equal_value-stored (Value.bytes x) (Value.bytes y) h = refl
equal_value-stored (Value.raw x) (Value.raw y) h = refl
equal_value-stored (Value.unsupported x) (Value.unsupported y) h = refl
equal_value-stored Value.nil_bytes Value.nil_bytes h = refl
equal_value-stored Value.null Value.null h = refl
equal_value-stored v w h = ground arith

at-map :
    {A B : Type 0} (g : A → B) (xs : List A) (i : ℕ) → at (map g xs) i ≡ (at xs i >>= λ x. ok (g x))
unfolding at
at-map g [] i = refl
at-map g (x ∷ xs) zero = refl
at-map g (x ∷ xs) (suc i) = at-map g xs i

at-Kindred :
    (before after : List Value) (i : ℕ) {v w : Value}
    → KindredRows before after
    → at before i ≡ ok v
    → at after i ≡ ok w
    → Kindred v w
unfolding at
at-Kindred [] after i h p q = absurd (cc)
at-Kindred (v ∷ before) [] i h p q = absurd (cc)
at-Kindred (v ∷ before) (w ∷ after) zero {v = v'} {w = w'} h p q =
    let e : v ≡ v' = cc in let e' : w ≡ w' = cc in subst₂ Kindred e e' h.0
at-Kindred (v ∷ before) (w ∷ after) (suc i) h p q = at-Kindred before after i h.1 p q

module _ (f : Formats) where
  predicate-stored : (c : Column) (v : Value) → predicate f c (stored v) ≡ predicate f c v
  unfolding predicate stored literal quote_time
  predicate-stored c Value.null = refl
  predicate-stored c _ = refl

  predicates-stored :
      (cols : List Column) (row : List Value) (idx : List ℕ)
      → predicates f cols (map stored row) idx ≡ predicates f cols row idx
  unfolding predicates
  predicates-stored cols row [] = refl
  predicates-stored cols row (i ∷ idx) = elim (Result-cases (at cols i)) [
    | inl (c, e') ↦ elim (Result-cases (at row i)) [
      | inl (v, e) ↦
          rw (e', at-map stored row i, e)
            (ground (arith, predicates-stored cols row idx, predicate-stored c v))
      | inr (x, e) ↦ rw (e', at-map stored row i, e)
    ]
    | inr (x, e') ↦ rw e'
  ]

  where_clause-stored :
      (cols : List Column) (row : List Value)
      → where_clause f cols (map stored row) ≡ where_clause f cols row
  unfolding where_clause
  where_clause-stored cols row = rw (predicates-stored cols row (where_indexes cols))

  assign-stored :
      (c : Column) (old new : Value)
      → Kindred old new
      → assign f c (stored old) (stored new) ≡ assign f c old new
  unfolding assign
  assign-stored c old new h = rw (equal_value-stored old new h, literal-stored f old)

  assignments-stored :
      (i : ℕ) (cols : List Column) (before after : List Value)
      → KindredRows before after
      → assignments f i cols (map stored before) (map stored after)
        ≡ assignments f i cols before after
  unfolding assignments
  assignments-stored i [] before after h = refl
  assignments-stored i (c ∷ cols) before after h = elim (Result-cases (at before i)) [
    | inl (v, e) ↦ elim (Result-cases (at after i)) [
      | inl (w, e') ↦
          rw (at-map stored before i, at-map stored after i, e, e')
            (rw (
              assign-stored c v w (at-Kindred before after i h e e'),
              assignments-stored (i + 1) cols before after h,
            ))
      | inr (x, e') ↦ rw (at-map stored before i, at-map stored after i, e, e')
    ]
    | inr (x, e) ↦ rw (at-map stored before i, e)
  ]

  insertions-stored :
      (i : ℕ) (cols : List Column) (before : List Value)
      → insertions f i cols (map stored before) ≡ insertions f i cols before
  unfolding insertions
  insertions-stored i [] before = refl
  insertions-stored i (c ∷ cols) before = elim (Bool-cases c.read_only) [
    | inl e ↦ rw e (insertions-stored (i + 1) cols before)
    | inr e ↦ elim (Result-cases (at before i)) [
      | inl (v, p) ↦
          rw (e, at-map stored before i, p)
            (rw (literal-stored f v, insertions-stored (i + 1) cols before))
      | inr (x, p) ↦ rw (e, at-map stored before i, p)
    ]
  ]

-- The event with its images as the store gives them back.
unfoldable pub map_image : (Value → Value) → Image → Image
map_image g none = none
map_image g (some row) = some (map g row)

unfoldable pub stored_images : Event → Event
unfolding map_image
stored_images ev = record ev {
  before = map_image stored ev.before;
  after = map_image stored ev.after;
}

values-map_image : (g : Value → Value) (m : Image) → values (map_image g m) ≡ map g (values m)
unfolding map_image
values-map_image g none = refl
values-map_image g (some row) = refl

validate_op-stored : (op : Op) (ev : Event) → validate_op op (stored_images ev) ≡ validate_op op ev
unfolding validate_op stored_images
validate_op-stored Op.insert ev =
    rw (values-map_image stored ev.after, length-map stored (values ev.after))
validate_op-stored Op.update ev =
    rw (values-map_image stored ev.after, length-map stored (values ev.after))
      (rw (values-map_image stored ev.before, length-map stored (values ev.before)))
validate_op-stored Op.delete ev =
    rw (values-map_image stored ev.before, length-map stored (values ev.before))
validate_op-stored Op.schema_change ev = refl
validate_op-stored (Op.other n) ev = refl

module _ (f : Formats) where
  by_op-stored :
      (op : Op) (ev : Event)
      → (op ≡ Op.update → KindredRows (values ev.before) (values ev.after))
      → by_op f op (stored_images ev) ≡ by_op f op ev
  unfolding by_op stored_images delete_row update_row insert_row
  by_op-stored Op.insert ev h =
      rw (values-map_image stored ev.after, where_clause-stored f ev.columns (values ev.after))
  by_op-stored Op.update ev h =
      rw (values-map_image stored ev.after, values-map_image stored ev.before)
        (rw (
          assignments-stored f 0 ev.columns (values ev.before) (values ev.after) (h refl),
          where_clause-stored f ev.columns (values ev.after),
        ))
  by_op-stored Op.delete ev h =
      rw (values-map_image stored ev.before, insertions-stored f 0 ev.columns (values ev.before))
  by_op-stored Op.schema_change ev h = refl
  by_op-stored (Op.other n) ev h = refl

  -- The engine gives the same statement, or the same refusal, for an event whose images went through
  -- the store as for the event itself: the widths of integers and the zones of times, which the codec
  -- drops, make no difference, and for an insert or a delete neither does a byte slice being nil. For
  -- an update this takes any two values of one column, neither of them NULL, to be of the same type,
  -- times in the same zone, and byte slices both nil or both not nil.
  pub statement-stored_images :
      (ev : Event)
      → (ev.op ≡ Op.update → KindredRows (values ev.before) (values ev.after))
      → statement f (stored_images ev) ≡ statement f ev
  unfolding statement validate stored_images
  statement-stored_images ev h = rw (validate_op-stored ev.op ev, by_op-stored ev.op ev h)
