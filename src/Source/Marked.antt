-- ===== src/Source/Marked.antt =====
-- What one event of the log does to the assembler, by its mark.
use mulligan.Base.{
  ℕ, ◌≡◌, refl, sym, ap, ◌∙◌, Option, none, some, List, [], ◌∷◌, ◌++◌, append_assoc, append-nil,
  ◌==◌, true, Result, ok, err, Bool-cases, inl, inr, arith, map, All, All-imp,
}
use mulligan.Base.Text.{Bytes}
use mulligan.Base.Time.{Time}
use mulligan.Base.Unicode.{Unicode}
use mulligan.Change.{Op, Event, Transaction}
use mulligan.Binlog.Event.{
  Header, event, Body, rotate, rows_query, annotate_rows, gtid, mariadb_gtid, rows, xid, payload,
  query, untyped, EventType, RowsEvent,
}
use mulligan.Binlog.Convert.{ConvertError, convert}
use mulligan.Binlog.Images.{HasImages, convert-Images}
use mulligan.Source.Assemble.{
  Assembler, HandleResult, Handled, handle, switch, with_query, Statement, statement_of, xa, begin,
  commits, rolls_back, ddl, bookkeeping, append_rows, append_converted, commit, committed, reset,
  query_, run_statement, take_gtid, handle_gtid, handle_untyped, tick, when_of, schema_txn,
}
use mulligan.Source.Log.{
  Mark, IsPayload, Place, mark, after_body, bare, bare_as, ticked, ahead, transactions, whole,
  now_at, schema_at, rows_mark, statement_mark,
}

-- The changes of the transaction that a result has, without the texts of statements.
abbrev pub given : Option Transaction → List (List Event)
given none = []
given (some txn) = map bare txn.events ∷ []

abbrev pub all_given : List HandleResult → List (List Event)
all_given [] = []
all_given (r ∷ rs) = given r.txn ++ all_given rs

abbrev pub place_of : Assembler → Place
place_of a = record { log_file = a.log_file; readings = a.readings }

abbrev pub waiting_of : Assembler → List Event
waiting_of a = map bare a.events

map_append : (f : Event → Event) (xs ys : List Event) → map f (xs ++ ys) ≡ map f xs ++ map f ys
map_append f [] ys = refl
map_append f (x ∷ xs) ys = ap (λ l. f x ∷ l) (map_append f xs ys)

-- What a rows event converts to has no schema change in it.
abbrev IsRowChange : Event → Type 0
IsRowChange ev = HasImages ev.op ev

converted-RowOps :
    (log_file : Bytes) (hdr : Header) (r : RowsEvent) {events : List Event}
    → convert log_file hdr r ≡ ok events
    → All IsRowChange events
converted-RowOps log_file hdr r {events} h =
    let (tm, t, images, whole) = convert-Images log_file hdr r h in
    All-imp _ IsRowChange (λ ev w. w.1) events whole

bare-with_query-as :
    (op : Op) (text : Bytes) (ev : Event)
    → HasImages op ev
    → bare_as op (with_query text ev) ≡ bare_as op ev
bare-with_query-as Op.insert text ev h = refl
bare-with_query-as Op.update text ev h = refl
bare-with_query-as Op.delete text ev h = refl
bare-with_query-as Op.schema_change text ev h = absurd h
bare-with_query-as (Op.other n) text ev h = refl

bare-with_query :
    (text : Bytes) (events : List Event)
    → All IsRowChange events
    → map bare (map (with_query text) events) ≡ map bare events
bare-with_query text [] h = refl
bare-with_query text (ev ∷ events) (he, h) =
    rw (bare-with_query-as ev.op text ev he, bare-with_query text events h) refl

-- What a mark does to the rows that wait, and what it gives.
abbrev pub pend : Mark → List Event → List Event
pend (Mark.changes events) p = p ++ events
pend (Mark.schema ev) p = p
pend Mark.quiet p = p
pend _ p = []

abbrev pub gives : Mark → List Event → List (List Event)
gives (Mark.schema ev) p = (ev ∷ []) ∷ []
gives Mark.closes p = whole true p
gives _ p = []

unfoldable pub give_all : List Mark → List Event → List (List Event)
give_all [] p = []
give_all (m ∷ ms) p = gives m p ++ give_all ms (pend m p)

pub give_all-transactions :
    (ms : List Mark) (p : List Event) → give_all ms p ≡ transactions p (ahead ms)
unfolding give_all
give_all-transactions [] [] = refl
give_all-transactions [] (ev ∷ p) = refl
give_all-transactions (Mark.changes events ∷ ms) p =
    give_all-transactions ms (p ++ events)
    ∙ ap (λ l. (ahead ms).early ++ whole (ahead ms).is_closed l ++ (ahead ms).later)
        (append_assoc p events (ahead ms).head)
give_all-transactions (Mark.schema ev ∷ ms) p = ap (λ l. (ev ∷ []) ∷ l) (give_all-transactions ms p)
give_all-transactions (Mark.closes ∷ ms) p =
    rw (append-nil p) (ap (λ l. whole true p ++ l) (give_all-transactions ms []))
give_all-transactions (Mark.drops ∷ ms) p = give_all-transactions ms []
give_all-transactions (Mark.quiet ∷ ms) p = give_all-transactions ms p

-- What handling an event comes to: what it gives, the rows that wait, and the place behind it.
abbrev pub Done : List Event → Mark → Place → Assembler × HandleResult → Type 0
Done waiting m p (b, r) =
    (given r.txn ≡ gives m waiting) × (waiting_of b ≡ pend m waiting) × (place_of b ≡ p)

module _ (u : Unicode) (clock : ℕ → Time) where
  pub value_of : {x y : Assembler × HandleResult} → ◌≡◌ {A = Handled} (ok x) (ok y) → y ≡ x
  value_of h = cc

  append_converted-Done :
      (a : Assembler) (hdr : Header) (when : Time) (r : Result ConvertError (List Event))
      → ((events : List Event)
          → r ≡ ok events
          → map bare (map (with_query a.query) events) ≡ map bare events)
      → Done (waiting_of a) (rows_mark r) (place_of a) (append_converted a hdr when r)
  unfolding append_converted
  append_converted-Done a hdr when (err e) h = (refl, refl, refl)
  append_converted-Done a hdr when (ok events) h = (
    refl,
    map_append bare a.events (map (with_query a.query) events)
        ∙ ap (λ l. waiting_of a ++ l) (h events refl),
    refl,
  )

  rows-Done :
      (a : Assembler) (hdr : Header) (when : Time) (r : RowsEvent)
      → Done
          (waiting_of a)
          (rows_mark (convert a.log_file hdr r))
          (place_of a)
          (append_converted a hdr when (convert a.log_file hdr r))
  rows-Done a hdr when r =
      append_converted-Done a hdr when (convert a.log_file hdr r)
        (λ events h. bare-with_query a.query events (converted-RowOps a.log_file hdr r h))

  commit-Done :
      (a : Assembler) (hdr : Header) (when : Time) (events : List Event)
      → Done (map bare events) Mark.closes (place_of a) (reset a, committed a hdr when events)
  unfolding committed reset
  commit-Done a hdr when [] = (refl, refl, refl)
  commit-Done a hdr when (ev ∷ events) = (refl, refl, refl)

  statement-Done :
      (a : Assembler) (hdr : Header) (when : Time) (name stmt : Bytes) (s : Statement)
      {y : Assembler × HandleResult}
      → run_statement a hdr when name stmt s ≡ ok y
      → Done
          (waiting_of a)
          (statement_mark s (schema_at (place_of a) hdr when name stmt))
          (place_of a)
          y
  unfolding run_statement commit schema_txn reset
  statement-Done a hdr when name stmt xa h = absurd (cc)
  statement-Done a hdr when name stmt begin h = rw (value_of h) (refl, refl, refl)
  statement-Done a hdr when name stmt commits h = rw (value_of h) (commit-Done a hdr when a.events)
  statement-Done a hdr when name stmt rolls_back h = rw (value_of h) (refl, refl, refl)
  statement-Done a hdr when name stmt ddl h = rw (value_of h) (refl, refl, refl)
  statement-Done a hdr when name stmt bookkeeping h = rw (value_of h) (refl, refl, refl)

  gtid-Done :
      (a : Assembler) (hdr : Header) (t : EventType) (next : Option Bytes)
      {y : Assembler × HandleResult}
      → handle_gtid a hdr t next ≡ ok y
      → Done (waiting_of a) Mark.quiet (place_of a) y
  unfolding handle_gtid take_gtid
  gtid-Done a hdr t next h = ground arith

  untyped-Done :
      (a : Assembler) (hdr : Header) (t : EventType) (when : Time) {y : Assembler × HandleResult}
      → handle_untyped a hdr t when ≡ ok y
      → Done (waiting_of a) Mark.quiet (place_of a) y
  unfolding handle_untyped
  untyped-Done a hdr t when h = ground arith

  switch-Done :
      (a : Assembler) (hdr : Header) (when : Time) (body : Body) {y : Assembler × HandleResult}
      → (IsPayload body → ⊥)
      → switch u clock a hdr when body ≡ ok y
      → Done
          (waiting_of a)
          (mark u clock (place_of a) hdr when body)
          (after_body u clock (place_of a) body)
          y
  unfolding switch append_rows commit query_
  switch-Done a hdr when (rotate name) n h = rw (value_of h) (refl, refl, refl)
  switch-Done a hdr when (rows_query text) n h = rw (value_of h) (refl, refl, refl)
  switch-Done a hdr when (annotate_rows text) n h = rw (value_of h) (refl, refl, refl)
  switch-Done a hdr when (gtid next) n h = gtid-Done a hdr hdr.event_type next h
  switch-Done a hdr when (mariadb_gtid text) n h = rw (value_of h) (refl, refl, refl)
  switch-Done a hdr when (rows r) n h = rw (value_of h) (rows-Done a hdr when r)
  switch-Done a hdr when (xid gset) n h = rw (value_of h) (commit-Done a hdr when a.events)
  switch-Done a hdr when (payload inner) n h = absurd (n tt)
  switch-Done a hdr when (query name text gset) n h =
      let stmt = u.trim_space text in statement-Done a hdr when name stmt (statement_of u stmt) h
  switch-Done a hdr when untyped n h = untyped-Done a hdr hdr.event_type when h

  pub place_of-tick :
      (a : Assembler) (hdr : Header)
      → (place_of (tick a hdr) ≡ ticked u clock (place_of a) hdr)
        × (waiting_of (tick a hdr) ≡ waiting_of a)
  unfolding tick
  place_of-tick a hdr = elim (Bool-cases (hdr.timestamp == 0)) [
    | inl e ↦ rw (e) (refl, refl)
    | inr e ↦ rw (e) (refl, refl)
  ]

  pub handle-Done :
      (a : Assembler) (hdr : Header) (body : Body) {y : Assembler × HandleResult}
      → (IsPayload body → ⊥)
      → handle u clock a (event hdr body) ≡ ok y
      → Done
          (waiting_of a)
          (mark u clock (ticked u clock (place_of a) hdr) hdr (now_at clock (place_of a) hdr) body)
          (after_body u clock (ticked u clock (place_of a) hdr) body)
          y
  unfolding handle when_of
  handle-Done a hdr body {y} n h =
      retold (tick a hdr) (when_of clock a hdr) y (place_of-tick a hdr).0 (place_of-tick a hdr).1
        (switch-Done (tick a hdr) hdr (when_of clock a hdr) body n h)
    where
      retold :
          (b : Assembler) {p : Place} {waiting : List Event} (when : Time)
          (y : Assembler × HandleResult)
          → place_of b ≡ p
          → waiting_of b ≡ waiting
          → Done
              (waiting_of b)
              (mark u clock (place_of b) hdr when body)
              (after_body u clock (place_of b) body)
              y
          → Done waiting (mark u clock p hdr when body) (after_body u clock p body) y
      retold b when y e e' d = rw (sym e, sym e') d
