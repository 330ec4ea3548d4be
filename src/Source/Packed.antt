-- ===== src/Source/Packed.antt =====
-- A compressed transaction does to the assembler what the events in it do one by one.
use mulligan.Base.{
  ℕ, ◌+◌, ◌≤◌, ◌≡◌, refl, sym, ap, ◌∙◌, Option, none, some, List, [], ◌∷◌, ◌++◌, append_assoc,
  append-nil, length, length-append, Result, ok, err, >>=-eq-ok, All, Bool, true, false, arith,
}
use mulligan.Base.Time.{Time}
use mulligan.Base.Unicode.{Unicode}
use mulligan.Change.{Event, Transaction}
use mulligan.Binlog.Event.{
  Header, BinlogEvent, event, Body, rotate, rows_query, annotate_rows, gtid, mariadb_gtid, rows,
  xid, payload, query, untyped, Events, nil, cons, body_of,
}
use mulligan.Binlog.Convert.{ConvertError, convert}
use mulligan.Source.Assemble.{
  Assembler, HandleResult, handle, unwrap, merge, or_else, Statement, statement_of, xa, begin,
  commits, rolls_back, ddl, bookkeeping,
}
use mulligan.Source.Log.{
  Mark, Place, mark, marks, after_body, ticked, now_at, whole, rows_mark, statement_mark, schema_at,
  opened, IsPayload, endings, endings_in, ending_of,
}
use mulligan.Source.Marked.{
  given, pend, gives, give_all, place_of, waiting_of, handle-Done, value_of,
}

unfoldable pub pend_all : List Mark → List Event → List Event
pend_all [] p = p
pend_all (m ∷ ms) p = pend_all ms (pend m p)

pub give_all-append :
    (ms ns : List Mark) (p : List Event)
    → give_all (ms ++ ns) p ≡ give_all ms p ++ give_all ns (pend_all ms p)
unfolding give_all pend_all
give_all-append [] ns p = refl
give_all-append (m ∷ ms) ns p =
    ap (λ l. gives m p ++ l) (give_all-append ms ns (pend m p))
    ∙ sym (append_assoc (gives m p) (give_all ms (pend m p)) (give_all ns (pend_all ms (pend m p))))

-- A result has one transaction at most, so that of two that are not both there none is lost.
or_else-given :
    (r o : Option Transaction)
    → length (given o) + length (given r) ≤ 1
    → given (or_else r o) ≡ given o ++ given r
or_else-given none o h = sym (append-nil (given o))
or_else-given (some t) none h = refl
or_else-given (some t) (some v) h = absurd (omega arith)

whole-one : (b : Bool) (p : List Event) → length (whole b p) ≤ 1
whole-one true [] = omega arith
whole-one true (ev ∷ p) = omega arith
whole-one false p = omega arith

module _ (u : Unicode) (clock : ℕ → Time) where
  unfoldable pub place_after : Place → List BinlogEvent → Place
  place_after p [] = p
  place_after p (event hdr body ∷ es) =
      place_after (after_body u clock (ticked u clock p hdr) body) es

  pub marks-append :
      (p : Place) (xs ys : List BinlogEvent)
      → marks u clock p (xs ++ ys) ≡ marks u clock p xs ++ marks u clock (place_after p xs) ys
  unfolding place_after
  marks-append p [] ys = refl
  marks-append p (event hdr body ∷ xs) ys =
      ap (λ l. mark u clock (ticked u clock p hdr) hdr (now_at clock p hdr) body ∷ l)
        (marks-append (after_body u clock (ticked u clock p hdr) body) xs ys)

  rows_mark-none :
      (r : Result ConvertError (List Event)) (w : List Event) → length (gives (rows_mark r) w) ≤ 0
  rows_mark-none (ok events) w = omega arith
  rows_mark-none (err e) w = omega arith

  statement-le :
      (s : Statement) (ev : Event) (w : List Event)
      → length (gives (statement_mark s ev) w) ≤ ending_of s
  statement-le xa ev w = omega arith
  statement-le begin ev w = omega arith
  statement-le commits ev w = whole-one true w
  statement-le rolls_back ev w = omega arith
  statement-le ddl ev w = omega arith
  statement-le bookkeeping ev w = omega arith

  gives-le :
      (p : Place) (hdr : Header) (when : Time) (body : Body) (w : List Event)
      → length (gives (mark u clock p hdr when body) w) ≤ endings u body
  gives-le p hdr when (rotate s) w = omega arith
  gives-le p hdr when (rows_query s) w = omega arith
  gives-le p hdr when (annotate_rows s) w = omega arith
  gives-le p hdr when (gtid s) w = omega arith
  gives-le p hdr when (mariadb_gtid s) w = omega arith
  gives-le p hdr when (rows r) w = rows_mark-none (convert p.log_file hdr r) w
  gives-le p hdr when (xid s) w = whole-one true w
  gives-le p hdr when (payload s) w = omega arith
  gives-le p hdr when (query name text gset) w =
      statement-le (statement_of u (u.trim_space text))
        (schema_at p hdr when name (u.trim_space text)) w
  gives-le p hdr when untyped w = omega arith

  pub unwrap-Done :
      (a : Assembler) (inner : Events) (out : HandleResult) {y : Assembler × HandleResult}
      → All (λ e. IsPayload (body_of e) → ⊥) (opened inner)
      → length (given out.txn) + endings_in u inner ≤ 1
      → unwrap u clock a inner out ≡ ok y
      → (given y.1.txn
          ≡ given out.txn ++ give_all (marks u clock (place_of a) (opened inner)) (waiting_of a))
        × (waiting_of y.0 ≡ pend_all (marks u clock (place_of a) (opened inner)) (waiting_of a))
        × (place_of y.0 ≡ place_after (place_of a) (opened inner))
  unfolding unwrap give_all pend_all place_after merge
  unwrap-Done a nil out n k h =
      rw (value_of u clock h) (sym (append-nil (given out.txn)), refl, refl)
  unwrap-Done a (cons (event hdr body) es) out n k h =
      let (r, h1, h2) = >>=-eq-ok (handle u clock a (event hdr body)) _ h in
      let (d0, d1, d2) = handle-Done u clock a hdr body n.0 h1 in
      let one =
        gives-le (ticked u clock (place_of a) hdr) hdr (now_at clock (place_of a) hdr) body
          (waiting_of a) in
      let few : length (given out.txn) + length (given r.1.txn) + endings_in u es ≤ 1 =
        omega (arith, k, one, ap length d0) in
      let both = or_else-given r.1.txn out.txn (omega (arith, few)) in
      let room : length (given (or_else r.1.txn out.txn)) + endings_in u es ≤ 1 =
        omega (arith, few, ap length both, length-append (given out.txn) (given r.1.txn)) in
      let (e0, e1, e2) = unwrap-Done r.0 es (merge out r.1) n.1 room h2 in
      (
        rw (e0, both, d0, d1, d2) (append_assoc (given out.txn) _ _),
        rw (e1, d1, d2) refl,
        rw (e2, d2) refl,
      )
