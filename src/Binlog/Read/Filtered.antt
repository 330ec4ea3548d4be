-- ===== src/Binlog/Read/Filtered.antt =====
-- A filter of the file scan drops changes and does nothing else.
use mulligan.Base.{
  ℕ, ◌≡◌, refl, sym, ap, Bool, true, Option, none, some, List, [], ◌∷◌, ◌++◌, filter, Result, ok,
  err, ◌>>=◌, ◌>>◌, wrap, arith, Bool-cases, inl, inr,
}
use mulligan.Base.Text.{Bytes}
use mulligan.Base.Time.{zero_time, is_zero}
use mulligan.Base.Unicode.{Unicode}
use mulligan.Change.{Event}
use mulligan.Change.Filter.{Filter, match, matches_table}
use mulligan.Change.Ddl.{is_ddl}
use mulligan.Binlog.Event.{
  BinlogEvent, event, query, rows, header_of, rotate, rows_query, annotate_rows, gtid, mariadb_gtid,
  xid, payload, untyped,
}
use mulligan.Binlog.Convert.{ConvertError, convert}
use mulligan.Binlog.Read.{
  events_from, read_events, read_file, ReadError, ended, next_pos, position_of, schema_event,
}

-- The filter that lets every change through.
abbrev pub everything : Filter
everything = record { tables = []; from = zero_time; to = zero_time }

-- `f` on the value of a result.
abbrev pub on_ok : {E A : Type 0} → (A → A) → Result E A → Result E A
on_ok f (ok a) = ok (f a)
on_ok f (err e) = err e

filter-append :
    {A : Type 0} (p : A → Bool) (xs ys : List A) → filter p (xs ++ ys) ≡ filter p xs ++ filter p ys
filter-append p [] ys = refl
filter-append p (x ∷ xs) ys = elim (Bool-cases (p x)) [
  | inl e ↦ rw (e) (ap (λ l. x ∷ l) (filter-append p xs ys))
  | inr e ↦ rw (e) (filter-append p xs ys)
]

filter-all : {A : Type 0} (p : A → Bool) (h : (x : A) → p x ≡ true) (xs : List A) → filter p xs ≡ xs
filter-all p h [] = refl
filter-all p h (x ∷ xs) = rw (h x) (ap (λ l. x ∷ l) (filter-all p h xs))

module _ (u : Unicode) where
  match-everything : (ev : Event) → match u.equal_fold everything ev ≡ true
  unfolding match matches_table is_zero
  match-everything ev = ground arith

  abbrev Through : Filter → Bytes → BinlogEvent → ℕ → Type 0
  Through f log_file e n =
      events_from u log_file e n f
      ≡ on_ok (filter (match u.equal_fold f)) (events_from u log_file e n everything)

  query-Through :
      (f : Filter) (log_file : Bytes) (hdr : _) (n : ℕ) (schema stmt : Bytes) (gset : Option Bytes)
      → Through f log_file (event hdr (query schema stmt gset)) n
  unfolding events_from
  query-Through f log_file hdr n schema stmt gset =
      let ev = schema_event log_file hdr (position_of hdr n) schema stmt in
      elim (Bool-cases (is_ddl u stmt)) [
        | inr e ↦ rw (e) refl
        | inl e ↦
            rw (e, match-everything ev)
              (elim (Bool-cases (match u.equal_fold f ev)) [
                | inl e' ↦ rw (e') refl
                | inr e' ↦ rw (e') refl
              ])
      ]

  rows-Through :
      (f : Filter) (r : Result ConvertError (List Event))
      → (r >>= (λ events. ok (filter (match u.equal_fold f) events)))
        ≡ on_ok
            (filter (match u.equal_fold f))
            (r >>= (λ events. ok (filter (match u.equal_fold everything) events)))
  rows-Through f (err e) = refl
  rows-Through f (ok events) =
      ap (λ l. ok (filter (match u.equal_fold f) l))
        (sym (filter-all (match u.equal_fold everything) match-everything events))

  events_from-Through :
      (f : Filter) (log_file : Bytes) (e : BinlogEvent) (n : ℕ) → Through f log_file e n
  unfolding events_from
  events_from-Through f log_file (event hdr (rotate s)) n = refl
  events_from-Through f log_file (event hdr (rows_query s)) n = refl
  events_from-Through f log_file (event hdr (annotate_rows s)) n = refl
  events_from-Through f log_file (event hdr (gtid s)) n = refl
  events_from-Through f log_file (event hdr (mariadb_gtid s)) n = refl
  events_from-Through f log_file (event hdr (rows r)) n =
      rows-Through f (convert log_file (record hdr { log_pos = position_of hdr n }) r)
  events_from-Through f log_file (event hdr (xid s)) n = refl
  events_from-Through f log_file (event hdr (payload s)) n = refl
  events_from-Through f log_file (event hdr (query schema stmt gset)) n =
      query-Through f log_file hdr n schema stmt gset
  events_from-Through f log_file (event hdr untyped) n = refl

  module _ (p : Event → Bool) where
    both :
        (a b : Result ConvertError (List Event))
        → (on_ok (filter p) a >>= (λ events. on_ok (filter p) b >>= (λ rest. ok (events ++ rest))))
          ≡ on_ok (filter p) (a >>= (λ events. b >>= (λ rest. ok (events ++ rest))))
    both (err e) b = refl
    both (ok events) (err e) = refl
    both (ok events) (ok rest) = ap ok (sym (filter-append p events rest))

  read_events-filtered :
      (f : Filter) (log_file : Bytes) (n : ℕ) (es : List BinlogEvent)
      → read_events u log_file f n es
        ≡ on_ok (filter (match u.equal_fold f)) (read_events u log_file everything n es)
  unfolding read_events
  read_events-filtered f log_file n [] = refl
  read_events-filtered f log_file n (e ∷ es) =
      rw
        (
          events_from-Through f log_file e (next_pos n (header_of e)),
          read_events-filtered f log_file (next_pos n (header_of e)) es,
        )
        (both (match u.equal_fold f)
          (events_from u log_file e (next_pos n (header_of e)) everything)
          (read_events u log_file everything (next_pos n (header_of e)) es))

  outer :
      {P : Type 0} (p : Event → Bool) (r : Result ConvertError (List Event)) (failed : Option P)
      → (wrap ReadError.converting (on_ok (filter p) r) >>= (λ out. ended failed >> ok out))
        ≡ on_ok (filter p) (wrap ReadError.converting r >>= (λ out. ended failed >> ok out))
  outer p (err e) failed = refl
  outer p (ok l) none = refl
  outer p (ok l) (some e) = refl

  -- Reading a file with a filter gives what reading the whole file gives, less the changes that do not
  -- match the filter: the same error, or in their order exactly the changes that match.
  pub read_file-filtered :
      {P : Type 0} (parse : Bytes → List BinlogEvent × Option P) (file_name : Bytes → Bytes)
      (path : Bytes) (f : Filter)
      → read_file u parse file_name path f
        ≡ on_ok (filter (match u.equal_fold f)) (read_file u parse file_name path everything)
  unfolding read_file
  read_file-filtered parse file_name path f =
      rw (read_events-filtered f (file_name path) 4 ((parse path).0)) (
        outer (match u.equal_fold f) (read_events u (file_name path) everything 4 ((parse path).0))
          ((parse path).1))
