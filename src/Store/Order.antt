-- ===== src/Store/Order.antt =====
-- The two directions in which internal/store reads a window: `Events`, oldest first, and `EachEvent`,
-- newest first.
use mulligan.Base.{
  ◌≡◌, refl, sym, ap, ◌∙◌, Bool, true, false, Option, none, some, List, [], ◌∷◌, ◌++◌, All, Result,
  ok, err, Result-cases, inl, inr, arith,
}
use mathlib.Core.List.{reverse, reverse-cons}
use mulligan.Base.Sorting.{Ordered, sort_by-Ordered, sort_by-reverse}
use mulligan.Change.{Event}
use mulligan.Store.Schema.{Txn, RowChange, Tables, StoreError}
use mulligan.Store.Tx.{session, Session, ◌>>=◌, call, from_result}
use mulligan.Store.Read.{
  Stored, find_txn, join, join_row, older, oldest_first, newest_first, decode_stored, scan_event,
  collect, each_row, VisitError, store, cons_if,
}
use mulligan.Store.Wellformed.{Wellformed, row_before}

join-All :
    (r : RowChange) (x : Txn) (txns : List Txn) (rows : List RowChange)
    → All (λ y. row_before r y ≡ true) rows
    → All (λ y. older (record { txn = x; row = r }) y ≡ true) (join txns rows)
unfolding join
join-All r x txns [] h = tt
join-All r x txns (y ∷ rows) (hy, h) = go (join-All r x txns rows h) (find_txn y.txn_id txns)
  where
    go :
        All (λ z. older (record { txn = x; row = r }) z ≡ true) (join txns rows)
        → (found : Option Txn)
        → All
            (λ z. older (record { txn = x; row = r }) z ≡ true)
            (join_row found y (join txns rows))
    go rest none = rest
    go rest (some u) = (hy, rest)

pub join-Ordered :
    (txns : List Txn) (rows : List RowChange)
    → Ordered row_before rows
    → Ordered older (join txns rows)
unfolding join
join-Ordered txns [] h = tt
join-Ordered txns (r ∷ rows) (hr, h) = go (join-Ordered txns rows h) (find_txn r.txn_id txns)
  where
    go :
        Ordered older (join txns rows)
        → (found : Option Txn) → Ordered older (join_row found r (join txns rows))
    go rest none = rest
    go rest (some u) = (join-All r u txns rows hr, rest)

older-asym : (x y : Stored) → older x y ≡ true → older y x ≡ false
older-asym x y h = ground arith

pub oldest_first-join : (t : Tables) → Wellformed t → oldest_first t ≡ join t.txns t.row_changes
unfolding oldest_first
oldest_first-join t h = sort_by-Ordered older older-asym _ (join-Ordered t.txns t.row_changes h.1)

pub newest_first-join :
    (t : Tables) → Wellformed t → newest_first t ≡ reverse (join t.txns t.row_changes)
unfolding newest_first
newest_first-join t h = sort_by-reverse older _ (join-Ordered t.txns t.row_changes h.1)

-- The visitor that keeps what it is given.
abbrev pub push : {E : Type 0} → Event → List Event → List Event × Result E (Unit {0})
push ev st = (ev ∷ st, ok tt)

module _ (t : Tables) where
  scan_event-err :
      (r : Stored) {e : StoreError} → decode_stored r ≡ err e → scan_event r (session t []) ≡ err e
  unfolding scan_event call
  scan_event-err r h = ap (λ m. from_result m (session t [])) h

  pub scan_event-ok :
      (r : Stored) {ev : Event}
      → decode_stored r ≡ ok ev
      → scan_event r (session t []) ≡ ok (ev, session t [])
  unfolding scan_event call
  scan_event-ok r h = ap (λ m. from_result m (session t [])) h

module _ {E : Type 0} (keep : Event → Bool) (t : Tables) where
  abbrev pub visits : List Stored → List Event → List Event × Result (VisitError E) (Unit {0})
  visits rows st = each_row {E = E} keep push rows (session t []) st

  visits-err :
      (r : Stored) (rows : List Stored) (st : List Event) {e : StoreError}
      → decode_stored r ≡ err e
      → visits (r ∷ rows) st ≡ (st, err (store e))
  unfolding each_row
  visits-err r rows st h = rw (scan_event-err t r h, each_row) refl

  visits-ok :
      (r : Stored) (rows : List Stored) (st : List Event) {ev : Event}
      → decode_stored r ≡ ok ev
      → visits (r ∷ rows) st ≡ visits rows (cons_if (keep ev) ev st)
  unfolding each_row
  visits-ok r rows st {ev} h = go (keep ev) refl
    where
      go : (b : Bool) → keep ev ≡ b → visits (r ∷ rows) st ≡ visits rows (cons_if (keep ev) ev st)
      go true k = rw (scan_event-ok t r h, each_row, k) refl
      go false k = rw (scan_event-ok t r h, each_row, k) refl

  visits-append :
      (xs ys : List Stored) (st st' : List Event)
      → visits xs st ≡ (st', ok tt)
      → visits (xs ++ ys) st ≡ visits ys st'
  unfolding each_row call
  visits-append [] ys st st' h = ap (visits ys) (ap (λ p. p.0) h)
  visits-append (r ∷ xs) ys st st' h = elim (Result-cases (decode_stored r)) [
    | inl (ev, e) ↦
        visits-ok r (xs ++ ys) st e ∙ visits-append xs ys _ st' (sym (visits-ok r xs st e) ∙ h)
    | inr (x, e) ↦ absurd (no_err (ap (λ p. p.1) (sym (visits-err r xs st e) ∙ h)))
  ]
    where
      no_err : {e : VisitError E} → ◌≡◌ {A = Result (VisitError E) (Unit {0})} (err e) (ok tt) → ⊥
      no_err h = cc

module _ (keep : Event → Bool) (t : Tables) where
  abbrev pub Collected : List Stored → List Event → Type 0
  Collected rows evs = (s : Session) × (collect keep rows (session t []) ≡ ok (evs, s))

  collect-refused :
      (r : Stored) (rows : List Stored) {x : StoreError}
      → decode_stored r ≡ err x
      → collect keep (r ∷ rows) (session t []) ≡ err x
  unfolding collect
  collect-refused r rows e = rw (scan_event-err t r e, collect, ◌>>=◌) refl

  collect-fails :
      (r : Stored) (rows : List Stored) {ev : Event} {x : StoreError}
      → decode_stored r ≡ ok ev
      → collect keep rows (session t []) ≡ err x
      → collect keep (r ∷ rows) (session t []) ≡ err x
  unfolding collect
  collect-fails r rows e e' = rw (scan_event-ok t r e, collect, ◌>>=◌, e') refl

  collect-gives :
      (r : Stored) (rows : List Stored) {ev : Event} {rest : List Event} {s : Session}
      → decode_stored r ≡ ok ev
      → collect keep rows (session t []) ≡ ok (rest, s)
      → collect keep (r ∷ rows) (session t []) ≡ ok (cons_if (keep ev) ev rest, s)
  unfolding collect
  collect-gives r rows e e' = rw (scan_event-ok t r e, collect, ◌>>=◌, e') refl

  same_events :
      {a b : List Event} {u v : Session}
      → ◌≡◌ {A = Result StoreError (List Event × Session)} (ok (a, u)) (ok (b, v))
      → a ≡ b
  same_events q = cc

  no_err : {x : StoreError} {b : List Event × Session} → err x ≡ ok b → ⊥
  no_err q = cc

  -- What `collect` gives, row by row.
  pub collect-cons :
      (r : Stored) (rows : List Stored) {evs : List Event}
      → Collected (r ∷ rows) evs
      → (ev : Event) × (rest : List Event) × (decode_stored r ≡ ok ev)
        × Collected rows rest
        × (evs ≡ cons_if (keep ev) ev rest)
  collect-cons r rows {evs} (s, h) = elim (Result-cases (decode_stored r)) [
    | inl (ev, e) ↦ elim (Result-cases (collect keep rows (session t []))) [
      | inl ((rest, s'), e') ↦
          (ev, rest, e, (s', e'), same_events (sym h ∙ collect-gives r rows e e'))
      | inr (x, e') ↦ absurd (no_err (sym (collect-fails r rows e e') ∙ h))
    ]
    | inr (x, e) ↦ absurd (no_err (sym (collect-refused r rows e) ∙ h))
  ]

  cons_if-append :
      (b : Bool) (ev : Event) (xs ys : List Event) → cons_if b ev (xs ++ ys) ≡ cons_if b ev xs ++ ys
  cons_if-append true ev xs ys = refl
  cons_if-append false ev xs ys = refl

  pub collect-nil : {evs : List Event} → Collected [] evs → [] ≡ evs
  unfolding collect call
  collect-nil (s, h) = same_events h

  -- Visiting the rows from the last to the first puts together what `collect` gives.
  pub visits-reverse :
      {E : Type 0} (rows : List Stored) (st : List Event) {evs : List Event}
      → Collected rows evs
      → visits {E = E} keep t (reverse rows) st ≡ (evs ++ st, ok tt)
  unfolding each_row call
  visits-reverse [] st h = rw (sym (collect-nil h)) refl
  visits-reverse {E} (r ∷ rows) st h =
      let (ev, rest, e, h', q) = collect-cons r rows h in
      rw (reverse-cons) (
        visits-append {E = E} keep t (reverse rows) (r ∷ []) st _
          (visits-reverse {E = E} rows st h')
        ∙ visits-ok {E = E} keep t r [] (rest ++ st) e
        ∙ ap (λ l. (l, ok tt)) (cons_if-append (keep ev) ev rest st ∙ ap (λ l. l ++ st) (sym q)))
