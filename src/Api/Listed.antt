-- ===== src/Api/Listed.antt =====
-- The entries of a window: what the rows of a page decode to.
use mulligan.Base.{
  ℕ, zero, suc, ◌<◌, ◌≡◌, refl, sym, ap, ◌∙◌, Bool, true, false, List, [], ◌∷◌, ◌++◌, append_assoc,
  append-nil, ltb, ◌==◌, ◌||◌, All, Result, ok, err, Bool-cases, inl, inr, arith,
}
use mathlib.Core.List.{reverse, reverse-cons}
use mulligan.Base.Int.{pos, ltb_ℤ}
use mulligan.Base.Sorting.{Ordered, All-reverse}
use mulligan.Change.{Event}
use mulligan.Store.Schema.{Tables, StoreError}
use mulligan.Store.Tx.{session, ◌>>=◌, call}
use mulligan.Store.Read.{Entry, Stored, older, decode_stored, page_rows, behind, cons_if}
use mulligan.Store.Wellformed.{Ordered-append}
use mulligan.Store.Order.{Collected, collect-cons, collect-nil, scan_event-ok}
use mulligan.Api.Cursor.{take, below, Falling}

abbrev pub events_of : List Entry → List Event
events_of [] = []
events_of (e ∷ es) = e.event ∷ events_of es

module _ (keep : Event → Bool) where
  abbrev entry_if : Bool → ℕ → Event → List Entry
  entry_if true id ev = record { id = id; event = ev } ∷ []
  entry_if false id ev = []

  abbrev decoded_entry : ℕ → Result StoreError Event → List Entry
  decoded_entry id (ok ev) = entry_if (keep ev) id ev
  decoded_entry id (err e) = []

  unfoldable pub listed : List Stored → List Entry
  listed [] = []
  listed (r ∷ rows) = decoded_entry r.row.id (decode_stored r) ++ listed rows

  abbrev pub Decodes : Stored → Type 0
  Decodes r = (ev : Event) × (decode_stored r ≡ ok ev)

  cons_if-entry :
      (b : Bool) (id : ℕ) (ev : Event) (es : List Entry) {rest : List Event}
      → rest ≡ events_of es
      → cons_if b ev rest ≡ events_of (entry_if b id ev ++ es)
  cons_if-entry true id ev es h = ap (λ l. ev ∷ l) h
  cons_if-entry false id ev es h = h

  -- Where the store gives a window's changes, each row decodes, and these are the changes of the entries.
  pub listed-Collected :
      (t : Tables) (rows : List Stored) {evs : List Event}
      → Collected keep t rows evs
      → All Decodes rows × (evs ≡ events_of (listed rows))
  unfolding listed
  listed-Collected t [] h = (tt, sym (collect-nil keep t h))
  listed-Collected t (r ∷ rows) h =
      let (ev, rest, e, hr, q) = collect-cons keep t r rows h in
      let (d, p) = listed-Collected t rows hr in
      (((ev, e), d), q ∙ rw (e) (cons_if-entry (keep ev) r.row.id ev (listed rows) p))

  pub page_rows-take :
      (t : Tables) (n : ℕ) (rows : List Stored)
      → All Decodes rows
      → page_rows keep n rows (session t []) ≡ ok (take n (listed rows), session t [])
  unfolding page_rows listed call
  page_rows-take t zero [] h = refl
  page_rows-take t (suc n) [] h = refl
  page_rows-take t zero (r ∷ rows) h = refl
  page_rows-take t (suc n) (r ∷ rows) ((ev, e), h) = elim (Bool-cases (keep ev)) [
    | inl k ↦ rw (scan_event-ok t r e, ◌>>=◌, e, k, page_rows-take t n rows h) refl
    | inr k ↦ rw (scan_event-ok t r e, ◌>>=◌, e, k, page_rows-take t (suc n) rows h) refl
  ]

  listed-append : (xs ys : List Stored) → listed (xs ++ ys) ≡ listed xs ++ listed ys
  unfolding listed
  listed-append [] ys = refl
  listed-append (r ∷ xs) ys =
      ap (λ l. decoded_entry r.row.id (decode_stored r) ++ l) (listed-append xs ys)
      ∙ sym (append_assoc (decoded_entry r.row.id (decode_stored r)) (listed xs) (listed ys))

  entry-below-in :
      (c id : ℕ) (d : Result StoreError Event) (es : List Entry)
      → ltb id c ≡ true
      → below c (decoded_entry id d ++ es) ≡ decoded_entry id d ++ below c es
  entry-below-in c id (err x) es h = refl
  entry-below-in c id (ok ev) es h = elim (Bool-cases (keep ev)) [
    | inl k ↦ rw (k, h) refl
    | inr k ↦ rw (k) refl
  ]

  entry-below-out :
      (c id : ℕ) (d : Result StoreError Event) (es : List Entry)
      → ltb id c ≡ false
      → below c (decoded_entry id d ++ es) ≡ below c es
  entry-below-out c id (err x) es h = refl
  entry-below-out c id (ok ev) es h = elim (Bool-cases (keep ev)) [
    | inl k ↦ rw (k, h) refl
    | inr k ↦ rw (k) refl
  ]

  admits : (c id : ℕ) → 0 < c → ((c == 0) || ltb_ℤ (pos id) (pos c)) ≡ ltb id c
  admits c id h = ground arith

  -- The rows behind a cursor have the entries behind it.
  pub listed-behind :
      (c : ℕ) (rows : List Stored) → 0 < c → listed (behind (pos c) rows) ≡ below c (listed rows)
  unfolding listed behind
  listed-behind c [] h = refl
  listed-behind c (r ∷ rows) h = elim (Bool-cases (ltb r.row.id c)) [
    | inl e ↦
        rw (admits c r.row.id h, e)
          (ap (λ l. decoded_entry r.row.id (decode_stored r) ++ l) (listed-behind c rows h)
            ∙ sym (entry-below-in c r.row.id (decode_stored r) (listed rows) e))
    | inr e ↦
        rw (admits c r.row.id h, e)
          (listed-behind c rows h
            ∙ sym (entry-below-out c r.row.id (decode_stored r) (listed rows) e))
  ]

  entry-All :
      (P : ℕ → Type 0) (id : ℕ) (d : Result StoreError Event) (es : List Entry)
      → P id
      → All (λ (e : Entry). P e.id) es
      → All (λ (e : Entry). P e.id) (decoded_entry id d ++ es)
  entry-All P id (err x) es hp h = h
  entry-All P id (ok ev) es hp h = elim (Bool-cases (keep ev)) [
    | inl k ↦ rw (k) (hp, h)
    | inr k ↦ rw (k) h
  ]

  -- What holds of the ids of all rows holds of those of all entries.
  pub listed-All :
      (P : ℕ → Type 0) (rows : List Stored)
      → All (λ (r : Stored). P r.row.id) rows
      → All (λ (e : Entry). P e.id) (listed rows)
  unfolding listed
  listed-All P [] h = tt
  listed-All P (r ∷ rows) (hr, h) =
      entry-All P r.row.id (decode_stored r) (listed rows) hr (listed-All P rows h)

  entry-Falling :
      (id : ℕ) (d : Result StoreError Event) (es : List Entry)
      → All (λ (e : Entry). ltb e.id id ≡ true) es
      → Falling es
      → Falling (decoded_entry id d ++ es)
  entry-Falling id (err x) es ha h = h
  entry-Falling id (ok ev) es ha h = elim (Bool-cases (keep ev)) [
    | inl k ↦ rw (k) (ha, h)
    | inr k ↦ rw (k) h
  ]

  -- Entries stand newest first where the rows do.
  pub listed-Falling :
      (rows : List Stored) → Ordered (λ a b. older b a) rows → Falling (listed rows)
  unfolding listed
  listed-Falling [] h = tt
  listed-Falling (r ∷ rows) (hr, h) =
      entry-Falling r.row.id (decode_stored r) (listed rows)
        (listed-All (λ i. ltb i r.row.id ≡ true) rows hr) (listed-Falling rows h)

  events_of-append : (xs ys : List Entry) → events_of (xs ++ ys) ≡ events_of xs ++ events_of ys
  events_of-append [] ys = refl
  events_of-append (e ∷ xs) ys = ap (λ l. e.event ∷ l) (events_of-append xs ys)

  entry-events_of :
      (id : ℕ) (d : Result StoreError Event) (es : List Entry)
      → reverse (events_of es) ++ events_of (decoded_entry id d)
        ≡ reverse (events_of (decoded_entry id d ++ es))
  entry-events_of id (err x) es = append-nil (reverse (events_of es))
  entry-events_of id (ok ev) es = elim (Bool-cases (keep ev)) [
    | inl k ↦ rw (k) (sym (reverse-cons ev (events_of es)))
    | inr k ↦ rw (k) (append-nil (reverse (events_of es)))
  ]

  pub listed-reverse :
      (rows : List Stored) → events_of (listed (reverse rows)) ≡ reverse (events_of (listed rows))
  unfolding listed
  listed-reverse [] = refl
  listed-reverse (r ∷ rows) =
      ap (λ l. events_of (listed l)) (reverse-cons r rows)
      ∙ ap events_of (listed-append (reverse rows) (r ∷ []))
      ∙ events_of-append (listed (reverse rows)) (listed (r ∷ []))
      ∙ ap (λ l. l ++ events_of (decoded_entry r.row.id (decode_stored r) ++ []))
          (listed-reverse rows)
      ∙ ap (λ l. reverse (events_of (listed rows)) ++ events_of l)
          (append-nil (decoded_entry r.row.id (decode_stored r)))
      ∙ entry-events_of r.row.id (decode_stored r) (listed rows)

pub Ordered-reverse :
    (rows : List Stored) → Ordered older rows → Ordered (λ a b. older b a) (reverse rows)
Ordered-reverse [] h = tt
Ordered-reverse (r ∷ rows) (hr, h) = rw (reverse-cons) (
    Ordered-append (λ a b. older b a) (reverse rows) r (Ordered-reverse rows h)
      (All-reverse (λ x. older r x ≡ true) rows hr))
