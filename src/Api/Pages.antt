-- ===== src/Api/Pages.antt =====
-- A client that follows the cursors sees the whole window.
use mulligan.Base.{
  ℕ, zero, suc, ◌≤◌, ◌<◌, ◌≡◌, refl, sym, ap, ◌∙◌, Bool, true, Option, none, some, List, [], ◌∷◌,
  length, length-append, ltb, ◌==◌, All, All-filter, Result, ok, err, Bool-cases, Result-cases, inl,
  inr, ◌⊎◌, arith,
}
use mathlib.Core.List.{reverse, reverse-cons}
use mulligan.Base.Int.{ℤ, pos, negsuc}
use mulligan.Base.Sorting.{All-reverse, sort_by}
use mulligan.Base.Text.{Bytes}
use mulligan.Base.Time.{Time}
use mulligan.Change.{Event}
use mulligan.Change.Filter.{Filter, match}
use mulligan.Store.Schema.{Tables, StoreError, RowChange, Txn}
use mulligan.Store.Tx.{session, ◌>>=◌, ◌>>◌, call, read_only, settle}
use mulligan.Store.Read.{
  Entry, Stored, join, join_row, find_txn, events, page, page_rows, page_size, behind, admit,
  collect, oldest_first, newest_first,
}
use mulligan.Store.Wellformed.{Wellformed}
use mulligan.Store.Order.{Collected, oldest_first-join, newest_first-join, join-Ordered}
use mulligan.Store.Reading.{admit-Reads, events-admitted, events-refused}
use mulligan.Api.Changes.{effective_limit, next_cursor, last_id, change_page, follow, follow_next}
use mulligan.Api.Cursor.{
  take, below, Falling, cut-page, below-below, below-All, below-Falling, last_id-le,
  last_id-positive, take_whole, take-All,
}
use mulligan.Api.Listed.{
  events_of, listed, Decodes, listed-Collected, page_rows-take, listed-behind, listed-All,
  listed-Falling, listed-reverse, Ordered-reverse,
}
use mulligan.Store.Coverage.{read_coverage, meta_int, parse_meta}

limit-agrees : (limit : ℤ) → effective_limit limit ≡ page_size limit
unfolding effective_limit page_size
limit-agrees (pos n) = refl
limit-agrees (negsuc n) = refl

limit-positive : (limit : ℤ) → 0 < page_size limit
unfolding page_size
limit-positive (pos n) = ground arith
limit-positive (negsuc n) = omega arith

behind-start : (rows : List Stored) → behind (pos 0) rows ≡ rows
unfolding behind
behind-start [] = refl
behind-start (r ∷ rows) = ap (λ l. r ∷ l) (behind-start rows)

-- The ids of the rows of the join are those of the changes.
joined-All :
    (P : ℕ → Type 0) (txns : List Txn) (rows : List RowChange)
    → All (λ (r : RowChange). P r.id) rows
    → All (λ (r : Stored). P r.row.id) (join txns rows)
unfolding join
joined-All P txns [] h = tt
joined-All P txns (r ∷ rows) (hr, h) = one (find_txn r.txn_id txns) (joined-All P txns rows h)
  where
    one :
        (o : Option Txn)
        → All (λ (r : Stored). P r.row.id) (join txns rows)
        → All (λ (r : Stored). P r.row.id) (join_row o r (join txns rows))
    one none k = k
    one (some x) k = (hr, k)

length-events_of : (es : List Entry) → length (events_of es) ≡ length es
length-events_of [] = refl
length-events_of (e ∷ es) = ap suc (length-events_of es)

length-reverse : (evs : List Event) → length (reverse evs) ≡ length evs
length-reverse [] = refl
length-reverse (ev ∷ evs) =
    ap length (reverse-cons ev evs)
    ∙ length-append (reverse evs) (ev ∷ [])
    ∙ omega (arith, length-reverse evs)

module _ (equal_fold : Bytes → Bytes → Bool) (f : Filter) (limit : ℤ) (now : Time)
    (t : Tables) where
  page-admitted :
      (cursor : ℤ) {u : Unit {0}}
      → admit f now (session t []) ≡ ok (u, session t [])
      → page equal_fold f cursor limit now t []
        ≡ (settle t (
            page_rows
              (match equal_fold f)
              (page_size limit)
              (behind cursor (newest_first t))
              (session t []))).1
  unfolding page read_only call admit page_rows read_coverage behind meta_int newest_first
      parse_meta sort_by
  page-admitted cursor e = rw (e, ◌>>=◌, ◌>>◌) refl

  abbrev keep : Event → Bool
  keep = match equal_fold f

  abbrev entries : List Entry
  entries = listed keep (newest_first t)

  page-take :
      (cursor : ℤ) (rows : List Stored) {u : Unit {0}}
      → admit f now (session t []) ≡ ok (u, session t [])
      → behind cursor (newest_first t) ≡ rows
      → All (Decodes keep) rows
      → page equal_fold f cursor limit now t [] ≡ ok (take (page_size limit) (listed keep rows))
  page-take cursor rows e b d =
      page-admitted cursor e
      ∙ ap (λ l. (settle t (page_rows keep (page_size limit) l (session t []))).1) b
      ∙ ap (λ r. (settle t r).1) (page_rows-take keep t (page_size limit) rows d)

  -- What is left behind a cursor.
  Rest : ℕ → List Entry → Type 0
  Rest c r = ((c ≡ 0) × (r ≡ entries)) ⊎ ((0 < c) × (r ≡ below c entries))

  behind-Decodes :
      (c : ℤ) (rows : List Stored) → All (Decodes keep) rows → All (Decodes keep) (behind c rows)
  unfolding behind
  behind-Decodes c [] h = tt
  behind-Decodes c (r ∷ rows) (hr, h) = ground (arith, behind-Decodes c rows h)

  page-Rest :
      (c : ℕ) (r : List Entry) {u : Unit {0}}
      → admit f now (session t []) ≡ ok (u, session t [])
      → All (Decodes keep) (newest_first t)
      → Rest c r
      → page equal_fold f (pos c) limit now t [] ≡ ok (take (page_size limit) r)
  unfolding Rest
  page-Rest c r e d (inl (hc, hr)) =
      ap (λ i. page equal_fold f (pos i) limit now t []) hc
      ∙ page-take (pos 0) (newest_first t) e (behind-start (newest_first t)) d
      ∙ ap (λ l. ok (take (page_size limit) l)) (sym hr)
  page-Rest c r e d (inr (hc, hr)) =
      page-take (pos c) (behind (pos c) (newest_first t)) e refl
        (behind-Decodes (pos c) (newest_first t) d)
      ∙ ap (λ l. ok (take (page_size limit) l)) (listed-behind keep c (newest_first t) hc ∙ sym hr)

  follow-step :
      (fuel c : ℕ) {es : List Entry}
      → page equal_fold f (pos c) limit now t [] ≡ ok es
      → follow equal_fold (suc fuel) f (pos c) limit now t
        ≡ follow_next equal_fold es
            (next_cursor limit es)
            (λ i. follow equal_fold fuel f (pos i) limit now t)
  unfolding follow change_page
  follow-step fuel c h = rw (h) refl

  Rest-next : (c i : ℕ) (r : List Entry) → Rest c r → 0 < i → (0 < c → i ≤ c) → Rest i (below i r)
  unfolding Rest
  Rest-next c i r (inl (hc, hr)) hi hle = inr (hi, ap (below i) hr)
  Rest-next c i r (inr (hc, hr)) hi hle =
      inr (hi, ap (below i) hr ∙ below-below i c entries (hle hc))

  Rest-below : (c : ℕ) (r : List Entry) → Rest c r → 0 < c → All (λ e. ltb e.id c ≡ true) r
  unfolding Rest
  Rest-below c r (inl (hc, hr)) h = absurd (omega arith)
  Rest-below c r (inr (hc, hr)) h = rw (hr) (below-All c entries)

  positive_suc : (n : ℕ) → 0 < n → (m : ℕ) × (n ≡ suc m)
  positive_suc zero h = absurd (omega arith)
  positive_suc (suc m) h = (m, refl)

  Sound : List Entry → Type 0
  Sound r = Falling r × All (λ e. 0 < e.id) r

  -- The page of entries that are left, and what stands behind it.
  module _ (e : Entry) (r : List Entry) (m : ℕ) where
    abbrev last : ℕ
    last = last_id e.id (take m r)

    shorter :
        Falling (e ∷ r)
        → (fuel : ℕ) → length (e ∷ r) < suc fuel
        → length (below last (e ∷ r)) < fuel
    shorter h fuel k =
        omega
          (arith, ap length (cut-page m e r h), length-append (e ∷ take m r) (below last (e ∷ r)))

    last-positive : All (λ e. 0 < e.id) (e ∷ r) → 0 < last
    last-positive (he, h) = last_id-positive e.id (take m r) he (take-All (λ e. 0 < e.id) m r h)

    below-Sound : Sound (e ∷ r) → Sound (below last (e ∷ r))
    unfolding Sound
    below-Sound (h, k) =
        (below-Falling last (e ∷ r) h, All-filter (λ e. 0 < e.id) (λ x. ltb x.id last) (e ∷ r) k)

    last-le : (c : ℕ) → Falling (e ∷ r) → ltb e.id c ≡ true → last ≤ c
    last-le c (fe, h) k = ground (arith, last_id-le m e.id r fe h)

  follow_next-Rest :
      (m fuel c : ℕ) (r : List Entry) (rest : ℕ → Result StoreError (Option (List Entry)))
      → effective_limit limit ≡ suc m
      → Rest c r
      → Sound r
      → length r < suc fuel
      → ((i : ℕ)
          → Rest i (below i r)
          → Sound (below i r)
          → length (below i r) < fuel
          → rest i ≡ ok (some (below i r)))
      → follow_next equal_fold (take (suc m) r) (next_cursor limit (take (suc m) r)) rest
        ≡ ok (some r)
  unfolding next_cursor Sound
  follow_next-Rest m fuel c [] rest q h s k next = refl
  follow_next-Rest m fuel c (e ∷ r) rest q h (s, z) k next =
      elim (Bool-cases (length (e ∷ take m r) == effective_limit limit)) [
        | inl x ↦
            rw
              (
                x,
                next (last e r m)
                    (Rest-next c (last e r m) (e ∷ r) h (last-positive e r m z)
                      (λ hc. last-le e r m c s ((Rest-below c (e ∷ r) h hc).0)))
                    (below-Sound e r m (s, z)) (shorter e r m s fuel k),
              )
              (ap (λ es. ok (some es)) (cut-page m e r s))
        | inr x ↦ rw (x) (ap (λ es. ok (some es)) (take_whole (suc m) (e ∷ r) (rw (q) at x)))
      ]

  follow-Rest :
      (fuel c : ℕ) (r : List Entry) {u : Unit {0}}
      → admit f now (session t []) ≡ ok (u, session t [])
      → All (Decodes keep) (newest_first t)
      → Rest c r
      → Sound r
      → length r < fuel
      → follow equal_fold fuel f (pos c) limit now t ≡ ok (some r)
  unfolding Sound
  follow-Rest zero c r a d h s k = absurd (omega arith)
  follow-Rest (suc fuel) c r a d h s k =
      let (m, q) = positive_suc (page_size limit) (limit-positive limit) in
      follow-step fuel c (page-Rest c r a d h ∙ ap (λ n. ok (take n r)) q)
      ∙ follow_next-Rest m fuel c r (λ i. follow equal_fold fuel f (pos i) limit now t)
          (limit-agrees limit ∙ q) h s k (λ i hi si ki. follow-Rest fuel i (below i r) a d hi si ki)

  no_err :
      {x : StoreError} {evs : List Event}
      → ◌≡◌ {A = Result StoreError (List Event)} (err x) (ok evs)
      → ⊥
  no_err q = cc

  same : {a b : List Event} → ◌≡◌ {A = Result StoreError (List Event)} (ok a) (ok b) → a ≡ b
  same q = cc

  -- What a read of the window that succeeds went through.
  events-Collected :
      {evs : List Event}
      → events equal_fold f now t [] ≡ ok evs
      → (u : Unit {0}) × (admit f now (session t []) ≡ ok (u, session t []))
        × Collected keep t (oldest_first t) evs
  events-Collected {evs} h = elim (Result-cases (admit f now (session t []))) [
    | inl ((u, s), e) ↦
        let e' = e ∙ ap (λ x. ok (u, x)) (admit-Reads f now t u s e) in
        elim (Result-cases (collect keep (oldest_first t) (session t []))) [
          | inl ((got, s'), c) ↦ (
            u,
            e',
            (
              s',
              c
                  ∙ ap (λ l. ok (l, s'))
                      (same (
                        sym (events-admitted equal_fold f now t e' ∙ ap (λ x. (settle t x).1) c)
                        ∙ h)),
            ),
          )
          | inr (x, c) ↦ absurd (
              no_err (sym (events-admitted equal_fold f now t e' ∙ ap (λ x. (settle t x).1) c) ∙ h))
        ]
    | inr (x, e) ↦ absurd (no_err (sym (events-refused equal_fold f now t e) ∙ h))
  ]

  -- Where the store gives the changes of a window, a client that asks for page after page, each behind
  -- the cursor of the one before, reaches a page without a cursor within one page more than there are
  -- changes, and has seen exactly these changes, each once, newest first, whatever page size it asks for. The
  -- tables are well formed, ids are positive, and no call of the driver fails.
  pub follow-events :
      (fuel : ℕ) {evs : List Event}
      → Wellformed t
      → All (λ (r : RowChange). 0 < r.id) t.row_changes
      → events equal_fold f now t [] ≡ ok evs
      → length evs < fuel
      → (es : List Entry) × (follow equal_fold fuel f (pos 0) limit now t ≡ ok (some es))
        × (events_of es ≡ reverse evs)
  unfolding Rest Sound
  follow-events fuel {evs} w p h k =
      let (u, a, col) = events-Collected h in
      let rows = join t.txns t.row_changes in
      let old = oldest_first-join t w in
      let new = newest_first-join t w in
      let (dec, q) = listed-Collected keep t rows (rw (old) at col) in
      let shown : events_of entries ≡ reverse evs =
        ap (λ l. events_of (listed keep l)) new ∙ listed-reverse keep rows ∙ ap reverse (sym q) in
      let falling : Falling entries = rw (new) (
        listed-Falling keep (reverse rows)
          (Ordered-reverse rows (join-Ordered t.txns t.row_changes w.1))) in
      let positive : All (λ e. 0 < e.id) entries = rw (new) (
        listed-All keep (λ i. 0 < i) (reverse rows)
          (All-reverse (λ (r : Stored). 0 < r.row.id) rows
            (joined-All (λ i. 0 < i) t.txns t.row_changes p))) in
      let few : length entries < fuel =
        omega (arith, k, length-events_of entries, ap length shown, length-reverse evs) in
      (
        entries,
        follow-Rest fuel 0 entries a (rw (new) (All-reverse (Decodes keep) rows dec))
            (inl (refl, refl)) (falling, positive) few,
        shown,
      )
