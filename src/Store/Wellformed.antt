-- ===== src/Store/Wellformed.antt =====
-- What holds of the tables of internal/store: ids ascend, every change belongs to a transaction, and
-- no transaction is stored twice.
use mulligan.Base.{
  ℕ, ◌<◌, ◌≡◌, refl, Bool, true, false, List, [], ◌∷◌, ◌++◌, map, filter, ltb, All, All-append,
  All-imp, All-filter, arith, Bool-cases, inl, inr, ◌⊎◌,
}
use mulligan.Base.Sorting.{Ordered}
use mulligan.Base.Int.{ℤ}
use mulligan.Base.Text.{Bytes, beq}
use mulligan.Change.{Transaction, Checkpoint}
use mulligan.Store.Schema.{Txn, RowChange, Tables, Sqlite, coverage_to}
use mulligan.Store.Rows.{EncodedRow, row_of}
use mulligan.Store.Append.{has_source_id, insert_txn, put_row, put_checkpoint}
use mulligan.Store.Prune.{has_txn, delete_txns}
use mulligan.Store.Redelivery.{
  put_rows, put_if_new, appended, insert_txn-known, insert_txn-new, raise_to-rows,
}

abbrev pub txn_before : Txn → Txn → Bool
txn_before a b = ltb a.id b.id

abbrev pub row_before : RowChange → RowChange → Bool
row_before a b = ltb a.id b.id

abbrev pub Distinct : List Txn → Type 0
Distinct [] = Unit {0}
Distinct (t ∷ txns) = (has_source_id t.source_txn_id txns ≡ false) × Distinct txns

abbrev pub Owned : List Txn → List RowChange → Type 0
Owned txns rows = All (λ (r : RowChange). has_txn r.txn_id txns ≡ true) rows

abbrev pub RowsWellformed : List Txn → List RowChange → Type 0
RowsWellformed txns rows =
    Ordered txn_before txns × Ordered row_before rows × Owned txns rows × Distinct txns

abbrev pub Wellformed : Tables → Type 0
Wellformed t = RowsWellformed t.txns t.row_changes

module _ {A : Type 0} (before : A → A → Bool) where
  pub Ordered-append :
      (xs : List A) (y : A)
      → Ordered before xs
      → All (λ x. before x y ≡ true) xs
      → Ordered before (xs ++ y ∷ [])
  Ordered-append [] y h hy = (tt, tt)
  Ordered-append (x ∷ xs) y (hx, h) (hxy, hy) =
      (All-append _ xs (y ∷ []) hx (hxy, tt), Ordered-append xs y h hy)

  Ordered-filter : (p : A → Bool) (xs : List A) → Ordered before xs → Ordered before (filter p xs)
  Ordered-filter p [] h = h
  Ordered-filter p (x ∷ xs) (hx, h) = elim (Bool-cases (p x)) [
    | inl e ↦ rw (e) (All-filter (λ y. before x y ≡ true) p xs hx, Ordered-filter p xs h)
    | inr e ↦ rw (e) (Ordered-filter p xs h)
  ]

All-map :
    {A B : Type 0} (P : B → Type 0) (f : A → B) (xs : List A)
    → All P (map f xs)
    → All (λ x. P (f x)) xs
All-map P f [] h = h
All-map P f (x ∷ xs) (hx, h) = (hx, All-map P f xs h)

ltb-of-lt : (a b : ℕ) → a < b → ltb a b ≡ true
ltb-of-lt a b h = ground arith

pub fresh_id :
    {A : Type 0} (sql : Sqlite) (id : A → ℕ) (xs : List A)
    → All (λ x. ltb (id x) (sql.new_rowid (map id xs)) ≡ true) xs
fresh_id sql id xs =
    All-imp (λ x. id x < sql.new_rowid (map id xs)) _ (λ x h. ltb-of-lt (id x) _ h) xs
      (All-map (λ i. i < sql.new_rowid (map id xs)) id xs (sql.new_rowid_fresh (map id xs)))

has_txn-append :
    (id : ℕ) (txns : List Txn) (t : Txn)
    → has_txn id txns ≡ true
    → has_txn id (txns ++ t ∷ []) ≡ true
unfolding has_txn
has_txn-append id [] t h = absurd (cc)
has_txn-append id (x ∷ txns) t h = ground (arith, has_txn-append id txns t)

has_txn-last : (txns : List Txn) (t : Txn) → has_txn t.id (txns ++ t ∷ []) ≡ true
unfolding has_txn
has_txn-last [] t = ground arith
has_txn-last (x ∷ txns) t = ground (arith, has_txn-last txns t)

beq_sym : (s u : Bytes) → beq s u ≡ beq u s
beq_sym [] [] = refl
beq_sym [] (y ∷ u) = refl
beq_sym (x ∷ s) [] = refl
beq_sym (x ∷ s) (y ∷ u) = ground (arith, beq_sym s u)

has_source_id-append-false :
    (id : Bytes) (txns : List Txn) (t : Txn)
    → has_source_id id txns ≡ false
    → beq t.source_txn_id id ≡ false
    → has_source_id id (txns ++ t ∷ []) ≡ false
unfolding has_source_id
has_source_id-append-false id [] t h hb = ground arith
has_source_id-append-false id (x ∷ txns) t h hb =
    ground (arith, has_source_id-append-false id txns t)

Distinct-append :
    (txns : List Txn) (t : Txn)
    → Distinct txns
    → has_source_id t.source_txn_id txns ≡ false
    → Distinct (txns ++ t ∷ [])
unfolding has_source_id
Distinct-append [] t h hn = (refl, tt)
Distinct-append (x ∷ txns) t (hx, h) hn = (
  has_source_id-append-false x.source_txn_id txns t hx
      (ground (arith, beq_sym x.source_txn_id t.source_txn_id)),
  Distinct-append txns t h (ground arith),
)

has_source_id-filter :
    (id : Bytes) (p : Txn → Bool) (txns : List Txn)
    → has_source_id id txns ≡ false
    → has_source_id id (filter p txns) ≡ false
unfolding has_source_id
has_source_id-filter id p [] h = h
has_source_id-filter id p (x ∷ txns) h = ground (arith, has_source_id-filter id p txns)

Distinct-filter : (p : Txn → Bool) (txns : List Txn) → Distinct txns → Distinct (filter p txns)
Distinct-filter p [] h = h
Distinct-filter p (x ∷ txns) (hx, h) = elim (Bool-cases (p x)) [
  | inl e ↦ rw (e) (has_source_id-filter x.source_txn_id p txns hx, Distinct-filter p txns h)
  | inr e ↦ rw (e) (Distinct-filter p txns h)
]

All-of-filter : {A : Type 0} (p : A → Bool) (xs : List A) → All (λ x. p x ≡ true) (filter p xs)
All-of-filter p [] = tt
All-of-filter p (x ∷ xs) = elim (Bool-cases (p x)) [
  | inl e ↦ rw (e) (e, All-of-filter p xs)
  | inr e ↦ rw (e) (All-of-filter p xs)
]

module _ (sql : Sqlite) where
  put_row-Wellformed :
      (id : ℕ) (r : EncodedRow) (t : Tables)
      → has_txn id t.txns ≡ true
      → Wellformed t
      → Wellformed (put_row sql id r t)
  unfolding put_row row_of
  put_row-Wellformed id r t hid (ht, hr, ho, hd) = (
    ht,
    Ordered-append row_before t.row_changes _ hr
        (fresh_id sql (λ (x : RowChange). x.id) t.row_changes),
    All-append _ t.row_changes _ ho (hid, tt),
    hd,
  )

  put_rows-Wellformed :
      (id : ℕ) (rows : List EncodedRow) (t : Tables)
      → has_txn id t.txns ≡ true
      → Wellformed t
      → Wellformed (put_rows sql id rows t)
  unfolding put_rows put_row
  put_rows-Wellformed id [] t hid h = h
  put_rows-Wellformed id (r ∷ rows) t hid h =
      put_rows-Wellformed id rows (put_row sql id r t) (unfold_txns hid)
        (put_row-Wellformed id r t hid h)
    where
      unfold_txns : has_txn id t.txns ≡ true → has_txn id (put_row sql id r t).txns ≡ true
      unfold_txns h = h

  new_txn-Wellformed :
      (txn : Transaction) (t : Tables) (x : Txn)
      → x.id ≡ sql.new_rowid (map (λ (y : Txn). y.id) t.txns)
      → has_source_id x.source_txn_id t.txns ≡ false
      → Wellformed t
      → Wellformed (record t { txns = t.txns ++ x ∷ [] })
  new_txn-Wellformed txn t x hx hn (ht, hr, ho, hd) = (
    Ordered-append txn_before t.txns x ht (rw (hx) (fresh_id sql (λ (y : Txn). y.id) t.txns)),
    hr,
    All-imp (λ (r : RowChange). has_txn r.txn_id t.txns ≡ true) _
        (λ r. has_txn-append r.txn_id t.txns x) t.row_changes ho,
    Distinct-append t.txns x hd hn,
  )

  pub appended-Wellformed :
      (txn : Transaction) (cp : Checkpoint) (rows : List EncodedRow) (t : Tables)
      → Wellformed t
      → Wellformed (appended sql txn cp rows t)
  unfolding appended put_checkpoint put_if_new
  appended-Wellformed txn cp rows t h =
      rw ((raise_to-rows sql coverage_to _ _).0, (raise_to-rows sql coverage_to _ _).1)
        (go (Bool-cases (has_source_id txn.source_id t.txns)))
    where
      go :
          (has_source_id txn.source_id t.txns ≡ true) ⊎ (has_source_id txn.source_id t.txns ≡ false)
          → Wellformed (put_if_new sql (insert_txn sql txn t).0 rows (insert_txn sql txn t).1)
      go (inl e) = rw (insert_txn-known sql txn t e) h
      go (inr e) = rw (insert_txn-new sql txn t e) (
          put_rows-Wellformed _ rows _ (has_txn-last t.txns _)
            (new_txn-Wellformed txn t _ refl e h))

  pub delete_txns-Wellformed :
      (edge : ℤ) (t : Tables) → Wellformed t → Wellformed (delete_txns edge t).1
  unfolding delete_txns
  delete_txns-Wellformed edge t (ht, hr, ho, hd) = (
    Ordered-filter txn_before _ t.txns ht,
    Ordered-filter row_before _ t.row_changes hr,
    All-of-filter _ t.row_changes,
    Distinct-filter _ t.txns hd,
  )
