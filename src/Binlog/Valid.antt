-- ===== src/Binlog/Valid.antt =====
-- Changes that come from a binlog pass the validation of the reverse engine.
use mulligan.Base.{
  ℕ, zero, suc, ◌<◌, ◌≡◌, refl, sym, ap, ◌∙◌, none, some, List, [], ◌∷◌, ◌++◌, map, length,
  length-map, ◌==◌, ==_iff, ltb, Result, ok, >>=-eq-ok, guard, All, All-imp, arith,
}
use mulligan.Base.Text.{Bytes}
use mulligan.Change.{Op, Value, Column, Event, Image}
use mulligan.Reverse.Statement.{validate, validate_op}
use mulligan.Binlog.Event.{Header, RowValue, TableMap, RowsEvent}
use mulligan.Binlog.Convert.{
  ConvertError, no_column_names, bad_key_column, columns_of, mark_keys, set_primary_key,
  named_column, normalize_row, convert,
}
use mulligan.Binlog.Images.{HasImages, images_of, image_list, convert-Images, guard-ok}

length-set_primary_key :
    (cols : List Column) (i : ℕ) → length (set_primary_key cols i) ≡ length cols
unfolding set_primary_key
length-set_primary_key [] i = refl
length-set_primary_key (c ∷ cols) zero = refl
length-set_primary_key (c ∷ cols) (suc i) = ap suc (length-set_primary_key cols i)

ok-columns : {a b : List Column} → ◌≡◌ {A = Result ConvertError (List Column)} (ok a) (ok b) → a ≡ b
ok-columns h = cc

length-mark_keys :
    (cols : List Column) (key : List ℕ) {out : List Column}
    → mark_keys cols key ≡ ok out
    → length out ≡ length cols
unfolding mark_keys
length-mark_keys cols [] h = ap length (sym (ok-columns h))
length-mark_keys cols (i ∷ key) h =
    let (u, g, h') = >>=-eq-ok (guard (ltb i (length cols)) (bad_key_column i)) _ h in
    length-mark_keys (set_primary_key cols i) key h' ∙ length-set_primary_key cols i

-- A table's columns are as many as its map says.
pub length-columns_of :
    (tm : TableMap) {cols : List Column} → columns_of tm ≡ ok cols → length cols ≡ tm.column_count
unfolding columns_of
length-columns_of tm h =
    let (u, g, h') =
      >>=-eq-ok (guard (length tm.column_names == tm.column_count) no_column_names) _ h in
    length-mark_keys (map named_column tm.column_names) tm.primary_key h'
    ∙ length-map named_column tm.column_names
    ∙ (==_iff _ _).0 (guard-ok _ no_column_names g)

length-normalize_row : (row : List RowValue) → length (normalize_row row) ≡ length row
unfolding normalize_row
length-normalize_row [] = refl
length-normalize_row (v ∷ row) = ap suc (length-normalize_row row)

normalized-All :
    (n : ℕ) (rows : List (List RowValue))
    → All (λ (row : List RowValue). length row ≡ n) rows
    → All (λ (row : List Value). length row ≡ n) (map normalize_row rows)
normalized-All n [] h = tt
normalized-All n (row ∷ rows) (hr, h) = (length-normalize_row row ∙ hr, normalized-All n rows h)

abbrev Wide : ℕ → Event → Type 0
Wide n ev = All (λ (row : List Value). length row ≡ n) (image_list ev.before ++ image_list ev.after)

All-split : {A : Type 0} (P : A → Type 0) (xs ys : List A) → All P (xs ++ ys) → All P xs × All P ys
All-split P [] ys h = (tt, h)
All-split P (x ∷ xs) ys (hx, h) = let (hxs, hys) = All-split P xs ys h in ((hx, hxs), hys)

images-Wide :
    (n : ℕ) (events : List Event)
    → All (λ (row : List Value). length row ≡ n) (images_of events)
    → All (Wide n) events
images-Wide n [] h = tt
images-Wide n (ev ∷ events) h =
    let (hev, rest) =
      All-split _ (image_list ev.before ++ image_list ev.after) (images_of events) h in
    (hev, images-Wide n events rest)

All-both :
    {A : Type 0} (P Q : A → Type 0) (xs : List A) → All P xs → All Q xs → All (λ x. P x × Q x) xs
All-both P Q [] hp hq = tt
All-both P Q (x ∷ xs) (px, hp) (qx, hq) = ((px, qx), All-both P Q xs hp hq)

abbrev Rows : ℕ → Image → Type 0
Rows n none = Unit {0}
Rows n (some row) = length row ≡ n

image-Rows :
    (n : ℕ) (before after : Image)
    → All (λ (row : List Value). length row ≡ n) (image_list before ++ image_list after)
    → Rows n before × Rows n after
image-Rows n none none h = (tt, tt)
image-Rows n none (some a) h = (tt, h.0)
image-Rows n (some b) none h = (h.0, tt)
image-Rows n (some b) (some a) h = (h.0, h.1.0)

validate_op-Wide :
    (n : ℕ) (op : Op) (ev : Event)
    → HasImages op ev
    → Rows n ev.before
    → Rows n ev.after
    → length ev.columns ≡ n
    → validate_op op ev ≡ ok tt
unfolding validate_op
validate_op-Wide n Op.insert ev (hb, (row, ha)) rb ra hc = ground arith
validate_op-Wide n Op.update ev ((b, hb), (a, ha)) rb ra hc = ground arith
validate_op-Wide n Op.delete ev ((b, hb), ha) rb ra hc = ground arith
validate_op-Wide n Op.schema_change ev h rb ra hc = absurd h
validate_op-Wide n (Op.other k) ev h rb ra hc = absurd h

-- Every change that comes from a rows event passes the validation of the reverse engine, where the
-- table has a column and the library decodes a value for every column of every row.
pub convert-validate :
    (log_file : Bytes) (hdr : Header) (rows : RowsEvent) (tm : TableMap) {events : List Event}
    → rows.table ≡ some tm
    → 0 < tm.column_count
    → All (λ (row : List RowValue). length row ≡ tm.column_count) rows.rows
    → convert log_file hdr rows ≡ ok events
    → All (λ ev. validate ev ≡ ok tt) events
unfolding validate
convert-validate log_file hdr rows tm {events} ht hn hw h =
    let (tm', ht', images, whole) = convert-Images log_file hdr rows h in
    let same : tm' ≡ tm = same_table (sym ht' ∙ ht) in
    let n = tm.column_count in
    let wide = images-Wide n events (rw (images) (normalized-All n rows.rows hw)) in
    All-imp _ (λ ev. validate ev ≡ ok tt)
      (λ ev w. valid ev (w.0.1) (length-columns_of tm' w.0.2 ∙ ap (λ x. x.column_count) same) w.1)
      events (All-both _ (Wide n) events whole wide)
  where
    same_table : {a b : TableMap} → some a ≡ some b → a ≡ b
    same_table q = cc

    valid :
        (ev : Event)
        → HasImages ev.op ev
        → length ev.columns ≡ tm.column_count
        → Wide tm.column_count ev
        → validate ev ≡ ok tt
    valid ev hi hc hv =
        let (rb, ra) = image-Rows tm.column_count ev.before ev.after hv in
        ground (arith, validate_op-Wide tm.column_count ev.op ev hi rb ra hc)
