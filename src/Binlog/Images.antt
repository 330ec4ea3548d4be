-- ===== src/Binlog/Images.antt =====
-- What `Convert` makes of the row images of a rows event.
use mulligan.Base.{
  ◌%◌, ◌≡◌, refl, sym, ap, ◌∙◌, Bool, true, false, not, Option, none, some, List, [], ◌∷◌, ◌++◌,
  map, length, ◌==◌, Result, ok, >>=-eq-ok, guard, ==_iff, All, All-imp, arith, ◌⊎◌,
}
use mulligan.Base.Int.{pos}
use mulligan.Base.Text.{Bytes}
use mulligan.Base.Time.{unix}
use mulligan.Change.{Op, Value, Column, Event, Image}
use mulligan.Binlog.Event.{EventType, Header, RowValue, TableMap, RowsEvent}
use mulligan.Binlog.Convert.{
  ConvertError, odd_images, partial_image, op_for, skipped_columns, columns_of, normalize_row,
  base_event, update_events, row_event, rows_of, table_of, convert,
}

abbrev pub image_list : Image → List (List Value)
image_list none = []
image_list (some row) = row ∷ []

-- All images of a list of changes, in order.
abbrev pub images_of : List Event → List (List Value)
images_of [] = []
images_of (ev ∷ events) = (image_list ev.before ++ image_list ev.after) ++ images_of events

-- A change has the images of its operation.
abbrev pub HasImages : Op → Event → Type 0
HasImages Op.insert ev = (ev.before ≡ none) × ((row : List Value) × (ev.after ≡ some row))
HasImages Op.update ev =
    ((row : List Value) × (ev.before ≡ some row)) × ((row : List Value) × (ev.after ≡ some row))
HasImages Op.delete ev = ((row : List Value) × (ev.before ≡ some row)) × (ev.after ≡ none)
HasImages op ev = ⊥

abbrev IsRowOp : Op → Type 0
IsRowOp op = (op ≡ Op.insert) ⊎ ((op ≡ Op.update) ⊎ (op ≡ Op.delete))

-- Where a change comes from.
abbrev pub IsFrom : Bytes → Header → TableMap → Event → Type 0
IsFrom log_file hdr tm ev =
    (op_for hdr.event_type ≡ ok ev.op)
    × (ev.schema ≡ tm.schema)
    × (ev.table ≡ tm.table)
    × (ev.log_file ≡ log_file)
    × (ev.log_pos ≡ hdr.log_pos)
    × (ev.at ≡ unix (pos hdr.timestamp))
    × (ev.server_id ≡ hdr.server_id)

ok-events : {a b : List Event} → ◌≡◌ {A = Result ConvertError (List Event)} (ok a) (ok b) → a ≡ b
ok-events h = cc

pub guard-ok : (b : Bool) (e : ConvertError) {u : Unit {0}} → guard b e ≡ ok u → b ≡ true
guard-ok true e h = refl
guard-ok false e h = absurd (cc)

op_for-IsRowOp : (t : EventType) {op : Op} → op_for t ≡ ok op → IsRowOp op
unfolding op_for
op_for-IsRowOp t h = ground arith

table_of-some : (table : Option TableMap) {tm : TableMap} → table_of table ≡ ok tm → table ≡ some tm
unfolding table_of
table_of-some none h = absurd (cc)
table_of-some (some x) h = cc

module _ (log_file : Bytes) (hdr : Header) (tm : TableMap) (cols : List Column) where
  abbrev Whole : Event → Type 0
  Whole ev = IsFrom log_file hdr tm ev × HasImages ev.op ev × (ev.columns ≡ cols)

  abbrev Given : List (List RowValue) → List Event → Type 0
  Given rows events = (images_of events ≡ map normalize_row rows) × All Whole events

  update-Given :
      (rows : List (List RowValue))
      → op_for hdr.event_type ≡ ok Op.update
      → length rows % 2 ≡ 0
      → Given rows (update_events (base_event log_file hdr tm Op.update cols) rows)
  unfolding update_events base_event
  update-Given [] ho h = (refl, tt)
  update-Given (before ∷ []) ho h = absurd (omega arith)
  update-Given (before ∷ (after ∷ rows)) ho h =
      let (images, whole) = update-Given rows ho (omega arith) in
      (
        ap (λ l. normalize_row before ∷ normalize_row after ∷ l) images,
        (
          (
            (ho, refl, refl, refl, refl, refl, refl),
            ((normalize_row before, refl), (normalize_row after, refl)),
            refl,
          ),
          whole,
        ),
      )

  insert-Given :
      (rows : List (List RowValue))
      → op_for hdr.event_type ≡ ok Op.insert
      → Given rows (map (row_event (base_event log_file hdr tm Op.insert cols) Op.insert) rows)
  unfolding row_event base_event
  insert-Given [] ho = (refl, tt)
  insert-Given (row ∷ rows) ho =
      let (images, whole) = insert-Given rows ho in
      (
        ap (λ l. normalize_row row ∷ l) images,
        (
          ((ho, refl, refl, refl, refl, refl, refl), (refl, (normalize_row row, refl)), refl),
          whole,
        ),
      )

  delete-Given :
      (rows : List (List RowValue))
      → op_for hdr.event_type ≡ ok Op.delete
      → Given rows (map (row_event (base_event log_file hdr tm Op.delete cols) Op.delete) rows)
  unfolding row_event base_event
  delete-Given [] ho = (refl, tt)
  delete-Given (row ∷ rows) ho =
      let (images, whole) = delete-Given rows ho in
      (
        ap (λ l. normalize_row row ∷ l) images,
        (
          ((ho, refl, refl, refl, refl, refl, refl), ((normalize_row row, refl), refl), refl),
          whole,
        ),
      )

  rows_of-Given :
      (op : Op) (rows : List (List RowValue)) {events : List Event}
      → op_for hdr.event_type ≡ ok op
      → IsRowOp op
      → rows_of (base_event log_file hdr tm op cols) op rows ≡ ok events
      → Given rows events
  unfolding rows_of
  rows_of-Given Op.insert rows ho r h = rw (sym (ok-events h)) (insert-Given rows ho)
  rows_of-Given Op.update rows ho r h =
      let (u, g, h') = >>=-eq-ok (guard (length rows % 2 == 0) (odd_images (length rows))) _ h in
      rw (sym (ok-events h')) (
        update-Given rows ho
          ((==_iff _ 0).0 (guard-ok (length rows % 2 == 0) (odd_images (length rows)) g)))
  rows_of-Given Op.delete rows ho r h = rw (sym (ok-events h)) (delete-Given rows ho)
  rows_of-Given Op.schema_change rows ho r h = absurd (ground arith)
  rows_of-Given (Op.other n) rows ho r h = absurd (ground arith)

-- A rows event that converts gives every row image to exactly one change, in order and with its values
-- normalized: the images of the changes are the rows of the event, each change has the images of its
-- operation, and carries the table, the position, the time and the server of the event.
pub convert-Images :
    (log_file : Bytes) (hdr : Header) (rows : RowsEvent) {events : List Event}
    → convert log_file hdr rows ≡ ok events
    → (tm : TableMap) × (rows.table ≡ some tm)
      × (images_of events ≡ map normalize_row rows.rows)
      × All
          (λ ev. IsFrom log_file hdr tm ev × HasImages ev.op ev × (columns_of tm ≡ ok ev.columns))
          events
unfolding convert
convert-Images log_file hdr rows h =
    let (op, ho, h1) = >>=-eq-ok (op_for hdr.event_type) _ h in
    let (tm, ht, h2) = >>=-eq-ok (table_of rows.table) _ h1 in
    let (u, hs, h3) =
      >>=-eq-ok (guard (not (skipped_columns rows.skipped_columns)) partial_image) _ h2 in
    let (cols, hc, h4) = >>=-eq-ok (columns_of tm) _ h3 in
    let (images, whole) =
      rows_of-Given log_file hdr tm cols op rows.rows ho (op_for-IsRowOp hdr.event_type ho) h4 in
    (
      tm,
      table_of-some rows.table ht,
      images,
      All-imp (Whole log_file hdr tm cols) _ (λ ev w. (w.0, w.1, hc ∙ ap ok (sym (w.2)))) _ whole,
    )
