-- ===== src/Change/Readonly.antt =====
-- internal/change/readonly.go.
pub mod Reference
use mulligan.Base.{
  ℕ, zero, suc, ◌+◌, ◌≡◌, refl, ap, ◌∙◌, sym, Bool, true, false, not, ◌&&◌, ◌||◌, Option, none,
  some, List, [], ◌∷◌, ◌++◌, map, length, if◌then◌else◌, append_assoc, Bool-cases, inl, inr, arith,
}
use mulligan.Base.Text.{Bytes, contains}
use mulligan.Base.Unicode.{Unicode}
use mulligan.Change.{Column, Event}

abbrev pub read_only_column : Column → Column
read_only_column c = record c { read_only = true }

-- `marked[j].ReadOnly = true`
unfoldable pub mark_at : List Column → ℕ → List Column
mark_at [] j = []
mark_at (c ∷ cols) zero = read_only_column c ∷ cols
mark_at (c ∷ cols) (suc j) = c ∷ mark_at cols j

-- The columns as they are, or the copy of them that was made.
abbrev pub copy_of : List Column → Option (List Column) → List Column
copy_of cols none = cols
copy_of cols (some marked) = marked

module _ (u : Unicode) where
  -- The set `want`: names in lower case, without blanks.
  unfoldable pub wanted_names : List Bytes → List Bytes
  wanted_names [] = []
  wanted_names (name ∷ names) = elim (u.trim_space name) [
    | [] ↦ wanted_names names
    | c ∷ s ↦ u.to_lower (c ∷ s) ∷ wanted_names names
  ]

  unfoldable pub is_wanted : List Bytes → Event → Column → Bool
  is_wanted want ev c =
      contains want (u.to_lower c.name)
      || contains want (u.to_lower (ev.table ++ b'.' ∷ c.name))
      || contains want (u.to_lower (ev.schema ++ b'.' ∷ ev.table ++ b'.' ∷ c.name))

  -- The loop over the columns of an event from index `j` on. `marked` is nil until a column is
  -- marked, and then a copy of all columns.
  unfoldable pub mark_columns :
      List Bytes → Event → ℕ → List Column → Option (List Column) → Option (List Column)
  mark_columns want ev j [] marked = marked
  mark_columns want ev j (c ∷ cols) marked =
      mark_columns want ev (j + 1) cols
        (if not (is_wanted want ev c) then marked else some (mark_at (copy_of ev.columns marked) j))

  abbrev pub with_columns : Event → Option (List Column) → Event
  with_columns ev none = ev
  with_columns ev (some cols) = record ev { columns = cols }

  unfoldable pub mark_event : List Bytes → Event → Event
  mark_event want ev = with_columns ev (mark_columns want ev 0 ev.columns none)

  -- No name marks nothing.
  unfoldable pub mark_events : List Bytes → List Event → List Event
  mark_events [] events = events
  mark_events (w ∷ want) events = map (mark_event (w ∷ want)) events

  -- `MarkReadOnly`
  unfoldable pub mark_read_only : List Event → List Bytes → List Event
  mark_read_only events names = mark_events (wanted_names names) events
