-- ===== src/Source/Collect.antt =====
-- What the collector keeps of a transaction: wanted and markGenerated of
-- internal/source/mysql/source.go. The map `Generated` is a list of its entries.
use mulligan.Base.{true, ◌||◌, List, [], ◌∷◌, ◌++◌, filter, map, if◌then◌else◌}
use mulligan.Base.Text.{Bytes, beq}
use mulligan.Base.Unicode.{Unicode}
use mulligan.Change.{Column, Event, is_schema_change}
use mulligan.Change.Filter.{Filter, match}

-- A lookup in the map: no names for a key that is not there.
unfoldable pub generated_of : List (Bytes × List Bytes) → Bytes → List Bytes
generated_of [] key = []
generated_of ((k, names) ∷ entries) key =
    let rest = generated_of entries key in if beq k key then names else rest

module _ (u : Unicode) where
  -- `wanted`
  unfoldable pub wanted : Filter → List Event → List Event
  wanted collect events = elim collect.tables [
    | [] ↦ events
    | table ∷ tables ↦ filter (λ ev. is_schema_change ev || match u.equal_fold collect ev) events
  ]

  unfoldable pub mark_column : Bytes → Column → Column
  mark_column name c = if u.equal_fold c.name name then record c { read_only = true } else c

  unfoldable pub mark_names : List Bytes → List Column → List Column
  mark_names [] columns = columns
  mark_names (name ∷ names) columns = mark_names names (map (mark_column name) columns)

  unfoldable pub mark_generated_event : List (Bytes × List Bytes) → Event → Event
  mark_generated_event generated ev = record ev {
    columns = mark_names (generated_of generated (ev.schema ++ b'.' ∷ ev.table)) ev.columns;
  }

  -- `markGenerated`
  unfoldable pub mark_generated : List (Bytes × List Bytes) → List Event → List Event
  mark_generated [] events = events
  mark_generated (entry ∷ generated) events = map (mark_generated_event (entry ∷ generated)) events
