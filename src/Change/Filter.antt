-- ===== src/Change/Filter.antt =====
-- internal/change/filter.go. `equal_fold` is `strings.EqualFold`.
use mulligan.Base.{Bool, true, false, not, ◌&&◌, ◌||◌, List, [], ◌∷◌, ◌++◌, if◌then◌else◌}
use mulligan.Base.Text.{Bytes}
use mulligan.Base.Time.{Time, is_zero, before, after}
use mulligan.Change.{Event, is_schema_change}

pub record Filter : Type 0 where
  pub tables : List Bytes
  pub from : Time
  pub to : Time

module _ (equal_fold : Bytes → Bytes → Bool) where
  unfoldable pub names_table : List Bytes → Bytes → Bytes → Bool
  names_table [] table qualified = false
  names_table (want ∷ tables) table qualified =
      equal_fold want table || equal_fold want qualified || names_table tables table qualified

  -- `matchesTable`: no names stand for every table.
  unfoldable pub matches_table : Filter → Bytes → Bytes → Bool
  matches_table f schema table = elim f.tables [
    | [] ↦ true
    | want ∷ tables ↦ names_table (want ∷ tables) table (schema ++ b'.' ∷ table)
  ]

  -- `Match`
  unfoldable pub match : Filter → Event → Bool
  match f ev =
      if not (is_schema_change ev) && not (matches_table f ev.schema ev.table)
      then false
      else if not (is_zero f.from) && before ev.at f.from
      then false
      else if not (is_zero f.to) && after ev.at f.to
      then false
      else true
