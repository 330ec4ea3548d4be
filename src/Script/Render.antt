-- ===== src/Script/Render.antt =====
-- Render, writeReversal and writeSchemaWarning of internal/script/render.go, and the Writer of
-- internal/script/writer.go. A text is built of the lines that `Fprintln` and `Fprintf` end; errors of
-- the output itself are left out.
use mulligan.Base.{ℕ, suc, Bool, true, false, List, [], ◌∷◌, ◌++◌, length, if◌then◌else◌, ◌==◌}
use mulligan.Base.Text.{Bytes, codes, concat}
use mulligan.Base.Strings.{format_uint}
use mulligan.Base.Time.{Time}
use mulligan.Base.Unicode.{Unicode}
use mulligan.Change.{Event}
use mulligan.Change.Filter.{Filter}
use mulligan.Reverse.Statement.{Reversal}
use mulligan.Script.Comment.{comment_safe, op_text, plural, describe_window, em_dash}

-- Each line with the newline behind it.
unfoldable pub print : List Bytes → Bytes
print [] = []
print (l ∷ lines) = l ++ 10 ∷ print lines

abbrev pub set_time_zone : Bytes
set_time_zone = codes "SET time_zone = '+00:00';"

abbrev pub set_names : Bytes
set_names = codes "SET NAMES utf8mb4;"

abbrev pub title : Bytes
title = codes "-- mulligan revert script"

abbrev pub review : Bytes
review = (codes "-- REVIEW BEFORE RUNNING " ++ em_dash) ++ codes " nothing here has been executed."

abbrev pub no_changes : Bytes
no_changes = codes "-- no matching changes found"

module _ (u : Unicode) (stamp : Time → Bytes) where
  abbrev pub source_line : Bytes → Bytes
  source_line source = codes "-- source: " ++ comment_safe u source

  abbrev pub window_text : Bytes → List Bytes
  window_text [] = []
  window_text (c ∷ s) = (codes "-- window: " ++ c ∷ s) ∷ []

  abbrev pub undo_line : Event → Bytes
  undo_line ev = concat (
      codes "-- undo "
      ∷ op_text ev.op
      ∷ codes " "
      ∷ comment_safe u ev.schema
      ∷ codes "."
      ∷ comment_safe u ev.table
      ∷ codes " "
      ∷ em_dash
      ∷ codes " "
      ∷ comment_safe u ev.log_file
      ∷ codes ":"
      ∷ format_uint ev.log_pos
      ∷ codes " at "
      ∷ stamp ev.at
      ∷ [])

  abbrev pub caused_by : Bytes → List Bytes
  caused_by [] = []
  caused_by (c ∷ query) = (codes "-- caused by: " ++ comment_safe u (c ∷ query)) ∷ []

  -- `writeReversal`
  unfoldable pub write_reversal : Reversal → List Bytes
  write_reversal r = [] ∷ undo_line r.event ∷ (caused_by r.event.query ++ r.statement ∷ [])

  abbrev pub schema_line : Event → Bytes
  schema_line ev = concat (
      codes "--   "
      ∷ stamp ev.at
      ∷ codes " at "
      ∷ comment_safe u ev.log_file
      ∷ codes ":"
      ∷ format_uint ev.log_pos
      ∷ codes " "
      ∷ em_dash
      ∷ codes " "
      ∷ comment_safe u ev.query
      ∷ [])

  abbrev pub schema_lines : List Event → List Bytes
  schema_lines [] = []
  schema_lines (ev ∷ events) = schema_line ev ∷ schema_lines events

  abbrev pub warning : ℕ → Bytes
  warning n = concat (
      codes "-- WARNING: "
      ∷ plural n (codes "schema change")
      ∷ codes " in this window. The statements below describe"
      ∷ [])

  -- `writeSchemaWarning`
  unfoldable pub write_schema_warning : List Event → List Bytes
  write_schema_warning [] = []
  write_schema_warning (ev ∷ events) =
      codes "--"
      ∷ warning (length (ev ∷ events))
      ∷ codes "-- each table as it was at the time, which may not be its shape now. A dropped or"
      ∷ codes "-- renamed column makes the script fail; a retyped one restores a converted value"
      ∷ codes "-- without complaining. Check these against the tables before running:"
      ∷ schema_lines (ev ∷ events)

  unfoldable pub write_reversals : List Reversal → List Bytes
  write_reversals [] = []
  write_reversals (r ∷ plan) = write_reversal r ++ write_reversals plan

  abbrev pub count_line : ℕ → Bytes
  count_line n =
      concat (codes "-- " ∷ plural n (codes "statement") ∷ codes ", newest change first" ∷ [])

  unfoldable pub render_plan : List Event → List Reversal → List Bytes
  render_plan schema_changes [] = no_changes ∷ []
  render_plan schema_changes (r ∷ plan) =
      count_line (length (r ∷ plan))
      ∷ review
      ∷ (write_schema_warning schema_changes
          ++ [] ∷ set_time_zone ∷ set_names ∷ write_reversals (r ∷ plan))

  -- `Render`
  unfoldable pub render : Bytes → Filter → List Event → List Reversal → Bytes
  render source window schema_changes plan = print (
      title
      ∷ source_line source
      ∷ (window_text (describe_window stamp window) ++ render_plan schema_changes plan))

  -- `Writer`
  pub record Writer : Type 0 where
    pub out : Bytes
    pub n : ℕ
    pub opened : Bool

  abbrev pub new_writer : Writer
  new_writer = record { out = []; n = 0; opened = false }

  -- `Open`
  unfoldable pub open_script : Bytes → Filter → List Event → Writer → Writer
  open_script source window schema_changes w = if w.opened then w else record w {
    opened = true;
    out =
        w.out
        ++ print (
            title
            ∷ source_line source
            ∷ (window_text (describe_window stamp window)
                ++ codes "-- newest change first"
                  ∷ review
                  ∷ (write_schema_warning schema_changes ++ [] ∷ set_time_zone ∷ set_names ∷ [])));
  }

  -- `Write`
  unfoldable pub write : Reversal → Writer → Writer
  write r w = record w { out = w.out ++ print (write_reversal r); n = suc w.n }

  -- `Close`
  unfoldable pub close : Writer → Writer
  close w = if w.n == 0 then record w { out = w.out ++ print (no_changes ∷ []) } else record w {
    out = w.out ++ print ([] ∷ (codes "-- end of script: " ++ plural w.n (codes "statement")) ∷ []);
  }

  unfoldable pub write_all : List Reversal → Writer → Writer
  write_all [] w = w
  write_all (r ∷ plan) w = write_all plan (write r w)
