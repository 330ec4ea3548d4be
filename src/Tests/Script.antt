-- ===== src/Tests/Script.antt =====
-- A script of one statement, with a log file whose name tries to end its comment.
use mulligan.Base.{◌≡◌, refl, List, [], ◌∷◌, ◌++◌, All}
use mulligan.Base.Text.{Bytes, codes}
use mulligan.Base.Time.{Time}
use mulligan.Base.Strings.Runes.{Plain}
use mulligan.Change.{Event}
use mulligan.Binlog.Read.Filtered.{everything}
use mulligan.Reverse.Statement.{Reversal}
use mulligan.Script.Render.{print, render}
use mulligan.Script.Lines.{uncommented, IsCode}
use mulligan.Script.Lines.Safe.{literal-Plain}
use mulligan.Script.Lines.Code.{rendered_code, streamed_code}
use mulligan.Script.Read.{streamed, script-uncommented}
use mulligan.Tests.Change.{ascii, priced}

abbrev stamp : Time → Bytes
stamp t = codes "2026-01-02 03:04:05 UTC"

plain_stamp : (t : Time) → Plain (stamp t)
plain_stamp t = literal-Plain (codes "2026-01-02 03:04:05 UTC") refl

abbrev hostile : Event
hostile = record priced { log_file = codes "binlog.1" ++ 10 ∷ codes "DROP TABLE orders;" }

abbrev undo : List Reversal
undo = record { event = hostile; statement = codes "DELETE" } ∷ []

undo-IsCode : All (λ r. IsCode r.statement) undo
undo-IsCode = ((refl, (refl, (refl, (refl, (refl, (refl, (refl, tt))))))), tt)

script-uncommented_example :
    (uncommented (render ascii stamp (codes "binlog.1") everything (hostile ∷ []) undo)
      ≡ print (rendered_code undo))
    × (uncommented
          (streamed ascii stamp plain_stamp (codes "binlog.1") everything (hostile ∷ []) undo)
        ≡ print (streamed_code undo))
script-uncommented_example =
    script-uncommented ascii stamp plain_stamp (codes "binlog.1") everything (hostile ∷ []) undo
      undo-IsCode
