-- ===== src/Source/Whole.antt =====
-- The assembler hands out the transactions of the log, each whole.
use mulligan.Base.{ℕ, ◌≡◌, List, [], ◌∷◌, Result, ok, ◌>>=◌}
use mulligan.Base.Time.{Time}
use mulligan.Base.Unicode.{Unicode}
use mulligan.Change.{Event}
use mulligan.Binlog.Event.{BinlogEvent}
use mulligan.Source.Assemble.{AssembleError, Assembler, HandleResult, handle}
use mulligan.Source.Log.{marks}
use mulligan.Source.Marked.{given, give_all, place_of, waiting_of}
use mulligan.Source.Packed.{pend_all, place_after}

module _ (u : Unicode) (clock : ℕ → Time) where
  -- The loop over the events.
  unfoldable pub run : Assembler → List BinlogEvent → Result AssembleError (List HandleResult)
  run a [] = ok []
  run a (e ∷ es) = do r ← handle u clock a e; rest ← run r.0 es; ok (r.1 ∷ rest)

  -- What handling an event comes to, compressed or not.
  Through : Assembler → List BinlogEvent → Assembler × HandleResult → Type 0
  Through a es y =
      (given y.1.txn ≡ give_all (marks u clock (place_of a) es) (waiting_of a))
      × (waiting_of y.0 ≡ pend_all (marks u clock (place_of a) es) (waiting_of a))
      × (place_of y.0 ≡ place_after u clock (place_of a) es)
