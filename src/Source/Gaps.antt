-- ===== src/Source/Gaps.antt =====
-- What stands in the store after a resume that came too late: the gap that `stream` of
-- internal/source/mysql/source.go records, and the windows that it closes.
use mulligan.Base.Time.{Time}
use mulligan.Base.Unicode.{Unicode}
use mulligan.Change.Filter.{Filter}
use mulligan.Store.Schema.{Sqlite, GapRow}
use mulligan.Store.Coverage.{Coverage}
use mulligan.Source.Stored.{Store}
use mulligan.Store.Gaps.{Has}
use mulligan.Source.Keeps.{Keeps}

module _ (sql : Sqlite) where
  -- A store that has a gap.
  Noted : GapRow → Store → Type 0
  Noted g s = Has g s.0.gaps
