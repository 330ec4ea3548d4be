-- ===== src/Tests/Api.antt =====
-- The pages of a store with one change.
use mulligan.Base.{◌<◌, ◌≡◌, List, [], ◌∷◌, ok, some, All, arith}
use mathlib.Core.List.{reverse}
use mulligan.Base.Int.{pos}
use mulligan.Base.Time.{unix}
use mulligan.Store.Schema.{RowChange}
use mulligan.Store.Read.{Entry}
use mulligan.Store.Events.{stored_event}
use mulligan.Api.Changes.{follow}
use mulligan.Api.Listed.{events_of}
use mulligan.Api.Pages.{follow-events}
use mulligan.Tests.Store.{
  fold, whole, logged, logged-Wellformed, events-logged, shipped, shipped_txn,
}
use mulligan.Store.Rows.{row_of}

positive : All (λ (r : RowChange). 0 < r.id) logged.row_changes
unfolding row_of
positive = (omega arith, tt)

follow-events_example :
    (es : List Entry) × (follow fold 2 whole (pos 0) (pos 1) (unix (pos 200)) logged ≡ ok (some es))
    × (events_of es ≡ reverse (stored_event shipped_txn shipped ∷ []))
follow-events_example =
    follow-events fold whole (pos 1) (unix (pos 200)) logged 2 logged-Wellformed positive
      events-logged (omega arith)
