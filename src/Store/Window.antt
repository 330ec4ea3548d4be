-- ===== src/Store/Window.antt =====
-- Which windows `checkCoverage` of internal/store/coverage.go admits.
use mulligan.Base.{◌≡◌, ◌↔◌, true, false, List, [], ◌∷◌, All, ok, ◌⊎◌, arith}
use mulligan.Base.Int.{ℤ, ltb_ℤ, ◌≤ℤ◌, ◌<ℤ◌}
use mulligan.Base.Time.{Time, is_zero, add, sub, unix}
use mulligan.Change.Filter.{Filter}
use mulligan.Store.Schema.{GapRow, MissRow}
use mulligan.Store.Coverage.{
  Coverage, window_bounds, check_gaps, check_misses, check_holes, check_coverage,
}

-- A period ends before a window begins, or begins after it ends. A window without a lower bound begins
-- where the store's coverage does, and one without an upper bound ends at the mark of coverage.
abbrev pub Outside : Coverage → Filter → Time → Time → Type 0
Outside c f from to =
    ((is_zero f.from ≡ false) × (to.instant <ℤ f.from.instant))
    ⊎ ((is_zero f.from ≡ true) × (to.instant <ℤ c.from.instant))
    ⊎ ((is_zero f.to ≡ false) × (f.to.instant <ℤ from.instant))
    ⊎ ((is_zero f.to ≡ true) × (c.to.instant <ℤ from.instant))

-- The same, by the bounds that the check computes.
abbrev Beside : Time × Time → Time → Time → Type 0
Beside w from to = (to.instant <ℤ w.0.instant) ⊎ (w.1.instant <ℤ from.instant)

Beside-Outside :
    (c : Coverage) (f : Filter) (from to : Time)
    → Beside (window_bounds c f) from to ↔ Outside c f from to
unfolding window_bounds
Beside-Outside c f from to = ground arith

-- A store answers for a window where it has collected something and is not behind by more than it
-- may be, the window's bounds lie in what it covers, and the window meets no gap and no missed change.
abbrev pub Answerable : Coverage → Filter → Time → List GapRow → List MissRow → Type 0
Answerable c f now gaps misses =
    (is_zero c.to ≡ false)
    × (sub now c.to ≤ℤ c.max_staleness)
    × ((is_zero f.from ≡ true) ⊎ (c.from.instant ≤ℤ f.from.instant))
    × ((is_zero f.to ≡ true) ⊎ (f.to.instant ≤ℤ (add c.to c.max_staleness).instant))
    × All (λ (g : GapRow). Outside c f (unix g.from_at) (unix g.to_at)) gaps
    × All (λ (m : MissRow). Outside c f (unix m.at) (unix m.at)) misses

ltb_ℤ-true : (a b : ℤ) → ltb_ℤ a b ≡ true → a <ℤ b
ltb_ℤ-true a b h = ground arith

ltb_ℤ-false : (a b : ℤ) → ltb_ℤ a b ≡ false → b ≤ℤ a
ltb_ℤ-false a b h = ground arith

check_gaps-Beside :
    (w : Time × Time) (gaps : List GapRow)
    → (check_gaps w.0 w.1 gaps ≡ ok tt)
      ↔ All (λ (g : GapRow). Beside w (unix g.from_at) (unix g.to_at)) gaps
unfolding check_gaps
check_gaps-Beside w [] = ground arith
check_gaps-Beside w (g ∷ gaps) = ground (arith, check_gaps-Beside w gaps)

check_misses-Beside :
    (w : Time × Time) (misses : List MissRow)
    → (check_misses w.0 w.1 misses ≡ ok tt)
      ↔ All (λ (m : MissRow). Beside w (unix m.at) (unix m.at)) misses
unfolding check_misses
check_misses-Beside w [] = ground arith
check_misses-Beside w (m ∷ misses) = ground (arith, check_misses-Beside w misses)

check_holes-Beside :
    (w : Time × Time) (gaps : List GapRow) (misses : List MissRow)
    → (check_holes w gaps misses ≡ ok tt) ↔ (
        All (λ (g : GapRow). Beside w (unix g.from_at) (unix g.to_at)) gaps
        × All (λ (m : MissRow). Beside w (unix m.at) (unix m.at)) misses)
unfolding check_holes
check_holes-Beside w gaps misses =
    ground (arith, check_gaps-Beside w gaps, check_misses-Beside w misses)

gaps-Outside :
    (c : Coverage) (f : Filter) (gaps : List GapRow)
    → All (λ (g : GapRow). Beside (window_bounds c f) (unix g.from_at) (unix g.to_at)) gaps
      ↔ All (λ (g : GapRow). Outside c f (unix g.from_at) (unix g.to_at)) gaps
gaps-Outside c f [] = ((λ h. h), λ h. h)
gaps-Outside c f (g ∷ gaps) =
    let one = Beside-Outside c f (unix g.from_at) (unix g.to_at) in
    let rest = gaps-Outside c f gaps in
    ((λ h. (one.0 h.0, rest.0 h.1)), λ h. (one.1 h.0, rest.1 h.1))

misses-Outside :
    (c : Coverage) (f : Filter) (misses : List MissRow)
    → All (λ (m : MissRow). Beside (window_bounds c f) (unix m.at) (unix m.at)) misses
      ↔ All (λ (m : MissRow). Outside c f (unix m.at) (unix m.at)) misses
misses-Outside c f [] = ((λ h. h), λ h. h)
misses-Outside c f (m ∷ misses) =
    let one = Beside-Outside c f (unix m.at) (unix m.at) in
    let rest = misses-Outside c f misses in
    ((λ h. (one.0 h.0, rest.0 h.1)), λ h. (one.1 h.0, rest.1 h.1))

-- The same as `Answerable`, by the bounds that the check computes.
abbrev AnswerableBeside : Coverage → Filter → Time → List GapRow → List MissRow → Type 0
AnswerableBeside c f now gaps misses =
    (is_zero c.to ≡ false)
    × (sub now c.to ≤ℤ c.max_staleness)
    × ((is_zero f.from ≡ true) ⊎ (c.from.instant ≤ℤ f.from.instant))
    × ((is_zero f.to ≡ true) ⊎ (f.to.instant ≤ℤ (add c.to c.max_staleness).instant))
    × All (λ (g : GapRow). Beside (window_bounds c f) (unix g.from_at) (unix g.to_at)) gaps
    × All (λ (m : MissRow). Beside (window_bounds c f) (unix m.at) (unix m.at)) misses

check_coverage-Beside :
    (c : Coverage) (f : Filter) (now : Time) (gaps : List GapRow) (misses : List MissRow)
    → (check_coverage c f now gaps misses ≡ ok tt) ↔ AnswerableBeside c f now gaps misses
unfolding check_coverage
check_coverage-Beside c f now gaps misses =
    ground (arith, check_holes-Beside (window_bounds c f) gaps misses)

-- The check accepts exactly the windows that the store can answer for: it refuses for a reason, and
-- it lets no window through that a gap, a missed change, a stopped collector or the edge of what is
-- covered makes unsound. A window without an upper bound ends at the mark of coverage there, so that
-- a change that was missed behind the mark does not refuse it.
pub check_coverage-iff-Answerable :
    (c : Coverage) (f : Filter) (now : Time) (gaps : List GapRow) (misses : List MissRow)
    → (check_coverage c f now gaps misses ≡ ok tt) ↔ Answerable c f now gaps misses
check_coverage-iff-Answerable c f now gaps misses =
    let (to, from) = check_coverage-Beside c f now gaps misses in
    let (gap, gap') = gaps-Outside c f gaps in
    let (miss, miss') = misses-Outside c f misses in
    (
      (λ h. let (a, b, d, e, g, m) = to h in (a, b, d, e, gap g, miss m)),
      λ h. let (a, b, d, e, g, m) = h in from (a, b, d, e, gap' g, miss' m),
    )
