-- ===== src/Store/Coverage.antt =====
-- internal/store/coverage.go: what the store can answer for.
use mulligan.Base.{
  ℕ, suc, ◌-◌, ◌*◌, ◌%◌, ◌^◌, not, ◌&&◌, Option, none, some, List, [], ◌∷◌, ltb, if◌then◌else◌,
  Result, ok, err,
}
use mulligan.Base.Int.{ℤ, pos, negsuc, ltb_ℤ}
use mulligan.Base.Time.{
  Time, Duration, second, zero_time, is_zero, before, after, add, sub, unix, utc,
}
use mulligan.Change.Filter.{Filter}
use mulligan.Store.Schema.{
  Txn, GapRow, MissRow, Key, coverage_from, coverage_to, max_staleness_seconds, retention_seconds,
  Text, number, other, StoreError, no_coverage, stale, before_coverage, beyond_coverage,
  overlaps_gap, includes_miss, not_a_number,
}
use mulligan.Store.Tx.{Tx, ◌>>=◌, give, fail, query}

pub record Coverage : Type 0 where
  pub from : Time
  pub to : Time
  pub max_staleness : Duration
  pub retention : Duration

-- `DefaultMaxStaleness`: five minutes.
abbrev pub default_max_staleness : Duration
default_max_staleness = pos (300 * second)

-- `time.Duration(n) * time.Second`, in 64 bits.
unfoldable pub wrap_word : ℕ → ℤ
wrap_word u = if ltb u (2 ^ 63) then pos u else negsuc (2 ^ 64 - 1 - u)

unfoldable pub in_seconds : ℤ → Duration
in_seconds (pos n) = wrap_word (n * second % 2 ^ 64)
in_seconds (negsuc n) = wrap_word ((2 ^ 64 - suc n * second % 2 ^ 64) % 2 ^ 64)

unfoldable pub parse_meta : Key → Option Text → Tx (Option ℤ)
parse_meta k none = give none
parse_meta k (some (number n)) = give (some n)
parse_meta k (some (other s)) = fail (not_a_number k)

-- `metaInt`: the number under a key, if there is one.
unfoldable pub meta_int : Key → Tx (Option ℤ)
meta_int k = do raw ← query (λ t. t.meta k); parse_meta k raw

-- SELECT MIN(committed_at) FROM txn, with 0 for NULL.
unfoldable pub least : ℤ → List Txn → ℤ
least z [] = z
least z (t ∷ txns) = least (if ltb_ℤ t.committed_at z then t.committed_at else z) txns

unfoldable pub earliest : List Txn → ℤ
earliest [] = pos 0
earliest (t ∷ txns) = least t.committed_at txns

unfoldable pub coverage_start : Option ℤ → Tx ℤ
coverage_start (some z) = give z
coverage_start none = query (λ t. earliest t.txns)

abbrev pub positive_time : ℤ → Time
positive_time z = if ltb_ℤ (pos 0) z then unix z else zero_time

abbrev pub optional_time : Option ℤ → Time
optional_time none = zero_time
optional_time (some z) = unix z

abbrev pub duration_or : Duration → Option ℤ → Duration
duration_or d none = d
duration_or d (some z) = in_seconds z

unfoldable pub read_coverage : Tx Coverage
read_coverage = do
  has_from ← meta_int coverage_from
  from ← coverage_start has_from
  to ← meta_int coverage_to
  max ← meta_int max_staleness_seconds
  kept ← meta_int retention_seconds
  give (record {
    from = positive_time from;
    to = optional_time to;
    max_staleness = duration_or default_max_staleness max;
    retention = duration_or (pos 0) kept;
  })

-- `windowBounds`
unfoldable pub window_bounds : Coverage → Filter → Time × Time
window_bounds c f =
    (utc (if is_zero f.from then c.from else f.from), utc (if is_zero f.to then c.to else f.to))

unfoldable pub check_gaps : Time → Time → List GapRow → Result StoreError (Unit {0})
check_gaps from to [] = ok tt
check_gaps from to (g ∷ gaps) =
    if not (after from (unix g.to_at)) && not (after (unix g.from_at) to)
    then err (overlaps_gap g)
    else check_gaps from to gaps

unfoldable pub check_misses : Time → Time → List MissRow → Result StoreError (Unit {0})
check_misses from to [] = ok tt
check_misses from to (m ∷ misses) =
    if not (after from (unix m.at)) && not (after (unix m.at) to)
    then err (includes_miss m)
    else check_misses from to misses

unfoldable pub check_holes : Time × Time → List GapRow → List MissRow → Result StoreError (Unit {0})
check_holes bounds gaps misses = elim (check_gaps bounds.0 bounds.1 gaps) [
  | ok u ↦ check_misses bounds.0 bounds.1 misses
  | err e ↦ err e
]

-- `checkCoverage`
unfoldable pub check_coverage :
    Coverage → Filter → Time → List GapRow → List MissRow → Result StoreError (Unit {0})
check_coverage c f now gaps misses =
    if is_zero c.to
    then err no_coverage
    else if ltb_ℤ c.max_staleness (sub now c.to)
    then err stale
    else if not (is_zero f.from) && before f.from c.from
    then err before_coverage
    else if not (is_zero f.to) && after f.to (add c.to c.max_staleness)
    then err beyond_coverage
    else check_holes (window_bounds c f) gaps misses
