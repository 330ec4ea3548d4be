-- ===== src/Store/Healthy.antt =====
-- What a healthy report of internal/store/status.go promises to the reads of a window.
use mulligan.Base.{
  ◌≡◌, refl, sym, ap, ◌∙◌, true, false, List, [], All, Result, ok, err, Result-cases, inl, inr,
  arith,
}
use mulligan.Base.Int.{ltb_ℤ, ◌≤ℤ◌}
use mulligan.Base.Text.{Bytes}
use mulligan.Base.Time.{Time, is_zero, sub, unix}
use mulligan.Change.Filter.{Filter}
use mulligan.Store.Schema.{Tables, StoreError, GapRow, MissRow}
use mulligan.Store.Tx.{Tx, Session, from_result, session, ◌>>=◌, ◌>>◌, call, read_only}
use mulligan.Store.Coverage.{Coverage, read_coverage, meta_int, parse_meta}
use mulligan.Store.Read.{admit, read_gaps, read_misses}
use mulligan.Store.Reading.{read_coverage-Reads}
use mulligan.Store.Status.{Report, healthy, verdict, staleness, status, integrity}
use mulligan.Store.Window.{Outside, Answerable, check_coverage-iff-Answerable}

>>=-ok :
    {A B : Type 0} (m : Tx A) (k : A → Tx B) {x y : Session} {a : A}
    → m x ≡ ok (a, y)
    → (m >>= k) x ≡ k a y
>>=-ok m k e = rw (e, ◌>>=◌) refl

verdict-healthy :
    (r : Report)
    → verdict r ≡ healthy
    → (is_zero r.coverage.to ≡ false) × (ltb_ℤ r.coverage.max_staleness r.stale ≡ false)
unfolding verdict
verdict-healthy r h = ground arith

not_behind :
    (c : Coverage) (now : Time)
    → is_zero c.to ≡ false
    → ltb_ℤ c.max_staleness (staleness now c) ≡ false
    → sub now c.to ≤ℤ c.max_staleness
unfolding staleness
not_behind c now e h = ground arith

no_err : {A : Type 0} {x : StoreError} {a : A} → ◌≡◌ {A = Result StoreError A} (err x) (ok a) → ⊥
no_err h = cc

report_of : {r r' : Report} → ◌≡◌ {A = Result StoreError Report} (ok r) (ok r') → r' ≡ r
report_of h = cc

-- What a report was read from.
status-read :
    (now : Time) (pragma : List Bytes) (t : Tables) {r : Report}
    → status now pragma t [] ≡ ok r
    → (read_coverage (session t []) ≡ ok (r.coverage, session t []))
      × (read_gaps (session t []) ≡ ok (r.gaps, session t []))
      × (read_misses (session t []) ≡ ok (r.misses, session t []))
      × (r.stale ≡ staleness now r.coverage)
unfolding status read_only call integrity read_coverage meta_int parse_meta
status-read now pragma t {r} h = elim (Result-cases (read_coverage (session t []))) [
  | inl ((c, s), e) ↦
      let e' = e ∙ ap (λ x. ok (c, x)) (read_coverage-Reads t c s e) in
      let q = report_of (rw (e', ◌>>=◌, ◌>>◌) at h) in
      (
        e' ∙ ap (λ x. ok (x, session t [])) (ap (λ x. x.coverage) (sym q)),
        ap (λ x. ok (x, session t [])) (ap (λ x. x.gaps) (sym q)),
        ap (λ x. ok (x, session t [])) (ap (λ x. x.misses) (sym q)),
        ap (λ x. x.stale) q ∙ ap (λ x. staleness now x.coverage) (sym q),
      )
  | inr (x, e) ↦ absurd (no_err (rw (e, ◌>>=◌, ◌>>◌) at h))
]

-- A store whose report is healthy lets a read of an unbounded window through as of the same instant,
-- where no gap and no missed change of the report meets what it covers. No call of the driver fails.
pub status-admit :
    (now : Time) (pragma : List Bytes) (t : Tables) (f : Filter) {r : Report}
    → status now pragma t [] ≡ ok r
    → verdict r ≡ healthy
    → is_zero f.from ≡ true
    → is_zero f.to ≡ true
    → All (λ (g : GapRow). Outside r.coverage f (unix g.from_at) (unix g.to_at)) r.gaps
    → All (λ (m : MissRow). Outside r.coverage f (unix m.at) (unix m.at)) r.misses
    → admit f now (session t []) ≡ ok (tt, session t [])
unfolding admit
status-admit now pragma t f {r} h v hf ht hg hm =
    let (c, g, m, s) = status-read now pragma t h in
    let (z, b) = verdict-healthy r v in
    let answers : Answerable r.coverage f now r.gaps r.misses =
      (z, not_behind r.coverage now z (rw (s) at b), inl hf, inl ht, hg, hm) in
    >>=-ok read_coverage _ c
    ∙ >>=-ok read_gaps _ g
    ∙ >>=-ok read_misses _ m
    ∙ ap (λ x. from_result x (session t []))
        ((check_coverage-iff-Answerable r.coverage f now r.gaps r.misses).1 answers)
