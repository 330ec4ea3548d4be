-- ===== src/Store/Reading.antt =====
-- What only reads leaves the session of internal/store as it is, so that both directions of reading
-- agree.
use mulligan.Base.{
  ◌≡◌, refl, sym, ap, ◌∙◌, Bool, Option, none, some, List, [], append-nil, Result, ok, err,
  Result-cases, inl, inr,
}
use mulligan.Base.Int.{ℤ}
use mulligan.Base.Sorting.{sort_by}
use mulligan.Base.Text.{Bytes}
use mulligan.Base.Time.{Time}
use mulligan.Change.{Event}
use mulligan.Change.Filter.{Filter, match}
use mulligan.Store.Schema.{
  Tables, StoreError, Key, Text, number, other, coverage_from, coverage_to, max_staleness_seconds,
  retention_seconds,
}
use mulligan.Store.Tx.{
  Tx, session, Session, ◌>>=◌, ◌>>◌, give, fail, query, call, from_result, read_only, settle,
}
use mulligan.Store.Coverage.{read_coverage, meta_int, parse_meta, coverage_start}
use mulligan.Store.Read.{
  admit, read_gaps, read_misses, oldest_first, newest_first, collect, events, each_event, each_row,
  join,
}
use mulligan.Store.Wellformed.{Wellformed}
use mulligan.Store.Order.{push, visits-reverse, oldest_first-join, newest_first-join}

-- Where no call fails, the session stays as it is.
abbrev pub Reads : {A : Type 0} → Tx A → Type 0
Reads {A} m = (t : Tables) (a : A) (s : Session) → m (session t []) ≡ ok (a, s) → s ≡ session t []

give-Reads : {A : Type 0} (a : A) → Reads (give a)
give-Reads a t b s h = cc

fail-Reads : {A : Type 0} (e : StoreError) → Reads (fail {A = A} e)
fail-Reads e t b s h = absurd (cc)

query-Reads : {A : Type 0} (f : Tables → A) → Reads (query f)
unfolding call
query-Reads f t b s h = cc

from_result-Reads : {A : Type 0} (r : Result StoreError A) → Reads (from_result r)
from_result-Reads (ok a) t b s h = cc
from_result-Reads (err e) t b s h = absurd (cc)

>>=-Reads :
    {A B : Type 0} (m : Tx A) (k : A → Tx B) → Reads m → ((a : A) → Reads (k a)) → Reads (m >>= k)
>>=-Reads {B = B} m k hm hk t b s h = elim (Result-cases (m (session t []))) [
  | inl ((a, s'), e) ↦ hk a t b s (rw (hm t a s' e) at (rw (e, ◌>>=◌) at h))
  | inr (x, e) ↦ absurd (no (rw (e, ◌>>=◌) at h))
]
  where
    no : {x : StoreError} → ◌≡◌ {A = Result StoreError (B × Session)} (err x) (ok (b, s)) → ⊥
    no q = cc

parse_meta-Reads : (k : Key) (raw : Option Text) → Reads (parse_meta k raw)
unfolding parse_meta
parse_meta-Reads k none = give-Reads _
parse_meta-Reads k (some (number n)) = give-Reads _
parse_meta-Reads k (some (other s)) = fail-Reads _

meta_int-Reads : (k : Key) → Reads (meta_int k)
unfolding meta_int
meta_int-Reads k = >>=-Reads (query _) (parse_meta k) (query-Reads _) (parse_meta-Reads k)

coverage_start-Reads : (z : Option ℤ) → Reads (coverage_start z)
unfolding coverage_start
coverage_start-Reads none = query-Reads _
coverage_start-Reads (some z) = give-Reads z

pub read_coverage-Reads : Reads read_coverage
unfolding read_coverage
read_coverage-Reads = >>=-Reads (meta_int coverage_from) _ (meta_int-Reads _) λ has.
    >>=-Reads (coverage_start has) _ (coverage_start-Reads has) λ from.
      >>=-Reads (meta_int coverage_to) _ (meta_int-Reads _) λ to.
        >>=-Reads (meta_int max_staleness_seconds) _ (meta_int-Reads _)
          λ max. >>=-Reads (meta_int retention_seconds) _ (meta_int-Reads _) λ kept. give-Reads _

pub admit-Reads : (f : Filter) (now : Time) → Reads (admit f now)
unfolding admit
admit-Reads f now = >>=-Reads read_coverage _ read_coverage-Reads λ c.
    >>=-Reads read_gaps _ (query-Reads _)
      λ gaps. >>=-Reads read_misses _ (query-Reads _) λ misses. from_result-Reads _

module _ (equal_fold : Bytes → Bytes → Bool) where
  pub events-admitted :
      (f : Filter) (now : Time) (t : Tables) {u : Unit {0}}
      → admit f now (session t []) ≡ ok (u, session t [])
      → events equal_fold f now t []
        ≡ (settle t (collect (match equal_fold f) (oldest_first t) (session t []))).1
  unfolding events read_only call admit collect read_coverage oldest_first meta_int sort_by
      parse_meta join
  events-admitted f now t e = rw (e, ◌>>=◌, ◌>>◌) refl

  pub events-refused :
      (f : Filter) (now : Time) (t : Tables) {x : StoreError}
      → admit f now (session t []) ≡ err x
      → events equal_fold f now t [] ≡ err x
  unfolding events read_only call admit read_coverage meta_int parse_meta
  events-refused f now t e = rw (e, ◌>>=◌, ◌>>◌) refl

  each_event-admitted :
      {E : Type 0} (f : Filter) (now : Time) (t : Tables) {u : Unit {0}}
      → admit f now (session t []) ≡ ok (u, session t [])
      → each_event equal_fold {E = E} f now push t [] []
        ≡ each_row (match equal_fold f) push (newest_first t) (session t []) []
  unfolding each_event call admit each_row read_coverage newest_first meta_int sort_by parse_meta
      join
  each_event-admitted f now t e = rw (e, ◌>>=◌, ◌>>◌) refl

  no_err :
      {x : StoreError} {evs : List Event}
      → ◌≡◌ {A = Result StoreError (List Event)} (err x) (ok evs)
      → ⊥
  no_err q = cc

  same : {a b : List Event} → ◌≡◌ {A = Result StoreError (List Event)} (ok a) (ok b) → a ≡ b
  same q = cc

  -- Where the store gives a window's changes oldest first, visiting the window hands over exactly
  -- these changes, newest first, and ends without an error; no call of the driver fails and the
  -- tables are well formed.
  pub each_event-events :
      {E : Type 0} (f : Filter) (now : Time) (t : Tables) {evs : List Event}
      → Wellformed t
      → events equal_fold f now t [] ≡ ok evs
      → each_event equal_fold {E = E} f now push t [] [] ≡ (evs, ok tt)
  each_event-events {E} f now t {evs} w h = elim (Result-cases (admit f now (session t []))) [
    | inl ((u, s), e) ↦
        let e' = e ∙ ap (λ x. ok (u, x)) (admit-Reads f now t u s e) in
        elim (Result-cases (collect (match equal_fold f) (oldest_first t) (session t []))) [
          | inl ((got, s'), c) ↦
              let q : got ≡ evs =
                same (sym (events-admitted f now t e' ∙ ap (λ x. (settle t x).1) c) ∙ h) in
              let c' =
                ap (λ l. collect (match equal_fold f) l (session t []))
                  (sym (oldest_first-join t w))
                ∙ c in
              each_event-admitted {E = E} f now t e'
              ∙ ap (λ l. each_row {E = E} (match equal_fold f) push l (session t []) [])
                  (newest_first-join t w)
              ∙ visits-reverse (match equal_fold f) t {E = E} (join t.txns t.row_changes) []
                  (s', c')
              ∙ ap (λ l. (l, ok tt)) (append-nil got ∙ q)
          | inr (x, c) ↦
              absurd (no_err (sym (events-admitted f now t e' ∙ ap (λ x. (settle t x).1) c) ∙ h))
        ]
    | inr (x, e) ↦ absurd (no_err (sym (events-refused f now t e) ∙ h))
  ]
