-- ===== src/Store/Steps.antt =====
-- The life of a store: any sequence of the writes of internal/store, each under any faults.
use mulligan.Base.{
  ℕ, ◌≡◌, refl, true, false, Option, none, some, List, [], ◌∷◌, Result-cases, Bool-cases, inl, inr,
  ◌⊎◌, arith,
}
use mulligan.Base.Int.{ℤ}
use mulligan.Base.Text.{Bytes}
use mulligan.Base.Time.{Time, Duration}
use mulligan.Change.{Transaction, Checkpoint}
use mulligan.Store.Schema.{
  Tables, Binding, Sqlite, coverage_to, coverage_from, retention_seconds, max_staleness_seconds,
  Key, same_key,
}
use mulligan.Store.Tx.{Faults, session, settle, call}
use mulligan.Store.Append.{
  append_transaction, advance_coverage, open_coverage, record_gap, record_miss, put_checkpoint,
  seconds, put_new, put_row, insert_txn, has_source_id,
}
use mulligan.Store.Prune.{
  prune, set_retention, set_max_staleness, put_meta, delete_gaps, delete_misses, delete_txns,
}
use mulligan.Store.Source.{bind, check_binding, write_binding, same_binding}
use mulligan.Store.Rows.{EncodedRow}
use mulligan.Store.Redelivery.{appended, raise_to-rows, put_rows, put_if_new}
use mulligan.Store.Wellformed.{Wellformed, appended-Wellformed, delete_txns-Wellformed}
use mulligan.Store.Effects.{
  Leaves, single-Leaves, advance_coverage-Leaves, append_transaction-Leaves, prune-Leaves, pruned,
  edge_of,
}
use mulligan.Store.Marks.{AtLeast, raise_to-AtLeast}

module _ (sql : Sqlite) (whole_seconds : Duration → ℤ) where
  pub data Step : Tables → Tables → Type 0 where
    append :
        (txn : Transaction) (cp : Checkpoint) (t : Tables) (fs : Faults)
        → Step t (append_transaction sql txn cp t fs).0
    advance : (to : Time) (t : Tables) (fs : Faults) → Step t (advance_coverage sql to t fs).0
    open_at : (when : Time) (t : Tables) (fs : Faults) → Step t (open_coverage when t fs).0
    gap :
        (from to : Time) (reason : Bytes) (t : Tables) (fs : Faults)
        → Step t (record_gap from to reason t fs).0
    miss :
        (when : Time) (reason : Bytes) (t : Tables) (fs : Faults)
        → Step t (record_miss when reason t fs).0
    retain :
        (d : Duration) (t : Tables) (fs : Faults) → Step t (set_retention whole_seconds d t fs).0
    allow :
        (d : Duration) (t : Tables) (fs : Faults)
        → Step t (set_max_staleness whole_seconds d t fs).0
    discard : (now : Time) (t : Tables) (fs : Faults) → Step t (prune sql now t fs).0
    follow : (b : Binding) (t : Tables) (fs : Faults) → Step t (bind b t fs).0

  -- Any number of steps.
  pub data Reach : Tables → Tables → Type 0 where
    done : (t : Tables) → Reach t t
    then_step : {t u v : Tables} → Reach t u → Step u v → Reach t v

  of_Leaves :
      (P : Tables → Type 0) (t v : Tables) {u : Tables} → (u ≡ t) ⊎ (u ≡ v) → P t → P v → P u
  of_Leaves P t v (inl e) ht hv = rw (e) ht
  of_Leaves P t v (inr e) ht hv = rw (e) hv

  settle_check :
      (b : Binding) (t : Tables) (fs : Faults) (stored : Option Binding)
      → Leaves (settle t (check_binding b stored (session t fs))) t (record t { source = some b })
  unfolding check_binding write_binding call
  settle_check b t [] none = inr refl
  settle_check b t (true ∷ fs) none = inl refl
  settle_check b t (false ∷ fs) none = inr refl
  settle_check b t fs (some stored) = elim (Result-cases (same_binding stored b)) [
    | inl (u, e) ↦ rw (e) (inl refl)
    | inr (x, e) ↦ rw (e) (inl refl)
  ]

  bind-Leaves :
      (b : Binding) (t : Tables) (fs : Faults)
      → Leaves (bind b t fs) t (record t { source = some b })
  unfolding bind call
  bind-Leaves b t [] = settle_check b t [] t.source
  bind-Leaves b t (true ∷ fs) = inl refl
  bind-Leaves b t (false ∷ fs) = settle_check b t fs t.source

  pruned-Wellformed : (edge : ℤ) (t : Tables) → Wellformed t → Wellformed (pruned sql edge t)
  unfolding pruned delete_gaps delete_misses
  pruned-Wellformed edge t h =
      rw ((raise_to-rows sql coverage_from edge _).0, (raise_to-rows sql coverage_from edge _).1)
        (delete_txns-Wellformed sql edge t h)

  put_new-rows :
      (k : Key) (when : ℤ) (t : Tables)
      → ((put_new k when t).txns ≡ t.txns) × ((put_new k when t).row_changes ≡ t.row_changes)
  unfolding put_new
  put_new-rows k when t = ground arith

  put_new-Wellformed :
      (when : ℤ) (t : Tables) → Wellformed t → Wellformed (put_new coverage_from when t)
  put_new-Wellformed when t h =
      rw ((put_new-rows coverage_from when t).0, (put_new-rows coverage_from when t).1) h

  Step-Wellformed : {t u : Tables} → Wellformed t → Step t u → Wellformed u
  unfolding record_gap record_miss set_retention set_max_staleness open_coverage put_meta
  Step-Wellformed h (append txn cp t fs) = elim (append_transaction-Leaves sql txn cp t fs) [
    | inl e ↦ rw (e) h
    | inr (rows, q, e) ↦ rw (e) (appended-Wellformed sql txn cp rows t h)
  ]
  Step-Wellformed h (advance to t fs) =
      of_Leaves Wellformed t _ (advance_coverage-Leaves sql to t fs) h (
        rw
          (
            (raise_to-rows sql coverage_to (seconds to) t).0,
            (raise_to-rows sql coverage_to (seconds to) t).1,
          )
          h)
  Step-Wellformed h (open_at when t fs) =
      of_Leaves Wellformed t _ (single-Leaves _ t fs) h (put_new-Wellformed (seconds when) t h)
  Step-Wellformed h (gap from to reason t fs) = of_Leaves Wellformed t _ (single-Leaves _ t fs) h h
  Step-Wellformed h (miss when reason t fs) = of_Leaves Wellformed t _ (single-Leaves _ t fs) h h
  Step-Wellformed h (retain d t fs) = of_Leaves Wellformed t _ (single-Leaves _ t fs) h h
  Step-Wellformed h (allow d t fs) = of_Leaves Wellformed t _ (single-Leaves _ t fs) h h
  Step-Wellformed h (discard now t fs) = elim (prune-Leaves sql now t fs) [
    | inl e ↦ rw (e) h
    | inr (n, q, e) ↦ rw (e) (pruned-Wellformed (edge_of sql n now) t h)
  ]
  Step-Wellformed h (follow b t fs) = of_Leaves Wellformed t _ (bind-Leaves b t fs) h h

  -- However the writes of a store follow each other and whichever calls of the driver fail, well formed
  -- tables stay so: ids ascend, every change belongs to a stored transaction and no transaction is
  -- stored twice.
  pub Reach-Wellformed : {t u : Tables} → Wellformed t → Reach t u → Wellformed u
  Reach-Wellformed h (done t) = h
  Reach-Wellformed h (then_step r s) = Step-Wellformed (Reach-Wellformed h r) s

  put_if_new-meta :
      (new : Option ℕ) (rows : List EncodedRow) (t : Tables)
      → (put_if_new sql new rows t).meta ≡ t.meta
  unfolding put_if_new put_rows put_row
  put_if_new-meta none rows t = refl
  put_if_new-meta (some id) [] t = refl
  put_if_new-meta (some id) (r ∷ rows) t = put_if_new-meta (some id) rows (put_row sql id r t)

  insert_txn-meta : (txn : Transaction) (t : Tables) → (insert_txn sql txn t).1.meta ≡ t.meta
  unfolding insert_txn
  insert_txn-meta txn t = elim (Bool-cases (has_source_id txn.source_id t.txns)) [
    | inl e ↦ rw (e) refl
    | inr e ↦ rw (e) refl
  ]

  appended-AtLeast :
      (k : Key) (z : ℤ) (txn : Transaction) (cp : Checkpoint) (rows : List EncodedRow) (t : Tables)
      → AtLeast sql z (t.meta k)
      → AtLeast sql z ((appended sql txn cp rows t).meta k)
  unfolding appended put_checkpoint
  appended-AtLeast k z txn cp rows t h =
      raise_to-AtLeast sql coverage_to k (seconds txn.committed_at) z _ (
        rw
          (
            put_if_new-meta (insert_txn sql txn t).0 rows (insert_txn sql txn t).1,
            insert_txn-meta txn t,
          )
          h)

  pruned-AtLeast :
      (k : Key) (z edge : ℤ) (t : Tables)
      → AtLeast sql z (t.meta k)
      → AtLeast sql z ((pruned sql edge t).meta k)
  unfolding pruned delete_gaps delete_misses delete_txns
  pruned-AtLeast k z edge t h = raise_to-AtLeast sql coverage_from k edge z _ h

  put_new-AtLeast :
      (k j : Key) (z when : ℤ) (t : Tables)
      → AtLeast sql z (t.meta k)
      → AtLeast sql z ((put_new j when t).meta k)
  unfolding put_new
  put_new-AtLeast k j z when t h = ground arith

  -- The two marks of what a store covers.
  abbrev pub IsMark : Key → Type 0
  IsMark coverage_from = Unit {0}
  IsMark coverage_to = Unit {0}
  IsMark _ = ⊥

  put_meta-AtLeast :
      (k j : Key) (z n : ℤ) (t : Tables)
      → same_key k j ≡ false
      → AtLeast sql z (t.meta k)
      → AtLeast sql z ((put_meta j n t).meta k)
  unfolding put_meta
  put_meta-AtLeast k j z n t e h = rw (e) h

  Step-AtLeast :
      (k : Key) (z : ℤ) {t u : Tables}
      → IsMark k
      → AtLeast sql z (t.meta k)
      → Step t u
      → AtLeast sql z (u.meta k)
  unfolding record_gap record_miss set_retention set_max_staleness open_coverage
  Step-AtLeast k z m h (append txn cp t fs) = elim (append_transaction-Leaves sql txn cp t fs) [
    | inl e ↦ rw (e) h
    | inr (rows, q, e) ↦ rw (e) (appended-AtLeast k z txn cp rows t h)
  ]
  Step-AtLeast k z m h (advance to t fs) =
      of_Leaves (λ x. AtLeast sql z (x.meta k)) t _ (advance_coverage-Leaves sql to t fs) h
        (raise_to-AtLeast sql coverage_to k (seconds to) z t h)
  Step-AtLeast k z m h (open_at when t fs) =
      of_Leaves (λ x. AtLeast sql z (x.meta k)) t _ (single-Leaves _ t fs) h
        (put_new-AtLeast k coverage_from z (seconds when) t h)
  Step-AtLeast k z m h (gap from to reason t fs) =
      of_Leaves (λ x. AtLeast sql z (x.meta k)) t _ (single-Leaves _ t fs) h h
  Step-AtLeast k z m h (miss when reason t fs) =
      of_Leaves (λ x. AtLeast sql z (x.meta k)) t _ (single-Leaves _ t fs) h h
  Step-AtLeast k z m h (retain d t fs) =
      of_Leaves (λ x. AtLeast sql z (x.meta k)) t _ (single-Leaves _ t fs) h
        (put_meta-AtLeast k retention_seconds z (whole_seconds d) t (retention-other k m) h)
    where
      retention-other : (j : Key) → IsMark j → same_key j retention_seconds ≡ false
      retention-other coverage_from m = refl
      retention-other coverage_to m = refl
      retention-other retention_seconds m = absurd m
      retention-other max_staleness_seconds m = absurd m
  Step-AtLeast k z m h (allow d t fs) =
      of_Leaves (λ x. AtLeast sql z (x.meta k)) t _ (single-Leaves _ t fs) h
        (put_meta-AtLeast k max_staleness_seconds z (whole_seconds d) t (staleness-other k m) h)
    where
      staleness-other : (j : Key) → IsMark j → same_key j max_staleness_seconds ≡ false
      staleness-other coverage_from m = refl
      staleness-other coverage_to m = refl
      staleness-other retention_seconds m = absurd m
      staleness-other max_staleness_seconds m = absurd m
  Step-AtLeast k z m h (discard now t fs) = elim (prune-Leaves sql now t fs) [
    | inl e ↦ rw (e) h
    | inr (n, q, e) ↦ rw (e) (pruned-AtLeast k z (edge_of sql n now) t h)
  ]
  Step-AtLeast k z m h (follow b t fs) =
      of_Leaves (λ x. AtLeast sql z (x.meta k)) t _ (bind-Leaves b t fs) h h

  -- However the writes of a store follow each other and whichever calls of the driver fail, neither
  -- mark of what it covers ever moves back.
  pub Reach-AtLeast :
      (k : Key) (z : ℤ) {t u : Tables}
      → IsMark k
      → AtLeast sql z (t.meta k)
      → Reach t u
      → AtLeast sql z (u.meta k)
  Reach-AtLeast k z m h (done t) = h
  Reach-AtLeast k z m h (then_step r s) = Step-AtLeast k z m (Reach-AtLeast k z m h r) s
