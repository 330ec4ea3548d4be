-- ===== src/Store/Effects.antt =====
-- What each write of internal/store leaves in the tables, whichever calls of the driver fail: the
-- tables as they were, or the one effect it has.
use mulligan.Base.{
  ℕ, zero, suc, ◌≡◌, refl, true, false, Option, none, some, List, [], ◌∷◌, Result, ok, Result-cases,
  inl, inr, ◌⊎◌, ap, ◌∙◌,
}
use mulligan.Base.Int.{ℤ, pos, negsuc}
use mulligan.Base.Time.{Time, add}
use mulligan.Change.{Transaction, Checkpoint}
use mulligan.Store.Schema.{
  Tables, Sqlite, StoreError, Text, number, other, retention_seconds, coverage_from, coverage_to,
}
use mulligan.Store.Tx.{Faults, call, transact}
use mulligan.Store.Rows.{encode_events, EncodedRow}
use mulligan.Store.Append.{seconds, append_transaction, raise_to, advance_coverage, single}
use mulligan.Store.Coverage.{meta_int, parse_meta, in_seconds}
use mulligan.Store.Prune.{delete_txns, delete_gaps, delete_misses, prune_to, prune_with, prune}
use mulligan.Store.Atomic.{append_transaction-Atomic, prune-Atomic}
use mulligan.Store.Redelivery.{appended, append_transaction-appended, append_transaction-refused}

-- A write that leaves the tables as they were or as `v`.
abbrev pub Leaves : {A : Type 0} → Tables × Result StoreError A → Tables → Tables → Type 0
Leaves p t v = (p.0 ≡ t) ⊎ (p.0 ≡ v)

pub single-Leaves :
    (op : Tables → Tables) (t : Tables) (fs : Faults) → Leaves (single op t fs) t (op t)
unfolding call
single-Leaves op t [] = inr refl
single-Leaves op t (true ∷ fs) = inl refl
single-Leaves op t (false ∷ fs) = inr refl

module _ (sql : Sqlite) where
  pub advance_coverage-Leaves :
      (to : Time) (t : Tables) (fs : Faults)
      → Leaves (advance_coverage sql to t fs) t (raise_to sql coverage_to (seconds to) t)
  unfolding advance_coverage transact call
  advance_coverage-Leaves to t [] = inr refl
  advance_coverage-Leaves to t (true ∷ fs) = inl refl
  advance_coverage-Leaves to t (false ∷ []) = inr refl
  advance_coverage-Leaves to t (false ∷ true ∷ fs) = inl refl
  advance_coverage-Leaves to t (false ∷ false ∷ []) = inr refl
  advance_coverage-Leaves to t (false ∷ false ∷ true ∷ fs) = inl refl
  advance_coverage-Leaves to t (false ∷ false ∷ false ∷ fs) = inr refl

  pub append_transaction-Leaves :
      (txn : Transaction) (cp : Checkpoint) (t : Tables) (fs : Faults)
      → ((append_transaction sql txn cp t fs).0 ≡ t)
        ⊎ ((rows : List EncodedRow) × (encode_events 0 txn.events ≡ ok rows)
            × ((append_transaction sql txn cp t fs).0 ≡ appended sql txn cp rows t))
  append_transaction-Leaves txn cp t fs = elim (append_transaction-Atomic sql txn cp t fs) [
    | inl (e, p) ↦ inl (ap (λ x. x.0) p)
    | inr p ↦ elim (Result-cases (encode_events 0 txn.events)) [
      | inl (rows, q) ↦
          inr (rows, q, ap (λ x. x.0) (p ∙ append_transaction-appended sql txn cp t q))
      | inr (e, q) ↦ inl (ap (λ x. x.0) (p ∙ append_transaction-refused sql txn cp t [] q))
    ]
  ]

  -- The tables after a prune that moves the edge of what is kept.
  unfoldable pub pruned : ℤ → Tables → Tables
  pruned edge t =
      raise_to sql coverage_from edge (delete_misses edge (delete_gaps edge (delete_txns edge t).1))

  -- Where the store keeps changes for `n + 1` seconds, the edge that the code computes.
  abbrev pub edge_of : ℕ → Time → ℤ
  edge_of n now = seconds (add now (in_seconds (negsuc n)))

  prune_of :
      (now : Time) (t : Tables) (raw : Option Text)
      → t.meta retention_seconds ≡ raw
      → ((prune sql now t []).0 ≡ t)
        ⊎ ((n : ℕ) × (t.meta retention_seconds ≡ some (number (pos (suc n))))
            × (prune sql now t []
                ≡ (pruned (edge_of n now) t, ok (delete_txns (edge_of n now) t).0)))
  unfolding prune meta_int call parse_meta prune_with prune_to pruned
  prune_of now t none h = rw (h) (inl refl)
  prune_of now t (some (other s)) h = rw (h) (inl refl)
  prune_of now t (some (number (negsuc n))) h = rw (h) (inl refl)
  prune_of now t (some (number (pos zero))) h = rw (h) (inl refl)
  prune_of now t (some (number (pos (suc n)))) h = rw (h) (inr (n, refl, refl))

  pub prune-Leaves :
      (now : Time) (t : Tables) (fs : Faults)
      → ((prune sql now t fs).0 ≡ t)
        ⊎ ((n : ℕ) × (t.meta retention_seconds ≡ some (number (pos (suc n))))
            × (prune sql now t fs
                ≡ (pruned (edge_of n now) t, ok (delete_txns (edge_of n now) t).0)))
  prune-Leaves now t fs = elim (prune-Atomic sql now t fs) [
    | inl (e, p) ↦ inl (ap (λ x. x.0) p)
    | inr p ↦ rw (p) (prune_of now t _ refl)
  ]
