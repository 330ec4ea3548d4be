-- ===== src/Store/Kept.antt =====
-- What a prune of internal/store/prune.go keeps of the history.
use mulligan.Base.{
  ℕ, suc, ◌*◌, ◌-◌, ◌^◌, ◌<◌, ◌≡◌, refl, sym, ap, ◌∙◌, Bool, true, false, not, ◌==◌, some, List, [],
  ◌∷◌, All, All-filter, filter, Bool-cases, inl, inr, ◌⊎◌, arith,
}
use mulligan.Base.Int.{ℤ, pos, negsuc, ltb_ℤ, ◌+ℤ◌, ◌-ℤ◌}
use mulligan.Base.Sorting.{Ordered}
use mulligan.Base.Time.{Time, second, unix_seconds, add}
use mulligan.Store.Schema.{Txn, RowChange, Tables, Sqlite, number, retention_seconds, coverage_from}
use mulligan.Store.Tx.{Faults}
use mulligan.Store.Coverage.{in_seconds, wrap_word}
use mathlib.Core.Path.{subst}
use mulligan.Store.Prune.{has_txn, delete_txns, delete_gaps, delete_misses, prune}
use mulligan.Store.Read.{Stored, find_txn, join}
use mulligan.Store.Redelivery.{raise_to-rows}
use mulligan.Store.Wellformed.{Wellformed, Owned, txn_before}
use mulligan.Store.Effects.{pruned, edge_of, prune-Leaves}

has_txn-find :
    (id : ℕ) (txns : List Txn) → has_txn id txns ≡ true → (x : Txn) × (find_txn id txns ≡ some x)
unfolding has_txn find_txn
has_txn-find id [] h = absurd (cc)
has_txn-find id (t ∷ txns) h = elim (Bool-cases (t.id == id)) [
  | inl e ↦ (t, rw (e) refl)
  | inr e ↦ let (x, q) = has_txn-find id txns (ground arith) in (x, rw (e) q)
]

some-injective : {A : Type 0} {a b : A} → some a ≡ some b → a ≡ b
some-injective h = cc

eq-of-test : (a b : ℕ) → (a == b) ≡ true → a ≡ b
eq-of-test a b h = ground arith

module _ (p : Txn → Bool) where
  find_txn-filter :
      (id : ℕ) (txns : List Txn) {x : Txn}
      → find_txn id txns ≡ some x
      → p x ≡ true
      → (find_txn id (filter p txns) ≡ some x) × (has_txn id (filter p txns) ≡ true)
  unfolding find_txn has_txn
  find_txn-filter id [] h hp = absurd (cc)
  find_txn-filter id (t ∷ txns) {x} h hp = elim (Bool-cases (t.id == id)) [
    | inl e ↦
        let q : t ≡ x = some-injective (rw (e) at h) in
        let k : p t ≡ true = ap p q ∙ hp in rw (k) (rw (e) (ap some q, refl))
    | inr e ↦
        let (f, k) = find_txn-filter id txns (rw (e) at h) hp in
        elim (Bool-cases (p t)) [ inl a ↦ rw (a) (rw (e) (f, k)) | inr a ↦ rw (a) (f, k) ]
  ]

  has_txn-later :
      (t : Txn) (txns : List Txn)
      → All (λ y. txn_before t y ≡ true) txns
      → has_txn t.id txns ≡ false
  unfolding has_txn
  has_txn-later t [] h = refl
  has_txn-later t (y ∷ txns) (hy, h) = ground (arith, has_txn-later t txns h)

  has_txn-filter :
      (id : ℕ) (txns : List Txn) {x : Txn}
      → Ordered txn_before txns
      → find_txn id txns ≡ some x
      → p x ≡ false
      → has_txn id (filter p txns) ≡ false
  unfolding find_txn has_txn
  has_txn-filter id [] ho h hp = absurd (cc)
  has_txn-filter id (t ∷ txns) {x} (ht, ho) h hp = elim (Bool-cases (t.id == id)) [
    | inl e ↦
        let k : p t ≡ false = ap p (some-injective (rw (e) at h)) ∙ hp in
        rw (k, sym (eq-of-test t.id id e))
          (has_txn-later t (filter p txns) (All-filter _ p txns ht))
    | inr e ↦
        let k = has_txn-filter id txns ho (rw (e) at h) hp in
        elim (Bool-cases (p t)) [ inl a ↦ rw (a) (rw (e) k) | inr a ↦ rw (a) k ]
  ]

  join-filter :
      (txns : List Txn) (rows : List RowChange)
      → Ordered txn_before txns
      → Owned txns rows
      → join (filter p txns) (filter (λ (r : RowChange). has_txn r.txn_id (filter p txns)) rows)
        ≡ filter (λ (s : Stored). p s.txn) (join txns rows)
  unfolding join
  join-filter txns [] ho h = refl
  join-filter txns (r ∷ rows) ho (hr, h) =
      let (x, q) = has_txn-find r.txn_id txns hr in
      elim (Bool-cases (p x)) [
        | inl e ↦
            let (f, k) = find_txn-filter r.txn_id txns q e in
            rw (q, k, e) (rw (f, join-filter txns rows ho h) refl)
        | inr e ↦ rw (q, has_txn-filter r.txn_id txns ho q e, e) (join-filter txns rows ho h)
      ]

module _ (sql : Sqlite) where
  -- Whole seconds: a duration of less than 2^63 nanoseconds before now.
  abbrev pub seconds_before : ℕ → Time → ℤ
  seconds_before n now = unix_seconds now.instant -ℤ pos n

  in_seconds-brief :
      (n : ℕ) → suc n * second < 2 ^ 63 → in_seconds (negsuc n) ≡ negsuc (suc n * second - 1)
  unfolding in_seconds wrap_word
  in_seconds-brief n h = ground arith

  earlier-seconds :
      (n : ℕ) (z : ℤ)
      → unix_seconds (z +ℤ negsuc (suc n * second - 1)) ≡ unix_seconds z -ℤ pos (suc n)
  unfolding unix_seconds ◌+ℤ◌ ◌-ℤ◌
  earlier-seconds n (pos a) = ground arith
  earlier-seconds n (negsuc a) = ground arith

  edge_of-before :
      (n : ℕ) (now : Time)
      → suc n * second < 2 ^ 63
      → edge_of sql n now ≡ seconds_before (suc n) now
  unfolding add
  edge_of-before n now h = rw (in_seconds-brief n h) (earlier-seconds n now.instant)

  pruned-join :
      (edge : ℤ) (t : Tables)
      → Wellformed t
      → join (pruned sql edge t).txns (pruned sql edge t).row_changes
        ≡ filter (λ (s : Stored). not (ltb_ℤ s.txn.committed_at edge)) (join t.txns t.row_changes)
  unfolding pruned delete_gaps delete_misses delete_txns
  pruned-join edge t (ht, hr, ho, hd) =
      rw ((raise_to-rows sql coverage_from edge _).0, (raise_to-rows sql coverage_from edge _).1)
        (join-filter (λ (x : Txn). not (ltb_ℤ x.committed_at edge)) t.txns t.row_changes ht ho)

  -- However the calls of the driver fail, a prune of well-formed tables keeps every change or keeps,
  -- in their order, exactly the changes of the transactions that were committed no earlier than the
  -- store's retention before now, in whole seconds. The retention is below 2^63 nanoseconds.
  pub prune-join :
      (now : Time) (t : Tables) (fs : Faults)
      → Wellformed t
      → ((n : ℕ) → t.meta retention_seconds ≡ some (number (pos n)) → n * second < 2 ^ 63)
      → (join (prune sql now t fs).0.txns (prune sql now t fs).0.row_changes
          ≡ join t.txns t.row_changes)
        ⊎ ((n : ℕ) × (t.meta retention_seconds ≡ some (number (pos (suc n))))
            × (join (prune sql now t fs).0.txns (prune sql now t fs).0.row_changes
                ≡ filter
                    (λ (s : Stored). not (ltb_ℤ s.txn.committed_at (seconds_before (suc n) now)))
                    (join t.txns t.row_changes)))
  prune-join now t fs w brief = elim (prune-Leaves sql now t fs) [
    | inl e ↦ inl (rw (e) refl)
    | inr (n, q, e) ↦ inr (
      n,
      q,
      subst
          (λ edge.
            join (prune sql now t fs).0.txns (prune sql now t fs).0.row_changes
            ≡ filter (λ (s : Stored). not (ltb_ℤ s.txn.committed_at edge))
                (join t.txns t.row_changes))
          (edge_of-before n now (brief (suc n) q)) (rw (e) (pruned-join (edge_of sql n now) t w)),
    )
  ]
