-- ===== src/Store/Binding.antt =====
-- `Bind` of internal/store/store.go keeps a store to the source it was created against.
use mathlib.Core.Path.{subst}
use mulligan.Base.{
  Option, ◌≡◌, ◌↔◌, refl, sym, ap, ◌∙◌, true, false, some, List, [], ◌∷◌, Result, ok, err,
  Result-cases, Bool-cases, inl, inr,
}
use mulligan.Base.Text.{Bytes, beq, beq-eq, beq_self}
use mulligan.Store.Schema.{Binding, Tables, StoreError}
use mulligan.Store.Tx.{Faults, session, settle, call}
use mulligan.Store.Source.{bind, check_binding, same_binding, same_fields}

-- The fields of two bindings agree.
abbrev pub SameSource : Binding → Binding → Type 0
SameSource a b =
    (a.flavor ≡ b.flavor)
    × (a.server_identity ≡ b.server_identity)
    × (a.gtid_dialect ≡ b.gtid_dialect)
    × (a.decode_fingerprint ≡ b.decode_fingerprint)

clash : true ≡ false → ⊥
clash h = cc

same_fields-cons :
    (s u : Bytes) (fields : List (Bytes × Bytes))
    → (same_fields ((s, u) ∷ fields) ≡ ok tt) ↔ ((s ≡ u) × (same_fields fields ≡ ok tt))
unfolding same_fields
same_fields-cons s u fields = elim (Bool-cases (beq s u)) [
  | inl e ↦ rw (e) ((λ h. (beq-eq s u e, h)), λ h. h.1)
  | inr e ↦ rw (e) ((λ h. absurd (no_err h)), λ h. absurd (differ e h.0))
]
  where
    no_err : {x : StoreError} → ◌≡◌ {A = Result StoreError (Unit {0})} (err x) (ok tt) → ⊥
    no_err h = cc

    differ : beq s u ≡ false → s ≡ u → ⊥
    differ e h = clash (sym (beq_self s) ∙ ap (beq s) h ∙ e)

same_binding-SameSource : (a b : Binding) → (same_binding a b ≡ ok tt) ↔ SameSource a b
unfolding same_binding same_fields
same_binding-SameSource a b =
    let last = (a.decode_fingerprint, b.decode_fingerprint) ∷ [] in
    let behind = (a.gtid_dialect, b.gtid_dialect) ∷ last in
    let flavors =
      same_fields-cons a.flavor b.flavor ((a.server_identity, b.server_identity) ∷ behind) in
    let identities = same_fields-cons a.server_identity b.server_identity behind in
    let dialects = same_fields-cons a.gtid_dialect b.gtid_dialect last in
    let contracts = same_fields-cons a.decode_fingerprint b.decode_fingerprint [] in
    (
      (λ h.
          let (flavor, h1) = flavors.0 h in
          let (identity, h2) = identities.0 h1 in
          let (dialect, h3) = dialects.0 h2 in (flavor, identity, dialect, (contracts.0 h3).0)),
      λ h. flavors.1 (h.0, identities.1 (h.1, dialects.1 (h.2, contracts.1 (h.3, nothing_left)))),
    )
  where
    nothing_left : same_fields [] ≡ ok tt
    nothing_left = refl

check-bound :
    (stored b : Binding) (t : Tables) (fs : Faults)
    → ((settle t (check_binding b (some stored) (session t fs))).0 ≡ t)
      × (((settle t (check_binding b (some stored) (session t fs))).1 ≡ ok tt)
          ↔ SameSource stored b)
unfolding check_binding
check-bound stored b t fs = elim (Result-cases (same_binding stored b)) [
  | inl (u, e) ↦ rw (e) (refl, ((λ h. (same_binding-SameSource stored b).0 e), λ h. refl))
  | inr (x, e) ↦ rw (e) (
    refl,
    (
      (λ h. absurd (no_err h)),
      λ h. absurd (no_err (sym e ∙ (same_binding-SameSource stored b).1 h)),
    ),
  )
]
  where
    no_err : {x : StoreError} → ◌≡◌ {A = Result StoreError (Unit {0})} (err x) (ok tt) → ⊥
    no_err h = cc

check-found :
    (stored b : Binding) (t : Tables) (fs : Faults) (found : Option Binding)
    → found ≡ some stored
    → ((settle t (check_binding b found (session t fs))).0 ≡ t)
      × (((settle t (check_binding b found (session t fs))).1 ≡ ok tt) ↔ SameSource stored b)
check-found stored b t fs found h =
    subst
      (λ o.
        ((settle t (check_binding b o (session t fs))).0 ≡ t)
        × (((settle t (check_binding b o (session t fs))).1 ≡ ok tt) ↔ SameSource stored b))
      (sym h) (check-bound stored b t fs)

-- A store that has a source keeps it, whichever calls of the driver fail; where none fails, another
-- connection is let through exactly when it reports the same source in all four fields.
pub bind-SameSource :
    (stored b : Binding) (t : Tables) (fs : Faults)
    → t.source ≡ some stored
    → ((bind b t fs).0 ≡ t) × (((bind b t []).1 ≡ ok tt) ↔ SameSource stored b)
unfolding bind call
bind-SameSource stored b t [] h = check-found stored b t [] t.source h
bind-SameSource stored b t (true ∷ fs) h = (refl, (check-found stored b t [] t.source h).1)
bind-SameSource stored b t (false ∷ fs) h =
    ((check-found stored b t fs t.source h).0, (check-found stored b t [] t.source h).1)
