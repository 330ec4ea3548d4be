-- ===== src/Reverse/Plan.antt =====
-- What a plan holds, in which order, and when there is none.
use mathlib.Core.List.{reverse, reverse-append}
use mulligan.Base.{
  ℕ, ◌+◌, ◌≡◌, refl, ◌∙◌, ap, Bool, true, false, not, ◌||◌, is_ok, all, List, [], ◌∷◌, ◌++◌, map,
  filter, All, All-append, length, arith, ok, err, sym, Result-cases, Bool-cases, inl, inr,
}
use mathlib.Core.Path.{subst}
use native.Mathlib.Nat.{add-zero}
use mulligan.Change.{Event, is_schema_change}
use mulligan.Reverse.Literal.{Formats, ReverseError}
use mulligan.Reverse.Statement.{statement, Reversal, plan_one, plan_from, plan}

abbrev pub is_row_change : Event → Bool
is_row_change ev = not (is_schema_change ev)

map-append-one {ℓ κ} :
    {A : Type ℓ} {B : Type κ} (g : A → B) (xs : List A) (x : A)
    → map g (xs ++ x ∷ []) ≡ map g xs ++ g x ∷ []
map-append-one g [] x = refl
map-append-one g (y ∷ xs) x = ap (λ t. g y ∷ t) (map-append-one g xs x)

module _ (f : Formats) where
  -- A reversal carries the statement that the engine gives for its event.
  abbrev pub IsReversal : Reversal → Type 0
  IsReversal r = statement f r.event ≡ ok r.statement

  -- The row changes of the events, newest first, each with its statement.
  abbrev pub IsPlan : List Event → List Reversal → Type 0
  IsPlan events out =
      (map (λ r. r.event) out ≡ reverse (filter is_row_change events)) × All IsReversal out

  plan_one-IsPlan :
      (i : ℕ) (ev : Event) (events : List Event) (later : List Reversal) {out : List Reversal}
      → IsPlan events later
      → plan_one f i ev later ≡ ok out
      → IsPlan (ev ∷ events) out
  unfolding plan_one
  plan_one-IsPlan i ev events later {out} p h = elim (Bool-cases (is_schema_change ev)) [
    | inl schema ↦ rw schema (subst (IsPlan events) (ground arith) p)
    | inr row ↦ elim (Result-cases (statement f ev)) [
      | inl (stmt, e) ↦
          let r : Reversal = record { event = ev; statement = stmt } in
          let same : later ++ r ∷ [] ≡ out = ground arith in
          rw row (
            subst (IsPlan_with ev events) same (
              map-append-one (λ (x : Reversal). x.event) later r
                  ∙ ap (λ t. t ++ ev ∷ []) p.0
                  ∙ sym (reverse-append (ev ∷ []) (filter is_row_change events)),
              All-append IsReversal later (r ∷ []) p.1 (e, tt),
            ))
      | inr (x, e) ↦ absurd (ground arith)
    ]
  ]
    where
      IsPlan_with : Event → List Event → List Reversal → Type 0
      IsPlan_with ev events out =
          (map (λ r. r.event) out ≡ reverse (ev ∷ filter is_row_change events)) × All IsReversal out

  plan_from-IsPlan :
      (i : ℕ) (events : List Event) {out : List Reversal}
      → plan_from f i events ≡ ok out
      → IsPlan events out
  unfolding plan_from
  plan_from-IsPlan i [] {out} h = let e : [] ≡ out = cc in subst (IsPlan []) e (refl, tt)
  plan_from-IsPlan i (ev ∷ events) h = elim (Result-cases (plan_from f (i + 1) events)) [
    | inl (later, e) ↦
        plan_one-IsPlan i ev events later (plan_from-IsPlan (i + 1) events e) (rw e at h)
    | inr (x, e) ↦ absurd (ground arith)
  ]

  -- A plan holds exactly the row changes among the events, newest first, each paired with the
  -- statement that the engine gives for it. Schema changes are left out; nothing else is.
  pub plan-IsPlan :
      (events : List Event) {out : List Reversal}
      → plan f events ≡ ok out
      → (map (λ r. r.event) out ≡ reverse (filter is_row_change events)) × All IsReversal out
  unfolding plan
  plan-IsPlan events h = plan_from-IsPlan 0 events h

  abbrev pub can_reverse : Event → Bool
  can_reverse ev = is_schema_change ev || is_ok (statement f ev)

  plan_one-is_ok :
      (i : ℕ) (ev : Event) (later : List Reversal) → is_ok (plan_one f i ev later) ≡ can_reverse ev
  unfolding plan_one
  plan_one-is_ok i ev later = elim (Bool-cases (is_schema_change ev)) [
    | inl schema ↦ rw schema
    | inr row ↦ elim (Result-cases (statement f ev)) [
      | inl (stmt, e) ↦ rw (row, e)
      | inr (x, e) ↦ rw (row, e)
    ]
  ]

  plan_from-is_ok :
      (i : ℕ) (events : List Event) → is_ok (plan_from f i events) ≡ all can_reverse events
  unfolding plan_from
  plan_from-is_ok i [] = refl
  plan_from-is_ok i (ev ∷ events) = elim (Result-cases (plan_from f (i + 1) events)) [
    | inl (later, e) ↦ ground (arith, e, plan_one-is_ok i ev later, plan_from-is_ok (i + 1) events)
    | inr (x, e) ↦ ground (arith, e, plan_from-is_ok (i + 1) events)
  ]

  -- Generation is all or nothing: there is a plan exactly when every event is a schema change or has
  -- a statement of its own.
  pub plan-is_ok : (events : List Event) → is_ok (plan f events) ≡ all can_reverse events
  unfolding plan
  plan-is_ok events = plan_from-is_ok 0 events

  -- The event that a refusal names: the row change behind `front`, which has no statement, while all
  -- that follows it could be reversed.
  pub record Blamed (i : ℕ) (events : List Event) (x : ReverseError) : Type 0 where
    pub front : List Event
    pub culprit : Event
    pub back : List Event
    pub reason : ReverseError
    pub found : events ≡ front ++ culprit ∷ back
    pub named : x ≡ ReverseError.event (i + length front) reason
    pub is_row : is_schema_change culprit ≡ false
    pub refused : statement f culprit ≡ err reason
    pub newer : all can_reverse back ≡ true

  plan_from-Blamed :
      (i : ℕ) (events : List Event) {x : ReverseError}
      → plan_from f i events ≡ err x
      → Blamed i events x
  unfolding plan_from plan_one
  plan_from-Blamed i [] h = absurd (cc)
  plan_from-Blamed i (ev ∷ events) {x} h = elim (Result-cases (plan_from f (i + 1) events)) [
    | inl (later, e) ↦ elim (Bool-cases (is_schema_change ev)) [
      | inl schema ↦ absurd (ground arith)
      | inr row ↦ elim (Result-cases (statement f ev)) [
        | inl (stmt, q) ↦ absurd (ground arith)
        | inr (y, q) ↦ record {
          front = [];
          culprit = ev;
          back = events;
          reason = y;
          found = refl;
          named = rw add-zero (ground arith);
          is_row = row;
          refused = q;
          newer = sym (plan_from-is_ok (i + 1) events) ∙ rw e;
        }
      ]
    ]
    | inr (y, e) ↦
        let b = plan_from-Blamed (i + 1) events e in
        let same : y ≡ x = ground arith in
        record {
          front = ev ∷ b.front;
          culprit = b.culprit;
          back = b.back;
          reason = b.reason;
          found = ap (λ t. ev ∷ t) b.found;
          named = sym same ∙ b.named ∙ ap (λ n. ReverseError.event n b.reason) (omega arith);
          is_row = b.is_row;
          refused = b.refused;
          newer = b.newer;
        }
  ]

  -- A refused plan names the newest row change that has no statement, by its index, with the reason.
  pub plan-Blamed :
      (events : List Event) {x : ReverseError} → plan f events ≡ err x → Blamed 0 events x
  unfolding plan
  plan-Blamed events h = plan_from-Blamed 0 events h
