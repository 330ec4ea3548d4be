-- ===== src/Api/Cursor.antt =====
-- Cutting a list of entries at a cursor.
use mulligan.Base.{
  ℕ, zero, suc, ◌≤◌, ◌<◌, ◌≡◌, refl, ap, Bool, true, false, List, [], ◌∷◌, ◌++◌, ltb, filter, All,
  All-imp, All-filter, length, ◌==◌, Bool-cases, inl, inr, arith,
}
use mulligan.Base.Sorting.{Ordered}
use mulligan.Store.Read.{Entry}
use mulligan.Api.Changes.{last_id}

abbrev pub take : ℕ → List Entry → List Entry
take zero es = []
take (suc n) [] = []
take (suc n) (e ∷ es) = e ∷ take n es

-- The entries that stand behind a cursor.
abbrev pub below : ℕ → List Entry → List Entry
below i es = filter (λ e. ltb e.id i) es

-- Newest first.
abbrev pub falls : Entry → Entry → Bool
falls a b = ltb b.id a.id

abbrev pub Falling : List Entry → Type 0
Falling es = Ordered falls es

below_whole : (d : ℕ) (es : List Entry) → All (λ e. ltb e.id d ≡ true) es → below d es ≡ es
below_whole d [] h = refl
below_whole d (e ∷ es) (he, h) = rw (he) (ap (λ l. e ∷ l) (below_whole d es h))

pub last_id-le :
    (n d : ℕ) (es : List Entry)
    → All (λ e. ltb e.id d ≡ true) es
    → Falling es
    → last_id d (take n es) ≤ d
unfolding last_id
last_id-le zero d es h f = omega arith
last_id-le (suc n) d [] h f = omega arith
last_id-le (suc n) d (e ∷ es) (he, h) (fe, f) = ground (arith, last_id-le n e.id es fe f)

cut :
    (n d : ℕ) (es : List Entry)
    → All (λ e. ltb e.id d ≡ true) es
    → Falling es
    → take n es ++ below (last_id d (take n es)) es ≡ es
unfolding last_id
cut zero d es h f = below_whole d es h
cut (suc n) d [] h f = refl
cut (suc n) d (e ∷ es) h (fe, f) =
    rw (not_below e.id (last_id e.id (take n es)) (last_id-le n e.id es fe f))
      (ap (λ l. e ∷ l) (cut n e.id es fe f))
  where
    not_below : (a i : ℕ) → i ≤ a → ltb a i ≡ false
    not_below a i h = ground arith

-- A page, and what stands behind its last entry, are the whole.
pub cut-page :
    (n : ℕ) (e : Entry) (es : List Entry)
    → Falling (e ∷ es)
    → (e ∷ take n es) ++ below (last_id e.id (take n es)) (e ∷ es) ≡ e ∷ es
unfolding last_id
cut-page n e es (fe, f) =
    cut (suc n) (suc e.id) (e ∷ es) (ground arith, All-imp _ _ (λ x h. weaker x.id e.id h) es fe)
      (fe, f)
  where
    weaker : (a b : ℕ) → ltb a b ≡ true → ltb a (suc b) ≡ true
    weaker a b h = ground arith

pub below-below : (i c : ℕ) (es : List Entry) → i ≤ c → below i (below c es) ≡ below i es
below-below i c [] h = refl
below-below i c (e ∷ es) h = elim (Bool-cases (ltb e.id c)) [
  | inl x ↦ rw (x) (elim (Bool-cases (ltb e.id i)) [
    | inl y ↦ rw (y) (ap (λ l. e ∷ l) (below-below i c es h))
    | inr y ↦ rw (y) (below-below i c es h)
  ])
  | inr x ↦ rw (x, outside e.id x) (below-below i c es h)
]
  where
    outside : (a : ℕ) → ltb a c ≡ false → ltb a i ≡ false
    outside a x = ground arith

pub below-All : (c : ℕ) (es : List Entry) → All (λ e. ltb e.id c ≡ true) (below c es)
below-All c [] = tt
below-All c (e ∷ es) = elim (Bool-cases (ltb e.id c)) [
  | inl x ↦ rw (x) (x, below-All c es)
  | inr x ↦ rw (x) (below-All c es)
]

-- A page that is not full is all there is.
pub take_whole : (n : ℕ) (es : List Entry) → (length (take n es) == n) ≡ false → take n es ≡ es
take_whole zero es h = absurd (ground arith)
take_whole (suc n) [] h = refl
take_whole (suc n) (e ∷ es) h = ap (λ l. e ∷ l) (take_whole n es (ground arith))

pub last_id-positive : (d : ℕ) (es : List Entry) → 0 < d → All (λ e. 0 < e.id) es → 0 < last_id d es
unfolding last_id
last_id-positive d [] hd h = hd
last_id-positive d (e ∷ es) hd (he, h) = last_id-positive e.id es he h

pub take-All : (P : Entry → Type 0) (n : ℕ) (es : List Entry) → All P es → All P (take n es)
take-All P zero es h = tt
take-All P (suc n) [] h = tt
take-All P (suc n) (e ∷ es) (he, h) = (he, take-All P n es h)

pub below-Falling : (c : ℕ) (es : List Entry) → Falling es → Falling (below c es)
below-Falling c [] h = tt
below-Falling c (e ∷ es) (he, h) = elim (Bool-cases (ltb e.id c)) [
  | inl x ↦
      rw (x) (All-filter (λ y. falls e y ≡ true) (λ y. ltb y.id c) es he, below-Falling c es h)
  | inr x ↦ rw (x) (below-Falling c es h)
]
