-- ===== src/Base/Sorting.antt =====
-- ORDER BY: a stable sort by insertion.
use mathlib.Core.Path.{◌≡◌, refl}
use mathlib.Core.Bool.{Bool, true, false}
use mathlib.Core.List.{List, [], ◌∷◌, ◌++◌, reverse, reverse-cons}
use mulligan.Base.Tests.{if◌then◌else◌}
use mulligan.Base.Lists.{All, All-append}

module _ {ℓ} {A : Type ℓ} (before : A → A → Bool) where
  unfoldable pub insert : A → List A → List A
  insert x [] = x ∷ []
  insert x (y ∷ ys) = let rest = insert x ys in if before y x then y ∷ rest else x ∷ y ∷ ys

  unfoldable pub sort_by : List A → List A
  sort_by [] = []
  sort_by (x ∷ xs) = insert x (sort_by xs)

-- Every element stands before all later ones.
module _ {ℓ} {A : Type ℓ} where
  abbrev pub Ordered : (A → A → Bool) → List A → Type 0
  Ordered before [] = Unit {0}
  Ordered before (x ∷ xs) = All (λ y. before x y ≡ true) xs × Ordered before xs

  pub All-reverse {κ} : (P : A → Type κ) (xs : List A) → All P xs → All P (reverse xs)
  All-reverse P [] h = h
  All-reverse P (x ∷ xs) (px, h) =
      rw (reverse-cons) (All-append P (reverse xs) (x ∷ []) (All-reverse P xs h) (px, tt))

  pub insert-first :
      (before : A → A → Bool) (x : A) (ys : List A)
      → All (λ y. before y x ≡ false) ys
      → insert before x ys ≡ x ∷ ys
  unfolding insert
  insert-first before x [] h = refl
  insert-first before x (y ∷ ys) (hy, h) = rw (hy) refl

  pub insert-last :
      (before : A → A → Bool) (x : A) (ys : List A)
      → All (λ y. before y x ≡ true) ys
      → insert before x ys ≡ ys ++ x ∷ []
  unfolding insert
  insert-last before x [] h = refl
  insert-last before x (y ∷ ys) (hy, h) = rw (hy, insert-last before x ys h) refl

  All-not :
      (f g : A → Bool) (flip : (y : A) → f y ≡ true → g y ≡ false) (xs : List A)
      → All (λ y. f y ≡ true) xs
      → All (λ y. g y ≡ false) xs
  All-not f g flip [] h = h
  All-not f g flip (x ∷ xs) (hx, h) = (flip x hx, All-not f g flip xs h)

  -- Sorting leaves what is in order as it is.
  pub sort_by-Ordered :
      (before : A → A → Bool) (asym : (x y : A) → before x y ≡ true → before y x ≡ false)
      (xs : List A)
      → Ordered before xs
      → sort_by before xs ≡ xs
  unfolding sort_by
  sort_by-Ordered before asym [] h = refl
  sort_by-Ordered before asym (x ∷ xs) (hx, h) =
      rw (sort_by-Ordered before asym xs h)
        (insert-first before x xs (All-not (before x) (λ y. before y x) (asym x) xs hx))

  -- Sorting the other way round turns it round.
  pub sort_by-reverse :
      (before : A → A → Bool) (xs : List A)
      → Ordered before xs
      → sort_by (λ x y. before y x) xs ≡ reverse xs
  unfolding sort_by
  sort_by-reverse before [] h = refl
  sort_by-reverse before (x ∷ xs) (hx, h) =
      rw (sort_by-reverse before xs h, reverse-cons)
        (insert-last (λ a b. before b a) x (reverse xs)
          (All-reverse (λ y. before x y ≡ true) xs hx))
