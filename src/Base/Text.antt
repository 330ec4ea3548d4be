-- ===== src/Base/Text.antt =====
-- Text as bytes: Go strings and byte slices are lists of numbers below 256.
use Prim.Native.Nat.{ℕ, ◌<◌}
use Prim.Native.Char.{code}
use Prim.Native.String.{String}
use mathlib.Core.Path.{◌≡◌, refl}
use mathlib.Core.Bool.{Bool, true, false, ◌&&◌, ◌||◌}
use mathlib.Core.List.{List, [], ◌∷◌, ◌++◌}
use native.Mathlib.Omega.{arith}
use mathlib.Core.Option
use mathlib.Core.Option.{Option, none, some}
use mulligan.Base.{◌==◌, if◌then◌else◌, All}

abbrev pub Bytes : Type 0
Bytes = List ℕ

-- The code points of a literal, which are its bytes where the literal is ASCII.
abbrev pub codes : String → Bytes
codes String.[] = []
codes (String.◌∷◌ c s) = code c ∷ codes s

abbrev pub IsByte : ℕ → Type 0
IsByte b = b < 256

-- Go's `==` on strings.
abbrev pub beq : Bytes → Bytes → Bool
beq [] [] = true
beq [] (y ∷ ys) = false
beq (x ∷ xs) [] = false
beq (x ∷ xs) (y ∷ ys) = x == y && beq xs ys

pub beq-eq : (xs ys : Bytes) → beq xs ys ≡ true → xs ≡ ys
beq-eq [] [] h = ground arith
beq-eq [] (y ∷ ys) h = cc
beq-eq (x ∷ xs) [] h = cc
beq-eq (x ∷ xs) (y ∷ ys) h = ground (arith, beq-eq xs ys)

pub beq_self : (xs : Bytes) → beq xs xs ≡ true
beq_self [] = ground arith
beq_self (x ∷ xs) = ground (arith, beq_self xs)

-- `strings.Join`
unfoldable pub join : Bytes → List Bytes → Bytes
join sep [] = []
join sep (p ∷ []) = p
join sep (p ∷ (q ∷ ps)) = p ++ (sep ++ join sep (q ∷ ps))

-- Texts behind each other.
abbrev pub concat : List Bytes → Bytes
concat [] = []
concat (s ∷ texts) = s ++ concat texts

-- `strings.HasPrefix(s, prefix)`
unfoldable pub has_prefix : Bytes → Bytes → Bool
has_prefix s [] = true
has_prefix [] (c ∷ prefix) = false
has_prefix (d ∷ s) (c ∷ prefix) = d == c && has_prefix s prefix

-- Whether a text is among others.
unfoldable pub contains : List Bytes → Bytes → Bool
contains [] s = false
contains (t ∷ texts) s = beq t s || contains texts s

-- A text around the first occurrence of a byte, where there is one: `strings.Index`.
unfoldable pub split_first : ℕ → Bytes → Option (Bytes × Bytes)
split_first c [] = none
split_first c (d ∷ s) =
    let rest = split_first c s in
    if d == c then some ([], s) else Option.map (λ p. (d ∷ p.0, p.1)) rest

-- A text around the last occurrence of a byte, where there is one: `strings.LastIndex`.
unfoldable pub split_last : ℕ → Bytes → Option (Bytes × Bytes)
split_last c [] = none
split_last c (d ∷ s) = elim (split_last c s) [
  | some p ↦ some (d ∷ p.0, p.1)
  | none ↦ if d == c then some ([], s) else none
]

-- A byte that a text does not have.
abbrev pub Lacks : ℕ → Bytes → Type 0
Lacks c s = All (λ d. (d == c) ≡ false) s

split_last-none : (c : ℕ) (s : Bytes) → Lacks c s → split_last c s ≡ none
unfolding split_last
split_last-none c [] h = refl
split_last-none c (d ∷ s) (hd, h) = rw (split_last-none c s h, hd) refl

pub split_last-append :
    (c : ℕ) (xs s : Bytes) → Lacks c s → split_last c (xs ++ c ∷ s) ≡ some (xs, s)
unfolding split_last
split_last-append c [] s h = rw (split_last-none c s h) (ground arith)
split_last-append c (x ∷ xs) s h = rw (split_last-append c xs s h) refl

pub split_first-append :
    (c : ℕ) (xs s : Bytes) → Lacks c xs → split_first c (xs ++ c ∷ s) ≡ some (xs, s)
unfolding split_first
split_first-append c [] s h = ground arith
split_first-append c (x ∷ xs) s (hx, h) = rw (hx, split_first-append c xs s h) refl
