-- ===== src/Script/Lines.antt =====
-- Reading a script as SQL does: a line that begins with two dashes is a comment up to its end.
pub mod Safe
pub mod Code
use mulligan.Base.{
  ℕ, ◌≡◌, ◌≢◌, refl, sym, ap, ◌∙◌, Bool, true, false, List, [], ◌∷◌, ◌++◌, ◌==◌, if◌then◌else◌, All,
  Bool-cases, inl, inr, arith, ◌≤◌,
}
use mulligan.Base.Text.{Bytes, Lacks}
use mulligan.Base.Strings.Runes.{Plain}
use mulligan.Script.Render.{print}

abbrev pub newline : ℕ
newline = 10

pub data Mode : Type 0 where
  at_start after_dash in_comment in_code : Mode

abbrev next_mode : Mode → ℕ → Mode
next_mode at_start c = if c == newline then at_start else if c == b'-' then after_dash else in_code
next_mode after_dash c =
    if c == newline then at_start else if c == b'-' then in_comment else in_code
next_mode in_comment c = if c == newline then at_start else in_comment
next_mode in_code c = if c == newline then at_start else in_code

abbrev emitted : Mode → ℕ → Bytes
emitted at_start c = if c == b'-' then [] else c ∷ []
emitted after_dash c = if c == b'-' then [] else b'-' ∷ c ∷ []
emitted in_comment c = []
emitted in_code c = c ∷ []

unfoldable pub uncommented_from : Mode → Bytes → Bytes
uncommented_from m [] = []
uncommented_from m (c ∷ s) = emitted m c ++ uncommented_from (next_mode m c) s

-- What is left of a script without its comments.
unfoldable pub uncommented : Bytes → Bytes
uncommented s = uncommented_from at_start s

-- A line, marked as a comment or as code.
pub data Line : Type 0 where
  comment code : Bytes → Line

abbrev pub text_of : List Line → List Bytes
text_of [] = []
text_of (comment s ∷ lines) = (b'-' ∷ b'-' ∷ s) ∷ text_of lines
text_of (code s ∷ lines) = s ∷ text_of lines

abbrev pub code_of : List Line → List Bytes
code_of [] = []
code_of (comment s ∷ lines) = code_of lines
code_of (code s ∷ lines) = s ∷ code_of lines

-- Code that stays on its line and is no comment.
abbrev pub IsCode : Bytes → Type 0
IsCode [] = Unit {0}
IsCode (c ∷ s) = ((c == b'-') ≡ false) × Lacks newline (c ∷ s)

abbrev pub IsLine : Line → Type 0
IsLine (comment s) = Plain s
IsLine (code s) = IsCode s

in_comment-skip :
    (s rest : Bytes)
    → Plain s
    → uncommented_from in_comment (s ++ newline ∷ rest) ≡ uncommented_from at_start rest
unfolding uncommented_from
in_comment-skip [] rest h = refl
in_comment-skip (c ∷ s) rest (hc, h) =
    ap (λ b. uncommented_from (if b then at_start else in_comment) (s ++ newline ∷ rest))
      (shown c hc)
    ∙ in_comment-skip s rest h
  where
    shown : (c : ℕ) → 0x20 ≤ c → (c == newline) ≡ false
    shown c h = ground arith

in_code-keep :
    (s rest : Bytes)
    → Lacks newline s
    → uncommented_from in_code (s ++ newline ∷ rest) ≡ s ++ newline ∷ uncommented_from at_start rest
unfolding uncommented_from
in_code-keep [] rest h = refl
in_code-keep (c ∷ s) rest (hc, h) = rw (hc) (ap (λ l. c ∷ l) (in_code-keep s rest h))

code-keep :
    (s rest : Bytes)
    → IsCode s
    → uncommented_from at_start (s ++ newline ∷ rest)
      ≡ s ++ newline ∷ uncommented_from at_start rest
unfolding uncommented_from
code-keep [] rest h = refl
code-keep (c ∷ s) rest (hd, (hc, h)) = rw (hd, hc) (ap (λ l. c ∷ l) (in_code-keep s rest h))

-- Lines read one by one: exactly those of code are left.
pub uncommented-print :
    (lines : List Line)
    → All IsLine lines
    → uncommented (print (text_of lines)) ≡ print (code_of lines)
unfolding uncommented print uncommented_from
uncommented-print [] h = refl
uncommented-print (comment s ∷ lines) (hs, h) =
    in_comment-skip s (print (text_of lines)) hs ∙ uncommented-print lines h
uncommented-print (code s ∷ lines) (hs, h) =
    code-keep s (print (text_of lines)) hs ∙ ap (λ l. s ++ newline ∷ l) (uncommented-print lines h)
