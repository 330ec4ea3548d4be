-- ===== src/Base/Strings/Runes.antt =====
-- The characters of a valid UTF-8 text, as `range` gives them, and what printable ones say of its bytes.
use mulligan.Base.{
  ℕ, ◌+◌, ◌-◌, ◌*◌, ◌≤◌, ◌≡◌, refl, Bool, true, false, Option, none, some, List, [], ◌∷◌, ltb, ◌==◌,
  if◌then◌else◌, All, all, ◌⊎◌, inl, inr, arith, &&_split, Option-cases, Bool-cases,
}
use mulligan.Base.Text.{Bytes}
use mulligan.Base.Unicode.{Unicode}
use mulligan.Base.Strings.{Pending, boundary, utf8_start, utf8_step, utf8_run, valid_utf8}

-- How many bytes of a character are still to come, and the bits that are there.
pub record Rune : Type 0 where
  pub more : ℕ
  pub bits : ℕ

abbrev rune_next : Rune → ℕ → Rune
rune_next r c =
    if r.more == 0
    then (if ltb c 0x80
        then record { more = 0; bits = 0 }
        else if ltb c 0xe0
        then record { more = 1; bits = c - 0xc0 }
        else if ltb c 0xf0
        then record { more = 2; bits = c - 0xe0 }
        else record { more = 3; bits = c - 0xf0 })
    else record { more = r.more - 1; bits = r.bits * 64 + (c - 0x80) }

abbrev rune_out : Rune → ℕ → Option ℕ
rune_out r c =
    if r.more == 0
    then (if ltb c 0x80 then some c else none)
    else if r.more == 1
    then some (r.bits * 64 + (c - 0x80))
    else none

abbrev put : Option ℕ → List ℕ → List ℕ
put none rs = rs
put (some r) rs = r ∷ rs

runes_from : Rune → Bytes → List ℕ
runes_from r [] = []
runes_from r (c ∷ s) = put (rune_out r c) (runes_from (rune_next r c) s)

-- The characters of a text.
unfoldable pub runes : Bytes → List ℕ
unfolding runes_from
runes s = runes_from (record { more = 0; bits = 0 }) s

-- Without control characters.
abbrev pub Plain : Bytes → Type 0
Plain s = All (λ c. 0x20 ≤ c) s

abbrev Fits : Pending → Rune → Type 0
Fits p r = (r.more ≡ p.more) × ((p.more ≡ 0) ⊎ (0x80 ≤ p.lowest))

start-Fits :
    (r : Rune) (c : ℕ) {p' : Pending}
    → r.more ≡ 0
    → utf8_start c ≡ some p'
    → Fits p' (rune_next r c) × ((0x20 ≤ c) ⊎ (rune_out r c ≡ some c))
unfolding utf8_start
start-Fits r c h e = ground arith

step-Fits :
    (p : Pending) (r : Rune) (c : ℕ) {p' : Pending}
    → Fits p r
    → utf8_step p c ≡ some p'
    → Fits p' (rune_next r c) × ((0x20 ≤ c) ⊎ (rune_out r c ≡ some c))
unfolding utf8_step
step-Fits p r c h e = ground (arith, start-Fits r c)

-- A byte below 0x80 that stands for itself is printed, where all characters are.
printed-le :
    (u : Unicode) (r : Rune) (c : ℕ) (rs : List ℕ)
    → (0x20 ≤ c) ⊎ (rune_out r c ≡ some c)
    → all u.is_print (put (rune_out r c) rs) ≡ true
    → 0x20 ≤ c
printed-le u r c rs (inl h) g = h
printed-le u r c rs (inr e) g = elim (Bool-cases (ltb c 0x20)) [
  | inl x ↦
      absurd (unprinted (u.is_print_control c (ground arith)) ((&&_split _ _ (rw (e) at g)).0))
  | inr x ↦ ground arith
]
  where
    unprinted : {b : Bool} → b ≡ false → b ≡ true → ⊥
    unprinted e e' = cc

printed-rest :
    (u : Unicode) (o : Option ℕ) (rs : List ℕ)
    → all u.is_print (put o rs) ≡ true
    → all u.is_print rs ≡ true
printed-rest u none rs g = g
printed-rest u (some r) rs g = (&&_split _ _ g).1

printed-Plain :
    (u : Unicode) (s : Bytes) (p : Pending) (r : Rune)
    → Fits p r
    → utf8_run p s ≡ true
    → all u.is_print (runes_from r s) ≡ true
    → Plain s
unfolding utf8_run runes_from
printed-Plain u [] p r f v g = tt
printed-Plain u (c ∷ s) p r f v g = elim (Option-cases (utf8_step p c)) [
  | inl e ↦ absurd (refused (rw (e, utf8_run) at v))
  | inr (p', e) ↦
      let (f', h) = step-Fits p r c f e in
      (
        printed-le u r c (runes_from (rune_next r c) s) h g,
        printed-Plain u s p' (rune_next r c) f' (rw (e, utf8_run) at v)
            (printed-rest u (rune_out r c) (runes_from (rune_next r c) s) g),
      )
]
  where
    refused : false ≡ true → ⊥
    refused q = cc

-- A valid text with printable characters alone has no control byte.
pub printable-Plain :
    (u : Unicode) (s : Bytes) → valid_utf8 s ≡ true → all u.is_print (runes s) ≡ true → Plain s
unfolding valid_utf8 runes
printable-Plain u s v g =
    printed-Plain u s boundary (record { more = 0; bits = 0 }) (refl, inl refl) v g
