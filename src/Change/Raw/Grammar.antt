-- ===== src/Change/Raw/Grammar.antt =====
-- The texts that `valid_raw` accepts, described by a grammar of SQL numbers.
use mulligan.Base.{
  ℕ, ◌≤◌, ◌≡◌, ◌≢◌, refl, ◌↔◌, ◌⊎◌, inl, inr, true, false, [], ◌∷◌, ◌++◌, append-nil, All,
  All-append, length, arith, Bool-cases, ◌==◌,
}
use mulligan.Base.Text.{Bytes}
use mulligan.Change.Raw.{is_digit, skip_sign, scan_digits, at_end, exponent, fraction, valid_raw}

abbrev pub IsDigit : ℕ → Type 0
IsDigit c = (b'0' ≤ c) × (c ≤ b'9')

abbrev pub IsDigits : Bytes → Type 0
IsDigits t = (t ≢ []) × All IsDigit t

abbrev pub IsSign : Bytes → Type 0
IsSign t = (t ≡ []) ⊎ (t ≡ b'+' ∷ []) ⊎ (t ≡ b'-' ∷ [])

abbrev pub IsFraction : Bytes → Type 0
IsFraction t = (t ≡ []) ⊎ ((d : Bytes) × IsDigits d × (t ≡ b'.' ∷ d))

abbrev pub IsExponent : Bytes → Type 0
IsExponent t =
    (t ≡ [])
    ⊎ ((e : ℕ) × (g : Bytes) × (d : Bytes) × ((e ≡ b'e') ⊎ (e ≡ b'E'))
        × IsSign g
        × IsDigits d
        × (t ≡ e ∷ (g ++ d)))

-- An optional sign, digits, an optional fraction and an optional exponent.
pub record IsNumber (s : Bytes) : Type 0 where
  pub sign : Bytes
  pub whole : Bytes
  pub frac : Bytes
  pub exp : Bytes
  pub sign_ok : IsSign sign
  pub whole_ok : IsDigits whole
  pub frac_ok : IsFraction frac
  pub exp_ok : IsExponent exp
  pub spelled : s ≡ sign ++ (whole ++ (frac ++ exp))

-- A text that does not go on with a digit.
abbrev Stops : Bytes → Type 0
Stops [] = Unit
Stops (c ∷ s) = is_digit c ≡ false

scan_digits_sound :
    (s : Bytes)
    → (d : Bytes) × All IsDigit d × (length d ≡ (scan_digits s).0) × (s ≡ d ++ (scan_digits s).1)
unfolding scan_digits
scan_digits_sound [] = ([], tt, refl, refl)
scan_digits_sound (c ∷ s) = elim (Bool-cases (is_digit c)) [
  | inl e ↦
      let (d, digits, count, spelled) = scan_digits_sound s in
      (c ∷ d, (ground arith, digits), ground arith, ground arith)
  | inr e ↦ ([], tt, ground arith, ground arith)
]

scan_digits_complete :
    (d r : Bytes) → All IsDigit d → Stops r → scan_digits (d ++ r) ≡ (length d, r)
unfolding scan_digits
scan_digits_complete [] [] h st = refl
scan_digits_complete [] (c ∷ r) h st = ground arith
scan_digits_complete (c ∷ d) r (hc, hd) st = ground (arith, scan_digits_complete d r hd st)

skip_sign_sound : (s : Bytes) → (g : Bytes) × IsSign g × (s ≡ g ++ skip_sign s)
unfolding skip_sign
skip_sign_sound [] = ([], inl refl, refl)
skip_sign_sound (c ∷ s) = elim (Bool-cases (c == b'+')) [
  | inl e ↦ (b'+' ∷ [], inr (inl refl), ground arith)
  | inr e ↦ elim (Bool-cases (c == b'-')) [
    | inl e' ↦ (b'-' ∷ [], inr (inr refl), ground arith)
    | inr e' ↦ ([], inl refl, ground arith)
  ]
]

-- Digits that were counted are there.
some_digits : (d : Bytes) {n : ℕ} → length d ≡ n → (n == 0) ≡ false → d ≢ []
some_digits [] e h = ground arith
some_digits (c ∷ d) e h = ground arith

at_end-eq : (r : Bytes) → at_end r ≡ true → r ≡ []
unfolding at_end
at_end-eq [] h = refl
at_end-eq (c ∷ r) h = cc

exponent_sound : (s : Bytes) → exponent s ≡ true → IsExponent s
unfolding exponent
exponent_sound [] h = inl refl
exponent_sound (c ∷ s) h =
    let (g, sign, spelled) = skip_sign_sound s in
    let (d, digits, count, rest) = scan_digits_sound (skip_sign s) in
    let letter : (c ≡ b'e') ⊎ (c ≡ b'E') = ground arith in
    let more : ((scan_digits (skip_sign s)).0 == 0) ≡ false = ground arith in
    let stop : (scan_digits (skip_sign s)).1 ≡ [] =
      ground (arith, at_end-eq (scan_digits (skip_sign s)).1) in
    inr (c, g, d, letter, sign, (some_digits d count more, digits), ground (arith, append-nil d))

fraction_sound :
    (s : Bytes)
    → fraction s ≡ true
    → (f : Bytes) × (x : Bytes) × IsFraction f × IsExponent x × (s ≡ f ++ x)
unfolding fraction
fraction_sound [] h = ([], [], inl refl, inl refl, refl)
fraction_sound (c ∷ s) h = elim (Bool-cases (c == b'.')) [
  | inl e ↦
      let (d, digits, count, rest) = scan_digits_sound s in
      let more : ((scan_digits s).0 == 0) ≡ false = ground arith in
      (
        b'.' ∷ d,
        (scan_digits s).1,
        inr (d, (some_digits d count more, digits), refl),
        exponent_sound (scan_digits s).1 (ground arith),
        ground arith,
      )
  | inr e ↦ ([], c ∷ s, inl refl, exponent_sound (c ∷ s) (ground arith), refl)
]

valid_raw_sound : (s : Bytes) → valid_raw s ≡ true → IsNumber s
unfolding valid_raw
valid_raw_sound s h =
    let (g, sign, spelled) = skip_sign_sound s in
    let (d, digits, count, rest) = scan_digits_sound (skip_sign s) in
    let more : ((scan_digits (skip_sign s)).0 == 0) ≡ false = ground arith in
    let (f, x, isf, isx, tail) = fraction_sound (scan_digits (skip_sign s)).1 (ground arith) in
    record {
      sign = g;
      whole = d;
      frac = f;
      exp = x;
      sign_ok = sign;
      whole_ok = (some_digits d count more, digits);
      frac_ok = isf;
      exp_ok = isx;
      spelled = ground arith;
    }

-- A digit is no sign, so a text that begins with digits has none to skip.
skip_sign_complete : (g d r : Bytes) → IsSign g → IsDigits d → skip_sign (g ++ (d ++ r)) ≡ d ++ r
unfolding skip_sign
skip_sign_complete g [] r hg hd = absurd (hd.0 refl)
skip_sign_complete g (c ∷ d) r (inl e) hd = rw e (ground arith)
skip_sign_complete g (c ∷ d) r (inr (inl e)) hd = rw e (ground arith)
skip_sign_complete g (c ∷ d) r (inr (inr e)) hd = rw e (ground arith)

exponent_complete : (x : Bytes) → IsExponent x → exponent x ≡ true
unfolding exponent
exponent_complete x (inl e) = rw e
exponent_complete x (inr (e, g, [], letter, sign, digits, spelled)) = absurd (digits.0 refl)
exponent_complete x (inr (e, g, c ∷ d, letter, sign, digits, spelled)) = rw spelled (
    ground (
      arith,
      append-nil (c ∷ d),
      skip_sign_complete g (c ∷ d) [] sign digits,
      scan_digits_complete (c ∷ d) [] digits.1 tt,
    ))

exponent-Stops : (x : Bytes) → IsExponent x → Stops x
unfolding is_digit
exponent-Stops x (inl e) = rw e tt
exponent-Stops x (inr (e, g, d, inl letter, sign, digits, spelled)) = rw (spelled, letter) refl
exponent-Stops x (inr (e, g, d, inr letter, sign, digits, spelled)) = rw (spelled, letter) refl

fraction-exponent : (x : Bytes) → IsExponent x → fraction x ≡ true
unfolding fraction
fraction-exponent [] h = exponent_complete [] h
fraction-exponent (c ∷ x) (inl e) = cc
fraction-exponent (c ∷ x) (inr (e, g, d, letter, sign, digits, spelled)) =
    ground (arith, exponent_complete (c ∷ x) (inr (e, g, d, letter, sign, digits, spelled)))

fraction_complete : (f x : Bytes) → IsFraction f → IsExponent x → fraction (f ++ x) ≡ true
unfolding fraction
fraction_complete f x (inl e) h = rw e (fraction-exponent x h)
fraction_complete f x (inr ([], digits, spelled)) h = absurd (digits.0 refl)
fraction_complete f x (inr (c ∷ d, digits, spelled)) h = rw spelled (
    ground
      (arith, scan_digits_complete (c ∷ d) x digits.1 (exponent-Stops x h), exponent_complete x h))

fraction-Stops : (f x : Bytes) → IsFraction f → IsExponent x → Stops (f ++ x)
unfolding is_digit
fraction-Stops f x (inl e) h = rw e (exponent-Stops x h)
fraction-Stops f x (inr (d, digits, spelled)) h = rw spelled refl

valid_raw_complete : (s : Bytes) → IsNumber s → valid_raw s ≡ true
unfolding valid_raw
valid_raw_complete s n = rw n.spelled (spell n.whole n.whole_ok)
  where
    spell : (d : Bytes) → IsDigits d → valid_raw (n.sign ++ (d ++ (n.frac ++ n.exp))) ≡ true
    spell [] h = absurd (h.0 refl)
    spell (c ∷ d) h = ground (
      arith,
      skip_sign_complete n.sign (c ∷ d) (n.frac ++ n.exp) n.sign_ok h,
      scan_digits_complete (c ∷ d) (n.frac ++ n.exp) h.1
          (fraction-Stops n.frac n.exp n.frac_ok n.exp_ok),
      fraction_complete n.frac n.exp n.frac_ok n.exp_ok,
    )

-- A raw value passes the check exactly when it is a plain SQL number: an optional sign, one digit or
-- more, an optional point with one digit or more, and an optional exponent with its own sign and
-- digits, with nothing before or behind.
pub valid_raw-iff-IsNumber : (s : Bytes) → (valid_raw s ≡ true) ↔ IsNumber s
valid_raw-iff-IsNumber s = (valid_raw_sound s, valid_raw_complete s)

-- The bytes of numbers: digits, signs, the point and the letter of the exponent.
abbrev pub IsNumeral : ℕ → Type 0
IsNumeral c = IsDigit c ⊎ (c ≡ b'+') ⊎ (c ≡ b'-') ⊎ (c ≡ b'.') ⊎ (c ≡ b'e') ⊎ (c ≡ b'E')

IsDigit→IsNumeral : (d : Bytes) → All IsDigit d → All IsNumeral d
IsDigit→IsNumeral [] h = tt
IsDigit→IsNumeral (c ∷ d) h = (inl h.0, IsDigit→IsNumeral d h.1)

sign-IsNumeral : (g : Bytes) → IsSign g → All IsNumeral g
sign-IsNumeral g (inl e) = rw e tt
sign-IsNumeral g (inr (inl e)) = rw e (inr (inl refl), tt)
sign-IsNumeral g (inr (inr e)) = rw e (inr (inr (inl refl)), tt)

fraction-IsNumeral : (f : Bytes) → IsFraction f → All IsNumeral f
fraction-IsNumeral f (inl e) = rw e tt
fraction-IsNumeral f (inr (d, digits, e)) =
    rw e (inr (inr (inr (inl refl))), IsDigit→IsNumeral d digits.1)

letter-IsNumeral : (e : ℕ) → (e ≡ b'e') ⊎ (e ≡ b'E') → IsNumeral e
letter-IsNumeral e (inl h) = inr (inr (inr (inr (inl h))))
letter-IsNumeral e (inr h) = inr (inr (inr (inr (inr h))))

exponent-IsNumeral : (x : Bytes) → IsExponent x → All IsNumeral x
exponent-IsNumeral x (inl e) = rw e tt
exponent-IsNumeral x (inr (e, g, d, letter, sign, digits, h)) = rw h (
  letter-IsNumeral e letter,
  All-append IsNumeral g d (sign-IsNumeral g sign) (IsDigit→IsNumeral d digits.1),
)

-- A raw value that passes holds digits, signs, points and the letter of an exponent alone, so no
-- quote, comment, separator or space that could end the number and begin other SQL.
pub valid_raw-All : (s : Bytes) → valid_raw s ≡ true → All IsNumeral s
valid_raw-All s h =
    let n = valid_raw_sound s h in
    rw (n.spelled) (
      All-append IsNumeral n.sign (n.whole ++ (n.frac ++ n.exp)) (sign-IsNumeral n.sign n.sign_ok) (
        All-append IsNumeral n.whole (n.frac ++ n.exp) (IsDigit→IsNumeral n.whole n.whole_ok.1) (
          All-append IsNumeral n.frac n.exp (fraction-IsNumeral n.frac n.frac_ok)
            (exponent-IsNumeral n.exp n.exp_ok))))
