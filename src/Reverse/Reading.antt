-- ===== src/Reverse/Reading.antt =====
-- How a MySQL server reads the texts that the engine writes: a reader of quoted strings, hex
-- literals and quoted names, and that it gets back what was written.
use mulligan.Base.{
  ℕ, ◌+◌, ◌-◌, ◌*◌, ◌/◌, ◌%◌, ◌<◌, ◌≡◌, ◌≢◌, refl, true, false, ◌&&◌, Option, none, some, [], ◌∷◌,
  ◌++◌, append_assoc, All, leb, ◌==◌, if◌then◌else◌, arith, Bool-cases, inl, inr, ap,
}
use mulligan.Base.Strings.{hex_digit, hex, double}
use mulligan.Base.Text.{Bytes, IsByte}
use mulligan.Reverse.Literal.{
  quote, backslash, plain_bytes, safe_to_quote, hex_literal, quote_string,
}
use mulligan.Reverse.Statement.{backtick, quote_ident}

-- What a backslash does inside a string: `none` under NO_BACKSLASH_ESCAPES, else the bytes that
-- stand for a backslash with the byte behind it.
abbrev pub Mode : Type 0
Mode = Option (ℕ → Bytes)

abbrev prefix : Bytes → Option (Bytes × Bytes) → Option (Bytes × Bytes)
prefix s none = none
prefix s (some (t, rest)) = some (s ++ t, rest)

-- The text up to the closing `q`, behind the opening one, and what follows it. Two `q` are one.
read_quoted : ℕ → Mode → Bytes → Option (Bytes × Bytes)
read_quoted q mode [] = none
read_quoted q mode (c ∷ []) = if c == q then some ([], []) else none
read_quoted q none (c ∷ d ∷ s) =
    let one = read_quoted q none (d ∷ s) in
    let two = read_quoted q none s in
    if c == q
    then (if d == q then prefix (q ∷ []) two else some ([], d ∷ s))
    else prefix (c ∷ []) one
read_quoted q (some escape) (c ∷ d ∷ s) =
    let one = read_quoted q (some escape) (d ∷ s) in
    let two = read_quoted q (some escape) s in
    if c == q
    then (if d == q then prefix (q ∷ []) two else some ([], d ∷ s))
    else if c == backslash
    then prefix (escape d) two
    else prefix (c ∷ []) one

hex_value : ℕ → Option ℕ
hex_value c =
    if leb b'0' c && leb c b'9'
    then some (c - b'0')
    else if leb b'A' c && leb c b'F'
    then some (c - b'A' + 10)
    else none

-- Two digits make a byte; `put_byte` puts it before what is read behind them.
put_byte : Option ℕ → Option ℕ → Option (Bytes × Bytes) → Option (Bytes × Bytes)
put_byte (some h) (some l) (some (t, rest)) = some ((h * 16 + l) ∷ t, rest)
put_byte _ _ _ = none

read_hex : Bytes → Option (Bytes × Bytes)
unfolding hex_value put_byte
read_hex [] = none
read_hex (c ∷ []) = if c == quote then some ([], []) else none
read_hex (c ∷ d ∷ s) =
    let more = read_hex s in
    if c == quote then some ([], d ∷ s) else put_byte (hex_value c) (hex_value d) more

-- A string, quoted or in hex.
pub read_text : Mode → Bytes → Option (Bytes × Bytes)
unfolding read_quoted read_hex
read_text mode [] = none
read_text mode (c ∷ []) = none
read_text mode (c ∷ d ∷ s) =
    if c == quote
    then read_quoted quote mode (d ∷ s)
    else if c == b'X' && d == quote
    then read_hex s
    else none

-- A name between backticks, in which no byte is an escape.
pub read_name : Bytes → Option (Bytes × Bytes)
unfolding read_quoted
read_name [] = none
read_name (c ∷ s) = if c == backtick then read_quoted backtick none s else none

-- The text does not go on with the quote `q`.
abbrev pub NotNext : ℕ → Bytes → Type 0
NotNext q [] = Unit
NotNext q (c ∷ s) = c ≢ q

closing :
    (q : ℕ) (mode : Mode) (rest : Bytes)
    → NotNext q rest
    → read_quoted q mode (q ∷ rest) ≡ some ([], rest)
unfolding read_quoted
closing q mode [] h = ground arith
closing q none (c ∷ rest) h = ground arith
closing q (some e) (c ∷ rest) h = ground arith

-- No byte of the text is an escape in this mode.
abbrev Unescaped : Mode → Bytes → Type 0
Unescaped none s = Unit
Unescaped (some e) s = All (λ c. c ≢ backslash) s

read_doubled :
    (q : ℕ) (mode : Mode) (s : Bytes)
    → read_quoted q mode (q ∷ (q ∷ s)) ≡ prefix (q ∷ []) (read_quoted q mode s)
unfolding read_quoted
read_doubled q none s = ground arith
read_doubled q (some e) s = ground arith

read_ordinary :
    (q : ℕ) (mode : Mode) (c : ℕ) (s : Bytes)
    → c ≢ q
    → Unescaped mode (c ∷ [])
    → read_quoted q mode (c ∷ s) ≡ prefix (c ∷ []) (read_quoted q mode s)
unfolding read_quoted
read_ordinary q none c [] n u = ground arith
read_ordinary q none c (d ∷ s) n u = ground arith
read_ordinary q (some e) c [] n u = ground arith
read_ordinary q (some e) c (d ∷ s) n u = ground (arith, u.0)

Unescaped-cons :
    (mode : Mode) (c : ℕ) (s : Bytes)
    → Unescaped mode (c ∷ s)
    → Unescaped mode (c ∷ []) × Unescaped mode s
Unescaped-cons none c s u = (tt, tt)
Unescaped-cons (some e) c s u = ((u.0, tt), u.1)

read_quoted-double :
    (q : ℕ) (mode : Mode) (s rest : Bytes)
    → Unescaped mode s
    → NotNext q rest
    → read_quoted q mode (double q s ++ q ∷ rest) ≡ some (s, rest)
unfolding double
read_quoted-double q mode [] rest u h = closing q mode rest h
read_quoted-double q mode (c ∷ s) rest u h =
    let (one, more) = Unescaped-cons mode c s u in
    let ih = read_quoted-double q mode s rest more h in
    elim (Bool-cases (c == q)) [
      | inl e ↦ rw e (ground (arith, read_doubled q mode (double q s ++ q ∷ rest), ih))
      | inr e ↦
          let n : c ≢ q = ground arith in
          rw e (ground (arith, read_ordinary q mode c (double q s ++ q ∷ rest) n one, ih))
    ]

-- A quoted name is read back as the name, whatever bytes it holds; backticks in it do not end it.
-- What follows the name does not begin with a backtick.
pub read_name-quote_ident :
    (name rest : Bytes)
    → NotNext backtick rest
    → read_name (quote_ident name ++ rest) ≡ some (name, rest)
unfolding read_name quote_ident
read_name-quote_ident name rest h =
    rw append_assoc (ground (arith, read_quoted-double backtick none name rest tt h))

plain_bytes-Unescaped : (mode : Mode) (s : Bytes) → plain_bytes s ≡ true → Unescaped mode s
unfolding plain_bytes
plain_bytes-Unescaped none s h = tt
plain_bytes-Unescaped (some e) [] h = tt
plain_bytes-Unescaped (some e) (c ∷ s) h =
    (ground arith, plain_bytes-Unescaped (some e) s (ground arith))

hex_value-hex_digit : (d : ℕ) → d < 16 → hex_value (hex_digit d) ≡ some d
unfolding hex_value hex_digit
hex_value-hex_digit d h = ground arith

hex_digit-ne-quote : (d : ℕ) → d < 16 → (hex_digit d == quote) ≡ false
unfolding hex_digit
hex_digit-ne-quote d h = ground arith

read_hex-hex : (s rest : Bytes) → All IsByte s → read_hex (hex s ++ quote ∷ rest) ≡ some (s, rest)
unfolding read_hex hex put_byte
read_hex-hex [] [] h = refl
read_hex-hex [] (c ∷ rest) h = refl
read_hex-hex (b ∷ s) rest h =
    rw
      (
        hex_digit-ne-quote (b / 16) (omega (arith, h.0)),
        hex_value-hex_digit (b / 16) (omega (arith, h.0)),
        hex_value-hex_digit (b % 16) (omega arith),
        read_hex-hex s rest h.1,
      )
      (ap (λ x. some (x ∷ s, rest)) (omega arith))

-- A quote at the front is followed by another byte at least.
from_quote :
    (mode : Mode) (t rest : Bytes) {r : Option (Bytes × Bytes)}
    → read_quoted quote mode (t ++ quote ∷ rest) ≡ r
    → read_text mode (quote ∷ (t ++ quote ∷ rest)) ≡ r
unfolding read_text
from_quote mode [] rest h = h
from_quote mode (c ∷ t) rest h = h

quoted :
    (mode : Mode) (s rest : Bytes)
    → plain_bytes s ≡ true
    → NotNext quote rest
    → read_text mode ((quote ∷ (double quote s ++ quote ∷ [])) ++ rest) ≡ some (s, rest)
quoted mode s rest plain h = rw append_assoc (
    from_quote mode (double quote s) rest
      (read_quoted-double quote mode s rest (plain_bytes-Unescaped mode s plain) h))

in_hex :
    (mode : Mode) (s rest : Bytes)
    → All IsByte s
    → read_text mode (hex_literal s ++ rest) ≡ some (s, rest)
unfolding read_text hex_literal
in_hex mode s rest bytes = rw append_assoc (read_hex-hex s rest bytes)

-- A text value is read back from the script byte by byte, whatever bytes it holds: no quote,
-- backslash, control byte or broken character in it ends the literal early or changes the text. This
-- holds under every setting for backslashes, NO_BACKSLASH_ESCAPES or not; what follows the literal
-- does not begin with a quote.
pub read_text-quote_string :
    (mode : Mode) (s rest : Bytes)
    → All IsByte s
    → NotNext quote rest
    → read_text mode (quote_string s ++ rest) ≡ some (s, rest)
unfolding quote_string
read_text-quote_string mode s rest bytes h = elim (Bool-cases (safe_to_quote s)) [
  | inl safe ↦ rw safe (quoted mode s rest (unfold safe_to_quote in ground arith) h)
  | inr unsafe ↦ rw unsafe (in_hex mode s rest bytes)
]
