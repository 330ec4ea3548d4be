-- ===== src/Base/Strings.antt =====
-- What the program uses of Go's strconv, unicode/utf8 and fmt.
pub mod Runes
use mulligan.Base.{
  ℕ, zero, suc, ◌+◌, ◌-◌, ◌/◌, ◌%◌, Bool, false, Option, none, some, [], ◌∷◌, ◌++◌, ◌&&◌, ltb, leb,
  ◌==◌, if◌then◌else◌,
}
use mulligan.Base.Int.{ℤ, pos, negsuc}
use mulligan.Base.Text.{Bytes}

-- At most `k + 1` digits, the last ones of the number.
unfoldable pub decimal : ℕ → ℕ → Bytes
decimal zero n = (b'0' + n % 10) ∷ []
decimal (suc k) n =
    let front = decimal k (n / 10) in
    if ltb n 10 then (b'0' + n) ∷ [] else front ++ (b'0' + n % 10) ∷ []

-- `strconv.FormatUint(n, 10)`: 64 bits take 20 digits at most.
unfoldable pub format_uint : ℕ → Bytes
format_uint n = decimal 19 n

-- `strconv.FormatInt(z, 10)`
unfoldable pub format_int : ℤ → Bytes
format_int (pos n) = format_uint n
format_int (negsuc n) = b'-' ∷ format_uint (suc n)

-- `%X` on bytes: two digits each.
unfoldable pub hex_digit : ℕ → ℕ
hex_digit d = if ltb d 10 then b'0' + d else b'A' + (d - 10)

unfoldable pub hex : Bytes → Bytes
hex [] = []
hex (b ∷ s) = hex_digit (b / 16) ∷ (hex_digit (b % 16) ∷ hex s)

-- `strings.ReplaceAll(s, q, qq)` for the text of one byte `q`.
unfoldable pub double : ℕ → Bytes → Bytes
double q [] = []
double q (c ∷ s) = if c == q then q ∷ (q ∷ double q s) else c ∷ double q s

-- The decoder of UTF-8 between two bytes: how many bytes of a character are still to come, and the
-- range of the next one.
pub record Pending : Type 0 where
  pub more : ℕ
  pub lowest : ℕ
  pub highest : ℕ

abbrev boundary : Pending
boundary = record { more = 0; lowest = 0; highest = 0 }

abbrev expect : ℕ → ℕ → ℕ → Option Pending
expect n lo hi = some (record { more = n; lowest = lo; highest = hi })

utf8_start : ℕ → Option Pending
utf8_start c =
    if ltb c 0x80
    then some boundary
    else if ltb c 0xc2
    then none
    else if ltb c 0xe0
    then expect 1 0x80 0xbf
    else if c == 0xe0
    then expect 2 0xa0 0xbf
    else if c == 0xed
    then expect 2 0x80 0x9f
    else if ltb c 0xf0
    then expect 2 0x80 0xbf
    else if c == 0xf0
    then expect 3 0x90 0xbf
    else if ltb c 0xf4
    then expect 3 0x80 0xbf
    else if c == 0xf4
    then expect 3 0x80 0x8f
    else none

utf8_step : Pending → ℕ → Option Pending
unfolding utf8_start
utf8_step p c =
    if p.more == 0
    then utf8_start c
    else if leb p.lowest c && leb c p.highest
    then (if p.more == 1 then some boundary else expect (p.more - 1) 0x80 0xbf)
    else none

utf8_run : Pending → Bytes → Bool
unfolding utf8_step
utf8_run p [] = p.more == 0
utf8_run p (c ∷ s) = elim (utf8_step p c) [ none ↦ false | some p' ↦ utf8_run p' s ]

-- `utf8.ValidString`
unfoldable pub valid_utf8 : Bytes → Bool
unfolding utf8_run
valid_utf8 s = utf8_run boundary s
