-- ===== src/Change/Raw.antt =====
-- `ValidRaw` of internal/change/raw.go. The index `i` is given by what is left of the text behind
-- it, and a test `i == start` behind a loop by the number of rounds that the loop made.
pub mod Grammar
use mulligan.Base.{ℕ, zero, suc, Bool, true, false, ◌&&◌, ◌||◌, [], ◌∷◌, ◌==◌, leb, if◌then◌else◌}
use mulligan.Base.Text.{Bytes}

is_digit : ℕ → Bool
is_digit c = leb b'0' c && leb c b'9'

is_sign : ℕ → Bool
is_sign c = c == b'+' || c == b'-'

skip_sign : Bytes → Bytes
unfolding is_sign
skip_sign [] = []
skip_sign (c ∷ s) = if is_sign c then s else c ∷ s

-- `for i < len(s) && s[i] >= '0' && s[i] <= '9' { i++ }`: the rounds made, and what is left.
scan_digits : Bytes → ℕ × Bytes
unfolding is_digit
scan_digits [] = (0, [])
scan_digits (c ∷ s) =
    let rest : ℕ × Bytes = scan_digits s in if is_digit c then (suc rest.0, rest.1) else (0, c ∷ s)

at_end : Bytes → Bool
at_end [] = true
at_end (c ∷ s) = false

exponent : Bytes → Bool
unfolding skip_sign scan_digits at_end
exponent [] = true
exponent (c ∷ s) =
    if c == b'e' || c == b'E'
    then (let d : ℕ × Bytes = scan_digits (skip_sign s) in if d.0 == 0 then false else at_end d.1)
    else false

fraction : Bytes → Bool
unfolding scan_digits exponent
fraction [] = exponent []
fraction (c ∷ s) =
    if c == b'.'
    then (let d : ℕ × Bytes = scan_digits s in if d.0 == 0 then false else exponent d.1)
    else exponent (c ∷ s)

unfoldable pub valid_raw : Bytes → Bool
unfolding skip_sign scan_digits fraction
valid_raw s =
    let d : ℕ × Bytes = scan_digits (skip_sign s) in if d.0 == 0 then false else fraction d.1
