-- ===== src/Reverse/Literal.antt =====
-- internal/reverse/literal.go and display.go: a column value as SQL, and as a person reads it.
use mulligan.Base.{
  ℕ, Bool, true, false, not, ◌&&◌, ◌||◌, [], ◌∷◌, ◌++◌, ltb, ◌==◌, if◌then◌else◌, Result, ok, err,
}
use mathlib.Core.List.{reverse}
use mulligan.Base.Int.{ℤ}
use mulligan.Base.Strings.{format_uint, format_int, hex, double, valid_utf8}
use mulligan.Base.Text.{Bytes, codes}
use mulligan.Base.Time.{Time, nanosecond}
use mulligan.Change.{Op, Value}
use mulligan.Change.Raw.{valid_raw}

-- What Go's `strconv.FormatFloat` gives for the bits of a float, and `time.Time.Format` for an
-- instant in UTC, with six digits of the second's fraction or with none.
pub record Formats : Type 0 where
  pub float32_text : ℕ → Bytes
  pub float64_text : ℕ → Bytes
  pub time_text : Bool → ℤ → Bytes

-- One constructor for each message. `out_of_range` is the panic of an index beyond a slice.
pub data ReverseError : Type 0 where
  no_columns bad_before bad_after unsupported_type raw_not_number : ReverseError
  all_read_only nothing_changed nothing_to_insert null_display out_of_range : ReverseError
  unsupported_op : Op → ReverseError
  event : ℕ → ReverseError → ReverseError

abbrev pub quote : ℕ
quote = b'\''

abbrev pub backslash : ℕ
backslash = b'\\'

-- `safeToQuote`: the loop over the bytes, then the test of UTF-8.
unfoldable pub plain_bytes : Bytes → Bool
plain_bytes [] = true
plain_bytes (c ∷ s) = if c == backslash || ltb c 0x20 || c == 0x7f then false else plain_bytes s

unfoldable pub safe_to_quote : Bytes → Bool
safe_to_quote s = plain_bytes s && valid_utf8 s

unfoldable pub hex_literal : Bytes → Bytes
hex_literal b = b'X' ∷ (quote ∷ (hex b ++ quote ∷ []))

unfoldable pub quote_string : Bytes → Bytes
quote_string s =
    if not (safe_to_quote s) then hex_literal s else quote ∷ (double quote s ++ quote ∷ [])

-- `displayText`
unfoldable pub display_text : Bytes → Bytes
display_text s = if not (safe_to_quote s) then hex_literal s else s

module _ (f : Formats) where
  abbrev pub time_layout : Time → Bytes
  time_layout t = f.time_text (not (nanosecond t.instant == 0)) t.instant

  unfoldable pub quote_time : Time → Bytes
  quote_time t = quote ∷ (time_layout t ++ quote ∷ [])

  unfoldable pub literal : Value → Result ReverseError Bytes
  literal Value.null = ok (codes "NULL")
  literal (Value.bool true) = ok (codes "1")
  literal (Value.bool false) = ok (codes "0")
  literal (Value.int x) = ok (format_int x)
  literal (Value.int8 x) = ok (format_int x)
  literal (Value.int16 x) = ok (format_int x)
  literal (Value.int32 x) = ok (format_int x)
  literal (Value.int64 x) = ok (format_int x)
  literal (Value.uint x) = ok (format_uint x)
  literal (Value.uint8 x) = ok (format_uint x)
  literal (Value.uint16 x) = ok (format_uint x)
  literal (Value.uint32 x) = ok (format_uint x)
  literal (Value.uint64 x) = ok (format_uint x)
  literal (Value.float32 x) = ok (f.float32_text x)
  literal (Value.float64 x) = ok (f.float64_text x)
  literal (Value.raw x) = if valid_raw x then ok x else err raw_not_number
  literal (Value.string x) = ok (quote_string x)
  literal (Value.bytes x) = ok (quote_string x)
  literal Value.nil_bytes = ok (quote_string [])
  literal (Value.time t) = ok (quote_time t)
  literal (Value.unsupported x) = err unsupported_type

unfoldable pub trim_left : ℕ → Bytes → Bytes
trim_left q [] = []
trim_left q (c ∷ s) = if c == q then trim_left q s else c ∷ s

-- `strings.Trim(s, "'")`
unfoldable pub trim_quotes : Bytes → Bytes
trim_quotes s = reverse (trim_left quote (reverse (trim_left quote s)))

-- `Display`
unfoldable pub display : Formats → Value → Result ReverseError Bytes
display f Value.null = err null_display
display f (Value.string x) = ok (display_text x)
display f (Value.bytes x) = ok (display_text x)
display f Value.nil_bytes = ok (display_text [])
display f (Value.time t) = ok (trim_quotes (quote_time f t))
display f v = literal f v
