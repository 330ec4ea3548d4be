-- ===== src/Codec/Decode.antt =====
-- `DecodeRow`, `DecodeColumns` and the reader. The reader is what it has not read yet, `r.b[r.i:]`,
-- and a read returns its result and the reader behind it.
use mulligan.Base.{
  ℕ, zero, suc, ◌+◌, ◌/◌, ◌%◌, List, [], ◌∷◌, length, ltb, leb, ◌==◌, if◌then◌else◌, Result, ok,
  err, ◌>>=◌, ◌>>◌, guard, wrap,
}
use mulligan.Base.Int.{ℤ}
use mulligan.Base.Text.{Bytes}
use mulligan.Base.Time.{unix_instant}
use mulligan.Change.{Value, Column}
use mulligan.Change.Raw.{valid_raw}
use mulligan.Codec.Format.{
  CodecError, truncated, number, raw_not_number, newer_version, count_too_large, left_over,
  bad_boolean, bad_nanoseconds, unknown_tag, unknown_flags, column, codec_version, tag_null,
  tag_int, tag_uint, tag_float32, tag_float64, tag_bool, tag_string, tag_bytes, tag_time, tag_raw,
}
use mulligan.Codec.Varint
use mulligan.Codec.Varint.{VarintError, cut_short, too_wide, from_le}

abbrev pub Reader : Type 0
Reader = Bytes

abbrev pub Read : Type 0 → Type 0
Read A = Result CodecError (A × Reader)

-- `r.remaining()`
abbrev pub remaining : Reader → ℕ
remaining r = length r

unfoldable pub read_byte : Reader → Read ℕ
read_byte [] = err truncated
read_byte (c ∷ r) = ok (c, r)

unfoldable pub check_version : Reader → Read (Unit {0})
check_version r = do
  (v, r') ← read_byte r
  guard (leb v codec_version) (newer_version v)
  ok (tt, r')

abbrev varint_error : VarintError → CodecError
varint_error cut_short = truncated
varint_error too_wide = number too_wide

unfoldable pub uvarint : Reader → Read ℕ
uvarint r = wrap varint_error (Varint.uvarint r)

unfoldable pub varint : Reader → Read ℤ
varint r = wrap varint_error (Varint.varint r)

-- The slice `r.b[r.i : r.i+n]` and what follows it.
unfoldable pub split_at : ℕ → Bytes → Bytes × Bytes
split_at zero s = ([], s)
split_at (suc n) [] = ([], [])
split_at (suc n) (c ∷ s) = let (front, back) = split_at n s in (c ∷ front, back)

unfoldable pub next : ℕ → Reader → Read Bytes
next n r = if ltb (remaining r) n then err truncated else ok (split_at n r)

unfoldable pub len_prefixed : Reader → Read Bytes
len_prefixed r = do (n, r') ← uvarint r; next n r'

read_float32 : Reader → Read Value
read_float32 r = do (s, r') ← next 4 r; ok (Value.float32 (from_le s), r')

read_float64 : Reader → Read Value
read_float64 r = do (s, r') ← next 8 r; ok (Value.float64 (from_le s), r')

unfoldable pub read_bool : Reader → Read Value
read_bool r = do
  (c, r') ← read_byte r
  guard (leb c 1) (bad_boolean c)
  ok (Value.bool (c == 1), r')

unfoldable pub read_time : Reader → Read Value
read_time r = do
  (sec, r') ← varint r
  (nsec, r'') ← uvarint r'
  guard (leb nsec 999_999_999) (bad_nanoseconds nsec)
  ok (Value.time (record { instant = unix_instant sec nsec; zone = 0 }), r'')

unfoldable pub read_raw : Reader → Read Value
read_raw r = do (s, r') ← len_prefixed r; guard (valid_raw s) raw_not_number; ok (Value.raw s, r')

abbrev pub returning : {A : Type 0} → (A → Value) → Read A → Read Value
returning f m = m >>= λ p. ok (f p.0, p.1)

-- The cases of `value` behind the tag.
unfoldable pub tagged : ℕ → Reader → Read Value
unfolding read_float32 read_float64 read_bool read_time read_raw
tagged tag r =
    if tag == tag_null
    then ok (Value.null, r)
    else if tag == tag_int
    then returning Value.int64 (varint r)
    else if tag == tag_uint
    then returning Value.uint64 (uvarint r)
    else if tag == tag_float32
    then read_float32 r
    else if tag == tag_float64
    then read_float64 r
    else if tag == tag_bool
    then read_bool r
    else if tag == tag_string
    then returning Value.string (len_prefixed r)
    else if tag == tag_bytes
    then returning Value.bytes (len_prefixed r)
    else if tag == tag_time
    then read_time r
    else if tag == tag_raw
    then read_raw r
    else err (unknown_tag tag)

unfoldable pub value : Reader → Read Value
value r = do (tag, r') ← read_byte r; tagged tag r'

-- The loop of `DecodeRow`: `n` values from index `i` on.
unfoldable pub read_values : ℕ → ℕ → Reader → Read (List Value)
read_values zero i r = ok ([], r)
read_values (suc n) i r = do
  (v, r') ← wrap (column i) (value r)
  (row, r'') ← read_values n (i + 1) r'
  ok (v ∷ row, r'')

unfoldable pub decode_row : Bytes → Result CodecError (List Value)
decode_row b = do
  (_, r) ← check_version b
  (n, r') ← uvarint r
  guard (leb n (remaining r')) (count_too_large n)
  (row, r'') ← read_values n 0 r'
  guard (remaining r'' == 0) (left_over (remaining r''))
  ok row

-- `flags &^ knownFlags` keeps the bits above the lowest two.
unfoldable pub read_column : ℕ → Reader → Read Column
read_column i r = do
  (name, r') ← wrap (column i) (len_prefixed r)
  (flags, r'') ← wrap (column i) (read_byte r')
  guard (flags / 4 == 0) (unknown_flags flags)
  ok (record { name = name; primary_key = flags % 2 == 1; read_only = flags / 2 % 2 == 1 }, r'')

unfoldable pub read_columns : ℕ → ℕ → Reader → Read (List Column)
read_columns zero i r = ok ([], r)
read_columns (suc n) i r = do
  (c, r') ← read_column i r
  (cols, r'') ← read_columns n (i + 1) r'
  ok (c ∷ cols, r'')

unfoldable pub decode_columns : Bytes → Result CodecError (List Column)
decode_columns b = do
  (_, r) ← check_version b
  (n, r') ← uvarint r
  guard (leb n (remaining r' / 2)) (count_too_large n)
  (cols, r'') ← read_columns n 0 r'
  guard (remaining r'' == 0) (left_over (remaining r''))
  ok cols
