-- ===== src/Codec/Encode.antt =====
-- `EncodeRow`, `EncodeColumns` and their helpers. A buffer that is appended to is an argument.
use mulligan.Base.{
  ℕ, ◌+◌, ◌++◌, List, [], ◌∷◌, true, false, length, if◌then◌else◌, Result, ok, err, ◌>>=◌, wrap,
}
use mulligan.Base.Int.{ℤ}
use mulligan.Base.Text.{Bytes}
use mulligan.Base.Time.{unix_seconds, nanosecond}
use mulligan.Change.{Value, Column}
use mulligan.Change.Raw.{valid_raw}
use mulligan.Codec.Format.{
  CodecError, unsupported_type, raw_not_number, column, codec_version, tag_null, tag_int, tag_uint,
  tag_float32, tag_float64, tag_bool, tag_string, tag_bytes, tag_time, tag_raw, flag_primary_key,
  flag_read_only,
}
use mulligan.Codec.Varint.{append_uvarint, append_varint, le_bytes}

unfoldable pub append_int : Bytes → ℤ → Bytes
append_int b v = append_varint (b ++ tag_int ∷ []) v

unfoldable pub append_uint : Bytes → ℕ → Bytes
append_uint b v = append_uvarint (b ++ tag_uint ∷ []) v

unfoldable pub append_len_prefixed : Bytes → ℕ → Bytes → Bytes
append_len_prefixed b tag s = append_uvarint (b ++ tag ∷ []) (length s) ++ s

unfoldable pub append_value : Bytes → Value → Result CodecError Bytes
append_value b Value.null = ok (b ++ tag_null ∷ [])
append_value b (Value.bool true) = ok (b ++ tag_bool ∷ 1 ∷ [])
append_value b (Value.bool false) = ok (b ++ tag_bool ∷ 0 ∷ [])
append_value b (Value.int x) = ok (append_int b x)
append_value b (Value.int8 x) = ok (append_int b x)
append_value b (Value.int16 x) = ok (append_int b x)
append_value b (Value.int32 x) = ok (append_int b x)
append_value b (Value.int64 x) = ok (append_int b x)
append_value b (Value.uint x) = ok (append_uint b x)
append_value b (Value.uint8 x) = ok (append_uint b x)
append_value b (Value.uint16 x) = ok (append_uint b x)
append_value b (Value.uint32 x) = ok (append_uint b x)
append_value b (Value.uint64 x) = ok (append_uint b x)
append_value b (Value.float32 bits) = ok ((b ++ tag_float32 ∷ []) ++ le_bytes 4 bits)
append_value b (Value.float64 bits) = ok ((b ++ tag_float64 ∷ []) ++ le_bytes 8 bits)
append_value b (Value.string x) = ok (append_len_prefixed b tag_string x)
append_value b (Value.bytes x) = ok (append_len_prefixed b tag_bytes x)
append_value b Value.nil_bytes = ok (append_len_prefixed b tag_bytes [])
append_value b (Value.time x) = ok (
    append_uvarint (append_varint (b ++ tag_time ∷ []) (unix_seconds x.instant))
      (nanosecond x.instant))
append_value b (Value.raw x) =
    if valid_raw x then ok (append_len_prefixed b tag_raw x) else err raw_not_number
append_value b (Value.unsupported x) = err unsupported_type

-- The loop of `EncodeRow`; `i` is the index of the value.
unfoldable pub append_values : Bytes → ℕ → List Value → Result CodecError Bytes
append_values b i [] = ok b
append_values b i (v ∷ row) = do
  b' ← wrap (column i) (append_value b v)
  append_values b' (i + 1) row

unfoldable pub encode_row : List Value → Result CodecError Bytes
encode_row row = append_values (append_uvarint (codec_version ∷ []) (length row)) 0 row

-- The flags are two bits of one byte.
unfoldable pub column_flags : Column → ℕ
column_flags c =
    (if c.primary_key then flag_primary_key else 0) + (if c.read_only then flag_read_only else 0)

unfoldable pub append_column : Bytes → Column → Bytes
append_column b c = (append_uvarint b (length c.name) ++ c.name) ++ column_flags c ∷ []

unfoldable pub append_columns : Bytes → List Column → Bytes
append_columns b [] = b
append_columns b (c ∷ cols) = append_columns (append_column b c) cols

unfoldable pub encode_columns : List Column → Result CodecError Bytes
encode_columns cols = ok (append_columns (append_uvarint (codec_version ∷ []) (length cols)) cols)
