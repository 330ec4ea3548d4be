-- ===== src/Codec/Format.antt =====
-- The constants of the record format, and the errors of both directions.
use mulligan.Base.{ℕ}
use mulligan.Codec.Varint.{VarintError}

abbrev pub codec_version : ℕ
codec_version = 1

abbrev pub tag_null : ℕ
tag_null = 0

abbrev pub tag_int : ℕ
tag_int = 1

abbrev pub tag_uint : ℕ
tag_uint = 2

abbrev pub tag_float32 : ℕ
tag_float32 = 3

abbrev pub tag_float64 : ℕ
tag_float64 = 4

abbrev pub tag_bool : ℕ
tag_bool = 5

abbrev pub tag_string : ℕ
tag_string = 6

abbrev pub tag_bytes : ℕ
tag_bytes = 7

abbrev pub tag_time : ℕ
tag_time = 8

abbrev pub tag_raw : ℕ
tag_raw = 9

abbrev pub flag_primary_key : ℕ
flag_primary_key = 1

abbrev pub flag_read_only : ℕ
flag_read_only = 2

-- One constructor for each message. `column` is the wrapper that names the column.
pub data CodecError : Type 0 where
  truncated : CodecError
  number : VarintError → CodecError
  unsupported_type raw_not_number : CodecError
  newer_version : ℕ → CodecError
  count_too_large : ℕ → CodecError
  left_over : ℕ → CodecError
  bad_boolean bad_nanoseconds unknown_tag unknown_flags : ℕ → CodecError
  column : ℕ → CodecError → CodecError
