-- ===== src/Tests/Codec.antt =====
-- The codec at concrete row images and records.
use mulligan.Base.{◌≡◌, refl, true, false, [], ◌∷◌, ◌++◌, List, map, All, ok, err, ◌>>=◌, arith}
use mulligan.Base.Int.{negsuc}
use mulligan.Base.Text.{Bytes, codes}
use mulligan.Change.{Value, Column}
use mulligan.Codec.Format.{left_over}
use mulligan.Codec.Encode.{
  encode_row, encode_columns, append_values, append_value, append_int, append_len_prefixed,
}
use mulligan.Codec.Decode.{decode_row, decode_columns}
use mulligan.Codec.Varint.{uvarint_bytes, append_uvarint, append_varint, zigzag}
use mulligan.Codec.RoundTrip.Value.{stored}
use mulligan.Codec.RoundTrip.Row.{decode_row-encode_row}
use mulligan.Codec.RoundTrip.Columns.{decode_columns-encode_columns}
use mulligan.Codec.Prefix.{decode_row-append}
use mulligan.Codec.Canonical.{IsStored, decode_row-All}
use mulligan.Codec.Reencode.{encode_row-decode_row}
use mulligan.Change.Raw.{valid_raw}

-- An int8 of -2, a text of two bytes, a decimal and a NULL.
abbrev order : List Value
order =
    Value.int8 (negsuc 1) ∷ Value.bytes (codes "ok") ∷ Value.raw (codes "19.90") ∷ Value.null ∷ []

abbrev order_record : Bytes
order_record =
    1 ∷ 4 ∷ 1 ∷ 3 ∷ 7 ∷ 2 ∷ b'o' ∷ b'k' ∷ 9 ∷ 5 ∷ b'1' ∷ b'9' ∷ b'.' ∷ b'9' ∷ b'0' ∷ 0 ∷ []

encode_row-order : encode_row order ≡ ok order_record
unfolding encode_row append_values append_value append_int append_len_prefixed append_varint
    append_uvarint uvarint_bytes zigzag valid_raw
encode_row-order = refl

decode_row-encode_row_example : decode_row order_record ≡ ok (map stored order)
decode_row-encode_row_example =
    decode_row-encode_row order (omega arith) (omega arith) encode_row-order

abbrev key_column : Column
key_column = record { name = codes "id"; primary_key = true; read_only = false }

decode_columns-encode_columns_example :
    (encode_columns (key_column ∷ []) >>= decode_columns) ≡ ok (key_column ∷ [])
decode_columns-encode_columns_example =
    decode_columns-encode_columns (key_column ∷ []) (omega arith) (omega arith)

decode_row-append_example : decode_row (order_record ++ 7 ∷ 8 ∷ []) ≡ err (left_over 2)
decode_row-append_example = decode_row-append order_record 7 (8 ∷ []) decode_row-encode_row_example

decode_row-All_example : All IsStored (map stored order)
decode_row-All_example = decode_row-All order_record (omega arith) decode_row-encode_row_example

encode_row-decode_row_example :
    (encode_row (map stored order) >>= decode_row) ≡ ok (map stored order)
encode_row-decode_row_example =
    encode_row-decode_row order_record (omega arith) decode_row-encode_row_example
