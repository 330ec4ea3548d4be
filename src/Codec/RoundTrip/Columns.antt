-- ===== src/Codec/RoundTrip/Columns.antt =====
-- A column list: `DecodeColumns` after `EncodeColumns`.
use mulligan.Base.{
  ℕ, ◌+◌, ◌*◌, ◌/◌, ◌%◌, ◌^◌, ◌≤◌, ◌<◌, ◌≡◌, refl, sym, ◌∙◌, List, [], ◌∷◌, ◌++◌, append_assoc,
  append-nil, All, length, length-append, arith, ok, ◌>>=◌, ◌==◌,
}
use mulligan.Base.Text.{Bytes}
use mulligan.Change.{Column}
use mulligan.Codec.Varint.{append_uvarint, append_uvarint-pos}
use mulligan.Codec.Format.{codec_version}
use mulligan.Codec.Encode.{column_flags, append_column, append_columns, encode_columns}
use mulligan.Codec.Decode.{read_byte, read_column, read_columns, decode_columns}
use mulligan.Codec.RoundTrip.Value.{len_prefixed-append}
use mulligan.Codec.RoundTrip.Row.{decode_header}

-- The name fits memory.
abbrev pub Fits : Column → Type 0
Fits c = length c.name < 2 ^ 63

column_flags_bits :
    (c : Column)
    → (column_flags c / 4 ≡ 0)
      × ((column_flags c % 2 == 1) ≡ c.primary_key)
      × ((column_flags c / 2 % 2 == 1) ≡ c.read_only)
unfolding column_flags
column_flags_bits c = (ground arith, ground arith, ground arith)

-- What `append_column` appends to an empty buffer.
abbrev entry : Column → Bytes
entry c = append_uvarint [] (length c.name) ++ (c.name ++ column_flags c ∷ [])

append_column-entry : (b : Bytes) (c : Column) → append_column b c ≡ b ++ entry c
unfolding append_column append_uvarint
append_column-entry b c = simp append_assoc

read_column-entry :
    (i : ℕ) (c : Column) (rest : Bytes) → Fits c → read_column i (entry c ++ rest) ≡ ok (c, rest)
unfolding read_column read_byte
read_column-entry i c rest h =
    let (high, primary, computed) = column_flags_bits c in
    rw append_assoc (
      rw append_assoc (
        ground
          (arith, len_prefixed-append c.name (column_flags c ∷ rest) h, high, primary, computed)))

entries : List Column → Bytes
entries [] = []
entries (c ∷ cols) = entry c ++ entries cols

append_columns-entries :
    (cols : List Column) (b : Bytes) → append_columns b cols ≡ b ++ entries cols
unfolding append_columns entries
append_columns-entries [] b = sym (append-nil b)
append_columns-entries (c ∷ cols) b =
    append_columns-entries cols (append_column b c)
    ∙ rw (append_column-entry b c) (append_assoc b (entry c) (entries cols))

read_columns-entries :
    (cols : List Column) (i : ℕ) (rest : Bytes)
    → All Fits cols
    → read_columns (length cols) i (entries cols ++ rest) ≡ ok (cols, rest)
unfolding read_columns entries
read_columns-entries [] i rest h = refl
read_columns-entries (c ∷ cols) i rest h = rw append_assoc (
    ground (
      arith,
      read_column-entry i c (entries cols ++ rest) h.0,
      read_columns-entries cols (i + 1) rest h.1,
    ))

length-entry : (c : Column) → 2 ≤ length (entry c)
length-entry c = omega (
  arith,
  append_uvarint-pos (length c.name),
  length-append (append_uvarint [] (length c.name)) (c.name ++ column_flags c ∷ []),
  length-append c.name (column_flags c ∷ []),
)

length-entries : (cols : List Column) → length cols * 2 ≤ length (entries cols)
unfolding entries
length-entries [] = omega arith
length-entries (c ∷ cols) =
    omega (arith, length-entry c, length-entries cols, length-append (entry c) (entries cols))

-- `EncodeColumns` refuses nothing, and `DecodeColumns` gives back the list that it was given, with
-- both marks of every column; the list and its names fit memory.
pub decode_columns-encode_columns :
    (cols : List Column)
    → All Fits cols
    → length cols < 2 ^ 63
    → (encode_columns cols >>= decode_columns) ≡ ok cols
unfolding encode_columns decode_columns
decode_columns-encode_columns cols h n =
    let (version, count) = decode_header (length cols) (entries cols) (omega arith) in
    let back : read_columns (length cols) 0 (entries cols) ≡ ok (cols, []) =
      rw append-nil at (read_columns-entries cols 0 [] h) in
    rw (append_columns-entries cols (append_uvarint (codec_version ∷ []) (length cols)))
      (ground (arith, version, count, back, length-entries cols))
