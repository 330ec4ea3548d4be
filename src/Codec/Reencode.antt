-- ===== src/Codec/Reencode.antt =====
-- A row image that was decoded can be stored again.
use mulligan.Base.{
  ℕ, ◌+◌, ◌≡◌, refl, ap, ◌∙◌, true, false, List, [], ◌∷◌, All, length, map, arith, ok, ◌>>=◌,
}
use mulligan.Base.Text.{Bytes}
use mulligan.Change.{Value}
use mulligan.Codec.Format.{codec_version, tag_raw}
use mulligan.Codec.Varint.{append_uvarint}
use mulligan.Codec.Encode.{append_len_prefixed, append_value, append_values, encode_row}
use mulligan.Codec.Decode.{decode_row}
use mulligan.Codec.Canonical.{IsStored, IsBuffer, decode_row-All, length-decode_row}
use mulligan.Codec.RoundTrip.Value.{InRange, stored}
use mulligan.Codec.RoundTrip.Row.{decode_row-encode_row}

IsStored-InRange : (v : Value) → IsStored v → InRange v
IsStored-InRange Value.null h = tt
IsStored-InRange (Value.bool b) h = tt
IsStored-InRange (Value.int64 x) h = h
IsStored-InRange (Value.uint64 x) h = h
IsStored-InRange (Value.float32 x) h = h
IsStored-InRange (Value.float64 x) h = h
IsStored-InRange (Value.string s) h = h
IsStored-InRange (Value.bytes s) h = h
IsStored-InRange (Value.raw s) h = h.0
IsStored-InRange (Value.time t) h = h.0
IsStored-InRange _ h = elim h [ ]

stored-IsStored : (v : Value) → IsStored v → stored v ≡ v
unfolding stored
stored-IsStored Value.null h = refl
stored-IsStored (Value.time t) h = ground arith
stored-IsStored (Value.int x) h = elim h [ ]
stored-IsStored (Value.int8 x) h = elim h [ ]
stored-IsStored (Value.int16 x) h = elim h [ ]
stored-IsStored (Value.int32 x) h = elim h [ ]
stored-IsStored (Value.uint x) h = elim h [ ]
stored-IsStored (Value.uint8 x) h = elim h [ ]
stored-IsStored (Value.uint16 x) h = elim h [ ]
stored-IsStored (Value.uint32 x) h = elim h [ ]
stored-IsStored Value.nil_bytes h = elim h [ ]
stored-IsStored _ h = refl

append_value-IsStored :
    (b : Bytes) (v : Value) → IsStored v → (b' : Bytes) × (append_value b v ≡ ok b')
unfolding append_value
append_value-IsStored b Value.null h = (_, refl)
append_value-IsStored b (Value.bool true) h = (_, refl)
append_value-IsStored b (Value.bool false) h = (_, refl)
append_value-IsStored b (Value.int64 x) h = (_, refl)
append_value-IsStored b (Value.uint64 x) h = (_, refl)
append_value-IsStored b (Value.float32 x) h = (_, refl)
append_value-IsStored b (Value.float64 x) h = (_, refl)
append_value-IsStored b (Value.string s) h = (_, refl)
append_value-IsStored b (Value.bytes s) h = (_, refl)
append_value-IsStored b (Value.raw s) h = (append_len_prefixed b tag_raw s, rw (h.1))
append_value-IsStored b (Value.time t) h = (_, refl)
append_value-IsStored b _ h = elim h [ ]

append_values-IsStored :
    (b : Bytes) (i : ℕ) (row : List Value)
    → All IsStored row
    → (b' : Bytes) × (append_values b i row ≡ ok b')
unfolding append_values
append_values-IsStored b i [] h = (b, refl)
append_values-IsStored b i (v ∷ row) h =
    let (x, e) = append_value-IsStored b v h.0 in
    let (y, f) = append_values-IsStored x (i + 1) row h.1 in (y, ground (arith, e, f))

encode_row-IsStored : (row : List Value) → All IsStored row → (b : Bytes) × (encode_row row ≡ ok b)
unfolding encode_row
encode_row-IsStored row h =
    append_values-IsStored (append_uvarint (codec_version ∷ []) (length row)) 0 row h

All-InRange : (row : List Value) → All IsStored row → All InRange row
All-InRange [] h = tt
All-InRange (v ∷ row) h = (IsStored-InRange v h.0, All-InRange row h.1)

map-stored : (row : List Value) → All IsStored row → map stored row ≡ row
map-stored [] h = refl
map-stored (v ∷ row) h = cc (stored-IsStored v h.0, map-stored row h.1)

-- Storing again what was read from the store loses nothing: a row image that decodes is accepted by
-- `EncodeRow`, and its new record decodes to the same values. The record read is any that memory
-- holds; it need not be one that `EncodeRow` wrote.
pub encode_row-decode_row :
    (b : Bytes) {row : List Value}
    → IsBuffer b
    → decode_row b ≡ ok row
    → (encode_row row >>= decode_row) ≡ ok row
encode_row-decode_row b {row} g h =
    let all_stored = decode_row-All b g h in
    let (b', e) = encode_row-IsStored row all_stored in
    rw e (
      decode_row-encode_row row (All-InRange row all_stored) (length-decode_row b g h) e
      ∙ ap ok (map-stored row all_stored))
