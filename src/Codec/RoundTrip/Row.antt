-- ===== src/Codec/RoundTrip/Row.antt =====
-- A row image: `DecodeRow` after `EncodeRow`.
use mulligan.Base.{
  ℕ, suc, ◌+◌, ◌^◌, ◌≤◌, ◌<◌, ◌≡◌, refl, ◌∙◌, List, [], ◌∷◌, ◌++◌, append_assoc, append-nil, map,
  All, length, length-append, arith, ok, Result-cases, inl, inr,
}
use mulligan.Base.Text.{Bytes}
use mulligan.Change.{Value}
use mulligan.Codec.Varint.{append_uvarint}
use mulligan.Codec.Format.{codec_version}
use mulligan.Codec.Encode.{append_value, append_values, encode_row}
use mulligan.Codec.Decode.{read_byte, check_version, uvarint, value, read_values, decode_row}
use mulligan.Codec.RoundTrip.Value.{InRange, stored, append_value-Reads, uvarint-append_uvarint}

-- The encodings of a row's values, and that the reader takes them off again.
pub record ReadsRow (b b' : Bytes) (i : ℕ) (row : List Value) : Type 0 where
  pub appended : Bytes
  pub joined : b' ≡ b ++ appended
  pub back :
      (rest : Bytes) → read_values (length row) i (appended ++ rest) ≡ ok (map stored row, rest)
  pub enough : length row ≤ length appended

read_values_step :
    (n i : ℕ) (e f rest : Bytes) (v : Value) (row : List Value)
    → ((r : Bytes) → value (e ++ r) ≡ ok (v, r))
    → read_values n (i + 1) (f ++ rest) ≡ ok (row, rest)
    → read_values (suc n) i ((e ++ f) ++ rest) ≡ ok (v ∷ row, rest)
unfolding read_values
read_values_step n i e f rest v row h k = rw (append_assoc, h (f ++ rest), k)

append_values-ReadsRow :
    (b : Bytes) (i : ℕ) (row : List Value) {b' : Bytes}
    → All InRange row
    → append_values b i row ≡ ok b'
    → ReadsRow b b' i row
unfolding append_values
append_values-ReadsRow b i [] h e = record {
  appended = [];
  joined = ground (arith, append-nil b);
  back = λ rest. unfold read_values in refl;
  enough = omega arith;
}
append_values-ReadsRow b i (v ∷ row) h e = elim (Result-cases (append_value b v)) [
  | inl (x, q) ↦
      let one = append_value-Reads b v h.0 q in
      let more = append_values-ReadsRow x (i + 1) row h.1 (rw q at e) in
      record {
        appended = one.appended ++ more.appended;
        joined = more.joined ∙ rw (one.joined) (append_assoc b one.appended more.appended);
        back = λ rest.
            read_values_step (length row) i one.appended more.appended rest (stored v)
              (map stored row) one.back (more.back rest);
        enough = omega (arith, one.nonempty, more.enough, length-append one.appended more.appended);
      }
  | inr (x, q) ↦ absurd (ground arith)
]

-- The header of a record: its version and the count of what follows.
pub decode_header :
    (n : ℕ) (e : Bytes)
    → n < 2 ^ 64
    → (check_version (append_uvarint (codec_version ∷ []) n ++ e)
        ≡ ok (tt, append_uvarint [] n ++ e))
      × (uvarint (append_uvarint [] n ++ e) ≡ ok (n, e))
unfolding check_version read_byte append_uvarint
decode_header n e h = (refl, uvarint-append_uvarint n e h)

-- A row image that `EncodeRow` accepts is decoded again, value by value, to the stored forms of its
-- values, whatever they are; the values are those that Go's types can hold.
pub decode_row-encode_row :
    (row : List Value) {b : Bytes}
    → All InRange row
    → length row < 2 ^ 63
    → encode_row row ≡ ok b
    → decode_row b ≡ ok (map stored row)
unfolding encode_row decode_row
decode_row-encode_row row h n e =
    let r = append_values-ReadsRow (append_uvarint (codec_version ∷ []) (length row)) 0 row h e in
    let (version, count) = decode_header (length row) r.appended (omega arith) in
    let back : read_values (length row) 0 r.appended ≡ ok (map stored row, []) =
      rw append-nil at (r.back []) in
    rw (r.joined) (ground (arith, version, count, back, r.enough))
