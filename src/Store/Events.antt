-- ===== src/Store/Events.antt =====
-- A change that internal/store has stored reads back as itself.
use mulligan.Base.{
  ℕ, ◌<◌, ◌^◌, ◌≡◌, refl, sym, ap, ◌∙◌, Bool, true, false, none, some, [], ◌∷◌, All, length, Result,
  ok, ◌>>=◌, >>=-eq-ok, arith, ◌⊎◌, if◌then◌else◌,
}
use mulligan.Base.Text.{Bytes}
use mulligan.Base.Time.{unix}
use mulligan.Change.{Op, Event, Image}
use mulligan.Codec.Encode.{encode_row, encode_columns}
use mulligan.Codec.Decode.{decode_columns}
use mulligan.Codec.Format.{CodecError}
use mulligan.Codec.RoundTrip.Value.{InRange, stored}
use mulligan.Codec.RoundTrip.Row.{decode_row-encode_row}
use mulligan.Codec.RoundTrip.Columns.{Fits, decode_columns-encode_columns}
use mulligan.Fidelity.Statements.{stored_images, map_image}
use mulligan.Store.Schema.{Txn}
use mulligan.Store.Rows.{
  op_code, op_of, EncodedRow, encode_image, null_string, encode_event, row_of, decode_image,
  decode_event, text_of,
}

-- What the fields of a change can hold in Go.
abbrev pub ImageFits : Image → Type 0
ImageFits none = Unit {0}
ImageFits (some row) = All InRange row × (length row < 2 ^ 63)

abbrev pub OpFits : Op → Type 0
OpFits (Op.other n) = (n ≡ 0) ⊎ ((4 < n) × (n < 256))
OpFits _ = Unit {0}

abbrev pub EventFits : Event → Type 0
EventFits ev =
    OpFits ev.op
    × All Fits ev.columns
    × (length ev.columns < 2 ^ 63)
    × ImageFits ev.before
    × ImageFits ev.after

-- A change as the store gives it back: with its images as stored, and with the time and the server
-- of its transaction.
unfoldable pub stored_event : Txn → Event → Event
stored_event t ev = record (stored_images ev) { at = unix t.committed_at; server_id = t.server_id }

ok-injective : {A : Type 0} {a b : A} → ◌≡◌ {A = Result CodecError A} (ok a) (ok b) → a ≡ b
ok-injective h = cc

op_of-op_code : (op : Op) → OpFits op → op_of (op_code op) ≡ op
unfolding op_of op_code
op_of-op_code Op.insert h = refl
op_of-op_code Op.update h = refl
op_of-op_code Op.delete h = refl
op_of-op_code Op.schema_change h = refl
op_of-op_code (Op.other n) h = ground arith

text_of-null_string : (s : Bytes) → text_of (null_string s) ≡ s
text_of-null_string [] = refl
text_of-null_string (c ∷ s) = refl

decode_image-encode_image :
    (image : Image) {p : Bytes × Bool}
    → ImageFits image
    → encode_image image ≡ ok p
    → decode_image (if p.1 then some p.0 else none) ≡ ok (map_image stored image)
unfolding encode_image decode_image map_image
decode_image-encode_image none {p} h e =
    let q : p ≡ ([], false) = ok-injective (sym e) in rw (q) refl
decode_image-encode_image (some row) {p} (h, n) e =
    let (b, eb, ep) = >>=-eq-ok (encode_row row) (λ c. ok (c, true)) e in
    let q : p ≡ (b, true) = ok-injective (sym ep) in rw (q, decode_row-encode_row row h n eb) refl

-- A change that the store accepts reads back as it was given, from the row that is stored for it:
-- its images as stored, its time and server those of its transaction. The fields hold what Go's
-- types can hold.
pub decode_event-encode_event :
    (ev : Event) (x : Txn) (id txn_id : ℕ) {r : EncodedRow}
    → EventFits ev
    → encode_event ev ≡ ok r
    → decode_event x (row_of id txn_id r) ≡ ok (stored_event x ev)
unfolding encode_event decode_event row_of stored_event stored_images
decode_event-encode_event ev x id txn_id {r} (hop, hc, nc, hb, ha) e =
    let (cols, ec, e') = >>=-eq-ok (encode_columns ev.columns) _ e in
    let (b, eb, e'') = >>=-eq-ok (encode_image ev.before) _ e' in
    let (a, ea, er) = >>=-eq-ok (encode_image ev.after) _ e'' in
    let back : decode_columns cols ≡ ok ev.columns =
      ap (λ m. m >>= decode_columns) (sym ec) ∙ decode_columns-encode_columns ev.columns hc nc in
    rw (sym (ok-injective er)) (
      rw
        (
          back,
          decode_image-encode_image ev.before hb eb,
          decode_image-encode_image ev.after ha ea,
          op_of-op_code ev.op hop,
          text_of-null_string ev.query,
        )
        refl)
