-- ===== src/Codec/RoundTrip/Value.antt =====
-- One value: its encoding is read back, whatever follows it.
use mulligan.Base.{
  ℕ, ◌^◌, ◌<◌, ◌≡◌, refl, [], ◌∷◌, ◌++◌, append_assoc, true, false, length, length-append, arith,
  Result, ok, Bool-cases, inl, inr,
}
use mathlib.Core.Path.{subst}
use mulligan.Base.Int.{ℤ, IsInt64}
use mulligan.Base.Text.{Bytes}
use mulligan.Base.Time.{unix_seconds, nanosecond, nanosecond-lt-second, unix_instant_lem, utc, Time}
use mulligan.Change.{Value}
use mulligan.Change.Raw.{valid_raw}
use mulligan.Codec.Varint
use mulligan.Codec.Varint.{
  append_uvarint, append_varint, le_bytes, length-le_bytes, from_le-le_bytes,
}
use mulligan.Codec.Format.{
  CodecError, tag_string, tag_bytes, tag_raw, tag_int, tag_uint, tag_float32, tag_float64, tag_time,
}
use mulligan.Codec.Encode.{append_int, append_uint, append_len_prefixed, append_value}
use mulligan.Codec.Decode.{
  read_byte, split_at, next, len_prefixed, uvarint, varint, tagged, value, returning,
}

-- A value that Go can hold, in a slice or string that memory can hold.
abbrev pub InRange : Value → Type 0
InRange (Value.int x) = IsInt64 x
InRange (Value.int8 x) = IsInt64 x
InRange (Value.int16 x) = IsInt64 x
InRange (Value.int32 x) = IsInt64 x
InRange (Value.int64 x) = IsInt64 x
InRange (Value.uint x) = x < 2 ^ 64
InRange (Value.uint8 x) = x < 2 ^ 64
InRange (Value.uint16 x) = x < 2 ^ 64
InRange (Value.uint32 x) = x < 2 ^ 64
InRange (Value.uint64 x) = x < 2 ^ 64
InRange (Value.float32 bits) = bits < 2 ^ 32
InRange (Value.float64 bits) = bits < 2 ^ 64
InRange (Value.string s) = length s < 2 ^ 63
InRange (Value.bytes s) = length s < 2 ^ 63
InRange (Value.raw s) = length s < 2 ^ 63
InRange (Value.time t) = IsInt64 (unix_seconds t.instant)
InRange _ = Unit {0}

-- The value that a stored one comes back as: integers lose their width, a nil []byte is an empty
-- one, and an instant is given in UTC.
unfoldable pub stored : Value → Value
stored (Value.int x) = Value.int64 x
stored (Value.int8 x) = Value.int64 x
stored (Value.int16 x) = Value.int64 x
stored (Value.int32 x) = Value.int64 x
stored (Value.uint x) = Value.uint64 x
stored (Value.uint8 x) = Value.uint64 x
stored (Value.uint16 x) = Value.uint64 x
stored (Value.uint32 x) = Value.uint64 x
stored Value.nil_bytes = Value.bytes []
stored (Value.time t) = Value.time (utc t)
stored v = v

pub split_at-append : (s rest : Bytes) → split_at (length s) (s ++ rest) ≡ (s, rest)
unfolding split_at
split_at-append [] rest = refl
split_at-append (c ∷ s) rest = ground (arith, split_at-append s rest)

pub next-append : (s rest : Bytes) → next (length s) (s ++ rest) ≡ ok (s, rest)
unfolding next
next-append s rest = ground (arith, split_at-append s rest, length-append s rest)

pub uvarint-append_uvarint :
    (v : ℕ) (rest : Bytes) → v < 2 ^ 64 → uvarint (append_uvarint [] v ++ rest) ≡ ok (v, rest)
unfolding uvarint
uvarint-append_uvarint v rest h = rw (Varint.uvarint-append_uvarint v rest h)

varint-append_varint :
    (z : ℤ) (rest : Bytes) → IsInt64 z → varint (append_varint [] z ++ rest) ≡ ok (z, rest)
unfolding varint
varint-append_varint z rest h = rw (Varint.varint-append_varint z rest h)

pub len_prefixed-append :
    (s rest : Bytes)
    → length s < 2 ^ 63
    → len_prefixed (append_uvarint [] (length s) ++ (s ++ rest)) ≡ ok (s, rest)
unfolding len_prefixed
len_prefixed-append s rest h =
    rw (uvarint-append_uvarint (length s) (s ++ rest) (omega arith)) (next-append s rest)

-- A word of `k` bytes.
word :
    (k v : ℕ) (rest : Bytes)
    → length (le_bytes k v) ≡ k
    → next k (le_bytes k v ++ rest) ≡ ok (le_bytes k v, rest)
word k v rest h =
    subst (λ n. next n (le_bytes k v ++ rest) ≡ ok (le_bytes k v, rest)) h
      (next-append (le_bytes k v) rest)

-- What an encoder appends, and that the reader takes it off again.
pub record Reads (b b' : Bytes) (v : Value) : Type 0 where
  pub appended : Bytes
  pub joined : b' ≡ b ++ appended
  pub back : (rest : Bytes) → value (appended ++ rest) ≡ ok (v, rest)
  pub nonempty : 0 < length appended

append_int-Reads : (b : Bytes) (x : ℤ) → IsInt64 x → Reads b (append_int b x) (Value.int64 x)
unfolding append_int append_varint append_uvarint value read_byte tagged
append_int-Reads b x h = record {
  appended = tag_int ∷ append_varint [] x;
  joined = append_assoc b (tag_int ∷ []) (append_varint [] x);
  back = λ rest. rw (varint-append_varint x rest h);
  nonempty = omega arith;
}

append_uint-Reads : (b : Bytes) (x : ℕ) → x < 2 ^ 64 → Reads b (append_uint b x) (Value.uint64 x)
unfolding append_uint append_uvarint value read_byte tagged
append_uint-Reads b x h = record {
  appended = tag_uint ∷ append_uvarint [] x;
  joined = append_assoc b (tag_uint ∷ []) (append_uvarint [] x);
  back = λ rest. rw (uvarint-append_uvarint x rest h);
  nonempty = omega arith;
}

-- The three kinds of text differ in their tag and in what the reader makes of the bytes.
text-Reads :
    (b : Bytes) (tag : ℕ) (s : Bytes) (v : Value)
    → ((rest : Bytes) → tagged tag (append_uvarint [] (length s) ++ (s ++ rest)) ≡ ok (v, rest))
    → Reads b (append_len_prefixed b tag s) v
unfolding append_len_prefixed append_uvarint value read_byte
text-Reads b tag s v h = record {
  appended = tag ∷ (append_uvarint [] (length s) ++ s);
  joined = simp append_assoc;
  back = λ rest. rw append_assoc (h rest);
  nonempty = omega arith;
}

float32-Reads :
    (b : Bytes) (x : ℕ)
    → x < 2 ^ 32
    → Reads b ((b ++ tag_float32 ∷ []) ++ le_bytes 4 x) (Value.float32 x)
unfolding value read_byte tagged
float32-Reads b x h = record {
  appended = tag_float32 ∷ le_bytes 4 x;
  joined = append_assoc b (tag_float32 ∷ []) (le_bytes 4 x);
  back = λ rest. rw (word 4 x rest (length-le_bytes 4 x), from_le-le_bytes 4 x h);
  nonempty = omega arith;
}

float64-Reads :
    (b : Bytes) (x : ℕ)
    → x < 2 ^ 64
    → Reads b ((b ++ tag_float64 ∷ []) ++ le_bytes 8 x) (Value.float64 x)
unfolding value read_byte tagged
float64-Reads b x h = record {
  appended = tag_float64 ∷ le_bytes 8 x;
  joined = append_assoc b (tag_float64 ∷ []) (le_bytes 8 x);
  back = λ rest. rw (word 8 x rest (length-le_bytes 8 x), from_le-le_bytes 8 x h);
  nonempty = omega arith;
}

time-Reads :
    (b : Bytes) (t : Time)
    → IsInt64 (unix_seconds t.instant)
    → Reads b
        (append_uvarint
          (append_varint (b ++ tag_time ∷ []) (unix_seconds t.instant))
          (nanosecond t.instant))
        (Value.time (utc t))
unfolding append_varint append_uvarint value read_byte tagged
time-Reads b t h = record {
  appended =
      tag_time
      ∷ (append_varint [] (unix_seconds t.instant) ++ append_uvarint [] (nanosecond t.instant));
  joined = simp append_assoc;
  back = λ rest. rw append_assoc (
      ground (
        arith,
        varint-append_varint (unix_seconds t.instant)
            (append_uvarint [] (nanosecond t.instant) ++ rest) h,
        uvarint-append_uvarint (nanosecond t.instant) rest
            (omega (arith, nanosecond-lt-second t.instant)),
        nanosecond-lt-second t.instant,
        unix_instant_lem t.instant,
      ));
  nonempty = omega arith;
}

text_back :
    (f : Bytes → Value) (s rest : Bytes)
    → length s < 2 ^ 63
    → returning f (len_prefixed (append_uvarint [] (length s) ++ (s ++ rest))) ≡ ok (f s, rest)
text_back f s rest h = rw (len_prefixed-append s rest h)

onto :
    {b x b' : Bytes} {v : Value}
    → Reads b x v
    → ◌≡◌ {A = Result CodecError Bytes} (ok x) (ok b')
    → Reads b b' v
onto {b = b} {v = v} r e = subst (λ y. Reads b y v) (cc) r

-- A value whose encoding is its tag and at most one byte.
short-Reads :
    (b s : Bytes) (v : Value)
    → ((rest : Bytes) → value (s ++ rest) ≡ ok (v, rest))
    → 0 < length s
    → Reads b (b ++ s) v
short-Reads b s v h n = record { appended = s; joined = refl; back = h; nonempty = n }

-- Every value that is accepted is read back as its stored form.
pub append_value-Reads :
    (b : Bytes) (v : Value) {b' : Bytes}
    → InRange v
    → append_value b v ≡ ok b'
    → Reads b b' (stored v)
unfolding append_value stored value read_byte tagged
append_value-Reads b Value.null h = onto (short-Reads b _ _ (λ rest. refl) (omega arith))
append_value-Reads b (Value.bool true) h = onto (short-Reads b _ _ (λ rest. refl) (omega arith))
append_value-Reads b (Value.bool false) h = onto (short-Reads b _ _ (λ rest. refl) (omega arith))
append_value-Reads b (Value.int x) h = onto (append_int-Reads b x h)
append_value-Reads b (Value.int8 x) h = onto (append_int-Reads b x h)
append_value-Reads b (Value.int16 x) h = onto (append_int-Reads b x h)
append_value-Reads b (Value.int32 x) h = onto (append_int-Reads b x h)
append_value-Reads b (Value.int64 x) h = onto (append_int-Reads b x h)
append_value-Reads b (Value.uint x) h = onto (append_uint-Reads b x h)
append_value-Reads b (Value.uint8 x) h = onto (append_uint-Reads b x h)
append_value-Reads b (Value.uint16 x) h = onto (append_uint-Reads b x h)
append_value-Reads b (Value.uint32 x) h = onto (append_uint-Reads b x h)
append_value-Reads b (Value.uint64 x) h = onto (append_uint-Reads b x h)
append_value-Reads b (Value.float32 x) h = onto (float32-Reads b x h)
append_value-Reads b (Value.float64 x) h = onto (float64-Reads b x h)
append_value-Reads b (Value.string s) h =
    onto (text-Reads b tag_string s _ (λ rest. text_back Value.string s rest h))
append_value-Reads b (Value.bytes s) h =
    onto (text-Reads b tag_bytes s _ (λ rest. text_back Value.bytes s rest h))
append_value-Reads b Value.nil_bytes h =
    onto (text-Reads b tag_bytes [] _ (λ rest. text_back Value.bytes [] rest (omega arith)))
append_value-Reads b (Value.time t) h = onto (time-Reads b t h)
append_value-Reads b (Value.raw s) h = λ e. elim (Bool-cases (valid_raw s)) [
  | inl valid ↦
      onto (text-Reads b tag_raw s _ (λ rest. rw (len_prefixed-append s rest h) (ground arith)))
        (ground arith)
  | inr bad ↦ absurd (ground arith)
]
append_value-Reads b (Value.unsupported x) h = λ e. absurd (cc)
