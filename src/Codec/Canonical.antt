-- ===== src/Codec/Canonical.antt =====
-- What decoding can hand back, from whatever bytes stand in the file.
use mulligan.Base.{
  ℕ, zero, suc, ◌+◌, ◌^◌, ◌≤◌, ◌<◌, ◌≡◌, refl, Bool, true, false, List, [], ◌∷◌, All, length, arith,
  ok, err, ◌>>=◌, ◌>>◌, guard, wrap, Result-cases, if◌then◌else◌, ◌==◌, inl, inr, ap, sym, ltb,
  Bool-cases,
}
use mathlib.Core.Path.{subst}
use mulligan.Base.Int.{IsInt64}
use mulligan.Base.Text.{Bytes, IsByte}
use mulligan.Base.Time.{unix_seconds, unix_instant, unix_seconds-unix_instant}
use mulligan.Change.{Value}
use mulligan.Change.Raw.{valid_raw}
use mulligan.Codec.Varint
use mulligan.Codec.Varint.{from_le, from_le-lt}
use mulligan.Codec.Format.{CodecError, column, unknown_tag}
use mulligan.Codec.Decode.{
  Reader, Read, read_byte, check_version, uvarint, varint, split_at, next, len_prefixed, read_bool,
  read_time, read_raw, tagged, value, read_values, decode_row,
}
use mulligan.Codec.Prefix.{decode_row-Parts}

-- The values in the form that the store gives out: integers of 64 bits, times in UTC, and raw text
-- only where it is a number.
abbrev pub IsStored : Value → Type 0
IsStored Value.null = Unit {0}
IsStored (Value.bool b) = Unit {0}
IsStored (Value.int64 x) = IsInt64 x
IsStored (Value.uint64 x) = x < 2 ^ 64
IsStored (Value.float32 x) = x < 2 ^ 32
IsStored (Value.float64 x) = x < 2 ^ 64
IsStored (Value.string s) = length s < 2 ^ 63
IsStored (Value.bytes s) = length s < 2 ^ 63
IsStored (Value.raw s) = (length s < 2 ^ 63) × (valid_raw s ≡ true)
IsStored (Value.time t) = IsInt64 (unix_seconds t.instant) × (t.zone ≡ 0)
IsStored _ = ⊥

-- Bytes, as many as memory holds.
abbrev pub IsBuffer : Bytes → Type 0
IsBuffer s = All IsByte s × (length s < 2 ^ 63)

-- A read that succeeds on a buffer gives a result with `P`, and leaves a buffer.
abbrev Gives : {A : Type 0} → (A → Type 0) → (Reader → Read A) → Type 0
Gives {A} P m = (s : Reader) (a : A) (r : Reader) → IsBuffer s → m s ≡ ok (a, r) → P a × IsBuffer r

pure-Gives : {A : Type 0} (P : A → Type 0) (a : A) → P a → Gives P (λ r. ok (a, r))
pure-Gives P a p s a' r g h = (subst P (cc) p, subst IsBuffer (cc) g)

bind-Gives :
    {A B : Type 0} (P : A → Type 0) (Q : B → Type 0) (m : Reader → Read A) (k : A → Reader → Read B)
    → Gives P m
    → ((a : A) → P a → Gives Q (k a))
    → Gives Q (λ s. m s >>= λ p. k p.0 p.1)
bind-Gives P Q m k hm hk s b r g h = elim (Result-cases (m s)) [
  | inl ((a, r'), e) ↦ let (pa, g') = hm s a r' g e in hk a pa r' b r g' (rw e at h)
  | inr (x, e) ↦ absurd (ground arith)
]

guard-Gives :
    {A : Type 0} (P : A → Type 0) (b : Bool) (e : CodecError) (m : Reader → Read A)
    → (b ≡ true → Gives P m)
    → Gives P (λ s. guard b e >> m s)
guard-Gives P true e m h s a r g p = h refl s a r g p
guard-Gives P false e m h s a r g p = absurd (cc)

if-Gives :
    {A : Type 0} (P : A → Type 0) (b : Bool) (m n : Reader → Read A)
    → Gives P m
    → Gives P n
    → Gives P (λ s. if b then m s else n s)
if-Gives P true m n hm hn = hm
if-Gives P false m n hm hn = hn

wrap-Gives :
    {A : Type 0} (P : A → Type 0) (f : CodecError → CodecError) (m : Reader → Read A)
    → Gives P m
    → Gives P (λ s. wrap f (m s))
wrap-Gives P f m h s a r g p = elim (Result-cases (m s)) [
  | inl ((a', r'), e) ↦ h s a r g (rw e (ground arith))
  | inr (x, e) ↦ absurd (ground arith)
]

read_byte-Gives : Gives IsByte read_byte
unfolding read_byte
read_byte-Gives [] a r g h = absurd (cc)
read_byte-Gives (c ∷ s) a r g h =
    (subst IsByte (cc) g.0.0, subst IsBuffer (cc) (g.0.1, omega arith))

uvarint-Gives : Gives (λ v. v < 2 ^ 64) uvarint
unfolding uvarint
uvarint-Gives s a r g h = elim (Result-cases (Varint.uvarint s)) [
  | inl ((u, r'), e) ↦
      let (fits, shorter) = Varint.uvarint_value s e in
      let bytes = Varint.uvarint-All s g.0 e in
      (ground arith, subst IsBuffer (ground arith) (bytes, omega arith))
  | inr (x, e) ↦ absurd (ground arith)
]

varint-Gives : Gives IsInt64 varint
unfolding varint Varint.varint
varint-Gives s a r g h = elim (Result-cases (Varint.uvarint s)) [
  | inl ((u, r'), e) ↦
      let (fits, shorter) = Varint.uvarint_value s e in
      let bytes = Varint.uvarint-All s g.0 e in
      let in_range = Varint.unzigzag-IsInt64 u fits in
      (subst IsInt64 (ground arith) in_range, subst IsBuffer (ground arith) (bytes, omega arith))
  | inr (x, e) ↦ absurd (ground arith)
]

split_at-All :
    (n : ℕ) (s : Bytes)
    → All IsByte s
    → n ≤ length s
    → All IsByte (split_at n s).0
      × (length (split_at n s).0 ≡ n)
      × All IsByte (split_at n s).1
      × (length (split_at n s).1 ≤ length s)
unfolding split_at
split_at-All zero s g h = (tt, refl, g, omega arith)
split_at-All (suc n) [] g h = absurd (omega arith)
split_at-All (suc n) (c ∷ s) g h =
    let (front, count, back, shorter) = split_at-All n s g.1 (omega arith) in
    ((g.0, front), ground arith, back, omega arith)

abbrev IsChunk : ℕ → Bytes → Type 0
IsChunk n s = All IsByte s × (length s ≡ n) × (n < 2 ^ 63)

next-Gives : (n : ℕ) → Gives (IsChunk n) (next n)
unfolding next
next-Gives n s a r g h = elim (Bool-cases (ltb (length s) n)) [
  | inl short ↦ absurd (ground arith)
  | inr enough ↦
      let le : n ≤ length s = ground arith in
      let (front, count, back, shorter) = split_at-All n s g.0 le in
      let e : split_at n s ≡ (a, r) = ground arith in
      (
        subst (IsChunk n) (ap (λ p. p.0) e) (front, count, omega arith),
        subst IsBuffer (ap (λ p. p.1) e) (back, omega arith),
      )
]

len_prefixed-Gives : Gives IsBuffer len_prefixed
unfolding len_prefixed
len_prefixed-Gives s a r g h =
    let (chunk, left) =
      bind-Gives _ (λ t. (n : ℕ) × IsChunk n t) uvarint next uvarint-Gives
        (λ n _ s' a' r' g' h'. let (c, b) = next-Gives n s' a' r' g' h' in ((n, c), b)) s a r g h in
    ((chunk.1.0, omega arith), left)

returning-Gives :
    {A : Type 0} (P : A → Type 0) (f : A → Value) (m : Reader → Read A)
    → Gives P m
    → ((a : A) → P a → IsStored (f a))
    → Gives IsStored (λ s. m s >>= λ p. ok (f p.0, p.1))
returning-Gives P f m h k =
    bind-Gives P IsStored m (λ a r. ok (f a, r)) h (λ a p. pure-Gives IsStored (f a) (k a p))

text-Gives :
    (f : Bytes → Value)
    → ((s : Bytes) → length s < 2 ^ 63 → IsStored (f s))
    → Gives IsStored (λ s. len_prefixed s >>= λ p. ok (f p.0, p.1))
text-Gives f h = returning-Gives IsBuffer f len_prefixed len_prefixed-Gives (λ s b. h s b.1)

fail-Gives : {A : Type 0} (P : A → Type 0) (e : CodecError) → Gives P (λ r. err e)
fail-Gives P e s a r g h = absurd (cc)

float32-Gives : Gives IsStored (λ s. next 4 s >>= λ p. ok (Value.float32 (from_le p.0), p.1))
float32-Gives =
    returning-Gives (IsChunk 4) (λ s. Value.float32 (from_le s)) (next 4) (next-Gives 4)
      λ s c.
        let e : 256 ^ length s ≡ 256 ^ 4 = ap (λ n. 256 ^ n) c.1 in
        omega (arith, from_le-lt s c.0, e)

float64-Gives : Gives IsStored (λ s. next 8 s >>= λ p. ok (Value.float64 (from_le p.0), p.1))
float64-Gives =
    returning-Gives (IsChunk 8) (λ s. Value.float64 (from_le s)) (next 8) (next-Gives 8)
      λ s c.
        let e : 256 ^ length s ≡ 256 ^ 8 = ap (λ n. 256 ^ n) c.1 in
        omega (arith, from_le-lt s c.0, e)

bool-Gives : Gives IsStored read_bool
unfolding read_bool
bool-Gives =
    bind-Gives IsByte IsStored read_byte _ read_byte-Gives
      λ c _. guard-Gives IsStored _ _ _ λ _. pure-Gives IsStored (Value.bool (c == 1)) tt

time-Gives : Gives IsStored read_time
unfolding read_time
time-Gives = bind-Gives IsInt64 IsStored varint _ varint-Gives λ sec fits.
    bind-Gives _ IsStored uvarint _ uvarint-Gives λ nsec _. guard-Gives IsStored _ _ _ λ small.
      pure-Gives IsStored (Value.time (record { instant = unix_instant sec nsec; zone = 0 }))
        (subst IsInt64 (sym (unix_seconds-unix_instant sec nsec (ground arith))) fits, refl)

raw-Gives : Gives IsStored read_raw
unfolding read_raw
raw-Gives =
    bind-Gives IsBuffer IsStored len_prefixed _ len_prefixed-Gives
      λ s b. guard-Gives IsStored _ _ _ λ valid. pure-Gives IsStored (Value.raw s) (b.1, valid)

tagged-Gives : (tag : ℕ) → Gives IsStored (tagged tag)
unfolding tagged
tagged-Gives tag = if-Gives _ _ _ _ (pure-Gives _ Value.null tt) (
    if-Gives _ _ _ _ (returning-Gives _ Value.int64 varint varint-Gives (λ x h. h)) (
      if-Gives _ _ _ _ (returning-Gives _ Value.uint64 uvarint uvarint-Gives (λ x h. h)) (
        if-Gives _ _ _ _ float32-Gives (
          if-Gives _ _ _ _ float64-Gives (
            if-Gives _ _ _ _ bool-Gives (
              if-Gives _ _ _ _ (text-Gives Value.string (λ s h. h)) (
                if-Gives _ _ _ _ (text-Gives Value.bytes (λ s h. h)) (
                  if-Gives _ _ _ _ time-Gives
                    (if-Gives _ _ _ _ raw-Gives (fail-Gives _ (unknown_tag tag)))))))))))

value-Gives : Gives IsStored value
unfolding value
value-Gives = bind-Gives IsByte _ read_byte tagged read_byte-Gives (λ tag _. tagged-Gives tag)

read_values-Gives : (n i : ℕ) → Gives (All IsStored) (read_values n i)
unfolding read_values
read_values-Gives zero i = pure-Gives (All IsStored) [] tt
read_values-Gives (suc n) i =
    bind-Gives IsStored (All IsStored) (λ r. wrap (column i) (value r)) _
      (wrap-Gives IsStored (column i) value value-Gives)
      λ v p.
        bind-Gives (All IsStored) (All IsStored) (read_values n (i + 1)) _
          (read_values-Gives n (i + 1)) λ row q. pure-Gives (All IsStored) (v ∷ row) (p, q)

check_version-Gives : Gives (λ _. Unit {0}) check_version
unfolding check_version
check_version-Gives =
    bind-Gives IsByte (λ _. Unit {0}) read_byte _ read_byte-Gives
      λ v _. guard-Gives (λ _. Unit {0}) _ _ _ λ _. pure-Gives (λ _. Unit {0}) tt tt

-- Whatever bytes stand in the file, a row image that decodes holds values in the form that the store
-- gives out: no raw text that is not a number, no integer beyond 64 bits, no time outside UTC.
pub decode_row-All :
    (b : Bytes) {row : List Value} → IsBuffer b → decode_row b ≡ ok row → All IsStored row
decode_row-All b {row} g h =
    let p = decode_row-Parts b h in
    let body = check_version-Gives b tt p.body g p.version in
    let items = uvarint-Gives p.body p.count p.items body.1 p.counted in
    (read_values-Gives p.count 0 p.items row [] items.1 p.read).0

length-read_values :
    (n i : ℕ) (s r : Bytes) {row : List Value} → read_values n i s ≡ ok (row, r) → length row ≡ n
unfolding read_values
length-read_values zero i s r h = ground arith
length-read_values (suc n) i s r h = elim (Result-cases (value s)) [
  | inl ((v, s'), e) ↦ elim (Result-cases (read_values n (i + 1) s')) [
    | inl ((vs, r'), f) ↦ ground (arith, length-read_values n (i + 1) s' r' f)
    | inr (x, f) ↦ absurd (ground arith)
  ]
  | inr (x, e) ↦ absurd (ground arith)
]

-- There are no more values than bytes.
pub length-decode_row :
    (b : Bytes) {row : List Value} → IsBuffer b → decode_row b ≡ ok row → length row < 2 ^ 63
length-decode_row b {row} g h =
    let p = decode_row-Parts b h in
    let body = check_version-Gives b tt p.body g p.version in
    let items = uvarint-Gives p.body p.count p.items body.1 p.counted in
    let count = length-read_values p.count 0 p.items [] p.read in
    let enough : p.count ≤ length p.items = ground (arith, p.room) in
    let held : length p.items < 2 ^ 63 = items.1.1 in omega (arith, count, enough, held)
