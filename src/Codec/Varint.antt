-- ===== src/Codec/Varint.antt =====
-- What the codec uses of Go's encoding/binary: variable-length integers of up to 64 bits, seven
-- bits a byte with the lowest first, and little-endian words.
use mulligan.Base.{
  ℕ, zero, suc, ◌+◌, ◌*◌, ◌/◌, ◌%◌, ◌^◌, ◌≤◌, ◌<◌, ◌≡◌, refl, ap, [], ◌∷◌, ◌++◌, length, ◌&&◌, ◌==◌,
  ltb, if◌then◌else◌, arith, Result, ok, err, ◌>>=◌, Result-cases, Bool-cases, ◌≢◌, inl, inr, All,
}
use mathlib.Core.Path.{subst}
use native.Mathlib.Nat.{pow-suc}
use mulligan.Base.Int.{ℤ, pos, negsuc, IsInt64}
use mulligan.Base.Text.{Bytes, IsByte}

-- `n == 0` and `n < 0` of `binary.Uvarint`.
pub data VarintError : Type 0 where
  cut_short too_wide : VarintError

-- `for x >= 0x80 { append byte(x) | 0x80; x >>= 7 }; append byte(x)`. A value of 64 bits takes 10
-- bytes at most, so that 9 rounds are enough.
unfoldable pub uvarint_bytes : ℕ → ℕ → Bytes
uvarint_bytes zero v = v ∷ []
uvarint_bytes (suc k) v =
    let more = uvarint_bytes k (v / 128) in if ltb v 128 then v ∷ [] else (v % 128 + 128) ∷ more

-- `binary.AppendUvarint`
unfoldable pub append_uvarint : Bytes → ℕ → Bytes
append_uvarint b v = b ++ uvarint_bytes 9 v

-- `binary.Uvarint` behind its first `i` bytes: the value and what follows it. The tenth byte may
-- hold one bit, and there is no eleventh.
unfoldable pub uvarint_at : ℕ → Bytes → Result VarintError (ℕ × Bytes)
uvarint_at i [] = err cut_short
uvarint_at i (b ∷ s) =
    let more : Result VarintError (ℕ × Bytes) = (do
      (v, rest) ← uvarint_at (i + 1) s
      ok (b % 128 + 128 * v, rest)) in
    if i == 10
    then err too_wide
    else if ltb b 128
    then (if i == 9 && ltb 1 b then err too_wide else ok (b, s))
    else more

unfoldable pub uvarint : Bytes → Result VarintError (ℕ × Bytes)
uvarint s = uvarint_at 0 s

-- Zig-zag: the sign is the lowest bit.
unfoldable pub zigzag : ℤ → ℕ
zigzag (pos n) = 2 * n
zigzag (negsuc n) = 2 * n + 1

unfoldable pub unzigzag : ℕ → ℤ
unzigzag u = if u % 2 == 0 then pos (u / 2) else negsuc (u / 2)

-- `binary.AppendVarint` and `binary.Varint`
unfoldable pub append_varint : Bytes → ℤ → Bytes
append_varint b z = append_uvarint b (zigzag z)

unfoldable pub varint : Bytes → Result VarintError (ℤ × Bytes)
varint s = do (u, rest) ← uvarint s; ok (unzigzag u, rest)

-- `binary.LittleEndian`, over `k` bytes.
unfoldable pub le_bytes : ℕ → ℕ → Bytes
le_bytes zero v = []
le_bytes (suc k) v = (v % 256) ∷ le_bytes k (v / 256)

unfoldable pub from_le : Bytes → ℕ
from_le [] = 0
from_le (b ∷ s) = b + 256 * from_le s

-- 2 * 128 ^ k: what the last `k + 1` of the ten bytes can hold.
room : ℕ → ℕ
room zero = 2
room (suc k) = 128 * room k

uvarint_at-bytes :
    (k i v : ℕ) (rest : Bytes)
    → k + i ≡ 9
    → v < room k
    → uvarint_at i (uvarint_bytes k v ++ rest) ≡ ok (v, rest)
unfolding uvarint_at uvarint_bytes room
uvarint_at-bytes zero i v rest h fits = ground arith
uvarint_at-bytes (suc k) i v rest h fits =
    ground (arith, uvarint_at-bytes k (i + 1) (v / 128) rest (omega arith) (omega arith))

-- A value of 64 bits is read back, and what follows it is left.
pub uvarint-append_uvarint :
    (v : ℕ) (rest : Bytes) → v < 2 ^ 64 → uvarint (append_uvarint [] v ++ rest) ≡ ok (v, rest)
unfolding uvarint append_uvarint
uvarint-append_uvarint v rest h = uvarint_at-bytes 9 0 v rest refl (unfold room in omega arith)

unzigzag-zigzag : (z : ℤ) → unzigzag (zigzag z) ≡ z
unfolding zigzag unzigzag
unzigzag-zigzag (pos n) = ground arith
unzigzag-zigzag (negsuc n) = ground arith

zigzag-lt : (z : ℤ) → IsInt64 z → zigzag z < 2 ^ 64
unfolding zigzag
zigzag-lt (pos n) h = omega arith
zigzag-lt (negsuc n) h = omega arith

pub varint-append_varint :
    (z : ℤ) (rest : Bytes) → IsInt64 z → varint (append_varint [] z ++ rest) ≡ ok (z, rest)
unfolding varint append_varint
varint-append_varint z rest h =
    rw (uvarint-append_uvarint (zigzag z) rest (zigzag-lt z h), unzigzag-zigzag z)

pub from_le-le_bytes : (k v : ℕ) → v < 256 ^ k → from_le (le_bytes k v) ≡ v
unfolding from_le le_bytes
from_le-le_bytes zero v h = omega arith
from_le-le_bytes (suc k) v h = omega (arith, from_le-le_bytes k (v / 256) (omega arith))

pub length-le_bytes : (k v : ℕ) → length (le_bytes k v) ≡ k
unfolding le_bytes
length-le_bytes zero v = refl
length-le_bytes (suc k) v = ap suc (length-le_bytes k (v / 256))

le-room : (k : ℕ) → 2 ≤ room k
unfolding room
le-room zero = omega arith
le-room (suc k) = omega (arith, le-room k)

uvarint_at_ten : (s : Bytes) {p : ℕ × Bytes} → uvarint_at 10 s ≢ ok p
unfolding uvarint_at
uvarint_at_ten [] h = cc
uvarint_at_ten (b ∷ s) h = ground arith

uvarint_at_value :
    (k i : ℕ) (s : Bytes) {v : ℕ} {rest : Bytes}
    → k + i ≡ 9
    → uvarint_at i s ≡ ok (v, rest)
    → (v < room k) × (length rest < length s)
unfolding uvarint_at room
uvarint_at_value k i [] e h = cc
uvarint_at_value zero i (b ∷ s) e h =
    let nine : i + 1 ≡ 10 = omega arith in
    elim (Result-cases (uvarint_at (i + 1) s)) [
      | inl (p, q) ↦ absurd (uvarint_at_ten s (rw nine at q))
      | inr (x, q) ↦ ground arith
    ]
uvarint_at_value (suc k) i (b ∷ s) e h = elim (Result-cases (uvarint_at (i + 1) s)) [
  | inl ((u, r), q) ↦ ground (arith, uvarint_at_value k (i + 1) s (omega arith) q)
  | inr (x, q) ↦ ground (arith, le-room k)
]

-- A number that is read fits 64 bits, and takes a byte at least.
pub uvarint_value :
    (s : Bytes) {v : ℕ} {rest : Bytes}
    → uvarint s ≡ ok (v, rest)
    → (v < 2 ^ 64) × (length rest < length s)
unfolding uvarint
uvarint_value s h =
    let (fits, shorter) = uvarint_at_value 9 0 s refl h in (unfold room in omega arith, shorter)

-- More input behind a number does not change it.
uvarint_at-append :
    (i : ℕ) (s more : Bytes) {v : ℕ} {rest : Bytes}
    → uvarint_at i s ≡ ok (v, rest)
    → uvarint_at i (s ++ more) ≡ ok (v, rest ++ more)
unfolding uvarint_at
uvarint_at-append i [] more h = cc
uvarint_at-append i (b ∷ s) more h = elim (Result-cases (uvarint_at (i + 1) s)) [
  | inl ((u, r), q) ↦ ground (arith, uvarint_at-append (i + 1) s more q)
  | inr (x, q) ↦ ground arith
]

pub uvarint-append :
    (s more : Bytes) {v : ℕ} {rest : Bytes}
    → uvarint s ≡ ok (v, rest)
    → uvarint (s ++ more) ≡ ok (v, rest ++ more)
unfolding uvarint
uvarint-append s more h = uvarint_at-append 0 s more h

pub unzigzag-IsInt64 : (u : ℕ) → u < 2 ^ 64 → IsInt64 (unzigzag u)
unfolding unzigzag
unzigzag-IsInt64 u h = elim (Bool-cases (u % 2 == 0)) [
  | inl e ↦ rw e (omega arith)
  | inr e ↦ rw e (omega arith)
]

pub varint_value :
    (s : Bytes) {z : ℤ} {rest : Bytes}
    → varint s ≡ ok (z, rest)
    → IsInt64 z × (length rest < length s)
unfolding varint
varint_value s h = elim (Result-cases (uvarint s)) [
  | inl ((u, r), q) ↦
      let (fits, shorter) = uvarint_value s q in
      let in_range = unzigzag-IsInt64 u fits in ground arith
  | inr (x, q) ↦ ground arith
]

pub varint-append :
    (s more : Bytes) {z : ℤ} {rest : Bytes}
    → varint s ≡ ok (z, rest)
    → varint (s ++ more) ≡ ok (z, rest ++ more)
unfolding varint
varint-append s more h = elim (Result-cases (uvarint s)) [
  | inl ((u, r), q) ↦ ground (arith, uvarint-append s more q)
  | inr (x, q) ↦ ground arith
]

-- The low bytes of a word.
pub from_le-lt : (s : Bytes) → All IsByte s → from_le s < 256 ^ length s
unfolding from_le
from_le-lt [] h = omega arith
from_le-lt (b ∷ s) h = rw pow-suc (omega (arith, from_le-lt s h.1, h.0))

uvarint_bytes-pos : (k v : ℕ) → 0 < length (uvarint_bytes k v)
unfolding uvarint_bytes
uvarint_bytes-pos zero v = omega arith
uvarint_bytes-pos (suc k) v = ground arith

pub append_uvarint-pos : (v : ℕ) → 0 < length (append_uvarint [] v)
unfolding append_uvarint
append_uvarint-pos v = uvarint_bytes-pos 9 v

uvarint_at-All :
    (i : ℕ) (s : Bytes) {v : ℕ} {rest : Bytes}
    → All IsByte s
    → uvarint_at i s ≡ ok (v, rest)
    → All IsByte rest
unfolding uvarint_at
uvarint_at-All i [] g h = absurd (cc)
uvarint_at-All i (b ∷ s) {v} {rest} g h = elim (Result-cases (uvarint_at (i + 1) s)) [
  | inl ((u, r), q) ↦ elim (Bool-cases (ltb b 128)) [
    | inl last ↦ let e : s ≡ rest = ground arith in subst (All IsByte) e g.1
    | inr inner ↦
        let e : r ≡ rest = ground arith in subst (All IsByte) e (uvarint_at-All (i + 1) s g.1 q)
  ]
  | inr (x, q) ↦ let e : s ≡ rest = ground arith in subst (All IsByte) e g.1
]

-- What is left behind a number are bytes of the input.
pub uvarint-All :
    (s : Bytes) {v : ℕ} {rest : Bytes} → All IsByte s → uvarint s ≡ ok (v, rest) → All IsByte rest
unfolding uvarint
uvarint-All s g h = uvarint_at-All 0 s g h
