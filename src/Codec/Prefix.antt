-- ===== src/Codec/Prefix.antt =====
-- A record that decodes is no proper beginning of another one that does.
use mulligan.Base.{
  ℕ, zero, suc, ◌+◌, ◌≤◌, ◌≡◌, refl, Bool, true, false, List, [], ◌∷◌, ◌++◌, length, length-append,
  arith, ok, err, ◌>>=◌, ◌>>◌, guard, wrap, Result-cases, if◌then◌else◌, leb, ◌==◌, inl, inr,
}
use mulligan.Base.Text.{Bytes}
use mulligan.Change.{Value}
use mulligan.Codec.Varint
use mulligan.Codec.Format.{CodecError, left_over, column, unknown_tag}
use mulligan.Codec.Decode.{
  Reader, Read, remaining, read_byte, check_version, uvarint, varint, split_at, next, len_prefixed,
  read_bool, read_time, read_raw, tagged, value, read_values, decode_row,
}

-- A read that succeeds takes no notice of bytes behind the ones it has.
abbrev Stable : {A : Type 0} → (Reader → Read A) → Type 0
Stable {A} m =
    (s more : Reader) (a : A) (r : Reader) → m s ≡ ok (a, r) → m (s ++ more) ≡ ok (a, r ++ more)

pure-Stable : {A : Type 0} (a : A) → Stable (λ r. ok (a, r))
pure-Stable a s more a' r h = ground arith

fail-Stable : {A : Type 0} (e : CodecError) → Stable {A = A} (λ r. err e)
fail-Stable e s more a r h = cc

bind-Stable :
    {A B : Type 0} (m : Reader → Read A) (k : A → Reader → Read B)
    → Stable m
    → ((a : A) → Stable (k a))
    → Stable (λ s. m s >>= λ p. k p.0 p.1)
bind-Stable m k hm hk s more b r h = elim (Result-cases (m s)) [
  | inl ((a, r'), e) ↦ rw (hm s more a r' e) (hk a r' more b r (rw e at h))
  | inr (x, e) ↦ absurd (ground arith)
]

guard-Stable :
    {A : Type 0} (b : Bool) (e : CodecError) (m : Reader → Read A)
    → Stable m
    → Stable (λ s. guard b e >> m s)
guard-Stable true e m h s more a r p = h s more a r p
guard-Stable false e m h s more a r p = cc

if-Stable :
    {A : Type 0} (b : Bool) (m n : Reader → Read A)
    → Stable m
    → Stable n
    → Stable (λ s. if b then m s else n s)
if-Stable true m n hm hn = hm
if-Stable false m n hm hn = hn

wrap-Stable :
    {A : Type 0} (f : CodecError → CodecError) (m : Reader → Read A)
    → Stable m
    → Stable (λ s. wrap f (m s))
wrap-Stable f m h s more a r p = elim (Result-cases (m s)) [
  | inl ((a', r'), e) ↦ rw (h s more a' r' e) (ground arith)
  | inr (x, e) ↦ absurd (ground arith)
]

read_byte-Stable : Stable read_byte
unfolding read_byte
read_byte-Stable [] more a r h = cc
read_byte-Stable (c ∷ s) more a r h = ground arith

uvarint-Stable : Stable uvarint
unfolding uvarint
uvarint-Stable s more a r h = elim (Result-cases (Varint.uvarint s)) [
  | inl ((u, r'), e) ↦ rw (Varint.uvarint-append s more e) (ground arith)
  | inr (x, e) ↦ absurd (ground arith)
]

varint-Stable : Stable varint
unfolding varint
varint-Stable s more a r h = elim (Result-cases (Varint.varint s)) [
  | inl ((u, r'), e) ↦ rw (Varint.varint-append s more e) (ground arith)
  | inr (x, e) ↦ absurd (ground arith)
]

split_at-append_more :
    (n : ℕ) (s more : Bytes)
    → n ≤ length s
    → split_at n (s ++ more) ≡ ((split_at n s).0, (split_at n s).1 ++ more)
unfolding split_at
split_at-append_more zero s more h = refl
split_at-append_more (suc n) [] more h = absurd (omega arith)
split_at-append_more (suc n) (c ∷ s) more h =
    ground (arith, split_at-append_more n s more (omega arith))

next-Stable : (n : ℕ) → Stable (next n)
unfolding next
next-Stable n s more a r h = ground (arith, split_at-append_more n s more, length-append s more)

len_prefixed-Stable : Stable len_prefixed
unfolding len_prefixed
len_prefixed-Stable = bind-Stable uvarint next uvarint-Stable next-Stable

returning-Stable :
    {A : Type 0} (f : A → Value) (m : Reader → Read A)
    → Stable m
    → Stable (λ s. m s >>= λ p. ok (f p.0, p.1))
returning-Stable f m h = bind-Stable m (λ a r. ok (f a, r)) h (λ a. pure-Stable (f a))

bool-Stable : Stable read_bool
unfolding read_bool
bool-Stable =
    bind-Stable read_byte _ read_byte-Stable
      λ c. guard-Stable _ _ _ (pure-Stable (Value.bool (c == 1)))

time-Stable : Stable read_time
unfolding read_time
time-Stable =
    bind-Stable varint _ varint-Stable
      λ sec. bind-Stable uvarint _ uvarint-Stable λ nsec. guard-Stable _ _ _ (pure-Stable _)

raw-Stable : Stable read_raw
unfolding read_raw
raw-Stable =
    bind-Stable len_prefixed _ len_prefixed-Stable
      λ s. guard-Stable _ _ _ (pure-Stable (Value.raw s))

tagged-Stable : (tag : ℕ) → Stable (tagged tag)
unfolding tagged
tagged-Stable tag = if-Stable _ _ _ (pure-Stable Value.null) (
    if-Stable _ _ _ (returning-Stable Value.int64 varint varint-Stable) (
      if-Stable _ _ _ (returning-Stable Value.uint64 uvarint uvarint-Stable) (
        if-Stable _ _ _ (returning-Stable _ (next 4) (next-Stable 4)) (
          if-Stable _ _ _ (returning-Stable _ (next 8) (next-Stable 8)) (
            if-Stable _ _ _ bool-Stable (
              if-Stable _ _ _ (returning-Stable Value.string len_prefixed len_prefixed-Stable) (
                if-Stable _ _ _ (returning-Stable Value.bytes len_prefixed len_prefixed-Stable) (
                  if-Stable _ _ _ time-Stable
                    (if-Stable _ _ _ raw-Stable (fail-Stable (unknown_tag tag)))))))))))

value-Stable : Stable value
unfolding value
value-Stable = bind-Stable read_byte tagged read_byte-Stable tagged-Stable

read_values-Stable : (n i : ℕ) → Stable (read_values n i)
unfolding read_values
read_values-Stable zero i = pure-Stable []
read_values-Stable (suc n) i =
    bind-Stable (λ r. wrap (column i) (value r)) _ (wrap-Stable (column i) value value-Stable)
      λ v.
        bind-Stable (read_values n (i + 1)) _ (read_values-Stable n (i + 1))
          λ row. pure-Stable (v ∷ row)

check_version-Stable : Stable check_version
unfolding check_version
check_version-Stable =
    bind-Stable read_byte _ read_byte-Stable λ v. guard-Stable _ _ _ (pure-Stable tt)

-- The parts of a successful decoding.
pub record Parts (b : Bytes) (row : List Value) : Type 0 where
  pub body : Reader
  pub count : ℕ
  pub items : Reader
  pub version : check_version b ≡ ok (tt, body)
  pub counted : uvarint body ≡ ok (count, items)
  pub room : leb count (remaining items) ≡ true
  pub read : read_values count 0 items ≡ ok (row, [])

nothing_left : (r : Reader) → (remaining r == 0) ≡ true → r ≡ []
nothing_left [] h = refl
nothing_left (c ∷ r) h = absurd (ground arith)

pub decode_row-Parts : (b : Bytes) {row : List Value} → decode_row b ≡ ok row → Parts b row
unfolding decode_row
decode_row-Parts b {row} h = elim (Result-cases (check_version b)) [
  | inl ((tt, body), e) ↦ elim (Result-cases (uvarint body)) [
    | inl ((n, items), f) ↦ elim (Result-cases (read_values n 0 items)) [
      | inl ((vs, []), g) ↦ record {
        body = body;
        count = n;
        items = items;
        version = e;
        counted = f;
        room = ground arith;
        read = ground arith;
      }
      | inl ((vs, c ∷ r), g) ↦ absurd (ground arith)
      | inr (x, g) ↦ absurd (ground arith)
    ]
    | inr (x, f) ↦ absurd (ground arith)
  ]
  | inr (x, e) ↦ absurd (ground arith)
]

-- Bytes behind a record that decodes are refused, and counted. So a record that was cut short is
-- never mistaken for a whole one: no two records that decode are such that one begins the other.
pub decode_row-append :
    (b : Bytes) (x : ℕ) (more : Bytes) {row : List Value}
    → decode_row b ≡ ok row
    → decode_row (b ++ x ∷ more) ≡ err (left_over (length more + 1))
decode_row-append b x more {row} h =
    let p = decode_row-Parts b h in
    let version = check_version-Stable b (x ∷ more) tt p.body p.version in
    let counted = uvarint-Stable p.body (x ∷ more) p.count p.items p.counted in
    let read = read_values-Stable p.count 0 p.items (x ∷ more) row [] p.read in
    unfold decode_row in
    ground (arith, p.room, version, counted, read, length-append p.items (x ∷ more))
