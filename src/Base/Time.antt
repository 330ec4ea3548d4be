-- ===== src/Base/Time.antt =====
-- Go's `time.Time` and `time.Duration`.
use mulligan.Base.{
  ℕ, suc, ◌+◌, ◌-◌, ◌*◌, ◌/◌, ◌%◌, ◌^◌, ◌<◌, ◌≡◌, ap, Bool, ◌&&◌, ◌==◌, leb, if◌then◌else◌, arith,
}
use mulligan.Base.Int.{ℤ, pos, negsuc, pos_part, neg_part, ltb_ℤ, ◌+ℤ◌, ◌-ℤ◌}

abbrev pub second : ℕ
second = 1_000_000_000

-- The instant in nanoseconds since 1970 UTC, and the zone that the wall clock is read in (0 is UTC).
pub record Time : Type 0 where
  pub instant : ℤ
  pub zone : ℕ

-- Nanoseconds.
abbrev pub Duration : Type 0
Duration = ℤ

-- `time.Time{}` is midnight of January 1 of the year 1, UTC.
abbrev pub zero_time : Time
zero_time = record { instant = negsuc (62_135_596_800 * second - 1); zone = 0 }

unfoldable pub is_zero : Time → Bool
is_zero t = pos_part t.instant == 0 && neg_part t.instant == 62_135_596_800 * second

abbrev pub utc : Time → Time
utc t = record t { zone = 0 }

abbrev pub before : Time → Time → Bool
before t u = ltb_ℤ t.instant u.instant

abbrev pub after : Time → Time → Bool
after t u = ltb_ℤ u.instant t.instant

-- `t.Unix()` rounds down, and `t.Nanosecond()` is what is left.
unfoldable pub unix_seconds : ℤ → ℤ
unix_seconds (pos n) = pos (n / second)
unix_seconds (negsuc n) = negsuc (n / second)

unfoldable pub nanosecond : ℤ → ℕ
nanosecond (pos n) = n % second
nanosecond (negsuc n) = second - 1 - n % second

-- `time.Unix(sec, nsec)` for `nsec` within a second.
unfoldable pub unix_instant : ℤ → ℕ → ℤ
unix_instant (pos s) ns = pos (s * second + ns)
unix_instant (negsuc s) ns = negsuc (suc s * second - ns - 1)

abbrev pub unix : ℤ → Time
unix s = record { instant = unix_instant s 0; zone = 0 }

-- `t.Sub(u)` is held within 64 bits.
unfoldable pub clamp : ℤ → ℤ
clamp (pos n) = if leb (2 ^ 63) n then pos (2 ^ 63 - 1) else pos n
clamp (negsuc n) = if leb (2 ^ 63) n then negsuc (2 ^ 63 - 1) else negsuc n

unfoldable pub sub : Time → Time → Duration
sub t u = clamp (t.instant -ℤ u.instant)

unfoldable pub add : Time → Duration → Time
add t d = record t { instant = t.instant +ℤ d }

pub nanosecond-lt-second : (z : ℤ) → nanosecond z < second
unfolding nanosecond
nanosecond-lt-second (pos n) = omega arith
nanosecond-lt-second (negsuc n) = omega arith

pub unix_instant_lem : (z : ℤ) → unix_instant (unix_seconds z) (nanosecond z) ≡ z
unfolding unix_instant unix_seconds nanosecond
unix_instant_lem (pos n) = ap pos (omega arith)
unix_instant_lem (negsuc n) = ap negsuc (omega arith)

pub unix_seconds-unix_instant : (s : ℤ) (n : ℕ) → n < second → unix_seconds (unix_instant s n) ≡ s
unfolding unix_seconds unix_instant
unix_seconds-unix_instant (pos s) n h = ap pos (omega arith)
unix_seconds-unix_instant (negsuc s) n h = ap negsuc (omega arith)
