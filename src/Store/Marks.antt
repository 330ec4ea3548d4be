-- ===== src/Store/Marks.antt =====
-- The marks of coverage of internal/store only move one way.
use mulligan.Base.{Option, none, some, arith}
use mulligan.Base.Int.{ℤ, ◌≤ℤ◌}
use mulligan.Store.Schema.{Key, Text, Tables, Sqlite, cast_integer}
use mulligan.Store.Append.{raise_to}

module _ (sql : Sqlite) where
  -- What a key of `meta` holds is at least `z`.
  abbrev pub AtLeast : ℤ → Option Text → Type 0
  AtLeast z none = ⊥
  AtLeast z (some t) = z ≤ℤ cast_integer sql t

  pub raise_to-AtLeast :
      (k j : Key) (when z : ℤ) (t : Tables)
      → AtLeast z (t.meta j)
      → AtLeast z ((raise_to sql k when t).meta j)
  unfolding raise_to
  raise_to-AtLeast k j when z t h = ground arith
