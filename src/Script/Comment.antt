-- ===== src/Script/Comment.antt =====
-- The texts of comments: commentSafe, printableOneLine, plural and describeWindow of
-- internal/script/render.go. `stamp` is the text that the time package makes of a time in UTC.
use mulligan.Base.{
  ℕ, zero, suc, Bool, ◌&&◌, not, [], ◌∷◌, ◌++◌, length, all, ltb, leb, ◌==◌, if◌then◌else◌,
}
use mulligan.Base.Text.{Bytes, codes}
use mulligan.Base.Strings.{format_uint, valid_utf8}
use mulligan.Base.Strings.Runes.{runes}
use mulligan.Base.Time.{Time, is_zero}
use mulligan.Base.Unicode.{Unicode}
use mulligan.Change.{Op}
use mulligan.Change.Filter.{Filter}

abbrev pub max_comment_bytes : ℕ
max_comment_bytes = 200

-- `String` of internal/change/change.go.
unfoldable pub op_text : Op → Bytes
op_text Op.insert = codes "INSERT"
op_text Op.update = codes "UPDATE"
op_text Op.delete = codes "DELETE"
op_text Op.schema_change = codes "SCHEMA CHANGE"
op_text (Op.other n) = codes "UNKNOWN"

-- `plural`
unfoldable pub plural : ℕ → Bytes → Bytes
plural n noun =
    if n == 1 then format_uint n ++ b' ' ∷ noun else (format_uint n ++ b' ' ∷ noun) ++ b's' ∷ []

-- The UTF-8 bytes of the two characters that are not ASCII.
abbrev pub em_dash : Bytes
em_dash = 0xe2 ∷ 0x80 ∷ 0x94 ∷ []

abbrev pub ellipsis : Bytes
ellipsis = 0xe2 ∷ 0x80 ∷ 0xa6 ∷ []

-- `s[i]`, for an index within the text.
unfoldable pub byte_at : Bytes → ℕ → ℕ
byte_at [] i = 0
byte_at (c ∷ s) zero = c
byte_at (c ∷ s) (suc i) = byte_at s i

-- `s[:n]`
unfoldable pub first_bytes : ℕ → Bytes → Bytes
first_bytes zero s = []
first_bytes (suc n) [] = []
first_bytes (suc n) (c ∷ s) = c ∷ first_bytes n s

-- `utf8.RuneStart`
unfoldable pub rune_start : ℕ → Bool
rune_start b = not (leb 0x80 b && ltb b 0xc0)

-- The loop that backs off to a boundary.
unfoldable pub cut_back : ℕ → Bytes → ℕ
cut_back zero s = zero
cut_back (suc n) s =
    let rest = cut_back n s in if rune_start (byte_at s (suc n)) then suc n else rest

module _ (u : Unicode) where
  -- `printableOneLine`
  unfoldable pub printable_one_line : Bytes → Bool
  printable_one_line s = valid_utf8 s && all u.is_print (runes s)

  -- `commentSafe`
  unfoldable pub comment_safe : Bytes → Bytes
  comment_safe s =
      if not (printable_one_line s)
      then (codes "<unprintable, " ++ plural (length s) (codes "byte")) ++ codes ">"
      else if ltb max_comment_bytes (length s)
      then (((first_bytes (cut_back max_comment_bytes s) s ++ ellipsis) ++ codes " <truncated, ")
          ++ plural (length s) (codes "byte"))
        ++ codes " total>"
      else s

-- `describeWindow`
unfoldable pub describe_window : (Time → Bytes) → Filter → Bytes
describe_window stamp f =
    if not (is_zero f.from) && not (is_zero f.to)
    then (stamp f.from ++ codes " to ") ++ stamp f.to
    else if not (is_zero f.from)
    then codes "from " ++ stamp f.from
    else if not (is_zero f.to)
    then codes "up to " ++ stamp f.to
    else []
