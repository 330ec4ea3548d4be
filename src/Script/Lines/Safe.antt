-- ===== src/Script/Lines/Safe.antt =====
-- Texts of comments have no control byte.
use mulligan.Base.{
  ℕ, zero, suc, ◌/◌, ◌≤◌, ◌≡◌, refl, Bool, true, false, not, ◌&&◌, [], ◌∷◌, ◌++◌, ltb, leb, ◌==◌,
  if◌then◌else◌, all, All-append, length, Bool-cases, inl, inr, arith, &&_split,
}
use mulligan.Base.Text.{Bytes, codes}
use mulligan.Base.Time.{Time, is_zero}
use mulligan.Base.Strings.{decimal, format_uint, valid_utf8}
use mulligan.Base.Strings.Runes.{Plain, runes, printable-Plain}
use mulligan.Base.Unicode.{Unicode}
use mulligan.Change.{Op}
use mulligan.Change.Filter.{Filter}
use mulligan.Script.Comment.{
  op_text, plural, first_bytes, cut_back, printable_one_line, comment_safe, describe_window,
  ellipsis, max_comment_bytes,
}

-- A literal is looked through.
pub literal-Plain : (s : Bytes) → all (leb 0x20) s ≡ true → Plain s
literal-Plain [] h = tt
literal-Plain (c ∷ s) h =
    let (hc, hs) = &&_split (leb 0x20 c) (all (leb 0x20) s) h in (ground arith, literal-Plain s hs)

pub append-Plain : (s t : Bytes) → Plain s → Plain t → Plain (s ++ t)
append-Plain s t hs ht = All-append (λ c. 0x20 ≤ c) s t hs ht

decimal-Plain : (k n : ℕ) → Plain (decimal k n)
unfolding decimal
decimal-Plain zero n = (omega arith, tt)
decimal-Plain (suc k) n = elim (Bool-cases (ltb n 10)) [
  | inl e ↦ rw (e) (omega arith, tt)
  | inr e ↦
      rw (e) (append-Plain (decimal k (n / 10)) _ (decimal-Plain k (n / 10)) (omega arith, tt))
]

pub format_uint-Plain : (n : ℕ) → Plain (format_uint n)
unfolding format_uint
format_uint-Plain n = decimal-Plain 19 n

pub plural-Plain : (n : ℕ) (noun : Bytes) → Plain noun → Plain (plural n noun)
unfolding plural
plural-Plain n noun h = elim (Bool-cases (n == 1)) [
  | inl e ↦
      rw (e) (append-Plain (format_uint n) (b' ' ∷ noun) (format_uint-Plain n) (omega arith, h))
  | inr e ↦ rw (e) (
      append-Plain (format_uint n ++ b' ' ∷ noun) (b's' ∷ [])
        (append-Plain (format_uint n) (b' ' ∷ noun) (format_uint-Plain n) (omega arith, h))
        (omega arith, tt))
]

first_bytes-Plain : (n : ℕ) (s : Bytes) → Plain s → Plain (first_bytes n s)
unfolding first_bytes
first_bytes-Plain zero s h = tt
first_bytes-Plain (suc n) [] h = tt
first_bytes-Plain (suc n) (c ∷ s) (hc, h) = (hc, first_bytes-Plain n s h)

pub op_text-Plain : (op : Op) → Plain (op_text op)
unfolding op_text
op_text-Plain Op.insert = literal-Plain (codes "INSERT") refl
op_text-Plain Op.update = literal-Plain (codes "UPDATE") refl
op_text-Plain Op.delete = literal-Plain (codes "DELETE") refl
op_text-Plain Op.schema_change = literal-Plain (codes "SCHEMA CHANGE") refl
op_text-Plain (Op.other n) = literal-Plain (codes "UNKNOWN") refl

module _ (u : Unicode) where
  pub comment_safe-Plain : (s : Bytes) → Plain (comment_safe u s)
  unfolding comment_safe printable_one_line
  comment_safe-Plain s = elim (Bool-cases (valid_utf8 s && all u.is_print (runes s))) [
    | inr e ↦ rw (e) (
        append-Plain (codes "<unprintable, " ++ plural (length s) (codes "byte")) (codes ">")
          (append-Plain (codes "<unprintable, ") _ (literal-Plain (codes "<unprintable, ") refl)
            (plural-Plain (length s) (codes "byte") (literal-Plain (codes "byte") refl)))
          (literal-Plain (codes ">") refl))
    | inl e ↦
        let (v, g) = &&_split (valid_utf8 s) _ e in
        rw (e) (cut (ltb max_comment_bytes (length s)) (printable-Plain u s v g))
  ]
    where
      cut :
          (b : Bool)
          → Plain s
          → Plain (
              if b
              then (((first_bytes (cut_back max_comment_bytes s) s ++ ellipsis)
                    ++ codes " <truncated, ")
                  ++ plural (length s) (codes "byte"))
                ++ codes " total>"
              else s)
      cut false h = h
      cut true h =
          append-Plain _ (codes " total>")
            (append-Plain _ (plural (length s) (codes "byte"))
              (append-Plain _ (codes " <truncated, ")
                (append-Plain (first_bytes (cut_back max_comment_bytes s) s) ellipsis
                  (first_bytes-Plain (cut_back max_comment_bytes s) s h)
                  (literal-Plain ellipsis refl))
                (literal-Plain (codes " <truncated, ") refl))
              (plural-Plain (length s) (codes "byte") (literal-Plain (codes "byte") refl)))
            (literal-Plain (codes " total>") refl)

module _ (stamp : Time → Bytes) (plain_stamp : (t : Time) → Plain (stamp t)) where
  pub describe_window-Plain : (f : Filter) → Plain (describe_window stamp f)
  unfolding describe_window
  describe_window-Plain f = both (not (is_zero f.from)) (not (is_zero f.to))
    where
      both :
          (b d : Bool)
          → Plain (
              if b && d
              then (stamp f.from ++ codes " to ") ++ stamp f.to
              else if b
              then codes "from " ++ stamp f.from
              else if d
              then codes "up to " ++ stamp f.to
              else [])
      both true true =
          append-Plain (stamp f.from ++ codes " to ") (stamp f.to)
            (append-Plain (stamp f.from) (codes " to ") (plain_stamp f.from)
              (literal-Plain (codes " to ") refl))
            (plain_stamp f.to)
      both true false =
          append-Plain (codes "from ") (stamp f.from) (literal-Plain (codes "from ") refl)
            (plain_stamp f.from)
      both false true =
          append-Plain (codes "up to ") (stamp f.to) (literal-Plain (codes "up to ") refl)
            (plain_stamp f.to)
      both false false = tt
