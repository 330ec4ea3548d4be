-- ===== src/Script/Lines/Code.antt =====
-- A script without its comments: the settings of the session and the statements.
use mulligan.Base.{
  ◌≡◌, refl, sym, ap, ◌∙◌, true, not, all, &&_split, List, [], ◌∷◌, ◌++◌, append_assoc, length,
  ◌==◌, All, All-append, arith,
}
use mulligan.Base.Text.{Bytes, codes, concat, Lacks}
use mulligan.Base.Time.{Time}
use mulligan.Base.Strings.{format_uint}
use mulligan.Base.Strings.Runes.{Plain}
use mulligan.Base.Unicode.{Unicode}
use mulligan.Change.{Event}
use mulligan.Change.Filter.{Filter}
use mulligan.Reverse.Statement.{Reversal}
use mulligan.Script.Comment.{comment_safe, op_text, plural, describe_window, em_dash}
use mulligan.Script.Render.{
  print, render_plan, write_schema_warning, write_reversal, write_reversals, title, review,
  no_changes, set_time_zone, set_names, source_line, window_text, undo_line, caused_by, schema_line,
  schema_lines, warning, count_line,
}
use mulligan.Script.Lines.{
  newline, Line, comment, code, text_of, code_of, IsCode, IsLine, uncommented, uncommented-print,
}
use mulligan.Script.Lines.Safe.{
  literal-Plain, append-Plain, format_uint-Plain, plural-Plain, op_text-Plain, comment_safe-Plain,
  describe_window-Plain,
}

-- The statements of a plan, each behind an empty line.
abbrev pub reversal_code : List Reversal → List Bytes
reversal_code [] = []
reversal_code (r ∷ plan) = [] ∷ r.statement ∷ reversal_code plan

-- The code of a script that `Render` writes.
abbrev pub rendered_code : List Reversal → List Bytes
rendered_code [] = []
rendered_code (r ∷ plan) = [] ∷ set_time_zone ∷ set_names ∷ reversal_code (r ∷ plan)

abbrev pub trailer_code : List Reversal → List Bytes
trailer_code [] = []
trailer_code (r ∷ plan) = [] ∷ []

-- The code of a script that a `Writer` writes.
abbrev pub streamed_code : List Reversal → List Bytes
streamed_code plan = [] ∷ set_time_zone ∷ set_names ∷ (reversal_code plan ++ trailer_code plan)

pub print-append : (xs ys : List Bytes) → print (xs ++ ys) ≡ print xs ++ print ys
unfolding print
print-append [] ys = refl
print-append (x ∷ xs) ys =
    ap (λ l. x ++ 10 ∷ l) (print-append xs ys) ∙ sym (append_assoc x (10 ∷ print xs) (print ys))

-- Lines that are comments and code as given.
abbrev pub Reads : List Bytes → List Bytes → Type 0
Reads lines codes = (ls : List Line) × (text_of ls ≡ lines) × (code_of ls ≡ codes) × All IsLine ls

text_of-append : (xs ys : List Line) → text_of (xs ++ ys) ≡ text_of xs ++ text_of ys
text_of-append [] ys = refl
text_of-append (comment s ∷ xs) ys = ap (λ l. (b'-' ∷ b'-' ∷ s) ∷ l) (text_of-append xs ys)
text_of-append (code s ∷ xs) ys = ap (λ l. s ∷ l) (text_of-append xs ys)

code_of-append : (xs ys : List Line) → code_of (xs ++ ys) ≡ code_of xs ++ code_of ys
code_of-append [] ys = refl
code_of-append (comment s ∷ xs) ys = code_of-append xs ys
code_of-append (code s ∷ xs) ys = ap (λ l. s ∷ l) (code_of-append xs ys)

pub Reads-append : {a b a' b' : List Bytes} → Reads a a' → Reads b b' → Reads (a ++ b) (a' ++ b')
Reads-append {a} {b} {a'} {b'} (xs, tx, cx, hx) (ys, ty, cy, hy) = (
  xs ++ ys,
  text_of-append xs ys ∙ ap (λ l. l ++ text_of ys) tx ∙ ap (λ l. a ++ l) ty,
  code_of-append xs ys ∙ ap (λ l. l ++ code_of ys) cx ∙ ap (λ l. a' ++ l) cy,
  All-append IsLine xs ys hx hy,
)

pub Reads-nil : Reads [] []
Reads-nil = ([], refl, refl, tt)

unfoldable pub drop2 : Bytes → Bytes
drop2 (c ∷ (d ∷ s)) = s
drop2 s = s

pub Reads-comment :
    (l : Bytes) {a a' : List Bytes}
    → l ≡ b'-' ∷ b'-' ∷ drop2 l
    → Plain l
    → Reads a a'
    → Reads (l ∷ a) a'
Reads-comment l e h (ls, t, c, hs) =
    let g = rw (e) at h in
    (comment (drop2 l) ∷ ls, ap (λ k. k ∷ text_of ls) (sym e) ∙ ap (λ k. l ∷ k) t, c, (g.1.1, hs))

pub Reads-code : (s : Bytes) {a a' : List Bytes} → IsCode s → Reads a a' → Reads (s ∷ a) (s ∷ a')
Reads-code s h (ls, t, c, hs) = (code s ∷ ls, ap (λ l. s ∷ l) t, ap (λ l. s ∷ l) c, (h, hs))

pub uncommented-Reads : {a a' : List Bytes} → Reads a a' → uncommented (print a) ≡ print a'
uncommented-Reads (ls, t, c, h) =
    ap (λ l. uncommented (print l)) (sym t) ∙ uncommented-print ls h ∙ ap print c

literal-Lacks : (s : Bytes) → all (λ c. not (c == newline)) s ≡ true → Lacks newline s
literal-Lacks [] h = tt
literal-Lacks (c ∷ s) h =
    let (hc, hs) = &&_split (not (c == newline)) _ h in (ground arith, literal-Lacks s hs)

pub Reads-session :
    {a a' : List Bytes}
    → Reads a a'
    → Reads (set_time_zone ∷ set_names ∷ a) (set_time_zone ∷ set_names ∷ a')
Reads-session h =
    Reads-code set_time_zone (refl, literal-Lacks set_time_zone refl)
      (Reads-code set_names (refl, literal-Lacks set_names refl) h)

concat-Plain : (texts : List Bytes) → All Plain texts → Plain (concat texts)
concat-Plain [] h = tt
concat-Plain (s ∷ texts) (hs, h) = append-Plain s (concat texts) hs (concat-Plain texts h)

blank : Plain (codes " ")
blank = literal-Plain (codes " ") refl

module _ (u : Unicode) (stamp : Time → Bytes) (plain_stamp : (t : Time) → Plain (stamp t)) where
  undo_line-Plain : (ev : Event) → Plain (undo_line u stamp ev)
  undo_line-Plain ev =
      concat-Plain
        (codes "-- undo "
          ∷ op_text ev.op
          ∷ codes " "
          ∷ comment_safe u ev.schema
          ∷ codes "."
          ∷ comment_safe u ev.table
          ∷ codes " "
          ∷ em_dash
          ∷ codes " "
          ∷ comment_safe u ev.log_file
          ∷ codes ":"
          ∷ format_uint ev.log_pos
          ∷ codes " at "
          ∷ stamp ev.at
          ∷ [])
        (
          literal-Plain (codes "-- undo ") refl,
          (
            op_text-Plain ev.op,
            (
              blank,
              (
                comment_safe-Plain u ev.schema,
                (
                  literal-Plain (codes ".") refl,
                  (
                    comment_safe-Plain u ev.table,
                    (
                      blank,
                      (
                        literal-Plain em_dash refl,
                        (
                          blank,
                          (
                            comment_safe-Plain u ev.log_file,
                            (
                              literal-Plain (codes ":") refl,
                              (
                                format_uint-Plain ev.log_pos,
                                (literal-Plain (codes " at ") refl, (plain_stamp ev.at, tt)),
                              ),
                            ),
                          ),
                        ),
                      ),
                    ),
                  ),
                ),
              ),
            ),
          ),
        )

  schema_line-Plain : (ev : Event) → Plain (schema_line u stamp ev)
  schema_line-Plain ev =
      concat-Plain
        (codes "--   "
          ∷ stamp ev.at
          ∷ codes " at "
          ∷ comment_safe u ev.log_file
          ∷ codes ":"
          ∷ format_uint ev.log_pos
          ∷ codes " "
          ∷ em_dash
          ∷ codes " "
          ∷ comment_safe u ev.query
          ∷ [])
        (
          literal-Plain (codes "--   ") refl,
          (
            plain_stamp ev.at,
            (
              literal-Plain (codes " at ") refl,
              (
                comment_safe-Plain u ev.log_file,
                (
                  literal-Plain (codes ":") refl,
                  (
                    format_uint-Plain ev.log_pos,
                    (
                      blank,
                      (literal-Plain em_dash refl, (blank, (comment_safe-Plain u ev.query, tt))),
                    ),
                  ),
                ),
              ),
            ),
          ),
        )

  caused_by-Reads : (query : Bytes) → Reads (caused_by u stamp query) []
  unfolding drop2
  caused_by-Reads [] = Reads-nil
  caused_by-Reads (c ∷ query) =
      Reads-comment _ refl
        (append-Plain (codes "-- caused by: ") _ (literal-Plain (codes "-- caused by: ") refl)
          (comment_safe-Plain u (c ∷ query)))
        Reads-nil

  reversal-Reads :
      (r : Reversal) → IsCode r.statement → Reads (write_reversal u stamp r) ([] ∷ r.statement ∷ [])
  unfolding write_reversal drop2
  reversal-Reads r h = Reads-code [] tt (
      Reads-comment (undo_line u stamp r.event) refl (undo_line-Plain r.event)
        (Reads-append (caused_by-Reads r.event.query) (Reads-code r.statement h Reads-nil)))

  pub reversals-Reads :
      (plan : List Reversal)
      → All (λ r. IsCode r.statement) plan
      → Reads (write_reversals u stamp plan) (reversal_code plan)
  unfolding write_reversals
  reversals-Reads [] h = Reads-nil
  reversals-Reads (r ∷ plan) (hr, h) = Reads-append (reversal-Reads r hr) (reversals-Reads plan h)

  schema_lines-Reads : (events : List Event) → Reads (schema_lines u stamp events) []
  unfolding drop2
  schema_lines-Reads [] = Reads-nil
  schema_lines-Reads (ev ∷ events) =
      Reads-comment (schema_line u stamp ev) refl (schema_line-Plain ev) (schema_lines-Reads events)

  pub warning-Reads : (events : List Event) → Reads (write_schema_warning u stamp events) []
  unfolding write_schema_warning drop2
  warning-Reads [] = Reads-nil
  warning-Reads (ev ∷ events) = Reads-comment _ refl (literal-Plain (codes "--") refl) (
      Reads-comment (warning u stamp (length (ev ∷ events))) refl
        (concat-Plain
          (codes "-- WARNING: "
            ∷ plural (length (ev ∷ events)) (codes "schema change")
            ∷ codes " in this window. The statements below describe"
            ∷ [])
          (
            literal-Plain (codes "-- WARNING: ") refl,
            (
              plural-Plain _ (codes "schema change") (literal-Plain (codes "schema change") refl),
              (literal-Plain (codes " in this window. The statements below describe") refl, tt),
            ),
          ))
        (Reads-comment _ refl
          (literal-Plain
            (codes
              "-- each table as it was at the time, which may not be its shape now. A dropped or")
            refl)
          (Reads-comment _ refl
            (literal-Plain
              (codes
                "-- renamed column makes the script fail; a retyped one restores a converted value")
              refl)
            (Reads-comment _ refl
              (literal-Plain
                (codes "-- without complaining. Check these against the tables before running:")
                refl)
              (schema_lines-Reads (ev ∷ events))))))

  window-Reads : (w : Bytes) → Plain w → Reads (window_text u stamp w) []
  unfolding drop2
  window-Reads [] h = Reads-nil
  window-Reads (c ∷ s) h =
      Reads-comment _ refl
        (append-Plain (codes "-- window: ") (c ∷ s) (literal-Plain (codes "-- window: ") refl) h)
        Reads-nil

  pub head-Reads :
      (source : Bytes) (f : Filter) {a a' : List Bytes}
      → Reads a a'
      → Reads
          (title
            ∷ source_line u stamp source
            ∷ (window_text u stamp (describe_window stamp f) ++ a))
          a'
  unfolding drop2
  head-Reads source f h = Reads-comment title refl (literal-Plain title refl) (
      Reads-comment (source_line u stamp source) refl
        (append-Plain (codes "-- source: ") (comment_safe u source)
          (literal-Plain (codes "-- source: ") refl) (comment_safe-Plain u source))
        (Reads-append
          (window-Reads (describe_window stamp f) (describe_window-Plain stamp plain_stamp f)) h))

  pub rendered-Reads :
      (events : List Event) (plan : List Reversal)
      → All (λ r. IsCode r.statement) plan
      → Reads (render_plan u stamp events plan) (rendered_code plan)
  unfolding render_plan drop2
  rendered-Reads events [] h =
      Reads-comment no_changes refl (literal-Plain no_changes refl) Reads-nil
  rendered-Reads events (r ∷ plan) h =
      Reads-comment (count_line u stamp (length (r ∷ plan))) refl
        (concat-Plain
          (codes "-- "
            ∷ plural (length (r ∷ plan)) (codes "statement")
            ∷ codes ", newest change first"
            ∷ [])
          (
            literal-Plain (codes "-- ") refl,
            (
              plural-Plain _ (codes "statement") (literal-Plain (codes "statement") refl),
              (literal-Plain (codes ", newest change first") refl, tt),
            ),
          ))
        (Reads-comment review refl (literal-Plain review refl) (
          Reads-append (warning-Reads events)
            (Reads-code [] tt (Reads-session (reversals-Reads (r ∷ plan) h)))))
