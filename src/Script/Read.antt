-- ===== src/Script/Read.antt =====
-- What a reader of SQL finds in a script, rendered at once or written statement by statement.
use mulligan.Base.{
  ℕ, zero, suc, ◌+◌, ◌≡◌, refl, sym, ap, ◌∙◌, false, List, [], ◌∷◌, ◌++◌, append_assoc, append-nil,
  length, ◌==◌, if◌then◌else◌, All, arith,
}
use mulligan.Base.Text.{Bytes, codes}
use mulligan.Base.Time.{Time}
use mulligan.Base.Strings.Runes.{Plain}
use mulligan.Base.Unicode.{Unicode}
use mulligan.Change.{Event}
use mulligan.Change.Filter.{Filter}
use mulligan.Reverse.Statement.{Reversal}
use mulligan.Script.Comment.{describe_window, plural}
use mulligan.Script.Render.{
  print, render, write_schema_warning, write_reversal, write_reversals, title, review, no_changes,
  set_time_zone, set_names, source_line, window_text, Writer, new_writer, open_script, write,
  write_all, close,
}
use mulligan.Script.Lines.{IsCode, uncommented}
use mulligan.Script.Lines.Safe.{literal-Plain, append-Plain, plural-Plain}
use mulligan.Script.Lines.Code.{
  Reads, Reads-nil, Reads-append, Reads-comment, Reads-code, Reads-session, uncommented-Reads,
  print-append, drop2, rendered_code, streamed_code, trailer_code, reversals-Reads, warning-Reads,
  head-Reads, rendered-Reads,
}

module _ (u : Unicode) (stamp : Time → Bytes) (plain_stamp : (t : Time) → Plain (stamp t)) where
  -- A script that is written statement by statement.
  abbrev pub streamed : Bytes → Filter → List Event → List Reversal → Bytes
  streamed source f events plan =
      (close u stamp
        (write_all u stamp plan (open_script u stamp source f events (new_writer u stamp)))).out

  abbrev opening : Bytes → Filter → List Event → List Bytes
  opening source f events =
      title
      ∷ source_line u stamp source
      ∷ (window_text u stamp (describe_window stamp f)
          ++ codes "-- newest change first"
            ∷ review
            ∷ (write_schema_warning u stamp events ++ [] ∷ set_time_zone ∷ set_names ∷ []))

  abbrev trailer : ℕ → List Bytes
  trailer zero = no_changes ∷ []
  trailer (suc n) = [] ∷ (codes "-- end of script: " ++ plural (suc n) (codes "statement")) ∷ []

  write_all-out :
      (plan : List Reversal) (w : Writer u stamp)
      → ((write_all u stamp plan w).out ≡ w.out ++ print (write_reversals u stamp plan))
        × ((write_all u stamp plan w).n ≡ w.n + length plan)
  unfolding write_all write write_reversals print
  write_all-out [] w = (sym (append-nil w.out), omega arith)
  write_all-out (r ∷ plan) w =
      let (o, n) = write_all-out plan (write u stamp r w) in
      (
        o
            ∙ append_assoc w.out (print (write_reversal u stamp r))
                (print (write_reversals u stamp plan))
            ∙ ap (λ l. w.out ++ l)
                (sym (print-append (write_reversal u stamp r) (write_reversals u stamp plan))),
        omega (arith, n),
      )

  nonzero : (n : ℕ) → (suc n == 0) ≡ false
  nonzero n = ground arith

  close-out : (w : Writer u stamp) → (close u stamp w).out ≡ w.out ++ print (trailer w.n)
  unfolding close
  close-out w = by_count w.n
    where
      by_count :
          (n : ℕ)
          → (if n == 0 then record w { out = w.out ++ print (no_changes ∷ []) } else record w {
            out =
                w.out
                ++ print ([] ∷ (codes "-- end of script: " ++ plural n (codes "statement")) ∷ []);
          }).out
            ≡ w.out ++ print (trailer n)
      by_count zero = refl
      by_count (suc n) = rw (nonzero n) refl

  streamed-print :
      (source : Bytes) (f : Filter) (events : List Event) (plan : List Reversal)
      → streamed source f events plan
        ≡ print ((opening source f events ++ write_reversals u stamp plan) ++ trailer (length plan))
  unfolding open_script
  streamed-print source f events plan =
      let w = open_script u stamp source f events (new_writer u stamp) in
      let (o, n) = write_all-out plan w in
      let counted : (write_all u stamp plan w).n ≡ length plan = omega (arith, n) in
      close-out (write_all u stamp plan w)
      ∙ ap (λ l. l ++ print (trailer (write_all u stamp plan w).n))
          (o ∙ sym (print-append (opening source f events) (write_reversals u stamp plan)))
      ∙ ap
          (λ k.
            print (opening source f events ++ write_reversals u stamp plan) ++ print (trailer k))
          counted
      ∙ sym (
          print-append (opening source f events ++ write_reversals u stamp plan)
            (trailer (length plan)))

  opening-Reads :
      (source : Bytes) (f : Filter) (events : List Event)
      → Reads (opening source f events) ([] ∷ set_time_zone ∷ set_names ∷ [])
  unfolding drop2
  opening-Reads source f events = head-Reads u stamp plain_stamp source f (
      Reads-comment _ refl (literal-Plain (codes "-- newest change first") refl) (
        Reads-comment review refl (literal-Plain review refl) (
          Reads-append (warning-Reads u stamp plain_stamp events)
            (Reads-code [] tt (Reads-session Reads-nil)))))

  trailer-Reads : (plan : List Reversal) → Reads (trailer (length plan)) (trailer_code plan)
  unfolding drop2
  trailer-Reads [] = Reads-comment no_changes refl (literal-Plain no_changes refl) Reads-nil
  trailer-Reads (r ∷ plan) = Reads-code [] tt (
      Reads-comment _ refl
        (append-Plain (codes "-- end of script: ") _
          (literal-Plain (codes "-- end of script: ") refl)
          (plural-Plain (length (r ∷ plan)) (codes "statement")
            (literal-Plain (codes "statement") refl)))
        Reads-nil)

  -- Whatever bytes the source, the names and the logged statements hold, a script without its comment
  -- lines is exactly the settings of the session and the statements of its plan, in order, each
  -- behind an empty line, where no statement has a newline or begins with a dash; a rendered script
  -- of an empty plan has nothing then. Times are written without control characters.
  pub script-uncommented :
      (source : Bytes) (f : Filter) (events : List Event) (plan : List Reversal)
      → All (λ r. IsCode r.statement) plan
      → (uncommented (render u stamp source f events plan) ≡ print (rendered_code plan))
        × (uncommented (streamed source f events plan) ≡ print (streamed_code plan))
  unfolding render
  script-uncommented source f events plan h = (
    uncommented-Reads (
        head-Reads u stamp plain_stamp source f (rendered-Reads u stamp plain_stamp events plan h)),
    ap uncommented (streamed-print source f events plan)
        ∙ uncommented-Reads (
            Reads-append
              (Reads-append (opening-Reads source f events)
                (reversals-Reads u stamp plain_stamp plan h))
              (trailer-Reads plan)),
  )
