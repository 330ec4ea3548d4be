-- ===== src/Change/Readonly/Reference.antt =====
-- Marking columns column by column: what the loop of `MarkReadOnly` comes to.
use mulligan.Base.{
  ◌+◌, ◌≡◌, refl, ap, ◌∙◌, sym, Option, none, some, List, [], ◌∷◌, ◌++◌, Bool, false, ◌||◌, map,
  length, if◌then◌else◌, append_assoc, Bool-cases, inl, inr, arith,
}
use mulligan.Base.Text.{Bytes, beq, contains}
use mulligan.Base.Unicode.{Unicode}
use mulligan.Change.{Column, Event}
use mulligan.Change.Readonly.{
  read_only_column, mark_at, copy_of, is_wanted, wanted_names, mark_columns, with_columns,
  mark_event, mark_events, mark_read_only,
}

mark_at-append :
    (pre : List Column) (c : Column) (cols : List Column)
    → mark_at (pre ++ c ∷ cols) (length pre) ≡ pre ++ read_only_column c ∷ cols
unfolding mark_at
mark_at-append [] c cols = refl
mark_at-append (p ∷ pre) c cols = ap (λ l. p ∷ l) (mark_at-append pre c cols)

length-snoc : (pre : List Column) (c : Column) → length (pre ++ c ∷ []) ≡ length pre + 1
length-snoc [] c = omega arith
length-snoc (p ∷ pre) c = omega (arith, length-snoc pre c)

module _ (u : Unicode) where
  -- A column is read-only where it was, or where its name is given.
  abbrev pub mark_if : List Bytes → Event → Column → Column
  mark_if want ev c = if is_wanted u want ev c then read_only_column c else c

  mark_columns-map :
      (want : List Bytes) (ev : Event) (pre cols : List Column) (marked : Option (List Column))
      → copy_of ev.columns marked ≡ pre ++ cols
      → copy_of ev.columns (mark_columns u want ev (length pre) cols marked)
        ≡ pre ++ map (mark_if want ev) cols
  unfolding mark_columns
  mark_columns-map want ev pre [] marked h = h
  mark_columns-map want ev pre (c ∷ cols) marked h = elim (Bool-cases (is_wanted u want ev c)) [
    | inl e ↦
        rw (e, sym (length-snoc pre (read_only_column c)))
          (mark_columns-map want ev (pre ++ read_only_column c ∷ []) cols
              (some (mark_at (copy_of ev.columns marked) (length pre)))
              (ap (λ l. mark_at l (length pre)) h
                ∙ mark_at-append pre c cols
                ∙ sym (append_assoc pre (read_only_column c ∷ []) cols))
            ∙ append_assoc pre (read_only_column c ∷ []) (map (mark_if want ev) cols))
    | inr e ↦
        rw (e, sym (length-snoc pre c))
          (mark_columns-map want ev (pre ++ c ∷ []) cols marked
              (h ∙ sym (append_assoc pre (c ∷ []) cols))
            ∙ append_assoc pre (c ∷ []) (map (mark_if want ev) cols))
  ]

  with_columns-copy_of :
      (ev : Event) (marked : Option (List Column))
      → with_columns u ev marked ≡ record ev { columns = copy_of ev.columns marked }
  with_columns-copy_of ev none = refl
  with_columns-copy_of ev (some cols) = refl

  abbrev pub marked_event : List Bytes → Event → Event
  marked_event want ev = record ev { columns = map (mark_if want ev) ev.columns }

  mark_event-marked : (want : List Bytes) (ev : Event) → mark_event u want ev ≡ marked_event want ev
  unfolding mark_event
  mark_event-marked want ev =
      with_columns-copy_of ev (mark_columns u want ev 0 ev.columns none)
      ∙ ap (λ l. record ev { columns = l }) (mark_columns-map want ev [] ev.columns none refl)

  map-unwanted : (ev : Event) (cols : List Column) → map (mark_if [] ev) cols ≡ cols
  unfolding is_wanted contains
  map-unwanted ev [] = refl
  map-unwanted ev (c ∷ cols) = ap (λ l. c ∷ l) (map-unwanted ev cols)

  map-eq :
      (f g : Event → Event) (h : (ev : Event) → f ev ≡ g ev) (events : List Event)
      → map f events ≡ map g events
  map-eq f g h [] = refl
  map-eq f g h (ev ∷ events) = rw (h ev, map-eq f g h events) refl

  marked-nothing : (events : List Event) → map (marked_event []) events ≡ events
  marked-nothing [] = refl
  marked-nothing (ev ∷ events) =
      rw (marked-nothing events)
        (ap (λ l. record ev { columns = l } ∷ events) (map-unwanted ev ev.columns))

  mark_events-marked :
      (want : List Bytes) (events : List Event)
      → mark_events u want events ≡ map (marked_event want) events
  unfolding mark_events
  mark_events-marked [] events = sym (marked-nothing events)
  mark_events-marked (w ∷ want) events =
      map-eq (mark_event u (w ∷ want)) (marked_event (w ∷ want)) (mark_event-marked (w ∷ want))
        events

  -- A given name, without the blanks around it and in lower case, is a column's name, alone, behind
  -- its table's or behind its schema's and its table's. A name of blanks names nothing.
  abbrev pub names_column : Event → Column → Bytes → Bool
  names_column ev c [] = false
  names_column ev c (b ∷ name) =
      beq (u.to_lower (b ∷ name)) (u.to_lower c.name)
      || beq (u.to_lower (b ∷ name)) (u.to_lower (ev.table ++ b'.' ∷ c.name))
      || beq (u.to_lower (b ∷ name)) (u.to_lower (ev.schema ++ b'.' ∷ ev.table ++ b'.' ∷ c.name))

  abbrev pub is_named : List Bytes → Event → Column → Bool
  is_named [] ev c = false
  is_named (name ∷ names) ev c = names_column ev c (u.trim_space name) || is_named names ev c

  is_wanted-cons :
      (w : Bytes) (want : List Bytes) (ev : Event) (c : Column) {rest : Bool}
      → is_wanted u want ev c ≡ rest
      → is_wanted u (w ∷ want) ev c ≡ (
          (beq w (u.to_lower c.name)
            || beq w (u.to_lower (ev.table ++ b'.' ∷ c.name))
            || beq w (u.to_lower (ev.schema ++ b'.' ∷ ev.table ++ b'.' ∷ c.name)))
          || rest)
  unfolding is_wanted contains
  is_wanted-cons w want ev c h = ground arith

  is_wanted-is_named :
      (names : List Bytes) (ev : Event) (c : Column)
      → is_wanted u (wanted_names u names) ev c ≡ is_named names ev c
  unfolding is_wanted wanted_names contains
  is_wanted-is_named [] ev c = refl
  is_wanted-is_named (name ∷ names) ev c =
      trimmed (u.trim_space name) refl (is_wanted-is_named names ev c)
    where
      trimmed :
          (s : Bytes)
          → u.trim_space name ≡ s
          → is_wanted u (wanted_names u names) ev c ≡ is_named names ev c
          → is_wanted u (wanted_names u (name ∷ names)) ev c ≡ is_named (name ∷ names) ev c
      trimmed [] e rest = rw (e, wanted_names) rest
      trimmed (b ∷ s) e rest =
          rw (e, wanted_names)
            (is_wanted-cons (u.to_lower (b ∷ s)) (wanted_names u names) ev c rest)

  -- An event with its columns marked that are named.
  abbrev pub named_columns : List Bytes → Event → List Column → List Column
  named_columns names ev [] = []
  named_columns names ev (c ∷ cols) =
      (if is_named names ev c then read_only_column c else c) ∷ named_columns names ev cols

  abbrev pub with_named : List Bytes → Event → Event
  with_named names ev = record ev { columns = named_columns names ev ev.columns }

  map-named :
      (names : List Bytes) (ev : Event) (cols : List Column)
      → map (mark_if (wanted_names u names) ev) cols ≡ named_columns names ev cols
  map-named names ev [] = refl
  map-named names ev (c ∷ cols) = rw (is_wanted-is_named names ev c) (
      ap (λ l. (if is_named names ev c then read_only_column c else c) ∷ l)
        (map-named names ev cols))

  -- Marking makes read-only exactly the columns that a given name names, beside those that are so, and
  -- changes nothing else, in no event. A name is compared in lower case and without the blanks
  -- around it, with the column's name, table.column and schema.table.column.
  pub mark_read_only-with_named :
      (events : List Event) (names : List Bytes)
      → mark_read_only u events names ≡ map (with_named names) events
  unfolding mark_read_only
  mark_read_only-with_named events names =
      mark_events-marked (wanted_names u names) events
      ∙ map-eq (marked_event (wanted_names u names)) (with_named names)
          (λ ev. ap (λ l. record ev { columns = l }) (map-named names ev ev.columns)) events
