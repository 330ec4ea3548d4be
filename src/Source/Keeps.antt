-- ===== src/Source/Keeps.antt =====
-- What every operation of a sink keeps true, the loop of `stream` of internal/source/mysql/source.go keeps true.
use mulligan.Base.{
  ℕ, Option, none, some, List, [], ◌∷◌, Result, ok, err, wrap, Bool-cases, inl, inr,
}
use mulligan.Base.Int.{pos}
use mulligan.Base.Text.{Bytes}
use mulligan.Base.Time.{Time, is_zero, after, add, second, unix}
use mulligan.Base.Unicode.{Unicode}
use mulligan.Change.{Event, Transaction, Checkpoint}
use mulligan.Binlog.Event.{Header, BinlogEvent, header_of}
use mulligan.Binlog.Convert.{ConvertError}
use mulligan.Source.Assemble.{Assembler, Missed, handle}
use mulligan.Source.Sink.{Act, after_act, Sink, pure_result}
use mulligan.Source.Stream.{
  Config, Loop, refusal, Ending, note_gap, note_miss, put_events, put_result, deliver, read_loop,
  not_running,
}

-- An action leaves what it finds true of the state.
abbrev pub Keeps : {S E A : Type 0} → (S → Type 0) → Act S E A → Type 0
Keeps {S = S} P act = (s : S) → P s → P ((act s).0)

after_act-Keeps :
    {S E A B : Type 0} (P : S → Type 0) (x : S × Result E A) (next : A → Act S E B)
    → P x.0
    → ((a : A) → Keeps P (next a))
    → P ((after_act x next).0)
after_act-Keeps P (s, ok a) next h k = k a s h
after_act-Keeps P (s, err e) next h k = h

module _ {S E : Type 0} (sink : Sink S E) (P : S → Type 0)
    (appends : (txn : Transaction) (cp : Checkpoint) → Keeps P (sink.append_transaction txn cp))
    (gaps : (from to : Time) (why : Bytes) → Keeps P (sink.record_gap from to why))
    (misses : (when : Time) (why : Bytes) → Keeps P (sink.record_miss when why))
    (advances : (to : Time) → Keeps P (sink.advance_coverage to)) (reads : Keeps P sink.checkpoint)
    (u : Unicode) (message : ConvertError → Bytes) (c : Config) where
  note_gap-Keeps :
      (g : Option Checkpoint) (hdr : Header) → Keeps P (note_gap sink u message c g hdr)
  unfolding note_gap
  note_gap-Keeps none hdr s h = h
  note_gap-Keeps (some cp) hdr s h =
      elim (Bool-cases (after (unix (pos hdr.timestamp)) (add cp.updated_at (pos second)))) [
        | inl e ↦ rw (e) (gaps cp.updated_at (unix (pos hdr.timestamp)) not_running s h)
        | inr e ↦ rw (e) h
      ]

  pub note_miss-Keeps : (m : Option Missed) → Keeps P (note_miss sink u message c m)
  unfolding note_miss
  note_miss-Keeps none s h = h
  note_miss-Keeps (some m) s h = misses m.at (message m.reason) s h

  put_events-Keeps :
      (a : Assembler) (e : BinlogEvent) (txn : Transaction) (events : List Event)
      → Keeps P (put_events sink u message c a e txn events)
  unfolding put_events
  put_events-Keeps a e txn [] s h = advances txn.committed_at s h
  put_events-Keeps a e txn (ev ∷ events) s h = appends _ _ s h

  pub put_result-Keeps :
      (a : Assembler) (e : BinlogEvent) (txn : Option Transaction) (to : Time)
      → Keeps P (put_result sink u message c a e txn to)
  unfolding put_result
  put_result-Keeps a e (some txn) to s h = put_events-Keeps a e txn _ s h
  put_result-Keeps a e none to s h = elim (Bool-cases (is_zero to)) [
    | inl x ↦ rw (x) h
    | inr x ↦ rw (x) (advances to s h)
  ]

  deliver-Keeps :
      (clock : ℕ → Time) (l : Loop) (e : BinlogEvent) → Keeps P (deliver sink u message c clock l e)
  unfolding deliver
  deliver-Keeps clock l e s h =
      after_act-Keeps P (note_gap sink u message c l.pending_gap (header_of e) s) _
        (note_gap-Keeps l.pending_gap (header_of e) s h)
        (λ _ s1 h1.
          after_act-Keeps P (pure_result (wrap refusal (handle u clock l.assembler e)) s1) _ h1
            (λ y s2 h2.
              after_act-Keeps P (note_miss sink u message c y.1.miss s2) _
                (note_miss-Keeps y.1.miss s2 h2)
                (λ _ s3 h3.
                  after_act-Keeps P (put_result sink u message c y.0 e y.1.txn y.1.advance s3) _
                    (put_result-Keeps y.0 e y.1.txn y.1.advance s3 h3) (λ _ s4 h4. h4))))

  pub read_loop-Keeps :
      (clock : ℕ → Time) (cp : Checkpoint) (ending : Ending) (es : List BinlogEvent) (l : Loop)
      → Keeps P (read_loop sink u message c clock cp ending l es)
  unfolding read_loop
  read_loop-Keeps clock cp ending [] l s h = h
  read_loop-Keeps clock cp ending (e ∷ es) l s h =
      after_act-Keeps P (deliver sink u message c clock l e s) _ (deliver-Keeps clock l e s h)
        (λ l' s' h'. read_loop-Keeps clock cp ending es l' s' h')
