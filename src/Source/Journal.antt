-- ===== src/Source/Journal.antt =====
-- The collector hands its sink the transactions of the log, less what nobody asked for.
use mulligan.Base.{◌≡◌, refl, ap, Option, none, some, List, [], ◌∷◌, ◌++◌, Result, ok, err, wrap}
use mulligan.Base.Text.{Bytes}
use mulligan.Base.Time.{Time}
use mulligan.Base.Unicode.{Unicode}
use mulligan.Change.{Event, Transaction, Checkpoint}
use mulligan.Source.Assemble.{HandleResult}
use mulligan.Source.Sink.{Act, after_act, Sink}
use mulligan.Source.Collect.{wanted, mark_generated}
use mulligan.Source.Stream.{Config}

-- What an action that gives a value went through.
pub after_act-ok :
    {S E A B : Type 0} (x : S × Result E A) (next : A → Act S E B) {s' : S} {b : B}
    → after_act x next ≡ (s', ok b)
    → (s1 : S) × (a : A) × (x ≡ (s1, ok a)) × (next a s1 ≡ (s', ok b))
after_act-ok (s, ok a) next h = (s, a, refl, h)
after_act-ok {B = B} (s, err e) next {b = b} h = absurd (no_value (ap (λ p. p.1) h))
  where
    no_value : {E : Type 0} {e : E} → ◌≡◌ {A = Result E B} (err e) (ok b) → ⊥
    no_value q = cc

pub wrap-ok : {E F A : Type 0} (f : E → F) (r : Result E A) {a : A} → wrap f r ≡ ok a → r ≡ ok a
wrap-ok f (ok x) h = cc
wrap-ok f (err e) h = absurd (cc)

-- A sink beside the list of the changes of each transaction that it accepted, in order.
abbrev accepted :
    {S E : Type 0}
    → Transaction
    → List (List Event)
    → S × Result E (Unit {0})
    → (S × List (List Event)) × Result E (Unit {0})
accepted txn j (s, ok done) = ((s, j ++ txn.events ∷ []), ok done)
accepted txn j (s, err e) = ((s, j), err e)

abbrev beside : {S E A J : Type 0} → Act S E A → Act (S × J) E A
beside act (s, j) = (((act s).0, j), (act s).1)

abbrev pub recorded : {S E : Type 0} → Sink S E → Sink (S × List (List Event)) E
recorded sink = record {
  append_transaction = λ txn cp p. accepted txn p.1 (sink.append_transaction txn cp p.0);
  record_gap = λ from to why. beside (sink.record_gap from to why);
  record_miss = λ when why. beside (sink.record_miss when why);
  advance_coverage = λ to. beside (sink.advance_coverage to);
  checkpoint = beside sink.checkpoint;
}

-- The changes of the transaction of a result.
abbrev handed : Option Transaction → List (List Event)
handed none = []
handed (some txn) = txn.events ∷ []

abbrev all_handed : List HandleResult → List (List Event)
all_handed [] = []
all_handed (r ∷ rs) = handed r.txn ++ all_handed rs

module _ {S E : Type 0} (sink : Sink S E) (view : S → List (List Event)) where
  -- What a view of a sink's state has to do to be the list of what the sink accepted.
  record IsJournal : Type 0 where
    pub appends :
        (txn : Transaction) (cp : Checkpoint) (s s' : S)
        → sink.append_transaction txn cp s ≡ (s', ok tt)
        → view s' ≡ view s ++ txn.events ∷ []
    pub keeps_gap :
        (from to : Time) (why : Bytes) (s s' : S)
        → sink.record_gap from to why s ≡ (s', ok tt)
        → view s' ≡ view s
    pub keeps_miss :
        (when : Time) (why : Bytes) (s s' : S)
        → sink.record_miss when why s ≡ (s', ok tt)
        → view s' ≡ view s
    pub keeps_advance :
        (to : Time) (s s' : S) → sink.advance_coverage to s ≡ (s', ok tt) → view s' ≡ view s

module _ (u : Unicode) (c : Config) where
  abbrev pub kept_events : List Event → List Event
  kept_events events = mark_generated u c.generated (wanted u c.collect events)

  abbrev pub unless_empty : List Event → List (List Event)
  unless_empty [] = []
  unless_empty (ev ∷ events) = (ev ∷ events) ∷ []

  -- The changes that are wanted of each transaction, where there are any.
  abbrev pub kept : List (List Event) → List (List Event)
  kept [] = []
  kept (events ∷ groups) = unless_empty (kept_events events) ++ kept groups
