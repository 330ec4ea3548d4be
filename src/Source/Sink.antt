-- ===== src/Source/Sink.antt =====
-- `Sink` of internal/source/mysql/source.go, the interface that the store fills, and actions on it.
use mulligan.Base.{Result, ok, err}
use mulligan.Base.Text.{Bytes}
use mulligan.Base.Time.{Time}
use mulligan.Change.{Transaction, Checkpoint}

-- An action on a state, which may fail.
abbrev pub Act : Type 0 → Type 0 → Type 0 → Type 0
Act S E A = S → S × Result E A

abbrev pub after_act : {S E A B : Type 0} → S × Result E A → (A → Act S E B) → S × Result E B
after_act (s, ok a) next = next a s
after_act (s, err e) next = (s, err e)

infixl 5 ◌>>=◌ ◌>>◌
abbrev pub ◌>>=◌ : {S E A B : Type 0} → Act S E A → (A → Act S E B) → Act S E B
◌>>=◌ first next s = after_act (first s) next

abbrev pub ◌>>◌ : {S E B : Type 0} → Act S E (Unit {0}) → Act S E B → Act S E B
◌>>◌ first next s = after_act (first s) (λ _. next)

abbrev pub give : {S E A : Type 0} → A → Act S E A
give a s = (s, ok a)

-- What touches no state.
abbrev pub pure_result : {S E A : Type 0} → Result E A → Act S E A
pure_result r s = (s, r)

-- `Sink`. An action fails with one of the sink's own errors.
pub record Sink (S E : Type 0) : Type 0 where
  pub append_transaction : Transaction → Checkpoint → Act S E (Unit {0})
  pub record_gap : Time → Time → Bytes → Act S E (Unit {0})
  pub record_miss : Time → Bytes → Act S E (Unit {0})
  pub advance_coverage : Time → Act S E (Unit {0})
  pub checkpoint : Act S E Checkpoint
