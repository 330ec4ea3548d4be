-- ===== src/Source/Stored.antt =====
-- The store of internal/store as the sink of a collector.
use mulligan.Base.{List, [], ◌∷◌, Result}
use mulligan.Store.Schema.{Tables, Sqlite, StoreError}
use mulligan.Store.Tx.{Faults}
use mulligan.Store.Append
use mulligan.Store.Source.{checkpoint}
use mulligan.Source.Sink.{Act, Sink}

-- The tables, and which calls of the driver fail in each of the next operations.
abbrev pub Store : Type 0
Store = Tables × List Faults

-- One operation of the store under the faults that are next.
abbrev pub on_store :
    {A : Type 0} → (Tables → Faults → Tables × Result StoreError A) → Act Store StoreError A
on_store op (t, []) = (((op t []).0, []), (op t []).1)
on_store op (t, fs ∷ plan) = (((op t fs).0, plan), (op t fs).1)

-- The store as the sink of a collector.
abbrev pub store_sink : Sqlite → Sink Store StoreError
store_sink sql = record {
  append_transaction = λ txn cp. on_store (Append.append_transaction sql txn cp);
  record_gap = λ from to why. on_store (Append.record_gap from to why);
  record_miss = λ when why. on_store (Append.record_miss when why);
  advance_coverage = λ to. on_store (Append.advance_coverage sql to);
  checkpoint = on_store (λ t fs. (t, checkpoint t fs));
}
