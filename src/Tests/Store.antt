-- ===== src/Tests/Store.antt =====
-- The store at concrete transactions and tables.
use mulligan.Base.{
  filter, not, ℕ, suc, ◌<◌, ◌≤◌, ◌≡◌, ◌↔◌, refl, Bool, true, false, ltb, ◌*◌, ◌^◌, inl, inr, Option,
  if◌then◌else◌, none, some, List, [], ◌∷◌, All, ok, err, ◌⊎◌, arith,
}
use mulligan.Base.Int.{ltb_ℤ, pos, ◌-ℤ◌}
use mulligan.Base.Text.{Bytes, codes, beq}
use mulligan.Base.Time.{unix, zero_time, second, is_zero, sub, unix_instant, clamp}
use mulligan.Change.{Op, Value, Event, Transaction, Checkpoint, is_schema_change}
use mulligan.Change.Filter.{Filter, match, matches_table}
use mulligan.Store.Schema.{
  Binding, Txn, GapRow, coverage_from, coverage_to, max_staleness_seconds, retention_seconds,
  number, Text, Tables, Sqlite, StoreError,
}
use mulligan.Store.Tx.{session, Faults, transact, call, read_only}
use mulligan.Store.Rows.{
  EncodedRow, row_of, encode_event, decode_event, encode_events, encode_image, decode_image, op_of,
  op_code,
}
use mulligan.Store.Append.{
  append_transaction, append_encoded, append_body, insert_if_new, insert_txn, has_source_id,
  insert_rows,
}
use mulligan.Store.Prune.{prune, has_txn}
use mulligan.Store.Coverage.{
  Coverage, check_coverage, check_holes, read_coverage, meta_int, parse_meta, coverage_start,
  check_gaps, check_misses, earliest, least, in_seconds, window_bounds, wrap_word,
}
use mulligan.Store.Read.{
  Stored, events, each_event, admit, collect, decode_stored, find_txn, join, oldest_first,
  scan_event,
}
use mulligan.Store.Status.{
  Report, Verdict, verdict, staleness, status, integrity, count_rowless, is_ahead, has_row, damage,
}
use mulligan.Store.Healthy.{status-admit}
use mulligan.Store.Atomic.{append_transaction-Atomic, prune-Atomic}
use mulligan.Store.Redelivery.{new_txn, deliveries, append_transaction-twice}
use mulligan.Store.History.{history, read_all, append_transaction-history}
use mulligan.Store.Kept.{seconds_before, prune-join}
use mulligan.Store.Source.{bind}
use mulligan.Store.Binding.{SameSource, bind-SameSource}
use mulligan.Store.Window.{Outside, Answerable, check_coverage-iff-Answerable}
use mulligan.Store.Events.{EventFits, stored_event, decode_event-encode_event}
use mulligan.Store.Wellformed.{Wellformed}
use mulligan.Store.Steps.{done, then_step, append, Reach-Wellformed, Reach-AtLeast}
use mulligan.Store.Marks.{AtLeast}
use mulligan.Store.Order.{push}
use mulligan.Store.Reading.{each_event-events}
use mulligan.Codec.Encode.{
  encode_columns, encode_row, append_values, append_value, append_columns, append_int,
  append_column, column_flags,
}
use mulligan.Codec.Varint.{
  append_varint, append_uvarint, uvarint_bytes, zigzag, from_le, unzigzag, uvarint_at,
}
use mulligan.Base.Sorting.{sort_by, insert}
use mulligan.Codec.Decode.{
  check_version, decode_columns, decode_row, len_prefixed, next, read_byte, read_column,
  read_columns, read_values, split_at, tagged, uvarint, value, varint,
}
use mulligan.Fidelity.Statements.{stored_images, map_image}
use mulligan.Codec.RoundTrip.Value.{stored}

-- The largest id, as SQLite gives the next one above it.
unfoldable pub top : List ℕ → ℕ
top [] = 0
top (i ∷ ids) = let rest = top ids in if ltb rest i then i else rest

above : (a b : ℕ) (ids : List ℕ) → a ≤ b → All (λ i. i < a) ids → All (λ i. i < b) ids
above a b [] h hs = tt
above a b (i ∷ ids) h (hi, hs) = (omega arith, above a b ids h hs)

pub top-All : (ids : List ℕ) → All (λ i. i < suc (top ids)) ids
unfolding top
top-All [] = tt
top-All (i ∷ ids) = (ground arith, above (suc (top ids)) _ ids (ground arith) (top-All ids))

abbrev pub sqlite : Sqlite
sqlite = record {
  new_rowid = λ ids. suc (top ids);
  new_rowid_fresh = top-All;
  cast_text = λ t. pos 0;
}

abbrev pub fold : Bytes → Bytes → Bool
fold = beq

abbrev pub no_tables : Tables
no_tables = record {
  txns = [];
  row_changes = [];
  gaps = [];
  misses = [];
  checkpoint = none;
  meta = λ k. none;
  source = none;
}

abbrev pub shipped : Event
shipped = record {
  schema = codes "shop";
  table = codes "orders";
  op = Op.update;
  columns = record { name = codes "id"; primary_key = true; read_only = false } ∷ [];
  before = some (Value.int32 (pos 1) ∷ []);
  after = some (Value.int32 (pos 2) ∷ []);
  log_file = codes "binlog.1";
  log_pos = 546;
  at = unix (pos 100);
  server_id = 1;
  query = [];
}

abbrev first_txn : Transaction
first_txn = record {
  source_id = codes "a:1";
  committed_at = unix (pos 100);
  server_id = 1;
  events = shipped ∷ [];
}

abbrev at_546 : Checkpoint
at_546 = record {
  log_file = codes "binlog.1";
  log_pos = 546;
  gtid = codes "a:1";
  updated_at = unix (pos 100);
}

abbrev pub second_fails : Faults
second_fails = false ∷ true ∷ []

abbrev one_txn : Tables
one_txn = (append_transaction sqlite first_txn at_546 no_tables []).0

append_transaction-Atomic_example :
    ((e : StoreError) × (append_transaction sqlite first_txn at_546 no_tables second_fails
        ≡ (no_tables, err e)))
    ⊎ (append_transaction sqlite first_txn at_546 no_tables second_fails
        ≡ append_transaction sqlite first_txn at_546 no_tables [])
append_transaction-Atomic_example =
    append_transaction-Atomic sqlite first_txn at_546 no_tables second_fails

prune-Atomic_example :
    ((e : StoreError) × (prune sqlite (unix (pos 900)) one_txn second_fails ≡ (one_txn, err e)))
    ⊎ (prune sqlite (unix (pos 900)) one_txn second_fails
        ≡ prune sqlite (unix (pos 900)) one_txn [])
prune-Atomic_example = prune-Atomic sqlite (unix (pos 900)) one_txn second_fails

append_transaction-is_ok : (append_transaction sqlite first_txn at_546 no_tables []).1 ≡ ok tt
unfolding append_transaction append_encoded encode_events encode_event encode_columns encode_image
    encode_row append_values append_value transact call append_body insert_if_new insert_txn
    has_source_id insert_rows
append_transaction-is_ok = refl

-- Another transaction between the two deliveries of the first.
abbrev between : List (Transaction × Checkpoint × Faults)
between = (record first_txn { source_id = codes "a:2" }, at_546, []) ∷ []

append_transaction-twice_example :
    ((append_transaction sqlite first_txn at_546 (deliveries sqlite between one_txn) []).0.txns
      ≡ (deliveries sqlite between one_txn).txns)
    × ((append_transaction sqlite first_txn at_546
          (deliveries sqlite between one_txn)
          []).0.row_changes
        ≡ (deliveries sqlite between one_txn).row_changes)
append_transaction-twice_example =
    append_transaction-twice sqlite first_txn at_546 at_546 no_tables [] [] between
      append_transaction-is_ok

abbrev covered : Coverage
covered = record {
  from = unix (pos 50);
  to = unix (pos 100);
  max_staleness = pos (300 * second);
  retention = pos 0;
}

abbrev pub whole : Filter
whole = record { tables = []; from = zero_time; to = zero_time }

abbrev outage : GapRow
outage = record { from_at = pos 10; to_at = pos 20; reason = codes "restart" }

check_coverage-iff-Answerable_example :
    (check_coverage covered whole (unix (pos 200)) (outage ∷ []) [] ≡ ok tt)
    ↔ Answerable covered whole (unix (pos 200)) (outage ∷ []) []
check_coverage-iff-Answerable_example =
    check_coverage-iff-Answerable covered whole (unix (pos 200)) (outage ∷ []) []

abbrev pub shipped_txn : Txn
shipped_txn = record { id = 1; source_txn_id = codes "a:1"; committed_at = pos 100; server_id = 1 }

abbrev pub no_rows : Wellformed no_tables
no_rows = (tt, tt, tt, tt)

Reach-Wellformed_example : Wellformed one_txn
Reach-Wellformed_example =
    Reach-Wellformed sqlite (λ d. pos 0) no_rows
      (then_step (done no_tables) (append first_txn at_546 no_tables []))

abbrev marked : Tables
marked = record no_tables { meta = λ k. some (number (pos 7)) }

Reach-AtLeast_example :
    AtLeast sqlite
      (pos 7)
      ((append_transaction sqlite first_txn at_546 marked []).0.meta coverage_to)
Reach-AtLeast_example =
    Reach-AtLeast sqlite (λ d. pos 0) coverage_to (pos 7) tt marked_at_7
      (then_step (done marked) (append first_txn at_546 marked []))
  where
    marked_at_7 : AtLeast sqlite (pos 7) (marked.meta coverage_to)
    marked_at_7 = omega arith

abbrev stored_row : EncodedRow
stored_row = record {
  schema = codes "shop";
  table = codes "orders";
  op = Op.update;
  log_file = codes "binlog.1";
  log_pos = 546;
  query = none;
  columns = 1 ∷ 1 ∷ 2 ∷ b'i' ∷ b'd' ∷ 1 ∷ [];
  before = 1 ∷ 1 ∷ 1 ∷ 2 ∷ [];
  after = 1 ∷ 1 ∷ 1 ∷ 4 ∷ [];
  has_before = true;
  has_after = true;
}

shipped-EventFits : EventFits shipped
shipped-EventFits = omega arith

encode_event-shipped : encode_event shipped ≡ ok stored_row
unfolding encode_event encode_columns encode_image encode_row append_values append_value
    append_columns append_int append_column append_varint append_uvarint uvarint_bytes column_flags
    zigzag
encode_event-shipped = refl

decode_event-encode_event_example :
    decode_event shipped_txn (row_of 1 1 stored_row) ≡ ok (stored_event shipped_txn shipped)
decode_event-encode_event_example =
    decode_event-encode_event shipped shipped_txn 1 1 shipped-EventFits encode_event-shipped

abbrev pub logged : Tables
logged = record no_tables {
  txns = shipped_txn ∷ [];
  row_changes = row_of 1 1 stored_row ∷ [];
  meta = λ k. elim k [
    | coverage_from ↦ some (number (pos 50))
    | coverage_to ↦ some (number (pos 100))
    | max_staleness_seconds ↦ none
    | retention_seconds ↦ none
  ];
}

pub logged-Wellformed : Wellformed logged
unfolding has_txn row_of has_source_id
logged-Wellformed = ((tt, tt), (tt, tt), (refl, tt), (refl, tt))

pub events-logged :
    events fold whole (unix (pos 200)) logged [] ≡ ok (stored_event shipped_txn shipped ∷ [])
unfolding events read_only call admit read_coverage meta_int parse_meta coverage_start
    check_coverage is_zero unix_instant sub clamp ◌-ℤ◌ check_holes check_gaps check_misses sort_by
    insert match matches_table is_schema_change check_version decode_columns decode_row len_prefixed
    next read_byte read_column read_columns read_values split_at tagged uvarint value varint from_le
    unzigzag mulligan.Codec.Varint.uvarint uvarint_at mulligan.Codec.Varint.varint earliest least
    in_seconds window_bounds collect decode_stored find_txn join oldest_first scan_event
    decode_event decode_image op_of row_of op_code stored_event stored_images map_image stored
events-logged = refl

each_event-events_example :
    each_event fold {E = Bytes} whole (unix (pos 200)) push logged [] []
    ≡ (stored_event shipped_txn shipped ∷ [], ok tt)
each_event-events_example =
    each_event-events fold {E = Bytes} whole (unix (pos 200)) logged logged-Wellformed events-logged

abbrev restarted : Tables
restarted = record logged { gaps = outage ∷ [] }

abbrev report : Report
report = record {
  coverage = covered;
  stale = staleness (unix (pos 200)) covered;
  gaps = outage ∷ [];
  misses = [];
  bound = none;
  problems = [];
}

status-restarted : status (unix (pos 200)) [] restarted [] ≡ ok report
unfolding status read_only call read_coverage meta_int parse_meta coverage_start integrity
    count_rowless is_ahead staleness is_zero unix_instant sub clamp ◌-ℤ◌ in_seconds wrap_word
    sort_by damage insert has_row row_of
status-restarted = refl

report-healthy : verdict report ≡ Verdict.healthy
unfolding verdict is_zero unix_instant staleness sub clamp ◌-ℤ◌
report-healthy = refl

whole-unbounded : is_zero zero_time ≡ true
unfolding is_zero
whole-unbounded = refl

outage-Outside : Outside covered whole (unix (pos 10)) (unix (pos 20))
unfolding unix_instant
outage-Outside = inr (inl (whole-unbounded, omega arith))

status-admit_example :
    admit whole (unix (pos 200)) (session restarted []) ≡ ok (tt, session restarted [])
status-admit_example =
    status-admit (unix (pos 200)) [] restarted whole status-restarted report-healthy whole-unbounded
      whole-unbounded (outage-Outside, tt) tt

encode_events-shipped : encode_events 0 (shipped ∷ []) ≡ ok (stored_row ∷ [])
unfolding encode_events
encode_events-shipped = rw (encode_event-shipped) refl

history-no_tables : history no_tables ≡ ok []
unfolding history read_all join
history-no_tables = refl

nothing_stored : has_source_id (codes "a:1") [] ≡ false
unfolding has_source_id
nothing_stored = refl

append_transaction-history_example :
    history one_txn ≡ ok (stored_event (new_txn sqlite first_txn no_tables) shipped ∷ [])
append_transaction-history_example =
    append_transaction-history sqlite first_txn at_546 no_tables no_rows nothing_stored
      (shipped-EventFits, tt) encode_events-shipped history-no_tables

abbrev rolling : Tables
rolling = record logged {
  meta = λ k. elim k [
    | coverage_from ↦ some (number (pos 50))
    | coverage_to ↦ some (number (pos 100))
    | max_staleness_seconds ↦ none
    | retention_seconds ↦ some (number (pos 500))
  ];
}

rolling-brief :
    (n : ℕ) → rolling.meta retention_seconds ≡ some (number (pos n)) → n * second < 2 ^ 63
rolling-brief n h = let q : 500 ≡ n = same h in omega (arith, q)
  where
    same : ◌≡◌ {A = Option Text} (some (number (pos 500))) (some (number (pos n))) → 500 ≡ n
    same p = cc

prune-join_example :
    (join
        (prune sqlite (unix (pos 900)) rolling []).0.txns
        (prune sqlite (unix (pos 900)) rolling []).0.row_changes
      ≡ join rolling.txns rolling.row_changes)
    ⊎ ((n : ℕ) × (rolling.meta retention_seconds ≡ some (number (pos (suc n))))
        × (join
              (prune sqlite (unix (pos 900)) rolling []).0.txns
              (prune sqlite (unix (pos 900)) rolling []).0.row_changes
            ≡ filter
                (λ (s : Stored).
                  not (ltb_ℤ s.txn.committed_at (seconds_before sqlite (suc n) (unix (pos 900)))))
                (join rolling.txns rolling.row_changes)))
prune-join_example = prune-join sqlite (unix (pos 900)) rolling [] logged-Wellformed rolling-brief

abbrev primary : Binding
primary = record {
  flavor = codes "mysql";
  server_identity = codes "uuid-1";
  gtid_dialect = codes "mysql";
  decode_fingerprint = codes "v1";
}

abbrev replica : Binding
replica = record primary { server_identity = codes "uuid-2" }

abbrev followed : Tables
followed = record no_tables { source = some primary }

bind-SameSource_example :
    ((bind replica followed second_fails).0 ≡ followed)
    × (((bind replica followed []).1 ≡ ok tt) ↔ SameSource primary replica)
bind-SameSource_example = bind-SameSource primary replica followed second_fails refl
