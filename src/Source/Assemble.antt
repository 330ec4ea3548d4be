-- ===== src/Source/Assemble.antt =====
-- internal/source/mysql/assemble.go. The field `flavor`, which nothing reads, is left out. `clock` is
-- the sequence of the times that the clock gives; `readings` counts those taken.
use mulligan.Base.{
  ℕ, suc, Option, none, some, List, [], ◌∷◌, ◌++◌, map, ◌==◌, if◌then◌else◌, Result, ok, err, ◌>>=◌,
}
use mulligan.Base.Int.{pos}
use mulligan.Base.Text.{Bytes, codes, beq, has_prefix}
use mulligan.Base.Strings.{format_uint}
use mulligan.Base.Time.{Time, zero_time, is_zero, before, utc, unix}
use mulligan.Base.Unicode.{Unicode}
use mulligan.Change.{Op, Event, Transaction}
use mulligan.Change.Ddl.{is_ddl}
use mulligan.Binlog.Event.{
  EventType, anonymous_gtid, xa_prepare, Header, RowsEvent, BinlogEvent, event, Body, rotate,
  rows_query, annotate_rows, gtid, mariadb_gtid, rows, xid, payload, query, untyped, Events, nil,
  cons,
}
use mulligan.Binlog.Convert.{ConvertError, convert}

-- One constructor for each message, with the position that it names.
pub data AssembleError : Type 0 where
  unreadable_gtid prepared_xa : Bytes → ℕ → AssembleError
  xa_statement : Bytes → Bytes → ℕ → AssembleError

pub record Assembler : Type 0 where
  pub log_file : Bytes
  pub gtid : Bytes
  pub query : Bytes
  pub events : List Event
  pub at : Time
  pub server : ℕ
  pub readings : ℕ

pub record Missed : Type 0 where
  pub at : Time
  pub reason : ConvertError

-- `result`
pub record HandleResult : Type 0 where
  pub txn : Option Transaction
  pub miss : Option Missed
  pub advance : Time

abbrev pub nothing : HandleResult
nothing = record { txn = none; miss = none; advance = zero_time }

abbrev pub advanced : Time → HandleResult
advanced when = record nothing { advance = when }

abbrev pub Handled : Type 0
Handled = Result AssembleError (Assembler × HandleResult)

-- `reset`
unfoldable pub reset : Assembler → Assembler
reset a = record a { events = []; query = []; gtid = []; at = zero_time; server = 0 }

-- `sourceID`
unfoldable pub source_id : Assembler → Header → Bytes
source_id a hdr = if beq a.gtid [] then a.log_file ++ b':' ∷ format_uint hdr.log_pos else a.gtid

-- The result of `commit`, before its deferred reset.
unfoldable pub committed : Assembler → Header → Time → List Event → HandleResult
committed a hdr when [] = advanced when
committed a hdr when (ev ∷ events) = record nothing {
  txn = some (record {
    source_id = source_id a hdr;
    committed_at = if is_zero a.at then when else a.at;
    server_id = if a.server == 0 then hdr.server_id else a.server;
    events = ev ∷ events;
  });
}

-- `commit`
unfoldable pub commit : Assembler → Header → Time → Assembler × HandleResult
commit a hdr when = (reset a, committed a hdr when a.events)

abbrev pub with_query : Bytes → Event → Event
with_query text ev = record ev { query = text }

unfoldable pub append_converted :
    Assembler → Header → Time → Result ConvertError (List Event) → Assembler × HandleResult
append_converted a hdr when (err why) =
    (a, record nothing { miss = some (record { at = when; reason = why }) })
append_converted a hdr when (ok events) = (
  record a {
    events = a.events ++ map (with_query a.query) events;
    query = [];
    at = when;
    server = hdr.server_id;
  },
  nothing,
)

-- `appendRows`
unfoldable pub append_rows : Assembler → Header → RowsEvent → Time → Assembler × HandleResult
append_rows a hdr r when = append_converted a hdr when (convert a.log_file hdr r)

-- The transaction of a schema change.
unfoldable pub schema_txn : Assembler → Header → Time → Bytes → Bytes → Transaction
schema_txn a hdr when schema stmt = record {
  source_id = source_id a hdr;
  committed_at = when;
  server_id = hdr.server_id;
  events =
      record {
        schema = schema;
        table = [];
        op = Op.schema_change;
        columns = [];
        before = none;
        after = none;
        log_file = a.log_file;
        log_pos = hdr.log_pos;
        at = when;
        server_id = hdr.server_id;
        query = stmt;
      }
      ∷ [];
}

-- What `query_` takes a statement for.
pub data Statement : Type 0 where
  xa begin commits rolls_back ddl bookkeeping : Statement

unfoldable pub statement_of : Unicode → Bytes → Statement
statement_of u stmt =
    let upper = u.to_upper stmt in
    if has_prefix upper (codes "XA ")
    then xa
    else if beq upper (codes "BEGIN")
    then begin
    else if beq upper (codes "COMMIT")
    then commits
    else if beq upper (codes "ROLLBACK")
    then rolls_back
    else if is_ddl u stmt
    then ddl
    else bookkeeping

unfoldable pub run_statement : Assembler → Header → Time → Bytes → Bytes → Statement → Handled
run_statement a hdr when schema stmt xa = err (xa_statement stmt a.log_file hdr.log_pos)
run_statement a hdr when schema stmt begin = ok (record a { events = []; query = [] }, nothing)
run_statement a hdr when schema stmt commits = ok (commit a hdr when)
run_statement a hdr when schema stmt rolls_back = ok (reset a, advanced when)
run_statement a hdr when schema stmt ddl =
    ok (a, record nothing { txn = some (schema_txn a hdr when schema stmt) })
run_statement a hdr when schema stmt bookkeeping = ok (a, advanced when)

-- `query_`
unfoldable pub query_ : Unicode → Assembler → Header → Time → Bytes → Bytes → Handled
query_ u a hdr when schema text =
    let stmt = u.trim_space text in run_statement a hdr when schema stmt (statement_of u stmt)

-- A GTID event that is not anonymous, by what `GTIDNext` gives.
unfoldable pub take_gtid : Assembler → Header → Option Bytes → Handled
take_gtid a hdr none = err (unreadable_gtid a.log_file hdr.log_pos)
take_gtid a hdr (some next) = ok (record a { gtid = next }, nothing)

unfoldable pub handle_gtid : Assembler → Header → EventType → Option Bytes → Handled
handle_gtid a hdr anonymous_gtid next = ok (a, nothing)
handle_gtid a hdr t next = take_gtid a hdr next

unfoldable pub handle_untyped : Assembler → Header → EventType → Time → Handled
handle_untyped a hdr xa_prepare when = err (prepared_xa a.log_file hdr.log_pos)
handle_untyped a hdr t when = ok (a, advanced when)

-- The first value that is there.
abbrev pub or_else {ℓ} : {A : Type ℓ} → Option A → Option A → Option A
or_else (some x) o = some x
or_else none o = o

-- The body of the loop of `unwrap`.
unfoldable pub merge : HandleResult → HandleResult → HandleResult
merge out res = record {
  txn = or_else res.txn out.txn;
  miss = or_else res.miss out.miss;
  advance = if before out.advance res.advance then res.advance else out.advance;
}

-- The time of an event, and the assembler once the clock was read for it.
unfoldable pub when_of : (ℕ → Time) → Assembler → Header → Time
when_of clock a hdr =
    if hdr.timestamp == 0 then utc (clock a.readings) else unix (pos hdr.timestamp)

unfoldable pub tick : Assembler → Header → Assembler
tick a hdr = if hdr.timestamp == 0 then record a { readings = suc a.readings } else a

module _ (u : Unicode) (clock : ℕ → Time) where
  unfoldable mutual
    -- `handle`
    pub handle : Assembler → BinlogEvent → Handled
    handle a (event hdr body) = switch (tick a hdr) hdr (when_of clock a hdr) body

    -- The switch of `handle`.
    pub switch : Assembler → Header → Time → Body → Handled
    switch a hdr when (rotate next_log_name) =
        ok (record a { log_file = next_log_name }, advanced when)
    switch a hdr when (rows_query text) = ok (record a { query = text }, nothing)
    switch a hdr when (annotate_rows text) = ok (record a { query = text }, nothing)
    switch a hdr when (gtid next) = handle_gtid a hdr hdr.event_type next
    switch a hdr when (mariadb_gtid text) = ok (record a { gtid = text }, nothing)
    switch a hdr when (rows r) = ok (append_rows a hdr r when)
    switch a hdr when (xid gset) = ok (commit a hdr when)
    switch a hdr when (payload inner) = unwrap a inner nothing
    switch a hdr when (query schema text gset) = query_ u a hdr when schema text
    switch a hdr when untyped = handle_untyped a hdr hdr.event_type when

    -- `unwrap`
    pub unwrap : Assembler → Events → HandleResult → Handled
    unwrap a nil out = ok (a, out)
    unwrap a (cons e es) out = handle a e >>= (λ r. unwrap r.0 es (merge out r.1))
