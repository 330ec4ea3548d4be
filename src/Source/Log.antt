-- ===== src/Source/Log.antt =====
-- What the transactions of a binlog are, read off the log itself: the rows between two boundaries
-- that a commit closes, whole.
use mulligan.Base.{
  ◌+◌, ◌≤◌, All, ℕ, suc, none, List, [], ◌∷◌, ◌++◌, map, ◌==◌, if◌then◌else◌, Bool, true, false,
  Result, ok, err,
}
use mulligan.Base.Int.{pos}
use mulligan.Base.Text.{Bytes}
use mulligan.Base.Time.{Time, utc, unix}
use mulligan.Base.Unicode.{Unicode}
use mulligan.Change.{Op, Event}
use mulligan.Binlog.Event.{
  Header, BinlogEvent, event, Body, rotate, rows, xid, payload, query, untyped, other_type, Events,
  nil, cons, body_of,
}
use mulligan.Binlog.Convert.{ConvertError, convert}
use mulligan.Source.Assemble.{Statement, statement_of, begin, commits, rolls_back, ddl}

-- What one event means for the rows around it.
pub data Mark : Type 0 where
  changes : List Event → Mark
  schema : Event → Mark
  closes drops quiet : Mark

-- A change without the text of the statement that made it. A schema change keeps its own statement.
abbrev pub bare_as : Op → Event → Event
bare_as Op.schema_change ev = ev
bare_as op ev = record ev { query = [] }

abbrev pub bare : Event → Event
bare ev = bare_as ev.op ev

-- Where an event stands: the file, and the number of times that the clock was read.
pub record Place : Type 0 where
  pub log_file : Bytes
  pub readings : ℕ

abbrev pub now_at : (ℕ → Time) → Place → Header → Time
now_at clock p hdr = if hdr.timestamp == 0 then utc (clock p.readings) else unix (pos hdr.timestamp)

abbrev pub schema_at : Place → Header → Time → Bytes → Bytes → Event
schema_at p hdr when name stmt = record {
  schema = name;
  table = [];
  op = Op.schema_change;
  columns = [];
  before = none;
  after = none;
  log_file = p.log_file;
  log_pos = hdr.log_pos;
  at = when;
  server_id = hdr.server_id;
  query = stmt;
}

abbrev pub rows_mark : Result ConvertError (List Event) → Mark
rows_mark (ok events) = changes (map bare events)
rows_mark (err e) = quiet

abbrev pub statement_mark : Statement → Event → Mark
statement_mark begin ev = drops
statement_mark commits ev = closes
statement_mark rolls_back ev = drops
statement_mark ddl ev = schema ev
statement_mark _ ev = quiet

module _ (u : Unicode) (clock : ℕ → Time) where
  abbrev pub mark : Place → Header → Time → Body → Mark
  mark p hdr when (rows r) = rows_mark (convert p.log_file hdr r)
  mark p hdr when (xid gset) = closes
  mark p hdr when (query name text gset) =
      let stmt = u.trim_space text in
      statement_mark (statement_of u stmt) (schema_at p hdr when name stmt)
  mark p hdr when _ = quiet

  abbrev pub after_body : Place → Body → Place
  after_body p (rotate name) = record p { log_file = name }
  after_body p _ = p

  abbrev pub ticked : Place → Header → Place
  ticked p hdr = if hdr.timestamp == 0 then record p { readings = suc p.readings } else p

  abbrev pub marks : Place → List BinlogEvent → List Mark
  marks p [] = []
  marks p (event hdr body ∷ es) =
      let q = ticked p hdr in mark q hdr (now_at clock p hdr) body ∷ marks (after_body q body) es

abbrev pub opened : Events → List BinlogEvent
opened nil = []
opened (cons e es) = e ∷ opened es

-- A compressed transaction stands for an event without rows, and the events in it.
abbrev pub unpacked : Header → Body → List BinlogEvent
unpacked hdr (payload inner) =
    event (record hdr { event_type = other_type 0 }) untyped ∷ opened inner
unpacked hdr body = event hdr body ∷ []

abbrev pub unpacked_log : List BinlogEvent → List BinlogEvent
unpacked_log [] = []
unpacked_log (event hdr body ∷ es) = unpacked hdr body ++ unpacked_log es

abbrev pub IsPayload : Body → Type 0
IsPayload (payload inner) = Unit {0}
IsPayload _ = ⊥

abbrev pub ending_of : Statement → ℕ
ending_of commits = 1
ending_of ddl = 1
ending_of _ = 0

module _ (u : Unicode) where
  -- The number of events that may end a transaction.
  abbrev pub endings : Body → ℕ
  endings (xid gset) = 1
  endings (query name text gset) = ending_of (statement_of u (u.trim_space text))
  endings _ = 0

  abbrev pub endings_in : Events → ℕ
  endings_in nil = 0
  endings_in (cons (event hdr body) es) = endings body + endings_in es

  -- A compressed transaction holds no other one, and one end of a transaction at most.
  abbrev pub IsPacked : Body → Type 0
  IsPacked (payload inner) =
      All (λ e. IsPayload (body_of e) → ⊥) (opened inner) × (endings_in inner ≤ 1)
  IsPacked _ = Unit {0}

-- A log up to its next boundary: the schema changes before it, the rows before it, whether it is a
-- commit, and the transactions behind it.
pub record Ahead : Type 0 where
  pub early : List (List Event)
  pub head : List Event
  pub is_closed : Bool
  pub later : List (List Event)

abbrev pub whole : Bool → List Event → List (List Event)
whole true (ev ∷ events) = (ev ∷ events) ∷ []
whole _ _ = []

-- The transactions of a log that begins with the rows given.
abbrev pub transactions : List Event → Ahead → List (List Event)
transactions p g = g.early ++ whole g.is_closed (p ++ g.head) ++ g.later

abbrev pub ahead : List Mark → Ahead
ahead [] = record { early = []; head = []; is_closed = false; later = [] }
ahead (changes events ∷ ms) = let g = ahead ms in record g { head = events ++ g.head }
ahead (schema ev ∷ ms) = let g = ahead ms in record g { early = (ev ∷ []) ∷ g.early }
ahead (closes ∷ ms) = record {
  early = [];
  head = [];
  is_closed = true;
  later = transactions [] (ahead ms);
}
ahead (drops ∷ ms) = record {
  early = [];
  head = [];
  is_closed = false;
  later = transactions [] (ahead ms);
}
ahead (quiet ∷ ms) = ahead ms
