-- ===== src/Source/Stream.antt =====
-- The collector's loops: stream, attach, gsetOf and Run of internal/source/mysql/source.go. What the
-- server and the replication library do in one attempt is given: an `Attempt`. `message` is the text
-- of a conversion error.
use mulligan.Base.{
  ℕ, Bool, true, false, not, ◌&&◌, Option, none, some, List, [], ◌∷◌, if◌then◌else◌, Result, ok,
  err, wrap,
}
use mulligan.Base.Int.{pos}
use mulligan.Base.Text.{Bytes, beq, codes}
use mulligan.Base.Time.{Time, second, is_zero, after, add, unix}
use mulligan.Base.Unicode.{Unicode}
use mulligan.Change.{Event, Transaction, Checkpoint}
use mulligan.Change
use mulligan.Change.Filter.{Filter}
use mulligan.Store.Source.{no_checkpoint}
use mulligan.Binlog.Event.{Header, BinlogEvent, Body, xid, query, header_of, body_of}
use mulligan.Binlog.Convert.{ConvertError}
use mulligan.Source.Assemble.{AssembleError, Assembler, Missed, handle}
use mulligan.Base.Time.{zero_time}
use mulligan.Source.Sink.{Act, ◌>>=◌, ◌>>◌, give, pure_result, Sink}
use mulligan.Source.Collect.{wanted, mark_generated}

pub record Position : Type 0 where
  pub name : Bytes
  pub pos : ℕ

-- What an error of the library is: the server's refusal of a resume point, or anything else.
pub data LibraryError : Type 0 where
  fatal_reading other_failure : LibraryError

-- How an attempt ends once the events are read: the context is cancelled, or reading fails.
pub data Ending : Type 0 where
  cancelled closed : Ending
  broken : LibraryError → Ending

-- One attempt: the clock that its events read, and `now`, the clock where it has failed; whether the
-- context is cancelled by then, or while the collector waits for the next attempt.
pub record Attempt : Type 0 where
  pub parse_gtid_set : Bytes → Bytes → Bool
  pub start_sync_gtid : Bytes → Option LibraryError
  pub start_sync : Position → Option LibraryError
  pub current_position : Result LibraryError Position
  pub events : List BinlogEvent
  pub ending : Ending
  pub clock : ℕ → Time
  pub is_cancelled : Bool
  pub is_cancelled_waiting : Bool
  pub now : Time

pub data StreamError (E : Type 0) : Type 0 where
  of_sink : E → StreamError E
  refusal : AssembleError → StreamError E
  unresumable : Time → StreamError E
  unreadable_gtid_set : Bytes → StreamError E
  closed_by_server : StreamError E
  of_library : LibraryError → StreamError E

pub record Config : Type 0 where
  pub collect : Filter
  pub gtid_dialect : Bytes
  pub generated : List (Bytes × List Bytes)

-- The loop's own variables.
pub record Loop : Type 0 where
  pub assembler : Assembler
  pub pending_gap : Option Checkpoint

-- `isUnresumable`
unfoldable pub is_unresumable : LibraryError → Bool
is_unresumable fatal_reading = true
is_unresumable other_failure = false

-- `gsetOf`
unfoldable pub gset_of : Body → Bytes
gset_of (xid (some gset)) = gset
gset_of (query schema text (some gset)) = gset
gset_of body = []

abbrev pub not_running : Bytes
not_running =
    codes "the collector was not running, and the source could not resume from where it left off"

abbrev pub purged : Bytes
purged = codes "the collector was down and the source purged the logs covering that period"

abbrev pub started : Position → Option LibraryError → Result LibraryError Position
started p none = ok p
started p (some e) = err e

abbrev pub fresh_assembler : Bytes → Assembler
fresh_assembler name = record {
  log_file = name;
  gtid = [];
  query = [];
  events = [];
  at = zero_time;
  server = 0;
  readings = 0;
}

module _ {E : Type 0} (c : Config) where
  unfoldable pub attach_gtid : Attempt → Checkpoint → Bool → Result (StreamError E) Position
  attach_gtid t cp false = err (unreadable_gtid_set cp.gtid)
  attach_gtid t cp true =
      wrap of_library
        (started (record { name = cp.log_file; pos = cp.log_pos }) (t.start_sync_gtid cp.gtid))

  unfoldable pub attach_at :
      Attempt → Result LibraryError Position → Result (StreamError E) Position
  attach_at t (ok p) = wrap of_library (started p (t.start_sync p))
  attach_at t (err e) = err (of_library e)

  -- `attach`: the position that the stream starts from.
  unfoldable pub attach : Attempt → Checkpoint → Result (StreamError E) Position
  attach t cp =
      if not (beq cp.gtid []) && not (beq c.gtid_dialect [])
      then attach_gtid t cp (t.parse_gtid_set c.gtid_dialect cp.gtid)
      else attach_at t (
          if Change.is_zero cp
          then t.current_position
          else ok (record { name = cp.log_file; pos = cp.log_pos }))

  -- What `stream` makes of an error that may be the server's refusal of the resume point.
  unfoldable pub resume_error : Checkpoint → LibraryError → StreamError E
  resume_error cp e =
      if not (Change.is_zero cp) && is_unresumable e
      then unresumable cp.updated_at
      else of_library e

  unfoldable pub attach_error : Checkpoint → StreamError E → StreamError E
  attach_error cp (of_library e) = resume_error cp e
  attach_error cp e = e

  unfoldable pub ended : Checkpoint → Ending → Result (StreamError E) (Unit {0})
  ended cp cancelled = ok tt
  ended cp closed = err closed_by_server
  ended cp (broken e) = err (resume_error cp e)

module _ {S E : Type 0} (sink : Sink S E) (u : Unicode) (message : ConvertError → Bytes)
    (c : Config) where
  abbrev Doing : Type 0 → Type 0
  Doing A = Act S (StreamError E) A

  abbrev of_store : {A : Type 0} → Act S E A → Doing A
  of_store act s = ((act s).0, wrap of_sink (act s).1)

  -- The gap between the checkpoint and the first event after a resume.
  unfoldable pub note_gap : Option Checkpoint → Header → Doing (Unit {0})
  note_gap none hdr = give tt
  note_gap (some cp) hdr =
      let when = unix (pos hdr.timestamp) in
      if after when (add cp.updated_at (pos second))
      then of_store (sink.record_gap cp.updated_at when not_running)
      else give tt

  unfoldable pub note_miss : Option Missed → Doing (Unit {0})
  note_miss none = give tt
  note_miss (some miss) = of_store (sink.record_miss miss.at (message miss.reason))

  abbrev pub next_checkpoint : Assembler → BinlogEvent → Transaction → Checkpoint
  next_checkpoint a e txn = record {
    log_file = a.log_file;
    log_pos = (header_of e).log_pos;
    gtid = gset_of (body_of e);
    updated_at = txn.committed_at;
  }

  unfoldable pub put_events : Assembler → BinlogEvent → Transaction → List Event → Doing (Unit {0})
  put_events a e txn [] = of_store (sink.advance_coverage txn.committed_at)
  put_events a e txn (ev ∷ events) =
      of_store
        (sink.append_transaction (record txn { events = ev ∷ events }) (next_checkpoint a e txn))

  unfoldable pub put_result : Assembler → BinlogEvent → Option Transaction → Time → Doing (Unit {0})
  put_result a e (some txn) advance =
      put_events a e txn (mark_generated u c.generated (wanted u c.collect txn.events))
  put_result a e none advance =
      if is_zero advance then give tt else of_store (sink.advance_coverage advance)

  -- The body of the loop of `stream`.
  unfoldable pub deliver : (ℕ → Time) → Loop → BinlogEvent → Doing Loop
  deliver clock l e = do
    note_gap l.pending_gap (header_of e)
    handled ← pure_result (wrap refusal (handle u clock l.assembler e))
    note_miss handled.1.miss
    put_result handled.0 e handled.1.txn handled.1.advance
    give (record { assembler = handled.0; pending_gap = none })

  unfoldable pub read_loop :
      (ℕ → Time) → Checkpoint → Ending → Loop → List BinlogEvent → Doing (Unit {0})
  read_loop clock cp ending l [] = pure_result (ended c cp ending)
  read_loop clock cp ending l (e ∷ es) =
      deliver clock l e >>= (λ l'. read_loop clock cp ending l' es)

  unfoldable pub attached :
      Attempt → Checkpoint → Result (StreamError E) Position → Doing (Unit {0})
  attached t cp (err e) = pure_result (err (attach_error c cp e))
  attached t cp (ok started_at) =
      read_loop t.clock cp t.ending
        (record {
          assembler = fresh_assembler started_at.name;
          pending_gap = if Change.is_zero cp then none else some cp;
        })
        t.events

  -- `s.startFresh`, and what `stream` gives.
  abbrev pub Streamed : Type 0
  Streamed = Bool × (S × Result (StreamError E) (Unit {0}))

  unfoldable pub stream_from : Bool → Attempt → S × Result (StreamError E) Checkpoint → Streamed
  stream_from start_fresh t (s, err e) = (start_fresh, (s, err e))
  stream_from start_fresh t (s, ok stored) =
      let cp = if start_fresh then no_checkpoint else stored in
      (false, attached t cp (attach c t cp) s)

  -- `stream`
  unfoldable pub stream : Bool → Attempt → S → Streamed
  stream start_fresh t s = stream_from start_fresh t (of_store sink.checkpoint s)

  -- Whether `Run` returns, or tries again.
  pub data Decision : Type 0 where
    returns : S × Result (StreamError E) (Unit {0}) → Decision
    again : Bool → S → Decision

  unfoldable pub start_anew : S × Result (StreamError E) (Unit {0}) → Decision
  start_anew (s, ok done) = again true s
  start_anew (s, err e) = returns (s, err e)

  unfoldable pub decide_error : Attempt → Bool → S → StreamError E → Decision
  decide_error t start_fresh s (refusal e) = returns (s, err (refusal e))
  decide_error t start_fresh s (unresumable from) =
      start_anew (of_store (sink.record_gap from t.now purged) s)
  decide_error t start_fresh s e =
      if t.is_cancelled_waiting then returns (s, ok tt) else again start_fresh s

  -- The body of the loop of `Run`.
  unfoldable pub decide : Attempt → Streamed → Decision
  decide t (start_fresh, (s, ok done)) = returns (s, ok tt)
  decide t (start_fresh, (s, err e)) =
      if t.is_cancelled then returns (s, ok tt) else decide_error t start_fresh s e

  abbrev pub go_on :
      Decision
      → (Bool → S → S × Result (StreamError E) (Unit {0}))
      → S × Result (StreamError E) (Unit {0})
  go_on (returns out) rest = out
  go_on (again start_fresh s) rest = rest start_fresh s

  -- `Run` over the attempts that it comes to.
  unfoldable pub run : List Attempt → Bool → S → S × Result (StreamError E) (Unit {0})
  run [] start_fresh s = (s, ok tt)
  run (t ∷ ts) start_fresh s = go_on (decide t (stream start_fresh t s)) (λ f s'. run ts f s')
