-- ===== src/Lib.antt =====
-- Verification of Mulligan, which records the row changes of a MySQL or MariaDB server and writes
-- SQL scripts that revert them. Paths are from the root of the repository.
--
-- The program's parts and how they interact. A source (internal/source/mysql) decodes the binlog
-- into transactions of row-change events. The store (internal/store) keeps these in SQLite for a
-- rolling window, encoded by its codec. A revert reads the window back, newest change first, and
-- the reverse engine (internal/reverse) gives the statement that undoes each change; the script
-- writer (internal/script) and the HTTP API (internal/api) put the statements out.
--
-- What models what:
--   Base: Go's strings as lists of bytes, time.Time and time.Duration (Base/Time: nanoseconds since
--     1970 and a zone), strconv's decimal, the pair of a value and an error (Result), sorting.
--   Change: internal/change. Event, Transaction, Checkpoint, the dynamic values of a column (one
--     constructor for each Go type), ValidRaw (Change/Raw), Filter.Match (Change/Filter), IsDDL
--     (Change/Ddl), MarkReadOnly (Change/Readonly).
--   Binlog: internal/binlog. The events that the replication library decodes (Event), Convert
--     (Convert), ReadFile (Read).
--   Source: internal/source/mysql. The assembler, a state machine over the events (Assemble); Sink,
--     the interface that the store fills (Sink); wanted and markGenerated (Collect); the loops of
--     stream and Run (Stream); connection strings and addresses (Dsn);
--     the settings and the identity of a server (Preflight). Log describes the
--     transactions of a binlog without a state machine; Stored makes the store the sink,
--     and Gaps follows a gap from a resume into the store.
--   Codec: internal/store/codec.go. EncodeRow, EncodeColumns (Encode), DecodeRow, DecodeColumns and
--     the reader (Decode: the bytes that are left are the state), encoding/binary's varints
--     (Varint), the tags and errors (Format).
--   Reverse: internal/reverse. literal, quoteString, hexLiteral, Display (Literal), equalValue
--     (Equality), validate, Statement and Plan (Statement).
--   Store: internal/store. The tables of schema.go (Schema); a transaction with the database as a
--     state monad in which each call of the driver may fail, and which is rolled back where it does
--     (Tx); encodeEvent, insertRow and decode (Rows); AppendTransaction, AdvanceCoverage,
--     OpenCoverage, RecordGap, RecordMiss (Append); readCoverage and checkCoverage (Coverage); Events,
--     EachEvent and Page (Read); Prune and the settings (Prune); Bind and Checkpoint (Source);
--     Status, Integrity and Change (Status). Steps has any sequence of the writes.
--   Script: internal/script. The texts of comments (Comment), Render and the Writer (Render); Lines
--     reads a script as SQL does.
--   Api: internal/api/changes.go. The pages of changes and their cursor (Changes), and a client that
--     follows the cursors.
--   Fidelity: the codec and the engine together.
--   Tests: runs of the model, and the theorems at concrete inputs.
--
-- Parameters stand for what is not in the repository: the texts that strconv and time print for
-- floats and times (Formats) and for the times in comments (stamp), what the strings and unicode
-- packages know of characters (Unicode, equal_fold), what the server and the replication library do
-- in each attempt of the collector (Attempt) or with a file (parse), the clock, the seconds of a duration by way of a
-- float (whole_seconds), and of SQLite the id of a new row, which is above all ids of its table, and
-- the number that CAST makes of a text that is no number (Sqlite). Which calls of the driver fail is
-- an argument (Faults).
--
-- Bounds and fuel: a varint is read for at most ten bytes, as binary.Uvarint does, and the decimal
-- of a number of 64 bits is written with a fuel of twenty digits, which is enough for it. The
-- client of the pages asks at most as often as its fuel says. All other loops are recursions on the
-- list that they go through. Numbers of 64 bits keep their bounds in
-- the hypotheses, and durations that the code multiplies wrap around.
--
-- Not modelled: opening the database, locks, migrations, the queries to a server, timestamps on the
-- command line, the command line and the other routes of the HTTP API, which call the parts above, and
-- what is written to the program's own log. Messages of errors are constructors, without their texts.
pub mod Base
pub mod Change
pub mod Codec
pub mod Reverse
pub mod Store
pub mod Binlog
pub mod Source
pub mod Script
pub mod Api
pub mod Fidelity
mod Tests
