-- ===== src/Lib.antt =====
-- A verification library for reapermcp, the server that lets a client inspect and arrange music in
-- REAPER over the Model Context Protocol.
--
-- The program's parts. `crates/qjson` is the JSON, time and hashing layer that all other crates use.
-- `crates/music-domain` holds the musical types, the engines analyse and generate with them,
-- `crates/reaper-ipc` talks to the bridge script, and `crates/reaper-music-mcp` is the server.
--
-- Integers are those of a build without overflow checks, as the release profile is: where the source
-- can leave a machine type the wrap-around is written out, or the theorems say for which values it
-- does not.
--
-- Modelled here:
-- - Qjson/Time: `crates/qjson/src/time.rs`. Qjson/Time.antt has the calendar arithmetic
--   (`days_from_civil`, `civil_from_days`, `days_in_month`) on signed integers with Rust's rounding
--   division (they are unbounded here; no i64 of the source leaves its range for years within
--   10^15 of zero);
--   Qjson/Time/Iso8601.antt has the timestamp writer and parser on byte lists, with the
--   checked 64-bit arithmetic of the parser written out.
-- - Qjson/Json: `crates/qjson/src/json.rs`. The value type and object map are Qjson/Json.antt, the
--   compact and canonical writers Qjson/Json/Write.antt, the typed readers
--   Qjson/Json/Fields.antt, the parser Qjson/Json/{Numbers, Strings,
--   Parse}.antt with the errors of Qjson/Json/Error.antt. A position in the input is the list of the
--   bytes from it on.
-- - Qjson/Floats: `format_f64` of the same file. The type `f64` with its formatting and parsing is a
--   parameter, the record `Floats`; `IsLawful` in Qjson/Floats/Shortest.antt states what Rust
--   documents of them, and Qjson/Floats/Samples.antt is an instance.
-- - Qjson/Utf8: the UTF-8 coding of Rust's strings, which the JSON code uses. A text is the list of
--   its code points.
-- - Store: `Bucket` of `crates/reaper-music-mcp/src/store.rs`, the bounded collection with lifetimes
--   that the session keeps its snapshots, candidates and plans in. Its `BTreeMap` is the ordered
--   list of Store/Ordered.antt; the counter is a u64 and the time of expiry an i64, both of which
--   wrap around, and the clock is an argument.
--   Store/Session.antt has the generation cache of `SessionStore` and its candidates.
--
-- - Music/{Letter, Interval, Pitch}: `crates/music-domain/src/pitch.rs` and `interval.rs`. An i32 is an
--   unbounded integer, and the theorems are about octaves and MIDI pitches for which no i32 of the
--   source leaves its range (Music/Pitch/Bounds.antt has the largest);
--   an interval has a number of 1 to 7, beyond which the table of sizes stops the program. The casts to i8 and u8 are written out. Music/Pitch/Between.antt has the interval
--   between two pitches, Music/Pitch/Spelling.antt the spelling of MIDI pitches with its tables.
-- - Music/BeatTime: the exact quarter-note positions of `crates/music-domain/src/time.rs`. The
--   wrap-around of i128, which a build without overflow checks has, is written out; the f64 arithmetic
--   that puts an unrepresentable position on the grid is a parameter. `from_i128` and `from_f64` call
--   each other in the source; the model unrolls the two calls that can happen.
-- - Music/TimeMap: `TimeSignature` and `TimeMap` of the same file: the construction of a map from
--   tempo and meter events, the lookup of the meter in effect, bars, and the grids of bars and beats
--   (Music/TimeMap/Grids), whose loops have the bound on rounds of the source. The stable sort of the
--   standard library is an insertion sort, which gives the same list. A tempo is a value of a
--   parameter type, with the test of f64 that the code makes. A sum of i64 wraps around, and a
--   bar length or a beat of a signature with denominator zero, which stops the program, is none.
-- - Ipc/Protocol: the checks of request envelopes in `crates/reaper-ipc/src/protocol.rs`, on the JSON
--   values and the timestamps of Qjson. Ipc/Bridge is the bridge of
--   `crates/reaper-ipc/src/testing.rs`, which handles requests as the script in REAPER does: its state,
--   the handling of one request, and runs of it as a data type. It keeps the ids of all requests, as
--   that file does; the script keeps the last 512. Its responder is a parameter, and the
--   outcome of its file operations an input. Ipc/Heartbeat is `Heartbeat::parse` of
--   `crates/reaper-ipc/src/heartbeat.rs`, with the age as an i64 that wraps around.
-- - Ipc/Request: `RequestEnvelope` and `ExpectedProject` of `crates/reaper-ipc/src/envelope.rs`;
--   Ipc/Result its `ResultEnvelope`, with `interpret_result` of `client.rs`; Ipc/Failure the errors of
--   `error.rs`; Ipc/Reply the results that the bridge of `testing.rs` writes, with the pretty printer
--   of `crates/qjson/src/json.rs` in Qjson/Json/Pretty.antt. Between the bridge and the client stand JSON
--   documents: the text of one and its parsing are not part of the exchange.
-- - Ipc/Client: `take_result` and `await_result` of `crates/reaper-ipc/src/client.rs`, with every look
--   at the files, the cancel flag and the delays beyond each sleep as inputs, so that a run is given
--   by the sequence of what the client meets; Ipc/Client/Call.antt is `call` around it, with
--   the room that the clock has for a deadline as an input, and
--   Ipc/Config.antt the configuration of `config.rs`. The counter of polls, which only the hook and the
--   details of an error see, is left out.
--
-- Prelude holds the shared names, signed and machine integers (Prelude/Machine.antt), list
-- lemmas and decimal formatting.
--
-- Fuel. `string_loop` gets the number of remaining bytes, which is enough since every round takes
-- a byte (Qjson/Json/Strings/Fuel.antt); `parse` gives `parse_value` twice the length of the
-- input and two more, since every call or round takes a byte or hands on to a loop
-- (Qjson/Json/Parse/Total.antt); the decimal writer gets the number itself and one more.
-- `await_result` gets two rounds more than the first wait fits into the timeout
-- (Ipc/Client/Ends.antt). The loop of `gcd_i128` recurs on the accessibility of its second
-- variable and needs none. A result `out_of_fuel` has no counterpart in the program.
--
-- Not modelled: error message texts, clocks and files, and the parts of the program that the text
-- above does not name.
pub mod Prelude
pub mod Qjson
pub mod Music
pub mod Ipc
pub mod Store
