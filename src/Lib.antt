-- ===== src/Lib.antt =====
-- A model of rylr998, the Rust driver for REYAX RYLR998 LoRa radio modules, and the theorems that
-- make it correct.
--
-- The program has a sans-I/O core and wrappers that own the serial port. The core
-- (rylr998-core/src) encodes commands to `AT` lines (encode.rs), decodes response and event lines
-- (decode.rs), and keeps one command in flight in a state machine (driver.rs) that is given received
-- bytes by `push_rx` and asked for the next thing to do by `poll`. A wrapper submits a command,
-- writes what `poll` hands out, acknowledges it by `ack_tx`, reads the port and polls again until
-- the answer comes or time is up.
--
-- Files:
--   Base          the names that all files share: tests on numbers, lists of bytes, results that
--                 may be a panic, the search for a byte, signed integers
--   Types         rylr998-core/src/types.rs; Types/RadioError its table of error codes
--   Decimal       the standard library's decimal integers: printing, and `FromStr` with its bounds
--   Utf8          the standard library's check of UTF-8
--   Encode        rylr998-core/src/encode.rs: `Writer` is a record passed from step to step.
--                 Encode/Wire is the specification, the text of each command
--   Decode        rylr998-core/src/decode.rs. Decode/Text is the specification: the lines of a radio
--   FixedVec      the interface of `heapless::Vec`, with the laws of its documentation
--   Driver        rylr998-core/src/driver.rs: `submit`, `push_rx`, `ack_tx`; Driver/Turns is `poll`.
--                 Its invariant is Driver/Invariant.IsValid
--   Radio         rylr998-std/src/radio.rs and error.rs: `pump_until`; Radio/Methods the methods,
--                 Radio/Discovery rylr998-std/src/port.rs
--   Owned, Tokio  rylr998-tokio/src/lib.rs: its types, `process_job`, Tokio/Tasks `run_task`,
--                 Tokio/Methods the methods of `AsyncRadio`, Tokio/Channels its `request`
--                 The bounded channel of the events is the argument Tokio.Channel: a send is taken, has
--                 no receiver, or waits for good
--   Embassy       rylr998-embassy/src/lib.rs: the loop of `pump_until` and `next_event`, and
--                 Embassy/Methods the methods; Embassy/Smoke rylr998-embassy/examples/pico_smoke.rs:
--                 what it prints, the patterns of its LED, its calls of the radio
--   Tool          rylr998-tool/src/main.rs: `parse_params`, and Tool/Main the dispatch; Tool/Commands
--                 rylr998-tool/src/commands.rs, on Tool/Shell: a session is a radio, the calls
--                 that its methods are to meet, and the lines printed so far
--   Tests         runs of the model, and each theorem at a concrete input
--
-- Conventions. A byte, an integer and a length are native numbers; where the code converts to a
-- narrower type the model takes the remainder. A slice out of range and an addition that overflows
-- are the outcome `panic`, or the turn `fault` of `poll`. An operation on `&mut self` returns the
-- new state. Borrowed data is copied.
--
-- Fuel. The recursion of `poll` has one more than the number of received bytes, since each further
-- call has drained a line; the inner loops around `poll` have one more than the bytes in both
-- queues, since every turn but the last takes some of them. The outer loops run over the list of
-- what the port, the clock and the channels answer, round by round, so a run that has not returned
-- is the outcome `waiting`.
--
-- Not modelled: opening and configuring a port, the channels and timers of Tokio, the clocks and
-- the parser of the command line (their answers are arguments), the text of errors and of printed
-- lines (but for those of pico_smoke.rs), logging and `defmt` formatting, the build scripts, and the
-- hardware that pico_smoke.rs sets up. What `{:?}` writes for a string there is an argument.
pub mod Base
pub mod Types
pub mod Decimal
pub mod Encode
pub mod Utf8
pub mod Decode
pub mod FixedVec
pub mod Driver
pub mod Radio
pub mod Owned
pub mod Tokio
pub mod Embassy
pub mod Tool
pub mod Tests
