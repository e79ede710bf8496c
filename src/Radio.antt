-- ===== src/Radio.antt =====
-- rylr998-std/src/radio.rs and error.rs: the blocking radio. The serial port and the clock are not
-- part of the repository: what they answer, round by round of the loop of `pump_until`, is a list
-- that the model is given, and what is written to the port is kept in the radio.
pub mod Discovery
pub mod Methods
pub mod Draining
pub mod Deadline
pub mod Answering
pub mod Silence
pub mod Listening
pub mod NextEvent
pub mod Interleaved
pub mod Chunks
pub mod Pieces
use rylr998_rs.Base.{
  ℕ, zero, suc, ◌+◌, Bool, true, false, List, [], ◌∷◌, ◌++◌, Option, none, some, leb, if◌then◌else◌,
  Bytes, length, Outcome, ok, err, panic,
}
use rylr998_rs.Types.{Response, Event, Poll, OwnedEvent, into_owned}
use rylr998_rs.Types.RadioError.{RadioError, from_code}
use rylr998_rs.FixedVec.{FixedVec}
use rylr998_rs.Driver.{Driver, new, push_rx, ack_tx}
use rylr998_rs.Driver.Turns.{Turn, done, again, fault, poll}

-- `Error`. An `std::io::Error` and a `serialport::Error` are the numbers of their kinds.
pub data Error : Type 0 where
  core : rylr998_rs.Types.Error → Error
  io : ℕ → Error
  serial : ℕ → Error
  timeout : Error
  radio : ℕ → Error
  no_device : Error
  ambiguous : List Bytes → Error

-- `Error::radio_error`.
unfoldable pub radio_error : Error → Option RadioError
radio_error (Error.radio code) = from_code code
radio_error _ = none

-- `Radio`; `written` is what `port` was given.
pub record Radio : Type 0 where
  pub driver : Driver
  pub written : Bytes
  pub events : List OwnedEvent

-- `Radio::from_port`.
abbrev pub from_port : Radio
from_port = record { driver = new; written = []; events = [] }

-- What `port.read(&mut buf[..])` returns: the bytes read, `WouldBlock` or `TimedOut`, or another error.
pub data Read : Type 0 where
  data_read : Bytes → Read
  nothing_yet : Read
  failed : ℕ → Read

-- What the port and the clock answer in one round of the outer loop: the outcome of `write_all`
-- (an error, or none), the outcome of `read`, and the time at its end, in milliseconds.
pub record Round : Type 0 where
  pub write_error : Option ℕ
  pub read : Read
  pub now : ℕ

-- The end of the inner loop: `break`, a `return`, or too little fuel.
pub data Drained (R : Type 0) : Type 0 where
  quiet : Radio → Drained R
  returned : Outcome Error R → Radio → Drained R
  unfinished : Radio → Drained R

-- One turn of the inner loop: it ends, or goes on.
pub data Step (R : Type 0) : Type 0 where
  stop : Drained R → Step R
  next : Radio → Step R

-- The outcome of `pump_until`: it returns, or it still waits when the given rounds are over.
pub data Pumped (R : Type 0) : Type 0 where
  returned : Outcome Error R → Radio → Pumped R
  waiting : Radio → Pumped R

module _ ⦃v : FixedVec⦄ where
  -- The branch on `Poll::NeedTx`, when `write_all` succeeds.
  abbrev pub wrote : Bytes → Driver → Radio → Radio
  wrote bytes d x = record x { driver = ack_tx (length bytes) d; written = x.written ++ bytes }

  -- The branch on `Poll::Event`.
  abbrev pub queue_event : Event → Driver → Radio → Radio
  queue_event e d x = record x { driver = d; events = x.events ++ into_owned e ∷ [] }

  -- The `match` on a response, on `want(r)`.
  abbrev pub answer_step : {R : Type 0} → Option (Outcome Error R) → Driver → Radio → Step R
  answer_step none d x = next (record x { driver = d })
  answer_step (some out) d x = stop (Drained.returned out (record x { driver = d }))

  -- The `match` on bytes to write, on the outcome of `write_all`.
  abbrev pub write_step : {R : Type 0} → Option ℕ → Bytes → Driver → Radio → Step R
  write_step none bytes d x = next (wrote bytes d x)
  write_step (some e) bytes d x =
      stop (Drained.returned (err (Error.io e)) (record x { driver = d }))

  abbrev pub poll_step :
      {R : Type 0}
      → (Response → Option (Outcome Error R))
      → Option ℕ
      → Poll
      → Driver
      → Radio
      → Step R
  poll_step want write_error (Poll.need_tx bytes) d x = write_step write_error bytes d x
  poll_step want write_error (Poll.response r) d x = answer_step (want r) d x
  poll_step want write_error (Poll.event e) d x = next (queue_event e d x)
  poll_step want write_error Poll.idle d x = stop (quiet (record x { driver = d }))

  -- The `match self.driver.poll()`. `poll` never ends in `again`.
  abbrev pub turn_step :
      {R : Type 0} → (Response → Option (Outcome Error R)) → Option ℕ → Turn → Radio → Step R
  turn_step want write_error (done d p) x = poll_step want write_error p d x
  turn_step want write_error (again d) x = stop (unfinished x)
  turn_step want write_error fault x = stop (Drained.returned panic x)

  -- The inner loop of `pump_until`.
  unfoldable pub drain :
      {R : Type 0} → ℕ → (Response → Option (Outcome Error R)) → Option ℕ → Radio → Drained R
  drain zero want write_error x = unfinished x
  drain (suc fuel) want write_error x = elim (turn_step want write_error (poll x.driver) x) [
    | stop out ↦ out
    | next y ↦ drain fuel want write_error y
  ]

  -- The fuel of the inner loop: every turn but the last takes bytes out of a queue.
  abbrev pub drain_fuel : Radio → ℕ
  drain_fuel x = suc (length x.driver.rx + length x.driver.tx)

  -- The outcome of `self.driver.push_rx(&buf[..n])?`.
  abbrev pub received :
      rylr998_rs.Base.Outcome rylr998_rs.Types.Error ℕ × Driver
      → Radio
      → Outcome Error (Unit {0}) × Radio
  received (ok n, d) x = (ok tt, record x { driver = d })
  received (err e, d) x = (err (Error.core e), record x { driver = d })
  received (panic, d) x = (panic, record x { driver = d })

  -- The `match` on what was read.
  unfoldable pub take_in : Read → Radio → Outcome Error (Unit {0}) × Radio
  take_in (data_read bytes) x = received (push_rx bytes x.driver) x
  take_in nothing_yet x = (ok tt, x)
  take_in (failed e) x = (err (Error.io e), x)

  -- The end of a round: the `?` on `push_rx`, the `return` of a failed read, and the deadline.
  abbrev pub end_round : {R : Type 0} → ℕ → ℕ → Outcome Error (Unit {0}) × Radio → Pumped R
  end_round deadline now (ok u, z) =
      if leb deadline now then Pumped.returned (err Error.timeout) z else waiting z
  end_round deadline now (err e, z) = Pumped.returned (err e) z
  end_round deadline now (panic, z) = Pumped.returned panic z

  -- The rest of a round, behind the inner loop. The inner loop is never `unfinished`.
  abbrev pub behind_drain : {R : Type 0} → ℕ → Round → Drained R → Pumped R
  behind_drain deadline round (quiet y) = end_round deadline round.now (take_in round.read y)
  behind_drain deadline round (Drained.returned out y) = Pumped.returned out y
  behind_drain deadline round (unfinished y) = waiting y

  -- The body of the outer loop: `waiting` goes on with the next round.
  unfoldable pub round_turn :
      {R : Type 0} → ℕ → (Response → Option (Outcome Error R)) → Round → Radio → Pumped R
  round_turn deadline want round x =
      behind_drain deadline round (drain (drain_fuel x) want round.write_error x)

  -- `pump_until`.
  unfoldable pub pump_until :
      {R : Type 0} → ℕ → (Response → Option (Outcome Error R)) → List Round → Radio → Pumped R
  pump_until deadline want [] x = waiting x
  pump_until deadline want (round ∷ rounds) x = elim (round_turn deadline want round x) [
    | Pumped.returned out y ↦ Pumped.returned out y
    | waiting y ↦ pump_until deadline want rounds y
  ]
