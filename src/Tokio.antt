-- ===== src/Tokio.antt =====
-- rylr998-tokio/src/lib.rs: the background task. The port, the channels and the timer are Tokio's: what
-- they answer is a list of outcomes that the model is given. The task's driver, what its port was
-- given and the events that it sent are a `Radio`, as those of rylr998-std.
pub mod Methods
pub mod Same
pub mod Tasks
pub mod Running
pub mod Deadline
pub mod Answers
pub mod Exchange
pub mod Events
pub mod Behind
pub mod Blocked
pub mod Channels
use rylr998_rs.Base.{
  ℕ, zero, suc, ◌+◌, Bool, true, false, List, [], ◌∷◌, ◌++◌, Option, none, some, Bytes, length,
  if◌then◌else◌, Outcome, ok, err, panic,
}
use rylr998_rs.Types.{Command, Response, Event, OwnedEvent, Poll, RfParams, into_owned}
use rylr998_rs.Owned.{Error, OwnedResponse, from_response, OwnedCommand, as_command}
use rylr998_rs.FixedVec.{FixedVec}
use rylr998_rs.Driver.{Driver, submit, push_rx, ack_tx}
use rylr998_rs.Driver.Turns.{Turn, done, again, fault, poll}
use rylr998_rs.Radio.{Radio, drain_fuel}

-- What `event_tx.send(e).await` comes to: the event is taken at once or when there is room for it, its
-- receiver is gone, or the channel stays full for good.
pub data Sent : Type 0 where
  taken : Sent
  no_receiver : Sent
  never : Sent

-- The bounded channel of the events, with whoever takes them out of it: what a send comes to, by the
-- events that have been sent before.
pub record Channel : Type 0 where
  pub send : List OwnedEvent → Sent

-- `timeout_at(deadline, port.read(buf))`: `Ok(Ok(0))`, `Ok(Ok(n))`, `Ok(Err(e))` and `Err(_)`.
pub data Read : Type 0 where
  end_of_stream : Read
  bytes_read : Bytes → Read
  failed : ℕ → Read
  timed_out : Read

-- What the port answers in one round of the outer loop of `process_job`.
pub record JobRound : Type 0 where
  pub write_error : Option ℕ
  pub read : Read

-- The end of the inner loop of `process_job`: `break`, a `return`, a send that waits for good, or too
-- little fuel.
pub data JobDrained : Type 0 where
  quiet : Radio → JobDrained
  returned : Outcome Error OwnedResponse → Radio → JobDrained
  blocked : Radio → JobDrained
  unfinished : Radio → JobDrained

pub data JobStep : Type 0 where
  stop : JobDrained → JobStep
  next : Radio → JobStep

-- The outcome of `process_job`: it returns, a send waits for good, or it still waits when the given
-- rounds are over.
pub data Processed : Type 0 where
  returned : Outcome Error OwnedResponse → Radio → Processed
  blocked : Radio → Processed
  waiting : Radio → Processed

module _ ⦃v : FixedVec⦄ ⦃c : Channel⦄ where
  abbrev pub job_write_step : Option ℕ → Bytes → Driver → Radio → JobStep
  job_write_step none bytes d x =
      next (record x { driver = ack_tx (length bytes) d; written = x.written ++ bytes })
  job_write_step (some e) bytes d x =
      stop (JobDrained.returned (err (Error.io e)) (record x { driver = d }))

  -- The branch on an event, by what its send comes to: an error of the send is dropped.
  abbrev pub job_event_step : Sent → Event → Driver → Radio → JobStep
  job_event_step taken e d x =
      next (record x { driver = d; events = x.events ++ into_owned e ∷ [] })
  job_event_step no_receiver e d x = next (record x { driver = d })
  job_event_step never e d x = stop (JobDrained.blocked (record x { driver = d }))

  -- The `match` on what `driver.poll()` reports.
  abbrev pub job_poll_step : Option ℕ → Poll → Driver → Radio → JobStep
  job_poll_step write_error (Poll.need_tx bytes) d x = job_write_step write_error bytes d x
  job_poll_step write_error (Poll.response r) d x =
      stop (JobDrained.returned (ok (from_response r)) (record x { driver = d }))
  job_poll_step write_error (Poll.event e) d x = job_event_step (c.send x.events) e d x
  job_poll_step write_error Poll.idle d x = stop (JobDrained.quiet (record x { driver = d }))

  -- The `match driver.poll()`. `poll` never ends in `again`.
  abbrev pub job_step : Option ℕ → Turn → Radio → JobStep
  job_step write_error (done d p) x = job_poll_step write_error p d x
  job_step write_error (again d) x = stop (JobDrained.unfinished x)
  job_step write_error fault x = stop (JobDrained.returned panic x)

  -- The inner loop of `process_job`.
  unfoldable pub job_drain : ℕ → Option ℕ → Radio → JobDrained
  job_drain zero write_error x = JobDrained.unfinished x
  job_drain (suc fuel) write_error x = elim (job_step write_error (poll x.driver) x) [
    | stop out ↦ out
    | next y ↦ job_drain fuel write_error y
  ]

  -- The `match` on the read; the outcome of `push_rx` is dropped.
  abbrev pub job_read : Read → Radio → Processed
  job_read end_of_stream x = Processed.returned (err Error.closed) x
  job_read (bytes_read bytes) x = waiting (record x { driver = (push_rx bytes x.driver).1 })
  job_read (failed e) x = Processed.returned (err (Error.io e)) x
  job_read timed_out x = Processed.returned (err Error.timeout) x

  -- The rest of a round, behind the inner loop, which is never `unfinished`.
  abbrev pub behind_job_drain : Read → JobDrained → Processed
  behind_job_drain read (JobDrained.quiet y) = job_read read y
  behind_job_drain read (JobDrained.returned out y) = Processed.returned out y
  behind_job_drain read (JobDrained.blocked y) = Processed.blocked y
  behind_job_drain read (JobDrained.unfinished y) = waiting y

  -- The outer loop of `process_job`.
  unfoldable pub job_loop : List JobRound → Radio → Processed
  job_loop [] x = waiting x
  job_loop (round ∷ rounds) x =
      elim (behind_job_drain round.read (job_drain (drain_fuel x) round.write_error x)) [
        | Processed.returned out y ↦ Processed.returned out y
        | Processed.blocked y ↦ Processed.blocked y
        | waiting y ↦ job_loop rounds y
      ]

  abbrev pub job_submitted :
      List JobRound → Radio → Outcome rylr998_rs.Types.Error (Unit {0}) → Processed
  job_submitted rounds x (ok u) = job_loop rounds x
  job_submitted rounds x (err e) = Processed.returned (err (Error.core e)) x
  job_submitted rounds x panic = Processed.returned panic x

  -- `process_job`.
  unfoldable pub process_job : OwnedCommand → List JobRound → Radio → Processed
  process_job cmd rounds x =
      let (o, d) = submit (as_command cmd) x.driver in
      job_submitted rounds (record x { driver = d }) o
