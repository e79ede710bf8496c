-- ===== src/Tokio/Tasks.antt =====
-- `run_task` of rylr998-tokio/src/lib.rs: jobs, and what the radio sends between them.
use rylr998_rs.Base.{ℕ, zero, suc, List, [], ◌∷◌, ◌++◌, ok, err, panic}
use rylr998_rs.Types.{Event, Poll, into_owned}
use rylr998_rs.FixedVec.{FixedVec}
use rylr998_rs.Owned.{OwnedCommand}
use rylr998_rs.Driver.{Driver, push_rx}
use rylr998_rs.Driver.Turns.{Turn, done, again, fault, poll}
use rylr998_rs.Radio.{Radio, drain_fuel}
use rylr998_rs.Tokio.{
  Channel, Sent, taken, no_receiver, never, Read, end_of_stream, bytes_read, failed, timed_out,
  JobRound, Processed, waiting, process_job,
}

-- What `select!` takes: a job with what its rounds meet, the end of the commands, or what `port.read`
-- returns.
pub data Selected : Type 0 where
  job : OwnedCommand → List JobRound → Selected
  no_more_jobs : Selected
  read : Read → Selected

-- Where the task stands: it goes on, it has ended, it has panicked, a send waits for good, or a
-- job or a loop is not over.
pub data Task : Type 0 where
  running : Radio → Task
  ended : Radio → Task
  panicked : Radio → Task
  blocked : Radio → Task
  unfinished : Radio → Task

-- The answer to a job is sent, whether or not its receiver is there.
abbrev pub after_job : Processed → Task
after_job (Processed.returned (ok r) x) = running x
after_job (Processed.returned (err e) x) = running x
after_job (Processed.returned panic x) = panicked x
after_job (Processed.blocked x) = Task.blocked x
after_job (waiting x) = unfinished x

-- The inner loop of `run_task` ends, or goes on.
pub data IdleStep : Type 0 where
  stop : Task → IdleStep
  next : Radio → IdleStep

module _ ⦃v : FixedVec⦄ ⦃c : Channel⦄ where
  -- The branch on an event, by what its send comes to: an error of the send ends the task.
  abbrev pub idle_event_step : Sent → Event → Driver → Radio → IdleStep
  idle_event_step taken e d x =
      next (record x { driver = d; events = x.events ++ into_owned e ∷ [] })
  idle_event_step no_receiver e d x = stop (ended (record x { driver = d }))
  idle_event_step never e d x = stop (Task.blocked (record x { driver = d }))

  -- One `poll` between jobs: an event is sent, and everything else ends the inner loop.
  abbrev pub idle_step : Turn → Radio → IdleStep
  idle_step (done d (Poll.event e)) x = idle_event_step (c.send x.events) e d x
  idle_step (done d Poll.idle) x = stop (running (record x { driver = d }))
  idle_step (done d (Poll.response r)) x = stop (running (record x { driver = d }))
  idle_step (done d (Poll.need_tx bytes)) x = stop (running (record x { driver = d }))
  idle_step (again d) x = stop (unfinished x)
  idle_step fault x = stop (panicked x)

  -- The inner loop of `run_task`.
  unfoldable pub idle_drain : ℕ → Radio → Task
  idle_drain zero x = unfinished x
  idle_drain (suc fuel) x = elim (idle_step (poll x.driver) x) [
    | stop t ↦ t
    | next y ↦ idle_drain fuel y
  ]

  -- The branch of `run_task` on `port.read`; the outcome of `push_rx` is dropped.
  unfoldable pub idle_read : Read → Radio → Task
  idle_read end_of_stream x = ended x
  idle_read (bytes_read bytes) x =
      let y = record x { driver = (push_rx bytes x.driver).1 } in idle_drain (drain_fuel y) y
  idle_read (failed e) x = running x
  idle_read timed_out x = running x

  unfoldable pub select_step : Selected → Radio → Task
  select_step (job cmd rounds) x = after_job (process_job cmd rounds x)
  select_step no_more_jobs x = ended x
  select_step (read r) x = idle_read r x

  -- The loop of `run_task`, on what its `select!`s take.
  unfoldable pub run_task : List Selected → Radio → Task
  run_task [] x = running x
  run_task (s ∷ selected) x = elim (select_step s x) [
    | running y ↦ run_task selected y
    | ended y ↦ ended y
    | panicked y ↦ panicked y
    | Task.blocked y ↦ Task.blocked y
    | unfinished y ↦ unfinished y
  ]
