-- ===== src/Tokio/Running.antt =====
-- `run_task` of rylr998-tokio/src/lib.rs: its loops end, and it keeps its driver valid.
use rylr998_rs.Base.{
  ℕ, zero, suc, ◌+◌, ◌<◌, ◌≢◌, refl, List, [], ◌∷◌, arith, length, All, ok, err, panic,
}
use rylr998_rs.Types.{Event, Poll, IsTyped}
use rylr998_rs.FixedVec.{FixedVec}
use rylr998_rs.Owned.{as_command}
use rylr998_rs.Driver.{Driver, push_rx}
use rylr998_rs.Driver.Turns.{Turn, done, again, fault, poll}
use rylr998_rs.Driver.Invariant.{IsValid, push_rx-IsValid}
use rylr998_rs.Driver.Polling.{Settles, poll-Settles}
use rylr998_rs.Driver.Progress.{Moves, poll-Moves}
use rylr998_rs.Radio.{Radio, drain_fuel}
use rylr998_rs.Radio.Draining.{load}
use rylr998_rs.Tokio.{
  Channel, Sent, taken, no_receiver, never, Read, end_of_stream, bytes_read, failed, timed_out,
  Processed, waiting, process_job,
}
use rylr998_rs.Tokio.Deadline.{IsServed, HasLast, JobReturns, process_job-JobReturns}
use rylr998_rs.Tokio.Tasks.{
  Selected, job, no_more_jobs, read, Task, running, ended, panicked, unfinished, after_job,
  IdleStep, stop, next, idle_event_step, idle_step, idle_drain, idle_read, select_step, run_task,
}

-- Every loop has ended, and the driver is valid unless the task has panicked.
abbrev pub Runs : Task → Type 0
Runs (running x) = IsValid x.driver
Runs (ended x) = IsValid x.driver
Runs (panicked x) = Unit
Runs (Task.blocked x) = ⊥
Runs (unfinished x) = ⊥

-- A job has the types of its command, and its stream ends, a read fails or its time is up.
abbrev pub IsFair : Selected → Type 0
IsFair (job cmd rounds) = IsTyped (as_command cmd) × HasLast rounds
IsFair no_more_jobs = Unit
IsFair (read r) = Unit

-- A turn of the inner loop ends it, or leaves fewer bytes in the queues.
abbrev Shrinks : ℕ → IdleStep → Type 0
Shrinks n (stop t) = Runs t
Shrinks n (next y) = IsValid y.driver × (load y.driver < n)

module _ ⦃v : FixedVec⦄ ⦃c : Channel⦄ where
  event-Shrinks :
      (o : Sent) (e : Event) (n : ℕ) (x : Radio) (d : Driver)
      → o ≢ never
      → IsValid d
      → load d < n
      → Shrinks n (idle_event_step o e d x)
  event-Shrinks taken e n x d served h k = (h, k)
  event-Shrinks no_receiver e n x d served h k = h
  event-Shrinks never e n x d served h k = absurd (served refl)

  idle_step-Shrinks :
      (n m : ℕ) (t : Turn) (x : Radio)
      → IsServed c
      → Settles t
      → Moves n m t
      → Shrinks (n + m) (idle_step t x)
  idle_step-Shrinks n m fault x served h k = tt
  idle_step-Shrinks n m (again d) x served h k = absurd h
  idle_step-Shrinks n m (done d Poll.idle) x served h k = h
  idle_step-Shrinks n m (done d (Poll.need_tx bytes)) x served h k = h
  idle_step-Shrinks n m (done d (Poll.response r)) x served h k = h
  idle_step-Shrinks n m (done d (Poll.event e)) x served h (hr, ht) =
      event-Shrinks (c.send x.events) e (n + m) x d (served x.events) h (omega arith)

  after :
      (fuel n : ℕ) (s : IdleStep)
      → Shrinks n s
      → ((y : Radio) → IsValid y.driver → load y.driver < n → Runs (idle_drain fuel y))
      → Runs (elim s [ stop t ↦ t | next y ↦ idle_drain fuel y ])
  after fuel n (stop t) k f = k
  after fuel n (next y) (h, k) f = f y h k

  -- The inner loop ends within one turn more than there are bytes in the two queues.
  idle_drain-Runs :
      (fuel : ℕ) (x : Radio)
      → IsServed c
      → IsValid x.driver
      → load x.driver < fuel
      → Runs (idle_drain fuel x)
  unfolding idle_drain
  idle_drain-Runs zero x served h k = absurd (omega arith)
  idle_drain-Runs (suc fuel) x served h k =
      after fuel (load x.driver) (idle_step (poll x.driver) x)
        (idle_step-Shrinks (length x.driver.rx) (length x.driver.tx) (poll x.driver) x served
          (poll-Settles x.driver h) (poll-Moves x.driver))
        (λ y hy less. idle_drain-Runs fuel y served hy (omega arith))

  idle_read-Runs : (r : Read) (x : Radio) → IsServed c → IsValid x.driver → Runs (idle_read r x)
  unfolding idle_read
  idle_read-Runs end_of_stream x served h = h
  idle_read-Runs (bytes_read bytes) x served h =
      let y = record x { driver = (push_rx bytes x.driver).1 } in
      idle_drain-Runs (drain_fuel y) y served (push_rx-IsValid bytes x.driver h) (omega arith)
  idle_read-Runs (failed e) x served h = h
  idle_read-Runs timed_out x served h = h

  after_job-Runs : (p : Processed) → JobReturns p → Runs (after_job p)
  after_job-Runs (Processed.returned (ok r) x) h = h
  after_job-Runs (Processed.returned (err e) x) h = h
  after_job-Runs (Processed.returned panic x) h = tt
  after_job-Runs (Processed.blocked x) h = absurd h
  after_job-Runs (waiting x) h = absurd h

  select_step-Runs :
      (s : Selected) (x : Radio) → IsServed c → IsFair s → IsValid x.driver → Runs (select_step s x)
  unfolding select_step
  select_step-Runs (job cmd rounds) x served (typed, last) h =
      after_job-Runs (process_job cmd rounds x)
        (process_job-JobReturns cmd rounds x served typed h last)
  select_step-Runs no_more_jobs x served fair h = h
  select_step-Runs (read r) x served fair h = idle_read-Runs r x served h

  go_on :
      (selected : List Selected) (t : Task)
      → Runs t
      → ((y : Radio) → IsValid y.driver → Runs (run_task selected y))
      → Runs (elim t [
        | running y ↦ run_task selected y
        | ended y ↦ ended y
        | panicked y ↦ panicked y
        | Task.blocked y ↦ Task.blocked y
        | unfinished y ↦ unfinished y
      ])
  go_on selected (running y) h f = f y h
  go_on selected (ended y) h f = h
  go_on selected (panicked y) h f = tt
  go_on selected (Task.blocked y) h f = absurd h
  go_on selected (unfinished y) h f = absurd h

  -- As long as no send of an event waits for good, `run_task` deals with whatever its `select!`s
  -- take, well-typed jobs that end and reads of any kind, in any order: no loop of it runs
  -- forever, and its driver stays valid unless it panics.
  pub run_task-Runs :
      (selected : List Selected) (x : Radio)
      → IsServed c
      → All IsFair selected
      → IsValid x.driver
      → Runs (run_task selected x)
  unfolding run_task
  run_task-Runs [] x served fair h = h
  run_task-Runs (s ∷ selected) x served (first, rest) h =
      go_on selected (select_step s x) (select_step-Runs s x served first h)
        (λ y hy. run_task-Runs selected y served rest hy)
