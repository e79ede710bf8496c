-- ===== src/Tokio/Deadline.antt =====
-- `process_job` of rylr998-tokio/src/lib.rs returns, and keeps the driver valid.
use rylr998_rs.Base.{
  ℕ, zero, suc, ◌+◌, ◌<◌, ◌≢◌, refl, ◌⊎◌, inl, inr, List, [], ◌∷◌, Option, none, some, arith, Bytes,
  length, Outcome, ok, err, panic,
}
use rylr998_rs.Types.{Event, OwnedEvent, Poll, IsTyped}
use rylr998_rs.FixedVec.{FixedVec}
use rylr998_rs.Owned.{OwnedCommand, as_command}
use rylr998_rs.Driver.{Driver, submit}
use rylr998_rs.Driver.Turns.{Turn, done, again, fault, poll}
use rylr998_rs.Driver.Invariant.{IsValid, submit-IsValid, push_rx-IsValid, ack_tx-IsValid}
use rylr998_rs.Driver.Polling.{Settles, poll-Settles}
use rylr998_rs.Driver.Progress.{Moves, poll-Moves, ack_tx_fewer}
use rylr998_rs.Radio.{Radio, drain_fuel}
use rylr998_rs.Radio.Draining.{load}
use rylr998_rs.Tokio.{
  Channel, Sent, taken, no_receiver, never, Read, end_of_stream, bytes_read, failed, timed_out,
  JobRound, JobDrained, JobStep, Processed, waiting, job_write_step, job_event_step, job_step,
  job_drain, job_read, behind_job_drain, job_loop, job_submitted, process_job,
}

abbrev JobEnds : JobDrained → Type 0
JobEnds (JobDrained.quiet x) = IsValid x.driver
JobEnds (JobDrained.returned out x) = IsValid x.driver
JobEnds (JobDrained.blocked x) = ⊥
JobEnds (JobDrained.unfinished x) = ⊥

abbrev JobAdvances : ℕ → JobStep → Type 0
JobAdvances n (JobStep.stop u) = JobEnds u
JobAdvances n (JobStep.next y) = IsValid y.driver × (load y.driver < n)

-- No send waits for good: whoever takes events out of the channel goes on, or is gone.
abbrev pub IsServed : Channel → Type 0
IsServed c = (sent : List OwnedEvent) → c.send sent ≢ never

-- The read at the end of a round ends the job: the stream has ended, the read fails, or the
-- deadline has passed.
abbrev pub IsLast : Read → Type 0
IsLast end_of_stream = Unit
IsLast (bytes_read bytes) = ⊥
IsLast (failed e) = Unit
IsLast timed_out = Unit

abbrev pub HasLast : List JobRound → Type 0
HasLast [] = ⊥
HasLast (round ∷ rounds) = IsLast round.read ⊎ HasLast rounds

-- The job has returned, and its driver is valid.
abbrev pub JobReturns : Processed → Type 0
JobReturns (Processed.returned out x) = IsValid x.driver
JobReturns (Processed.blocked x) = ⊥
JobReturns (waiting x) = ⊥

-- A round returns, or leaves a valid driver and is not the last one.
abbrev RoundEnds : Read → Processed → Type 0
RoundEnds read (Processed.returned out x) = IsValid x.driver
RoundEnds read (Processed.blocked x) = ⊥
RoundEnds read (waiting x) = IsValid x.driver × (IsLast read → ⊥)

module _ ⦃v : FixedVec⦄ ⦃c : Channel⦄ where
  write-JobAdvances :
      (w : Option ℕ) (n m : ℕ) (x : Radio) (d : Driver) (bytes : Bytes)
      → IsValid d
      → Moves n m (done d (Poll.need_tx bytes))
      → JobAdvances (n + m) (job_write_step w bytes d x)
  write-JobAdvances none n m x d bytes h (hr, ht, pos, nonempty, all) = (
    ack_tx-IsValid (length bytes) d h,
    omega (arith, ack_tx_fewer (length bytes) d nonempty pos all),
  )
  write-JobAdvances (some e) n m x d bytes h k = h

  event-JobAdvances :
      (o : Sent) (e : Event) (n : ℕ) (x : Radio) (d : Driver)
      → o ≢ never
      → IsValid d
      → load d < n
      → JobAdvances n (job_event_step o e d x)
  event-JobAdvances taken e n x d served h k = (h, k)
  event-JobAdvances no_receiver e n x d served h k = (h, k)
  event-JobAdvances never e n x d served h k = absurd (served refl)

  step-JobAdvances :
      (w : Option ℕ) (n m : ℕ) (t : Turn) (x : Radio)
      → IsServed c
      → IsValid x.driver
      → Settles t
      → Moves n m t
      → JobAdvances (n + m) (job_step w t x)
  step-JobAdvances w n m fault x served hx h k = hx
  step-JobAdvances w n m (again d) x served hx h k = absurd h
  step-JobAdvances w n m (done d Poll.idle) x served hx h k = h
  step-JobAdvances w n m (done d (Poll.need_tx bytes)) x served hx h k =
      write-JobAdvances w n m x d bytes h k
  step-JobAdvances w n m (done d (Poll.response r)) x served hx h k = h
  step-JobAdvances w n m (done d (Poll.event e)) x served hx h (hr, ht) =
      event-JobAdvances (c.send x.events) e (n + m) x d (served x.events) h (omega arith)

  after_step :
      (w : Option ℕ) (fuel n : ℕ) (s : JobStep)
      → JobAdvances n s
      → ((y : Radio) → IsValid y.driver → load y.driver < n → JobEnds (job_drain fuel w y))
      → JobEnds (elim s [ JobStep.stop out ↦ out | JobStep.next y ↦ job_drain fuel w y ])
  after_step w fuel n (JobStep.stop out) k f = k
  after_step w fuel n (JobStep.next y) (h, k) f = f y h k

  -- The inner loop ends within one turn more than there are bytes in the two queues.
  job_drain-JobEnds :
      (w : Option ℕ) (fuel : ℕ) (x : Radio)
      → IsServed c
      → IsValid x.driver
      → load x.driver < fuel
      → JobEnds (job_drain fuel w x)
  unfolding job_drain
  job_drain-JobEnds w zero x served h k = absurd (omega arith)
  job_drain-JobEnds w (suc fuel) x served h k =
      after_step w fuel (load x.driver) (job_step w (poll x.driver) x)
        (step-JobAdvances w (length x.driver.rx) (length x.driver.tx) (poll x.driver) x served h
          (poll-Settles x.driver h) (poll-Moves x.driver))
        (λ y hy less. job_drain-JobEnds w fuel y served hy (omega arith))

  job_read-RoundEnds :
      (read : Read) (x : Radio) → IsValid x.driver → RoundEnds read (job_read read x)
  job_read-RoundEnds end_of_stream x h = h
  job_read-RoundEnds (bytes_read bytes) x h = (push_rx-IsValid bytes x.driver h, λ e. e)
  job_read-RoundEnds (failed e) x h = h
  job_read-RoundEnds timed_out x h = h

  behind-RoundEnds :
      (read : Read) (u : JobDrained) → JobEnds u → RoundEnds read (behind_job_drain read u)
  behind-RoundEnds read (JobDrained.quiet x) h = job_read-RoundEnds read x h
  behind-RoundEnds read (JobDrained.returned out x) h = h
  behind-RoundEnds read (JobDrained.blocked x) h = absurd h
  behind-RoundEnds read (JobDrained.unfinished x) h = absurd h

  after :
      (read : Read) (rounds : List JobRound) (p : Processed)
      → RoundEnds read p
      → IsLast read ⊎ HasLast rounds
      → ((y : Radio) → IsValid y.driver → HasLast rounds → JobReturns (job_loop rounds y))
      → JobReturns (elim p [
        | Processed.returned out y ↦ Processed.returned out y
        | Processed.blocked y ↦ Processed.blocked y
        | waiting y ↦ job_loop rounds y
      ])
  after read rounds (Processed.returned out y) h k f = h
  after read rounds (Processed.blocked y) h k f = absurd h
  after read rounds (waiting y) (h, not_last) (inl last) f = absurd (not_last last)
  after read rounds (waiting y) (h, not_last) (inr later) f = f y h later

  job_loop-JobReturns :
      (rounds : List JobRound) (x : Radio)
      → IsServed c
      → IsValid x.driver
      → HasLast rounds
      → JobReturns (job_loop rounds x)
  unfolding job_loop
  job_loop-JobReturns [] x served h k = absurd k
  job_loop-JobReturns (round ∷ rounds) x served h k =
      let fuel = drain_fuel x in
      let w = round.write_error in
      after round.read rounds (behind_job_drain round.read (job_drain fuel w x))
        (behind-RoundEnds round.read (job_drain fuel w x)
          (job_drain-JobEnds w fuel x served h (omega arith)))
        k (λ y hy later. job_loop-JobReturns rounds y served hy later)

  submitted-JobReturns :
      (rounds : List JobRound) (x : Radio) (o : Outcome rylr998_rs.Types.Error (Unit {0}))
      → IsServed c
      → IsValid x.driver
      → HasLast rounds
      → JobReturns (job_submitted rounds x o)
  submitted-JobReturns rounds x (ok u) served h k = job_loop-JobReturns rounds x served h k
  submitted-JobReturns rounds x (err e) served h k = h
  submitted-JobReturns rounds x panic served h k = h

  -- As long as no send of an event waits for good, a well-typed job on a valid driver returns, at
  -- the latest in the first round in which the stream ends, a read fails or the deadline passes,
  -- and leaves a valid driver.
  pub process_job-JobReturns :
      (cmd : OwnedCommand) (rounds : List JobRound) (x : Radio)
      → IsServed c
      → IsTyped (as_command cmd)
      → IsValid x.driver
      → HasLast rounds
      → JobReturns (process_job cmd rounds x)
  unfolding process_job
  process_job-JobReturns cmd rounds x served typed h k =
      submitted-JobReturns rounds (record x { driver = (submit (as_command cmd) x.driver).1 })
        (submit (as_command cmd) x.driver).0 served
        (submit-IsValid (as_command cmd) x.driver typed h) k
