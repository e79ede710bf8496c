-- ===== src/Tokio/Behind.antt =====
-- The events that a read of `run_task` in rylr998-tokio/src/lib.rs brings together with the answer to a
-- job.
use rylr998_rs.Base.{◌+◌, arith, ◌≤◌, ◌≡◌, refl, ap, ◌∙◌, List, [], ◌∷◌, ◌++◌, All, Bytes, length}
use rylr998_rs.Types.{Event, Response, IsTyped}
use rylr998_rs.FixedVec.{FixedVec}
use rylr998_rs.Encode.Wire.{crlf}
use rylr998_rs.Encode.Fits.{IsBrief}
use rylr998_rs.Decode.Text.{response_text, IsResponse}
use rylr998_rs.Decode.Short.{IsTidy}
use rylr998_rs.Driver.{kind_of}
use rylr998_rs.Driver.Exchange.{IsQuiet, Answers}
use rylr998_rs.Owned.{OwnedCommand, as_command}
use rylr998_rs.Radio.{Radio}
use rylr998_rs.Tokio.{Channel, bytes_read, JobRound, process_job}
use rylr998_rs.Tokio.Tasks.{
  Selected, job, read, Task, running, ended, panicked, unfinished, after_job, idle_read,
  select_step, run_task,
}
use rylr998_rs.Tokio.Exchange.{job_reads, process_job-answer}
use rylr998_rs.Driver.Batch.{IsHeard, batch_text, Holds}
use rylr998_rs.Tokio.Events.{Takes, Sends, idle_read-batch}

module _ ⦃v : FixedVec⦄ ⦃c : Channel⦄ where
  abbrev goes_on : List Selected → Task → Task
  goes_on selected t = elim t as (λ u. Task) [
    | running y ↦ run_task selected y
    | ended y ↦ ended y
    | panicked y ↦ panicked y
    | Task.blocked y ↦ Task.blocked y
    | unfinished y ↦ unfinished y
  ]

  -- The job whose answer is read together with the lines of these events.
  abbrev pub answered_job :
      OwnedCommand → Response → List Event → JobRound → List JobRound → Selected
  answered_job cmd r es round rounds =
      job cmd (job_reads (response_text r ++ (crlf ++ batch_text es)) ∷ round ∷ rounds)

  job_step :
      (cmd : OwnedCommand) (rounds : List JobRound) (selected : List Selected) (x : Radio)
      {t : Task}
      → after_job (process_job cmd rounds x) ≡ t
      → run_task (job cmd rounds ∷ selected) x ≡ goes_on selected t
  unfolding run_task select_step
  job_step cmd rounds selected x h = ap (goes_on selected) h

  read_step :
      (bytes : Bytes) (x : Radio)
      → run_task (read (bytes_read bytes) ∷ []) x ≡ goes_on [] (idle_read (bytes_read bytes) x)
  unfolding run_task select_step
  read_step bytes x = refl

  ends : (y : Radio) → goes_on [] (running y) ≡ running y
  unfolding run_task
  ends y = refl

  -- Events whose lines the read of the answer to a job brings behind the answer are not sent on
  -- when the job is done: their lines stay received, and the next read, which brings the lines of
  -- further events, sends them first. The task has nothing to do in front of the job, the job, the
  -- answer and the events are well-typed, no line of the answer or of an event has a `\r` in it or
  -- is longer than 288 bytes, what is received at a time fits the receive queue, the command's
  -- line fits the transmit queue, and the bounded channel takes each event.
  pub run_task-behind_answer :
      (cmd : OwnedCommand) (r : Response) (es fs : List Event) (round : JobRound)
      (rounds : List JobRound) (x : Radio)
      → IsQuiet x.driver
      → IsTyped (as_command cmd)
      → IsBrief (as_command cmd)
      → Answers (kind_of (as_command cmd)) r
      → IsResponse r
      → IsTidy r
      → All IsHeard (es ++ fs)
      → length (response_text r ++ (crlf ++ batch_text es)) ≤ 512
      → length (batch_text (es ++ fs)) ≤ 512
      → Takes (length x.events + length (es ++ fs)) c
      → (y : Radio) × (run_task (answered_job cmd r es round rounds ∷ []) x ≡ running y)
        × (y.events ≡ x.events)
        × Holds es [] y.driver
        × Sends
            (es ++ fs)
            (run_task
              (answered_job cmd r es round rounds ∷ read (bytes_read (batch_text fs)) ∷ [])
              x)
            y
  run_task-behind_answer cmd r es fs round rounds x q typed brief answers good tidy heard fit fits
        room =
      let (y, answered, is_done) =
        process_job-answer cmd r (batch_text es) round rounds x q typed brief answers good tidy
          fit in
      let holds : Holds es [] y.driver = record {
        valid = is_done.valid;
        received = is_done.received;
        nothing_queued = is_done.nothing_queued;
        no_reset = is_done.no_reset;
      } in
      let js = job_reads (response_text r ++ (crlf ++ batch_text es)) ∷ round ∷ rounds in
      let (z, sends, events, left, written) =
        idle_read-batch es fs y holds heard fits
          (λ s less. room s (omega (arith, less, ap length is_done.events))) in
      (
        y,
        job_step cmd js [] x (ap after_job answered) ∙ ends y,
        is_done.events,
        holds,
        (
          z,
          job_step cmd js (read (bytes_read (batch_text fs)) ∷ []) x (ap after_job answered)
              ∙ read_step (batch_text fs) y
              ∙ ap (goes_on []) sends
              ∙ ends z,
          events,
          left,
          written,
        ),
      )
