-- ===== src/Tokio/Channels.antt =====
-- `Job`, `request` and `next_event` of rylr998-tokio/src/lib.rs: what `AsyncRadio` does with the channels
-- to its task. What Tokio's channels and timers answer is an argument.
use rylr998_rs.Base.{
  ℕ, ◌≤◌, ◌<◌, leb, arith, ◌≡◌, refl, ap, ◌∙◌, Bool, true, false, List, ◌∷◌, ◌++◌, [],
  if◌then◌else◌, length, Outcome, ok, err, panic,
}
use rylr998_rs.Types.{Response, OwnedEvent, IsTyped}
use rylr998_rs.FixedVec.{FixedVec}
use rylr998_rs.Encode.Wire.{crlf}
use rylr998_rs.Encode.Fits.{IsBrief}
use rylr998_rs.Decode.Text.{response_text, IsResponse}
use rylr998_rs.Decode.Short.{IsTidy}
use rylr998_rs.Driver.{kind_of}
use rylr998_rs.Driver.Exchange.{IsQuiet, Answers}
use rylr998_rs.Owned.{Error, OwnedResponse, from_response, OwnedCommand, as_command}
use rylr998_rs.Radio.{Radio}
use rylr998_rs.Tokio.{Channel, JobRound, Processed, waiting, process_job}
use rylr998_rs.Tokio.Methods.{Request}
use rylr998_rs.Tokio.Exchange.{job_reads, process_job-answer}

-- `Job`, but for the sender of its reply.
pub record Job : Type 0 where
  pub cmd : OwnedCommand
  pub timeout : ℕ

-- `timeout(timeout, reply_rx).await`: `Ok(Ok(inner))`, `Ok(Err(_))` and `Err(_)`.
pub data Replied : Type 0 where
  inner : Outcome Error OwnedResponse → Replied
  dropped : Replied
  elapsed : Replied

-- The `match` of `request` on it.
abbrev pub match_reply : Replied → Outcome Error OwnedResponse
match_reply (inner out) = out
match_reply dropped = err Error.closed
match_reply elapsed = err Error.timeout

-- `request`, on whether the task takes the job and on what is replied.
unfoldable pub request : (Job → Bool) → (Job → Replied) → Request
request taken replied cmd timeout =
    let job : Job = record { cmd = cmd; timeout = timeout } in
    if taken job then match_reply (replied job) else err Error.closed

-- `timeout(timeout, self.event_rx.recv()).await`: `Ok(Some(e))`, `Ok(None)` and `Err(_)`.
pub data Received : Type 0 where
  event : OwnedEvent → Received
  closed : Received
  late : Received

-- `AsyncRadio::next_event`.
unfoldable pub next_event : (ℕ → Received) → ℕ → Outcome Error OwnedEvent
next_event received timeout = elim (received timeout) [
  | event e ↦ ok e
  | closed ↦ err Error.closed
  | late ↦ err Error.timeout
]

-- What `run_task` replies to a job: the result of `process_job`, or nothing if it panics.
abbrev pub reply_of : Processed → Replied
reply_of (Processed.returned (ok r) x) = inner (ok r)
reply_of (Processed.returned (err e) x) = inner (err e)
reply_of (Processed.returned panic x) = dropped
reply_of (Processed.blocked x) = elapsed
reply_of (waiting x) = elapsed

module _ ⦃v : FixedVec⦄ ⦃c : Channel⦄ where
  -- What the task has replied when the timer of `request` fires; `at` is the time from the start of
  -- that timer to the end of the job.
  abbrev pub served : ℕ → List JobRound → Radio → Job → Replied
  served at rounds x job =
      if leb job.timeout at then elapsed else reply_of (process_job job.cmd rounds x)

  -- A request that a task with nothing to do takes returns the answer, if the first read of the
  -- job brings it and the job is done before the timer of the request fires, whatever the same
  -- read brings behind the answer. The command and the answer are well-typed, the answer's line
  -- has no `\r` in it and is at most 288 bytes long, all that is read fits the receive queue, and
  -- the command's line fits the transmit queue.
  pub request-served :
      (cmd : OwnedCommand) (r : Response) (rest : rylr998_rs.Base.Bytes) (round : JobRound)
      (rounds : List JobRound) (timeout at : ℕ) (x : Radio)
      → IsQuiet x.driver
      → IsTyped (as_command cmd)
      → IsBrief (as_command cmd)
      → Answers (kind_of (as_command cmd)) r
      → IsResponse r
      → IsTidy r
      → length (response_text r ++ (crlf ++ rest)) ≤ 512
      → at < timeout
      → request
          (λ job. true)
          (served at (job_reads (response_text r ++ (crlf ++ rest)) ∷ round ∷ rounds) x)
          cmd
          timeout
        ≡ ok (from_response r)
  unfolding request
  request-served cmd r rest round rounds timeout at x q typed brief answers good tidy fit early =
      let rs = job_reads (response_text r ++ (crlf ++ rest)) ∷ round ∷ rounds in
      let (y, answered, is_done) =
        process_job-answer cmd r rest round rounds x q typed brief answers good tidy fit in
      let in_time : leb timeout at ≡ false = ground arith in
      ap (λ b. match_reply (if b then elapsed else reply_of (process_job cmd rs x))) in_time
      ∙ ap (λ p. match_reply (reply_of p)) answered
