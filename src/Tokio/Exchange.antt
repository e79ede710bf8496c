-- ===== src/Tokio/Exchange.antt =====
-- A job of rylr998-tokio/src/lib.rs that is answered, with whatever has been received behind the
-- answer.
use rylr998_rs.Base.{
  ℕ, zero, suc, ◌+◌, ◌≤◌, ◌<◌, ◌≡◌, refl, ap, ◌∙◌, List, [], ◌∷◌, ◌++◌, Option, false, none, arith,
  Bytes, length, ok,
}
use rylr998_rs.Types.{Command, Response, Poll, IsTyped}
use rylr998_rs.FixedVec.{FixedVec}
use rylr998_rs.Encode.Wire.{wire, crlf}
use rylr998_rs.Encode.Fits.{IsBrief, wire_fits}
use rylr998_rs.Decode.Text.{response_text, IsResponse}
use rylr998_rs.Decode.Short.{IsTidy, IsLine, response_text-IsLine}
use rylr998_rs.Driver.{Driver, State, AwaitKind, kind_of, submit, push_rx, ack_tx}
use rylr998_rs.Driver.Turns.{done, resolve, poll}
use rylr998_rs.Driver.Invariant.{IsValid, wire-pos}
use rylr998_rs.Driver.Operations.{submit_fits, push_rx_fits}
use rylr998_rs.Driver.Lines.{consumed}
use rylr998_rs.Driver.Session.{IsValid-after}
use rylr998_rs.Driver.Exchange.{
  IsQuiet, Answers, IsPending, IsAwaiting, handed_out, submit-IsPending, poll-IsPending,
  ack_tx-IsAwaiting, poll-answer,
}
use rylr998_rs.Radio.{Radio, wrote, drain_fuel}
use rylr998_rs.Radio.Answering.{poll-empty}
use rylr998_rs.Owned.{from_response, OwnedCommand, as_command}
use rylr998_rs.Tokio.{
  Channel, bytes_read, JobRound, JobDrained, JobStep, job_step, Processed, waiting, job_drain,
  behind_job_drain, job_loop, job_submitted, process_job,
}

-- A round in which nothing fails and these bytes are read.
abbrev pub job_reads : Bytes → JobRound
job_reads bytes = record { write_error = none; read = bytes_read bytes }

-- The driver with a line and what is behind it received.
abbrev pub received_line : Bytes → Bytes → Driver → Driver
received_line line rest d = record d { rx = line ++ (crlf ++ rest) }

pub received-IsValid :
    (line rest : Bytes) (d : Driver)
    → IsValid d
    → length (line ++ (crlf ++ rest)) ≤ 512
    → IsValid (received_line line rest d)
received-IsValid line rest d h fit = record {
  rx_fits = fit;
  tx_fits = h.tx_fits;
  in_flight = h.in_flight;
  line_size = h.line_size;
  line_fits = h.line_fits;
  states = h.states;
}

module _ ⦃v : FixedVec⦄ ⦃c : Channel⦄ where
  -- The rest of the inner loop behind a step.
  abbrev behind_step : ℕ → Option ℕ → JobStep → JobDrained
  behind_step fuel w s = elim s as (λ u. JobDrained) [
    | JobStep.stop out ↦ out
    | JobStep.next y ↦ job_drain fuel w y
  ]

  job_next :
      (fuel : ℕ) (w : Option ℕ) (x : Radio) {y : Radio}
      → job_step w (poll x.driver) x ≡ JobStep.next y
      → job_drain (suc fuel) w x ≡ job_drain fuel w y
  unfolding job_drain
  job_next fuel w x e = ap (behind_step fuel w) e

  pub job_stop :
      (fuel : ℕ) (w : Option ℕ) (x : Radio) {t : JobDrained}
      → 0 < fuel
      → job_step w (poll x.driver) x ≡ JobStep.stop t
      → job_drain fuel w x ≡ t
  unfolding job_drain
  job_stop zero w x pos e = absurd (omega arith)
  job_stop (suc fuel) w x pos e = ap (behind_step fuel w) e

  -- The first inner loop of a job writes its command.
  job_drain-IsPending :
      (cmd : Command) (x : Radio)
      → IsPending cmd x.driver
      → job_drain (drain_fuel x) none x
        ≡ JobDrained.quiet (wrote (wire cmd) (handed_out x.driver) x)
  job_drain-IsPending cmd x p =
      let y = wrote (wire cmd) (handed_out x.driver) x in
      let a = ack_tx-IsAwaiting cmd x.driver p in
      job_next (length x.driver.rx + length x.driver.tx) none x
        (ap (λ t. job_step none t x) (poll-IsPending cmd x.driver p))
      ∙ job_stop (length x.driver.rx + length x.driver.tx) none y
          (omega (arith, ap length p.queued, wire-pos cmd))
          (ap (λ t. job_step none t y) (poll-empty y.driver a.nothing_queued a.nothing_received))

  pub receives :
      (line rest : Bytes) (d : Driver) {k : AwaitKind}
      → IsAwaiting k d
      → length (line ++ (crlf ++ rest)) ≤ 512
      → (push_rx (line ++ (crlf ++ rest)) d).1 ≡ received_line line rest d
  receives line rest d a fit =
      ap (λ o. o.1)
        (push_rx_fits (line ++ (crlf ++ rest)) d (omega (arith, ap length a.nothing_received)))
      ∙ ap (λ s. record d { rx = s ++ (line ++ (crlf ++ rest)) }) a.nothing_received

  -- The driver that has reported the answer on this line.
  abbrev pub answered_line : Bytes → Bytes → Driver → Driver
  answered_line line rest d = resolve (consumed line rest (received_line line rest d))

  pub poll_line-answer :
      (k : AwaitKind) (r : Response) (rest : Bytes) (d : Driver)
      → IsAwaiting k d
      → Answers k r
      → IsResponse r
      → IsLine (response_text r)
      → length (response_text r ++ (crlf ++ rest)) ≤ 512
      → poll (received_line (response_text r) rest d)
        ≡ done (answered_line (response_text r) rest d) (Poll.response r)
  poll_line-answer k r rest d a answers good line fit =
      poll-answer k r rest (received_line (response_text r) rest d)
        (received-IsValid (response_text r) rest d a.valid fit) a.state_is answers good
        (record {
          quiet = omega (arith, a.valid.in_flight, ap length a.nothing_queued);
          received = refl;
          one_line = line.one_line;
          short = line.short;
        })

  -- The rest of the outer loop behind a round.
  abbrev pub behind_round : List JobRound → Processed → Processed
  behind_round rounds p = elim p as (λ u. Processed) [
    | Processed.returned out y ↦ Processed.returned out y
    | Processed.blocked y ↦ Processed.blocked y
    | waiting y ↦ job_loop rounds y
  ]

  -- A job's first round writes the command; its bytes are read.
  pub first_round :
      (cmd : Command) (line rest : Bytes) (rounds : List JobRound) (x : Radio)
      → IsPending cmd x.driver
      → length (line ++ (crlf ++ rest)) ≤ 512
      → job_loop (job_reads (line ++ (crlf ++ rest)) ∷ rounds) x
        ≡ job_loop rounds (record x {
          driver = received_line line rest (ack_tx (length (wire cmd)) (handed_out x.driver));
          written = x.written ++ wire cmd;
        })
  unfolding job_loop
  first_round cmd line rest rounds x p fit =
      let sent = wrote (wire cmd) (handed_out x.driver) x in
      let a = ack_tx-IsAwaiting cmd x.driver p in
      let text = line ++ (crlf ++ rest) in
      let drained = job_drain-IsPending cmd x p in
      ap (λ u. behind_round rounds (behind_job_drain (bytes_read text) u)) drained
      ∙ ap (λ d. job_loop rounds (record sent { driver = d }))
          (receives line rest sent.driver a fit)

  -- The round in which the inner loop meets the answer.
  answered_round :
      (r : Response) (round : JobRound) (rounds : List JobRound) (x : Radio) {d : Driver}
      → poll x.driver ≡ done d (Poll.response r)
      → job_loop (round ∷ rounds) x
        ≡ Processed.returned (ok (from_response r)) (record x { driver = d })
  unfolding job_loop
  answered_round r round rounds x {d} h =
      let y = record x { driver = d } in
      let w = round.write_error in
      let drained = job_stop (drain_fuel x) w x (omega arith) (ap (λ t. job_step w t x) h) in
      ap (λ u. behind_round rounds (behind_job_drain round.read u)) drained

  -- A job is done, and these bytes have been received behind its answer.
  pub record IsDone (rest : Bytes) (cmd : Command) (x y : Radio) : Type 0 where
    pub valid : IsValid y.driver
    pub is_idle : y.driver.state ≡ State.idle
    pub received : y.driver.rx ≡ rest
    pub nothing_queued : y.driver.tx ≡ []
    pub no_reset : y.driver.awaiting_ready_as_ok ≡ false
    pub written : y.written ≡ x.written ++ wire cmd
    pub events : y.events ≡ x.events

  -- A job on a task with nothing to do writes the line of its command, and is given the answer that
  -- is read; what the same read has brought behind the answer stays received.
  pub process_job-answer :
      (cmd : OwnedCommand) (r : Response) (rest : Bytes) (round : JobRound) (rounds : List JobRound)
      (x : Radio)
      → IsQuiet x.driver
      → IsTyped (as_command cmd)
      → IsBrief (as_command cmd)
      → Answers (kind_of (as_command cmd)) r
      → IsResponse r
      → IsTidy r
      → length (response_text r ++ (crlf ++ rest)) ≤ 512
      → (y : Radio) × (process_job cmd
            (job_reads (response_text r ++ (crlf ++ rest)) ∷ round ∷ rounds)
            x
          ≡ Processed.returned (ok (from_response r)) y)
        × IsDone rest (as_command cmd) x y
  unfolding process_job
  process_job-answer owned r rest round rounds x q typed brief answers good tidy fit =
      let cmd = as_command owned in
      let line = response_text-IsLine r good tidy in
      let short = wire_fits cmd typed brief in
      let p = submit-IsPending cmd x.driver q typed short in
      let x1 = record x { driver = (submit cmd x.driver).1 } in
      let a = ack_tx-IsAwaiting cmd x1.driver p in
      let d = ack_tx (length (wire cmd)) (handed_out x1.driver) in
      let answer = poll_line-answer (kind_of cmd) r rest d a answers good line fit in
      let all = job_reads (response_text r ++ (crlf ++ rest)) ∷ round ∷ rounds in
      (
        record x {
          driver = answered_line (response_text r) rest d;
          written = x.written ++ wire cmd;
        },
        ap (λ o. job_submitted all x1 o)
              (ap (λ o. o.0)
                (submit_fits cmd x.driver q.is_idle typed
                  (omega (arith, ap length q.nothing_queued))))
            ∙ first_round cmd (response_text r) rest (round ∷ rounds) x1 p fit
            ∙ answered_round r round rounds _ answer,
        record {
          valid =
              IsValid-after (received_line (response_text r) rest d)
                (received-IsValid (response_text r) rest d a.valid fit) answer;
          is_idle = refl;
          received = refl;
          nothing_queued = a.nothing_queued;
          no_reset = refl;
          written = refl;
          events = refl;
        },
      )
