-- ===== src/Radio/Answering.antt =====
-- A method of rylr998-std/src/radio.rs whose command is answered before its deadline.
use rylr998_rs.Base.{
  ℕ, zero, suc, ◌+◌, ◌≤◌, ◌<◌, ◌≡◌, refl, sym, ap, ◌∙◌, List, [], ◌∷◌, ◌++◌, Option, none, some,
  arith, le→ltb, Bytes, length, length-append, Lacks, Outcome, ok,
}
use rylr998_rs.Types.{Command, Response, Poll, IsTyped}
use rylr998_rs.FixedVec.{FixedVec}
use rylr998_rs.Encode.Wire.{wire, crlf}
use rylr998_rs.Decode.Text.{response_text, IsResponse}
use rylr998_rs.Driver.{
  Driver, AwaitKind, tx_capacity, line_capacity, is_empty, kind_of, submit, push_rx, ack_tx,
}
use rylr998_rs.Driver.Turns.{done, poll_turn, poll}
use rylr998_rs.Driver.Invariant.{wire-pos}
use rylr998_rs.Driver.Operations.{submit_fits, push_rx_fits}
use rylr998_rs.Driver.Lines.{poll_done}
use rylr998_rs.Driver.Exchange.{
  IsQuiet, Answers, IsPending, IsAwaiting, handed_out, submit-IsPending, poll-IsPending,
  ack_tx-IsAwaiting,
}
use rylr998_rs.Driver.Session.{exchange}
use rylr998_rs.Radio.{
  Error, Radio, Round, data_read, Drained, quiet, Step, stop, next, Pumped, waiting, wrote,
  turn_step, drain, drain_fuel, take_in, received, end_round, behind_drain, round_turn, pump_until,
}
use rylr998_rs.Radio.Methods.{submitted, request}

-- A round in which nothing fails and these bytes are read.
abbrev pub reads : Bytes → ℕ → Round
reads bytes now = record { write_error = none; read = data_read bytes; now = now }

module _ ⦃v : FixedVec⦄ where
  pub drain_next :
      {R : Type 0} (want : Response → Option (Outcome Error R)) (w : Option ℕ) (fuel : ℕ)
      (x : Radio) {y : Radio}
      → turn_step want w (poll x.driver) x ≡ next y
      → drain (suc fuel) want w x ≡ drain fuel want w y
  unfolding drain
  drain_next {R = R} want w fuel x h =
      ap
        (λ (s : Step R). elim s as (λ u. Drained R) [
          | stop out ↦ out
          | next y ↦ drain fuel want w y
        ])
        h

  pub drain_stop :
      {R : Type 0} (want : Response → Option (Outcome Error R)) (w : Option ℕ) (fuel : ℕ)
      (x : Radio) {t : Drained R}
      → 0 < fuel
      → turn_step want w (poll x.driver) x ≡ stop t
      → drain fuel want w x ≡ t
  unfolding drain
  drain_stop want w zero x pos h = absurd (omega arith)
  drain_stop {R = R} want w (suc fuel) x pos h =
      ap
        (λ (s : Step R). elim s as (λ u. Drained R) [
          | stop out ↦ out
          | next y ↦ drain fuel want w y
        ])
        h

  empty_turn : (d : Driver) → d.tx ≡ [] → d.rx ≡ [] → poll_turn d ≡ done d Poll.idle
  unfolding poll_turn
  empty_turn d sent read =
      rw (le→ltb d.tx_in_flight (length d.tx) (omega (arith, ap length sent)), ap is_empty read)

  -- A driver with empty queues is idle.
  pub poll-empty : (d : Driver) → d.tx ≡ [] → d.rx ≡ [] → poll d ≡ done d Poll.idle
  poll-empty d sent read = poll_done d (empty_turn d sent read)

  poll-IsAwaiting : (d : Driver) {k : AwaitKind} → IsAwaiting k d → poll d ≡ done d Poll.idle
  poll-IsAwaiting d a = poll-empty d a.nothing_queued a.nothing_received

  -- The inner loop of a request's first round writes the command, and then there is nothing to do.
  pub drain-IsPending :
      {R : Type 0} (want : Response → Option (Outcome Error R)) (cmd : Command) (x : Radio)
      → IsPending cmd x.driver
      → drain (drain_fuel x) want none x ≡ quiet (wrote (wire cmd) (handed_out x.driver) x)
  drain-IsPending want cmd x p =
      drain_next want none (length x.driver.rx + length x.driver.tx) x
        (ap (λ t. turn_step want none t x) (poll-IsPending cmd x.driver p))
      ∙ drain_stop want none (length x.driver.rx + length x.driver.tx)
          (wrote (wire cmd) (handed_out x.driver) x)
          (omega (arith, ap length p.queued, wire-pos cmd))
          (ap (λ t. turn_step want none t (wrote (wire cmd) (handed_out x.driver) x))
            (poll-IsAwaiting (ack_tx (length (wire cmd)) (handed_out x.driver))
              (ack_tx-IsAwaiting cmd x.driver p)))

  -- Bytes that fit are taken in.
  pub take_in_fits :
      (bytes : Bytes) (x : Radio)
      → length x.driver.rx + length bytes ≤ rylr998_rs.Driver.rx_capacity
      → take_in (data_read bytes) x ≡ (ok tt, record x { driver = (push_rx bytes x.driver).1 })
  unfolding take_in
  take_in_fits bytes x fit =
      let eq = push_rx_fits bytes x.driver fit in
      ap (λ o. received o x) eq
      ∙ ap (λ d. (ok tt, record x { driver = d })) (sym (ap (λ o. o.1) eq))

  pub before_deadline :
      (R : Type 0) (deadline now : ℕ) (z : Radio)
      → now < deadline
      → ◌≡◌ {A = Pumped R} (end_round deadline now (ok tt, z)) (waiting z)
  before_deadline R deadline now z h = ground arith

  -- The first round of a method writes its command, and reads.
  pub answering_round :
      {R : Type 0} (deadline : ℕ) (want : Response → Option (Outcome Error R)) (cmd : Command)
      (bytes : Bytes) (now : ℕ) (x : Radio)
      → IsPending cmd x.driver
      → now < deadline
      → length bytes ≤ rylr998_rs.Driver.rx_capacity
      → round_turn deadline want (reads bytes now) x
        ≡ waiting (record x {
          driver = (push_rx bytes (ack_tx (length (wire cmd)) (handed_out x.driver))).1;
          written = x.written ++ wire cmd;
        })
  unfolding round_turn
  answering_round deadline want cmd bytes now x p early fit =
      let sent = wrote (wire cmd) (handed_out x.driver) x in
      let a = ack_tx-IsAwaiting cmd x.driver p in
      ap (behind_drain deadline (reads bytes now)) (drain-IsPending want cmd x p)
      ∙ ap (end_round deadline now)
          (take_in_fits bytes sent (omega (arith, ap length a.nothing_received)))
      ∙ before_deadline _ deadline now _ early

  pub go_on :
      {R : Type 0} (deadline : ℕ) (want : Response → Option (Outcome Error R)) (round : Round)
      (rounds : List Round) (x : Radio) {y : Radio}
      → round_turn deadline want round x ≡ waiting y
      → pump_until deadline want (round ∷ rounds) x ≡ pump_until deadline want rounds y
  unfolding pump_until
  go_on {R = R} deadline want round rounds x h =
      ap
        (λ (t : Pumped R). elim t as (λ u. Pumped R) [
          | Pumped.returned out y ↦ Pumped.returned out y
          | waiting y ↦ pump_until deadline want rounds y
        ])
        h

  pub answered_round :
      {R : Type 0} (deadline : ℕ) (want : Response → Option (Outcome Error R)) (round : Round)
      (rounds : List Round) (x : Radio) (r : Response) {d : Driver} {out : Outcome Error R}
      → poll x.driver ≡ done d (Poll.response r)
      → want r ≡ some out
      → pump_until deadline want (round ∷ rounds) x ≡ Pumped.returned out (record x { driver = d })
  unfolding pump_until round_turn
  answered_round {R = R} deadline want round rounds x r {d} {out} h e =
      let answered_step : turn_step want round.write_error (poll x.driver) x
          ≡ stop (Drained.returned out (record x { driver = d })) =
        ap (λ t. turn_step want round.write_error t x) h ∙ rw e refl in
      let stopped =
        drain_stop want round.write_error (drain_fuel x) x (omega arith) answered_step in
      ap
        (λ (t : Pumped R). elim t as (λ u. Pumped R) [
          | Pumped.returned o y ↦ Pumped.returned o y
          | waiting y ↦ pump_until deadline want rounds y
        ])
        (ap (behind_drain deadline round) stopped)

  -- A method on a radio with nothing to do, whose command's line fits, writes that line; if the line
  -- of an answer to it (with no `\r` in it, and no longer than the line buffer) is read before the
  -- deadline, the method returns what its `want` makes of the answer, in the next round, whatever the
  -- port would have answered there, and the radio has nothing to do again.
  pub request-answer :
      {R : Type 0} (cmd : Command) (want : Response → Option (Outcome Error R))
      (timeout start now : ℕ) (round : Round) (rounds : List Round) (r : Response) (x : Radio)
      {out : Outcome Error R}
      → IsQuiet x.driver
      → IsTyped cmd
      → length (wire cmd) ≤ tx_capacity
      → Answers (kind_of cmd) r
      → IsResponse r
      → Lacks b'\r' (response_text r)
      → length (response_text r) ≤ line_capacity
      → want r ≡ some out
      → now < start + timeout
      → (y : Radio) × (request cmd want timeout start
            (reads (response_text r ++ crlf) now ∷ round ∷ rounds)
            x
          ≡ Pumped.returned out y)
        × IsQuiet y.driver
        × (y.written ≡ x.written ++ wire cmd)
        × (y.events ≡ x.events)
  unfolding request
  request-answer cmd want timeout start now round rounds r x q typed fit answers good one_line short
        e early =
      let p = submit-IsPending cmd x.driver q typed fit in
      let x1 = record x { driver = (submit cmd x.driver).1 } in
      let deadline = start + timeout in
      let (n, d, answer, free) = exchange cmd r x.driver q typed fit answers good one_line short in
      (
        record x { driver = d; written = x.written ++ wire cmd },
        ap
              (λ o.
                submitted deadline want (reads (response_text r ++ crlf) now ∷ round ∷ rounds) x1 o)
              (ap (λ o. o.0)
                (submit_fits cmd x.driver q.is_idle typed
                  (omega (arith, ap length q.nothing_queued))))
            ∙ go_on deadline want _ (round ∷ rounds) x1 (
                answering_round deadline want cmd (response_text r ++ crlf) now x1 p early
                  (omega (arith, length-append (response_text r) crlf)))
            ∙ answered_round deadline want round rounds _ r answer e,
        free,
        refl,
        refl,
      )
