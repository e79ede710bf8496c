-- ===== src/Radio/Interleaved.antt =====
-- A method of rylr998-std/src/radio.rs that meets events before the answer to its command.
use rylr998_rs.Base.{
  ℕ, zero, suc, ◌+◌, ◌-◌, ◌≤◌, ◌<◌, ◌≡◌, refl, sym, ap, ◌∙◌, false, List, [], ◌∷◌, ◌++◌,
  append_assoc, append-nil, Option, some, map, arith, All, Bytes, length, Outcome,
}
use rylr998_rs.Types.{Command, Response, Event, IsTyped, into_owned}
use rylr998_rs.FixedVec.{FixedVec}
use rylr998_rs.Encode.Wire.{wire, crlf}
use rylr998_rs.Encode.Fits.{IsBrief, wire_fits}
use rylr998_rs.Decode.Text.{response_text, IsResponse}
use rylr998_rs.Decode.Short.{IsTidy, IsLine, response_text-IsLine}
use rylr998_rs.Driver.{State, AwaitKind, kind_of, is_factory_reset, submit, ack_tx}
use rylr998_rs.Driver.Turns.{resolve, poll}
use rylr998_rs.Driver.Operations.{submit_fits, push_rx_fits}
use rylr998_rs.Driver.Lines.{consumed}
use rylr998_rs.Driver.Exchange.{
  IsQuiet, Answers, handed_out, submit-IsPending, ack_tx-IsAwaiting, sent-flag, poll-answer,
}
use rylr998_rs.Driver.Batch.{
  IsHeard, batch_then, length-batch_then, Holds, IsListening, reported, reported-Holds, receiving,
  receiving-Holds, poll-Holds,
}
use rylr998_rs.Driver.Session.{IsValid-after}
use rylr998_rs.Radio.{
  Error, Radio, Round, Drained, Pumped, stop, turn_step, drain, drain_fuel, behind_drain,
  round_turn, pump_until,
}
use rylr998_rs.Radio.Methods.{submitted, request}
use rylr998_rs.Radio.Answering.{reads, drain_next, drain_stop, answering_round, go_on}
use rylr998_rs.Radio.Silence.{stops}

module _ ⦃v : FixedVec⦄ where
  -- The radio that has reported these events and keeps them.
  abbrev told : List Event → Bytes → Radio → Radio
  told [] rest x = x
  told (e ∷ es) rest x =
      told es rest
        (record x { driver = reported e es rest x.driver; events = x.events ++ into_owned e ∷ [] })

  -- What is left of a radio, once it has reported the events before this text.
  record Told (es : List Event) (rest : Bytes) (x y : Radio) : Type 0 where
    holds : Holds [] rest y.driver
    state : y.driver.state ≡ x.driver.state
    events : y.events ≡ x.events ++ map into_owned es
    written : y.written ≡ x.written

  told-Told :
      (es : List Event) (rest : Bytes) (x : Radio)
      → Holds es rest x.driver
      → All IsHeard es
      → Told es rest x (told es rest x)
  told-Told [] rest x h heard = record {
    holds = h;
    state = refl;
    events = sym (append-nil x.events);
    written = refl;
  }
  told-Told (e ∷ es) rest x h (first, others) =
      let y = record x {
        driver = reported e es rest x.driver;
        events = x.events ++ into_owned e ∷ [];
      } in
      let t = told-Told es rest y (reported-Holds e es rest x.driver h first) others in
      record {
        holds = t.holds;
        state = t.state;
        events = t.events ∙ append_assoc x.events (into_owned e ∷ []) (map into_owned es);
        written = t.written;
      }

  -- The inner loop reports the events, one in each turn.
  drain-told :
      {R : Type 0} (want : Response → Option (Outcome Error R)) (w : Option ℕ) (es : List Event)
      (rest : Bytes) (fuel : ℕ) (x : Radio)
      → Holds es rest x.driver
      → All IsHeard es
      → length es ≤ fuel
      → drain fuel want w x ≡ drain (fuel - length es) want w (told es rest x)
  drain-told want w [] rest fuel x h heard enough = ap (λ n. drain n want w x) (omega arith)
  drain-told want w (e ∷ es) rest zero x h heard enough = absurd (omega arith)
  drain-told want w (e ∷ es) rest (suc fuel) x h (first, others) enough =
      let y = record x {
        driver = reported e es rest x.driver;
        events = x.events ++ into_owned e ∷ [];
      } in
      drain_next want w fuel x
        (ap (λ t. turn_step want w t x) (poll-Holds e es rest x.driver h first))
      ∙ drain-told want w es rest fuel y (reported-Holds e es rest x.driver h first) others
          (omega arith)
      ∙ ap (λ n. drain n want w (told es rest y)) (omega arith)

  -- The round in which the inner loop meets the events and then the answer.
  interleaved_round :
      {R : Type 0} (deadline : ℕ) (want : Response → Option (Outcome Error R)) (round : Round)
      (rounds : List Round) (k : AwaitKind) (r : Response) (es : List Event) (x : Radio)
      {out : Outcome Error R}
      → Holds es (response_text r ++ (crlf ++ [])) x.driver
      → All IsHeard es
      → x.driver.state ≡ State.awaiting k
      → Answers k r
      → IsResponse r
      → IsLine (response_text r)
      → want r ≡ some out
      → (y : Radio) × (pump_until deadline want (round ∷ rounds) x ≡ Pumped.returned out y)
        × IsQuiet y.driver
        × (y.events ≡ x.events ++ map into_owned es)
        × (y.written ≡ x.written)
  unfolding round_turn
  interleaved_round deadline want round rounds k r es x {out} h heard state answers good line e =
      let rest = response_text r ++ (crlf ++ []) in
      let y = told es rest x in
      let t = told-Told es rest x h heard in
      let w = round.write_error in
      let answer =
        poll-answer k r [] y.driver t.holds.valid (t.state ∙ state) answers good (record {
          quiet = omega (arith, t.holds.valid.in_flight, ap length t.holds.nothing_queued);
          received = t.holds.received;
          one_line = line.one_line;
          short = line.short;
        }) in
      let d = resolve (consumed (response_text r) [] y.driver) in
      let room = length-batch_then es rest in
      let answered_step : turn_step want w (poll y.driver) y
          ≡ stop (Drained.returned out (record y { driver = d })) =
        ap (λ t. turn_step want w t y) answer ∙ rw e refl in
      let drained =
        drain-told want w es rest (drain_fuel x) x h heard
          (omega (arith, room, ap length h.received))
        ∙ drain_stop want w (drain_fuel x - length es) y (omega (arith, room, ap length h.received))
            answered_step in
      (
        record y { driver = d },
        stops deadline want round rounds x (ap (behind_drain deadline round) drained),
        record {
          valid = IsValid-after y.driver t.holds.valid answer;
          is_idle = refl;
          nothing_received = refl;
          nothing_queued = t.holds.nothing_queued;
        },
        t.events,
        t.written,
      )

  -- A method, other than a factory reset, on a radio with nothing to do whose first read brings,
  -- before its deadline, the lines of some events and then that of an answer, returns what its
  -- `want` makes of the answer, has kept the events in their order, and the radio has nothing to
  -- do again. The command, the events and the answer are well-typed, no line of an event or of the
  -- answer has a `\r` in it or is longer than 288 bytes, these lines together fit the receive
  -- queue, and the command's line fits the transmit queue.
  pub request-events :
      {R : Type 0} (cmd : Command) (want : Response → Option (Outcome Error R))
      (timeout start now : ℕ) (round : Round) (rounds : List Round) (es : List Event) (r : Response)
      (x : Radio) {out : Outcome Error R}
      → IsQuiet x.driver
      → IsTyped cmd
      → IsBrief cmd
      → is_factory_reset cmd ≡ false
      → All IsHeard es
      → Answers (kind_of cmd) r
      → IsResponse r
      → IsTidy r
      → length (batch_then es (response_text r ++ (crlf ++ []))) ≤ 512
      → want r ≡ some out
      → now < start + timeout
      → (y : Radio) × (request cmd want timeout start
            (reads (batch_then es (response_text r ++ (crlf ++ []))) now ∷ round ∷ rounds)
            x
          ≡ Pumped.returned out y)
        × IsQuiet y.driver
        × (y.events ≡ x.events ++ map into_owned es)
        × (y.written ≡ x.written ++ wire cmd)
  unfolding request
  request-events cmd want timeout start now round rounds es r x q typed brief plain heard answers
        good tidy fit e early =
      let deadline = start + timeout in
      let bytes = batch_then es (response_text r ++ (crlf ++ [])) in
      let short = wire_fits cmd typed brief in
      let p = submit-IsPending cmd x.driver q typed short in
      let x1 = record x { driver = (submit cmd x.driver).1 } in
      let d = ack_tx (length (wire cmd)) (handed_out x1.driver) in
      let a = ack_tx-IsAwaiting cmd x1.driver p in
      let listens : IsListening d = record {
        valid = a.valid;
        received = a.nothing_received;
        nothing_queued = a.nothing_queued;
        no_reset = sent-flag cmd x.driver q typed short ∙ plain;
      } in
      let x2 = record x { driver = receiving bytes d; written = x.written ++ wire cmd } in
      let (y, returns, quiet, events, written) =
        interleaved_round deadline want round rounds (kind_of cmd) r es x2
          (receiving-Holds es (response_text r ++ (crlf ++ [])) d listens fit) heard a.state_is
          answers good (response_text-IsLine r good tidy) e in
      (
        y,
        ap (λ o. submitted deadline want (reads bytes now ∷ round ∷ rounds) x1 o)
              (ap (λ o. o.0)
                (submit_fits cmd x.driver q.is_idle typed
                  (omega (arith, ap length q.nothing_queued))))
            ∙ go_on deadline want _ (round ∷ rounds) x1
                (answering_round deadline want cmd bytes now x1 p early fit)
            ∙ ap (λ d. pump_until deadline want (round ∷ rounds) (record x2 { driver = d }))
                (ap (λ o. o.1) (push_rx_fits bytes d (omega (arith, ap length a.nothing_received)))
                  ∙ ap (λ s. record d { rx = s ++ bytes }) a.nothing_received)
            ∙ returns,
        quiet,
        events,
        written,
      )
