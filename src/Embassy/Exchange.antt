-- ===== src/Embassy/Exchange.antt =====
-- A method of rylr998-embassy/src/lib.rs that is answered, and `next_event` on an event.
use rylr998_rs.Base.{
  ℕ, zero, suc, ◌+◌, ◌-◌, ◌≤◌, ◌<◌, ◌≡◌, refl, sym, ap, ap₂, append-nil, append_assoc, ◌∙◌, false,
  List, [], ◌∷◌, ◌++◌, Option, none, some, arith, All, All-of, Bytes, length, Outcome,
}
use rylr998_rs.Types.{Command, Response, Event, IsTyped}
use rylr998_rs.FixedVec.{FixedVec}
use rylr998_rs.Encode.Wire.{wire, crlf}
use rylr998_rs.Encode.Fits.{IsBrief, wire_fits}
use rylr998_rs.Decode.Text.{response_text, IsResponse}
use rylr998_rs.Decode.Short.{IsTidy, IsLine, response_text-IsLine}
use rylr998_rs.Driver.{Driver, State, AwaitKind, kind_of, is_factory_reset, submit, ack_tx}
use rylr998_rs.Driver.Turns.{resolve}
use rylr998_rs.Driver.Invariant.{wire-pos}
use rylr998_rs.Driver.Operations.{submit_fits}
use rylr998_rs.Driver.Lines.{consumed}
use rylr998_rs.Driver.Exchange.{
  IsQuiet, Answers, IsPending, handed_out, submit-IsPending, poll-IsPending, ack_tx-IsAwaiting,
  sent-flag, poll-answer,
}
use rylr998_rs.Driver.Session.{IsValid-after}
use rylr998_rs.Driver.Batch.{
  IsHeard, batch_then, length-batch_then, Holds, IsListening, reported, reported-Holds, receiving,
  receiving-Holds, poll-Holds,
}
use rylr998_rs.Radio.Answering.{poll-empty}
use rylr998_rs.Embassy.{
  UartError, UartRadio, UartRound, UartDrained, UartPumped, Handlers, uart_step, uart_drain,
  uart_fuel, handled_step,
}
use rylr998_rs.Embassy.Methods.{pump_until, submitted, request}
use rylr998_rs.Embassy.Answering.{uart_reads, uart_next, uart_stop, uart_reading, uart_returning}

-- The driver that has reported these events, and received this text behind them.
abbrev pub told_by : List Event → Bytes → Driver → Driver
told_by [] rest d = d
told_by (e ∷ es) rest d = told_by es rest (reported e es rest d)

pub told_by-Holds :
    (es : List Event) (rest : Bytes) (d : Driver)
    → Holds es rest d
    → All IsHeard es
    → Holds [] rest (told_by es rest d) × ((told_by es rest d).state ≡ d.state)
told_by-Holds [] rest d h heard = (h, refl)
told_by-Holds (e ∷ es) rest d h (first, others) =
    told_by-Holds es rest (reported e es rest d) (reported-Holds e es rest d h first) others

module _ ⦃v : FixedVec⦄ where
  -- The inner loop passes over events that its handler takes nothing of.
  pub uart_drain-told :
      {R : Type 0} (f : Handlers R) (w : Option ℕ) (es : List Event) (rest : Bytes) (fuel : ℕ)
      (x : UartRadio)
      → All (λ e. f.on_event e ≡ none) es
      → Holds es rest x.driver
      → All IsHeard es
      → length es ≤ fuel
      → uart_drain fuel f w x
        ≡ uart_drain
            (fuel - length es)
            f
            w
            (record x { driver = told_by es rest x.driver; told = x.told ++ es })
  uart_drain-told f w [] rest fuel x silent h heard enough =
      ap (λ n. uart_drain n f w x) (omega arith)
      ∙ ap (λ l. uart_drain (fuel - 0) f w (record x { told = l })) (sym (append-nil x.told))
  uart_drain-told f w (e ∷ es) rest zero x silent h heard enough = absurd (omega arith)
  uart_drain-told f w (e ∷ es) rest (suc fuel) x (nothing, silent) h (first, others) enough =
      let d = reported e es rest x.driver in
      let x' = record x { told = x.told ++ e ∷ [] } in
      let y = record x' { driver = d } in
      uart_next f fuel w x (
        ap (λ t. uart_step f w t x) (poll-Holds e es rest x.driver h first)
        ∙ ap (λ o. handled_step o d x') nothing)
      ∙ uart_drain-told f w es rest fuel y silent (reported-Holds e es rest x.driver h first) others
          (omega arith)
      ∙ ap₂ (λ n l. uart_drain n f w (record x { driver = told_by es rest d; told = l }))
          (omega arith) (append_assoc x.told (e ∷ []) es)

  -- The first inner loop of a method writes its command.
  uart_drain-IsPending :
      {R : Type 0} (f : Handlers R) (cmd : Command) (x : UartRadio)
      → IsPending cmd x.driver
      → uart_drain (uart_fuel x) f none x
        ≡ UartDrained.quiet (record x {
          driver = ack_tx (length (wire cmd)) (handed_out x.driver);
          written = x.written ++ wire cmd;
        })
  uart_drain-IsPending f cmd x p =
      let y = record x {
        driver = ack_tx (length (wire cmd)) (handed_out x.driver);
        written = x.written ++ wire cmd;
      } in
      let a = ack_tx-IsAwaiting cmd x.driver p in
      uart_next f (length x.driver.rx + length x.driver.tx) none x
        (ap (λ t. uart_step f none t x) (poll-IsPending cmd x.driver p))
      ∙ uart_stop f (length x.driver.rx + length x.driver.tx) none y
          (omega (arith, ap length p.queued, wire-pos cmd))
          (ap (λ t. uart_step f none t y) (poll-empty y.driver a.nothing_queued a.nothing_received))

  -- The inner loop meets the events and then the answer.
  uart_drain-answer :
      {R : Type 0} (f : Handlers R) (w : Option ℕ) (k : AwaitKind) (r : Response) (es : List Event)
      (x : UartRadio) {out : Outcome UartError R}
      → All (λ e. f.on_event e ≡ none) es
      → Holds es (response_text r ++ (crlf ++ [])) x.driver
      → All IsHeard es
      → x.driver.state ≡ State.awaiting k
      → Answers k r
      → IsResponse r
      → IsLine (response_text r)
      → f.on_response r ≡ some out
      → (y : UartRadio) × (uart_drain (uart_fuel x) f w x ≡ UartDrained.returned out y)
        × IsQuiet y.driver
        × (y.driver.awaiting_ready_as_ok ≡ false)
        × (y.written ≡ x.written)
        × (y.told ≡ x.told ++ es)
  uart_drain-answer f w k r es x {out} silent h heard state answers good line e =
      let rest = response_text r ++ (crlf ++ []) in
      let (holds, same) = told_by-Holds es rest x.driver h heard in
      let y = record x { driver = told_by es rest x.driver; told = x.told ++ es } in
      let answer = poll-answer k r [] y.driver holds.valid (same ∙ state) answers good (record {
        quiet = omega (arith, holds.valid.in_flight, ap length holds.nothing_queued);
        received = holds.received;
        one_line = line.one_line;
        short = line.short;
      }) in
      let d = resolve (consumed (response_text r) [] y.driver) in
      let room = length-batch_then es rest in
      (
        record y { driver = d },
        uart_drain-told f w es rest (uart_fuel x) x silent h heard
              (omega (arith, room, ap length h.received))
            ∙ uart_stop f (uart_fuel x - length es) w y (omega (arith, room, ap length h.received))
                (ap (λ t. uart_step f w t y) answer ∙ ap (λ o. handled_step o d y) e),
        record {
          valid = IsValid-after y.driver holds.valid answer;
          is_idle = refl;
          nothing_received = refl;
          nothing_queued = holds.nothing_queued;
        },
        refl,
        refl,
        refl,
      )

  -- An embassy method, other than a factory reset, on a radio with nothing to do whose first read
  -- brings, before its deadline, the lines of some events and then that of an answer, writes its
  -- command, returns what its `want` makes of the answer, and the radio has nothing to do again;
  -- the events are only traced, in order. The command, the events and the answer are well-typed,
  -- no line of an event or of the answer has a `\r` in it or is longer than 288 bytes, these lines
  -- together fit the receive queue, and the command's line fits the transmit queue.
  pub request-dropped :
      {R : Type 0} (cmd : Command) (want : Response → Option (Outcome UartError R))
      (timeout start now : ℕ) (round : UartRound) (rounds : List UartRound) (es : List Event)
      (r : Response) (x : UartRadio) {out : Outcome UartError R}
      → IsQuiet x.driver
      → IsTyped cmd
      → IsBrief cmd
      → is_factory_reset cmd ≡ false
      → All IsHeard es
      → Answers (kind_of cmd) r
      → IsResponse r
      → IsTidy r
      → length (batch_then es (response_text r ++ (crlf ++ []))) ≤ 512
      → want r ≡ some out
      → now < start + timeout
      → (y : UartRadio) × (request cmd want timeout start
            (uart_reads (batch_then es (response_text r ++ (crlf ++ []))) now ∷ round ∷ rounds)
            x
          ≡ UartPumped.returned out y)
        × IsQuiet y.driver
        × (y.driver.awaiting_ready_as_ok ≡ false)
        × (y.written ≡ x.written ++ wire cmd)
        × (y.told ≡ x.told ++ es)
  unfolding request pump_until
  request-dropped {R = R} cmd want timeout start now round rounds es r x q typed brief plain heard
        answers good tidy fit e early =
      let deadline = start + timeout in
      let f : Handlers R = record { on_response = want; on_event = λ e. none } in
      let bytes = batch_then es (response_text r ++ (crlf ++ [])) in
      let short = wire_fits cmd typed brief in
      let p = submit-IsPending cmd x.driver q typed short in
      let x1 = record x { driver = (submit cmd x.driver).1 } in
      let d = ack_tx (length (wire cmd)) (handed_out x1.driver) in
      let a = ack_tx-IsAwaiting cmd x1.driver p in
      let listens : IsListening d = record {
        valid = a.valid;
        received = a.nothing_received;
        nothing_queued = a.nothing_queued;
        no_reset = sent-flag cmd x.driver q typed short ∙ plain;
      } in
      let x2 = record x { driver = receiving bytes d; written = x.written ++ wire cmd } in
      let (y, drained, free, settled, written, told) =
        uart_drain-answer f round.write_error (kind_of cmd) r es x2
          (All-of (λ e. f.on_event e ≡ none) (λ e. refl) es)
          (receiving-Holds es (response_text r ++ (crlf ++ [])) d listens fit) heard a.state_is
          answers good (response_text-IsLine r good tidy) e in
      (
        y,
        ap (λ o. submitted deadline want (uart_reads bytes now ∷ round ∷ rounds) x1 o)
              (ap (λ o. o.0)
                (submit_fits cmd x.driver q.is_idle typed
                  (omega (arith, ap length q.nothing_queued))))
            ∙ uart_reading f deadline bytes now (round ∷ rounds) x1
                (uart_drain-IsPending f cmd x1 p) early a.nothing_received fit
            ∙ uart_returning f deadline round rounds x2 drained,
        free,
        settled,
        written,
        told,
      )
