-- ===== src/Driver/Session.antt =====
-- Sequences of calls on the driver of rylr998-core/src/driver.rs, in the order in which the pumps of
-- rylr998-std, rylr998-tokio and rylr998-embassy make them.
use rylr998_rs.Base.{
  ◌≤◌, ◌≡◌, refl, ap, ◌∙◌, true, false, [], ◌++◌, arith, Bytes, codes, length, Lacks, position-none,
  length-append, length-drop, drop, starts_with, ok,
}
use rylr998_rs.Types.{Command, Response, Event, Poll, IsTyped}
use rylr998_rs.FixedVec.{FixedVec}
use rylr998_rs.Encode.Wire.{wire, crlf}
use rylr998_rs.Decode.{parse_event}
use rylr998_rs.Decode.Text.{response_text, IsResponse, event_text, IsEvent}
use rylr998_rs.Decode.Events.{parse_event-event_text}
use rylr998_rs.Driver.{
  Driver, State, AwaitKind, tx_capacity, line_capacity, kind_of, submit, push_rx, ack_tx,
}
use rylr998_rs.Driver.Turns.{resolve, done, again, poll}
use rylr998_rs.Driver.Invariant.{IsValid, push_rx-IsValid}
use rylr998_rs.Driver.Operations.{push_rx_fits}
use rylr998_rs.Driver.Polling.{poll-Settles}
use rylr998_rs.Driver.Lines.{Sees, consumed, line_turn, poll-line, poll_again}
use rylr998_rs.Driver.Exchange.{
  IsQuiet, Answers, IsAwaiting, handed_out, submit-IsPending, poll-IsPending, ack_tx-IsAwaiting,
  poll-answer,
}

event_line_turn :
    (e : Event) (rest : Bytes) (d : Driver)
    → d.awaiting_ready_as_ok ≡ false
    → parse_event (event_text e) ≡ ok e
    → line_turn (event_text e) rest d ≡ done (consumed (event_text e) rest d) (Poll.event e)
event_line_turn (Event.recv from payload rssi snr) rest d plain e = rw (plain, e)
event_line_turn Event.ready rest d plain e = rw (plain, e)

reset_turn :
    (line rest : Bytes) (d : Driver)
    → d.awaiting_ready_as_ok ≡ true
    → starts_with line (codes "+RESET") ≡ true
    → line_turn line rest d ≡ again (consumed line rest d)
reset_turn line rest d waits reset = rw (waits, reset)

ready_turn :
    (rest : Bytes) (d : Driver)
    → d.awaiting_ready_as_ok ≡ true
    → line_turn (codes "+READY") rest d
      ≡ done (resolve (consumed (codes "+READY") rest d)) (Poll.response Response.ok)
ready_turn rest d waits = rw waits

-- The line buffer takes a line, and the rest of `rx` stays.
pub consumed-IsValid :
    (line rest : Bytes) (d : Driver) → Sees d line rest → IsValid d → IsValid (consumed line rest d)
consumed-IsValid line rest d s h = ground (
  arith,
  length-append line (drop (length line) d.line_buf),
  length-drop (length line) d.line_buf,
  ap length s.received,
  length-append line (crlf ++ rest),
)

module _ ⦃v : FixedVec⦄ where
  -- The driver that has sent the command and received this line.
  abbrev pub answered : Command → Bytes → Driver → Driver
  answered cmd line d =
      (push_rx (line ++ crlf) (ack_tx (length (wire cmd)) (handed_out (submit cmd d).1))).1

  pub IsValid-after :
      (d : Driver) {e : Driver} {p : Poll} → IsValid d → poll d ≡ done e p → IsValid e
  IsValid-after d h eq = rw eq at (poll-Settles d h)

  receive :
      (line : Bytes) (d : Driver) {k : AwaitKind}
      → IsAwaiting k d
      → length line ≤ line_capacity
      → (push_rx (line ++ crlf) d).1 ≡ record d { rx = line ++ (crlf ++ []) }
  receive line d a short =
      ap (λ o. o.1)
        (push_rx_fits (line ++ crlf) d
          (omega (arith, ap length a.nothing_received, length-append line crlf)))
      ∙ ap (λ s. record d { rx = s ++ (line ++ crlf) }) a.nothing_received

  Sees-line :
      (line : Bytes) (d : Driver) {k : AwaitKind} {e : Driver}
      → IsAwaiting k d
      → e ≡ record d { rx = line ++ (crlf ++ []) }
      → Lacks b'\r' line
      → length line ≤ line_capacity
      → Sees e line []
  Sees-line line d a eq one_line short = rw eq (record {
    quiet = omega (arith, a.valid.in_flight, ap length a.nothing_queued);
    received = refl;
    one_line = one_line;
    short = short;
  })

  -- A driver with nothing to do that is given a command whose line fits its queue hands out the line
  -- of the command; once that is acknowledged, the line of any answer to the command (with no `\r`
  -- in it, and no longer than the line buffer) makes `poll` report the answer, and the driver has
  -- nothing to do again.
  pub exchange :
      (cmd : Command) (r : Response) (d : Driver)
      → IsQuiet d
      → IsTyped cmd
      → length (wire cmd) ≤ tx_capacity
      → Answers (kind_of cmd) r
      → IsResponse r
      → Lacks b'\r' (response_text r)
      → length (response_text r) ≤ line_capacity
      → (poll (submit cmd d).1 ≡ done (handed_out (submit cmd d).1) (Poll.need_tx (wire cmd)))
        × (e : Driver) × (poll (answered cmd (response_text r) d) ≡ done e (Poll.response r))
        × IsQuiet e
  exchange cmd r d q typed fit answers good one_line short =
      let line = response_text r in
      let p = submit-IsPending cmd d q typed fit in
      let a = ack_tx-IsAwaiting cmd (submit cmd d).1 p in
      let sent = ack_tx (length (wire cmd)) (handed_out (submit cmd d).1) in
      let got = receive line sent a short in
      let valid = push_rx-IsValid (line ++ crlf) sent a.valid in
      let answer =
        poll-answer (kind_of cmd) r [] (answered cmd line d) valid
          (ap (λ e. e.state) got ∙ a.state_is) answers good
          (Sees-line line sent a got one_line short) in
      (
        poll-IsPending cmd (submit cmd d).1 p,
        resolve (consumed line [] (answered cmd line d)),
        answer,
        record {
          valid = IsValid-after (answered cmd line d) valid answer;
          is_idle = refl;
          nothing_received = refl;
          nothing_queued = ap (λ e. e.tx) got ∙ a.nothing_queued;
        },
      )

  -- An event line that a valid driver sees is reported whatever the state, and a command in flight
  -- stays in flight: nothing but the received bytes and the line buffer changes. Excepted is the time
  -- between a factory reset and its answer.
  pub poll-event :
      (e : Event) (rest : Bytes) (d : Driver)
      → IsValid d
      → d.awaiting_ready_as_ok ≡ false
      → IsEvent e
      → Sees d (event_text e) rest
      → poll d ≡ done (consumed (event_text e) rest d) (Poll.event e)
  poll-event e rest d h plain good s =
      poll-line (event_text e) rest d s h
      ∙ ap poll_again (event_line_turn e rest d plain (parse_event-event_text e good))

  -- During a factory reset one `poll` of a valid driver passes over the line that tells of the reset
  -- and takes the `+READY` behind it for the `+OK` of the command: the driver is idle, the reset is
  -- over, and what was received behind the two lines is left.
  pub poll-factory_reset :
      (line rest : Bytes) (d : Driver)
      → IsValid d
      → d.awaiting_ready_as_ok ≡ true
      → starts_with line (codes "+RESET") ≡ true
      → Sees d line (codes "+READY" ++ (crlf ++ rest))
      → (e : Driver) × (poll d ≡ done e (Poll.response Response.ok))
        × (e.state ≡ State.idle)
        × (e.awaiting_ready_as_ok ≡ false)
        × (e.rx ≡ rest)
  poll-factory_reset line rest d h waits reset s =
      let behind = codes "+READY" ++ (crlf ++ rest) in
      let next = consumed line behind d in
      (
        resolve (consumed (codes "+READY") rest next),
        poll-line line behind d s h
            ∙ ap poll_again (reset_turn line behind d waits reset)
            ∙ poll-line (codes "+READY") rest next
                (record {
                  quiet = s.quiet;
                  received = refl;
                  one_line = position-none b'\r' (codes "+READY") refl;
                  short = omega arith;
                })
                (consumed-IsValid line behind d s h)
            ∙ ap poll_again (ready_turn rest next waits),
        refl,
        refl,
        refl,
      )
