-- ===== src/Embassy.antt =====
-- rylr998-embassy/src/lib.rs: the radio of the `no_std` wrapper. The UART and the clock are a list of
-- answers, round by round. The loops of `pump_until` and `next_event` differ in what they do with a
-- response and with an event: those two branches are arguments here.
pub mod Methods
pub mod Deadline
pub mod Passwords
pub mod Answering
pub mod Exchange
pub mod Events
pub mod Smoke
use rylr998_rs.Base.{
  ℕ, zero, suc, ◌+◌, List, [], ◌∷◌, ◌++◌, Option, none, some, leb, if◌then◌else◌, Bytes, length,
  Outcome, ok, err, panic,
}
use rylr998_rs.Types.{Response, Event, Poll}
use rylr998_rs.FixedVec.{FixedVec}
use rylr998_rs.Driver.{Driver, new, push_rx, ack_tx}
use rylr998_rs.Driver.Turns.{Turn, done, again, fault, poll}

-- `Error`; the error of the UART is a number.
pub data UartError : Type 0 where
  core : rylr998_rs.Types.Error → UartError
  io : ℕ → UartError
  timeout : UartError
  radio : ℕ → UartError

-- `Radio`; `written` is what `uart` was given, `told` the events that the loops have met: those that
-- `next_event` has called its handler with, and those that `pump_until` has traced.
pub record UartRadio : Type 0 where
  pub driver : Driver
  pub written : Bytes
  pub told : List Event

-- `Radio::new`.
abbrev pub new_radio : UartRadio
new_radio = record { driver = new; written = []; told = [] }

-- `with_timeout(remaining, self.uart.read(&mut buf))`.
pub data UartRead : Type 0 where
  bytes_read : Bytes → UartRead
  failed : ℕ → UartRead
  timed_out : UartRead

-- What the UART and the clock answer in one round of the outer loop; `now` is the time behind the
-- inner loop.
pub record UartRound : Type 0 where
  pub write_error : Option ℕ
  pub now : ℕ
  pub read : UartRead

-- The end of the inner loop: `break`, a `return`, or too little fuel.
pub data UartDrained (R : Type 0) : Type 0 where
  quiet : UartRadio → UartDrained R
  returned : Outcome UartError R → UartRadio → UartDrained R
  unfinished : UartRadio → UartDrained R

pub data UartStep (R : Type 0) : Type 0 where
  stop : UartDrained R → UartStep R
  next : UartRadio → UartStep R

-- The outcome of the outer loop: it returns, or it still waits when the given rounds are over.
pub data UartPumped (R : Type 0) : Type 0 where
  returned : Outcome UartError R → UartRadio → UartPumped R
  waiting : UartRadio → UartPumped R

-- What the loop does with a response, and with an event: `some` is a `return`.
pub record Handlers (R : Type 0) : Type 0 where
  pub on_response : Response → Option (Outcome UartError R)
  pub on_event : Event → Option (Outcome UartError R)

module _ ⦃v : FixedVec⦄ where
  abbrev pub uart_write_step : {R : Type 0} → Option ℕ → Bytes → Driver → UartRadio → UartStep R
  uart_write_step none bytes d x =
      next (record x { driver = ack_tx (length bytes) d; written = x.written ++ bytes })
  uart_write_step (some e) bytes d x =
      stop (UartDrained.returned (err (UartError.io e)) (record x { driver = d }))

  abbrev pub handled_step :
      {R : Type 0} → Option (Outcome UartError R) → Driver → UartRadio → UartStep R
  handled_step none d x = next (record x { driver = d })
  handled_step (some out) d x = stop (UartDrained.returned out (record x { driver = d }))

  -- The `match` on what `self.driver.poll()` reports.
  abbrev pub uart_poll_step :
      {R : Type 0} → Handlers R → Option ℕ → Poll → Driver → UartRadio → UartStep R
  uart_poll_step h write_error (Poll.need_tx bytes) d x = uart_write_step write_error bytes d x
  uart_poll_step h write_error (Poll.response r) d x = handled_step (h.on_response r) d x
  uart_poll_step h write_error (Poll.event e) d x =
      handled_step (h.on_event e) d (record x { told = x.told ++ e ∷ [] })
  uart_poll_step h write_error Poll.idle d x = stop (quiet (record x { driver = d }))

  -- The `match self.driver.poll()`. `poll` never ends in `again`.
  abbrev pub uart_step : {R : Type 0} → Handlers R → Option ℕ → Turn → UartRadio → UartStep R
  uart_step h write_error (done d p) x = uart_poll_step h write_error p d x
  uart_step h write_error (again d) x = stop (unfinished x)
  uart_step h write_error fault x = stop (UartDrained.returned panic x)

  -- The inner loop.
  unfoldable pub uart_drain : {R : Type 0} → ℕ → Handlers R → Option ℕ → UartRadio → UartDrained R
  uart_drain zero h write_error x = unfinished x
  uart_drain (suc fuel) h write_error x = elim (uart_step h write_error (poll x.driver) x) [
    | stop out ↦ out
    | next y ↦ uart_drain fuel h write_error y
  ]

  -- Every turn but the last takes bytes out of a queue.
  abbrev pub uart_fuel : UartRadio → ℕ
  uart_fuel x = suc (length x.driver.rx + length x.driver.tx)

  -- The outcome of `self.driver.push_rx(&buf[..n])?`.
  abbrev pub uart_received :
      {R : Type 0} → Outcome rylr998_rs.Types.Error ℕ × Driver → UartRadio → UartPumped R
  uart_received (ok n, d) x = waiting (record x { driver = d })
  uart_received (err e, d) x =
      UartPumped.returned (err (UartError.core e)) (record x { driver = d })
  uart_received (panic, d) x = UartPumped.returned panic (record x { driver = d })

  -- The `match` on the read.
  abbrev pub uart_take_in : {R : Type 0} → UartRead → UartRadio → UartPumped R
  uart_take_in (bytes_read bytes) x = uart_received (push_rx bytes x.driver) x
  uart_take_in (failed e) x = UartPumped.returned (err (UartError.io e)) x
  uart_take_in timed_out x = waiting x

  -- The rest of a round, behind the inner loop, which is never `unfinished`: the deadline is looked
  -- at before the read.
  abbrev pub behind_uart_drain : {R : Type 0} → ℕ → UartRound → UartDrained R → UartPumped R
  behind_uart_drain deadline round (quiet y) =
      if leb deadline round.now
      then UartPumped.returned (err UartError.timeout) y
      else uart_take_in round.read y
  behind_uart_drain deadline round (UartDrained.returned out y) = UartPumped.returned out y
  behind_uart_drain deadline round (unfinished y) = waiting y

  -- The outer loop.
  unfoldable pub uart_loop :
      {R : Type 0} → ℕ → Handlers R → List UartRound → UartRadio → UartPumped R
  uart_loop deadline h [] x = waiting x
  uart_loop deadline h (round ∷ rounds) x =
      elim (behind_uart_drain deadline round (uart_drain (uart_fuel x) h round.write_error x)) [
        | UartPumped.returned out y ↦ UartPumped.returned out y
        | waiting y ↦ uart_loop deadline h rounds y
      ]
