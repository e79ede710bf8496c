-- ===== src/Embassy/Deadline.antt =====
-- The loops of rylr998-embassy/src/lib.rs end: `pump_until` and `next_event` return by the deadline.
use rylr998_rs.Base.{
  ℕ, zero, suc, ◌+◌, ◌≤◌, ◌<◌, ◌⊎◌, inl, inr, Bool-cases, List, [], ◌∷◌, ◌++◌, Option, none, some,
  arith, leb, if◌then◌else◌, Bytes, length, Outcome, ok, err, panic,
}
use rylr998_rs.Types.{Poll}
use rylr998_rs.FixedVec.{FixedVec}
use rylr998_rs.Driver.{Driver, push_rx}
use rylr998_rs.Driver.Turns.{Turn, done, again, fault, poll}
use rylr998_rs.Driver.Invariant.{IsValid, push_rx-IsValid, ack_tx-IsValid}
use rylr998_rs.Driver.Polling.{Settles, poll-Settles}
use rylr998_rs.Driver.Progress.{Moves, poll-Moves, ack_tx_fewer}
use rylr998_rs.Radio.Draining.{load}
use rylr998_rs.Embassy.{
  UartError, UartRadio, UartRead, bytes_read, failed, timed_out, UartRound, UartDrained, quiet,
  unfinished, UartStep, stop, next, UartPumped, waiting, Handlers, uart_write_step, handled_step,
  uart_step, uart_drain, uart_fuel, uart_received, uart_take_in, behind_uart_drain, uart_loop,
}

abbrev UartEnds : {R : Type 0} → UartDrained R → Type 0
UartEnds (quiet y) = IsValid y.driver
UartEnds (UartDrained.returned o y) = IsValid y.driver
UartEnds (unfinished y) = ⊥

abbrev UartAdvances : {R : Type 0} → ℕ → UartStep R → Type 0
UartAdvances n (stop out) = UartEnds out
UartAdvances n (next y) = IsValid y.driver × (load y.driver < n)

-- Some round's inner loop is over at the deadline or later.
abbrev pub UartReaches : ℕ → List UartRound → Type 0
UartReaches deadline [] = ⊥
UartReaches deadline (round ∷ rounds) = (deadline ≤ round.now) ⊎ UartReaches deadline rounds

-- The call has returned, and its driver is valid.
abbrev pub UartReturns : {R : Type 0} → UartPumped R → Type 0
UartReturns (UartPumped.returned o x) = IsValid x.driver
UartReturns (waiting x) = ⊥

abbrev UartGoesOn : {R : Type 0} → ℕ → ℕ → UartPumped R → Type 0
UartGoesOn deadline now (UartPumped.returned o x) = IsValid x.driver
UartGoesOn deadline now (waiting x) = IsValid x.driver × (now < deadline)

module _ ⦃v : FixedVec⦄ where
  write-UartAdvances :
      (R : Type 0) (w : Option ℕ) (n m : ℕ) (x : UartRadio) (d : Driver) (bytes : Bytes)
      → IsValid d
      → Moves n m (done d (Poll.need_tx bytes))
      → UartAdvances {R = R} (n + m) (uart_write_step w bytes d x)
  write-UartAdvances R none n m x d bytes h (hr, ht, pos, nonempty, all) = (
    ack_tx-IsValid (length bytes) d h,
    omega (arith, ack_tx_fewer (length bytes) d nonempty pos all),
  )
  write-UartAdvances R (some e) n m x d bytes h k = h

  handled-UartAdvances :
      {R : Type 0} (o : Option (Outcome UartError R)) (n : ℕ) (x : UartRadio) (d : Driver)
      → IsValid d
      → load d < n
      → UartAdvances {R = R} n (handled_step o d x)
  handled-UartAdvances none n x d h k = (h, k)
  handled-UartAdvances (some out) n x d h k = h

  step-UartAdvances :
      {R : Type 0} (f : Handlers R) (w : Option ℕ) (n m : ℕ) (t : Turn) (x : UartRadio)
      → IsValid x.driver
      → Settles t
      → Moves n m t
      → UartAdvances (n + m) (uart_step f w t x)
  step-UartAdvances f w n m fault x hx h k = hx
  step-UartAdvances f w n m (again d) x hx h k = absurd h
  step-UartAdvances f w n m (done d Poll.idle) x hx h k = h
  step-UartAdvances f w n m (done d (Poll.need_tx bytes)) x hx h k =
      write-UartAdvances _ w n m x d bytes h k
  step-UartAdvances f w n m (done d (Poll.response r)) x hx h (hr, ht) =
      handled-UartAdvances (f.on_response r) (n + m) x d h (omega arith)
  step-UartAdvances f w n m (done d (Poll.event e)) x hx h (hr, ht) =
      handled-UartAdvances (f.on_event e) (n + m) (record x { told = x.told ++ e ∷ [] }) d h
        (omega arith)

  after_step :
      {R : Type 0} (f : Handlers R) (w : Option ℕ) (fuel n : ℕ) (s : UartStep R)
      → UartAdvances n s
      → ((y : UartRadio) → IsValid y.driver → load y.driver < n → UartEnds (uart_drain fuel f w y))
      → UartEnds (elim s [ stop out ↦ out | next y ↦ uart_drain fuel f w y ])
  after_step f w fuel n (stop out) k g = k
  after_step f w fuel n (next y) (h, k) g = g y h k

  uart_drain-UartEnds :
      {R : Type 0} (f : Handlers R) (w : Option ℕ) (fuel : ℕ) (x : UartRadio)
      → IsValid x.driver
      → load x.driver < fuel
      → UartEnds (uart_drain fuel f w x)
  unfolding uart_drain
  uart_drain-UartEnds f w zero x h k = absurd (omega arith)
  uart_drain-UartEnds f w (suc fuel) x h k =
      after_step f w fuel (load x.driver) (uart_step f w (poll x.driver) x)
        (step-UartAdvances f w (length x.driver.rx) (length x.driver.tx) (poll x.driver) x h
          (poll-Settles x.driver h) (poll-Moves x.driver))
        (λ y hy less. uart_drain-UartEnds f w fuel y hy (omega arith))

  received-UartGoesOn :
      (R : Type 0) (deadline now : ℕ) (o : Outcome rylr998_rs.Types.Error ℕ) (d : Driver)
      (x : UartRadio)
      → IsValid d
      → now < deadline
      → UartGoesOn {R = R} deadline now (uart_received (o, d) x)
  received-UartGoesOn R deadline now (ok n) d x h k = (h, k)
  received-UartGoesOn R deadline now (err e) d x h k = h
  received-UartGoesOn R deadline now panic d x h k = h

  take_in-UartGoesOn :
      (R : Type 0) (deadline now : ℕ) (read : UartRead) (x : UartRadio)
      → IsValid x.driver
      → now < deadline
      → UartGoesOn {R = R} deadline now (uart_take_in read x)
  take_in-UartGoesOn R deadline now (bytes_read bytes) x h k =
      received-UartGoesOn R deadline now (push_rx bytes x.driver).0 (push_rx bytes x.driver).1 x
        (push_rx-IsValid bytes x.driver h) k
  take_in-UartGoesOn R deadline now (failed e) x h k = h
  take_in-UartGoesOn R deadline now timed_out x h k = (h, k)

  before-UartGoesOn :
      {R : Type 0} (deadline : ℕ) (round : UartRound) (y : UartRadio) (t : UartPumped R)
      → IsValid y.driver
      → (round.now < deadline → UartGoesOn deadline round.now t)
      → UartGoesOn deadline round.now
          (if leb deadline round.now then UartPumped.returned (err UartError.timeout) y else t)
  before-UartGoesOn deadline round y t h k = elim (Bool-cases (leb deadline round.now)) [
    | inl late ↦ rw late h
    | inr early ↦ rw early (k (ground arith))
  ]

  behind-UartGoesOn :
      {R : Type 0} (deadline : ℕ) (round : UartRound) (t : UartDrained R)
      → UartEnds t
      → UartGoesOn deadline round.now (behind_uart_drain deadline round t)
  behind-UartGoesOn deadline round (quiet y) h =
      before-UartGoesOn deadline round y (uart_take_in round.read y) h
        (take_in-UartGoesOn _ deadline round.now round.read y h)
  behind-UartGoesOn deadline round (UartDrained.returned out y) h = h
  behind-UartGoesOn deadline round (unfinished y) h = absurd h

  after_round :
      {R : Type 0} (deadline now : ℕ) (f : Handlers R) (rounds : List UartRound) (t : UartPumped R)
      → UartGoesOn deadline now t
      → ((y : UartRadio)
          → IsValid y.driver
          → now < deadline
          → UartReturns (uart_loop deadline f rounds y))
      → UartReturns (elim t [
        | UartPumped.returned out y ↦ UartPumped.returned out y
        | waiting y ↦ uart_loop deadline f rounds y
      ])
  after_round deadline now f rounds (UartPumped.returned out y) h g = h
  after_round deadline now f rounds (waiting y) (h, early) g = g y h early

  -- With any handlers, so for `pump_until` and for `next_event`, the loop returns at the latest in
  -- the first round whose inner loop is over at the deadline or later, whatever the UART answers,
  -- and leaves a valid driver.
  pub uart_loop-UartReturns :
      {R : Type 0} (deadline : ℕ) (f : Handlers R) (rounds : List UartRound) (x : UartRadio)
      → IsValid x.driver
      → UartReaches deadline rounds
      → UartReturns (uart_loop deadline f rounds x)
  unfolding uart_loop
  uart_loop-UartReturns deadline f [] x h k = absurd k
  uart_loop-UartReturns deadline f (round ∷ rounds) x h k =
      let t = uart_drain (uart_fuel x) f round.write_error x in
      after_round deadline round.now f rounds (behind_uart_drain deadline round t)
        (behind-UartGoesOn deadline round t
          (uart_drain-UartEnds f round.write_error (uart_fuel x) x h (omega arith)))
        (λ y hy early. elim k [
          | inl late ↦ absurd (omega arith)
          | inr later ↦ uart_loop-UartReturns deadline f rounds y hy later
        ])
