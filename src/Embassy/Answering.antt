-- ===== src/Embassy/Answering.antt =====
-- The rounds of the loops in rylr998-embassy/src/lib.rs, one at a time.
use rylr998_rs.Base.{
  ℕ, zero, suc, ◌≤◌, ◌<◌, ◌≡◌, ap, ◌∙◌, List, [], ◌∷◌, ◌++◌, Option, none, arith, Bytes, length,
  Outcome, err,
}
use rylr998_rs.FixedVec.{FixedVec}
use rylr998_rs.Driver.{push_rx}
use rylr998_rs.Driver.Turns.{poll}
use rylr998_rs.Driver.Operations.{push_rx_fits}
use rylr998_rs.Driver.Batch.{receiving}
use rylr998_rs.Embassy.{
  UartError, UartRadio, bytes_read, UartRound, UartDrained, UartStep, UartPumped, Handlers,
  uart_step, uart_drain, uart_fuel, uart_received, behind_uart_drain, uart_loop,
}

-- A round in which nothing fails and these bytes are read, before this time.
abbrev pub uart_reads : Bytes → ℕ → UartRound
uart_reads bytes now = record { write_error = none; now = now; read = bytes_read bytes }

module _ ⦃v : FixedVec⦄ {R : Type 0} (h : Handlers R) where
  -- The rest of the inner loop behind a step, and of the outer loop behind a round.
  abbrev behind_step : ℕ → Option ℕ → UartStep R → UartDrained R
  behind_step fuel w s = elim s as (λ u. UartDrained R) [
    | UartStep.stop out ↦ out
    | UartStep.next y ↦ uart_drain fuel h w y
  ]

  abbrev behind_round : ℕ → List UartRound → UartPumped R → UartPumped R
  behind_round deadline rounds p = elim p as (λ u. UartPumped R) [
    | UartPumped.returned out y ↦ UartPumped.returned out y
    | UartPumped.waiting y ↦ uart_loop deadline h rounds y
  ]

  pub uart_next :
      (fuel : ℕ) (w : Option ℕ) (x : UartRadio) {y : UartRadio}
      → uart_step h w (poll x.driver) x ≡ UartStep.next y
      → uart_drain (suc fuel) h w x ≡ uart_drain fuel h w y
  unfolding uart_drain
  uart_next fuel w x e = ap (behind_step fuel w) e

  pub uart_stop :
      (fuel : ℕ) (w : Option ℕ) (x : UartRadio) {t : UartDrained R}
      → 0 < fuel
      → uart_step h w (poll x.driver) x ≡ UartStep.stop t
      → uart_drain fuel h w x ≡ t
  unfolding uart_drain
  uart_stop zero w x pos e = absurd (omega arith)
  uart_stop (suc fuel) w x pos e = ap (behind_step fuel w) e

  before_deadline :
      (deadline : ℕ) (bytes : Bytes) (now : ℕ) (y : UartRadio)
      → now < deadline
      → behind_uart_drain {R = R} deadline (uart_reads bytes now) (UartDrained.quiet y)
        ≡ uart_received (push_rx bytes y.driver) y
  before_deadline deadline bytes now y early = ground arith

  behind_deadline :
      (deadline : ℕ) (bytes : Bytes) (late : ℕ) (y : UartRadio)
      → deadline ≤ late
      → behind_uart_drain {R = R} deadline (uart_reads bytes late) (UartDrained.quiet y)
        ≡ UartPumped.returned (err UartError.timeout) y
  behind_deadline deadline bytes late y over = ground arith

  -- A round whose inner loop ends before the deadline, and that reads bytes that fit.
  pub uart_reading :
      (deadline : ℕ) (bytes : Bytes) (now : ℕ) (rounds : List UartRound) (x : UartRadio)
      {y : UartRadio}
      → uart_drain (uart_fuel x) h none x ≡ UartDrained.quiet y
      → now < deadline
      → y.driver.rx ≡ []
      → length bytes ≤ 512
      → uart_loop deadline h (uart_reads bytes now ∷ rounds) x
        ≡ uart_loop deadline h rounds (record y { driver = receiving bytes y.driver })
  unfolding uart_loop
  uart_reading deadline bytes now rounds x {y} drained early empty fit =
      ap (λ t. behind_round deadline rounds (behind_uart_drain deadline (uart_reads bytes now) t))
        drained
      ∙ ap (behind_round deadline rounds) (before_deadline deadline bytes now y early)
      ∙ ap (λ o. behind_round deadline rounds (uart_received o y))
          (push_rx_fits bytes y.driver (omega (arith, ap length empty)))
      ∙ ap
          (λ s. uart_loop deadline h rounds (record y { driver = receiving (s ++ bytes) y.driver }))
          empty

  -- A round whose inner loop returns.
  pub uart_returning :
      (deadline : ℕ) (round : UartRound) (rounds : List UartRound) (x : UartRadio)
      {out : Outcome UartError R} {y : UartRadio}
      → uart_drain (uart_fuel x) h round.write_error x ≡ UartDrained.returned out y
      → uart_loop deadline h (round ∷ rounds) x ≡ UartPumped.returned out y
  unfolding uart_loop
  uart_returning deadline round rounds x e =
      ap (λ t. behind_round deadline rounds (behind_uart_drain deadline round t)) e

  -- A round whose inner loop is over at the deadline or later.
  pub uart_expiring :
      (deadline : ℕ) (bytes : Bytes) (late : ℕ) (rounds : List UartRound) (x : UartRadio)
      {y : UartRadio}
      → uart_drain (uart_fuel x) h none x ≡ UartDrained.quiet y
      → deadline ≤ late
      → uart_loop deadline h (uart_reads bytes late ∷ rounds) x
        ≡ UartPumped.returned (err UartError.timeout) y
  unfolding uart_loop
  uart_expiring deadline bytes late rounds x {y} drained over =
      ap (λ t. behind_round deadline rounds (behind_uart_drain deadline (uart_reads bytes late) t))
        drained
      ∙ ap (behind_round deadline rounds) (behind_deadline deadline bytes late y over)
