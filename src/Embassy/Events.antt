-- ===== src/Embassy/Events.antt =====
-- `next_event` of rylr998-embassy/src/lib.rs on the event that its handler takes.
use rylr998_rs.Base.{
  ℕ, ◌+◌, ◌-◌, ◌≤◌, ◌<◌, ◌≡◌, refl, ap, ◌∙◌, List, [], ◌∷◌, ◌++◌, append_assoc, Option, none, some,
  map_option, arith, All, length, ok,
}
use rylr998_rs.Types.{Event}
use rylr998_rs.FixedVec.{FixedVec}
use rylr998_rs.Driver.Batch.{
  IsHeard, batch_then, batch_text, length-batch_then, Holds, IsListening, reported, reported-Holds,
  receiving, receiving-Holds, poll-Holds,
}
use rylr998_rs.Radio.Answering.{poll-empty}
use rylr998_rs.Embassy.{
  UartRadio, UartRound, UartDrained, UartPumped, Handlers, uart_step, uart_drain, uart_fuel,
  handled_step,
}
use rylr998_rs.Embassy.Methods.{next_event}
use rylr998_rs.Embassy.Answering.{uart_reads, uart_stop, uart_reading, uart_returning}
use rylr998_rs.Embassy.Exchange.{told_by, told_by-Holds, uart_drain-told}

-- The handlers of `next_event`.
abbrev listener : {R : Type 0} → (Event → Option R) → Handlers R
listener handler = record {
  on_response = λ r. none;
  on_event = λ e. map_option (λ r. ok r) (handler e);
}

passed_over :
    {R : Type 0} (handler : Event → Option R) (es : List Event)
    → All (λ e. handler e ≡ none) es
    → All (λ e. (listener handler).on_event e ≡ none) es
passed_over handler [] silent = tt
passed_over handler (e ∷ es) (nothing, silent) =
    (ap (map_option (λ r. ok r)) nothing, passed_over handler es silent)

module _ ⦃v : FixedVec⦄ where
  -- The inner loop ends with the event that is taken.
  uart_drain-taken :
      {R : Type 0} (handler : Event → Option R) (w : Option ℕ) (before after : List Event)
      (e : Event) (r : R) (x : UartRadio)
      → All (λ e'. handler e' ≡ none) before
      → handler e ≡ some r
      → Holds before (batch_text (e ∷ after)) x.driver
      → All IsHeard before
      → IsHeard e
      → (y : UartRadio) × (uart_drain (uart_fuel x) (listener handler) w x
          ≡ UartDrained.returned (ok r) y)
        × Holds after [] y.driver
        × (y.driver.state ≡ x.driver.state)
        × (y.written ≡ x.written)
        × (y.told ≡ x.told ++ (before ++ e ∷ []))
  uart_drain-taken handler w before after e r x silent taken h heard good =
      let f = listener handler in
      let rest = batch_text (e ∷ after) in
      let (holds, same) = told_by-Holds before rest x.driver h heard in
      let y = record x { driver = told_by before rest x.driver; told = x.told ++ before } in
      let y' = record y { told = y.told ++ e ∷ [] } in
      let here : Holds (e ∷ after) [] y.driver = record {
        valid = holds.valid;
        received = holds.received;
        nothing_queued = holds.nothing_queued;
        no_reset = holds.no_reset;
      } in
      let d = reported e after [] y.driver in
      let room = length-batch_then before rest in
      (
        record y' { driver = d },
        uart_drain-told f w before rest (uart_fuel x) x (passed_over handler before silent) h heard
              (omega (arith, room, ap length h.received))
            ∙ uart_stop f (uart_fuel x - length before) w y
                (omega (arith, room, ap length h.received))
                (ap (λ t. uart_step f w t y) (poll-Holds e after [] y.driver here good)
                  ∙ ap (λ o. handled_step (map_option (λ r. ok r) o) d y') taken),
        reported-Holds e after [] y.driver here good,
        same,
        refl,
        append_assoc x.told before (e ∷ []),
      )

  -- On a radio with nothing to send and nothing received, and no factory reset under way, whose
  -- first read brings the lines of some events before the deadline, embassy's `next_event`
  -- returns, in the round behind the read, the value that its handler has for the first event that
  -- it takes; the handler is called with the events in order up to that one, and those behind it
  -- are still received. The events up to that one are well-typed, their lines have no `\r` in them
  -- and are at most 288 bytes long, and all the lines of the read fit the receive queue.
  pub next_event-first :
      {R : Type 0} (timeout start now : ℕ) (handler : Event → Option R) (round : UartRound)
      (rounds : List UartRound) (before after : List Event) (e : Event) (r : R) (x : UartRadio)
      → IsListening x.driver
      → All IsHeard before
      → IsHeard e
      → All (λ e'. handler e' ≡ none) before
      → handler e ≡ some r
      → length (batch_then before (batch_text (e ∷ after))) ≤ 512
      → now < start + timeout
      → (y : UartRadio) × (next_event timeout start handler
            (uart_reads (batch_then before (batch_text (e ∷ after))) now ∷ round ∷ rounds)
            x
          ≡ UartPumped.returned (ok r) y)
        × Holds after [] y.driver
        × (y.driver.state ≡ x.driver.state)
        × (y.written ≡ x.written)
        × (y.told ≡ x.told ++ (before ++ e ∷ []))
  unfolding next_event
  next_event-first timeout start now handler round rounds before after e r x listens heard good
        silent taken fit early =
      let f = listener handler in
      let deadline = start + timeout in
      let rest = batch_text (e ∷ after) in
      let bytes = batch_then before rest in
      let (y, drained, holds, same, written, told) =
        uart_drain-taken handler round.write_error before after e r
          (record x { driver = receiving bytes x.driver }) silent taken
          (receiving-Holds before rest x.driver listens fit) heard good in
      (
        y,
        uart_reading f deadline bytes now (round ∷ rounds) x
              (uart_stop f (uart_fuel x) none x (omega arith) (
                ap (λ t. uart_step f none t x)
                  (poll-empty x.driver listens.nothing_queued listens.received)))
              early listens.received fit
            ∙ uart_returning f deadline round rounds
                (record x { driver = receiving bytes x.driver }) drained,
        holds,
        same,
        written,
        told,
      )
