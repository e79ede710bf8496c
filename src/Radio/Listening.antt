-- ===== src/Radio/Listening.antt =====
-- Events that a method of rylr998-std/src/radio.rs meets.
use rylr998_rs.Base.{
  ℕ, ◌+◌, ◌≤◌, ◌<◌, ◌≡◌, refl, ap, ◌∙◌, List, [], ◌∷◌, ◌++◌, Option, none, arith, length,
  length-append, Outcome, ok,
}
use rylr998_rs.Types.{Event, OwnedEvent, into_owned, Response}
use rylr998_rs.FixedVec.{FixedVec}
use rylr998_rs.Encode.Wire.{crlf}
use rylr998_rs.Decode.Text.{event_text}
use rylr998_rs.Driver.{Driver, push_rx, line_capacity}
use rylr998_rs.Driver.Operations.{push_rx_fits}
use rylr998_rs.Driver.Batch.{
  IsHeard, batch_text, Holds, IsListening, reported, reported-Holds, receiving, receiving-Holds,
  poll-Holds,
}
use rylr998_rs.Radio.{
  Error, Radio, Round, quiet, Pumped, waiting, turn_step, drain, drain_fuel, end_round,
  behind_drain, round_turn, pump_until,
}
use rylr998_rs.Radio.Methods.{next_event, pumped_event}
use rylr998_rs.Radio.Answering.{
  reads, drain_next, drain_stop, poll-empty, take_in_fits, before_deadline,
}
use rylr998_rs.Radio.Silence.{drain-empty}

-- The driver that has received the line of an event.
abbrev pub hearing : Event → Driver → Driver
hearing e d = receiving (batch_text (e ∷ [])) d

-- The driver that has reported it.
abbrev pub heard : Event → Driver → Driver
heard e d = reported e [] [] (hearing e d)

hearing-Holds :
    (e : Event) (d : Driver) → IsListening d → IsHeard e → Holds (e ∷ []) [] (hearing e d)
hearing-Holds e d l h =
    receiving-Holds (e ∷ []) [] d l
      (omega (arith, h.short, length-append (event_text e) (crlf ++ [])))

pub heard-IsListening :
    (e : Event) (d : Driver) → IsListening d → IsHeard e → IsListening (heard e d)
heard-IsListening e d l h = reported-Holds e [] [] (hearing e d) (hearing-Holds e d l h) h

module _ ⦃v : FixedVec⦄ where
  -- The radio that has reported the event and keeps it.
  abbrev pub kept : Event → Radio → Radio
  kept e x = record x { driver = heard e x.driver; events = x.events ++ into_owned e ∷ [] }

  -- The inner loop reports the event whose line has been received, and then there is nothing to do.
  pub drain-event :
      {R : Type 0} (want : Response → Option (Outcome Error R)) (w : Option ℕ) (e : Event)
      (x : Radio)
      → IsListening x.driver
      → IsHeard e
      → drain
          (drain_fuel (record x { driver = hearing e x.driver }))
          want
          w
          (record x { driver = hearing e x.driver })
        ≡ quiet (kept e x)
  drain-event want w e x l h =
      let y = record x { driver = hearing e x.driver } in
      let first = poll-Holds e [] [] (hearing e x.driver) (hearing-Holds e x.driver l h) h in
      drain_next want w (length y.driver.rx + length y.driver.tx) y
        (ap (λ t. turn_step want w t y) first)
      ∙ drain_stop want w (length y.driver.rx + length y.driver.tx) (kept e x)
          (omega (arith, length-append (event_text e) (crlf ++ [])))
          (ap (λ t. turn_step want w t (kept e x))
            (poll-empty (heard e x.driver) l.nothing_queued refl))

  -- A round that reads the line of an event before the deadline.
  pub hearing_round :
      {R : Type 0} (deadline now : ℕ) (want : Response → Option (Outcome Error R)) (e : Event)
      (x : Radio)
      → IsListening x.driver
      → IsHeard e
      → now < deadline
      → round_turn deadline want (reads (event_text e ++ crlf) now) x
        ≡ waiting (record x { driver = hearing e x.driver })
  unfolding round_turn
  hearing_round deadline now want e x l h early =
      let fit : length x.driver.rx + length (event_text e ++ crlf) ≤ rylr998_rs.Driver.rx_capacity =
        omega (arith, h.short, ap length l.received, length-append (event_text e) crlf) in
      ap (behind_drain deadline (reads (event_text e ++ crlf) now))
        (drain-empty want none x l.nothing_queued l.received)
      ∙ ap (end_round deadline now) (take_in_fits (event_text e ++ crlf) x fit)
      ∙ before_deadline _ deadline now _ early
      ∙ ap (λ d. waiting (record x { driver = d }))
          (ap (λ o. o.1) (push_rx_fits (event_text e ++ crlf) x.driver fit)
            ∙ ap (λ s. record x.driver { rx = s ++ (event_text e ++ crlf) }) l.received)

  -- `next_event` pumps if no event has been kept.
  pub next_event-pumps :
      (timeout start : ℕ) (rounds : List Round) (x : Radio)
      → x.events ≡ []
      → next_event timeout start rounds x
        ≡ pumped_event (pump_until (start + timeout) (λ r. none) rounds x)
  unfolding next_event
  next_event-pumps timeout start rounds x h =
      ap
        (λ (es : List OwnedEvent). elim es as (λ u. Pumped OwnedEvent) [
          | [] ↦ pumped_event (pump_until (start + timeout) (λ r. none) rounds x)
          | e ∷ es ↦ Pumped.returned (ok e) (record x { events = es })
        ])
        h
