-- ===== src/Embassy/Smoke/Listening.antt =====
-- The listening loop of rylr998-embassy/examples/pico_smoke.rs, and `next_event` with a handler that
-- takes nothing.
use rylr998_rs.Base.{
  ℕ, ◌+◌, ◌-◌, ◌≤◌, ◌<◌, ◌≡◌, refl, sym, ap, ◌∙◌, append-nil, append_assoc, List, [], ◌∷◌, ◌++◌,
  Option, none, map, arith, All, All-of, Bytes, length, ok, err, panic,
}
use rylr998_rs.Types.{Event}
use rylr998_rs.FixedVec.{FixedVec}
use rylr998_rs.Driver.Batch.{
  IsHeard, batch_text, length-batch_then, IsListening, receiving, receiving-Holds,
}
use rylr998_rs.Radio.Answering.{poll-empty}
use rylr998_rs.Embassy.{
  UartError, UartRadio, UartDrained, UartPumped, Handlers, uart_step, uart_drain, uart_fuel,
}
use rylr998_rs.Embassy.Methods.{next_event}
use rylr998_rs.Embassy.Answering.{uart_reads, uart_stop, uart_reading, uart_expiring}
use rylr998_rs.Embassy.Exchange.{told_by, told_by-Holds, uart_drain-told}
use rylr998_rs.Embassy.Smoke.{Action, UartCall, Smoke, printed, listen_loop}

-- The radio that has read the lines of these events, and been through them.
abbrev pub heard_all : List Event → UartRadio → UartRadio
heard_all es x = record x {
  driver = told_by es [] (receiving (batch_text es) x.driver);
  told = x.told ++ es;
}

pub heard_all-IsListening :
    (es : List Event) (x : UartRadio)
    → IsListening x.driver
    → All IsHeard es
    → length (batch_text es) ≤ 512
    → IsListening (heard_all es x).driver
heard_all-IsListening es x listens heard fit =
    (told_by-Holds es [] (receiving (batch_text es) x.driver)
      (receiving-Holds es [] x.driver listens fit) heard).0

-- Events that arrive during one call of `next_event`, and the times of its two rounds.
pub record Arrivals : Type 0 where
  pub events : List Event
  pub start : ℕ
  pub now : ℕ
  pub late : ℕ

pub record IsTimely (a : Arrivals) : Type 0 where
  pub are_heard : All IsHeard a.events
  pub fit : length (batch_text a.events) ≤ 512
  pub soon : a.now < a.start + 60000
  pub over : a.start + 60000 ≤ a.late

abbrev pub arrivals_call : Arrivals → UartCall
arrivals_call a = record {
  start = a.start;
  rounds = uart_reads (batch_text a.events) a.now ∷ uart_reads [] a.late ∷ [];
}

module _ ⦃v : FixedVec⦄ where
  -- With nothing received and nothing to send the inner loop is over at once.
  pub uart_drain-IsListening :
      {R : Type 0} (f : Handlers R) (w : Option ℕ) (fuel : ℕ) (x : UartRadio)
      → IsListening x.driver
      → 0 < fuel
      → uart_drain fuel f w x ≡ UartDrained.quiet x
  uart_drain-IsListening f w fuel x listens pos =
      uart_stop f fuel w x pos
        (ap (λ t. uart_step f w t x) (poll-empty x.driver listens.nothing_queued listens.received))

  -- `next_event` with a handler that takes nothing goes through the events and times out.
  pub next_event-untaken :
      {R : Type 0} (a : Arrivals) (x : UartRadio)
      → IsTimely a
      → IsListening x.driver
      → next_event {R = R} 60000 a.start (λ e. none) (arrivals_call a).rounds x
        ≡ UartPumped.returned (err UartError.timeout) (heard_all a.events x)
  unfolding next_event
  next_event-untaken {R = R} a x timely listens =
      let f : Handlers R = record { on_response = λ r. none; on_event = λ e. none } in
      let deadline = a.start + 60000 in
      let es = a.events in
      let x2 = record x { driver = receiving (batch_text es) x.driver } in
      let room = length-batch_then es [] in
      uart_reading f deadline (batch_text es) a.now (uart_reads [] a.late ∷ []) x
        (uart_drain-IsListening f none (uart_fuel x) x listens (omega arith)) timely.soon
        listens.received timely.fit
      ∙ uart_expiring f deadline [] a.late [] x2
          (uart_drain-told f none es [] (uart_fuel x2) x2
              (All-of (λ e. f.on_event e ≡ none) (λ e. refl) es)
              (receiving-Holds es [] x.driver listens timely.fit) timely.are_heard
              (omega (arith, room))
            ∙ uart_drain-IsListening f none (uart_fuel x2 - length es) (heard_all es x)
                (heard_all-IsListening es x listens timely.are_heard timely.fit)
                (omega (arith, room)))
          timely.over

-- The radio behind these calls.
abbrev pub heard_in : List Arrivals → UartRadio → UartRadio
heard_in [] x = x
heard_in (a ∷ calls) x = heard_in calls (heard_all a.events (record x { told = [] }))

module _ ⦃v : FixedVec⦄ (quoted : Bytes → List Bytes) where
  abbrev pub lines_of : List Arrivals → List Action
  lines_of [] = []
  lines_of (a ∷ calls) = printed quoted a.events ++ lines_of calls

  abbrev behind_call : List UartCall → List Action → UartPumped (Unit {0}) → Smoke
  behind_call calls actions p = elim p as (λ u. Smoke) [
    | UartPumped.waiting y ↦ Smoke.running y (actions ++ printed quoted y.told)
    | UartPumped.returned panic y ↦ Smoke.panicked y (actions ++ printed quoted y.told)
    | UartPumped.returned (ok u) y ↦ listen_loop quoted calls y (actions ++ printed quoted y.told)
    | UartPumped.returned (err e) y ↦ listen_loop quoted calls y (actions ++ printed quoted y.told)
  ]

  -- The loop prints the events of its calls in order.
  pub listen_loop-arrivals :
      (calls : List Arrivals) (x : UartRadio) (actions : List Action)
      → All IsTimely calls
      → IsListening x.driver
      → listen_loop quoted (map arrivals_call calls) x actions
        ≡ Smoke.running (heard_in calls x) (actions ++ lines_of calls)
  unfolding listen_loop
  listen_loop-arrivals [] x actions timely listens = ap (Smoke.running x) (sym (append-nil actions))
  listen_loop-arrivals (a ∷ calls) x actions (first, others) listens =
      let x1 = record x { told = [] } in
      ap (behind_call (map arrivals_call calls) actions) (next_event-untaken a x1 first listens)
      ∙ listen_loop-arrivals calls (heard_all a.events x1) (actions ++ printed quoted a.events)
          others (heard_all-IsListening a.events x1 listens first.are_heard first.fit)
      ∙ ap (Smoke.running (heard_in (a ∷ calls) x))
          (append_assoc actions (printed quoted a.events) (lines_of calls))

pub written-heard_in :
    (calls : List Arrivals) (x : UartRadio) → (heard_in calls x).written ≡ x.written
written-heard_in [] x = refl
written-heard_in (a ∷ calls) x =
    written-heard_in calls (heard_all a.events (record x { told = [] }))

pub heard_in-IsListening :
    (calls : List Arrivals) (x : UartRadio)
    → All IsTimely calls
    → IsListening x.driver
    → IsListening (heard_in calls x).driver
heard_in-IsListening [] x timely listens = listens
heard_in-IsListening (a ∷ calls) x (first, others) listens =
    let x1 = record x { told = [] } in
    heard_in-IsListening calls (heard_all a.events x1) others
      (heard_all-IsListening a.events x1 listens first.are_heard first.fit)
