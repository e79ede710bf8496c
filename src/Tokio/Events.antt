-- ===== src/Tokio/Events.antt =====
-- The events that `run_task` of rylr998-tokio/src/lib.rs sends on.
use rylr998_rs.Base.{
  ℕ, zero, suc, ◌+◌, ◌≤◌, ◌<◌, ◌≡◌, refl, sym, ap, ◌∙◌, List, [], ◌∷◌, ◌++◌, append_assoc,
  append-nil, map, arith, All, length, length-append,
}
use rylr998_rs.Types.{Event, OwnedEvent, into_owned}
use rylr998_rs.FixedVec.{FixedVec}
use rylr998_rs.Driver.{push_rx}
use rylr998_rs.Driver.Turns.{Turn}
use rylr998_rs.Driver.Invariant.{push_rx-IsValid}
use rylr998_rs.Driver.Operations.{push_rx_fits}
use rylr998_rs.Driver.Batch.{
  IsHeard, batch_text, batch_then-append, batch_text-append, length-batch_then, Holds, IsListening,
  reported, reported-Holds, poll-Holds,
}
use rylr998_rs.Radio.{Radio, drain_fuel}
use rylr998_rs.Radio.Answering.{poll-empty}
use rylr998_rs.Tokio.{Channel, taken, bytes_read}
use rylr998_rs.Tokio.Tasks.{
  Task, running, IdleStep, stop, next, idle_event_step, idle_step, idle_drain, idle_read,
}

-- The task goes on, with these events sent and nothing left to send or to read.
abbrev pub Sends : List Event → Task → Radio → Type 0
Sends es t x =
    (y : Radio) × (t ≡ running y)
    × (y.events ≡ x.events ++ map into_owned es)
    × IsListening y.driver
    × (y.written ≡ x.written)

-- The channel takes the first `n` events that it is sent.
abbrev pub Takes : ℕ → Channel → Type 0
Takes n c = (sent : List OwnedEvent) → length sent < n → c.send sent ≡ taken

module _ ⦃v : FixedVec⦄ ⦃c : Channel⦄ where
  -- The rest of the inner loop behind one `poll`.
  abbrev behind_event : ℕ → IdleStep → Task
  behind_event fuel s = elim s as (λ u. Task) [ stop out ↦ out | next y ↦ idle_drain fuel y ]

  abbrev behind_poll : ℕ → Radio → Turn → Task
  behind_poll fuel x t = behind_event fuel (idle_step t x)

  idle_drain-batch :
      (es : List Event) (fuel : ℕ) (x : Radio)
      → Holds es [] x.driver
      → All IsHeard es
      → length es < fuel
      → Takes (length x.events + length es) c
      → Sends es (idle_drain fuel x) x
  unfolding idle_drain
  idle_drain-batch es zero x h heard enough room = absurd (omega arith)
  idle_drain-batch [] (suc fuel) x h heard enough room = (
    x,
    ap (behind_poll fuel x) (poll-empty x.driver h.nothing_queued h.received),
    sym (append-nil x.events),
    h,
    refl,
  )
  idle_drain-batch (e ∷ es) (suc fuel) x h (first, rest) enough room =
      let d = reported e es [] x.driver in
      let z = record x { driver = d; events = x.events ++ into_owned e ∷ [] } in
      let sent = poll-Holds e es [] x.driver h first in
      let (y, runs, events, left, written) =
        idle_drain-batch es fuel z (reported-Holds e es [] x.driver h first) rest (omega arith)
          (λ s less. room s (omega (arith, less, length-append x.events (into_owned e ∷ [])))) in
      (
        y,
        ap (behind_poll fuel x) sent
            ∙ ap (λ o. behind_event fuel (idle_event_step o e d x)) (room x.events (omega arith))
            ∙ runs,
        events ∙ append_assoc x.events (into_owned e ∷ []) (map into_owned es),
        left,
        written,
      )

  -- Between two jobs, with nothing to send and no factory reset under way, the events whose lines
  -- have been received and those whose lines a read brings are sent on in order, and nothing is
  -- left received. The events are well-typed, their lines have no `\r` in them and are at most 288
  -- bytes long, all together they fit the receive queue, and the bounded channel takes each of
  -- them.
  pub idle_read-batch :
      (es fs : List Event) (x : Radio)
      → Holds es [] x.driver
      → All IsHeard (es ++ fs)
      → length (batch_text (es ++ fs)) ≤ 512
      → Takes (length x.events + length (es ++ fs)) c
      → Sends (es ++ fs) (idle_read (bytes_read (batch_text fs)) x) x
  unfolding idle_read
  idle_read-batch es fs x h heard fit room =
      let d = (push_rx (batch_text fs) x.driver).1 in
      let total = batch_then-append es [] (batch_text fs) ∙ sym (batch_text-append es fs) in
      let got : d ≡ record x.driver { rx = batch_text (es ++ fs) } =
        ap (λ o. o.1)
          (push_rx_fits (batch_text fs) x.driver (
            omega (
              arith,
              ap length total,
              ap length h.received,
              length-append (batch_text es) (batch_text fs),
            )))
        ∙ ap (λ s. record x.driver { rx = s }) (ap (λ s. s ++ batch_text fs) h.received ∙ total) in
      let holds : Holds (es ++ fs) [] d = record {
        valid = push_rx-IsValid (batch_text fs) x.driver h.valid;
        received = ap (λ e. e.rx) got;
        nothing_queued = ap (λ e. e.tx) got ∙ h.nothing_queued;
        no_reset = ap (λ e. e.awaiting_ready_as_ok) got ∙ h.no_reset;
      } in
      let y = record x { driver = d } in
      idle_drain-batch (es ++ fs) (drain_fuel y) y holds heard
        (omega (arith, length-batch_then (es ++ fs) [], ap length holds.received)) room
