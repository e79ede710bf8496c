-- ===== src/Radio/NextEvent.antt =====
-- `next_event` of rylr998-std/src/radio.rs: when it returns, and with what.
use rylr998_rs.Base.{
  ℕ, ◌+◌, ◌≤◌, ◌<◌, ◌≡◌, refl, sym, ap, ◌∙◌, List, [], ◌∷◌, ◌++◌, append-nil, Option, none, map,
  All, Outcome, ok, err, panic,
}
use rylr998_rs.Types.{Event, OwnedEvent, into_owned, Response}
use rylr998_rs.FixedVec.{FixedVec}
use rylr998_rs.Encode.Wire.{crlf}
use rylr998_rs.Decode.Text.{event_text}
use rylr998_rs.Radio.{Error, Radio, Round, Pumped, waiting, pump_until}
use rylr998_rs.Radio.Methods.{next_event, pop_event, pumped_event}
use rylr998_rs.Radio.Answering.{reads, before_deadline, go_on}
use rylr998_rs.Radio.Silence.{silent, silent_turn, past_deadline, stops, pump-silence, pump-timeout}
use rylr998_rs.Driver.Batch.{IsListening, IsHeard}
use rylr998_rs.Radio.Listening.{hearing, heard, kept, drain-event, hearing_round, next_event-pumps}

module _ ⦃v : FixedVec⦄ where
  -- The silent rounds behind the line of an event, before the deadline.
  kept_silence :
      {R : Type 0} (deadline t : ℕ) (want : Response → Option (Outcome Error R)) (times : List ℕ)
      (rounds : List Round) (e : Event) (x : Radio)
      → IsListening x.driver
      → IsHeard e
      → All (λ t. t < deadline) (t ∷ times)
      → pump_until deadline want
          (map silent (t ∷ times) ++ rounds)
          (record x { driver = hearing e x.driver })
        ≡ pump_until deadline want rounds (kept e x)
  kept_silence deadline t want times rounds e x l h (first, rest) =
      go_on deadline want (silent t) (map silent times ++ rounds) _ (
        silent_turn deadline t want _ (drain-event want none e x l h)
        ∙ before_deadline _ deadline t (kept e x) first)
      ∙ pump-silence deadline want times rounds (kept e x) l.nothing_queued refl rest

  kept_timeout :
      {R : Type 0} (deadline late : ℕ) (want : Response → Option (Outcome Error R)) (times : List ℕ)
      (rounds : List Round) (e : Event) (x : Radio)
      → IsListening x.driver
      → IsHeard e
      → All (λ t. t < deadline) times
      → deadline ≤ late
      → pump_until deadline want
          (map silent times ++ silent late ∷ rounds)
          (record x { driver = hearing e x.driver })
        ≡ Pumped.returned (err Error.timeout) (kept e x)
  kept_timeout deadline late want [] rounds e x l h early over =
      stops deadline want (silent late) rounds _ (
        silent_turn deadline late want _ (drain-event want none e x l h)
        ∙ past_deadline _ deadline late (kept e x) over)
  kept_timeout deadline late want (t ∷ times) rounds e x l h early over =
      kept_silence deadline t want times (silent late ∷ rounds) e x l h early
      ∙ pump-timeout deadline late want [] rounds (kept e x) l.nothing_queued refl tt over

  -- `next_event` on a radio that keeps no event and reads the line of one before its deadline returns
  -- that event, in the first round that ends at the deadline or later.
  pub next_event-event :
      (timeout start now late : ℕ) (times : List ℕ) (rounds : List Round) (e : Event) (x : Radio)
      → IsListening x.driver
      → x.events ≡ []
      → IsHeard e
      → now < start + timeout
      → All (λ t. t < start + timeout) times
      → start + timeout ≤ late
      → next_event timeout start
          (reads (event_text e ++ crlf) now ∷ (map silent times ++ silent late ∷ rounds))
          x
        ≡ Pumped.returned (ok (into_owned e)) (record x { driver = heard e x.driver; events = [] })
  next_event-event timeout start now late times rounds e x l none_kept h soon early over =
      let deadline = start + timeout in
      next_event-pumps timeout start _ x none_kept
      ∙ ap pumped_event (
          go_on deadline (λ r. none) _ (map silent times ++ silent late ∷ rounds) x
            (hearing_round deadline now (λ r. none) e x l h soon)
          ∙ kept_timeout deadline late (λ r. none) times rounds e x l h early over)
      ∙ ap
          (λ es.
            pop_event (record x { driver = heard e x.driver; events = es ++ into_owned e ∷ [] })
              (es ++ into_owned e ∷ []))
          none_kept

  -- Before that it goes on waiting, with the event kept.
  next_event-waits :
      (timeout start now t : ℕ) (times : List ℕ) (e : Event) (x : Radio)
      → IsListening x.driver
      → x.events ≡ []
      → IsHeard e
      → now < start + timeout
      → All (λ t. t < start + timeout) (t ∷ times)
      → next_event timeout start (reads (event_text e ++ crlf) now ∷ map silent (t ∷ times)) x
        ≡ Pumped.waiting (kept e x)
  unfolding pump_until
  next_event-waits timeout start now t times e x l none_kept h soon early =
      let deadline = start + timeout in
      next_event-pumps timeout start _ x none_kept
      ∙ ap pumped_event (
          go_on deadline (λ r. none) _ (map silent (t ∷ times)) x
            (hearing_round deadline now (λ r. none) e x l h soon)
          ∙ ap (λ rs. pump_until deadline (λ r. none) rs (record x { driver = hearing e x.driver }))
              (sym (append-nil (map silent (t ∷ times))))
          ∙ kept_silence deadline t (λ r. none) times [] e x l h early)

  -- `next_event` on a radio that keeps no event, with nothing to send, nothing received and no
  -- factory reset under way, whose first read brings the line of an event before the deadline,
  -- does not return in the silent rounds before the deadline, and returns the event in the first
  -- one that ends at the deadline or later. The event is well-typed, and its line has no `\r` in
  -- it and is at most 288 bytes long.
  pub next_event-late :
      (timeout start now t late : ℕ) (times : List ℕ) (rounds : List Round) (e : Event) (x : Radio)
      → IsListening x.driver
      → x.events ≡ []
      → IsHeard e
      → now < start + timeout
      → All (λ t. t < start + timeout) (t ∷ times)
      → start + timeout ≤ late
      → (next_event timeout start (reads (event_text e ++ crlf) now ∷ map silent (t ∷ times)) x
          ≡ Pumped.waiting (kept e x))
        × (next_event timeout start
              (reads (event_text e ++ crlf) now ∷ (map silent (t ∷ times) ++ silent late ∷ rounds))
              x
            ≡ Pumped.returned
                (ok (into_owned e))
                (record x { driver = heard e x.driver; events = [] }))
  next_event-late timeout start now t late times rounds e x l none_kept h soon early over = (
    next_event-waits timeout start now t times e x l none_kept h soon early,
    next_event-event timeout start now late (t ∷ times) rounds e x l none_kept h soon early over,
  )

  -- An error of `next_event` is `Timeout`.
  abbrev pub OnlyTimeout : Pumped OwnedEvent → Type 0
  OnlyTimeout (Pumped.returned (err e) y) = e ≡ Error.timeout
  OnlyTimeout (Pumped.returned (ok a) y) = Unit
  OnlyTimeout (Pumped.returned panic y) = Unit
  OnlyTimeout (waiting y) = Unit

  pop_event-OnlyTimeout : (x : Radio) (es : List OwnedEvent) → OnlyTimeout (pop_event x es)
  pop_event-OnlyTimeout x [] = refl
  pop_event-OnlyTimeout x (e ∷ es) = tt

  pumped-OnlyTimeout : (p : Pumped (Unit {0})) → OnlyTimeout (pumped_event p)
  pumped-OnlyTimeout (waiting x) = tt
  pumped-OnlyTimeout (Pumped.returned (ok u) x) = pop_event-OnlyTimeout x x.events
  pumped-OnlyTimeout (Pumped.returned (err e) x) = pop_event-OnlyTimeout x x.events
  pumped-OnlyTimeout (Pumped.returned panic x) = tt

  -- Whatever the port answers, failures included, `next_event` returns no error but `Timeout`.
  pub next_event-OnlyTimeout :
      (timeout start : ℕ) (rounds : List Round) (x : Radio)
      → OnlyTimeout (next_event timeout start rounds x)
  unfolding next_event
  next_event-OnlyTimeout timeout start rounds x = of_queue x.events
    where
      of_queue :
          (es : List OwnedEvent)
          → OnlyTimeout (elim es [
            | [] ↦ pumped_event (pump_until (start + timeout) (λ r. none) rounds x)
            | e ∷ es ↦ Pumped.returned (ok e) (record x { events = es })
          ])
      of_queue [] = pumped-OnlyTimeout (pump_until (start + timeout) (λ r. none) rounds x)
      of_queue (e ∷ es) = tt
