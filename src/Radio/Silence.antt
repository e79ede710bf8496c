-- ===== src/Radio/Silence.antt =====
-- A method of rylr998-std/src/radio.rs whose command is not answered, and the methods after it.
use rylr998_rs.Base.{
  ℕ, ◌+◌, ◌≤◌, ◌<◌, ◌≡◌, refl, ap, ◌∙◌, List, [], ◌∷◌, ◌++◌, Option, none, map, arith, length, All,
  Outcome, ok, err,
}
use rylr998_rs.Types.{Command, Response, Poll, IsTyped}
use rylr998_rs.FixedVec.{FixedVec}
use rylr998_rs.Encode.Wire.{wire}
use rylr998_rs.Encode.Fits.{IsBrief, wire_fits}
use rylr998_rs.Driver.{Driver, State, AwaitKind, kind_of, submit}
use rylr998_rs.Driver.Operations.{submit_fits, submit_busy}
use rylr998_rs.Driver.Exchange.{
  IsQuiet, IsPending, IsAwaiting, handed_out, submit-IsPending, ack_tx-IsAwaiting,
}
use rylr998_rs.Radio.{
  Error, Radio, Round, nothing_yet, quiet, Pumped, waiting, wrote, turn_step, drain, drain_fuel,
  take_in, end_round, behind_drain, round_turn, pump_until,
}
use rylr998_rs.Radio.Methods.{submitted, request}
use rylr998_rs.Radio.Answering.{drain_stop, poll-empty, drain-IsPending, before_deadline, go_on}

-- A round in which nothing fails and nothing is read.
abbrev pub silent : ℕ → Round
silent now = record { write_error = none; read = nothing_yet; now = now }

module _ ⦃v : FixedVec⦄ where
  -- With empty queues there is nothing to do.
  pub drain-empty :
      {R : Type 0} (want : Response → Option (Outcome Error R)) (w : Option ℕ) (x : Radio)
      → x.driver.tx ≡ []
      → x.driver.rx ≡ []
      → drain (drain_fuel x) want w x ≡ quiet x
  drain-empty want w x sent read =
      drain_stop want w (drain_fuel x) x (omega arith)
        (ap (λ t. turn_step want w t x) (poll-empty x.driver sent read))

  pub silent_turn :
      {R : Type 0} (deadline now : ℕ) (want : Response → Option (Outcome Error R)) (x : Radio)
      {y : Radio}
      → drain (drain_fuel x) want none x ≡ quiet y
      → round_turn deadline want (silent now) x ≡ end_round deadline now (ok tt, y)
  unfolding round_turn take_in
  silent_turn deadline now want x h = ap (behind_drain deadline (silent now)) h

  pub past_deadline :
      (R : Type 0) (deadline now : ℕ) (z : Radio)
      → deadline ≤ now
      → ◌≡◌ {A = Pumped R}
          (end_round deadline now (ok tt, z))
          (Pumped.returned (err Error.timeout) z)
  past_deadline R deadline now z h = ground arith

  pub stops :
      {R : Type 0} (deadline : ℕ) (want : Response → Option (Outcome Error R)) (round : Round)
      (rounds : List Round) (x : Radio) {out : Outcome Error R} {y : Radio}
      → round_turn deadline want round x ≡ Pumped.returned out y
      → pump_until deadline want (round ∷ rounds) x ≡ Pumped.returned out y
  unfolding pump_until
  stops {R = R} deadline want round rounds x h =
      ap
        (λ (t : Pumped R). elim t as (λ u. Pumped R) [
          | Pumped.returned out y ↦ Pumped.returned out y
          | waiting y ↦ pump_until deadline want rounds y
        ])
        h

  -- A radio with empty queues passes over silent rounds.
  pub pump-silence :
      {R : Type 0} (deadline : ℕ) (want : Response → Option (Outcome Error R)) (times : List ℕ)
      (rounds : List Round) (x : Radio)
      → x.driver.tx ≡ []
      → x.driver.rx ≡ []
      → All (λ t. t < deadline) times
      → pump_until deadline want (map silent times ++ rounds) x ≡ pump_until deadline want rounds x
  pump-silence deadline want [] rounds x sent read early = refl
  pump-silence deadline want (t ∷ times) rounds x sent read (first, rest) =
      go_on deadline want (silent t) (map silent times ++ rounds) x (
        silent_turn deadline t want x (drain-empty want none x sent read)
        ∙ before_deadline _ deadline t x first)
      ∙ pump-silence deadline want times rounds x sent read rest

  -- The first silent round that ends at the deadline or later is a timeout.
  pub pump-timeout :
      {R : Type 0} (deadline late : ℕ) (want : Response → Option (Outcome Error R)) (times : List ℕ)
      (rounds : List Round) (x : Radio)
      → x.driver.tx ≡ []
      → x.driver.rx ≡ []
      → All (λ t. t < deadline) times
      → deadline ≤ late
      → pump_until deadline want (map silent times ++ silent late ∷ rounds) x
        ≡ Pumped.returned (err Error.timeout) x
  pump-timeout deadline late want times rounds x sent read early over =
      pump-silence deadline want times (silent late ∷ rounds) x sent read early
      ∙ stops deadline want (silent late) rounds x (
          silent_turn deadline late want x (drain-empty want none x sent read)
          ∙ past_deadline _ deadline late x over)

  pending_timeout :
      {R : Type 0} (deadline late : ℕ) (want : Response → Option (Outcome Error R)) (times : List ℕ)
      (rounds : List Round) (cmd : Command) (x : Radio)
      → IsPending cmd x.driver
      → All (λ t. t < deadline) times
      → deadline ≤ late
      → pump_until deadline want (map silent times ++ silent late ∷ rounds) x
        ≡ Pumped.returned (err Error.timeout) (wrote (wire cmd) (handed_out x.driver) x)
  pending_timeout deadline late want [] rounds cmd x p early over =
      stops deadline want (silent late) rounds x (
        silent_turn deadline late want x (drain-IsPending want cmd x p)
        ∙ past_deadline _ deadline late _ over)
  pending_timeout deadline late want (t ∷ times) rounds cmd x p (first, rest) over =
      let a = ack_tx-IsAwaiting cmd x.driver p in
      go_on deadline want (silent t) (map silent times ++ silent late ∷ rounds) x (
        silent_turn deadline t want x (drain-IsPending want cmd x p)
        ∙ before_deadline _ deadline t _ first)
      ∙ pump-timeout deadline late want times rounds (wrote (wire cmd) (handed_out x.driver) x)
          a.nothing_queued a.nothing_received rest over

  -- A method on a radio with nothing to do that gets no answer writes its line and returns `Timeout`
  -- in the first round that ends at its deadline or later; its driver goes on waiting for the answer.
  pub request-timeout :
      {R : Type 0} (cmd : Command) (want : Response → Option (Outcome Error R))
      (timeout start late : ℕ) (times : List ℕ) (rounds : List Round) (x : Radio)
      → IsQuiet x.driver
      → IsTyped cmd
      → IsBrief cmd
      → All (λ t. t < start + timeout) times
      → start + timeout ≤ late
      → (y : Radio) × (request cmd want timeout start (map silent times ++ silent late ∷ rounds) x
          ≡ Pumped.returned (err Error.timeout) y)
        × IsAwaiting (kind_of cmd) y.driver
        × (y.written ≡ x.written ++ wire cmd)
        × (y.events ≡ x.events)
  unfolding request
  request-timeout cmd want timeout start late times rounds x q typed brief early over =
      let fit = wire_fits cmd typed brief in
      let p = submit-IsPending cmd x.driver q typed fit in
      let x1 = record x { driver = (submit cmd x.driver).1 } in
      (
        wrote (wire cmd) (handed_out x1.driver) x1,
        ap (λ o. submitted (start + timeout) want (map silent times ++ silent late ∷ rounds) x1 o)
              (ap (λ o. o.0)
                (submit_fits cmd x.driver q.is_idle typed
                  (omega (arith, ap length q.nothing_queued))))
            ∙ pending_timeout (start + timeout) late want times rounds cmd x1 p early over,
        ack_tx-IsAwaiting cmd x1.driver p,
        refl,
        refl,
      )

  -- While a driver awaits an answer, every method is refused with `Busy` and changes nothing.
  pub request-busy :
      {R : Type 0} (cmd : Command) (want : Response → Option (Outcome Error R)) (timeout start : ℕ)
      (rounds : List Round) (x : Radio) {k : AwaitKind}
      → x.driver.state ≡ State.awaiting k
      → request cmd want timeout start rounds x
        ≡ Pumped.returned (err (Error.core rylr998_rs.Types.Error.busy)) x
  unfolding request
  request-busy cmd want timeout start rounds x state =
      ap
        (λ (o : Outcome rylr998_rs.Types.Error (Unit {0}) × Driver).
          submitted (start + timeout) want rounds (record x { driver = o.1 }) o.0)
        (submit_busy cmd x.driver (λ e. cc))

  -- A method that gets no answer leaves a radio that refuses every later method with `Busy`, before
  -- anything is written, whatever the port would answer.
  pub request-stuck :
      {R S : Type 0} (cmd later : Command) (want : Response → Option (Outcome Error R))
      (later_want : Response → Option (Outcome Error S)) (timeout start late : ℕ) (times : List ℕ)
      (rounds : List Round) (later_timeout later_start : ℕ) (later_rounds : List Round) (x : Radio)
      → IsQuiet x.driver
      → IsTyped cmd
      → IsBrief cmd
      → All (λ t. t < start + timeout) times
      → start + timeout ≤ late
      → (y : Radio) × (request cmd want timeout start (map silent times ++ silent late ∷ rounds) x
          ≡ Pumped.returned (err Error.timeout) y)
        × (y.written ≡ x.written ++ wire cmd)
        × (request later later_want later_timeout later_start later_rounds y
            ≡ Pumped.returned (err (Error.core rylr998_rs.Types.Error.busy)) y)
  request-stuck cmd later want later_want timeout start late times rounds later_timeout later_start
        later_rounds x q typed brief early over =
      let (y, times_out, awaits, written, events) =
        request-timeout cmd want timeout start late times rounds x q typed brief early over in
      (
        y,
        times_out,
        written,
        request-busy later later_want later_timeout later_start later_rounds y awaits.state_is,
      )
