-- ===== src/Radio/Deadline.antt =====
-- `pump_until` in rylr998-std/src/radio.rs returns by its deadline.
use rylr998_rs.Base.{
  ℕ, ◌≤◌, ◌<◌, ◌⊎◌, inl, inr, List, [], ◌∷◌, Option, arith, Outcome, ok, err, panic,
}
use rylr998_rs.Types.{Response}
use rylr998_rs.FixedVec.{FixedVec}
use rylr998_rs.Driver.Invariant.{IsValid}
use rylr998_rs.Radio.{
  Error, Radio, Round, Drained, quiet, unfinished, Pumped, waiting, drain, drain_fuel, take_in,
  end_round, behind_drain, round_turn, pump_until,
}
use rylr998_rs.Radio.Draining.{Ends, drain-Ends, take_in-IsValid}

-- Some round ends at the deadline or later.
abbrev pub Reaches : ℕ → List Round → Type 0
Reaches deadline [] = ⊥
Reaches deadline (round ∷ rounds) = (deadline ≤ round.now) ⊎ Reaches deadline rounds

-- The call has returned, and its driver is valid.
abbrev pub Returns : {R : Type 0} → Pumped R → Type 0
Returns (Pumped.returned o x) = IsValid x.driver
Returns (waiting x) = ⊥

-- A round returns, or leaves a valid driver before the deadline.
abbrev GoesOn : {R : Type 0} → ℕ → ℕ → Pumped R → Type 0
GoesOn deadline now (Pumped.returned o x) = IsValid x.driver
GoesOn deadline now (waiting x) = IsValid x.driver × (now < deadline)

module _ ⦃v : FixedVec⦄ where
  end_round-GoesOn :
      (R : Type 0) (deadline now : ℕ) (o : Outcome Error (Unit {0})) (z : Radio)
      → IsValid z.driver
      → GoesOn {R = R} deadline now (end_round deadline now (o, z))
  end_round-GoesOn R deadline now (ok u) z h = ground arith
  end_round-GoesOn R deadline now (err e) z h = h
  end_round-GoesOn R deadline now panic z h = h

  behind_drain-GoesOn :
      {R : Type 0} (deadline : ℕ) (round : Round) (t : Drained R)
      → Ends t
      → GoesOn deadline round.now (behind_drain deadline round t)
  behind_drain-GoesOn deadline round (quiet y) h =
      let (o, z) = take_in round.read y in
      end_round-GoesOn _ deadline round.now (take_in round.read y).0 (take_in round.read y).1
        (take_in-IsValid round.read y h)
  behind_drain-GoesOn deadline round (Drained.returned out y) h = h
  behind_drain-GoesOn deadline round (unfinished y) h = absurd h

  pub round_turn-GoesOn :
      {R : Type 0} (deadline : ℕ) (want : Response → Option (Outcome Error R)) (round : Round)
      (x : Radio)
      → IsValid x.driver
      → GoesOn deadline round.now (round_turn deadline want round x)
  unfolding round_turn
  round_turn-GoesOn deadline want round x h =
      behind_drain-GoesOn deadline round (drain (drain_fuel x) want round.write_error x)
        (drain-Ends want round.write_error (drain_fuel x) x h (omega arith))

  after :
      {R : Type 0} (deadline now : ℕ) (want : Response → Option (Outcome Error R))
      (rounds : List Round) (t : Pumped R)
      → GoesOn deadline now t
      → ((y : Radio)
          → IsValid y.driver
          → now < deadline
          → Returns (pump_until deadline want rounds y))
      → Returns (elim t [
        | Pumped.returned out y ↦ Pumped.returned out y
        | waiting y ↦ pump_until deadline want rounds y
      ])
  after deadline now want rounds (Pumped.returned out y) h f = h
  after deadline now want rounds (waiting y) (h, early) f = f y h early

  -- `pump_until` returns at the latest in the first round that ends at the deadline or later,
  -- whatever the port answers, and leaves a valid driver. No round runs the inner loop forever.
  pub pump_until-Returns :
      {R : Type 0} (deadline : ℕ) (want : Response → Option (Outcome Error R)) (rounds : List Round)
      (x : Radio)
      → IsValid x.driver
      → Reaches deadline rounds
      → Returns (pump_until deadline want rounds x)
  unfolding pump_until
  pump_until-Returns deadline want [] x h k = absurd k
  pump_until-Returns deadline want (round ∷ rounds) x h k =
      after deadline round.now want rounds (round_turn deadline want round x)
        (round_turn-GoesOn deadline want round x h)
        (λ y hy early. elim k [
          | inl late ↦ absurd (omega arith)
          | inr later ↦ pump_until-Returns deadline want rounds y hy later
        ])
