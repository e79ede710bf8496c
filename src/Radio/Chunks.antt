-- ===== src/Radio/Chunks.antt =====
-- The rounds of `pump_until` in rylr998-std/src/radio.rs that read an answer in pieces.
use rylr998_rs.Base.{
  ℕ, ◌+◌, ◌≤◌, ◌<◌, ◌≡◌, refl, ap, ◌∙◌, ◌⊎◌, inl, inr, List, [], ◌∷◌, ◌++◌, Option, none, some, map,
  arith, Bytes, length, Outcome,
}
use rylr998_rs.Types.{Response}
use rylr998_rs.FixedVec.{FixedVec}
use rylr998_rs.Encode.Wire.{crlf}
use rylr998_rs.Decode.Text.{response_text, IsResponse}
use rylr998_rs.Decode.Short.{IsLine}
use rylr998_rs.Driver.{Driver, State, AwaitKind, rx_capacity, push_rx, next_line_end}
use rylr998_rs.Driver.Turns.{resolve}
use rylr998_rs.Driver.Invariant.{IsValid, push_rx-IsValid}
use rylr998_rs.Driver.Operations.{push_rx_fits}
use rylr998_rs.Driver.Lines.{consumed}
use rylr998_rs.Driver.Exchange.{IsQuiet, Answers, poll-answer}
use rylr998_rs.Driver.Session.{IsValid-after}
use rylr998_rs.Driver.Partial.{poll-no_line}
use rylr998_rs.Radio.{
  Error, Radio, Round, Pumped, waiting, turn_step, drain_fuel, end_round, behind_drain, round_turn,
  pump_until,
}
use rylr998_rs.Radio.Answering.{reads, drain_stop, take_in_fits, before_deadline, answered_round}

-- A piece that is read, and the time at the end of its round.
abbrev pub Chunk : Type 0
Chunk = Bytes × ℕ

abbrev pub chunk_rounds : List Chunk → List Round
chunk_rounds chunks = map (λ c. reads c.0 c.1) chunks

abbrev pub joined : List Chunk → Bytes
joined [] = []
joined (c ∷ chunks) = c.0 ++ joined chunks

pub List-cases : (s : Bytes) → (s ≡ []) ⊎ ((c : ℕ) × (more : Bytes) × (s ≡ c ∷ more))
List-cases [] = inl refl
List-cases (c ∷ more) = inr (c, more, refl)

-- A command that has been sent, with this much received since.
pub record HasGot (kind : AwaitKind) (got : Bytes) (d : Driver) : Type 0 where
  pub valid : IsValid d
  pub state_is : d.state ≡ State.awaiting kind
  pub received : d.rx ≡ got
  pub nothing_queued : d.tx ≡ []

all_sent :
    {k : AwaitKind} {got : Bytes} (d : Driver) → HasGot k got d → d.tx_in_flight ≡ length d.tx
all_sent d h = omega (arith, h.valid.in_flight, ap length h.nothing_queued)

module _ ⦃v : FixedVec⦄ where
  pub pushed-HasGot :
      {k : AwaitKind} {got : Bytes} (bytes : Bytes) (d : Driver)
      → HasGot k got d
      → length got + length bytes ≤ rx_capacity
      → HasGot k (got ++ bytes) (push_rx bytes d).1
  pushed-HasGot bytes d h fit =
      let eq = ap (λ o. o.1) (push_rx_fits bytes d (omega (arith, ap length h.received))) in
      record {
        valid = push_rx-IsValid bytes d h.valid;
        state_is = ap (λ e. e.state) eq ∙ h.state_is;
        received = ap (λ e. e.rx) eq ∙ ap (λ s. s ++ bytes) h.received;
        nothing_queued = ap (λ e. e.tx) eq ∙ h.nothing_queued;
      }

  -- A round that reads another piece.
  pub chunk_round :
      {R : Type 0} {k : AwaitKind} {got : Bytes} (deadline now : ℕ)
      (want : Response → Option (Outcome Error R)) (bytes : Bytes) (x : Radio)
      → HasGot k got x.driver
      → next_line_end got ≡ none
      → length got + length bytes ≤ rx_capacity
      → now < deadline
      → round_turn deadline want (reads bytes now) x
        ≡ waiting (record x { driver = (push_rx bytes x.driver).1 })
  unfolding round_turn
  chunk_round deadline now want bytes x h no_end fit early =
      ap (behind_drain deadline (reads bytes now)) (
        drain_stop want none (drain_fuel x) x (omega arith) (
          ap (λ t. turn_step want none t x)
            (poll-no_line x.driver (all_sent x.driver h) (ap next_line_end h.received ∙ no_end))))
      ∙ ap (end_round deadline now) (take_in_fits bytes x (omega (arith, ap length h.received)))
      ∙ before_deadline _ deadline now _ early

  -- The answer is complete: the next round returns it.
  pub complete :
      {R : Type 0} {k : AwaitKind} (deadline : ℕ) (want : Response → Option (Outcome Error R))
      (r : Response) (round : Round) (rounds : List Round) (x : Radio) {out : Outcome Error R}
      → HasGot k (response_text r ++ crlf) x.driver
      → Answers k r
      → IsResponse r
      → IsLine (response_text r)
      → want r ≡ some out
      → (y : Radio) × (pump_until deadline want (round ∷ rounds) x ≡ Pumped.returned out y)
        × IsQuiet y.driver
        × (y.written ≡ x.written)
        × (y.events ≡ x.events)
  complete {k = k} deadline want r round rounds x h answers good line e =
      let answer = poll-answer k r [] x.driver h.valid h.state_is answers good (record {
        quiet = all_sent x.driver h;
        received = h.received;
        one_line = line.one_line;
        short = line.short;
      }) in
      let d = resolve (consumed (response_text r) [] x.driver) in
      (
        record x { driver = d },
        answered_round deadline want round rounds x r answer e,
        record {
          valid = IsValid-after x.driver h.valid answer;
          is_idle = refl;
          nothing_received = refl;
          nothing_queued = h.nothing_queued;
        },
        refl,
        refl,
      )
