-- ===== src/Driver/Batch.antt =====
-- The lines of several events in the receive queue of the driver of rylr998-core/src/driver.rs.
use rylr998_rs.Base.{
  ◌+◌, ◌≤◌, ◌≡◌, refl, ap, ◌∙◌, false, List, [], ◌∷◌, ◌++◌, append_assoc, arith, Bytes, length,
  length-append, Lacks,
}
use rylr998_rs.Types.{Event, Poll}
use rylr998_rs.FixedVec.{FixedVec}
use rylr998_rs.Encode.Wire.{crlf}
use rylr998_rs.Decode.Text.{event_text, IsEvent}
use rylr998_rs.Driver.{Driver, line_capacity}
use rylr998_rs.Driver.Turns.{done, poll}
use rylr998_rs.Driver.Invariant.{IsValid}
use rylr998_rs.Driver.Lines.{Sees, consumed}
use rylr998_rs.Driver.Session.{poll-event, consumed-IsValid}

-- An event whose line is one line and fits the line buffer.
pub record IsHeard (e : Event) : Type 0 where
  pub good : IsEvent e
  pub one_line : Lacks b'\r' (event_text e)
  pub short : length (event_text e) ≤ line_capacity

-- The lines of these events, one behind the other, and then this text.
abbrev pub batch_then : List Event → Bytes → Bytes
batch_then [] rest = rest
batch_then (e ∷ es) rest = event_text e ++ (crlf ++ batch_then es rest)

abbrev pub batch_text : List Event → Bytes
batch_text es = batch_then es []

pub batch_then-append :
    (es : List Event) (rest more : Bytes)
    → batch_then es rest ++ more ≡ batch_then es (rest ++ more)
batch_then-append [] rest more = refl
batch_then-append (e ∷ es) rest more =
    append_assoc (event_text e) (crlf ++ batch_then es rest) more
    ∙ ap (λ s. event_text e ++ (crlf ++ s)) (batch_then-append es rest more)

pub batch_text-append : (es fs : List Event) → batch_text (es ++ fs) ≡ batch_then es (batch_text fs)
batch_text-append [] fs = refl
batch_text-append (e ∷ es) fs = ap (λ s. event_text e ++ (crlf ++ s)) (batch_text-append es fs)

-- There are no more events than bytes.
pub length-batch_then :
    (es : List Event) (rest : Bytes) → length es + length rest ≤ length (batch_then es rest)
length-batch_then [] rest = omega arith
length-batch_then (e ∷ es) rest =
    omega
      (arith, length-append (event_text e) (crlf ++ batch_then es rest), length-batch_then es rest)

-- Nothing to send, no factory reset under way, and received the lines of these events and then
-- this text.
pub record Holds (es : List Event) (rest : Bytes) (d : Driver) : Type 0 where
  pub valid : IsValid d
  pub received : d.rx ≡ batch_then es rest
  pub nothing_queued : d.tx ≡ []
  pub no_reset : d.awaiting_ready_as_ok ≡ false

-- Nothing to send and nothing received.
abbrev pub IsListening : Driver → Type 0
IsListening = Holds [] []

Holds-Sees :
    (e : Event) (es : List Event) (rest : Bytes) (d : Driver)
    → Holds (e ∷ es) rest d
    → IsHeard e
    → Sees d (event_text e) (batch_then es rest)
Holds-Sees e es rest d h k = record {
  quiet = omega (arith, h.valid.in_flight, ap length h.nothing_queued);
  received = h.received;
  one_line = k.one_line;
  short = k.short;
}

-- The driver that has reported the first event.
abbrev pub reported : Event → List Event → Bytes → Driver → Driver
reported e es rest d = consumed (event_text e) (batch_then es rest) d

pub reported-Holds :
    (e : Event) (es : List Event) (rest : Bytes) (d : Driver)
    → Holds (e ∷ es) rest d
    → IsHeard e
    → Holds es rest (reported e es rest d)
reported-Holds e es rest d h k = record {
  valid =
      consumed-IsValid (event_text e) (batch_then es rest) d (Holds-Sees e es rest d h k) h.valid;
  received = refl;
  nothing_queued = h.nothing_queued;
  no_reset = h.no_reset;
}

-- Bytes that fit are received behind the others.
abbrev pub receiving : Bytes → Driver → Driver
receiving bytes d = record d { rx = bytes }

pub receiving-Holds :
    (es : List Event) (rest : Bytes) (d : Driver)
    → IsListening d
    → length (batch_then es rest) ≤ 512
    → Holds es rest (receiving (batch_then es rest) d)
receiving-Holds es rest d l fit = record {
  valid = record {
    rx_fits = fit;
    tx_fits = l.valid.tx_fits;
    in_flight = l.valid.in_flight;
    line_size = l.valid.line_size;
    line_fits = l.valid.line_fits;
    states = l.valid.states;
  };
  received = refl;
  nothing_queued = l.nothing_queued;
  no_reset = l.no_reset;
}

module _ ⦃v : FixedVec⦄ where
  -- The first event is reported.
  pub poll-Holds :
      (e : Event) (es : List Event) (rest : Bytes) (d : Driver)
      → Holds (e ∷ es) rest d
      → IsHeard e
      → poll d ≡ done (reported e es rest d) (Poll.event e)
  poll-Holds e es rest d h k =
      poll-event e (batch_then es rest) d h.valid h.no_reset k.good (Holds-Sees e es rest d h k)
