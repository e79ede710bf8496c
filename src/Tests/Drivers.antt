-- ===== src/Tests/Drivers.antt =====
-- Tests of rylr998-core/src/driver.rs: sequences of calls on a new driver.
use rylr998_rs.Base.{◌≤◌, ◌≡◌, refl, arith, position-none, Bytes, codes, length}
use rylr998_rs.Types.{Command, Response, Poll}
use rylr998_rs.Driver.{Driver, State, ack, new, kind_of, submit, rx_capacity}
use rylr998_rs.Driver.Turns.{done, poll}
use rylr998_rs.Driver.Invariant.{IsValid, new-IsValid}
use rylr998_rs.Driver.Polling.{Settles, poll-Settles}
use rylr998_rs.Driver.Exchange.{IsQuiet, handed_out}
use rylr998_rs.Driver.Session.{answered, exchange}
use rylr998_rs.Tests.Vectors.{list_vec}

new-IsQuiet : IsQuiet new
new-IsQuiet = record {
  valid = new-IsValid;
  is_idle = refl;
  nothing_received = refl;
  nothing_queued = refl;
}

-- A driver that has received these bytes, in this state.
abbrev pub receiving : Bytes → State → Driver
receiving bytes state = record new { rx = bytes; state = state }

abbrev pub awaiting_ack : State
awaiting_ack = State.awaiting ack

exchange_example :
    (poll (submit Command.get_band new).1
      ≡ done (handed_out (submit Command.get_band new).1) (Poll.need_tx (codes "AT+BAND?\r\n")))
    × (e : Driver) × (poll (answered Command.get_band (codes "+BAND=915000000") new)
        ≡ done e (Poll.response (Response.band 915000000)))
    × IsQuiet e
unfolding kind_of rylr998_rs.Decimal.decimal
exchange_example =
    exchange Command.get_band (Response.band 915000000) new new-IsQuiet tt (omega arith) refl
      (omega arith) (position-none b'\r' (codes "+BAND=915000000") refl) (omega arith)

poll-Settles_example : Settles (poll new)
poll-Settles_example = poll-Settles new new-IsValid

pub receiving-IsValid :
    (bytes : Bytes) → length bytes ≤ rx_capacity → IsValid (receiving bytes awaiting_ack)
receiving-IsValid bytes h = record {
  rx_fits = h;
  tx_fits = omega arith;
  in_flight = omega arith;
  line_size = refl;
  line_fits = omega arith;
  states = refl;
}
