-- ===== src/Tests/Polls.antt =====
-- Tests of `poll` of rylr998-core/src/driver.rs, and of sequences of calls.
use rylr998_rs.Base.{
  ◌≡◌, refl, true, false, [], ◌++◌, arith, position-none, Bytes, codes, replicate,
}
use rylr998_rs.Types.{Command, Response, Poll}
use rylr998_rs.Encode.Wire.{crlf}
use rylr998_rs.Driver.{
  Driver, State, AwaitKind, QueryKey, ack, query, new, kind_of, is_factory_reset, submit, push_rx,
  ack_tx, advance, rx_capacity, line_capacity, next_line_end,
}
use rylr998_rs.Driver.Turns.{Turn, done, again, fault, resolve, poll}
use rylr998_rs.Driver.Invariant.{IsValid}
use rylr998_rs.Driver.Cases.{expected, poll-first_line}
use rylr998_rs.Driver.Lines.{Sees, consumed, loaded}
use rylr998_rs.Driver.Blocked.{push_rx-stray, poll-long_line}
use rylr998_rs.Driver.Exchange.{Answers}
use rylr998_rs.Driver.Session.{poll-factory_reset}
use rylr998_rs.Driver.Answered.{poll-Answers}
use rylr998_rs.Driver.Stream.{
  Trace, start, accepted, submits, pushes, begin, then_call, IsStream, Reach-IsStream,
}
use rylr998_rs.Driver.Panics.{HasFatal, poll-HasFatal}
use rylr998_rs.Driver.Partial.{push_rx-return}
use rylr998_rs.Tests.Vectors.{list_vec}
use rylr998_rs.Tests.Drivers.{receiving, awaiting_ack, receiving-IsValid}

abbrev answered_driver : Driver
answered_driver = receiving (codes "+BAND=868000000\r\n") (State.awaiting (query QueryKey.band))

abbrev band_driver : Driver
band_driver = resolve (consumed (codes "+BAND=868000000") [] answered_driver)

poll-band : poll answered_driver ≡ done band_driver (Poll.response (Response.band 868000000))
unfolding poll rylr998_rs.Driver.Turns.poll_loop rylr998_rs.Driver.Turns.poll_turn
    rylr998_rs.Driver.Turns.poll_line next_line_end rylr998_rs.Driver.Turns.handle_line
    rylr998_rs.Driver.response_matches rylr998_rs.Decode.parse_response rylr998_rs.Decode.if_prefix
    rylr998_rs.Decode.parse_bytes rylr998_rs.Decode.parse_str rylr998_rs.Utf8.valid_utf8
    rylr998_rs.Decimal.parse_uint rylr998_rs.Decimal.parse_digits rylr998_rs.Driver.drain_rx_line
poll-band = refl

poll-Answers_example : Answers (query QueryKey.band) (Response.band 868000000)
poll-Answers_example = poll-Answers (query QueryKey.band) answered_driver refl refl poll-band

abbrev event_bytes : Bytes
event_bytes = codes "+RCV=50,5,hello,-99,40\r\n+OK\r\n"

abbrev event_driver : Driver
event_driver = receiving event_bytes awaiting_ack

abbrev event_line : Bytes
event_line = codes "+RCV=50,5,hello,-99,40"

event_driver-Sees : Sees event_driver event_line (codes "+OK\r\n")
event_driver-Sees = record {
  quiet = refl;
  received = refl;
  one_line = position-none b'\r' event_line refl;
  short = omega arith;
}

poll-first_line_example : poll event_driver ≡ expected event_line (codes "+OK\r\n") event_driver
poll-first_line_example =
    poll-first_line event_line (codes "+OK\r\n") event_driver event_driver-Sees
      (receiving-IsValid event_bytes (omega arith))

abbrev reset_bytes : Bytes
reset_bytes = codes "+RESET\r\n+READY\r\n"

abbrev resetting : Driver
resetting = record (receiving reset_bytes awaiting_ack) { awaiting_ready_as_ok = true }

resetting-IsValid : IsValid resetting
resetting-IsValid = record {
  rx_fits = omega arith;
  tx_fits = omega arith;
  in_flight = omega arith;
  line_size = refl;
  line_fits = omega arith;
  states = refl;
}

poll-factory_reset_example :
    (e : Driver) × (poll resetting ≡ done e (Poll.response Response.ok))
    × (e.state ≡ State.idle)
    × (e.awaiting_ready_as_ok ≡ false)
    × (e.rx ≡ [])
poll-factory_reset_example =
    poll-factory_reset (codes "+RESET") [] resetting resetting-IsValid refl refl (record {
      quiet = refl;
      received = refl;
      one_line = position-none b'\r' (codes "+RESET") refl;
      short = omega arith;
    })

abbrev stale : Driver
stale = record new { rx = codes "+OK\r\n" }

stale-IsValid : IsValid stale
stale-IsValid = record {
  rx_fits = omega arith;
  tx_fits = omega arith;
  in_flight = omega arith;
  line_size = refl;
  line_fits = omega arith;
  states = tt;
}

push_rx-stray_example :
    (poll (push_rx (codes "+READY\r\n") stale).1
      ≡ done (loaded (codes "+OK") (push_rx (codes "+READY\r\n") stale).1) Poll.idle)
    × Sees (push_rx (codes "+READY\r\n") stale).1 (codes "+OK") (codes "+READY\r\n")
push_rx-stray_example =
    push_rx-stray (codes "+OK") [] (codes "+READY\r\n") stale stale-IsValid
      (record {
        quiet = refl;
        received = refl;
        one_line = position-none b'\r' (codes "+OK") refl;
        short = omega arith;
      })
      (record { no_reset = refl; no_recv = refl; no_ready = refl; no_answer = refl }) (omega arith)

abbrev long_text : Bytes
long_text = replicate 300 b'x'

poll-long_line_example : poll (receiving (long_text ++ (crlf ++ [])) State.idle) ≡ fault
poll-long_line_example =
    poll-long_line long_text [] (receiving (long_text ++ (crlf ++ [])) State.idle) refl refl
      (position-none b'\r' long_text refl) (omega arith)

abbrev long_driver : Driver
long_driver = receiving (long_text ++ (crlf ++ [])) awaiting_ack

poll-HasFatal_example : HasFatal long_driver.rx
poll-HasFatal_example =
    poll-HasFatal long_driver (receiving-IsValid (long_text ++ (crlf ++ [])) (omega arith)) (
      poll-long_line long_text [] long_driver refl refl (position-none b'\r' long_text refl)
        (omega arith))

abbrev binary_driver : Driver
binary_driver = receiving (codes "+RCV=50,4,a\rbc,-99,40\r\n") awaiting_ack

push_rx-return_example :
    (poll (push_rx (codes "+OK\r\n") binary_driver).1
      ≡ done (push_rx (codes "+OK\r\n") binary_driver).1 Poll.idle)
    × ((push_rx (codes "+OK\r\n") binary_driver).1.rx ≡ codes "+RCV=50,4,a\rbc,-99,40\r\n+OK\r\n")
push_rx-return_example =
    push_rx-return (codes "+RCV=50,4,a") b'b' (codes "c,-99,40\r\n") (codes "+OK\r\n") binary_driver
      refl refl (position-none b'\r' (codes "+RCV=50,4,a") refl) (λ e. omega arith) (omega arith)

abbrev pinged : Trace
pinged = record {
  driver = (submit Command.ping new).1;
  taken = accepted Command.ping (submit Command.ping new).0;
  handed = [];
}

abbrev heard : Trace
heard = record pinged { driver = (push_rx (codes "+OK\r\n") pinged.driver).1 }

Reach-IsStream_example : IsStream heard
Reach-IsStream_example = Reach-IsStream heard (
    then_call pinged heard (then_call start pinged begin (submits Command.ping start tt))
      (pushes (codes "+OK\r\n") pinged))
