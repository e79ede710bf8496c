-- ===== src/Tests/Calls.antt =====
-- Tests of rylr998-std/src/radio.rs: events and silence around the calls of a radio.
use rylr998_rs.Base.{◌≡◌, refl, [], ◌∷◌, ◌++◌, map, arith, position-none, codes, ok, err}
use rylr998_rs.Base.Int.{pos, negsuc}
use rylr998_rs.Types.{Command, Response, Event, OwnedEvent, into_owned}
use rylr998_rs.Encode.Wire.{crlf}
use rylr998_rs.Decode.Text.{event_text}
use rylr998_rs.Driver.{new}
use rylr998_rs.Driver.Invariant.{new-IsValid}
use rylr998_rs.Driver.Exchange.{IsQuiet}
use rylr998_rs.Driver.Batch.{IsHeard, IsListening, batch_then}
use rylr998_rs.Radio.{Error, Radio, from_port, Pumped}
use rylr998_rs.Radio.Methods.{wait_ok, wait_band, request, next_event}
use rylr998_rs.Radio.Answering.{reads}
use rylr998_rs.Radio.Silence.{silent, request-stuck}
use rylr998_rs.Radio.Listening.{heard, kept}
use rylr998_rs.Radio.NextEvent.{next_event-late}
use rylr998_rs.Radio.Chunks.{chunk_rounds}
use rylr998_rs.Radio.Pieces.{request-chunks}
use rylr998_rs.Radio.Interleaved.{request-events}
use rylr998_rs.Tests.Vectors.{list_vec}

pub new-IsQuiet : IsQuiet new
new-IsQuiet = record {
  valid = new-IsValid;
  is_idle = refl;
  nothing_received = refl;
  nothing_queued = refl;
}

pub new-IsListening : IsListening new
new-IsListening = record {
  valid = new-IsValid;
  received = refl;
  nothing_queued = refl;
  no_reset = refl;
}

abbrev pub hello : Event
hello = Event.recv 50 (codes "hello") (negsuc 98) (pos 40)

pub hello-text : event_text hello ≡ codes "+RCV=50,5,hello,-99,40"
unfolding rylr998_rs.Decimal.decimal rylr998_rs.Decimal.decimal_int
hello-text = refl

pub hello-IsHeard : IsHeard hello
unfolding rylr998_rs.Decimal.decimal rylr998_rs.Decimal.decimal_int
hello-IsHeard = record {
  good = omega arith;
  one_line = position-none b'\r' (codes "+RCV=50,5,hello,-99,40") refl;
  short = omega arith;
}

pub ready-IsHeard : IsHeard Event.ready
ready-IsHeard = record {
  good = tt;
  one_line = position-none b'\r' (codes "+READY") refl;
  short = omega arith;
}

request-stuck_example :
    (y : Radio) × (request Command.ping wait_ok 1000 0 (silent 400 ∷ silent 1000 ∷ []) from_port
      ≡ Pumped.returned (err Error.timeout) y)
    × (y.written ≡ codes "AT\r\n")
    × (request Command.get_band wait_band 1000 1001 (reads (codes "+OK\r\n") 1050 ∷ []) y
        ≡ Pumped.returned (err (Error.core rylr998_rs.Types.Error.busy)) y)
request-stuck_example =
    request-stuck Command.ping Command.get_band wait_ok wait_band 1000 0 1000 (400 ∷ []) [] 1000
      1001 (reads (codes "+OK\r\n") 1050 ∷ []) from_port new-IsQuiet tt tt (omega arith)
      (omega arith)

next_event-late_example :
    (next_event 60000 0 (reads (event_text hello ++ crlf) 20 ∷ map silent (70 ∷ 120 ∷ [])) from_port
      ≡ Pumped.waiting (kept hello from_port))
    × (next_event 60000 0
          (reads (event_text hello ++ crlf) 20 ∷ (map silent (70 ∷ 120 ∷ []) ++ silent 60000 ∷ []))
          from_port
        ≡ Pumped.returned
            (ok (into_owned hello))
            (record from_port { driver = heard hello new; events = [] }))
next_event-late_example =
    next_event-late 60000 0 20 70 60000 (120 ∷ []) [] hello from_port new-IsListening refl
      hello-IsHeard (omega arith) (omega arith) (omega arith)

request-events_example :
    (y : Radio) × (request Command.get_band wait_band 1000 0
        (reads (batch_then (hello ∷ Event.ready ∷ []) (codes "+BAND=915000000\r\n")) 20
          ∷ silent 70
          ∷ [])
        from_port
      ≡ Pumped.returned (ok 915000000) y)
    × IsQuiet y.driver
    × (y.events ≡ map into_owned (hello ∷ Event.ready ∷ []))
    × (y.written ≡ codes "AT+BAND?\r\n")
unfolding rylr998_rs.Driver.kind_of rylr998_rs.Driver.is_factory_reset rylr998_rs.Decimal.decimal
    rylr998_rs.Decimal.decimal_int wait_band
request-events_example =
    request-events Command.get_band wait_band 1000 0 20 (silent 70) [] (hello ∷ Event.ready ∷ [])
      (Response.band 915000000) from_port new-IsQuiet tt tt refl
      (hello-IsHeard, (ready-IsHeard, tt)) refl (omega arith) tt (omega arith) refl (omega arith)

request-chunks_example :
    (y : Radio) × (request Command.get_band wait_band 1000 0
        (chunk_rounds (
            (codes "+BA", 20)
            ∷ (codes "ND=9150", 40)
            ∷ (codes "00000\r", 60)
            ∷ (codes "\n", 80)
            ∷ [])
          ++ silent 130 ∷ [])
        from_port
      ≡ Pumped.returned (ok 915000000) y)
    × IsQuiet y.driver
    × (y.written ≡ codes "AT+BAND?\r\n")
    × (y.events ≡ [])
unfolding rylr998_rs.Driver.kind_of rylr998_rs.Decimal.decimal wait_band
request-chunks_example =
    request-chunks Command.get_band wait_band 1000 0 (codes "+BA", 20)
      ((codes "ND=9150", 40) ∷ (codes "00000\r", 60) ∷ (codes "\n", 80) ∷ []) (silent 130) []
      (Response.band 915000000) from_port new-IsQuiet tt tt refl (omega arith) tt refl refl
      (omega arith)
