-- ===== src/Tests/Uarts.antt =====
-- Tests of rylr998-embassy/src/lib.rs: a UART that answers.
use rylr998_rs.Base.{ℕ, ◌≡◌, refl, [], ◌∷◌, Option, none, some, arith, false, codes, ok}
use rylr998_rs.Types.{Command, Response, Event}
use rylr998_rs.Driver.Exchange.{IsQuiet}
use rylr998_rs.Driver.Batch.{Holds, batch_then, batch_text}
use rylr998_rs.Embassy.{UartRadio, UartPumped, new_radio}
use rylr998_rs.Embassy.Methods.{wait_band, request, next_event}
use rylr998_rs.Embassy.Answering.{uart_reads}
use rylr998_rs.Embassy.Exchange.{request-dropped}
use rylr998_rs.Embassy.Events.{next_event-first}
use rylr998_rs.Tests.Vectors.{list_vec}
use rylr998_rs.Tests.Calls.{new-IsQuiet, new-IsListening, hello, hello-IsHeard, ready-IsHeard}

request-dropped_example :
    (y : UartRadio) × (request Command.get_band wait_band 1000 0
        (uart_reads (batch_then (hello ∷ Event.ready ∷ []) (codes "+BAND=915000000\r\n")) 20
          ∷ uart_reads [] 70
          ∷ [])
        new_radio
      ≡ UartPumped.returned (ok 915000000) y)
    × IsQuiet y.driver
    × (y.driver.awaiting_ready_as_ok ≡ false)
    × (y.written ≡ codes "AT+BAND?\r\n")
    × (y.told ≡ hello ∷ Event.ready ∷ [])
unfolding rylr998_rs.Driver.kind_of rylr998_rs.Driver.is_factory_reset rylr998_rs.Decimal.decimal
    rylr998_rs.Decimal.decimal_int wait_band
request-dropped_example =
    request-dropped Command.get_band wait_band 1000 0 20 (uart_reads [] 70) []
      (hello ∷ Event.ready ∷ []) (Response.band 915000000) new_radio new-IsQuiet tt tt refl
      (hello-IsHeard, (ready-IsHeard, tt)) refl (omega arith) tt (omega arith) refl (omega arith)

-- A handler that waits for the radio to be ready.
abbrev when_ready : Event → Option ℕ
when_ready Event.ready = some 7
when_ready (Event.recv from payload rssi snr) = none

next_event-first_example :
    (y : UartRadio) × (next_event 60000 0 when_ready
        (uart_reads (batch_then (hello ∷ []) (batch_text (Event.ready ∷ hello ∷ []))) 20
          ∷ uart_reads [] 70
          ∷ [])
        new_radio
      ≡ UartPumped.returned (ok 7) y)
    × Holds (hello ∷ []) [] y.driver
    × (y.driver.state ≡ new_radio.driver.state)
    × (y.written ≡ [])
    × (y.told ≡ hello ∷ Event.ready ∷ [])
unfolding rylr998_rs.Decimal.decimal rylr998_rs.Decimal.decimal_int
next_event-first_example =
    next_event-first 60000 0 20 when_ready (uart_reads [] 70) [] (hello ∷ []) (hello ∷ [])
      Event.ready 7 new_radio new-IsListening (hello-IsHeard, tt) ready-IsHeard (refl, tt) refl
      (omega arith) (omega arith)
