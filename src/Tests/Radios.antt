-- ===== src/Tests/Radios.antt =====
-- Tests of rylr998-std/src: the methods of `Radio`, its pump, and the search for a port.
use rylr998_rs.Base.{
  ◌≡◌, ◌↔◌, refl, inl, inr, List, [], ◌∷◌, none, some, arith, Bytes, codes, ok, err,
}
use rylr998_rs.Types.{Response}
use rylr998_rs.Driver.Invariant.{new-IsValid}
use rylr998_rs.Radio.{
  Error, Radio, Round, from_port, Drained, Pumped, Read, data_read, nothing_yet, drain, pump_until,
}
use rylr998_rs.Radio.Methods.{wait_ok}
use rylr998_rs.Radio.Discovery.{discover, discover_iff, IsOnly, filter, is_candidate}
use rylr998_rs.Radio.Deadline.{Returns, pump_until-Returns}
use rylr998_rs.Radio.Silence.{silent}
use rylr998_rs.Tokio.{JobRound, timed_out, job_drain, process_job}
use rylr998_rs.Tokio.Same.{Same, want_any, job_drain-Same}
use rylr998_rs.Decode.{parse_response}
use rylr998_rs.Owned.{OwnedCommand, as_command}
use rylr998_rs.Tokio.Deadline.{JobReturns, process_job-JobReturns}
use rylr998_rs.Embassy.{UartRead, UartRound, Handlers, new_radio, uart_loop}
use rylr998_rs.Embassy.Deadline.{UartReturns, uart_loop-UartReturns}
use rylr998_rs.Embassy.Methods.{wait_cpin}
use rylr998_rs.Embassy.Passwords.{wait_cpin-parse_response}
use rylr998_rs.Tests.Vectors.{emptied, list_vec}

pump_until-Returns_example :
    Returns (pump_until 1000 wait_ok (silent 500 ∷ silent 1000 ∷ []) from_port)
pump_until-Returns_example =
    pump_until-Returns 1000 wait_ok (silent 500 ∷ silent 1000 ∷ []) from_port new-IsValid
      (inr (inl (omega arith)))

job_drain-Same_example : Same (drain 1 want_any none from_port) (job_drain 1 none from_port)
job_drain-Same_example = job_drain-Same 1 none from_port (λ sent. refl)

abbrev adapter : Bytes
adapter = codes "/dev/cu.usbserial-A1"

abbrev ports : List Bytes
ports = adapter ∷ codes "/dev/cu.Bluetooth-Incoming-Port" ∷ []

discover_iff_example : (discover (ok ports) ≡ ok adapter) ↔ IsOnly ports adapter
discover_iff_example = discover_iff ports adapter

discover-adapter : discover (ok ports) ≡ ok adapter
unfolding discover rylr998_rs.Radio.Discovery.decide filter is_candidate
discover-adapter = refl

discover_none : discover (ok (codes "/dev/ttyS0" ∷ [])) ≡ err Error.no_device
unfolding discover rylr998_rs.Radio.Discovery.decide filter is_candidate
discover_none = refl

bare_name : filter (codes "cu.usbserial-X" ∷ codes "ttyACM0" ∷ []) ≡ codes "cu.usbserial-X" ∷ []
unfolding filter is_candidate
bare_name = refl

abbrev set_band : OwnedCommand
set_band = OwnedCommand.set_band 868000000

abbrev last_round : JobRound
last_round = record { write_error = none; read = timed_out }

process_job-JobReturns_example : JobReturns (process_job set_band (last_round ∷ []) from_port)
unfolding as_command
process_job-JobReturns_example =
    process_job-JobReturns set_band (last_round ∷ []) from_port (λ sent e. cc) (omega arith)
      new-IsValid (inl tt)

abbrev uart_round : UartRound
uart_round = record { write_error = none; now = 1000; read = UartRead.timed_out }

abbrev no_handlers : Handlers (Unit {0})
no_handlers = record { on_response = λ r. none; on_event = λ e. none }

uart_loop-UartReturns_example : UartReturns (uart_loop 1000 no_handlers (uart_round ∷ []) new_radio)
uart_loop-UartReturns_example =
    uart_loop-UartReturns 1000 no_handlers (uart_round ∷ []) new_radio new-IsValid
      (inl (omega arith))

parse_password : parse_response (codes "+CPIN=EEDCAA90") ≡ ok (Response.cpin (codes "EEDCAA90"))
unfolding parse_response rylr998_rs.Decode.if_prefix rylr998_rs.Decode.parse_cpin
    rylr998_rs.Decode.parse_str rylr998_rs.Utf8.valid_utf8
parse_password = refl

wait_cpin-parse_response_example :
    wait_cpin (Response.cpin (codes "EEDCAA90")) ≡ some (ok (codes "EEDCAA90"))
wait_cpin-parse_response_example = wait_cpin-parse_response (codes "+CPIN=EEDCAA90") parse_password
