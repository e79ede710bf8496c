-- ===== src/Tests/Smokes.antt =====
-- Tests of rylr998-embassy/examples/pico_smoke.rs.
use rylr998_rs.Base.{ℕ, ◌+◌, ◌≤◌, ◌≡◌, refl, [], List, ◌∷◌, ◌++◌, arith, Bytes, length, codes}
use rylr998_rs.Base.Int.{negsuc}
use rylr998_rs.Types.{Event}
use rylr998_rs.Embassy.Answering.{uart_reads}
use rylr998_rs.Embassy.Smoke.{Smoke, summary, shown, event_line}
use rylr998_rs.Embassy.Smoke.Listening.{Arrivals}
use rylr998_rs.Embassy.Smoke.Running.{Answered}
use rylr998_rs.Embassy.Smoke.Lines.{event_line-part}
use rylr998_rs.Tests.Vectors.{list_vec}
use rylr998_rs.Tests.Calls.{hello}

-- `{:?}` of a string with nothing to escape.
abbrev in_quotes : Bytes → List Bytes
in_quotes s = codes "\"" ∷ s ∷ codes "\"" ∷ []

hello_line : event_line in_quotes hello ≡ codes "recv from=50 rssi=-99 snr=40 len=5 data=\"hello\""
unfolding event_line rylr998_rs.Embassy.Smoke.write_all rylr998_rs.Decimal.decimal
    rylr998_rs.Utf8.valid_utf8
hello_line = refl

abbrev answered : ℕ → Answered
answered start = record {
  events = Event.ready ∷ [];
  start = start;
  now = start + 20;
  round = uart_reads [] (start + 70);
}

abbrev two_calls : List Arrivals
two_calls =
    record { events = hello ∷ Event.ready ∷ []; start = 8000; now = 8020; late = 68000 }
    ∷ record { events = hello ∷ []; start = 68000; now = 68300; late = 128000 }
    ∷ []

event_line-part_example :
    (t u : Bytes) × (event_line in_quotes (Event.recv 65535 (codes "hi") (negsuc 119) (negsuc 9))
      ≡ codes "recv from=65535 rssi=-120 snr=-10 len=2 data=" ++ t)
    × (codes "\"hi\"" ≡ t ++ u)
    × (length (event_line in_quotes (Event.recv 65535 (codes "hi") (negsuc 119) (negsuc 9))) ≤ 160)
unfolding rylr998_rs.Decimal.decimal rylr998_rs.Utf8.valid_utf8
event_line-part_example =
    event_line-part in_quotes 65535 (codes "hi") (negsuc 119) (negsuc 9) (omega arith)
