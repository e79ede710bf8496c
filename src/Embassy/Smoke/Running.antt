-- ===== src/Embassy/Smoke/Running.antt =====
-- `main` of rylr998-embassy/examples/pico_smoke.rs with a radio that answers.
use rylr998_rs.Base.{ℕ, ◌+◌, ◌≤◌, ◌<◌, true, List, [], ◌∷◌, ◌++◌, All, Bytes, length, codes}
use rylr998_rs.Types.{Response, Event}
use rylr998_rs.FixedVec.{FixedVec}
use rylr998_rs.Encode.Wire.{crlf}
use rylr998_rs.Decode.Text.{response_text}
use rylr998_rs.Driver.Batch.{IsHeard, batch_then}
use rylr998_rs.Embassy.{UartRound}
use rylr998_rs.Embassy.Answering.{uart_reads}
use rylr998_rs.Embassy.Smoke.{Action, UartCall, Smoke, report}

-- A call that reads the lines of some events and then a `+OK`.
pub record Answered : Type 0 where
  pub events : List Event
  pub start : ℕ
  pub now : ℕ
  pub round : UartRound

abbrev pub answer_bytes : List Event → Bytes
answer_bytes es = batch_then es (response_text Response.ok ++ (crlf ++ []))

pub record IsPrompt (a : Answered) : Type 0 where
  pub are_heard : All IsHeard a.events
  pub fit : length (answer_bytes a.events) ≤ 512
  pub soon : a.now < a.start + 1000

abbrev pub answered_call : Answered → UartCall
answered_call a = record {
  start = a.start;
  rounds = uart_reads (answer_bytes a.events) a.now ∷ a.round ∷ [];
}

-- The actions in front of the loop.
abbrev pub set_up : List Action
set_up =
    Action.print_line (codes "boot")
    ∷ Action.print_line (codes "radio initialized")
    ∷ (report true ++ Action.print_line (codes "listening") ∷ [])
