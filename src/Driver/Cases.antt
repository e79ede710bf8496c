-- ===== src/Driver/Cases.antt =====
-- Every case of `poll` in rylr998-core/src/driver.rs on the first line of `rx`, with the state that it
-- leaves written out.
use rylr998_rs.Base.{
  Bool, true, false, ◌&&◌, ◌||◌, ◌≡◌, refl, ◌∙◌, ◌++◌, Bytes, codes, length, drop, starts_with,
  eq_bytes, Outcome, ok, err, panic,
}
use rylr998_rs.Types.{Error, Event, Response, Poll}
use rylr998_rs.FixedVec.{FixedVec}
use rylr998_rs.Decode.{parse_event, parse_response}
use rylr998_rs.Driver.{
  Driver, State, QueryKey, ack, query, response_matches, key_prefix, state_matches,
}
use rylr998_rs.Driver.Turns.{Turn, done, fault, poll}
use rylr998_rs.Driver.Invariant.{IsValid}
use rylr998_rs.Driver.Lines.{Sees, line_turn, poll_again, poll-line}

-- The lines that answer a command in flight.
abbrev pub is_answer : State → Bytes → Bool
is_answer State.idle line = false
is_answer State.sending_tx line = false
is_answer (State.awaiting ack) line =
    starts_with line (codes "+ERR=")
    || (eq_bytes line (codes "+OK")
        || (eq_bytes line (codes "+RESET") || eq_bytes line (codes "+READY")))
is_answer (State.awaiting (query QueryKey.address)) line =
    starts_with line (codes "+ERR=") || starts_with line (codes "+ADDRESS=")
is_answer (State.awaiting (query QueryKey.network_id)) line =
    starts_with line (codes "+ERR=") || starts_with line (codes "+NETWORKID=")
is_answer (State.awaiting (query QueryKey.band)) line =
    starts_with line (codes "+ERR=") || starts_with line (codes "+BAND=")
is_answer (State.awaiting (query QueryKey.parameters)) line =
    starts_with line (codes "+ERR=") || starts_with line (codes "+PARAMETER=")
is_answer (State.awaiting (query QueryKey.crfop)) line =
    starts_with line (codes "+ERR=") || starts_with line (codes "+CRFOP=")
is_answer (State.awaiting (query QueryKey.uid)) line =
    starts_with line (codes "+ERR=") || starts_with line (codes "+UID=")
is_answer (State.awaiting (query QueryKey.version)) line =
    starts_with line (codes "+ERR=") || starts_with line (codes "+VER=")
is_answer (State.awaiting (query QueryKey.cpin)) line =
    starts_with line (codes "+ERR=") || starts_with line (codes "+CPIN=")

is_answer_lem : (s : State) (line : Bytes) → state_matches s line ≡ is_answer s line
unfolding response_matches key_prefix
is_answer_lem State.idle line = refl
is_answer_lem State.sending_tx line = refl
is_answer_lem (State.awaiting ack) line = refl
is_answer_lem (State.awaiting (query QueryKey.address)) line = refl
is_answer_lem (State.awaiting (query QueryKey.network_id)) line = refl
is_answer_lem (State.awaiting (query QueryKey.band)) line = refl
is_answer_lem (State.awaiting (query QueryKey.parameters)) line = refl
is_answer_lem (State.awaiting (query QueryKey.crfop)) line = refl
is_answer_lem (State.awaiting (query QueryKey.uid)) line = refl
is_answer_lem (State.awaiting (query QueryKey.version)) line = refl
is_answer_lem (State.awaiting (query QueryKey.cpin)) line = refl

-- The driver that keeps the line in `line_buf` and in `rx`, and the one that has taken it out of `rx`.
abbrev pub kept_line : Bytes → Driver → Driver
kept_line line d = record d {
  line_buf = line ++ drop (length line) d.line_buf;
  line_buf_len = length line;
}

abbrev pub taken_line : Bytes → Bytes → Driver → Driver
taken_line line rest d = record d {
  line_buf = line ++ drop (length line) d.line_buf;
  line_buf_len = length line;
  rx = rest;
}

-- No command is in flight any more.
abbrev pub freed : Driver → Driver
freed d = record d { state = State.idle; awaiting_ready_as_ok = false }

module _ ⦃v : FixedVec⦄ where
  -- The cases, by whether the line is an intermediate `+RESET`, is an event line, is the `+READY` of a
  -- factory reset, what it reads as, whether it is an answer, and what it reads as then.
  abbrev pub expected_by :
      Bool
      → Bool
      → Bool
      → Outcome Error Event
      → Bool
      → Outcome Error Response
      → Driver
      → Driver
      → Turn
  expected_by true _ _ _ _ _ gone stays = poll gone
  expected_by false true true _ _ _ gone stays = done (freed gone) (Poll.response Response.ok)
  expected_by false true false (ok e) _ _ gone stays = done gone (Poll.event e)
  expected_by false true false (err n) _ _ gone stays = done gone Poll.idle
  expected_by false true false panic _ _ gone stays = fault
  expected_by false false _ _ true (ok r) gone stays = done (freed gone) (Poll.response r)
  expected_by false false _ _ true (err n) gone stays = done (freed gone) Poll.idle
  expected_by false false _ _ true panic gone stays = fault
  expected_by false false _ _ false _ gone stays = done stays Poll.idle

  abbrev pub expected : Bytes → Bytes → Driver → Turn
  expected line rest d =
      expected_by (d.awaiting_ready_as_ok && starts_with line (codes "+RESET"))
        (starts_with line (codes "+RCV") || starts_with line (codes "+READY"))
        (d.awaiting_ready_as_ok && eq_bytes line (codes "+READY")) (parse_event line)
        (is_answer d.state line) (parse_response line) (taken_line line rest d) (kept_line line d)

  line_turn_lem :
      (line rest : Bytes) (d : Driver) (reset event ready answer : Bool) (e : Outcome Error Event)
      (r : Outcome Error Response)
      → (d.awaiting_ready_as_ok && starts_with line (codes "+RESET")) ≡ reset
      → (starts_with line (codes "+RCV") || starts_with line (codes "+READY")) ≡ event
      → (d.awaiting_ready_as_ok && eq_bytes line (codes "+READY")) ≡ ready
      → parse_event line ≡ e
      → state_matches d.state line ≡ answer
      → parse_response line ≡ r
      → poll_again (line_turn line rest d)
        ≡ expected_by reset event ready e answer r (taken_line line rest d) (kept_line line d)
  line_turn_lem line rest d true event ready answer e r h₁ h₂ h₃ h₄ h₅ h₆ = rw h₁ refl
  line_turn_lem line rest d false true true answer e r h₁ h₂ h₃ h₄ h₅ h₆ = rw (h₁, h₂, h₃) refl
  line_turn_lem line rest d false true false answer (ok e) r h₁ h₂ h₃ h₄ h₅ h₆ =
      rw (h₁, h₂, h₃, h₄) refl
  line_turn_lem line rest d false true false answer (err e) r h₁ h₂ h₃ h₄ h₅ h₆ =
      rw (h₁, h₂, h₃, h₄) refl
  line_turn_lem line rest d false true false answer panic r h₁ h₂ h₃ h₄ h₅ h₆ =
      rw (h₁, h₂, h₃, h₄) refl
  line_turn_lem line rest d false false ready true e (ok r) h₁ h₂ h₃ h₄ h₅ h₆ =
      rw (h₁, h₂, h₅, h₆) refl
  line_turn_lem line rest d false false ready true e (err r) h₁ h₂ h₃ h₄ h₅ h₆ =
      rw (h₁, h₂, h₅, h₆) refl
  line_turn_lem line rest d false false ready true e panic h₁ h₂ h₃ h₄ h₅ h₆ =
      rw (h₁, h₂, h₅, h₆) refl
  line_turn_lem line rest d false false ready false e r h₁ h₂ h₃ h₄ h₅ h₆ = rw (h₁, h₂, h₅) refl

  -- `poll` of a valid driver with nothing to hand out, on a first line with no `\r` in it that
  -- fits the line buffer: during a factory reset it passes over a line that begins with `+RESET`,
  -- and takes `+READY` for the `+OK`; any other line that begins with `+RCV` or `+READY` is taken
  -- out and reported, or dropped where it does not parse; any other line that answers the command
  -- in flight is taken out, leaves the state `Idle`, and is reported where it parses; any other
  -- line stays in `rx`. A panic of a parser is one of `poll`.
  pub poll-first_line :
      (line rest : Bytes) (d : Driver)
      → Sees d line rest
      → IsValid d
      → poll d ≡ expected line rest d
  poll-first_line line rest d s h =
      poll-line line rest d s h
      ∙ line_turn_lem line rest d _ _ _ _ _ _ refl refl refl refl (is_answer_lem d.state line) refl
