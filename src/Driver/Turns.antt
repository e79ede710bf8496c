-- ===== src/Driver/Turns.antt =====
-- `poll` of rylr998-core/src/driver.rs.
use rylr998_rs.Base.{
  ℕ, zero, suc, false, ◌&&◌, ◌||◌, ◌++◌, Option, none, some, ltb, if◌then◌else◌, codes, length,
  take, drop, eq_bytes, starts_with, Outcome, ok, err, panic,
}
use rylr998_rs.Types.{Response, Event, Poll, Error}
use rylr998_rs.Decode.{parse_response, parse_event}
use rylr998_rs.FixedVec.{FixedVec}
use rylr998_rs.Driver.{
  Driver, State, line_capacity, is_empty, drain_rx_line, next_line_end, state_matches,
}

-- One run of the body of `poll`: `again` stands for its `return self.poll()`.
pub data Turn : Type 0 where
  done : Driver → Poll → Turn
  again : Driver → Turn
  fault : Turn

-- The `match` on a parsed event or response.
abbrev pub event_turn : Driver → Outcome Error Event → Turn
event_turn d (ok e) = done d (Poll.event e)
event_turn d (err e) = done d Poll.idle
event_turn d panic = fault

abbrev pub response_turn : Driver → Outcome Error Response → Turn
response_turn d (ok r) = done d (Poll.response r)
response_turn d (err e) = done d Poll.idle
response_turn d panic = fault

-- `self.awaiting_ready_as_ok = false; self.state = State::Idle`.
abbrev pub resolve : Driver → Driver
resolve d = record d { state = State.idle; awaiting_ready_as_ok = false }

-- `self.line_buf[..end].copy_from_slice(&self.rx[..end]); self.line_buf_len = end`.
abbrev pub load_line : ℕ → Driver → Driver
load_line end d = record d { line_buf = take end d.rx ++ drop end d.line_buf; line_buf_len = end }

module _ ⦃v : FixedVec⦄ where
  -- The branches of `poll` on a line of `end` bytes that is in `line_buf`.
  unfoldable pub handle_line : ℕ → Driver → Turn
  handle_line end d =
      let line = take end d.line_buf in
      if d.awaiting_ready_as_ok && starts_with line (codes "+RESET")
      then again (drain_rx_line end d)
      else if starts_with line (codes "+RCV") || starts_with line (codes "+READY")
      then (if d.awaiting_ready_as_ok && eq_bytes line (codes "+READY")
          then done (resolve (drain_rx_line end d)) (Poll.response Response.ok)
          else event_turn (drain_rx_line end d) (parse_event (take d.line_buf_len d.line_buf)))
      else if state_matches d.state line
      then response_turn (resolve (drain_rx_line end d))
          (parse_response (take d.line_buf_len d.line_buf))
      else done d Poll.idle

  -- A line longer than `line_buf` is a slice out of range.
  unfoldable pub poll_line : Option ℕ → Driver → Turn
  poll_line none d = done d Poll.idle
  poll_line (some end) d =
      if ltb line_capacity end then fault else handle_line end (load_line end d)

  -- The body of `poll`.
  unfoldable pub poll_turn : Driver → Turn
  poll_turn d =
      if ltb d.tx_in_flight (length d.tx)
      then done (record d { tx_in_flight = length d.tx }) (Poll.need_tx (drop d.tx_in_flight d.tx))
      else if is_empty d.rx
      then done d Poll.idle
      else poll_line (next_line_end d.rx) d

  unfoldable pub poll_loop : ℕ → Driver → Turn
  poll_loop zero d = again d
  poll_loop (suc fuel) d = elim (poll_turn d) [
    | done d' p ↦ done d' p
    | again d' ↦ poll_loop fuel d'
    | fault ↦ fault
  ]

  -- `poll`. Each further turn finds at least two bytes fewer in `rx`, so this fuel is enough.
  unfoldable pub poll : Driver → Turn
  poll d = poll_loop (suc (length d.rx)) d
