-- ===== src/Driver/Lines.antt =====
-- `poll` of rylr998-core/src/driver.rs, read line by line: what it does with the first line of `rx`,
-- with no mention of the two buffers' positions.
use rylr998_rs.Base.{
  ℕ, zero, suc, ◌+◌, ◌≤◌, ◌<◌, ◌≡◌, refl, ap, ◌∙◌, false, ◌&&◌, ◌||◌, [], ◌∷◌, ◌++◌, arith, lt→ltb,
  le→ltb, if◌then◌else◌, Bytes, codes, length, take, drop, Lacks, length-append, take-append,
  starts_with, eq_bytes,
}
use rylr998_rs.Types.{Poll, Response}
use rylr998_rs.FixedVec.{FixedVec}
use rylr998_rs.Encode.Wire.{crlf}
use rylr998_rs.Decode.{parse_response, parse_event}
use rylr998_rs.Driver.{Driver, line_capacity, is_empty, drain_rx_line, next_line_end, state_matches}
use rylr998_rs.Driver.Turns.{
  Turn, done, again, fault, resolve, load_line, handle_line, poll_line, poll_turn, poll_loop, poll,
  event_turn, response_turn,
}
use rylr998_rs.Driver.Queues.{drain_rx_line_lem, next_line_end-line}
use rylr998_rs.Driver.Invariant.{IsValid}
use rylr998_rs.Driver.Polling.{Keeps, poll_turn-Keeps}

-- Everything that is queued has been handed out, and `rx` begins with this line.
pub record Sees (d : Driver) (line rest : Bytes) : Type 0 where
  pub quiet : d.tx_in_flight ≡ length d.tx
  pub received : d.rx ≡ line ++ (crlf ++ rest)
  pub one_line : Lacks b'\r' line
  pub short : length line ≤ line_capacity

-- The driver with the line in its line buffer, and without it in `rx`.
abbrev pub loaded : Bytes → Driver → Driver
loaded line d = record d {
  line_buf = line ++ drop (length line) d.line_buf;
  line_buf_len = length line;
}

abbrev pub consumed : Bytes → Bytes → Driver → Driver
consumed line rest d = record (loaded line d) { rx = rest }

-- What a turn does with the line.
abbrev pub line_turn : Bytes → Bytes → Driver → Turn
line_turn line rest d =
    if d.awaiting_ready_as_ok && starts_with line (codes "+RESET")
    then again (consumed line rest d)
    else if starts_with line (codes "+RCV") || starts_with line (codes "+READY")
    then (if d.awaiting_ready_as_ok && eq_bytes line (codes "+READY")
        then done (resolve (consumed line rest d)) (Poll.response Response.ok)
        else event_turn (consumed line rest d) (parse_event line))
    else if state_matches d.state line
    then response_turn (resolve (consumed line rest d)) (parse_response line)
    else done (loaded line d) Poll.idle

drop_behind_line :
    (line rest : Bytes) → drop (suc (suc (length line))) (line ++ (crlf ++ rest)) ≡ rest
drop_behind_line [] rest = refl
drop_behind_line (c ∷ line) rest = drop_behind_line line rest

behind_line : (line rest : Bytes) → drop (length line + 2) (line ++ (crlf ++ rest)) ≡ rest
behind_line line rest =
    ap (λ n. drop n (line ++ (crlf ++ rest))) {y = suc (suc (length line))} (omega arith)
    ∙ drop_behind_line line rest

pub not_empty : (line rest : Bytes) → is_empty (line ++ (crlf ++ rest)) ≡ false
not_empty [] rest = refl
not_empty (c ∷ line) rest = refl

load_line_lem :
    (line rest : Bytes) (d : Driver)
    → d.rx ≡ line ++ (crlf ++ rest)
    → load_line (length line) d ≡ loaded line d
load_line_lem line rest d e = λ i. record d {
  line_buf =
      (ap (take (length line)) e ∙ take-append line (crlf ++ rest)) i
      ++ drop (length line) d.line_buf;
  line_buf_len = length line;
}

module _ ⦃v : FixedVec⦄ where
  drain_line_lem :
      (line rest : Bytes) (d : Driver)
      → d.rx ≡ line ++ (crlf ++ rest)
      → drain_rx_line (length line) (loaded line d) ≡ consumed line rest d
  drain_line_lem line rest d e =
      drain_rx_line_lem (length line) (loaded line d)
        (omega (arith, ap length e, length-append line (crlf ++ rest)))
      ∙ λ i. record (loaded line d) {
        rx = (ap (drop (length line + 2)) e ∙ behind_line line rest) i;
      }

  handle_line_lem :
      (line rest : Bytes) (d : Driver)
      → d.rx ≡ line ++ (crlf ++ rest)
      → handle_line (length line) (loaded line d) ≡ line_turn line rest d
  unfolding handle_line
  handle_line_lem line rest d e =
      rw (drain_line_lem line rest d e, take-append line (drop (length line) d.line_buf))

  -- One turn of `poll` on a line that it sees.
  pub poll_turn-line :
      (line rest : Bytes) (d : Driver) → Sees d line rest → poll_turn d ≡ line_turn line rest d
  unfolding poll_turn poll_line
  poll_turn-line line rest d h =
      rw
        (
          le→ltb d.tx_in_flight (length d.tx) (omega arith),
          ap is_empty h.received ∙ not_empty line rest,
          ap next_line_end h.received ∙ next_line_end-line line rest h.one_line,
          le→ltb line_capacity (length line) h.short,
        )
        (ap (handle_line (length line)) (load_line_lem line rest d h.received)
          ∙ handle_line_lem line rest d h.received)

  same_after :
      (f g n : ℕ) (t : Turn)
      → Keeps n t
      → ((d : Driver) → IsValid d → length d.rx < n → poll_loop f d ≡ poll_loop g d)
      → ◌≡◌ {A = Turn}
          (elim t [ done d p ↦ done d p | again d ↦ poll_loop f d | fault ↦ fault ])
          (elim t [ done d p ↦ done d p | again d ↦ poll_loop g d | fault ↦ fault ])
  same_after f g n (done d p) k e = refl
  same_after f g n (again d) (k, fewer) e = e d k fewer
  same_after f g n fault k e = refl

  -- More fuel than needed changes nothing.
  poll_loop_enough :
      (f g : ℕ) (d : Driver)
      → length d.rx < f
      → length d.rx < g
      → IsValid d
      → poll_loop f d ≡ poll_loop g d
  unfolding poll_loop
  poll_loop_enough zero g d lf lg h = absurd (omega arith)
  poll_loop_enough (suc f) zero d lf lg h = absurd (omega arith)
  poll_loop_enough (suc f) (suc g) d lf lg h =
      same_after f g (length d.rx) (poll_turn d) (poll_turn-Keeps d h)
        (λ d' k fewer. poll_loop_enough f g d' (omega arith) (omega arith) k)

  -- `poll` is its own body with the recursive call: `return self.poll()`.
  abbrev pub poll_again : Turn → Turn
  poll_again (done d p) = done d p
  poll_again (again d) = poll d
  poll_again fault = fault

  pub poll_lem : (d : Driver) → IsValid d → poll d ≡ poll_again (poll_turn d)
  unfolding poll poll_loop
  poll_lem d h = again_enough (poll_turn d) (poll_turn-Keeps d h)
    where
      again_enough :
          (t : Turn)
          → Keeps (length d.rx) t
          → ◌≡◌ {A = Turn}
              (elim t [
                | done d p ↦ done d p
                | again d' ↦ poll_loop (length d.rx) d'
                | fault ↦ fault
              ])
              (poll_again t)
      again_enough (done d p) k = refl
      again_enough (again d') (k, fewer) =
          poll_loop_enough (length d.rx) (suc (length d'.rx)) d' fewer (omega arith) k
      again_enough fault k = refl

  -- `poll` of a valid driver on a line that it sees: an intermediate `+RESET` is passed over, an event
  -- line is reported whatever the state, a line that answers the command in flight resolves it, and
  -- any other line stays.
  pub poll-line :
      (line rest : Bytes) (d : Driver)
      → Sees d line rest
      → IsValid d
      → poll d ≡ poll_again (line_turn line rest d)
  poll-line line rest d s h = poll_lem d h ∙ ap poll_again (poll_turn-line line rest d s)

  pub poll_done : (d : Driver) {e : Driver} {p : Poll} → poll_turn d ≡ done e p → poll d ≡ done e p
  unfolding poll poll_loop
  poll_done d h =
      ap
        (λ (t : Turn). elim t as (λ u. Turn) [
          | done d' q ↦ done d' q
          | again d' ↦ poll_loop (length d.rx) d'
          | fault ↦ fault
        ])
        h

  pub poll_fault : (d : Driver) → poll_turn d ≡ fault → poll d ≡ fault
  unfolding poll poll_loop
  poll_fault d h =
      ap
        (λ (t : Turn). elim t as (λ u. Turn) [
          | done d' q ↦ done d' q
          | again d' ↦ poll_loop (length d.rx) d'
          | fault ↦ fault
        ])
        h

  pub poll_turn-need_tx :
      (d : Driver)
      → d.tx_in_flight < length d.tx
      → poll_turn d
        ≡ done (record d { tx_in_flight = length d.tx }) (Poll.need_tx (drop d.tx_in_flight d.tx))
  unfolding poll_turn
  poll_turn-need_tx d h = rw (lt→ltb d.tx_in_flight (length d.tx) h)

  -- Bytes that are not handed out yet go first: `poll` hands out all of them, and marks them.
  pub poll-need_tx :
      (d : Driver)
      → d.tx_in_flight < length d.tx
      → poll d
        ≡ done (record d { tx_in_flight = length d.tx }) (Poll.need_tx (drop d.tx_in_flight d.tx))
  poll-need_tx d h = poll_done d (poll_turn-need_tx d h)
