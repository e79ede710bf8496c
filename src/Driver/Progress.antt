-- ===== src/Driver/Progress.antt =====
-- `poll` of rylr998-core/src/driver.rs takes bytes out of the queues: what the loops of
-- rylr998-std, rylr998-tokio and rylr998-embassy around it rest on.
use rylr998_rs.Base.{
  ℕ, zero, suc, ◌+◌, ◌-◌, ◌≤◌, ◌<◌, min, ◌≡◌, refl, inl, inr, Option, none, some, arith, ltb,
  Bool-cases, length, take, drop, length-drop, Outcome, ok, err, panic,
}
use rylr998_rs.Types.{Poll, Error, Event, Response}
use rylr998_rs.FixedVec.{FixedVec}
use rylr998_rs.Decode.{parse_response, parse_event}
use rylr998_rs.Driver.{Driver, line_capacity, ack_tx, advance, next_line_end}
use rylr998_rs.Driver.Turns.{
  Turn, done, again, fault, resolve, load_line, handle_line, poll_line, poll_turn, poll_loop, poll,
  event_turn, response_turn,
}
use rylr998_rs.Driver.Queues.{drain_rx_line_lem, next_line_end-le}
use rylr998_rs.Driver.Operations.{ack_tx_lem}
use rylr998_rs.Driver.Polling.{drained}

-- The driver in which a turn ends holds at most `n` received bytes, fewer if it reports one of
-- them, and at most `m` queued ones, all handed out if it hands out any.
abbrev pub Moves : ℕ → ℕ → Turn → Type 0
Moves n m (done d Poll.idle) = Unit
Moves n m (done d (Poll.need_tx bytes)) =
    (length d.rx ≤ n)
    × (length d.tx ≤ m)
    × (0 < length d.tx)
    × (0 < length bytes)
    × (d.tx_in_flight ≡ length d.tx)
Moves n m (done d (Poll.response r)) = (length d.rx < n) × (length d.tx ≤ m)
Moves n m (done d (Poll.event e)) = (length d.rx < n) × (length d.tx ≤ m)
Moves n m (again d) = (length d.rx ≤ n) × (length d.tx ≤ m)
Moves n m fault = Unit

Moves-le : (n m n' m' : ℕ) (t : Turn) → n ≤ n' → m ≤ m' → Moves n m t → Moves n' m' t
Moves-le n m n' m' (done d Poll.idle) hn hm h = tt
Moves-le n m n' m' (done d (Poll.need_tx bytes)) hn hm h = ground arith
Moves-le n m n' m' (done d (Poll.response r)) hn hm h = ground arith
Moves-le n m n' m' (done d (Poll.event e)) hn hm h = ground arith
Moves-le n m n' m' (again d) hn hm h = ground arith
Moves-le n m n' m' fault hn hm h = tt

event_turn-Moves :
    (n m : ℕ) (d : Driver) (o : Outcome Error Event)
    → length d.rx < n
    → length d.tx ≤ m
    → Moves n m (event_turn d o)
event_turn-Moves n m d (ok e) hn hm = (hn, hm)
event_turn-Moves n m d (err e) hn hm = tt
event_turn-Moves n m d panic hn hm = tt

response_turn-Moves :
    (n m : ℕ) (d : Driver) (o : Outcome Error Response)
    → length d.rx < n
    → length d.tx ≤ m
    → Moves n m (response_turn d o)
response_turn-Moves n m d (ok e) hn hm = (hn, hm)
response_turn-Moves n m d (err e) hn hm = tt
response_turn-Moves n m d panic hn hm = tt

advance_queues :
    (d : Driver) → (length (advance d).rx ≡ length d.rx) × (length (advance d).tx ≡ length d.tx)
advance_queues d = ground arith

module _ ⦃v : FixedVec⦄ where
  handle_line-Moves :
      (end : ℕ) (d : Driver)
      → end + 2 ≤ length d.rx
      → Moves (length d.rx) (length d.tx) (handle_line end d)
  unfolding handle_line
  handle_line-Moves end d le =
      let n = length d.rx in
      let m = length d.tx in
      let text = take d.line_buf_len d.line_buf in
      let fewer : length (drop (end + 2) d.rx) < n = omega (arith, length-drop (end + 2) d.rx) in
      rw (drain_rx_line_lem end d le) (
        ground (
          arith,
          fewer,
          event_turn-Moves n m (drained end d) (parse_event text) fewer (omega arith),
          response_turn-Moves n m (resolve (drained end d)) (parse_response text) fewer
              (omega arith),
        ))

  poll_line-Moves :
      (o : Option ℕ) (d : Driver)
      → next_line_end d.rx ≡ o
      → Moves (length d.rx) (length d.tx) (poll_line o d)
  unfolding poll_line
  poll_line-Moves none d e = tt
  poll_line-Moves (some end) d e = elim (Bool-cases (ltb line_capacity end)) [
    | inl long ↦ rw long tt
    | inr short ↦ rw short (handle_line-Moves end (load_line end d) (next_line_end-le d.rx e))
  ]

  poll_turn-Moves : (d : Driver) → Moves (length d.rx) (length d.tx) (poll_turn d)
  unfolding poll_turn
  poll_turn-Moves d =
      ground (arith, poll_line-Moves (next_line_end d.rx) d refl, length-drop d.tx_in_flight d.tx)

  after :
      (fuel n m : ℕ) (t : Turn)
      → Moves n m t
      → ((d : Driver) → Moves (length d.rx) (length d.tx) (poll_loop fuel d))
      → Moves n m (elim t [ done d p ↦ done d p | again d ↦ poll_loop fuel d | fault ↦ fault ])
  after fuel n m (done d p) k f = k
  after fuel n m (again d) (hn, hm) f = Moves-le _ _ n m (poll_loop fuel d) hn hm (f d)
  after fuel n m fault k f = tt

  poll_loop-Moves : (fuel : ℕ) (d : Driver) → Moves (length d.rx) (length d.tx) (poll_loop fuel d)
  unfolding poll_loop
  poll_loop-Moves zero d = (omega arith, omega arith)
  poll_loop-Moves (suc fuel) d =
      after fuel (length d.rx) (length d.tx) (poll_turn d) (poll_turn-Moves d)
        (λ d'. poll_loop-Moves fuel d')

  -- A `poll` that reports a response or an event has taken it out of `rx`, and one that hands out
  -- bytes hands out some, and all that is left of the queue.
  pub poll-Moves : (d : Driver) → Moves (length d.rx) (length d.tx) (poll d)
  unfolding poll
  poll-Moves d = poll_loop-Moves (suc (length d.rx)) d

  -- Acknowledging bytes that were handed out makes the queue shorter.
  pub ack_tx_fewer :
      (n : ℕ) (d : Driver)
      → 0 < n
      → 0 < length d.tx
      → d.tx_in_flight ≡ length d.tx
      → length (ack_tx n d).rx + length (ack_tx n d).tx < length d.rx + length d.tx
  ack_tx_fewer n d hn ht all =
      let k = min n d.tx_in_flight in
      let e = record d { tx = drop k d.tx; tx_in_flight = d.tx_in_flight - k } in
      rw (ack_tx_lem n d (omega arith))
        (omega (arith, (advance_queues e).0, (advance_queues e).1, length-drop k d.tx))
