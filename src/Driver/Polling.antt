-- ===== src/Driver/Polling.antt =====
-- `poll` of rylr998-core/src/driver.rs: its recursion ends, and it keeps the invariant.
use rylr998_rs.Base.{
  ℕ, zero, suc, ◌+◌, ◌≤◌, ◌<◌, ◌≡◌, refl, inl, inr, Option, none, some, arith, ltb, ltb→le,
  Bool-cases, length, take, drop, length-append, length-take, length-drop, Outcome, ok, err, panic,
}
use rylr998_rs.Types.{Error, Event, Response}
use rylr998_rs.FixedVec.{FixedVec}
use rylr998_rs.Decode.{parse_response, parse_event}
use rylr998_rs.Driver.{Driver, line_capacity, next_line_end}
use rylr998_rs.Driver.Turns.{
  Turn, done, again, fault, resolve, load_line, handle_line, poll_line, poll_turn, poll_loop, poll,
  event_turn, response_turn,
}
use rylr998_rs.Driver.Queues.{drain_rx_line_lem, next_line_end-le}
use rylr998_rs.Driver.Invariant.{IsValid}

-- What a turn keeps: the invariant, and fewer bytes in `rx` where `poll` calls itself.
abbrev pub Keeps : ℕ → Turn → Type 0
Keeps n (done d p) = IsValid d
Keeps n (again d) = IsValid d × (length d.rx < n)
Keeps n fault = Unit

load_line-IsValid :
    (end : ℕ) (d : Driver)
    → end + 2 ≤ length d.rx
    → end ≤ line_capacity
    → IsValid d
    → IsValid (load_line end d)
load_line-IsValid end d le fit h = ground (
  arith,
  length-append (take end d.rx) (drop end d.line_buf),
  length-take end d.rx,
  length-drop end d.line_buf,
)

event_turn-Keeps :
    (n : ℕ) (d : Driver) (o : Outcome Error Event) → IsValid d → Keeps n (event_turn d o)
event_turn-Keeps n d (ok e) h = h
event_turn-Keeps n d (err e) h = h
event_turn-Keeps n d panic h = tt

response_turn-Keeps :
    (n : ℕ) (d : Driver) (o : Outcome Error Response) → IsValid d → Keeps n (response_turn d o)
response_turn-Keeps n d (ok e) h = h
response_turn-Keeps n d (err e) h = h
response_turn-Keeps n d panic h = tt

resolve-IsValid : (d : Driver) → IsValid d → IsValid (resolve d)
resolve-IsValid d h = ground arith

-- The driver without its first line.
abbrev pub drained : ℕ → Driver → Driver
drained end d = record d { rx = drop (end + 2) d.rx }

drained-IsValid : (end : ℕ) (d : Driver) → IsValid d → IsValid (drained end d)
drained-IsValid end d h = ground (arith, length-drop (end + 2) d.rx)

-- The outcome of a `poll`: a step's result in a valid state, or a panic; never a further turn.
abbrev pub Settles : Turn → Type 0
Settles (done d p) = IsValid d
Settles (again d) = ⊥
Settles fault = Unit

module _ ⦃v : FixedVec⦄ where
  handle_line-Keeps :
      (end : ℕ) (d : Driver)
      → end + 2 ≤ length d.rx
      → IsValid d
      → Keeps (length d.rx) (handle_line end d)
  unfolding handle_line
  handle_line-Keeps end d le h =
      let text = take d.line_buf_len d.line_buf in
      let ahead = drained-IsValid end d h in
      let free = resolve-IsValid (drained end d) ahead in
      rw (drain_rx_line_lem end d le) (
        ground (
          arith,
          ahead,
          free,
          length-drop (end + 2) d.rx,
          event_turn-Keeps (length d.rx) (drained end d) (parse_event text) ahead,
          response_turn-Keeps (length d.rx) (resolve (drained end d)) (parse_response text) free,
        ))

  poll_line-Keeps :
      (o : Option ℕ) (d : Driver)
      → next_line_end d.rx ≡ o
      → IsValid d
      → Keeps (length d.rx) (poll_line o d)
  unfolding poll_line
  poll_line-Keeps none d e h = h
  poll_line-Keeps (some end) d e h =
      let le : end + 2 ≤ length d.rx = next_line_end-le d.rx e in
      elim (Bool-cases (ltb line_capacity end)) [
        | inl long ↦ rw long tt
        | inr short ↦ rw short (
            handle_line-Keeps end (load_line end d) le
              (load_line-IsValid end d le (ltb→le _ _ short) h))
      ]

  pub poll_turn-Keeps : (d : Driver) → IsValid d → Keeps (length d.rx) (poll_turn d)
  unfolding poll_turn
  poll_turn-Keeps d h = ground (arith, poll_line-Keeps (next_line_end d.rx) d refl h)

  after :
      (fuel n : ℕ) (t : Turn)
      → Keeps n t
      → ((d : Driver) → IsValid d → length d.rx < n → Settles (poll_loop fuel d))
      → Settles (elim t [ done d p ↦ done d p | again d ↦ poll_loop fuel d | fault ↦ fault ])
  after fuel n (done d p) k f = k
  after fuel n (again d) (k, fewer) f = f d k fewer
  after fuel n fault k f = tt

  poll_loop-Settles :
      (fuel : ℕ) (d : Driver) → length d.rx < fuel → IsValid d → Settles (poll_loop fuel d)
  unfolding poll_loop
  poll_loop-Settles zero d le h = absurd (omega arith)
  poll_loop-Settles (suc fuel) d le h =
      after fuel (length d.rx) (poll_turn d) (poll_turn-Keeps d h)
        (λ d' k fewer. poll_loop-Settles fuel d' (omega arith) k)

  -- `poll` returns: with the fuel given, its recursion never runs out, and the driver that it leaves
  -- is valid again.
  pub poll-Settles : (d : Driver) → IsValid d → Settles (poll d)
  unfolding poll
  poll-Settles d h = poll_loop-Settles (suc (length d.rx)) d (omega arith) h
