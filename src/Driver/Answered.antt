-- ===== src/Driver/Answered.antt =====
-- What `poll` of rylr998-core/src/driver.rs reports as a response: an answer to the command in flight.
use rylr998_rs.Base.{
  ℕ, ◌≡◌, refl, sym, ap, true, false, inl, inr, Option, none, some, arith, ltb, Bool-cases, subst,
  length, take, Outcome, ok, err, panic,
}
use rylr998_rs.Types.{Response, Event, Poll, Error}
use rylr998_rs.FixedVec.{FixedVec}
use rylr998_rs.Decode.{parse_response, parse_event}
use rylr998_rs.Driver.{
  Driver, State, AwaitKind, line_capacity, response_matches, state_matches, next_line_end,
  drain_rx_line,
}
use rylr998_rs.Driver.Turns.{
  Turn, done, again, fault, event_turn, response_turn, resolve, load_line, handle_line, poll_line,
  poll_turn, poll_loop, poll,
}
use rylr998_rs.Driver.Exchange.{Answers}
use rylr998_rs.Driver.Matching.{Yields, matched-Yields}

-- A response that a turn reports answers `k`, and `poll` does not call itself.
abbrev Reports : AwaitKind → Turn → Type 0
Reports k (done d (Poll.response r)) = Answers k r
Reports k (done d _) = Unit
Reports k (again d) = ⊥
Reports k fault = Unit

event_turn-Reports :
    (k : AwaitKind) (d : Driver) (o : Outcome Error Event) → Reports k (event_turn d o)
event_turn-Reports k d (ok e) = tt
event_turn-Reports k d (err e) = tt
event_turn-Reports k d panic = tt

response_turn-Reports :
    (k : AwaitKind) (d : Driver) (o : Outcome Error Response)
    → Yields (Answers k) o
    → Reports k (response_turn d o)
response_turn-Reports k d (ok r) h = h
response_turn-Reports k d (err e) h = tt
response_turn-Reports k d panic h = tt

module _ ⦃v : FixedVec⦄ where
  handle_line-Reports :
      (k : AwaitKind) (end : ℕ) (d : Driver)
      → d.awaiting_ready_as_ok ≡ false
      → d.state ≡ State.awaiting k
      → d.line_buf_len ≡ end
      → Reports k (handle_line end d)
  unfolding handle_line
  handle_line-Reports k end d plain state len =
      let line = take end d.line_buf in
      let text = take d.line_buf_len d.line_buf in
      let rest = drain_rx_line end d in
      let on_event = event_turn-Reports k rest (parse_event text) in
      elim (Bool-cases (state_matches d.state line)) [
        | inl matched ↦
            let matches_k : response_matches k line ≡ true = rw state at matched in
            let same : line ≡ text = ap (λ n. take n d.line_buf) (sym len) in
            let reads : Yields (Answers k) (parse_response text) =
              subst (λ t. Yields (Answers k) (parse_response t)) same
                (matched-Yields k line matches_k) in
            ground (
              arith,
              plain,
              on_event,
              response_turn-Reports k (resolve rest) (parse_response text) reads,
            )
        | inr stray ↦ ground (arith, plain, on_event, stray)
      ]

  poll_line-Reports :
      (k : AwaitKind) (o : Option ℕ) (d : Driver)
      → d.awaiting_ready_as_ok ≡ false
      → d.state ≡ State.awaiting k
      → Reports k (poll_line o d)
  unfolding poll_line
  poll_line-Reports k none d plain state = tt
  poll_line-Reports k (some end) d plain state = elim (Bool-cases (ltb line_capacity end)) [
    | inl long ↦ rw long tt
    | inr short ↦ rw short (handle_line-Reports k end (load_line end d) plain state refl)
  ]

  poll_turn-Reports :
      (k : AwaitKind) (d : Driver)
      → d.awaiting_ready_as_ok ≡ false
      → d.state ≡ State.awaiting k
      → Reports k (poll_turn d)
  unfolding poll_turn
  poll_turn-Reports k d plain state =
      ground (arith, poll_line-Reports k (next_line_end d.rx) d plain state)

  after :
      (k : AwaitKind) (n : ℕ) (t : Turn) {e : Driver} {r : Response}
      → Reports k t
      → ◌≡◌ {A = Turn}
          (elim t [ done d p ↦ done d p | again d ↦ poll_loop n d | fault ↦ fault ])
          (done e (Poll.response r))
      → Answers k r
  after k n (done d Poll.idle) h eq = cc
  after k n (done d (Poll.need_tx bytes)) h eq = cc
  after k n (done d (Poll.event e)) h eq = cc
  after k n (done d (Poll.response q)) {e} {r} h eq =
      let same : q ≡ r = cc in subst (λ x. Answers k x) same h
  after k n (again d) h eq = absurd h
  after k n fault h eq = cc

  -- While an answer is awaited, and no factory reset is under way, a response that `poll` reports is
  -- one that answers the command in flight: an error, or a response of the awaited kind.
  pub poll-Answers :
      (k : AwaitKind) (d : Driver) {e : Driver} {r : Response}
      → d.awaiting_ready_as_ok ≡ false
      → d.state ≡ State.awaiting k
      → poll d ≡ done e (Poll.response r)
      → Answers k r
  unfolding poll poll_loop
  poll-Answers k d plain state eq =
      after k (length d.rx) (poll_turn d) (poll_turn-Reports k d plain state) eq
