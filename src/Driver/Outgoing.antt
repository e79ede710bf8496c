-- ===== src/Driver/Outgoing.antt =====
-- `poll` of rylr998-core/src/driver.rs hands out queued bytes only, and otherwise leaves the queue alone.
use rylr998_rs.Base.{
  ℕ, zero, suc, ◌≤◌, ◌≡◌, refl, sym, ap, ap₂, ◌∙◌, inl, inr, [], ◌++◌, Option, none, some, arith,
  ltb, ltb→le, le→ltb, ltb→lt, Bool-cases, Bytes, length, take, drop, drop_all, append-nil, subst,
  Outcome, ok, err, panic,
}
use rylr998_rs.Types.{Response, Event, Poll, Error}
use rylr998_rs.FixedVec.{FixedVec}
use rylr998_rs.Decode.{parse_response, parse_event}
use rylr998_rs.Driver.{Driver, line_capacity, drain_rx_line, next_line_end}
use rylr998_rs.Driver.Turns.{
  Turn, done, again, fault, event_turn, response_turn, resolve, load_line, handle_line, poll_line,
  poll_turn, poll_loop, poll,
}
use rylr998_rs.Driver.Invariant.{IsValid}
use rylr998_rs.Driver.Lines.{poll-need_tx}

-- The bytes that a `poll` hands out.
abbrev pub given : Poll → Bytes
given (Poll.need_tx bytes) = bytes
given _ = []

-- A turn that hands out nothing and keeps the queue.
abbrev Leaves : Bytes → ℕ → Turn → Type 0
Leaves tx k (done d p) = (d.tx ≡ tx) × (d.tx_in_flight ≡ k) × (given p ≡ [])
Leaves tx k (again d) = (d.tx ≡ tx) × (d.tx_in_flight ≡ k)
Leaves tx k fault = Unit

event_turn-Leaves :
    (d : Driver) (o : Outcome Error Event) → Leaves d.tx d.tx_in_flight (event_turn d o)
event_turn-Leaves d (ok e) = (refl, refl, refl)
event_turn-Leaves d (err e) = (refl, refl, refl)
event_turn-Leaves d panic = tt

response_turn-Leaves :
    (d : Driver) (o : Outcome Error Response) → Leaves d.tx d.tx_in_flight (response_turn d o)
response_turn-Leaves d (ok e) = (refl, refl, refl)
response_turn-Leaves d (err e) = (refl, refl, refl)
response_turn-Leaves d panic = tt

module _ ⦃v : FixedVec⦄ where
  handle_line-Leaves : (end : ℕ) (d : Driver) → Leaves d.tx d.tx_in_flight (handle_line end d)
  unfolding handle_line drain_rx_line
  handle_line-Leaves end d =
      let text = take d.line_buf_len d.line_buf in
      ground (
        arith,
        event_turn-Leaves (drain_rx_line end d) (parse_event text),
        response_turn-Leaves (resolve (drain_rx_line end d)) (parse_response text),
      )

  poll_line-Leaves : (o : Option ℕ) (d : Driver) → Leaves d.tx d.tx_in_flight (poll_line o d)
  unfolding poll_line
  poll_line-Leaves none d = (refl, refl, refl)
  poll_line-Leaves (some end) d = elim (Bool-cases (ltb line_capacity end)) [
    | inl long ↦ rw long tt
    | inr short ↦ rw short (handle_line-Leaves end (load_line end d))
  ]

  poll_turn-Leaves :
      (d : Driver) → length d.tx ≤ d.tx_in_flight → Leaves d.tx d.tx_in_flight (poll_turn d)
  unfolding poll_turn
  poll_turn-Leaves d h =
      ground (arith, le→ltb d.tx_in_flight (length d.tx) h, poll_line-Leaves (next_line_end d.rx) d)

  after :
      (fuel : ℕ) (tx : Bytes) (k : ℕ) (t : Turn)
      → length tx ≤ k
      → Leaves tx k t
      → ((d : Driver)
          → length d.tx ≤ d.tx_in_flight
          → Leaves d.tx d.tx_in_flight (poll_loop fuel d))
      → Leaves tx k (elim t [ done d p ↦ done d p | again d ↦ poll_loop fuel d | fault ↦ fault ])
  after fuel tx k (done d p) le h f = h
  after fuel tx k (again d) le (same_tx, same_k) f =
      subst (λ s. Leaves s k (poll_loop fuel d)) same_tx
        (subst (λ n. Leaves d.tx n (poll_loop fuel d)) same_k
          (f d (omega (arith, ap length same_tx))))
  after fuel tx k fault le h f = tt

  poll_loop-Leaves :
      (fuel : ℕ) (d : Driver)
      → length d.tx ≤ d.tx_in_flight
      → Leaves d.tx d.tx_in_flight (poll_loop fuel d)
  unfolding poll_loop
  poll_loop-Leaves zero d h = (refl, refl)
  poll_loop-Leaves (suc fuel) d h =
      after fuel d.tx d.tx_in_flight (poll_turn d) h (poll_turn-Leaves d h)
        (λ e le. poll_loop-Leaves fuel e le)

  poll-Leaves : (d : Driver) → length d.tx ≤ d.tx_in_flight → Leaves d.tx d.tx_in_flight (poll d)
  unfolding poll
  poll-Leaves d h = poll_loop-Leaves (suc (length d.rx)) d h

  turn_injective :
      {d e : Driver} {p q : Poll} → ◌≡◌ {A = Turn} (done d p) (done e q) → (d ≡ e) × (p ≡ q)
  turn_injective h = (cc, cc)

  -- Whatever `poll` reports, the bytes that it hands out are those that were queued and not handed
  -- out, in their order, and what is left of these is still queued.
  pub poll-given :
      (d : Driver) {e : Driver} {p : Poll}
      → IsValid d
      → poll d ≡ done e p
      → drop d.tx_in_flight d.tx ≡ given p ++ drop e.tx_in_flight e.tx
  poll-given d {e} {p} h eq = elim (Bool-cases (ltb d.tx_in_flight (length d.tx))) [
    | inl more ↦
        let (same_e, same_p) =
          turn_injective (sym (poll-need_tx d (ltb→lt d.tx_in_flight (length d.tx) more)) ∙ eq) in
        sym (append-nil (drop d.tx_in_flight d.tx))
        ∙ ap₂ (λ x y. x ++ y) (ap given same_p)
            (sym (drop_all (length d.tx) d.tx (omega arith))
              ∙ ap (λ f. drop f.tx_in_flight f.tx) same_e)
    | inr all ↦
        let (same_tx, same_k, nothing) =
          rw eq at (poll-Leaves d (ltb→le d.tx_in_flight (length d.tx) all)) in
        ap₂ (λ x y. x ++ y) (sym nothing) (ap₂ drop (sym same_k) (sym same_tx))
  ]
