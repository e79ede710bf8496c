-- ===== src/Driver/Stream.antt =====
-- Any sequence of calls on the driver of rylr998-core/src/driver.rs, as steps of a relation: the bytes
-- that it hands out are the lines of the commands that it took, in order.
use rylr998_rs.Base.{
  ℕ, zero, suc, ◌+◌, ◌-◌, ◌≤◌, min, ◌≡◌, refl, sym, ap, ◌∙◌, inl, inr, [], ◌∷◌, ◌++◌, append-nil,
  append_assoc, arith, ltb, ltb→lt, ltb→le, Bool-cases, Bytes, length, drop, drop-drop, Outcome, ok,
  err, panic,
}
use rylr998_rs.Types.{Command, Poll, Error, IsTyped}
use rylr998_rs.FixedVec.{FixedVec}
use rylr998_rs.Encode.Wire.{wire}
use rylr998_rs.Driver.{Driver, tx_capacity, new, submit, push_rx, ack_tx, advance}
use rylr998_rs.Driver.Turns.{done, poll}
use rylr998_rs.Driver.Operations.{
  submit_busy, submit_fits, submit_overflows, push_rx_lem, ack_tx_lem,
}
use rylr998_rs.Driver.Invariant.{
  IsValid, new-IsValid, submit-IsValid, push_rx-IsValid, ack_tx-IsValid, state_cases,
}
use rylr998_rs.Driver.Polling.{poll-Settles}
use rylr998_rs.Driver.Outgoing.{given, poll-given}

-- A driver with its history: the lines of the commands that it took, and what it handed out.
pub record Trace : Type 0 where
  pub driver : Driver
  pub taken : Bytes
  pub handed : Bytes

abbrev pub start : Trace
start = record { driver = new; taken = []; handed = [] }

-- The line of a command, if `submit` took it.
abbrev pub accepted : Command → Outcome Error (Unit {0}) → Bytes
accepted cmd (ok u) = wire cmd
accepted cmd (err e) = []
accepted cmd panic = []

module _ ⦃v : FixedVec⦄ where
  -- One call.
  pub data Call : Trace → Trace → Type 0 where
    submits :
        (cmd : Command) (t : Trace)
        → IsTyped cmd
        → Call t (record {
          driver = (submit cmd t.driver).1;
          taken = t.taken ++ accepted cmd (submit cmd t.driver).0;
          handed = t.handed;
        })
    pushes : (bytes : Bytes) (t : Trace) → Call t (record t { driver = (push_rx bytes t.driver).1 })
    acks : (n : ℕ) (t : Trace) → Call t (record t { driver = ack_tx n t.driver })
    polls :
        (t : Trace) (d : Driver) (p : Poll)
        → poll t.driver ≡ done d p
        → Call t (record t { driver = d; handed = t.handed ++ given p })

  -- The traces that calls in any order lead to.
  pub data Reach : Trace → Type 0 where
    begin : Reach start
    then_call : (t u : Trace) → Reach t → Call t u → Reach u

-- The queued bytes that are not handed out yet.
abbrev pub unsent : Driver → Bytes
unsent d = drop d.tx_in_flight d.tx

drop-within : (n : ℕ) (xs ys : Bytes) → n ≤ length xs → drop n (xs ++ ys) ≡ drop n xs ++ ys
drop-within zero xs ys h = refl
drop-within (suc n) [] ys h = absurd (omega arith)
drop-within (suc n) (x ∷ xs) ys h = drop-within n xs ys (omega arith)

advance-unsent : (d : Driver) → unsent (advance d) ≡ unsent d
advance-unsent d = ground arith

module _ ⦃v : FixedVec⦄ where
  submit-unsent :
      (cmd : Command) (d : Driver)
      → IsTyped cmd
      → IsValid d
      → unsent (submit cmd d).1 ≡ unsent d ++ accepted cmd (submit cmd d).0
  submit-unsent cmd d typed h = elim (state_cases d.state) [
    | inr busy ↦ rw (submit_busy cmd d busy) (sym (append-nil (unsent d)))
    | inl idle ↦ elim (Bool-cases (ltb tx_capacity (length d.tx + length (wire cmd)))) [
      | inl over ↦
          rw (submit_overflows cmd d idle typed (ltb→lt _ _ over)) (sym (append-nil (unsent d)))
      | inr fit ↦
          rw (submit_fits cmd d idle typed (ltb→le _ _ fit))
            (drop-within d.tx_in_flight d.tx (wire cmd) h.in_flight)
    ]
  ]

  ack_tx-unsent : (n : ℕ) (d : Driver) → IsValid d → unsent (ack_tx n d) ≡ unsent d
  ack_tx-unsent n d h =
      let k = min n d.tx_in_flight in
      ap unsent (ack_tx_lem n d h.in_flight)
      ∙ advance-unsent (record d { tx = drop k d.tx; tx_in_flight = d.tx_in_flight - k })
      ∙ drop-drop (d.tx_in_flight - k) k d.tx
      ∙ ap (λ m. drop m d.tx) {x = k + (d.tx_in_flight - k)} (omega arith)

  push_rx-unsent : (bytes : Bytes) (d : Driver) → IsValid d → unsent (push_rx bytes d).1 ≡ unsent d
  push_rx-unsent bytes d h = ap (λ o. unsent o.1) (push_rx_lem bytes d h.rx_fits)

  -- Each call keeps the driver valid, and what was taken is what was handed out and what is unsent.
  abbrev pub IsStream : Trace → Type 0
  IsStream t = IsValid t.driver × (t.taken ≡ t.handed ++ unsent t.driver)

  Call-IsStream : (t u : Trace) → Call t u → IsStream t → IsStream u
  Call-IsStream _ _ (submits cmd t typed) (h, e) = (
    submit-IsValid cmd t.driver typed h,
    ap (λ s. s ++ accepted cmd (submit cmd t.driver).0) e
        ∙ append_assoc t.handed (unsent t.driver) (accepted cmd (submit cmd t.driver).0)
        ∙ ap (λ s. t.handed ++ s) (sym (submit-unsent cmd t.driver typed h)),
  )
  Call-IsStream _ _ (pushes bytes t) (h, e) = (
    push_rx-IsValid bytes t.driver h,
    e ∙ ap (λ s. t.handed ++ s) (sym (push_rx-unsent bytes t.driver h)),
  )
  Call-IsStream _ _ (acks n t) (h, e) =
      (ack_tx-IsValid n t.driver h, e ∙ ap (λ s. t.handed ++ s) (sym (ack_tx-unsent n t.driver h)))
  Call-IsStream _ _ (polls t d p q) (h, e) = (
    rw q at (poll-Settles t.driver h),
    e
        ∙ ap (λ s. t.handed ++ s) (poll-given t.driver h q)
        ∙ sym (append_assoc t.handed (given p) (unsent d)),
  )

  -- After calls in any order, with whatever bytes received and whatever numbers acknowledged, the
  -- driver is valid, and the bytes that it has handed out, followed by those that it has still to
  -- hand out, are the lines of the commands that it took, in order: none is lost, repeated or mixed.
  pub Reach-IsStream : (t : Trace) → Reach t → IsStream t
  Reach-IsStream _ begin = (new-IsValid, refl)
  Reach-IsStream _ (then_call s t r c) = Call-IsStream s t c (Reach-IsStream s r)
