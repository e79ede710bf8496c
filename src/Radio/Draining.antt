-- ===== src/Radio/Draining.antt =====
-- The inner loop of `pump_until` in rylr998-std/src/radio.rs ends, and keeps the driver valid.
use rylr998_rs.Base.{
  ℕ, zero, suc, ◌+◌, ◌≤◌, ◌<◌, ◌≡◌, refl, sym, ap, ◌∙◌, [], ◌∷◌, Option, none, some, arith, length,
  Outcome, ok, err, panic,
}
use rylr998_rs.Types.{Response, Poll}
use rylr998_rs.FixedVec.{FixedVec}
use rylr998_rs.Driver.{Driver, push_rx}
use rylr998_rs.Driver.Turns.{Turn, done, again, fault, poll}
use rylr998_rs.Driver.Invariant.{IsValid, push_rx-IsValid, ack_tx-IsValid}
use rylr998_rs.Driver.Polling.{Settles, poll-Settles}
use rylr998_rs.Driver.Progress.{Moves, poll-Moves, ack_tx_fewer}
use rylr998_rs.Radio.{
  Error, Radio, Read, data_read, nothing_yet, failed, Drained, quiet, returned, unfinished, Step,
  stop, next, answer_step, write_step, turn_step, drain, received, take_in,
}

abbrev pub load : Driver → ℕ
load d = length d.rx + length d.tx

-- The inner loop ends, in a valid driver, with nothing more to do or with a return.
abbrev pub Ends : {R : Type 0} → Drained R → Type 0
Ends (quiet y) = IsValid y.driver
Ends (returned o y) = IsValid y.driver
Ends (unfinished y) = ⊥

-- A turn of the inner loop ends it, or leaves fewer bytes in the queues.
abbrev Advances : {R : Type 0} → ℕ → Step R → Type 0
Advances n (stop out) = Ends out
Advances n (next y) = IsValid y.driver × (load y.driver < n)

module _ ⦃v : FixedVec⦄ where
  write_step-Advances :
      (R : Type 0) (w : Option ℕ) (n m : ℕ) (x : Radio) (d : Driver) (bytes : rylr998_rs.Base.Bytes)
      → IsValid d
      → Moves n m (done d (Poll.need_tx bytes))
      → Advances {R = R} (n + m) (write_step w bytes d x)
  write_step-Advances R none n m x d bytes h (hr, ht, pos, some_, all) = (
    ack_tx-IsValid (length bytes) d h,
    omega (arith, ack_tx_fewer (length bytes) d some_ pos all),
  )
  write_step-Advances R (some e) n m x d bytes h k = h

  answer_step-Advances :
      {R : Type 0} (o : Option (Outcome Error R)) (n : ℕ) (x : Radio) (d : Driver)
      → IsValid d
      → load d < n
      → Advances {R = R} n (answer_step o d x)
  answer_step-Advances none n x d h k = (h, k)
  answer_step-Advances (some out) n x d h k = h

  turn_step-Advances :
      {R : Type 0} (want : Response → Option (Outcome Error R)) (w : Option ℕ) (n m : ℕ) (t : Turn)
      (x : Radio)
      → IsValid x.driver
      → Settles t
      → Moves n m t
      → Advances (n + m) (turn_step want w t x)
  turn_step-Advances want w n m fault x hx h k = hx
  turn_step-Advances want w n m (again d) x hx h k = absurd h
  turn_step-Advances want w n m (done d Poll.idle) x hx h k = h
  turn_step-Advances want w n m (done d (Poll.need_tx bytes)) x hx h k =
      write_step-Advances _ w n m x d bytes h k
  turn_step-Advances want w n m (done d (Poll.response r)) x hx h (hr, ht) =
      answer_step-Advances (want r) (n + m) x d h (omega arith)
  turn_step-Advances want w n m (done d (Poll.event e)) x hx h (hr, ht) = (h, omega arith)

  after :
      {R : Type 0} (want : Response → Option (Outcome Error R)) (w : Option ℕ) (fuel n : ℕ)
      (s : Step R)
      → Advances n s
      → ((y : Radio) → IsValid y.driver → load y.driver < n → Ends (drain fuel want w y))
      → Ends (elim s [ stop out ↦ out | next y ↦ drain fuel want w y ])
  after want w fuel n (stop out) k f = k
  after want w fuel n (next y) (h, k) f = f y h k

  -- The inner loop ends with as much fuel as there are bytes in the two queues, and one more, and
  -- the driver is valid again.
  pub drain-Ends :
      {R : Type 0} (want : Response → Option (Outcome Error R)) (w : Option ℕ) (fuel : ℕ)
      (x : Radio)
      → IsValid x.driver
      → load x.driver < fuel
      → Ends (drain fuel want w x)
  unfolding drain
  drain-Ends want w zero x h k = absurd (omega arith)
  drain-Ends want w (suc fuel) x h k =
      after want w fuel (load x.driver) (turn_step want w (poll x.driver) x)
        (turn_step-Advances want w (length x.driver.rx) (length x.driver.tx) (poll x.driver) x h
          (poll-Settles x.driver h) (poll-Moves x.driver))
        (λ y hy less. drain-Ends want w fuel y hy (omega arith))

  received-IsValid :
      (o : Outcome rylr998_rs.Types.Error ℕ) (d : Driver) (x : Radio)
      → IsValid d
      → IsValid (received (o, d) x).1.driver
  received-IsValid (ok n) d x h = h
  received-IsValid (err e) d x h = h
  received-IsValid panic d x h = h

  pub take_in-IsValid : (r : Read) (x : Radio) → IsValid x.driver → IsValid (take_in r x).1.driver
  unfolding take_in
  take_in-IsValid (data_read bytes) x h =
      received-IsValid (push_rx bytes x.driver).0 (push_rx bytes x.driver).1 x
        (push_rx-IsValid bytes x.driver h)
  take_in-IsValid nothing_yet x h = h
  take_in-IsValid (failed e) x h = h
