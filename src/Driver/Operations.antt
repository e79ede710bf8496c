-- ===== src/Driver/Operations.antt =====
-- What `submit`, `push_rx` and `ack_tx` of rylr998-core/src/driver.rs do, on every branch.
use rylr998_rs.Base.{
  ℕ, ◌+◌, ◌-◌, ◌≤◌, ◌<◌, min, ◌≡◌, ◌≢◌, ap, inl, inr, ◌++◌, some, if◌then◌else◌, take_all, arith,
  ltb, ltb→lt, ltb→le, lt→ltb, le→ltb, Bool-cases, Bytes, length, take, drop, replicate,
  length-take, length-replicate, take-append, Outcome, ok, err, panic,
}
use rylr998_rs.Types.{Command, Error, IsTyped}
use rylr998_rs.FixedVec.{FixedVec}
use rylr998_rs.Encode.{encode}
use rylr998_rs.Encode.Wire.{wire}
use rylr998_rs.Encode.Correct.{encode_fits, encode_overflows}
use rylr998_rs.Driver.{
  Driver, State, AwaitKind, rx_capacity, tx_capacity, is_idle, kind_of, is_factory_reset, submit,
  encoded, push_rx, ack_tx, advance,
}
use rylr998_rs.Driver.Queues.{release_lem}

abbrev blank : Bytes
blank = replicate tx_capacity 0

blank_len : length blank ≡ tx_capacity
blank_len = length-replicate {A = ℕ} tx_capacity 0

module _ ⦃v : FixedVec⦄ where
  -- While a command is in flight `submit` is refused with `Busy` and changes nothing.
  pub submit_busy :
      (cmd : Command) (d : Driver) → d.state ≢ State.idle → submit cmd d ≡ (err Error.busy, d)
  unfolding submit
  submit_busy cmd d h = ground arith

  -- An idle driver queues the whole line of the command behind what is queued, and waits to send it.
  pub submit_fits :
      (cmd : Command) (d : Driver)
      → d.state ≡ State.idle
      → IsTyped cmd
      → length d.tx + length (wire cmd) ≤ tx_capacity
      → submit cmd d ≡ (
        ok tt,
        record d {
          tx = d.tx ++ wire cmd;
          state = State.sending_tx;
          pending_kind = some (kind_of cmd);
          awaiting_ready_as_ok = is_factory_reset cmd;
        },
      )
  unfolding submit
  submit_fits cmd d h typed fit = rw (
    ap is_idle h,
    encode_fits cmd blank typed (omega (arith, blank_len)),
    take-append (wire cmd) (drop (length (wire cmd)) blank),
    v.extend_fits tx_capacity d.tx (wire cmd) fit,
  )

  encoded_overflow :
      (kind : AwaitKind) (d : Driver) (o : Outcome Error ℕ × Bytes)
      → o.0 ≡ err Error.tx_overflow
      → encoded kind d o ≡ (err Error.tx_overflow, d)
  encoded_overflow kind d (ok n, tmp) h = cc
  encoded_overflow kind d (err e, tmp) h = ground arith
  encoded_overflow kind d (panic, tmp) h = cc

  -- A line that the queue has no room for is refused with `TxOverflow`; nothing is queued and the
  -- driver stays idle.
  pub submit_overflows :
      (cmd : Command) (d : Driver)
      → d.state ≡ State.idle
      → IsTyped cmd
      → tx_capacity < length d.tx + length (wire cmd)
      → submit cmd d
        ≡ (err Error.tx_overflow, record d { awaiting_ready_as_ok = is_factory_reset cmd })
  unfolding submit
  submit_overflows cmd d h typed over = elim (Bool-cases (ltb tx_capacity (length (wire cmd)))) [
    | inl long ↦ rw (ap is_idle h) (
        encoded_overflow (kind_of cmd) _ (encode cmd blank)
          (encode_overflows cmd blank typed (omega (arith, ltb→lt _ _ long, blank_len))))
    | inr short ↦ rw (
      ap is_idle h,
      encode_fits cmd blank typed (omega (arith, ltb→le _ _ short, blank_len)),
      take-append (wire cmd) (drop (length (wire cmd)) blank),
      v.extend_full tx_capacity d.tx (wire cmd) over,
    )
  ]

  -- `push_rx` of bytes that fit appends all of them.
  pub push_rx_fits :
      (bytes : Bytes) (d : Driver)
      → length d.rx + length bytes ≤ rx_capacity
      → push_rx bytes d ≡ (ok (length bytes), record d { rx = d.rx ++ bytes })
  unfolding push_rx
  push_rx_fits bytes d fit = rw (
    le→ltb (rx_capacity - length d.rx) (length bytes) (omega arith),
    v.extend_fits rx_capacity d.rx bytes fit,
  )

  -- `push_rx` of more bytes than fit fills the queue with the first of them and reports
  -- `RxOverflow`.
  pub push_rx_overflows :
      (bytes : Bytes) (d : Driver)
      → length d.rx ≤ rx_capacity
      → rx_capacity < length d.rx + length bytes
      → push_rx bytes d
        ≡ (err Error.rx_overflow, record d { rx = d.rx ++ take (rx_capacity - length d.rx) bytes })
  unfolding push_rx
  push_rx_overflows bytes d within over =
      let room = rx_capacity - length d.rx in
      rw (
        lt→ltb room (length bytes) (omega arith),
        v.extend_fits rx_capacity d.rx (take room bytes) (omega (arith, length-take room bytes)),
      )

  -- `push_rx` on a queue within its capacity takes in as much as there is room for, from the front;
  -- it reports `RxOverflow` exactly if that is not all, and otherwise the number of bytes.
  pub push_rx_lem :
      (bytes : Bytes) (d : Driver)
      → length d.rx ≤ rx_capacity
      → push_rx bytes d ≡ (
        if ltb (rx_capacity - length d.rx) (length bytes)
            then err Error.rx_overflow
            else ok (length bytes),
        record d { rx = d.rx ++ take (rx_capacity - length d.rx) bytes },
      )
  push_rx_lem bytes d h = elim (Bool-cases (ltb (rx_capacity - length d.rx) (length bytes))) [
    | inl over ↦ rw over (push_rx_overflows bytes d h (omega (arith, ltb→lt _ _ over)))
    | inr fit ↦
        let le : length bytes ≤ rx_capacity - length d.rx = ltb→le _ _ fit in
        rw (fit, take_all (rx_capacity - length d.rx) bytes le) (push_rx_fits bytes d (omega arith))
  ]

  -- `ack_tx` drops the acknowledged bytes, at most those that were handed out, from the queue.
  pub ack_tx_lem :
      (n : ℕ) (d : Driver)
      → d.tx_in_flight ≤ length d.tx
      → ack_tx n d
        ≡ advance (record d {
          tx = drop (min n d.tx_in_flight) d.tx;
          tx_in_flight = d.tx_in_flight - min n d.tx_in_flight;
        })
  unfolding ack_tx
  ack_tx_lem n d h = ap advance (release_lem (min n d.tx_in_flight) d (omega arith))
