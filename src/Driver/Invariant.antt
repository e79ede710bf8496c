-- ===== src/Driver/Invariant.antt =====
-- The invariant of the driver of rylr998-core/src/driver.rs: the buffers keep their bounds, the
-- bytes that were handed out are queued, and the states agree with the queue.
use rylr998_rs.Base.{
  ℕ, ◌+◌, ◌-◌, ◌≤◌, ◌<◌, min, ◌≡◌, ◌≢◌, refl, ap, ◌⊎◌, inl, inr, [], ◌∷◌, Option, some, arith, ltb,
  ltb→lt, ltb→le, Bool-cases, Bytes, length, take, drop, length-append, length-take, length-drop,
  drop_all,
}
use rylr998_rs.Types.{Command, IsTyped}
use rylr998_rs.FixedVec.{FixedVec}
use rylr998_rs.Encode.Wire.{wire, crlf, command_text}
use rylr998_rs.Driver.{
  Driver, State, AwaitKind, rx_capacity, tx_capacity, line_capacity, new, submit, push_rx, ack_tx,
  advance,
}
use rylr998_rs.Driver.Operations.{
  submit_busy, submit_fits, submit_overflows, push_rx_fits, push_rx_overflows, ack_tx_lem,
}

-- What each state says of the outgoing queue.
abbrev pub StateInv : State → Bytes → Option AwaitKind → Type 0
StateInv State.idle tx pending = Unit
StateInv State.sending_tx tx pending = (0 < length tx) × (k : AwaitKind) × (pending ≡ some k)
StateInv (State.awaiting kind) tx pending = tx ≡ []

pub record IsValid (d : Driver) : Type 0 where
  pub rx_fits : length d.rx ≤ rx_capacity
  pub tx_fits : length d.tx ≤ tx_capacity
  pub in_flight : d.tx_in_flight ≤ length d.tx
  pub line_size : length d.line_buf ≡ line_capacity
  pub line_fits : d.line_buf_len ≤ line_capacity
  pub states : StateInv d.state d.tx d.pending_kind

pub new-IsValid : IsValid new
new-IsValid = omega arith

pub wire-pos : (cmd : Command) → 0 < length (wire cmd)
wire-pos cmd = omega (arith, length-append (command_text cmd) crlf)

pub state_cases : (s : State) → (s ≡ State.idle) ⊎ (s ≢ State.idle)
state_cases State.idle = inl refl
state_cases State.sending_tx = inr (λ e. cc)
state_cases (State.awaiting k) = inr (λ e. cc)

-- `IsValid` but for the state while the queue has just been drained.
record IsReleased (d : Driver) : Type 0 where
  rx_fits : length d.rx ≤ rx_capacity
  tx_fits : length d.tx ≤ tx_capacity
  in_flight : d.tx_in_flight ≤ length d.tx
  line_size : length d.line_buf ≡ line_capacity
  line_fits : d.line_buf_len ≤ line_capacity
  sending : d.state ≡ State.sending_tx → (k : AwaitKind) × (d.pending_kind ≡ some k)
  drained : (k : AwaitKind) → d.state ≡ State.awaiting k → d.tx ≡ []

advance_at :
    {d : Driver} (s : State) (tx : Bytes)
    → d.state ≡ s
    → d.tx ≡ tx
    → IsReleased d
    → IsValid (advance d)
advance_at State.idle tx e q h = ground arith
advance_at State.sending_tx [] e q h = let (k, p) = h.sending e in ground arith
advance_at State.sending_tx (c ∷ tx) e q h = let (k, p) = h.sending e in ground arith
advance_at (State.awaiting k) tx e q h = ground (arith, h.drained k e)

advance-IsValid : (d : Driver) → IsReleased d → IsValid (advance d)
advance-IsValid d h = advance_at d.state d.tx refl refl h

drop_nil : (n : ℕ) {xs : Bytes} → xs ≡ [] → drop n xs ≡ []
drop_nil n {xs} h = drop_all n xs (omega (arith, ap length h))

-- The driver once `n` bytes have been acknowledged.
abbrev released : ℕ → Driver → Driver
released n d = record d {
  tx = drop (min n d.tx_in_flight) d.tx;
  tx_in_flight = d.tx_in_flight - min n d.tx_in_flight;
}

pending_of :
    (s : State) (tx : Bytes) {p : Option AwaitKind}
    → StateInv s tx p
    → s ≡ State.sending_tx
    → (k : AwaitKind) × (p ≡ some k)
pending_of State.idle _ h e = cc
pending_of State.sending_tx _ (n, k, p) e = (k, p)
pending_of (State.awaiting k) _ h e = cc

drained_of :
    (s : State) (p : Option AwaitKind) {tx : Bytes}
    → StateInv s tx p
    → (k : AwaitKind) → s ≡ State.awaiting k
    → tx ≡ []
drained_of State.idle _ h k e = cc
drained_of State.sending_tx _ h k e = cc
drained_of (State.awaiting k') _ h k e = h

released-IsReleased : (n : ℕ) (d : Driver) → IsValid d → IsReleased (released n d)
released-IsReleased n d h = record {
  rx_fits = h.rx_fits;
  tx_fits = omega (arith, h.tx_fits, length-drop (min n d.tx_in_flight) d.tx);
  in_flight = omega (arith, h.in_flight, length-drop (min n d.tx_in_flight) d.tx);
  line_size = h.line_size;
  line_fits = h.line_fits;
  sending = pending_of d.state d.tx h.states;
  drained = λ k e. drop_nil (min n d.tx_in_flight) (drained_of d.state d.pending_kind h.states k e);
}

module _ ⦃v : FixedVec⦄ where
  -- `submit` of a command keeps the driver valid, on every branch.
  pub submit-IsValid :
      (cmd : Command) (d : Driver) → IsTyped cmd → IsValid d → IsValid (submit cmd d).1
  submit-IsValid cmd d typed h = elim (state_cases d.state) [
    | inr busy ↦ rw (submit_busy cmd d busy) h
    | inl idle ↦ elim (Bool-cases (ltb tx_capacity (length d.tx + length (wire cmd)))) [
      | inl over ↦ rw (submit_overflows cmd d idle typed (ltb→lt _ _ over)) (ground arith)
      | inr fit ↦
          rw (submit_fits cmd d idle typed (ltb→le _ _ fit))
            (ground (arith, length-append d.tx (wire cmd), wire-pos cmd))
    ]
  ]

  -- `push_rx` of any bytes keeps the driver valid, on every branch.
  pub push_rx-IsValid : (bytes : Bytes) (d : Driver) → IsValid d → IsValid (push_rx bytes d).1
  push_rx-IsValid bytes d h = elim (Bool-cases (ltb rx_capacity (length d.rx + length bytes))) [
    | inl over ↦ rw (push_rx_overflows bytes d h.rx_fits (ltb→lt _ _ over)) (
        ground (
          arith,
          length-append d.rx (take (rx_capacity - length d.rx) bytes),
          length-take (rx_capacity - length d.rx) bytes,
        ))
    | inr fit ↦
        rw (push_rx_fits bytes d (ltb→le _ _ fit)) (ground (arith, length-append d.rx bytes))
  ]

  -- `ack_tx` of any number keeps the driver valid.
  pub ack_tx-IsValid : (n : ℕ) (d : Driver) → IsValid d → IsValid (ack_tx n d)
  ack_tx-IsValid n d h =
      rw (ack_tx_lem n d h.in_flight) (advance-IsValid (released n d) (released-IsReleased n d h))
