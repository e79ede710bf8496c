-- ===== src/Driver/Exchange.antt =====
-- A whole exchange through the driver of rylr998-core/src/driver.rs: `submit`, `poll`, `ack_tx`,
-- `push_rx`, `poll`.
use rylr998_rs.Base.{
  ℕ, ◌-◌, ◌≤◌, min, ◌≡◌, refl, ap, ap₂, ◌∙◌, true, false, [], ◌++◌, none, some, arith, Bytes, codes,
  length, drop, drop_all, starts_with, ok,
}
use rylr998_rs.Types.{Command, Response, Poll, IsTyped}
use rylr998_rs.FixedVec.{FixedVec}
use rylr998_rs.Encode.Wire.{wire}
use rylr998_rs.Decode.{parse_response}
use rylr998_rs.Decode.Text.{response_text, IsResponse}
use rylr998_rs.Decode.RoundTrip.{parse_response-response_text}
use rylr998_rs.Driver.{
  Driver, State, AwaitKind, QueryKey, ack, query, tx_capacity, kind_of, is_factory_reset, submit,
  ack_tx, advance, response_matches, state_matches,
}
use rylr998_rs.Driver.Turns.{resolve, done, poll}
use rylr998_rs.Driver.Invariant.{IsValid, submit-IsValid, ack_tx-IsValid, wire-pos}
use rylr998_rs.Driver.Operations.{submit_fits, ack_tx_lem}
use rylr998_rs.Driver.Lines.{Sees, consumed, line_turn, poll-line, poll_again, poll-need_tx}

-- No command in flight, and both queues empty.
pub record IsQuiet (d : Driver) : Type 0 where
  pub valid : IsValid d
  pub is_idle : d.state ≡ State.idle
  pub nothing_received : d.rx ≡ []
  pub nothing_queued : d.tx ≡ []

-- The responses that resolve a command of this kind: the error, and `+OK` or the key's value.
abbrev pub Answers : AwaitKind → Response → Type 0
Answers k (Response.err n) = Unit
Answers k Response.ok = k ≡ ack
Answers k (Response.address n) = k ≡ query QueryKey.address
Answers k (Response.network_id n) = k ≡ query QueryKey.network_id
Answers k (Response.band n) = k ≡ query QueryKey.band
Answers k (Response.parameters p) = k ≡ query QueryKey.parameters
Answers k (Response.crfop n) = k ≡ query QueryKey.crfop
Answers k (Response.uid s) = k ≡ query QueryKey.uid
Answers k (Response.version s) = k ≡ query QueryKey.version
Answers k (Response.cpin pw) = k ≡ query QueryKey.cpin

matches_error : (k : AwaitKind) (n : ℕ) → response_matches k (response_text (Response.err n)) ≡ true
unfolding response_matches
matches_error ack n = refl
matches_error (query key) n = refl

-- The line of an answer is recognised as the answer.
response_matches-Answers :
    (k : AwaitKind) (r : Response) → Answers k r → response_matches k (response_text r) ≡ true
response_matches-Answers k (Response.err n) h = matches_error k n
response_matches-Answers k Response.ok h = rw h (unfold response_matches in refl)
response_matches-Answers k (Response.address n) h = rw h (unfold response_matches in refl)
response_matches-Answers k (Response.network_id n) h = rw h (unfold response_matches in refl)
response_matches-Answers k (Response.band n) h = rw h (unfold response_matches in refl)
response_matches-Answers k (Response.parameters n) h = rw h (unfold response_matches in refl)
response_matches-Answers k (Response.crfop n) h = rw h (unfold response_matches in refl)
response_matches-Answers k (Response.uid n) h = rw h (unfold response_matches in refl)
response_matches-Answers k (Response.version n) h = rw h (unfold response_matches in refl)
response_matches-Answers k (Response.cpin n) h = rw h (unfold response_matches in refl)

-- No response line begins like an event or like `+RESET`.
record IsPlain (line : Bytes) : Type 0 where
  no_reset : starts_with line (codes "+RESET") ≡ false
  no_recv : starts_with line (codes "+RCV") ≡ false
  no_ready : starts_with line (codes "+READY") ≡ false

response_text-IsPlain : (r : Response) → IsPlain (response_text r)
response_text-IsPlain Response.ok = record { no_reset = refl; no_recv = refl; no_ready = refl }
response_text-IsPlain _ = record { no_reset = refl; no_recv = refl; no_ready = refl }

answer_turn :
    (line rest : Bytes) (d : Driver) {r : Response}
    → IsPlain line
    → state_matches d.state line ≡ true
    → parse_response line ≡ ok r
    → line_turn line rest d ≡ done (resolve (consumed line rest d)) (Poll.response r)
answer_turn line rest d p m e = ground (arith, p.no_reset, p.no_recv, p.no_ready)

-- A submitted command, none of whose bytes has been handed out.
pub record IsPending (cmd : Command) (d : Driver) : Type 0 where
  pub valid : IsValid d
  pub queued : d.tx ≡ wire cmd
  pub unsent : d.tx_in_flight ≡ 0
  pub sending : d.state ≡ State.sending_tx
  pub pending : d.pending_kind ≡ some (kind_of cmd)
  pub nothing_received : d.rx ≡ []

-- A command that has been sent, with nothing received since.
pub record IsAwaiting (kind : AwaitKind) (d : Driver) : Type 0 where
  pub valid : IsValid d
  pub state_is : d.state ≡ State.awaiting kind
  pub nothing_received : d.rx ≡ []
  pub nothing_queued : d.tx ≡ []

-- The driver once all that is queued has been handed out.
abbrev pub handed_out : Driver → Driver
handed_out d = record d { tx_in_flight = length d.tx }

handed_out-IsValid : (d : Driver) → IsValid d → IsValid (handed_out d)
handed_out-IsValid d h = ground arith

nothing_in_flight : (d : Driver) → IsQuiet d → d.tx_in_flight ≡ 0
nothing_in_flight d q = omega (arith, q.valid.in_flight, ap length q.nothing_queued)

-- The last acknowledgement of a submitted command.
advance_sent :
    (d : Driver) {k : AwaitKind}
    → d.tx ≡ []
    → d.state ≡ State.sending_tx
    → d.pending_kind ≡ some k
    → advance d ≡ record d { state = State.awaiting k; pending_kind = none }
advance_sent d t s p = ground arith

all_acked :
    (cmd : Command) (d : Driver)
    → IsPending cmd d
    → advance (record d {
      tx = drop (min (length (wire cmd)) (length d.tx)) d.tx;
      tx_in_flight = length d.tx - min (length (wire cmd)) (length d.tx);
    })
      ≡ record d {
        tx = [];
        tx_in_flight = 0;
        state = State.awaiting (kind_of cmd);
        pending_kind = none;
      }
all_acked cmd d p =
    let n = min (length (wire cmd)) (length d.tx) in
    let same : length d.tx ≡ length (wire cmd) = ap length p.queued in
    let gone : drop n d.tx ≡ [] = drop_all n d.tx (omega (arith, same)) in
    let none_left : length d.tx - n ≡ 0 = omega (arith, same) in
    advance_sent (record d { tx = drop n d.tx; tx_in_flight = length d.tx - n }) gone p.sending
      p.pending
    ∙ λ i. record d {
      tx = gone i;
      tx_in_flight = none_left i;
      state = State.awaiting (kind_of cmd);
      pending_kind = none;
    }

module _ ⦃v : FixedVec⦄ where
  pub submit-IsPending :
      (cmd : Command) (d : Driver)
      → IsQuiet d
      → IsTyped cmd
      → length (wire cmd) ≤ tx_capacity
      → IsPending cmd (submit cmd d).1
  submit-IsPending cmd d q typed fit =
      let done_ = submit_fits cmd d q.is_idle typed (omega (arith, ap length q.nothing_queued)) in
      let valid = submit-IsValid cmd d typed q.valid in
      record {
        valid = valid;
        queued = ap (λ o. o.1.tx) done_ ∙ ap (λ t. t ++ wire cmd) q.nothing_queued;
        unsent = ap (λ o. o.1.tx_in_flight) done_ ∙ nothing_in_flight d q;
        sending = ap (λ o. o.1.state) done_;
        pending = ap (λ o. o.1.pending_kind) done_;
        nothing_received = ap (λ o. o.1.rx) done_ ∙ q.nothing_received;
      }

  pub poll-IsPending :
      (cmd : Command) (d : Driver)
      → IsPending cmd d
      → poll d ≡ done (handed_out d) (Poll.need_tx (wire cmd))
  poll-IsPending cmd d p =
      poll-need_tx d (omega (arith, p.unsent, ap length p.queued, wire-pos cmd))
      ∙ ap (λ s. done (handed_out d) (Poll.need_tx s)) (ap₂ drop p.unsent p.queued)

  pub ack_tx-IsAwaiting :
      (cmd : Command) (d : Driver)
      → IsPending cmd d
      → IsAwaiting (kind_of cmd) (ack_tx (length (wire cmd)) (handed_out d))
  ack_tx-IsAwaiting cmd d p =
      let all = length (wire cmd) in
      let sent = handed_out d in
      let eq = ack_tx_lem all sent (omega arith) ∙ all_acked cmd d p in
      record {
        valid = ack_tx-IsValid all sent (handed_out-IsValid d p.valid);
        state_is = ap (λ e. e.state) eq;
        nothing_received = ap (λ e. e.rx) eq ∙ p.nothing_received;
        nothing_queued = ap (λ e. e.tx) eq;
      }

  -- The command that is sent says whether a factory reset is under way.
  pub sent-flag :
      (cmd : Command) (d : Driver)
      → IsQuiet d
      → IsTyped cmd
      → length (wire cmd) ≤ tx_capacity
      → (ack_tx (length (wire cmd)) (handed_out (submit cmd d).1)).awaiting_ready_as_ok
        ≡ is_factory_reset cmd
  sent-flag cmd d q typed fit =
      let p = submit-IsPending cmd d q typed fit in
      ap (λ e. e.awaiting_ready_as_ok)
        (ack_tx_lem (length (wire cmd)) (handed_out (submit cmd d).1) (omega arith)
          ∙ all_acked cmd (submit cmd d).1 p)
      ∙ ap (λ o. o.1.awaiting_ready_as_ok)
          (submit_fits cmd d q.is_idle typed (omega (arith, ap length q.nothing_queued)))

  -- A driver that awaits an answer, and sees its line, resolves the command with it.
  pub poll-answer :
      (k : AwaitKind) (r : Response) (rest : Bytes) (d : Driver)
      → IsValid d
      → d.state ≡ State.awaiting k
      → Answers k r
      → IsResponse r
      → Sees d (response_text r) rest
      → poll d ≡ done (resolve (consumed (response_text r) rest d)) (Poll.response r)
  poll-answer k r rest d h state a typed s =
      poll-line (response_text r) rest d s h
      ∙ ap poll_again (
          answer_turn (response_text r) rest d (response_text-IsPlain r)
            (ap (λ t. state_matches t (response_text r)) state ∙ response_matches-Answers k r a)
            (parse_response-response_text r typed))
