-- ===== src/Driver.antt =====
-- rylr998-core/src/driver.rs: the state machine. An operation on `&mut self` takes the driver and
-- returns the new one; the two queues are those of `FixedVec`. A line in `rx` ends at `\r\n`.
pub mod Turns
pub mod Queues
pub mod Operations
pub mod Invariant
pub mod Polling
pub mod Lines
pub mod Cases
pub mod Exchange
pub mod Blocked
pub mod Partial
pub mod Panics
pub mod Session
pub mod Batch
pub mod Matching
pub mod Answered
pub mod Outgoing
pub mod Stream
pub mod Progress
use rylr998_rs.Base.{
  ℕ, zero, suc, ◌+◌, ◌-◌, ◌≤◌, ◌<◌, min, Bool, true, false, ◌&&◌, ◌||◌, [], ◌∷◌, ◌++◌, Option, none,
  some, ltb, leb, ◌==◌, if◌then◌else◌, Bytes, codes, length, take, drop, replicate, get_elem?,
  eq_bytes, starts_with, position, Outcome, ok, err, panic,
}
use rylr998_rs.Types.{Command, Response, Event, Poll, Error}
use rylr998_rs.Encode.{encode}
use rylr998_rs.Decode.{parse_response, parse_event}
use rylr998_rs.FixedVec.{FixedVec, copy_down}

abbrev pub rx_capacity : ℕ
rx_capacity = 512

abbrev pub tx_capacity : ℕ
tx_capacity = 512

abbrev pub line_capacity : ℕ
line_capacity = 288

-- `QueryKey`.
pub data QueryKey : Type 0 where
  address network_id band parameters crfop uid version cpin : QueryKey

-- `AwaitKind`.
pub data AwaitKind : Type 0 where
  ack : AwaitKind
  query : QueryKey → AwaitKind

-- `State`.
pub data State : Type 0 where
  idle sending_tx : State
  awaiting : AwaitKind → State

-- `Driver`.
pub record Driver : Type 0 where
  pub rx : Bytes
  pub tx : Bytes
  pub tx_in_flight : ℕ
  pub state : State
  pub awaiting_ready_as_ok : Bool
  pub pending_kind : Option AwaitKind
  pub line_buf : Bytes
  pub line_buf_len : ℕ

-- `Driver::new`, and `default`, which has the same fields.
abbrev pub new : Driver
new = record {
  rx = [];
  tx = [];
  tx_in_flight = 0;
  state = State.idle;
  awaiting_ready_as_ok = false;
  pending_kind = none;
  line_buf = replicate line_capacity 0;
  line_buf_len = 0;
}

-- `matches!(self.state, State::Idle)` and `State::SendingTx`.
abbrev pub is_idle : State → Bool
is_idle State.idle = true
is_idle State.sending_tx = false
is_idle (State.awaiting k) = false

abbrev pub is_sending_tx : State → Bool
is_sending_tx State.idle = false
is_sending_tx State.sending_tx = true
is_sending_tx (State.awaiting k) = false

-- The `match cmd` of `submit`.
unfoldable pub kind_of : Command → AwaitKind
kind_of Command.get_address = query QueryKey.address
kind_of Command.get_network_id = query QueryKey.network_id
kind_of Command.get_band = query QueryKey.band
kind_of Command.get_parameters = query QueryKey.parameters
kind_of Command.get_crfop = query QueryKey.crfop
kind_of Command.get_uid = query QueryKey.uid
kind_of Command.get_version = query QueryKey.version
kind_of Command.get_cpin = query QueryKey.cpin
kind_of _ = ack

-- `matches!(cmd, Command::FactoryReset)`.
unfoldable pub is_factory_reset : Command → Bool
is_factory_reset Command.factory_reset = true
is_factory_reset _ = false

abbrev pub is_empty : Bytes → Bool
is_empty [] = true
is_empty (c ∷ s) = false

-- The outcome of `tx.extend_from_slice(&tmp[..n])` in `submit`, then the new state.
abbrev pub queue_line : AwaitKind → Driver → Option Bytes → Outcome Error (Unit {0}) × Driver
queue_line kind d none = (err Error.tx_overflow, d)
queue_line kind d (some tx') =
    (ok tt, record d { tx = tx'; state = State.sending_tx; pending_kind = some kind })

-- `let _ = self.rx.extend_from_slice(s)`: its error is dropped, and changes nothing.
abbrev pub or_keep : Bytes → Option Bytes → Bytes
or_keep xs none = xs
or_keep xs (some ys) = ys

-- The second half: `if let Some(kind) = self.pending_kind.take()`.
abbrev pub await_pending : Option AwaitKind → Driver → Driver
await_pending none d = d
await_pending (some kind) d = record d { state = State.awaiting kind; pending_kind = none }

abbrev pub advance : Driver → Driver
advance d = if is_empty d.tx && is_sending_tx d.state then await_pending d.pending_kind d else d

module _ ⦃v : FixedVec⦄ where
  -- `submit` behind `encode`.
  abbrev pub encoded :
      AwaitKind → Driver → Outcome Error ℕ × Bytes → Outcome Error (Unit {0}) × Driver
  encoded kind d (ok n, tmp) = queue_line kind d (v.extend_from_slice tx_capacity d.tx (take n tmp))
  encoded kind d (err e, tmp) = (err e, d)
  encoded kind d (panic, tmp) = (panic, d)

  -- `submit`.
  unfoldable pub submit : Command → Driver → Outcome Error (Unit {0}) × Driver
  submit cmd d =
      if is_idle d.state
      then encoded (kind_of cmd) (record d { awaiting_ready_as_ok = is_factory_reset cmd })
          (encode cmd (replicate tx_capacity 0))
      else (err Error.busy, d)

  -- `push_rx`.
  unfoldable pub push_rx : Bytes → Driver → Outcome Error ℕ × Driver
  push_rx bytes d =
      let room = rx_capacity - length d.rx in
      if ltb room (length bytes)
      then (
        err Error.rx_overflow,
        record d { rx = or_keep d.rx (v.extend_from_slice rx_capacity d.rx (take room bytes)) },
      )
      else (
        ok (length bytes),
        record d { rx = or_keep d.rx (v.extend_from_slice rx_capacity d.rx bytes) },
      )

  -- The first half of `ack_tx`, for `n ≤ tx_in_flight`: the acknowledged bytes leave the queue.
  unfoldable pub release : ℕ → Driver → Driver
  release n d =
      let len = length d.tx in
      record d {
        tx = if ltb 0 n && leb n len then v.truncate (copy_down n d.tx) (len - n) else d.tx;
        tx_in_flight = d.tx_in_flight - n;
      }

  -- `ack_tx`.
  unfoldable pub ack_tx : ℕ → Driver → Driver
  ack_tx n d = advance (release (min n d.tx_in_flight) d)

  -- `drain_rx_line`, for `end + 2 ≤ rx.len()`.
  unfoldable pub drain_rx_line : ℕ → Driver → Driver
  drain_rx_line end d =
      let len = length d.rx in
      record d { rx = v.truncate (copy_down (end + 2) d.rx) (len - (end + 2)) }

abbrev pub is_byte : ℕ → Option ℕ → Bool
is_byte c none = false
is_byte c (some b) = b == c

-- `next_line_end`.
unfoldable pub next_line_end : Bytes → Option ℕ
next_line_end rx = elim (position rx b'\r') [
  | none ↦ none
  | some r ↦ if is_byte b'\n' (get_elem? rx (r + 1)) then some r else none
]

-- The prefix of a query's answer, in `response_matches`.
unfoldable pub key_prefix : QueryKey → Bytes
key_prefix QueryKey.address = codes "+ADDRESS="
key_prefix QueryKey.network_id = codes "+NETWORKID="
key_prefix QueryKey.band = codes "+BAND="
key_prefix QueryKey.parameters = codes "+PARAMETER="
key_prefix QueryKey.crfop = codes "+CRFOP="
key_prefix QueryKey.uid = codes "+UID="
key_prefix QueryKey.version = codes "+VER="
key_prefix QueryKey.cpin = codes "+CPIN="

-- `response_matches`.
unfoldable pub response_matches : AwaitKind → Bytes → Bool
unfolding key_prefix
response_matches ack line =
    starts_with line (codes "+ERR=")
    || (eq_bytes line (codes "+OK")
        || (eq_bytes line (codes "+RESET") || eq_bytes line (codes "+READY")))
response_matches (query key) line =
    starts_with line (codes "+ERR=") || starts_with line (key_prefix key)

-- The test before the last branch of `poll`.
abbrev pub state_matches : State → Bytes → Bool
state_matches State.idle line = false
state_matches State.sending_tx line = false
state_matches (State.awaiting kind) line = response_matches kind line
