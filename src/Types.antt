-- ===== src/Types.antt =====
-- The public types of rylr998-core/src/types.rs. A `&str` is the list of its bytes; borrowed and
-- owned data are the same values here.
pub mod RadioError
use rylr998_rs.Base.{ℕ, ◌<◌, ◌^◌, Bytes}
use rylr998_rs.Base.Int.{ℤ}

-- `RfParams`; every field is a `u8`.
pub record RfParams : Type 0 where
  pub sf : ℕ
  pub bw : ℕ
  pub cr : ℕ
  pub preamble : ℕ

-- `Command`. The last constructor is `Send { to, data }`.
pub data Command : Type 0 where
  ping get_address : Command
  set_address : ℕ → Command
  get_network_id : Command
  set_network_id : ℕ → Command
  get_band : Command
  set_band : ℕ → Command
  get_cpin : Command
  set_cpin : Bytes → Command
  get_parameters : Command
  set_parameters : RfParams → Command
  get_crfop get_uid get_version factory_reset : Command
  send : ℕ → Bytes → Command

-- `Response`; the three text variants hold the bytes of a `&str`.
pub data Response : Type 0 where
  ok : Response
  err : ℕ → Response
  address : ℕ → Response
  network_id : ℕ → Response
  band : ℕ → Response
  parameters : RfParams → Response
  crfop : ℕ → Response
  uid : Bytes → Response
  version : Bytes → Response
  cpin : Bytes → Response

-- `Event`: `Recv { from, data, rssi, snr }` and `Ready`.
pub data Event : Type 0 where
  recv : ℕ → Bytes → ℤ → ℤ → Event
  ready : Event

-- `Poll`.
pub data Poll : Type 0 where
  idle : Poll
  need_tx : Bytes → Poll
  response : Response → Poll
  event : Event → Poll

-- `Error`, the errors of the protocol layer.
pub data Error : Type 0 where
  busy tx_overflow rx_overflow parse : Error

-- `OwnedEvent`, the heap copy of an event.
pub data OwnedEvent : Type 0 where
  recv : ℕ → Bytes → ℤ → ℤ → OwnedEvent
  ready : OwnedEvent

-- `Event::into_owned`.
unfoldable pub into_owned : Event → OwnedEvent
into_owned (Event.recv from payload rssi snr) = OwnedEvent.recv from payload rssi snr
into_owned Event.ready = OwnedEvent.ready

-- The integer types of the fields, which Rust's types enforce.
abbrev pub IsU8 : ℕ → Type 0
IsU8 n = n < 2 ^ 8

abbrev pub IsU16 : ℕ → Type 0
IsU16 n = n < 2 ^ 16

abbrev pub IsU32 : ℕ → Type 0
IsU32 n = n < 2 ^ 32

pub record IsRfParams (p : RfParams) : Type 0 where
  pub sf_u8 : IsU8 p.sf
  pub bw_u8 : IsU8 p.bw
  pub cr_u8 : IsU8 p.cr
  pub preamble_u8 : IsU8 p.preamble

-- What Rust's types say of a command.
abbrev pub IsTyped : Command → Type 0
IsTyped (Command.set_address n) = IsU16 n
IsTyped (Command.set_network_id n) = IsU8 n
IsTyped (Command.set_band n) = IsU32 n
IsTyped (Command.set_parameters p) = IsRfParams p
IsTyped (Command.send to payload) = IsU16 to
IsTyped _ = Unit
