-- ===== src/Owned.antt =====
-- The types of rylr998-tokio/src/lib.rs: its error, and the commands and responses that own their
-- data and so can pass through a channel.
use rylr998_rs.Base.{ℕ, Option, none, Bytes}
use rylr998_rs.Types.{Command, Response, RfParams}
use rylr998_rs.Types.RadioError.{RadioError, from_code}

-- `Error`. An `std::io::Error` and a `tokio_serial::Error` are the numbers of their kinds.
pub data Error : Type 0 where
  core : rylr998_rs.Types.Error → Error
  io : ℕ → Error
  serial : ℕ → Error
  timeout : Error
  radio : ℕ → Error
  closed : Error

-- `Error::radio_error`.
unfoldable pub radio_error : Error → Option RadioError
radio_error (Error.radio code) = from_code code
radio_error _ = none

-- `OwnedResponse`.
pub data OwnedResponse : Type 0 where
  ok : OwnedResponse
  err : ℕ → OwnedResponse
  address : ℕ → OwnedResponse
  network_id : ℕ → OwnedResponse
  band : ℕ → OwnedResponse
  parameters : RfParams → OwnedResponse
  crfop : ℕ → OwnedResponse
  uid : Bytes → OwnedResponse
  version : Bytes → OwnedResponse
  cpin : Bytes → OwnedResponse

-- `OwnedResponse::from`.
unfoldable pub from_response : Response → OwnedResponse
from_response Response.ok = OwnedResponse.ok
from_response (Response.err n) = OwnedResponse.err n
from_response (Response.address n) = OwnedResponse.address n
from_response (Response.network_id n) = OwnedResponse.network_id n
from_response (Response.band n) = OwnedResponse.band n
from_response (Response.parameters p) = OwnedResponse.parameters p
from_response (Response.crfop n) = OwnedResponse.crfop n
from_response (Response.uid s) = OwnedResponse.uid s
from_response (Response.version s) = OwnedResponse.version s
from_response (Response.cpin s) = OwnedResponse.cpin s

-- `OwnedCommand`.
pub data OwnedCommand : Type 0 where
  ping get_address : OwnedCommand
  set_address : ℕ → OwnedCommand
  get_network_id : OwnedCommand
  set_network_id : ℕ → OwnedCommand
  get_band : OwnedCommand
  set_band : ℕ → OwnedCommand
  get_cpin : OwnedCommand
  set_cpin : Bytes → OwnedCommand
  get_parameters : OwnedCommand
  set_parameters : RfParams → OwnedCommand
  get_crfop get_uid get_version factory_reset : OwnedCommand
  send : ℕ → Bytes → OwnedCommand

-- `OwnedCommand::as_command`.
unfoldable pub as_command : OwnedCommand → Command
as_command OwnedCommand.ping = Command.ping
as_command OwnedCommand.get_address = Command.get_address
as_command (OwnedCommand.set_address n) = Command.set_address n
as_command OwnedCommand.get_network_id = Command.get_network_id
as_command (OwnedCommand.set_network_id n) = Command.set_network_id n
as_command OwnedCommand.get_band = Command.get_band
as_command (OwnedCommand.set_band n) = Command.set_band n
as_command OwnedCommand.get_cpin = Command.get_cpin
as_command (OwnedCommand.set_cpin password) = Command.set_cpin password
as_command OwnedCommand.get_parameters = Command.get_parameters
as_command (OwnedCommand.set_parameters p) = Command.set_parameters p
as_command OwnedCommand.get_crfop = Command.get_crfop
as_command OwnedCommand.get_uid = Command.get_uid
as_command OwnedCommand.get_version = Command.get_version
as_command OwnedCommand.factory_reset = Command.factory_reset
as_command (OwnedCommand.send to payload) = Command.send to payload
