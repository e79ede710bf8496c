-- ===== src/Tokio/Methods.antt =====
-- The methods of `AsyncRadio` in rylr998-tokio/src/lib.rs. What `request` returns is up to the channels
-- and the timer of Tokio: it is an argument.
use rylr998_rs.Base.{ℕ, Bytes, Outcome, ok, err, ◌>>=◌}
use rylr998_rs.Types.{Response, RfParams}
use rylr998_rs.Owned.{Error, OwnedResponse, OwnedCommand}

-- `DEFAULT_TIMEOUT`, in milliseconds.
abbrev pub default_timeout : ℕ
default_timeout = 1000

-- `FACTORY_RESET_TIMEOUT`, in milliseconds.
abbrev pub factory_reset_timeout : ℕ
factory_reset_timeout = 2000

-- `AsyncRadio::request`.
abbrev pub Request : Type 0
Request = OwnedCommand → ℕ → Outcome Error OwnedResponse

-- `_ => Err(Error::Core(rylr998_core::Error::Parse))`.
abbrev pub unexpected : {A : Type 0} → Outcome Error A
unexpected = err (Error.core rylr998_rs.Types.Error.parse)

-- The `match` of the methods that wait for `+OK`.
unfoldable pub expect_ok : OwnedResponse → Outcome Error (Unit {0})
expect_ok OwnedResponse.ok = ok tt
expect_ok (OwnedResponse.err n) = err (Error.radio n)
expect_ok _ = unexpected

-- The `match` of `address`.
unfoldable pub expect_address : OwnedResponse → Outcome Error ℕ
expect_address (OwnedResponse.address n) = ok n
expect_address (OwnedResponse.err n) = err (Error.radio n)
expect_address _ = unexpected

-- The `match` of `network_id`.
unfoldable pub expect_network_id : OwnedResponse → Outcome Error ℕ
expect_network_id (OwnedResponse.network_id n) = ok n
expect_network_id (OwnedResponse.err n) = err (Error.radio n)
expect_network_id _ = unexpected

-- The `match` of `band`.
unfoldable pub expect_band : OwnedResponse → Outcome Error ℕ
expect_band (OwnedResponse.band n) = ok n
expect_band (OwnedResponse.err n) = err (Error.radio n)
expect_band _ = unexpected

-- The `match` of `cpin`.
unfoldable pub expect_cpin : OwnedResponse → Outcome Error Bytes
expect_cpin (OwnedResponse.cpin n) = ok n
expect_cpin (OwnedResponse.err n) = err (Error.radio n)
expect_cpin _ = unexpected

-- The `match` of `parameters`.
unfoldable pub expect_parameters : OwnedResponse → Outcome Error RfParams
expect_parameters (OwnedResponse.parameters n) = ok n
expect_parameters (OwnedResponse.err n) = err (Error.radio n)
expect_parameters _ = unexpected

-- The `match` of `crfop`.
unfoldable pub expect_crfop : OwnedResponse → Outcome Error ℕ
expect_crfop (OwnedResponse.crfop n) = ok n
expect_crfop (OwnedResponse.err n) = err (Error.radio n)
expect_crfop _ = unexpected

-- The `match` of `uid`.
unfoldable pub expect_uid : OwnedResponse → Outcome Error Bytes
expect_uid (OwnedResponse.uid n) = ok n
expect_uid (OwnedResponse.err n) = err (Error.radio n)
expect_uid _ = unexpected

-- The `match` of `version`.
unfoldable pub expect_version : OwnedResponse → Outcome Error Bytes
expect_version (OwnedResponse.version n) = ok n
expect_version (OwnedResponse.err n) = err (Error.radio n)
expect_version _ = unexpected

-- `ping`.
unfoldable pub ping : Request → Outcome Error (Unit {0})
ping request = request OwnedCommand.ping default_timeout >>= expect_ok

-- `set_address`.
unfoldable pub set_address : Request → ℕ → Outcome Error (Unit {0})
set_address request n = request (OwnedCommand.set_address n) default_timeout >>= expect_ok

-- `set_network_id`.
unfoldable pub set_network_id : Request → ℕ → Outcome Error (Unit {0})
set_network_id request n = request (OwnedCommand.set_network_id n) default_timeout >>= expect_ok

-- `set_band`.
unfoldable pub set_band : Request → ℕ → Outcome Error (Unit {0})
set_band request hz = request (OwnedCommand.set_band hz) default_timeout >>= expect_ok

-- `set_cpin`.
unfoldable pub set_cpin : Request → Bytes → Outcome Error (Unit {0})
set_cpin request password = request (OwnedCommand.set_cpin password) default_timeout >>= expect_ok

-- `set_parameters`.
unfoldable pub set_parameters : Request → RfParams → Outcome Error (Unit {0})
set_parameters request p = request (OwnedCommand.set_parameters p) default_timeout >>= expect_ok

-- `factory_reset`.
unfoldable pub factory_reset : Request → Outcome Error (Unit {0})
factory_reset request = request OwnedCommand.factory_reset factory_reset_timeout >>= expect_ok

-- `send`.
unfoldable pub send : Request → ℕ → Bytes → Outcome Error (Unit {0})
send request to payload = request (OwnedCommand.send to payload) default_timeout >>= expect_ok

-- `address`.
unfoldable pub address : Request → Outcome Error ℕ
address request = request OwnedCommand.get_address default_timeout >>= expect_address

-- `network_id`.
unfoldable pub network_id : Request → Outcome Error ℕ
network_id request = request OwnedCommand.get_network_id default_timeout >>= expect_network_id

-- `band`.
unfoldable pub band : Request → Outcome Error ℕ
band request = request OwnedCommand.get_band default_timeout >>= expect_band

-- `cpin`.
unfoldable pub cpin : Request → Outcome Error Bytes
cpin request = request OwnedCommand.get_cpin default_timeout >>= expect_cpin

-- `parameters`.
unfoldable pub parameters : Request → Outcome Error RfParams
parameters request = request OwnedCommand.get_parameters default_timeout >>= expect_parameters

-- `crfop`.
unfoldable pub crfop : Request → Outcome Error ℕ
crfop request = request OwnedCommand.get_crfop default_timeout >>= expect_crfop

-- `uid`.
unfoldable pub uid : Request → Outcome Error Bytes
uid request = request OwnedCommand.get_uid default_timeout >>= expect_uid

-- `version`.
unfoldable pub version : Request → Outcome Error Bytes
version request = request OwnedCommand.get_version default_timeout >>= expect_version
