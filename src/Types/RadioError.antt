-- ===== src/Types/RadioError.antt =====
-- `RadioError` of rylr998-core/src/types.rs: the known `+ERR=<code>` values.
use rylr998_rs.Base.{
  ℕ, ◌≡◌, refl, sym, ap, ◌∙◌, ◌↔◌, Option, none, some, arith, ◌==◌, if◌then◌else◌, Bytes, codes,
}

pub data RadioError : Type 0 where
  missing_line_terminator invalid_at_prefix unknown_command data_length_mismatch : RadioError
  tx_timeout crc tx_data_too_long flash_write_failed unknown_failure : RadioError
  last_tx_not_completed invalid_preamble rx_header : RadioError
  invalid_smart_receiving_power_saving_time : RadioError

-- `RadioError::from_code`.
pub from_code : ℕ → Option RadioError
from_code c =
    if c == 1
    then some missing_line_terminator
    else if c == 2
    then some invalid_at_prefix
    else if c == 4
    then some unknown_command
    else if c == 5
    then some data_length_mismatch
    else if c == 10
    then some tx_timeout
    else if c == 12
    then some crc
    else if c == 13
    then some tx_data_too_long
    else if c == 14
    then some flash_write_failed
    else if c == 15
    then some unknown_failure
    else if c == 17
    then some last_tx_not_completed
    else if c == 18
    then some invalid_preamble
    else if c == 19
    then some rx_header
    else if c == 20
    then some invalid_smart_receiving_power_saving_time
    else none

-- `RadioError::code`.
pub error_code : RadioError → ℕ
error_code missing_line_terminator = 1
error_code invalid_at_prefix = 2
error_code unknown_command = 4
error_code data_length_mismatch = 5
error_code tx_timeout = 10
error_code crc = 12
error_code tx_data_too_long = 13
error_code flash_write_failed = 14
error_code unknown_failure = 15
error_code last_tx_not_completed = 17
error_code invalid_preamble = 18
error_code rx_header = 19
error_code invalid_smart_receiving_power_saving_time = 20

-- `RadioError::description`.
pub description : RadioError → Bytes
description missing_line_terminator = codes "missing line terminator"
description invalid_at_prefix = codes "command does not start with AT"
description unknown_command = codes "unknown command"
description data_length_mismatch = codes "data length mismatch"
description tx_timeout = codes "TX timed out"
description crc = codes "CRC error"
description tx_data_too_long = codes "TX data exceeds 240 bytes"
description flash_write_failed = codes "failed to write flash memory"
description unknown_failure = codes "unknown failure"
description last_tx_not_completed = codes "last TX was not completed"
description invalid_preamble = codes "preamble value is not allowed"
description rx_header = codes "RX failed, header error"
description invalid_smart_receiving_power_saving_time =
    codes "smart receiving power-saving time setting is invalid"

from_code-error_code : (e : RadioError) → from_code (error_code e) ≡ some e
unfolding from_code error_code
from_code-error_code missing_line_terminator = refl
from_code-error_code _ = refl

error_code_of_from_code : (c : ℕ) {e : RadioError} → from_code c ≡ some e → error_code e ≡ c
unfolding from_code error_code
error_code_of_from_code c h = ground arith

-- A code maps to a manual entry exactly when it is that entry's code: `from_code` and `code` are
-- inverse to one another, and every other code is unknown.
pub from_code_iff : (c : ℕ) (e : RadioError) → (from_code c ≡ some e) ↔ (error_code e ≡ c)
from_code_iff c e = (error_code_of_from_code c, λ h. ap from_code (sym h) ∙ from_code-error_code e)
