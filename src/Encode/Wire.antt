-- ===== src/Encode/Wire.antt =====
-- The specification of rylr998-core/src/encode.rs: the text of each command, by the reference
-- printer for numbers and with no buffer.
use rylr998_rs.Base.{ℕ, ◌%◌, ◌^◌, ◌++◌, Bytes, codes, length}
use rylr998_rs.Types.{RfParams, Command}
use rylr998_rs.Decimal.{decimal}

abbrev pub crlf : Bytes
crlf = codes "\r\n"

abbrev pub comma : Bytes
comma = codes ","

-- The declared length is the payload's length as a `u16`.
abbrev pub send_text : ℕ → ℕ → Bytes → Bytes
send_text to len payload =
    codes "AT+SEND=" ++ (decimal to ++ (comma ++ (decimal len ++ (comma ++ payload))))

abbrev pub params_text : RfParams → Bytes
params_text p =
    decimal p.sf
    ++ (comma ++ (decimal p.bw ++ (comma ++ (decimal p.cr ++ (comma ++ decimal p.preamble)))))

abbrev pub command_text : Command → Bytes
command_text Command.ping = codes "AT"
command_text Command.get_address = codes "AT+ADDRESS?"
command_text (Command.set_address n) = codes "AT+ADDRESS=" ++ decimal n
command_text Command.get_network_id = codes "AT+NETWORKID?"
command_text (Command.set_network_id n) = codes "AT+NETWORKID=" ++ decimal n
command_text Command.get_band = codes "AT+BAND?"
command_text (Command.set_band hz) = codes "AT+BAND=" ++ decimal hz
command_text Command.get_cpin = codes "AT+CPIN?"
command_text (Command.set_cpin pw) = codes "AT+CPIN=" ++ pw
command_text Command.get_parameters = codes "AT+PARAMETER?"
command_text (Command.set_parameters p) = codes "AT+PARAMETER=" ++ params_text p
command_text Command.get_crfop = codes "AT+CRFOP?"
command_text Command.get_uid = codes "AT+UID?"
command_text Command.get_version = codes "AT+VER?"
command_text Command.factory_reset = codes "AT+RESET"
command_text (Command.send to payload) = send_text to (length payload % 2 ^ 16) payload

-- The whole line.
abbrev pub wire : Command → Bytes
wire cmd = command_text cmd ++ crlf
