-- ===== src/Encode/Fits.antt =====
-- rylr998-core/src/encode.rs: which lines fit the driver's transmit queue.
use rylr998_rs.Base.{ℕ, ◌%◌, ◌^◌, ◌+◌, ◌≤◌, ◌<◌, ◌++◌, arith, Bytes, length, length-append}
use rylr998_rs.Types.{Command, RfParams, IsTyped, IsRfParams}
use rylr998_rs.Decimal.{decimal}
use rylr998_rs.Decimal.Bounds.{length-decimal}
use rylr998_rs.Encode.Wire.{crlf, comma, params_text, send_text, command_text, wire}

-- A password of up to 502 bytes, and a payload of up to 484; no other command is too long.
abbrev pub IsBrief : Command → Type 0
IsBrief (Command.set_cpin pw) = length pw ≤ 502
IsBrief (Command.send to payload) = length payload ≤ 484
IsBrief _ = Unit

pub length-params_text : (p : RfParams) → IsRfParams p → length (params_text p) ≤ 15
length-params_text p h = omega (
  arith,
  length-append (decimal p.sf)
      (comma ++ (decimal p.bw ++ (comma ++ (decimal p.cr ++ (comma ++ decimal p.preamble))))),
  length-append (decimal p.bw) (comma ++ (decimal p.cr ++ (comma ++ decimal p.preamble))),
  length-append (decimal p.cr) (comma ++ decimal p.preamble),
  length-decimal 2 p.sf (omega (arith, h.sf_u8)),
  length-decimal 2 p.bw (omega (arith, h.bw_u8)),
  length-decimal 2 p.cr (omega (arith, h.cr_u8)),
  length-decimal 2 p.preamble (omega (arith, h.preamble_u8)),
)

length-send_text :
    (to len : ℕ) (payload : Bytes)
    → to < 2 ^ 16
    → len < 2 ^ 16
    → length (send_text to len payload) ≤ 20 + length payload
length-send_text to len payload h k = omega (
  arith,
  length-append (decimal to) (comma ++ (decimal len ++ (comma ++ payload))),
  length-append (decimal len) (comma ++ payload),
  length-decimal 4 to (omega arith),
  length-decimal 4 len (omega arith),
)

command_text_fits : (cmd : Command) → IsTyped cmd → IsBrief cmd → length (command_text cmd) ≤ 510
command_text_fits (Command.set_address n) h b = omega (arith, length-decimal 4 n (omega arith))
command_text_fits (Command.set_network_id n) h b = omega (arith, length-decimal 2 n (omega arith))
command_text_fits (Command.set_band n) h b = omega (arith, length-decimal 9 n (omega arith))
command_text_fits (Command.set_cpin pw) h b = omega arith
command_text_fits (Command.set_parameters p) h b = omega (arith, length-params_text p h)
command_text_fits (Command.send to payload) h b =
    omega (arith, length-send_text to (length payload % 2 ^ 16) payload h (omega arith))
command_text_fits _ h b = omega arith

-- The line of every brief command fits the transmit queue.
pub wire_fits : (cmd : Command) → IsTyped cmd → IsBrief cmd → length (wire cmd) ≤ 512
wire_fits cmd h b = omega (arith, length-append (command_text cmd) crlf, command_text_fits cmd h b)
