-- ===== src/Tool.antt =====
-- rylr998-tool/src/main.rs: the parameters of the command line's `--params`.
pub mod Ascii
pub mod Shell
pub mod Commands
pub mod Main
pub mod Provision
pub mod Exchange
pub mod Dialogue
pub mod Settings
pub mod Provisioning
pub mod Listening
use rylr998_rs.Base.{ℕ, ◌≡◌, List, [], ◌∷◌, arith, Bytes, length, Outcome, ok, err, ◌>>=◌, ok_or}
use rylr998_rs.Types.{RfParams, IsRfParams}
use rylr998_rs.Decimal.{decimal, parse_uint}
use rylr998_rs.Decimal.RoundTrip.{parse_uint-decimal}
use rylr998_rs.Encode.Wire.{params_text}
use rylr998_rs.Decode.{max_u8, split}
use rylr998_rs.Decode.Numbers.{split-comma, split-last, decimal-LacksComma}

-- The two messages of `parse_params`, without their texts.
pub data ParamsError : Type 0 where
  parts : ℕ → ParamsError
  number : Bytes → ParamsError

-- The closure `n`: `s.parse::<u8>()`.
abbrev pub number_of : Bytes → Outcome ParamsError ℕ
number_of s = ok_or (parse_uint max_u8 s) (ParamsError.number s)

abbrev pub four_parts : List Bytes → Outcome ParamsError RfParams
four_parts (a ∷ b ∷ c ∷ d ∷ []) = do
  sf ← number_of a
  bw ← number_of b
  cr ← number_of c
  preamble ← number_of d
  ok (record { sf = sf; bw = bw; cr = cr; preamble = preamble })
four_parts ps = err (ParamsError.parts (length ps))

-- `parse_params`.
unfoldable pub parse_params : Bytes → Outcome ParamsError RfParams
parse_params s = four_parts (split s)

-- `parse_params` reads the parameters back from the text in which they are sent to the radio.
pub parse_params-params_text : (p : RfParams) → IsRfParams p → parse_params (params_text p) ≡ ok p
unfolding parse_params
parse_params-params_text p h = rw (
  split-comma (decimal p.sf) _ (decimal-LacksComma p.sf),
  split-comma (decimal p.bw) _ (decimal-LacksComma p.bw),
  split-comma (decimal p.cr) _ (decimal-LacksComma p.cr),
  split-last (decimal p.preamble) (decimal-LacksComma p.preamble),
  parse_uint-decimal max_u8 p.sf (omega (arith, h.sf_u8)),
  parse_uint-decimal max_u8 p.bw (omega (arith, h.bw_u8)),
  parse_uint-decimal max_u8 p.cr (omega (arith, h.cr_u8)),
  parse_uint-decimal max_u8 p.preamble (omega (arith, h.preamble_u8)),
)
