-- ===== src/Decode/RoundTrip.antt =====
-- `parse_response` on the lines that a radio sends.
use rylr998_rs.Base.{
  ℕ, ◌≤◌, ◌≡◌, ◌⊎◌, inl, inr, refl, ap, true, false, [], ◌∷◌, arith, Bytes, codes, length, All,
  Bool-cases, eq_bytes, eq_bytes_iff, Outcome, ok, ◌>>=◌,
}
use rylr998_rs.Types.{RfParams, Response, Error, IsRfParams}
use rylr998_rs.Decimal.{decimal, parse_uint}
use rylr998_rs.Utf8.{valid_utf8, IsAscii, valid_utf8-ascii}
use rylr998_rs.Decode.{
  max_u8, max_u16, max_u32, parse_str, parse_bytes, is_ascii_hexdigit, all, parse_cpin,
  parse_parameters, if_prefix, parse_response,
}
use rylr998_rs.Encode.Wire.{params_text}
use rylr998_rs.Decode.Text.{IsPassword, cpin_text, response_text, IsResponse}
use rylr998_rs.Decode.Numbers.{
  parse_str-valid, parse_bytes-decimal, decimal-LacksComma, split-comma, split-last,
}

-- A field of a number, behind its prefix.
field-decimal :
    (max n : ℕ) (answer : ℕ → Response)
    → n ≤ max
    → ◌≡◌ {A = Outcome Error Response}
        (parse_bytes (parse_uint max) (decimal n) >>= λ m. ok (answer m))
        (ok (answer n))
field-decimal max n answer h = rw (parse_bytes-decimal max n h)

field-text :
    (s : Bytes) (answer : Bytes → Response)
    → valid_utf8 s ≡ true
    → ◌≡◌ {A = Outcome Error Response} (parse_str s >>= λ t. ok (answer t)) (ok (answer s))
field-text s answer h = rw (parse_str-valid s h)

pub parse_parameters-params_text :
    (p : RfParams) → IsRfParams p → parse_parameters (params_text p) ≡ ok (Response.parameters p)
unfolding parse_parameters
parse_parameters-params_text p h = rw (
  split-comma (decimal p.sf) _ (decimal-LacksComma p.sf),
  split-comma (decimal p.bw) _ (decimal-LacksComma p.bw),
  split-comma (decimal p.cr) _ (decimal-LacksComma p.cr),
  split-last (decimal p.preamble) (decimal-LacksComma p.preamble),
  parse_bytes-decimal max_u8 p.sf (omega arith),
  parse_bytes-decimal max_u8 p.bw (omega arith),
  parse_bytes-decimal max_u8 p.cr (omega arith),
  parse_bytes-decimal max_u8 p.preamble (omega arith),
)

hex-IsAscii : (s : Bytes) → all is_ascii_hexdigit s ≡ true → All IsAscii s
hex-IsAscii [] h = tt
hex-IsAscii (c ∷ s) h = (ground arith, hex-IsAscii s (ground arith))

not_no_password : (pw : Bytes) → length pw ≡ 8 → eq_bytes pw (codes "No Password!") ≡ false
not_no_password pw h = elim (Bool-cases (eq_bytes pw (codes "No Password!"))) [
  | inl e ↦ absurd (omega (arith, ap length ((eq_bytes_iff pw (codes "No Password!")).0 e)))
  | inr e ↦ e
]

parse_cpin-IsPassword : (pw : Bytes) → IsPassword pw → parse_cpin pw ≡ ok pw
unfolding parse_cpin parse_str
parse_cpin-IsPassword pw h = rw (
  not_no_password pw h.eight,
  h.eight,
  h.hex,
  h.nonzero,
  valid_utf8-ascii pw (hex-IsAscii pw h.hex),
)

parse_cpin-cpin_text : (pw : Bytes) → (pw ≡ []) ⊎ IsPassword pw → parse_cpin (cpin_text pw) ≡ ok pw
parse_cpin-cpin_text [] h = unfold parse_cpin in refl
parse_cpin-cpin_text (c ∷ pw) (inl e) = cc
parse_cpin-cpin_text (c ∷ pw) (inr h) = parse_cpin-IsPassword (c ∷ pw) h

-- Every response is read back from the line that a radio sends for it, the fields of each in the
-- range of their types.
pub parse_response-response_text :
    (r : Response) → IsResponse r → parse_response (response_text r) ≡ ok r
unfolding parse_response if_prefix
parse_response-response_text Response.ok h = refl
parse_response-response_text (Response.err n) h = field-decimal max_u8 n Response.err (omega arith)
parse_response-response_text (Response.address n) h =
    field-decimal max_u16 n Response.address (omega arith)
parse_response-response_text (Response.network_id n) h =
    field-decimal max_u8 n Response.network_id (omega arith)
parse_response-response_text (Response.band n) h =
    field-decimal max_u32 n Response.band (omega arith)
parse_response-response_text (Response.parameters p) h = parse_parameters-params_text p h
parse_response-response_text (Response.crfop n) h =
    field-decimal max_u8 n Response.crfop (omega arith)
parse_response-response_text (Response.uid s) h = field-text s Response.uid h
parse_response-response_text (Response.version s) h = field-text s Response.version h
parse_response-response_text (Response.cpin pw) h = rw (parse_cpin-cpin_text pw h)
