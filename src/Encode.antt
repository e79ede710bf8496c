-- ===== src/Encode.antt =====
-- rylr998-core/src/encode.rs: commands to `AT…\r\n` lines. The writer is a state: a step returns
-- its result and the writer, also when it fails. `pos + s.len()` is a sum of slice lengths, which
-- Rust keeps below 2^63, so it does not wrap.
pub mod Wire
pub mod Fits
pub mod Steps
pub mod Correct
use rylr998_rs.Base.{
  ℕ, zero, suc, ◌+◌, ◌/◌, ◌%◌, ◌^◌, Bool, List, [], ◌∷◌, ◌++◌, Option, none, some, ltb, ◌==◌,
  if◌then◌else◌, Bytes, codes, length, take, drop, rev, map_option, Outcome, ok, err, panic,
}
use rylr998_rs.Types.{RfParams, Command, Error}

-- `Writer`; `buf` keeps its length.
pub record Writer : Type 0 where
  pub buf : Bytes
  pub pos : ℕ

abbrev pub Write : Type 0
Write = Writer → Outcome Error (Unit {0}) × Writer

-- `?` between two steps.
abbrev pub and_then : Write → Outcome Error (Unit {0}) × Writer → Outcome Error (Unit {0}) × Writer
and_then k (ok _, w) = k w
and_then k (err e, w) = (err e, w)
and_then k (panic, w) = (panic, w)

infixl 5 ◌>>◌
abbrev pub ◌>>◌ : Write → Write → Write
(m >> k) w = and_then k (m w)

-- `self.buf[self.pos..self.pos + s.len()].copy_from_slice(s)` and the step of `pos` behind it. A slice
-- out of range is a panic.
abbrev pub copy_in : Bytes → Write
copy_in s w = if ltb (length w.buf) (w.pos + length s) then (panic, w) else (
  ok tt,
  record w {
    buf = take w.pos w.buf ++ (s ++ drop (w.pos + length s) w.buf);
    pos = w.pos + length s;
  },
)

-- `Writer::bytes`.
unfoldable pub bytes : Bytes → Write
bytes s w =
    if ltb (length w.buf) (w.pos + length s) then (err Error.tx_overflow, w) else copy_in s w

-- `Writer::lit`.
unfoldable pub lit : Bytes → Write
lit s = bytes s

-- The loop `while n > 0` into the array `digits` of `room` places: the digits, the last one
-- first. `none` is a write past the array's end.
unfoldable pub fill : ℕ → ℕ → Option Bytes
fill zero n = if n == 0 then some [] else none
fill (suc room) n =
    let rest = fill room (n / 10) in
    if n == 0 then some [] else map_option (λ ds. (b'0' + n % 10) ∷ ds) rest

-- The loop `for j in (0..i).rev()`.
unfoldable pub write_each : Bytes → Write
write_each [] w = (ok tt, w)
write_each (d ∷ ds) w = (bytes (d ∷ []) >> write_each ds) w

write_digits : Option Bytes → Write
write_digits none w = (panic, w)
write_digits (some ds) w = write_each (rev ds) w

-- `Writer::u16`, with an array of 5 digits.
unfoldable pub u16 : ℕ → Write
unfolding write_digits
u16 n w = if n == 0 then bytes (codes "0") w else write_digits (fill 5 n) w

-- `Writer::u32`, with an array of 10 digits.
unfoldable pub u32 : ℕ → Write
unfolding write_digits
u32 n w = if n == 0 then bytes (codes "0") w else write_digits (fill 10 n) w

-- The `match` of `encode`.
unfoldable pub encode_body : Command → Write
encode_body Command.ping = lit (codes "AT")
encode_body Command.get_address = lit (codes "AT+ADDRESS?")
encode_body (Command.set_address n) = do lit (codes "AT+ADDRESS="); u16 n
encode_body Command.get_network_id = lit (codes "AT+NETWORKID?")
encode_body (Command.set_network_id n) = do lit (codes "AT+NETWORKID="); u16 n
encode_body Command.get_band = lit (codes "AT+BAND?")
encode_body (Command.set_band hz) = do lit (codes "AT+BAND="); u32 hz
encode_body Command.get_parameters = lit (codes "AT+PARAMETER?")
encode_body (Command.set_parameters p) = do
  lit (codes "AT+PARAMETER=")
  u16 p.sf
  lit (codes ",")
  u16 p.bw
  lit (codes ",")
  u16 p.cr
  lit (codes ",")
  u16 p.preamble
encode_body Command.get_cpin = lit (codes "AT+CPIN?")
encode_body (Command.set_cpin pw) = do lit (codes "AT+CPIN="); bytes pw
encode_body Command.get_crfop = lit (codes "AT+CRFOP?")
encode_body Command.get_uid = lit (codes "AT+UID?")
encode_body Command.get_version = lit (codes "AT+VER?")
encode_body Command.factory_reset = lit (codes "AT+RESET")
encode_body (Command.send to payload) = do
  lit (codes "AT+SEND=")
  u16 to
  lit (codes ",")
  u16 (length payload % 2 ^ 16)
  lit (codes ",")
  bytes payload

-- `Ok(w.pos)`.
written : Outcome Error (Unit {0}) × Writer → Outcome Error ℕ × Bytes
written (ok _, w) = (ok w.pos, w.buf)
written (err e, w) = (err e, w.buf)
written (panic, w) = (panic, w.buf)

-- `encode`: the number of bytes written, beside the buffer.
unfoldable pub encode : Command → Bytes → Outcome Error ℕ × Bytes
unfolding written
encode cmd buf = written ((encode_body cmd >> lit (codes "\r\n")) (record { buf = buf; pos = 0 }))
