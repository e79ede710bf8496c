-- ===== src/Encode/Correct.antt =====
-- `encode` against the text that rylr998-core/src/encode.rs means to write.
use rylr998_rs.Base.{
  ℕ, ◌%◌, ◌^◌, ◌≤◌, ◌<◌, ◌≡◌, ◌≢◌, sym, ap, ◌∙◌, [], ◌++◌, arith, ltb, ltb→lt, ltb→le, Bool-cases,
  inl, inr, Bytes, codes, length, drop, length-append, Outcome, ok, err, panic,
}
use rylr998_rs.Types.{Command, Error, IsU16, IsTyped}
use rylr998_rs.Decimal.{decimal}
use rylr998_rs.Encode.{Writer, ◌>>◌, lit, u16, encode_body, written, encode}
use rylr998_rs.Encode.Wire.{crlf, send_text, command_text, wire}
use rylr998_rs.Encode.Steps.{Writes, bytes-Writes, lit-Writes, then-Writes, u16-Writes, u32-Writes}

u8-Writes : (n : ℕ) → n < 2 ^ 8 → Writes (u16 n) (decimal n)
u8-Writes n h = u16-Writes n (omega arith)

written_overflow :
    (o : Outcome Error (Unit {0}) × Writer)
    → o.0 ≡ err Error.tx_overflow
    → (written o).0 ≡ err Error.tx_overflow
unfolding written
written_overflow (ok _, w) h = cc
written_overflow (err e, w) h = cc
written_overflow (panic, w) h = cc

encode_body-Writes : (cmd : Command) → IsTyped cmd → Writes (encode_body cmd) (command_text cmd)
unfolding encode_body
encode_body-Writes (Command.set_address n) h = then-Writes (lit-Writes _) (u16-Writes n h)
encode_body-Writes (Command.set_network_id n) h = then-Writes (lit-Writes _) (u8-Writes n h)
encode_body-Writes (Command.set_band n) h = then-Writes (lit-Writes _) (u32-Writes n h)
encode_body-Writes (Command.set_parameters p) h = then-Writes (lit-Writes _) (
    then-Writes (u8-Writes p.sf h.sf_u8) (
      then-Writes (lit-Writes _) (
        then-Writes (u8-Writes p.bw h.bw_u8) (
          then-Writes (lit-Writes _) (
            then-Writes (u8-Writes p.cr h.cr_u8)
              (then-Writes (lit-Writes _) (u8-Writes p.preamble h.preamble_u8)))))))
encode_body-Writes (Command.set_cpin pw) h = then-Writes (lit-Writes _) (bytes-Writes pw)
encode_body-Writes (Command.send to payload) h = then-Writes (lit-Writes _) (
    then-Writes (u16-Writes to h) (
      then-Writes (lit-Writes _) (
        then-Writes (u16-Writes (length payload % 2 ^ 16) (omega arith))
          (then-Writes (lit-Writes _) (bytes-Writes payload)))))
encode_body-Writes _ h = lit-Writes _

line-Writes : (cmd : Command) → IsTyped cmd → Writes (encode_body cmd >> lit crlf) (wire cmd)
line-Writes cmd h = then-Writes (encode_body-Writes cmd h) (lit-Writes crlf)

-- A command whose line fits the buffer is encoded to exactly that line: `encode` returns its
-- length, writes it at the start of the buffer and leaves the rest of the buffer alone.
pub encode_fits :
    (cmd : Command) (buf : Bytes)
    → IsTyped cmd
    → length (wire cmd) ≤ length buf
    → encode cmd buf ≡ (ok (length (wire cmd)), wire cmd ++ drop (length (wire cmd)) buf)
unfolding encode
encode_fits cmd buf h fit = ap written ((line-Writes cmd h).fits [] buf fit)

-- A command whose line does not fit the buffer is refused with `TxOverflow`.
pub encode_overflows :
    (cmd : Command) (buf : Bytes)
    → IsTyped cmd
    → length buf < length (wire cmd)
    → (encode cmd buf).0 ≡ err Error.tx_overflow
unfolding encode
encode_overflows cmd buf h over = written_overflow _ ((line-Writes cmd h).overflows [] buf over)

ok_injective : {n m : ℕ} → ◌≡◌ {A = Outcome Error ℕ} (ok n) (ok m) → n ≡ m
ok_injective h = cc

panic_ne_err : {e : Error} → ◌≡◌ {A = Outcome Error ℕ} panic (err e) → ⊥
panic_ne_err h = cc

panic_ne_ok : {n : ℕ} → ◌≡◌ {A = Outcome Error ℕ} panic (ok n) → ⊥
panic_ne_ok h = cc

ok_ne_err : {n : ℕ} {e : Error} → ◌≡◌ {A = Outcome Error ℕ} (ok n) (err e) → ⊥
ok_ne_err h = cc

payload-le-wire :
    (to : ℕ) (payload : Bytes) → length payload ≤ length (wire (Command.send to payload))
payload-le-wire to payload = omega (
  arith,
  length-append (command_text (Command.send to payload)) crlf,
  length-append (decimal to)
      (codes "," ++ (decimal (length payload % 2 ^ 16) ++ (codes "," ++ payload))),
  length-append (decimal (length payload % 2 ^ 16)) (codes "," ++ payload),
)

send_declared :
    (to : ℕ) (payload buf : Bytes) {n : ℕ}
    → IsU16 to
    → length buf < 2 ^ 16
    → length (wire (Command.send to payload)) ≤ length buf
    → (encode (Command.send to payload) buf).0 ≡ ok n
    → (encode (Command.send to payload) buf).1
      ≡ (send_text to (length payload) payload ++ crlf) ++ drop n buf
send_declared to payload buf {n} h small fit e =
    let cmd = Command.send to payload in
    let len : length payload % 2 ^ 16 ≡ length payload =
      omega (arith, payload-le-wire to payload) in
    let enc = encode_fits cmd buf h fit in
    let count : length (wire cmd) ≡ n = ok_injective (sym (ap (λ r. r.0) enc) ∙ e) in
    ap (λ r. r.1) enc ∙ λ i. (send_text to (len i) payload ++ crlf) ++ drop (count i) buf

-- The declared length of a `Send` is the payload's true length wherever the line fits a buffer of
-- less than 2^16 bytes, so the receiver can tell where the payload ends.
pub send_declares_length :
    (to : ℕ) (payload buf : Bytes) {n : ℕ}
    → IsU16 to
    → length buf < 2 ^ 16
    → (encode (Command.send to payload) buf).0 ≡ ok n
    → (encode (Command.send to payload) buf).1
      ≡ (send_text to (length payload) payload ++ crlf) ++ drop n buf
send_declares_length to payload buf {n} h small e =
    let cmd = Command.send to payload in
    elim (Bool-cases (ltb (length buf) (length (wire cmd)))) [
      | inl over ↦ absurd (ok_ne_err (sym e ∙ encode_overflows cmd buf h (ltb→lt _ _ over)))
      | inr fit ↦ send_declared to payload buf h small (ltb→le _ _ fit) e
    ]

-- `encode` of a well-typed command never panics: no digit is written past the arrays of five and
-- ten places, and no slice of the buffer that bytes are copied to is out of range.
pub encode-ne-panic : (cmd : Command) (buf : Bytes) → IsTyped cmd → (encode cmd buf).0 ≢ panic
encode-ne-panic cmd buf h e = elim (Bool-cases (ltb (length buf) (length (wire cmd)))) [
  | inl over ↦ absurd (panic_ne_err (sym e ∙ encode_overflows cmd buf h (ltb→lt _ _ over)))
  | inr fit ↦ absurd (panic_ne_ok (sym e ∙ ap (λ r. r.0) (encode_fits cmd buf h (ltb→le _ _ fit))))
]
