-- ===== src/Decode.antt =====
-- rylr998-core/src/decode.rs: response lines and event lines, without their `\r\n`. A `usize` has
-- 64 bits.
pub mod Text
pub mod Short
pub mod Numbers
pub mod RoundTrip
pub mod Events
mod Invert
pub mod Sound
pub mod Bounds
pub mod Panics
use rylr998_rs.Base.{
  ℕ, ◌+◌, ◌-◌, ◌^◌, Bool, true, false, ◌&&◌, ◌||◌, not, List, [], ◌∷◌, ◌++◌, Option, none, some,
  ltb, leb, ◌==◌, if◌then◌else◌, Bytes, codes, length, take, drop, get_elem?, eq_bytes,
  strip_prefix, position, Outcome, ok, err, panic, ◌>>=◌, ok_or,
}
use rylr998_rs.Base.Int.{ℤ}
use rylr998_rs.Types.{RfParams, Response, Event, Error}
use rylr998_rs.Decimal.{parse_uint, parse_i16}
use rylr998_rs.Utf8.{valid_utf8}

abbrev pub max_u8 : ℕ
max_u8 = 2 ^ 8 - 1

abbrev pub max_u16 : ℕ
max_u16 = 2 ^ 16 - 1

abbrev pub max_u32 : ℕ
max_u32 = 2 ^ 32 - 1

abbrev pub max_usize : ℕ
max_usize = 2 ^ 64 - 1

-- `parse_str`.
unfoldable pub parse_str : Bytes → Outcome Error Bytes
parse_str s = if valid_utf8 s then ok s else err Error.parse

-- `parse_bytes::<T>`, with the `FromStr` of `T`.
unfoldable pub parse_bytes : {A : Type 0} → (Bytes → Option A) → Bytes → Outcome Error A
parse_bytes from_str s = do t ← parse_str s; ok_or (from_str t) Error.parse

-- `u8::is_ascii_hexdigit`.
abbrev pub is_ascii_hexdigit : ℕ → Bool
is_ascii_hexdigit c =
    (leb b'0' c && leb c b'9') || (leb b'A' c && leb c b'F') || (leb b'a' c && leb c b'f')

-- `s.iter().all(p)`.
abbrev pub all : (ℕ → Bool) → Bytes → Bool
all p [] = true
all p (c ∷ s) = p c && all p s

abbrev pub password_length : ℕ
password_length = 8

-- `parse_cpin`.
unfoldable pub parse_cpin : Bytes → Outcome Error Bytes
parse_cpin s =
    if eq_bytes s (codes "No Password!")
    then ok []
    else if not (length s == password_length)
        || not (all is_ascii_hexdigit s)
        || all (λ b. b == b'0') s
    then err Error.parse
    else parse_str s

abbrev pub add_front : ℕ → List Bytes → List Bytes
add_front c [] = (c ∷ []) ∷ []
add_front c (p ∷ ps) = (c ∷ p) ∷ ps

-- `slice.split(|b| *b == b',')`: always one part at least.
abbrev pub split : Bytes → List Bytes
split [] = [] ∷ []
split (c ∷ s) = let parts = split s in if c == b',' then [] ∷ parts else add_front c parts

-- `parts.next().ok_or(Error::Parse)`: the part, and the iterator behind it.
abbrev pub next_part : List Bytes → Outcome Error (Bytes × List Bytes)
next_part [] = err Error.parse
next_part (p ∷ ps) = ok (p, ps)

-- `parts.next().is_some()` is refused.
abbrev pub no_more : List Bytes → RfParams → Outcome Error Response
no_more [] p = ok (Response.parameters p)
no_more (_ ∷ _) p = err Error.parse

-- The `+PARAMETER=` branch of `parse_response`.
unfoldable pub parse_parameters : Bytes → Outcome Error Response
parse_parameters s = do
  (p₁, ps₁) ← next_part (split s)
  sf ← parse_bytes (parse_uint max_u8) p₁
  (p₂, ps₂) ← next_part ps₁
  bw ← parse_bytes (parse_uint max_u8) p₂
  (p₃, ps₃) ← next_part ps₂
  cr ← parse_bytes (parse_uint max_u8) p₃
  (p₄, ps₄) ← next_part ps₃
  preamble ← parse_bytes (parse_uint max_u8) p₄
  no_more ps₄ (record { sf = sf; bw = bw; cr = cr; preamble = preamble })

-- `if let Some(bytes) = line.strip_prefix(p) { return found(bytes) }`, and what follows it.
unfoldable pub if_prefix : {A : Type 0} → Bytes → Bytes → (Bytes → A) → A → A
if_prefix line p found otherwise = elim (strip_prefix line p) [
  | some s ↦ found s
  | none ↦ otherwise
]

-- `parse_response`.
unfoldable pub parse_response : Bytes → Outcome Error Response
parse_response line =
    if eq_bytes line (codes "+OK")
    then ok Response.ok
    else if_prefix line (codes "+ERR=")
        (λ s. do n ← parse_bytes (parse_uint max_u8) s; ok (Response.err n))
        (if_prefix line (codes "+ADDRESS=")
          (λ s. do n ← parse_bytes (parse_uint max_u16) s; ok (Response.address n))
          (if_prefix line (codes "+PARAMETER=") parse_parameters (
            if_prefix line (codes "+NETWORKID=")
              (λ s. do n ← parse_bytes (parse_uint max_u8) s; ok (Response.network_id n))
              (if_prefix line (codes "+BAND=")
                (λ s. do n ← parse_bytes (parse_uint max_u32) s; ok (Response.band n))
                (if_prefix line (codes "+CRFOP=")
                  (λ s. do n ← parse_bytes (parse_uint max_u8) s; ok (Response.crfop n))
                  (if_prefix line (codes "+CPIN=")
                    (λ s. do pw ← parse_cpin s; ok (Response.cpin pw))
                    (if_prefix line (codes "+UID=") (λ s. do t ← parse_str s; ok (Response.uid t))
                      (if_prefix line (codes "+VER=")
                        (λ s. do t ← parse_str s; ok (Response.version t)) (err Error.parse)))))))))

-- `take_until_comma`: the bytes before the first comma, and those behind it.
unfoldable pub take_until_comma : Bytes → Outcome Error (Bytes × Bytes)
take_until_comma s = do
  comma ← ok_or (position s b',') Error.parse
  ok (take comma s, drop (comma + 1) s)

abbrev pub is_comma : Option ℕ → Bool
is_comma none = false
is_comma (some c) = c == b','

-- From `let data = &rest[..data_len]` on, behind the tests.
unfoldable pub signals : ℕ → ℕ → Bytes → Outcome Error Event
signals from data_len rest = do
  (rssi_bytes, snr_bytes) ← take_until_comma (drop (data_len + 1) rest)
  rssi ← parse_bytes parse_i16 rssi_bytes
  snr ← parse_bytes parse_i16 snr_bytes
  ok (Event.recv from (take data_len rest) rssi snr)

-- From `if rest.len() < data_len + 1` on. Where the addition overflows, a debug build panics there;
-- in a release build the sum is 0, the test passes and `&rest[..data_len]` panics.
unfoldable pub parse_payload : ℕ → ℕ → Bytes → Outcome Error Event
parse_payload from data_len rest =
    if ltb max_usize (data_len + 1)
    then panic
    else if ltb (length rest) (data_len + 1)
    then err Error.parse
    else if not (is_comma (get_elem? rest data_len))
    then err Error.parse
    else signals from data_len rest

-- The `+RCV=` branch of `parse_event`.
unfoldable pub parse_recv : Bytes → Outcome Error Event
parse_recv s = do
  (from_bytes, rest) ← take_until_comma s
  from ← parse_bytes (parse_uint max_u16) from_bytes
  (data_bytes, rest') ← take_until_comma rest
  data_len ← parse_bytes (parse_uint max_usize) data_bytes
  parse_payload from data_len rest'

-- `parse_event`.
unfoldable pub parse_event : Bytes → Outcome Error Event
parse_event line =
    if eq_bytes line (codes "+READY")
    then ok Event.ready
    else if_prefix line (codes "+RCV=") parse_recv (err Error.parse)
