-- ===== src/Decode/Text.antt =====
-- The specification of rylr998-core/src/decode.rs: the lines that a radio sends for each response
-- and each event, and the values that such a line can carry.
use rylr998_rs.Base.{
  ℕ, ◌^◌, ◌-◌, ◌<◌, ◌≡◌, ◌⊎◌, true, false, [], ◌∷◌, ◌++◌, Bytes, codes, length, ◌==◌,
}
use rylr998_rs.Base.Int.{ℤ, IsI16}
use rylr998_rs.Types.{Response, Event, IsU8, IsU16, IsU32, IsRfParams}
use rylr998_rs.Decimal.{decimal, decimal_int}
use rylr998_rs.Utf8.{valid_utf8}
use rylr998_rs.Encode.Wire.{params_text, comma}
use rylr998_rs.Decode.{is_ascii_hexdigit, all}

-- Eight hexadecimal digits that are not all zero.
pub record IsPassword (pw : Bytes) : Type 0 where
  pub eight : length pw ≡ 8
  pub hex : all is_ascii_hexdigit pw ≡ true
  pub nonzero : all (λ b. b == b'0') pw ≡ false

-- The password text of a `+CPIN=` line; the empty one stands for none.
abbrev pub cpin_text : Bytes → Bytes
cpin_text [] = codes "No Password!"
cpin_text (c ∷ pw) = c ∷ pw

abbrev pub response_text : Response → Bytes
response_text Response.ok = codes "+OK"
response_text (Response.err n) = codes "+ERR=" ++ decimal n
response_text (Response.address n) = codes "+ADDRESS=" ++ decimal n
response_text (Response.network_id n) = codes "+NETWORKID=" ++ decimal n
response_text (Response.band n) = codes "+BAND=" ++ decimal n
response_text (Response.parameters p) = codes "+PARAMETER=" ++ params_text p
response_text (Response.crfop n) = codes "+CRFOP=" ++ decimal n
response_text (Response.uid s) = codes "+UID=" ++ s
response_text (Response.version s) = codes "+VER=" ++ s
response_text (Response.cpin pw) = codes "+CPIN=" ++ cpin_text pw

-- What Rust's types, and the radio's manual for a password, say of a response.
abbrev pub IsResponse : Response → Type 0
IsResponse Response.ok = Unit
IsResponse (Response.err n) = IsU8 n
IsResponse (Response.address n) = IsU16 n
IsResponse (Response.network_id n) = IsU8 n
IsResponse (Response.band n) = IsU32 n
IsResponse (Response.parameters p) = IsRfParams p
IsResponse (Response.crfop n) = IsU8 n
IsResponse (Response.uid s) = valid_utf8 s ≡ true
IsResponse (Response.version s) = valid_utf8 s ≡ true
IsResponse (Response.cpin pw) = (pw ≡ []) ⊎ IsPassword pw

abbrev pub recv_text : ℕ → Bytes → ℤ → ℤ → Bytes
recv_text from payload rssi snr =
    decimal from
    ++ (comma
        ++ (decimal (length payload)
            ++ (comma ++ (payload ++ (comma ++ (decimal_int rssi ++ (comma ++ decimal_int snr)))))))

abbrev pub event_text : Event → Bytes
event_text (Event.recv from payload rssi snr) = codes "+RCV=" ++ recv_text from payload rssi snr
event_text Event.ready = codes "+READY"

abbrev pub IsEvent : Event → Type 0
IsEvent (Event.recv from payload rssi snr) =
    IsU16 from × (length payload < 2 ^ 64 - 1) × IsI16 rssi × IsI16 snr
IsEvent Event.ready = Unit
