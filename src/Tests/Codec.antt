-- ===== src/Tests/Codec.antt =====
-- Tests of rylr998-core/src/encode.rs, decode.rs and types.rs: `encode`, `parse_response`,
-- `parse_event` and `RadioError`.
use rylr998_rs.Base.{
  ◌≡◌, ◌≢◌, ◌↔◌, refl, ◌++◌, arith, Bytes, codes, length, drop, replicate, ok, err, panic,
}
use rylr998_rs.Base.Int.{pos, negsuc}
use rylr998_rs.Tool.{ParamsError, parse_params}
use rylr998_rs.Types.{RfParams, Command, Response, Event, Error}
use rylr998_rs.Decimal.{decimal}
use rylr998_rs.Encode.{encode}
use rylr998_rs.Encode.Wire.{wire}
use rylr998_rs.Encode.Correct.{encode_fits, encode-ne-panic}
use rylr998_rs.Decode.{parse_response, parse_event, max_usize}
use rylr998_rs.Decode.Text.{IsResponse}
use rylr998_rs.Decode.RoundTrip.{parse_response-response_text}
use rylr998_rs.Decode.Panics.{IsHuge, parse_event-panic_iff}
use rylr998_rs.Decode.Events.{parse_event-event_text}
use rylr998_rs.Decode.Sound.{parse_event-Explains, Explains}
use rylr998_rs.Decode.Bounds.{parse_response-Ensures, Ensures}

abbrev empty_buf : Bytes
empty_buf = replicate 24 0

abbrev hello : Command
hello = Command.send 5 (codes "hello")

encode-hello : (encode hello empty_buf).0 ≡ ok 19
unfolding encode rylr998_rs.Encode.encode_body rylr998_rs.Encode.lit rylr998_rs.Encode.bytes
    rylr998_rs.Encode.u16 rylr998_rs.Encode.fill rylr998_rs.Encode.write_each
encode-hello = refl

abbrev received : Event
received = Event.recv 50 (codes "a,b,c") (negsuc 98) (pos 40)

abbrev received_line : Bytes
received_line = codes "+RCV=50,5,a,b,c,-99,40"

parse_received : parse_event received_line ≡ ok received
unfolding parse_event rylr998_rs.Decode.if_prefix rylr998_rs.Decode.parse_recv
    rylr998_rs.Decode.take_until_comma rylr998_rs.Decode.parse_bytes rylr998_rs.Decode.parse_str
    rylr998_rs.Utf8.valid_utf8 rylr998_rs.Decimal.parse_uint rylr998_rs.Decimal.parse_digits
    rylr998_rs.Decode.parse_payload rylr998_rs.Decode.signals rylr998_rs.Decimal.parse_i16
parse_received = refl

parse_bad_length : parse_event (codes "+RCV=50,9,hello,-99,40") ≡ err Error.parse
unfolding parse_event rylr998_rs.Decode.if_prefix rylr998_rs.Decode.parse_recv
    rylr998_rs.Decode.take_until_comma rylr998_rs.Decode.parse_bytes rylr998_rs.Decode.parse_str
    rylr998_rs.Utf8.valid_utf8 rylr998_rs.Decimal.parse_uint rylr998_rs.Decimal.parse_digits
    rylr998_rs.Decode.parse_payload rylr998_rs.Decode.signals
parse_bad_length = refl

parse_band : parse_response (codes "+BAND=915000000") ≡ ok (Response.band 915000000)
unfolding parse_response rylr998_rs.Decode.if_prefix rylr998_rs.Decode.parse_bytes
    rylr998_rs.Decode.parse_str rylr998_rs.Utf8.valid_utf8 rylr998_rs.Decimal.parse_uint
    rylr998_rs.Decimal.parse_digits
parse_band = refl

parse_zero_password : parse_response (codes "+CPIN=00000000") ≡ err Error.parse
unfolding parse_response rylr998_rs.Decode.if_prefix rylr998_rs.Decode.parse_cpin
parse_zero_password = refl

encode_fits_example :
    encode hello empty_buf
    ≡ (ok (length (wire hello)), wire hello ++ drop (length (wire hello)) empty_buf)
unfolding decimal
encode_fits_example = encode_fits hello empty_buf (omega arith) (omega arith)

encode-ne-panic_example : (encode (Command.set_band 4294967295) empty_buf).0 ≢ panic
encode-ne-panic_example = encode-ne-panic (Command.set_band 4294967295) empty_buf (omega arith)

parse_response-response_text_example :
    parse_response (codes "+PARAMETER=9,7,1,12")
    ≡ ok (Response.parameters (record { sf = 9; bw = 7; cr = 1; preamble = 12 }))
unfolding decimal
parse_response-response_text_example =
    parse_response-response_text
      (Response.parameters (record { sf = 9; bw = 7; cr = 1; preamble = 12 }))
      (record {
        sf_u8 = omega arith;
        bw_u8 = omega arith;
        cr_u8 = omega arith;
        preamble_u8 = omega arith;
      })

parse_event-event_text_example : parse_event received_line ≡ ok received
unfolding decimal rylr998_rs.Decimal.decimal_int
parse_event-event_text_example =
    parse_event-event_text received (omega arith, omega arith, omega arith, omega arith)

parse_event-Explains_example : Explains received_line received
parse_event-Explains_example = parse_event-Explains received_line parse_received

parse_response-Ensures_example : Ensures IsResponse (parse_response (codes "+CPIN=EEDCAA90"))
parse_response-Ensures_example = parse_response-Ensures (codes "+CPIN=EEDCAA90")

abbrev fast : RfParams
fast = record { sf = 9; bw = 7; cr = 1; preamble = 12 }

parse_params_three : parse_params (codes "9,7,1") ≡ err (ParamsError.parts 3)
unfolding parse_params
parse_params_three = refl

abbrev huge_line : Bytes
huge_line = codes "+RCV=1,18446744073709551615,hi,-1,2"

parse_event-panic_iff_example : (parse_event huge_line ≡ panic) ↔ IsHuge huge_line
parse_event-panic_iff_example = parse_event-panic_iff huge_line
