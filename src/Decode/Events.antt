-- ===== src/Decode/Events.antt =====
-- `parse_event` on the lines that a radio sends.
use rylr998_rs.Base.{
  ℕ, ◌+◌, ◌-◌, ◌^◌, ◌<◌, ◌≡◌, refl, [], ◌∷◌, ◌++◌, some, arith, le→ltb, Bytes, codes, length,
  get_elem?, length-append, take-append, ok, panic,
}
use rylr998_rs.Base.Int.{ℤ, IsI16}
use rylr998_rs.Types.{Event, IsU16}
use rylr998_rs.Decimal.{decimal, decimal_int}
use rylr998_rs.Decode.{
  max_u16, max_usize, signals, parse_payload, parse_recv, if_prefix, parse_event,
}
use rylr998_rs.Decode.Text.{event_text, IsEvent}
use rylr998_rs.Decode.Numbers.{
  parse_bytes-decimal, parse_bytes-decimal_int, decimal-LacksComma, decimal_int-LacksComma,
  take_until_comma_lem, drop_behind,
}

get_elem?-append : (p : Bytes) (c : ℕ) (s : Bytes) → get_elem? (p ++ c ∷ s) (length p) ≡ some c
get_elem?-append [] c s = refl
get_elem?-append (x ∷ p) c s = get_elem?-append p c s

parse_payload_lem :
    (from : ℕ) (payload : Bytes) (rssi snr : ℤ)
    → length payload < 2 ^ 64 - 1
    → IsI16 rssi
    → IsI16 snr
    → parse_payload from
        (length payload)
        (payload ++ (b',' ∷ (decimal_int rssi ++ (b',' ∷ decimal_int snr))))
      ≡ ok (Event.recv from payload rssi snr)
unfolding parse_payload signals
parse_payload_lem from payload rssi snr h hr hs =
    let tail = decimal_int rssi ++ (b',' ∷ decimal_int snr) in
    rw (
      le→ltb max_usize (length payload + 1) (omega arith),
      le→ltb (length (payload ++ b',' ∷ tail)) (length payload + 1)
          (omega (arith, length-append payload (b',' ∷ tail))),
      get_elem?-append payload b',' tail,
      drop_behind payload b',' tail,
      take_until_comma_lem (decimal_int rssi) (decimal_int snr) (decimal_int-LacksComma rssi),
      parse_bytes-decimal_int rssi hr,
      parse_bytes-decimal_int snr hs,
      take-append payload (b',' ∷ tail),
    )

-- Every event is read back from the line that a radio sends for it: a payload of any bytes, commas
-- included, of fewer than 2^64 - 1 bytes, and every address and signal value of its type.
pub parse_event-event_text : (e : Event) → IsEvent e → parse_event (event_text e) ≡ ok e
unfolding parse_event if_prefix parse_recv
parse_event-event_text Event.ready h = refl
parse_event-event_text (Event.recv from payload rssi snr) (hf, hp, hr, hs) =
    rw
      (
        take_until_comma_lem (decimal from) _ (decimal-LacksComma from),
        parse_bytes-decimal max_u16 from (omega arith),
        take_until_comma_lem (decimal (length payload)) _ (decimal-LacksComma (length payload)),
        parse_bytes-decimal max_usize (length payload) (omega arith),
      )
      (parse_payload_lem from payload rssi snr hp hr hs)

-- A `+RCV=` line that declares a payload of 2^64 - 1 bytes panics, whatever its address and
-- whatever stands behind the length: `data_len + 1` overflows.
pub parse_event-huge_length :
    (from : ℕ) (rest : Bytes)
    → IsU16 from
    → parse_event (codes "+RCV=" ++ (decimal from ++ (b',' ∷ (decimal max_usize ++ (b',' ∷ rest)))))
      ≡ panic
unfolding parse_event if_prefix parse_recv parse_payload
parse_event-huge_length from rest h = rw (
  take_until_comma_lem (decimal from) _ (decimal-LacksComma from),
  parse_bytes-decimal max_u16 from (omega arith),
  take_until_comma_lem (decimal max_usize) rest (decimal-LacksComma max_usize),
  parse_bytes-decimal max_usize max_usize (omega arith),
)
