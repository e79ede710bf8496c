-- ===== src/Decimal.antt =====
-- Decimal numbers: the reference printer that the specifications use, and Rust's `str::parse` for
-- the integer types that rylr998-core/src/decode.rs parses. `parse` fails on an empty text, on a
-- lone sign, on a byte that is no digit and on a value out of range; a leading `+` is accepted.
pub mod RoundTrip
pub mod Bounds
use rylr998_rs.Base.{
  ℕ, zero, suc, ◌+◌, ◌-◌, ◌*◌, ◌/◌, ◌%◌, ◌^◌, ◌≤◌, ◌≡◌, refl, Bool, ◌||◌, List, [], ◌∷◌, ◌++◌,
  Option, none, some, arith, ltb, ◌==◌, if◌then◌else◌, Bytes, codes, map_option,
}
use rylr998_rs.Base.Int.{ℤ, pos, negsuc}

abbrev pub digit : ℕ → ℕ
digit d = b'0' + d

-- The fuel is a bound on the number of digits.
unfoldable pub decimal_fuel : ℕ → ℕ → Bytes
decimal_fuel zero n = []
decimal_fuel (suc f) n =
    let front = decimal_fuel f (n / 10) in
    if ltb n 10 then digit n ∷ [] else front ++ digit (n % 10) ∷ []

-- A number in decimal with no leading zero, the most significant digit first.
unfoldable pub decimal : ℕ → Bytes
unfolding decimal_fuel
decimal n = decimal_fuel (suc n) n

-- The digits of `s` behind the value `n`; each step is checked against the type's maximum.
unfoldable pub parse_digits : ℕ → Bytes → ℕ → Option ℕ
parse_digits max [] n = some n
parse_digits max (c ∷ s) n =
    let m = n * 10 + (c - b'0') in
    let rest = parse_digits max s m in
    if ltb c b'0' || ltb b'9' c then none else if ltb max m then none else rest

-- `str::parse::<uN>` for the unsigned type with this maximum.
unfoldable pub parse_uint : ℕ → Bytes → Option ℕ
parse_uint max [] = none
parse_uint max (c ∷ []) = parse_digits max (c ∷ []) 0
parse_uint max (c ∷ d ∷ s) =
    if c == b'+' then parse_digits max (d ∷ s) 0 else parse_digits max (c ∷ d ∷ s) 0

-- - n, as an integer.
abbrev pub negate : ℕ → ℤ
negate zero = pos 0
negate (suc n) = negsuc n

-- `str::parse::<i16>`: a negative text is held to 2^15, any other to 2^15 - 1.
unfoldable pub parse_i16 : Bytes → Option ℤ
parse_i16 [] = none
parse_i16 (c ∷ []) = map_option pos (parse_digits (2 ^ 15 - 1) (c ∷ []) 0)
parse_i16 (c ∷ d ∷ s) =
    if c == b'+'
    then map_option pos (parse_digits (2 ^ 15 - 1) (d ∷ s) 0)
    else if c == b'-'
    then map_option negate (parse_digits (2 ^ 15) (d ∷ s) 0)
    else map_option pos (parse_digits (2 ^ 15 - 1) (c ∷ d ∷ s) 0)

-- An integer in decimal.
unfoldable pub decimal_int : ℤ → Bytes
decimal_int (pos n) = decimal n
decimal_int (negsuc n) = b'-' ∷ decimal (suc n)
