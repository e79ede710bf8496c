-- ===== src/Decode/Numbers.antt =====
-- The parsers of single fields, on the texts that the specification writes.
use rylr998_rs.Base.{
  ℕ, suc, ◌+◌, ◌≤◌, ◌≡◌, refl, ap, ◌∙◌, true, [], ◌∷◌, ◌++◌, Option, some, arith, Bytes, length,
  drop, All, position-append, Lacks, take-append, ok,
}
use rylr998_rs.Base.Int.{ℤ, pos, negsuc, IsI16}
use rylr998_rs.Decimal.{decimal, decimal_int, parse_uint, parse_i16}
use rylr998_rs.Decimal.RoundTrip.{decimal-IsDigit, parse_uint-decimal, parse_i16-decimal_int}
use rylr998_rs.Utf8.{valid_utf8, valid_utf8-ascii}
use rylr998_rs.Decode.{parse_str, parse_bytes, take_until_comma, split}

pub All-weaken : {P Q : ℕ → Type 0} (s : Bytes) → ((c : ℕ) → P c → Q c) → All P s → All Q s
All-weaken [] f h = tt
All-weaken (c ∷ s) f (hc, hs) = (f c hc, All-weaken s f hs)

pub valid_utf8-decimal : (n : ℕ) → valid_utf8 (decimal n) ≡ true
valid_utf8-decimal n =
    valid_utf8-ascii (decimal n) (All-weaken (decimal n) (λ c h. omega arith) (decimal-IsDigit n))

pub valid_utf8-decimal_int : (z : ℤ) → valid_utf8 (decimal_int z) ≡ true
unfolding decimal_int
valid_utf8-decimal_int (pos n) = valid_utf8-decimal n
valid_utf8-decimal_int (negsuc n) =
    valid_utf8-ascii (b'-' ∷ decimal (suc n))
      (omega arith, All-weaken (decimal (suc n)) (λ c h. omega arith) (decimal-IsDigit (suc n)))

pub parse_str-valid : (s : Bytes) → valid_utf8 s ≡ true → parse_str s ≡ ok s
unfolding parse_str
parse_str-valid s h = rw h

-- `parse_bytes` on a text that is UTF-8 and that `from_str` accepts.
pub parse_bytes-some :
    {A : Type 0} (from_str : Bytes → Option A) (s : Bytes) {a : A}
    → valid_utf8 s ≡ true
    → from_str s ≡ some a
    → parse_bytes from_str s ≡ ok a
unfolding parse_bytes parse_str
parse_bytes-some from_str s h e = rw (h, e)

pub parse_bytes-decimal : (max n : ℕ) → n ≤ max → parse_bytes (parse_uint max) (decimal n) ≡ ok n
parse_bytes-decimal max n h =
    parse_bytes-some (parse_uint max) (decimal n) (valid_utf8-decimal n)
      (parse_uint-decimal max n h)

pub parse_bytes-decimal_int : (z : ℤ) → IsI16 z → parse_bytes parse_i16 (decimal_int z) ≡ ok z
parse_bytes-decimal_int z h =
    parse_bytes-some parse_i16 (decimal_int z) (valid_utf8-decimal_int z)
      (parse_i16-decimal_int z h)

-- A text with no comma.
abbrev pub LacksComma : Bytes → Type 0
LacksComma = Lacks b','

pub decimal-LacksComma : (n : ℕ) → LacksComma (decimal n)
decimal-LacksComma n = All-weaken (decimal n) (λ c h. omega arith) (decimal-IsDigit n)

pub decimal_int-LacksComma : (z : ℤ) → LacksComma (decimal_int z)
unfolding decimal_int
decimal_int-LacksComma (pos n) = decimal-LacksComma n
decimal_int-LacksComma (negsuc n) = (omega arith, decimal-LacksComma (suc n))

pub drop_behind : (p : Bytes) (c : ℕ) (s : Bytes) → drop (length p + 1) (p ++ c ∷ s) ≡ s
drop_behind p c s = ap (λ n. drop n (p ++ c ∷ s)) (one_more (length p)) ∙ drop_suc p
  where
    one_more : (n : ℕ) → n + 1 ≡ suc n
    one_more n = omega arith

    drop_suc : (p : Bytes) → drop (suc (length p)) (p ++ c ∷ s) ≡ s
    drop_suc [] = refl
    drop_suc (x ∷ p) = drop_suc p

-- The first comma is found behind a text that has none.
pub take_until_comma_lem :
    (p s : Bytes) → LacksComma p → take_until_comma (p ++ b',' ∷ s) ≡ ok (p, s)
unfolding take_until_comma
take_until_comma_lem p s h = rw (position-append b',' p s h, take-append, drop_behind)

pub split-comma : (p s : Bytes) → LacksComma p → split (p ++ b',' ∷ s) ≡ p ∷ split s
split-comma [] s h = refl
split-comma (c ∷ p) s (hc, hp) = ground (arith, split-comma p s hp)

pub split-last : (p : Bytes) → LacksComma p → split p ≡ p ∷ []
split-last [] h = refl
split-last (c ∷ p) (hc, hp) = ground (arith, split-last p hp)
