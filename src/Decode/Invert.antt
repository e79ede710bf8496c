-- ===== src/Decode/Invert.antt =====
-- What follows from the success of a parser of a single field.
use rylr998_rs.Base.{
  ℕ, suc, ◌+◌, ◌≡◌, ◌≢◌, refl, ap, ◌∙◌, true, ◌∷◌, ◌++◌, Option, none, some, arith, Bytes, take,
  drop, position, position-some, position-Lacks, Lacks, Outcome, ok, panic, ◌>>=◌, ok_or,
}
use rylr998_rs.Types.{Error}
use rylr998_rs.Utf8.{valid_utf8}
use rylr998_rs.Decode.{parse_str, parse_bytes, take_until_comma}

pub parse_str-ok : (s : Bytes) {t : Bytes} → parse_str s ≡ ok t → (t ≡ s) × (valid_utf8 s ≡ true)
unfolding parse_str
parse_str-ok s h = ground arith

pub parse_bytes-ok :
    {A : Type 0} (from_str : Bytes → Option A) (s : Bytes) {a : A}
    → parse_bytes from_str s ≡ ok a
    → from_str s ≡ some a
unfolding parse_bytes parse_str
parse_bytes-ok from_str s h = ground arith

take_until_comma_at :
    (s : Bytes) (o : Option ℕ) {a r : Bytes}
    → position s b',' ≡ o
    → ◌≡◌ {A = Outcome Error (Bytes × Bytes)}
        (◌>>=◌ {B = Bytes × Bytes} (ok_or o Error.parse) (λ i. ok (take i s, drop (i + 1) s)))
        (ok (a, r))
    → s ≡ a ++ b',' ∷ r
take_until_comma_at s none p h = cc
take_until_comma_at s (some i) {a} {r} p h =
    let cut : a ≡ take i s = cc in
    let behind : r ≡ drop (i + 1) s = cc in
    rw (cut, behind)
      (position-some b',' s p ∙ ap (λ n. take i s ++ b',' ∷ drop n s) {x = suc i} (omega arith))

pub take_until_comma-ok :
    (s : Bytes) {a r : Bytes} → take_until_comma s ≡ ok (a, r) → s ≡ a ++ b',' ∷ r
unfolding take_until_comma
take_until_comma-ok s h = take_until_comma_at s (position s b',') refl h

comma_part-Lacks :
    (s : Bytes) (o : Option ℕ) {a r : Bytes}
    → position s b',' ≡ o
    → ◌≡◌ {A = Outcome Error (Bytes × Bytes)}
        (◌>>=◌ {B = Bytes × Bytes} (ok_or o Error.parse) (λ i. ok (take i s, drop (i + 1) s)))
        (ok (a, r))
    → Lacks b',' a
comma_part-Lacks s none p h = cc
comma_part-Lacks s (some i) {a} {r} p h =
    let cut : a ≡ take i s = cc in rw cut (position-Lacks b',' s p)

-- What stands before the first comma has none.
pub take_until_comma-Lacks :
    (s : Bytes) {a r : Bytes} → take_until_comma s ≡ ok (a, r) → Lacks b',' a
unfolding take_until_comma
take_until_comma-Lacks s h = comma_part-Lacks s (position s b',') refl h

pub parse_str-ne-panic : (s : Bytes) → parse_str s ≢ panic
unfolding parse_str
parse_str-ne-panic s h = ground arith

pub parse_bytes-ne-panic :
    {A : Type 0} (from_str : Bytes → Option A) (s : Bytes) → parse_bytes from_str s ≢ panic
unfolding parse_bytes parse_str
parse_bytes-ne-panic from_str s h = ground arith

pub take_until_comma-ne-panic : (s : Bytes) → take_until_comma s ≢ panic
unfolding take_until_comma
take_until_comma-ne-panic s h = ground arith
