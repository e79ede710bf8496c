-- ===== src/Decimal/Bounds.antt =====
-- A parsed number lies in the range of its type, and a printed one has few digits.
use rylr998_rs.Base.{
  ℕ, zero, suc, ◌+◌, ◌-◌, ◌*◌, ◌/◌, ◌%◌, ◌^◌, ◌≤◌, ◌<◌, ◌≡◌, [], ◌∷◌, some, arith, ◌==◌, ltb,
  ltb→lt, ltb→le, Bytes, length, length-append, Bool-cases, inl, inr,
}
use rylr998_rs.Decimal.{digit, decimal, parse_digits, parse_uint}
use rylr998_rs.Decimal.RoundTrip.{decimal_small, decimal_large}

parse_digits-le :
    (max : ℕ) (s : Bytes) (n : ℕ) {r : ℕ} → n ≤ max → parse_digits max s n ≡ some r → r ≤ max
unfolding parse_digits
parse_digits-le max [] n {r} le h = ground arith
parse_digits-le max (c ∷ s) n {r} le h =
    ground (arith, parse_digits-le max s (n * 10 + (c - b'0')) {r = r})

pub parse_uint-le : (max : ℕ) (s : Bytes) {n : ℕ} → parse_uint max s ≡ some n → n ≤ max
unfolding parse_uint
parse_uint-le max [] h = cc
parse_uint-le max (c ∷ []) h = parse_digits-le max (c ∷ []) 0 (omega arith) h
parse_uint-le max (c ∷ d ∷ s) h = elim (Bool-cases (c == b'+')) [
  | inl plus ↦ parse_digits-le max (d ∷ s) 0 (omega arith) (rw plus at h)
  | inr other ↦ parse_digits-le max (c ∷ d ∷ s) 0 (omega arith) (rw other at h)
]

-- A number below `10 ^ k` has at most `k` digits, and zero has one.
pub length-decimal : (k n : ℕ) → n < 10 ^ suc k → length (decimal n) ≤ suc k
length-decimal zero n h = rw (decimal_small n (omega arith)) (omega arith)
length-decimal (suc k) n h = elim (Bool-cases (ltb n 10)) [
  | inl e ↦ rw (decimal_small n (ltb→lt n 10 e)) (omega arith)
  | inr e ↦
      let big : 10 ≤ n = ltb→le n 10 e in
      rw (decimal_large n big) (
        omega (
          arith,
          length-append (decimal (n / 10)) (digit (n % 10) ∷ []),
          length-decimal k (n / 10) (tenth k n h),
        ))
]
  where
    tenth : (k n : ℕ) → n < 10 ^ suc (suc k) → n / 10 < 10 ^ suc k
    tenth k n h = omega arith
