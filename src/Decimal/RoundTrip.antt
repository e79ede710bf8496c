-- ===== src/Decimal/RoundTrip.antt =====
-- What `str::parse` makes of a decimal text.
use mathlib.Core.List.{concat-ne-nil}
use rylr998_rs.Base.{
  ℕ, zero, suc, ◌-◌, ◌/◌, ◌%◌, ◌^◌, ◌≤◌, ◌<◌, ◌≡◌, ◌≢◌, refl, sym, ap, ◌∙◌, [], ◌∷◌, ◌++◌,
  append_assoc, append-nil, map_option, some, arith, ltb, le→ltb, lt→ltb, ltb→lt, ltb→le,
  Bool-cases, inl, inr, Bytes, All, All-append,
}
use rylr998_rs.Base.Int.{ℤ, pos, negsuc, IsI16}
use rylr998_rs.Decimal.{
  digit, decimal_fuel, decimal, parse_digits, parse_uint, negate, parse_i16, decimal_int,
}

-- Enough fuel gives the same text.
decimal_fuel_enough : (f g n : ℕ) → n < f → n < g → decimal_fuel f n ≡ decimal_fuel g n
unfolding decimal_fuel
decimal_fuel_enough zero g n h k = absurd (omega arith)
decimal_fuel_enough (suc f) zero n h k = absurd (omega arith)
decimal_fuel_enough (suc f) (suc g) n h k = elim (Bool-cases (ltb n 10)) [
  | inl e ↦ rw e
  | inr e ↦
      let big : 10 ≤ n = ltb→le n 10 e in
      rw (e, decimal_fuel_enough f g (n / 10) (omega arith) (omega arith))
]

-- The reference printer's recursion, without fuel.
pub decimal_small : (n : ℕ) → n < 10 → decimal n ≡ digit n ∷ []
unfolding decimal
decimal_small n h = rw (lt→ltb n 10 h)

pub decimal_large : (n : ℕ) → 10 ≤ n → decimal n ≡ decimal (n / 10) ++ digit (n % 10) ∷ []
unfolding decimal
decimal_large n h =
    rw (le→ltb n 10 h, decimal_fuel_enough n (suc (n / 10)) (n / 10) (omega arith) (omega arith))

-- Strong induction along `n / 10`.
tenths {ℓ} :
    (P : ℕ → Type ℓ)
    → ((n : ℕ) → n < 10 → P n)
    → ((n : ℕ) → 10 ≤ n → P (n / 10) → P n)
    → (f n : ℕ) → n < f
    → P n
tenths P small large zero n h = absurd (omega arith)
tenths P small large (suc f) n h = elim (Bool-cases (ltb n 10)) [
  | inl e ↦ small n (ltb→lt n 10 e)
  | inr e ↦
      let big : 10 ≤ n = ltb→le n 10 e in
      large n big (tenths P small large f (n / 10) (omega arith))
]

pub decimal_induction {ℓ} :
    (P : ℕ → Type ℓ)
    → ((n : ℕ) → n < 10 → P n)
    → ((n : ℕ) → 10 ≤ n → P (n / 10) → P n)
    → (n : ℕ) → P n
decimal_induction P small large n = tenths P small large (suc n) n (omega arith)

abbrev pub IsDigit : ℕ → Type 0
IsDigit c = (b'0' ≤ c) × (c ≤ b'9')

pub decimal-IsDigit : (n : ℕ) → All IsDigit (decimal n)
decimal-IsDigit =
    decimal_induction (λ n. All IsDigit (decimal n)) (λ n h. rw (decimal_small n h) (omega arith))
      (λ n h ih. rw (decimal_large n h) (All-append IsDigit (decimal (n / 10)) _ ih (omega arith)))

-- Reading one digit back.
parse_digits-cons :
    (max n : ℕ) (rest : Bytes)
    → n ≤ max
    → parse_digits max (digit (n % 10) ∷ rest) (n / 10) ≡ parse_digits max rest n
unfolding parse_digits
parse_digits-cons max n rest h = ground arith

pub parse_digits-decimal :
    (max n : ℕ) (rest : Bytes)
    → n ≤ max
    → parse_digits max (decimal n ++ rest) 0 ≡ parse_digits max rest n
parse_digits-decimal max n =
    decimal_induction
      (λ n.
        (rest : Bytes) → n ≤ max → parse_digits max (decimal n ++ rest) 0 ≡ parse_digits max rest n)
      (λ n h rest le. rw (decimal_small n h) (small n h rest le))
      (λ n h ih rest le.
        rw (decimal_large n h, append_assoc, ih (digit (n % 10) ∷ rest) (omega arith))
          (parse_digits-cons max n rest le))
      n
  where
    small :
        (n : ℕ)
        → n < 10
        → (rest : Bytes) → n ≤ max
        → parse_digits max (digit n ∷ rest) 0 ≡ parse_digits max rest n
    small n h rest le = unfold parse_digits in ground arith

pub decimal-ne-nil : (n : ℕ) → decimal n ≢ []
decimal-ne-nil =
    decimal_induction (λ n. decimal n ≢ []) (λ n h. rw (decimal_small n h) (λ e. cc))
      (λ n h ih. rw (decimal_large n h) (concat-ne-nil (digit (n % 10)) (decimal (n / 10))))

-- A text of digits has no sign.
parse_uint-digits :
    (max : ℕ) (s : Bytes) → s ≢ [] → All IsDigit s → parse_uint max s ≡ parse_digits max s 0
unfolding parse_uint
parse_uint-digits max [] ne h = absurd (ne refl)
parse_uint-digits max (c ∷ []) ne h = refl
parse_uint-digits max (c ∷ d ∷ s) ne h = ground arith

parse_i16-digits :
    (s : Bytes)
    → s ≢ []
    → All IsDigit s
    → parse_i16 s ≡ map_option pos (parse_digits (2 ^ 15 - 1) s 0)
unfolding parse_i16
parse_i16-digits [] ne h = absurd (ne refl)
parse_i16-digits (c ∷ []) ne h = refl
parse_i16-digits (c ∷ d ∷ s) ne h = ground arith

parse_i16-minus :
    (s : Bytes) → s ≢ [] → parse_i16 (b'-' ∷ s) ≡ map_option negate (parse_digits (2 ^ 15) s 0)
unfolding parse_i16
parse_i16-minus [] ne = absurd (ne refl)
parse_i16-minus (d ∷ s) ne = refl

parse_digits-decimal_alone : (max n : ℕ) → n ≤ max → parse_digits max (decimal n) 0 ≡ some n
unfolding parse_digits
parse_digits-decimal_alone max n h =
    ap (λ s. parse_digits max s 0) (sym (append-nil (decimal n))) ∙ parse_digits-decimal max n [] h

-- Every value of the type is read back from its decimal print.
pub parse_uint-decimal : (max n : ℕ) → n ≤ max → parse_uint max (decimal n) ≡ some n
parse_uint-decimal max n h =
    parse_uint-digits max (decimal n) (decimal-ne-nil n) (decimal-IsDigit n)
    ∙ parse_digits-decimal_alone max n h

pub parse_i16-decimal_int : (z : ℤ) → IsI16 z → parse_i16 (decimal_int z) ≡ some z
unfolding decimal_int
parse_i16-decimal_int (pos n) h =
    parse_i16-digits (decimal n) (decimal-ne-nil n) (decimal-IsDigit n)
    ∙ ap (map_option pos) (parse_digits-decimal_alone (2 ^ 15 - 1) n (omega arith))
parse_i16-decimal_int (negsuc n) h =
    parse_i16-minus (decimal (suc n)) (decimal-ne-nil (suc n))
    ∙ ap (map_option negate) (parse_digits-decimal_alone (2 ^ 15) (suc n) (omega arith))
