-- ===== src/Encode/Steps.antt =====
-- What each step of the writer appends. A writer that has written `p` and has `r` left holds the
-- buffer `p ++ r`.
use native.Mathlib.Nat.{pow-suc}
use rylr998_rs.Base.{
  ℕ, zero, suc, ◌+◌, ◌/◌, ◌%◌, ◌^◌, ◌≤◌, ◌<◌, ◌≡◌, refl, sym, ap, ◌∙◌, false, [], ◌∷◌, ◌++◌,
  append_assoc, append-nil, some, arith, ltb, ltb→le, ltb→lt, lt→ltb, le→ltb, ◌==◌, if◌then◌else◌,
  Bool-cases, inl, inr, Bytes, codes, length, drop, rev, length-append, length-drop, take-append,
  drop-append, drop-drop, Outcome, ok, err, panic,
}
use rylr998_rs.Types.{Error}
use rylr998_rs.Decimal.{digit, decimal}
use rylr998_rs.Decimal.RoundTrip.{decimal_small, decimal_large}
use rylr998_rs.Encode.{
  Writer, Write, and_then, ◌>>◌, bytes, lit, fill, write_each, write_digits, u16, u32,
}

abbrev pub at : Bytes → Bytes → Writer
at p r = record { buf = p ++ r; pos = length p }

-- The step appends `s` where it fits, and reports the overflow where it does not.
pub record Writes (m : Write) (s : Bytes) : Type 0 where
  pub fits :
      (p r : Bytes) → length s ≤ length r → m (at p r) ≡ (ok tt, at (p ++ s) (drop (length s) r))
  pub overflows : (p r : Bytes) → length r < length s → (m (at p r)).0 ≡ err Error.tx_overflow

drop_past : (p r : Bytes) (n : ℕ) → drop (length p + n) (p ++ r) ≡ drop n r
drop_past p r n = sym (drop-drop n (length p) (p ++ r)) ∙ ap (drop n) (drop-append p r)

bytes_fits :
    (s p r : Bytes)
    → length s ≤ length r
    → bytes s (at p r) ≡ (ok tt, at (p ++ s) (drop (length s) r))
unfolding bytes
bytes_fits s p r h = rw (
  le→ltb (length (p ++ r)) (length p + length s) (omega (arith, length-append p r)),
  take-append,
  drop_past,
  append_assoc,
  length-append,
)

bytes_overflows :
    (s p r : Bytes) → length r < length s → (bytes s (at p r)).0 ≡ err Error.tx_overflow
unfolding bytes
bytes_overflows s p r h =
    rw (lt→ltb (length (p ++ r)) (length p + length s) (omega (arith, length-append p r)))

pub bytes-Writes : (s : Bytes) → Writes (bytes s) s
bytes-Writes s = record { fits = bytes_fits s; overflows = bytes_overflows s }

pub lit-Writes : (s : Bytes) → Writes (lit s) s
unfolding lit
lit-Writes s = bytes-Writes s

rejoin :
    (p r s t : Bytes)
    → ◌≡◌ {A = Outcome Error (Unit {0}) × Writer}
        (ok tt, at ((p ++ s) ++ t) (drop (length t) (drop (length s) r)))
        (ok tt, at (p ++ (s ++ t)) (drop (length (s ++ t)) r))
rejoin p r s t = λ i. (ok tt, at (append_assoc p s t i) (past i))
  where
    past : drop (length t) (drop (length s) r) ≡ drop (length (s ++ t)) r
    past = drop-drop (length t) (length s) r ∙ ap (λ n. drop n r) (sym (length-append s t))

-- A step behind another: the texts are joined, and the first overflow is the result.
then_fits :
    {m k : Write} {s t : Bytes}
    → Writes m s
    → Writes k t
    → (p r : Bytes) → length (s ++ t) ≤ length r
    → (m >> k) (at p r) ≡ (ok tt, at (p ++ (s ++ t)) (drop (length (s ++ t)) r))
then_fits {m} {k} {s} {t} a b p r h =
    ap (and_then k) (a.fits p r (omega (arith, length-append s t)))
    ∙ b.fits (p ++ s) (drop (length s) r)
        (omega (arith, length-append s t, length-drop (length s) r))
    ∙ rejoin p r s t

and_then_overflow :
    (k : Write) (o : Outcome Error (Unit {0}) × Writer)
    → o.0 ≡ err Error.tx_overflow
    → (and_then k o).0 ≡ err Error.tx_overflow
and_then_overflow k (ok _, w) h = cc
and_then_overflow k (err e, w) h = h
and_then_overflow k (panic, w) h = cc

then_overflows :
    {m k : Write} {s t : Bytes}
    → Writes m s
    → Writes k t
    → (p r : Bytes) → length r < length (s ++ t)
    → ((m >> k) (at p r)).0 ≡ err Error.tx_overflow
then_overflows {m} {k} {s} {t} a b p r h = elim (Bool-cases (ltb (length r) (length s))) [
  | inl e ↦ and_then_overflow k (m (at p r)) (a.overflows p r (ltb→lt _ _ e))
  | inr e ↦
      let room : length s ≤ length r = ltb→le _ _ e in
      rw (a.fits p r room) (
        b.overflows (p ++ s) (drop (length s) r)
          (omega (arith, length-append s t, length-drop (length s) r)))
]

pub then-Writes : {m k : Write} {s t : Bytes} → Writes m s → Writes k t → Writes (m >> k) (s ++ t)
then-Writes a b = record { fits = then_fits a b; overflows = then_overflows a b }

-- Byte by byte.
write_each-Writes : (s : Bytes) → Writes (write_each s) s
unfolding write_each
write_each-Writes [] = record {
  fits = λ p r h. rw append-nil;
  overflows = λ p r h. absurd (omega arith);
}
write_each-Writes (d ∷ ds) = then-Writes (bytes-Writes (d ∷ [])) (write_each-Writes ds)

fill_zero : (room : ℕ) → fill room 0 ≡ some []
unfolding fill
fill_zero zero = refl
fill_zero (suc room) = refl

-- The digits that the loop leaves, last one first, are the number's.
fill-decimal :
    (room n : ℕ)
    → n < 10 ^ room
    → 0 < n
    → (ds : Bytes) × (fill room n ≡ some ds) × (rev ds ≡ decimal n)
unfolding fill
fill-decimal zero n h k = absurd (omega arith)
fill-decimal (suc room) n h k = elim (Bool-cases (ltb n 10)) [
  | inl e ↦
      let below : n < 10 = ltb→lt n 10 e in
      let gone : n / 10 ≡ 0 = omega arith in
      (digit n ∷ [], rw (gone, fill_zero) (ground arith), sym (decimal_small n below))
  | inr e ↦
      let big : 10 ≤ n = ltb→le n 10 e in
      let (ds, filled, same) =
        fill-decimal room (n / 10) (omega (arith, rw pow-suc at h)) (omega arith) in
      (
        digit (n % 10) ∷ ds,
        rw filled (ground arith),
        ap (λ front. front ++ digit (n % 10) ∷ []) same ∙ sym (decimal_large n big),
      )
]

write_digits-Writes :
    (room n : ℕ) → n < 10 ^ room → 0 < n → Writes (write_digits (fill room n)) (decimal n)
unfolding write_digits
write_digits-Writes room n h k =
    let (ds, filled, same) = fill-decimal room n h k in
    rw (filled, ← same) (write_each-Writes (rev ds))

number-Writes :
    (room n : ℕ)
    → n < 10 ^ room
    → Writes (λ w. if n == 0 then bytes (codes "0") w else write_digits (fill room n) w) (decimal n)
number-Writes room zero h = rw (decimal_small 0 (omega arith)) (bytes-Writes (codes "0"))
number-Writes room (suc n) h =
    let positive : (suc n == 0) ≡ false = ground arith in
    rw positive (write_digits-Writes room (suc n) h (omega arith))

-- Every `u16` is written in decimal, within the five places of its array.
pub u16-Writes : (n : ℕ) → n < 2 ^ 16 → Writes (u16 n) (decimal n)
unfolding u16
u16-Writes n h = number-Writes 5 n (omega arith)

-- Every `u32` is written in decimal, within the ten places of its array.
pub u32-Writes : (n : ℕ) → n < 2 ^ 32 → Writes (u32 n) (decimal n)
unfolding u32
u32-Writes n h = number-Writes 10 n (omega arith)
