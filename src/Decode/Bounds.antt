-- ===== src/Decode/Bounds.antt =====
-- Every outcome of `parse_response`, on any line.
use rylr998_rs.Base.{
  ℕ, ◌^◌, ◌≤◌, ◌<◌, ◌≡◌, ◌≢◌, ◌⊎◌, inl, inr, refl, Bool, true, false, ◌||◌, not, List, [], ◌∷◌,
  Option, none, some, arith, ◌==◌, Bool-cases, Bytes, codes, length, eq_bytes, strip_prefix,
  Outcome, ok, err, panic, ◌>>=◌,
}
use rylr998_rs.Types.{RfParams, Response, Error, IsRfParams}
use rylr998_rs.Decimal.{parse_uint}
use rylr998_rs.Decimal.Bounds.{parse_uint-le}
use rylr998_rs.Utf8.{valid_utf8}
use rylr998_rs.Decode.{
  max_u8, max_u16, max_u32, password_length, parse_str, parse_bytes, is_ascii_hexdigit, all,
  parse_cpin, split, next_part, no_more, parse_parameters, if_prefix, parse_response,
}
use rylr998_rs.Decode.Text.{IsPassword, IsResponse}
use rylr998_rs.Decode.Invert.{
  parse_str-ok, parse_bytes-ok, parse_bytes-ne-panic, parse_str-ne-panic,
}

-- The outcome is no panic, and `P` holds of a value.
abbrev pub Ensures : {A : Type 0} → (A → Type 0) → Outcome Error A → Type 0
Ensures P (ok a) = P a
Ensures P (err e) = Unit
Ensures P panic = ⊥

bind-Ensures :
    {A B : Type 0} (P : A → Type 0) (Q : B → Type 0) (m : Outcome Error A) (f : A → Outcome Error B)
    → Ensures P m
    → ((a : A) → P a → Ensures Q (f a))
    → Ensures Q (m >>= f)
bind-Ensures P Q (ok a) f h k = k a h
bind-Ensures P Q (err e) f h k = tt
bind-Ensures P Q panic f h k = absurd h

if_prefix-Ensures :
    (P : Response → Type 0) (line p : Bytes) (found : Bytes → Outcome Error Response)
    (otherwise : Outcome Error Response)
    → ((s : Bytes) → Ensures P (found s))
    → Ensures P otherwise
    → Ensures P (if_prefix line p found otherwise)
unfolding if_prefix
if_prefix-Ensures P line p found otherwise h k = go (strip_prefix line p)
  where
    go : (o : Option Bytes) → Ensures P (elim o [ some s ↦ found s | none ↦ otherwise ])
    go none = k
    go (some s) = h s

-- What holds of every value that an outcome can be, where it is no panic.
Ensures-of :
    {A : Type 0} (P : A → Type 0) (o : Outcome Error A)
    → ((a : A) → o ≡ ok a → P a)
    → o ≢ panic
    → Ensures P o
Ensures-of P (ok a) h k = h a refl
Ensures-of P (err e) h k = tt
Ensures-of P panic h k = k refl

parse_bytes-Ensures :
    (max : ℕ) (s : Bytes) → Ensures (λ n. n ≤ max) (parse_bytes (parse_uint max) s)
parse_bytes-Ensures max s =
    Ensures-of (λ n. n ≤ max) (parse_bytes (parse_uint max) s)
      (λ n e. parse_uint-le max s (parse_bytes-ok (parse_uint max) s e))
      (parse_bytes-ne-panic (parse_uint max) s)

parse_str-Ensures : (s : Bytes) → Ensures (λ t. valid_utf8 t ≡ true) (parse_str s)
parse_str-Ensures s =
    Ensures-of (λ t. valid_utf8 t ≡ true) (parse_str s)
      (λ t e. let (same, valid) = parse_str-ok s e in rw same valid) (parse_str-ne-panic s)

-- A response with one number, and one with a text.
number-Ensures :
    (max : ℕ) (answer : ℕ → Response) (s : Bytes)
    → ((n : ℕ) → n ≤ max → IsResponse (answer n))
    → Ensures IsResponse (parse_bytes (parse_uint max) s >>= λ n. ok (answer n))
number-Ensures max answer s h =
    bind-Ensures (λ n. n ≤ max) IsResponse (parse_bytes (parse_uint max) s) (λ n. ok (answer n))
      (parse_bytes-Ensures max s) h

text-Ensures :
    (answer : Bytes → Response) (s : Bytes)
    → ((t : Bytes) → valid_utf8 t ≡ true → IsResponse (answer t))
    → Ensures IsResponse (parse_str s >>= λ t. ok (answer t))
text-Ensures answer s h =
    bind-Ensures (λ t. valid_utf8 t ≡ true) IsResponse (parse_str s) (λ t. ok (answer t))
      (parse_str-Ensures s) h

IsPassword-Ensures :
    (s : Bytes) → IsPassword s → Ensures (λ pw. (pw ≡ []) ⊎ IsPassword pw) (parse_str s)
IsPassword-Ensures s h =
    Ensures-of (λ pw. (pw ≡ []) ⊎ IsPassword pw) (parse_str s)
      (λ t e. rw ((parse_str-ok s e).0) (inr h)) (parse_str-ne-panic s)

abbrev is_refused : Bytes → Bool
is_refused s =
    not (length s == password_length) || not (all is_ascii_hexdigit s) || all (λ b. b == b'0') s

not_refused : (s : Bytes) → is_refused s ≡ false → IsPassword s
not_refused s h = record { eight = ground arith; hex = ground arith; nonzero = ground arith }

cpin-Ensures : (s : Bytes) → Ensures (λ pw. (pw ≡ []) ⊎ IsPassword pw) (parse_cpin s)
unfolding parse_cpin
cpin-Ensures s = elim (Bool-cases (eq_bytes s (codes "No Password!"))) [
  | inl no_password ↦ rw no_password (inl refl)
  | inr other ↦ elim (Bool-cases (is_refused s)) [
    | inl refused ↦ rw (other, refused) tt
    | inr accepted ↦ rw (other, accepted) (IsPassword-Ensures s (not_refused s accepted))
  ]
]

next_part-Ensures : (ps : List Bytes) → Ensures (λ t. Unit {0}) (next_part ps)
next_part-Ensures [] = tt
next_part-Ensures (p ∷ ps) = tt

no_more-Ensures :
    (ps : List Bytes) (p : RfParams) → IsRfParams p → Ensures IsResponse (no_more ps p)
no_more-Ensures [] p h = h
no_more-Ensures (_ ∷ _) p h = tt

-- One field of the parameters: the next part, as a `u8`.
field-Ensures :
    (ps : List Bytes) (rest : ℕ → List Bytes → Outcome Error Response)
    → ((n : ℕ) (qs : List Bytes) → n < 2 ^ 8 → Ensures IsResponse (rest n qs))
    → Ensures IsResponse (
        ◌>>=◌ {A = Bytes × List Bytes}
          (next_part ps)
          (λ t. parse_bytes (parse_uint max_u8) t.0 >>= λ n. rest n t.1))
field-Ensures ps rest h =
    bind-Ensures (λ t. Unit {0}) IsResponse (next_part ps) _ (next_part-Ensures ps)
      (λ t u.
        bind-Ensures (λ n. n ≤ max_u8) IsResponse (parse_bytes (parse_uint max_u8) t.0)
          (λ n. rest n t.1) (parse_bytes-Ensures max_u8 t.0) (λ n le. h n t.1 (omega arith)))

parameters-Ensures : (s : Bytes) → Ensures IsResponse (parse_parameters s)
unfolding parse_parameters
parameters-Ensures s = field-Ensures (split s) _ (λ sf ps₁ h₁. field-Ensures ps₁ _ (λ bw ps₂ h₂.
    field-Ensures ps₂ _
      (λ cr ps₃ h₃. field-Ensures ps₃ _ (λ preamble ps₄ h₄. no_more-Ensures ps₄ _ (omega arith)))))

answer_cpin-Ensures :
    (s : Bytes) → Ensures IsResponse (parse_cpin s >>= λ pw. ok (Response.cpin pw))
answer_cpin-Ensures s =
    bind-Ensures (λ pw. (pw ≡ []) ⊎ IsPassword pw) IsResponse (parse_cpin s)
      (λ pw. ok (Response.cpin pw)) (cpin-Ensures s) (λ pw h. h)

-- On every line `parse_response` returns, with no panic, an error or a response whose fields lie
-- in the range of their types: texts are UTF-8, and a password is none or eight hexadecimal
-- digits that are not all zero.
pub parse_response-Ensures : (line : Bytes) → Ensures IsResponse (parse_response line)
unfolding parse_response
parse_response-Ensures line = elim (Bool-cases (eq_bytes line (codes "+OK"))) [
  | inl is_ok ↦ rw is_ok tt
  | inr other ↦ rw other (
      if_prefix-Ensures IsResponse line _ _ _
        (λ s. number-Ensures max_u8 Response.err s (λ n h. omega arith))
        (if_prefix-Ensures IsResponse line _ _ _
          (λ s. number-Ensures max_u16 Response.address s (λ n h. omega arith))
          (if_prefix-Ensures IsResponse line _ _ _ parameters-Ensures (
            if_prefix-Ensures IsResponse line _ _ _
              (λ s. number-Ensures max_u8 Response.network_id s (λ n h. omega arith))
              (if_prefix-Ensures IsResponse line _ _ _
                (λ s. number-Ensures max_u32 Response.band s (λ n h. omega arith))
                (if_prefix-Ensures IsResponse line _ _ _
                  (λ s. number-Ensures max_u8 Response.crfop s (λ n h. omega arith))
                  (if_prefix-Ensures IsResponse line _ _ _ answer_cpin-Ensures (
                    if_prefix-Ensures IsResponse line _ _ _
                      (λ s. text-Ensures Response.uid s (λ t h. h))
                      (if_prefix-Ensures IsResponse line _ _ _
                        (λ s. text-Ensures Response.version s (λ t h. h)) tt)))))))))
]
