-- ===== src/Driver/Matching.antt =====
-- What a line that `response_matches` of rylr998-core/src/driver.rs accepts reads as.
use rylr998_rs.Base.{
  ◌≡◌, refl, ap, ◌∙◌, true, false, inl, inr, [], ◌∷◌, ◌++◌, ◌==◌, ==_iff, Bool-cases, List, Bytes,
  codes, starts_with, eq_bytes, eq_bytes_iff, Outcome, ok, err, panic, ◌>>=◌,
}
use rylr998_rs.Types.{Response, Event, Poll, Error}
use rylr998_rs.Decimal.{parse_uint}
use rylr998_rs.Decode.{
  max_u8, max_u16, max_u32, parse_bytes, parse_str, parse_cpin, next_part, no_more, split,
  parse_parameters, if_prefix, parse_response,
}
use rylr998_rs.Driver.{AwaitKind, QueryKey, ack, query, key_prefix, response_matches}
use rylr998_rs.Driver.Exchange.{Answers}

-- `P` holds of the value, if there is one.
abbrev pub Yields : {A : Type 0} → (A → Type 0) → Outcome Error A → Type 0
Yields P (ok a) = P a
Yields P (err e) = Unit
Yields P panic = Unit

bind-Yields :
    {A B : Type 0} (P : B → Type 0) (m : Outcome Error A) (f : A → Outcome Error B)
    → ((a : A) → Yields P (f a))
    → Yields P (m >>= f)
bind-Yields P (ok a) f h = h a
bind-Yields P (err e) f h = tt
bind-Yields P panic f h = tt

starts_with-true : (line p : Bytes) → starts_with line p ≡ true → (s : Bytes) × (line ≡ p ++ s)
starts_with-true line [] h = (line, refl)
starts_with-true [] (c ∷ p) h = cc
starts_with-true (b ∷ line) (c ∷ p) h = elim (Bool-cases (b == c)) [
  | inl same ↦
      let (s, e) = starts_with-true line p (rw same at h) in
      (s, ap (λ t. b ∷ t) e ∙ ap (λ x. x ∷ (p ++ s)) ((==_iff b c).0 same))
  | inr other ↦ cc
]

no_more-Yields :
    (ps : List Bytes) (p : rylr998_rs.Types.RfParams)
    → Yields (Answers (query QueryKey.parameters)) (no_more ps p)
no_more-Yields [] p = refl
no_more-Yields (_ ∷ _) p = tt

parameters-Yields : (s : Bytes) → Yields (Answers (query QueryKey.parameters)) (parse_parameters s)
unfolding parse_parameters
parameters-Yields s =
    let P = Answers (query QueryKey.parameters) in
    bind-Yields P (next_part (split s)) _ (λ p₁.
      bind-Yields P (parse_bytes (parse_uint max_u8) p₁.0) _ (λ sf.
        bind-Yields P (next_part p₁.1) _ (λ p₂.
          bind-Yields P (parse_bytes (parse_uint max_u8) p₂.0) _ (λ bw.
            bind-Yields P (next_part p₂.1) _ (λ p₃.
              bind-Yields P (parse_bytes (parse_uint max_u8) p₃.0) _ (λ cr.
                bind-Yields P (next_part p₃.1) _ (λ p₄.
                  bind-Yields P (parse_bytes (parse_uint max_u8) p₄.0) _
                    (λ preamble. no_more-Yields p₄.1 _))))))))

field-Yields :
    {A : Type 0} (P : Response → Type 0) (m : Outcome Error A) (answer : A → Response)
    → ((a : A) → P (answer a))
    → Yields P (m >>= λ a. ok (answer a))
field-Yields P m answer h = bind-Yields P m (λ a. ok (answer a)) h

error-Yields :
    (k : AwaitKind) (s : Bytes) → Yields (Answers k) (parse_response (codes "+ERR=" ++ s))
unfolding parse_response if_prefix
error-Yields k s =
    field-Yields (Answers k) (parse_bytes (parse_uint max_u8) s) Response.err (λ n. tt)

key-Yields :
    (key : QueryKey) (s : Bytes)
    → Yields (Answers (query key)) (parse_response (key_prefix key ++ s))
unfolding parse_response if_prefix key_prefix
key-Yields QueryKey.address s =
    field-Yields (Answers (query QueryKey.address)) (parse_bytes (parse_uint max_u16) s)
      Response.address (λ n. refl)
key-Yields QueryKey.network_id s =
    field-Yields (Answers (query QueryKey.network_id)) (parse_bytes (parse_uint max_u8) s)
      Response.network_id (λ n. refl)
key-Yields QueryKey.band s =
    field-Yields (Answers (query QueryKey.band)) (parse_bytes (parse_uint max_u32) s) Response.band
      (λ n. refl)
key-Yields QueryKey.parameters s = parameters-Yields s
key-Yields QueryKey.crfop s =
    field-Yields (Answers (query QueryKey.crfop)) (parse_bytes (parse_uint max_u8) s) Response.crfop
      (λ n. refl)
key-Yields QueryKey.uid s =
    field-Yields (Answers (query QueryKey.uid)) (parse_str s) Response.uid (λ n. refl)
key-Yields QueryKey.version s =
    field-Yields (Answers (query QueryKey.version)) (parse_str s) Response.version (λ n. refl)
key-Yields QueryKey.cpin s =
    field-Yields (Answers (query QueryKey.cpin)) (parse_cpin s) Response.cpin (λ n. refl)

literal_lines :
    (Answers ack Response.ok)
    × Yields (Answers ack) (parse_response (codes "+OK"))
    × Yields (Answers ack) (parse_response (codes "+RESET"))
    × Yields (Answers ack) (parse_response (codes "+READY"))
unfolding parse_response if_prefix
literal_lines = (refl, refl, tt, tt)

plain-Yields :
    (k : AwaitKind) (line : Bytes)
    → starts_with line (codes "+ERR=") ≡ false
    → response_matches k line ≡ true
    → Yields (Answers k) (parse_response line)
unfolding response_matches
plain-Yields ack line other h =
    let (n, on_ok, on_reset, on_ready) = literal_lines in
    elim (Bool-cases (eq_bytes line (codes "+OK"))) [
      | inl e ↦ rw ((eq_bytes_iff line (codes "+OK")).0 e) on_ok
      | inr not_ok ↦ elim (Bool-cases (eq_bytes line (codes "+RESET"))) [
        | inl e ↦ rw ((eq_bytes_iff line (codes "+RESET")).0 e) on_reset
        | inr not_reset ↦
            let e : eq_bytes line (codes "+READY") ≡ true = rw (other, not_ok, not_reset) at h in
            rw ((eq_bytes_iff line (codes "+READY")).0 e) on_ready
      ]
    ]
plain-Yields (query key) line other h =
    let (s, e) = starts_with-true line (key_prefix key) (rw other at h) in rw e (key-Yields key s)

-- A line that matches what is awaited reads as an answer to it, if it reads as a response at all.
pub matched-Yields :
    (k : AwaitKind) (line : Bytes)
    → response_matches k line ≡ true
    → Yields (Answers k) (parse_response line)
matched-Yields k line h = elim (Bool-cases (starts_with line (codes "+ERR="))) [
  | inl is_error ↦
      let (s, e) = starts_with-true line (codes "+ERR=") is_error in rw e (error-Yields k s)
  | inr other ↦ plain-Yields k line other h
]
