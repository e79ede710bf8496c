-- ===== src/Decode/Panics.antt =====
-- When `parse_event` of rylr998-core/src/decode.rs panics.
use rylr998_rs.Base.{
  ℕ, ◌+◌, ◌≤◌, ◌≡◌, ◌≢◌, ◌↔◌, refl, ap, ◌∙◌, inl, inr, ◌∷◌, ◌++◌, arith, ltb, ltb→lt, Bool-cases,
  Option-cases, Bytes, codes, length, get_elem?, take, drop, strip_prefix, strip_prefix_sound,
  eq_bytes, Outcome, ok, err, panic, ◌>>=◌, >>=-eq-panic,
}
use rylr998_rs.Types.{Event, Error}
use rylr998_rs.Decimal.{parse_uint, parse_i16}
use rylr998_rs.Decimal.Bounds.{parse_uint-le}
use rylr998_rs.Decode.{
  max_u16, max_usize, is_comma, if_prefix, take_until_comma, parse_bytes, signals, parse_payload,
  parse_recv, parse_event,
}
use rylr998_rs.Decode.Numbers.{take_until_comma_lem, LacksComma}
use rylr998_rs.Decode.Sound.{
  with_snr, with_rssi, with_texts, with_len, with_len_text, with_from, with_from_text,
}
use rylr998_rs.Decode.Invert.{
  take_until_comma-Lacks, parse_bytes-ok, take_until_comma-ok, parse_bytes-ne-panic,
  take_until_comma-ne-panic,
}

-- A `+RCV=` line whose length field is the greatest `usize`.
pub record IsHuge (line : Bytes) : Type 0 where
  pub from_text : Bytes
  pub len_text : Bytes
  pub rest : Bytes
  pub from : ℕ
  pub splits : line ≡ codes "+RCV=" ++ (from_text ++ (b',' ∷ (len_text ++ (b',' ∷ rest))))
  pub from_lacks : LacksComma from_text
  pub len_lacks : LacksComma len_text
  pub from_read : parse_bytes (parse_uint max_u16) from_text ≡ ok from
  pub len_read : parse_bytes (parse_uint max_usize) len_text ≡ ok max_usize

-- A step that does not panic, before one that panics for no value.
bind-ne-panic :
    {A B : Type 0} (first : Outcome Error A) (next : A → Outcome Error B)
    → first ≢ panic
    → ((a : A) → next a ≢ panic)
    → first >>= next ≢ panic
bind-ne-panic first next h k e = elim (>>=-eq-panic first next e) [
  | inl p ↦ h p
  | inr (a, _, q) ↦ k a q
]

err_ne_panic : ◌≡◌ {A = Outcome Error Event} (err Error.parse) panic → ⊥
err_ne_panic h = cc

ready_ne_panic : ◌≡◌ {A = Outcome Error Event} (ok Event.ready) panic → ⊥
ready_ne_panic h = cc

signals-ne-panic : (from n : ℕ) (s : Bytes) → signals from n s ≢ panic
unfolding signals
signals-ne-panic from n s =
    bind-ne-panic (take_until_comma (drop (n + 1) s)) (with_texts from (take n s))
      (take_until_comma-ne-panic (drop (n + 1) s))
      (λ t.
        bind-ne-panic (parse_bytes parse_i16 t.0) (with_rssi from (take n s) t.1)
          (parse_bytes-ne-panic parse_i16 t.0)
          (λ rssi.
            bind-ne-panic (parse_bytes parse_i16 t.1) (with_snr from (take n s) rssi)
              (parse_bytes-ne-panic parse_i16 t.1) (λ snr e. cc)))

parse_payload-panic :
    (from n : ℕ) (s : Bytes) → n ≤ max_usize → parse_payload from n s ≡ panic → n ≡ max_usize
unfolding parse_payload
parse_payload-panic from n s le e = elim (Bool-cases (ltb max_usize (n + 1))) [
  | inl over ↦ omega (arith, ltb→lt _ _ over)
  | inr fits ↦ elim (Bool-cases (ltb (length s) (n + 1))) [
    | inl short ↦ absurd (err_ne_panic (rw (fits, short) at e))
    | inr long ↦ elim (Bool-cases (is_comma (get_elem? s n))) [
      | inl comma ↦ absurd (signals-ne-panic from n s (rw (fits, long, comma) at e))
      | inr other ↦ absurd (err_ne_panic (rw (fits, long, other) at e))
    ]
  ]
]

parse_recv-panic : (line s : Bytes) → line ≡ codes "+RCV=" ++ s → parse_recv s ≡ panic → IsHuge line
unfolding parse_recv
parse_recv-panic line s l e = elim (>>=-eq-panic (take_until_comma s) with_from_text e) [
  | inl p ↦ absurd (take_until_comma-ne-panic s p)
  | inr (t, cut, e₁) ↦
      elim (>>=-eq-panic (parse_bytes (parse_uint max_u16) t.0) (with_from t.1) e₁) [
        | inl p ↦ absurd (parse_bytes-ne-panic (parse_uint max_u16) t.0 p)
        | inr (from, a, e₂) ↦ elim (>>=-eq-panic (take_until_comma t.1) (with_len_text from) e₂) [
          | inl p ↦ absurd (take_until_comma-ne-panic t.1 p)
          | inr (u, cut', e₃) ↦
              elim (>>=-eq-panic (parse_bytes (parse_uint max_usize) u.0) (with_len from u.1) e₃) [
                | inl p ↦ absurd (parse_bytes-ne-panic (parse_uint max_usize) u.0 p)
                | inr (n, b, e₄) ↦
                    let greatest =
                      parse_payload-panic from n u.1
                        (parse_uint-le max_usize u.0 (parse_bytes-ok (parse_uint max_usize) u.0 b))
                        e₄ in
                    let first : s ≡ t.0 ++ b',' ∷ t.1 = take_until_comma-ok s cut in
                    let second : t.1 ≡ u.0 ++ b',' ∷ u.1 = take_until_comma-ok t.1 cut' in
                    record {
                      from_text = t.0;
                      len_text = u.0;
                      rest = u.1;
                      from = from;
                      splits =
                          l
                          ∙ ap (λ v. codes "+RCV=" ++ v) (first ∙ ap (λ v. t.0 ++ b',' ∷ v) second);
                      from_lacks = take_until_comma-Lacks s cut;
                      len_lacks = take_until_comma-Lacks t.1 cut';
                      from_read = a;
                      len_read = b ∙ ap (λ m. ok m) greatest;
                    }
              ]
        ]
      ]
]

huge-panic : (line : Bytes) → IsHuge line → parse_event line ≡ panic
unfolding parse_event if_prefix parse_recv parse_payload
huge-panic line h = rw h.splits (
    rw
      (
        take_until_comma_lem h.from_text _ h.from_lacks,
        h.from_read,
        take_until_comma_lem h.len_text h.rest h.len_lacks,
        h.len_read,
      )
      refl)

-- `parse_event` panics exactly on a `+RCV=` line with an address of its type that declares a payload
-- of 2^64 - 1 bytes: on no other line, whatever stands on it.
pub parse_event-panic_iff : (line : Bytes) → (parse_event line ≡ panic) ↔ IsHuge line
unfolding parse_event if_prefix
parse_event-panic_iff line = (
  λ e. elim (Bool-cases (eq_bytes line (codes "+READY"))) [
    | inl same ↦ absurd (ready_ne_panic (rw same at e))
    | inr other ↦ elim (Option-cases (strip_prefix line (codes "+RCV="))) [
      | inl no_prefix ↦ absurd (err_ne_panic (rw (other, no_prefix) at e))
      | inr (s, found) ↦
          parse_recv-panic line s (strip_prefix_sound line (codes "+RCV=") found)
            (rw (other, found) at e)
    ]
  ],
  huge-panic line,
)
