-- ===== src/Decode/Sound.antt =====
-- What follows from an answer of the parsers of rylr998-core/src/decode.rs.
use rylr998_rs.Base.{
  ℕ, zero, suc, ◌+◌, ◌<◌, ◌≡◌, refl, sym, ap, ◌∙◌, true, inl, inr, [], ◌∷◌, ◌++◌, some, arith, ltb,
  ltb→le, ==_iff, Bool-cases, Bytes, codes, length, take, drop, get_elem?, Outcome, ok, err, panic,
  ◌>>=◌, >>=-eq-ok, length-take, strip_prefix, eq_bytes, eq_bytes_iff, strip_prefix_sound,
  Option-cases,
}
use rylr998_rs.Base.Int.{ℤ}
use rylr998_rs.Types.{Event, Error}
use rylr998_rs.Decimal.{parse_uint, parse_i16}
use rylr998_rs.Decode.{
  max_u16, max_usize, is_comma, if_prefix, take_until_comma, parse_bytes, signals, parse_payload,
  parse_recv, parse_event,
}
use rylr998_rs.Decode.Invert.{parse_bytes-ok, take_until_comma-ok}

-- The text behind the comma at `n`.
suc-add_one : (n : ℕ) → suc (n + 1) ≡ suc n + 1
suc-add_one n = omega arith

comma_at :
    (n : ℕ) (s : Bytes) → is_comma (get_elem? s n) ≡ true → s ≡ take n s ++ b',' ∷ drop (n + 1) s
comma_at n [] h = cc
comma_at zero (c ∷ s) h = rw ((==_iff c b',').0 h)
comma_at (suc n) (c ∷ s) h =
    ap (λ t. c ∷ t) (comma_at n s h)
    ∙ ap (λ k. c ∷ (take n s ++ b',' ∷ drop k (c ∷ s))) (suc-add_one n)

panic_ne_ok : {e : Event} → ◌≡◌ {A = Outcome Error Event} panic (ok e) → ⊥
panic_ne_ok h = cc

ready_injective :
    {e : Event} → ◌≡◌ {A = Outcome Error Event} (ok Event.ready) (ok e) → e ≡ Event.ready
ready_injective h = cc

err_ne_ok : {e : Event} → ◌≡◌ {A = Outcome Error Event} (err Error.parse) (ok e) → ⊥
err_ne_ok h = cc

-- A payload of `n` bytes, a comma and the two signal values, whose texts stand for them.
record IsFramed (n : ℕ) (s : Bytes) (payload : Bytes) (rssi snr : ℤ) : Type 0 where
  rssi_text : Bytes
  snr_text : Bytes
  splits : s ≡ payload ++ (b',' ∷ (rssi_text ++ (b',' ∷ snr_text)))
  len : length payload ≡ n
  rssi_value : parse_i16 rssi_text ≡ some rssi
  snr_value : parse_i16 snr_text ≡ some snr

-- An event with its framing.
abbrev Framed : ℕ → ℕ → Bytes → Event → Type 0
Framed from n s (Event.recv f payload rssi snr) = (f ≡ from) × IsFramed n s payload rssi snr
Framed from n s Event.ready = ⊥

-- The steps of `signals` behind the comma, as functions of what they wait for.
abbrev pub with_snr : ℕ → Bytes → ℤ → ℤ → Outcome Error Event
with_snr from payload rssi snr = ok (Event.recv from payload rssi snr)

abbrev pub with_rssi : ℕ → Bytes → Bytes → ℤ → Outcome Error Event
with_rssi from payload t rssi = parse_bytes parse_i16 t >>= with_snr from payload rssi

abbrev pub with_texts : ℕ → Bytes → Bytes × Bytes → Outcome Error Event
with_texts from payload t = parse_bytes parse_i16 t.0 >>= with_rssi from payload t.1

signals-Framed :
    (from n : ℕ) (s : Bytes) (e : Event)
    → n < length s
    → is_comma (get_elem? s n) ≡ true
    → signals from n s ≡ ok e
    → Framed from n s e
unfolding signals
signals-Framed from n s e h comma r =
    let payload = take n s in
    let tail = drop (n + 1) s in
    let (t, cut, r₁) = >>=-eq-ok (take_until_comma tail) (with_texts from payload) r in
    let (rssi, a, r₂) = >>=-eq-ok (parse_bytes parse_i16 t.0) (with_rssi from payload t.1) r₁ in
    let (snr, b, r₃) = >>=-eq-ok (parse_bytes parse_i16 t.1) (with_snr from payload rssi) r₂ in
    let is_e : e ≡ Event.recv from payload rssi snr = cc in
    rw is_e (
      refl,
      record {
        rssi_text = t.0;
        snr_text = t.1;
        splits = comma_at n s comma ∙ ap (λ u. payload ++ b',' ∷ u) (take_until_comma-ok tail cut);
        len = omega (arith, length-take n s);
        rssi_value = parse_bytes-ok parse_i16 t.0 a;
        snr_value = parse_bytes-ok parse_i16 t.1 b;
      },
    )

parse_payload-Framed :
    (from n : ℕ) (s : Bytes) (e : Event) → parse_payload from n s ≡ ok e → Framed from n s e
unfolding parse_payload
parse_payload-Framed from n s e r = elim (Bool-cases (ltb max_usize (n + 1))) [
  | inl over ↦ absurd (panic_ne_ok (rw over at r))
  | inr fits ↦ elim (Bool-cases (ltb (length s) (n + 1))) [
    | inl short ↦ absurd (err_ne_ok (rw (fits, short) at r))
    | inr long ↦ elim (Bool-cases (is_comma (get_elem? s n))) [
      | inl comma ↦
          signals-Framed from n s e (omega (arith, ltb→le _ _ long)) comma
            (rw (fits, long, comma) at r)
      | inr other ↦ absurd (err_ne_ok (rw (fits, long, other) at r))
    ]
  ]
]

-- A `+RCV=` line with its four number fields: their texts stand for the values of the event, and
-- the payload has as many bytes as its declared length says.
pub record IsRecvLine (line : Bytes) (from : ℕ) (payload : Bytes) (rssi snr : ℤ) : Type 0 where
  pub from_text : Bytes
  pub len_text : Bytes
  pub rssi_text : Bytes
  pub snr_text : Bytes
  pub splits :
      line
      ≡ codes "+RCV="
        ++ (from_text
            ++ (b','
                ∷ (len_text ++ (b',' ∷ (payload ++ (b',' ∷ (rssi_text ++ (b',' ∷ snr_text))))))))
  pub from_value : parse_uint max_u16 from_text ≡ some from
  pub len_value : parse_uint max_usize len_text ≡ some (length payload)
  pub rssi_value : parse_i16 rssi_text ≡ some rssi
  pub snr_value : parse_i16 snr_text ≡ some snr

-- The line that an event was read from.
abbrev pub Explains : Bytes → Event → Type 0
Explains line Event.ready = line ≡ codes "+READY"
Explains line (Event.recv from payload rssi snr) = IsRecvLine line from payload rssi snr

explain :
    (line from_text len_text rest : Bytes) (from n : ℕ) (e : Event)
    → line ≡ codes "+RCV=" ++ (from_text ++ (b',' ∷ (len_text ++ (b',' ∷ rest))))
    → parse_uint max_u16 from_text ≡ some from
    → parse_uint max_usize len_text ≡ some n
    → Framed from n rest e
    → Explains line e
explain line from_text len_text rest from n Event.ready l f d h = absurd h
explain line from_text len_text rest from n (Event.recv g payload rssi snr) l f d (same, h) =
    record {
      from_text = from_text;
      len_text = len_text;
      rssi_text = h.rssi_text;
      snr_text = h.snr_text;
      splits =
          l ∙ ap (λ u. codes "+RCV=" ++ (from_text ++ (b',' ∷ (len_text ++ (b',' ∷ u))))) h.splits;
      from_value = f ∙ ap some (sym same);
      len_value = d ∙ ap some (sym h.len);
      rssi_value = h.rssi_value;
      snr_value = h.snr_value;
    }

-- The steps of `parse_recv`, as functions of what they wait for.
abbrev pub with_len : ℕ → Bytes → ℕ → Outcome Error Event
with_len from rest n = parse_payload from n rest

abbrev pub with_len_text : ℕ → Bytes × Bytes → Outcome Error Event
with_len_text from t = parse_bytes (parse_uint max_usize) t.0 >>= with_len from t.1

abbrev pub with_from : Bytes → ℕ → Outcome Error Event
with_from rest from = take_until_comma rest >>= with_len_text from

abbrev pub with_from_text : Bytes × Bytes → Outcome Error Event
with_from_text t = parse_bytes (parse_uint max_u16) t.0 >>= with_from t.1

parse_recv-Explains :
    (line s : Bytes) (e : Event) → line ≡ codes "+RCV=" ++ s → parse_recv s ≡ ok e → Explains line e
unfolding parse_recv
parse_recv-Explains line s e l r =
    let (t, cut, r₁) = >>=-eq-ok (take_until_comma s) with_from_text r in
    let (from, a, r₂) = >>=-eq-ok (parse_bytes (parse_uint max_u16) t.0) (with_from t.1) r₁ in
    let (u, cut', r₃) = >>=-eq-ok (take_until_comma t.1) (with_len_text from) r₂ in
    let (n, b, r₄) = >>=-eq-ok (parse_bytes (parse_uint max_usize) u.0) (with_len from u.1) r₃ in
    let first : s ≡ t.0 ++ b',' ∷ t.1 = take_until_comma-ok s cut in
    let second : t.1 ≡ u.0 ++ b',' ∷ u.1 = take_until_comma-ok t.1 cut' in
    explain line t.0 u.0 u.1 from n e
      (l ∙ ap (λ v. codes "+RCV=" ++ v) (first ∙ ap (λ v. t.0 ++ b',' ∷ v) second))
      (parse_bytes-ok (parse_uint max_u16) t.0 a) (parse_bytes-ok (parse_uint max_usize) u.0 b)
      (parse_payload-Framed from n u.1 e r₄)

-- Whatever `parse_event` accepts is a well-formed line of the event that it returns: `+READY`, or
-- `+RCV=` with numbers of the fields' types and a payload exactly as long as declared.
pub parse_event-Explains : (line : Bytes) {e : Event} → parse_event line ≡ ok e → Explains line e
unfolding parse_event if_prefix
parse_event-Explains line {e} r = elim (Bool-cases (eq_bytes line (codes "+READY"))) [
  | inl same ↦
      let is_ready : e ≡ Event.ready = ready_injective (rw same at r) in
      rw is_ready ((eq_bytes_iff line (codes "+READY")).0 same)
  | inr other ↦ elim (Option-cases (strip_prefix line (codes "+RCV="))) [
    | inl no_prefix ↦ absurd (err_ne_ok (rw (other, no_prefix) at r))
    | inr (s, found) ↦
        parse_recv-Explains line s e (strip_prefix_sound line (codes "+RCV=") found)
          (rw (other, found) at r)
  ]
]
