-- ===== src/Embassy/Smoke/Lines.antt =====
-- The line that rylr998-embassy/examples/pico_smoke.rs prints for an event, and its buffer of 160
-- bytes.
use rylr998_rs.Base.{
  ℕ, suc, ◌+◌, ◌≤◌, ◌≡◌, refl, sym, ap, ◌∙◌, append-nil, append_assoc, List, [], ◌∷◌, ◌++◌, inl,
  inr, Bool-cases, ltb, ltb→lt, ltb→le, arith, Bytes, length, length-append, codes,
}
use rylr998_rs.Base.Int.{ℤ, pos, negsuc, IsI16}
use rylr998_rs.Types.{Event}
use rylr998_rs.FixedVec.{FixedVec}
use rylr998_rs.Decimal.{decimal}
use rylr998_rs.Decimal.Bounds.{length-decimal}
use rylr998_rs.Decode.Text.{IsEvent}
use rylr998_rs.Embassy.Smoke.{
  message_capacity, signed, summary, shown, written_on, write_all, event_line,
}

-- Strings, one behind the other.
abbrev pub joined : List Bytes → Bytes
joined [] = []
joined (p ∷ ps) = p ++ joined ps

joined-append : (ps qs : List Bytes) → joined (ps ++ qs) ≡ joined ps ++ joined qs
joined-append [] qs = refl
joined-append (p ∷ ps) qs =
    ap (λ s. p ++ s) (joined-append ps qs) ∙ sym (append_assoc p (joined ps) (joined qs))

length-signed : (z : ℤ) → IsI16 z → length (joined (signed z)) ≤ 6
length-signed (pos n) h =
    omega (arith, length-append (decimal n) [], length-decimal 4 n (omega arith))
length-signed (negsuc n) h =
    omega (arith, length-append (decimal (suc n)) [], length-decimal 4 (suc n) (omega arith))

length-summary :
    (from : ℕ) (payload : Bytes) (rssi snr : ℤ)
    → IsEvent (Event.recv from payload rssi snr)
    → length (joined (summary from payload rssi snr)) ≤ 80
length-summary from payload rssi snr h =
    let size = decimal (length payload) ++ (codes " data=" ++ []) in
    let behind = codes " len=" ++ size in
    let middle =
      codes " snr="
      ∷ (signed snr ++ codes " len=" ∷ decimal (length payload) ∷ codes " data=" ∷ []) in
    omega (
      arith,
      length-append (decimal from) (codes " rssi=" ++ joined (signed rssi ++ middle)),
      ap length (joined-append (signed rssi) middle),
      length-append (joined (signed rssi)) (joined middle),
      ap length (
          joined-append (signed snr)
            (codes " len=" ∷ decimal (length payload) ∷ codes " data=" ∷ [])),
      length-append (joined (signed snr)) behind,
      length-append (decimal (length payload)) (codes " data=" ++ []),
      length-decimal 4 from (omega (arith, h.0)),
      length-decimal 19 (length payload) (omega (arith, h.1)),
      length-signed rssi h.2,
      length-signed snr h.3,
    )

module _ ⦃v : FixedVec⦄ (quoted : Bytes → List Bytes) where
  -- Strings that fit are all written.
  pub write_all-fits :
      (ps : List Bytes) (s : Bytes)
      → length s + length (joined ps) ≤ message_capacity
      → write_all quoted ps s ≡ s ++ joined ps
  unfolding write_all
  write_all-fits [] s fit = sym (append-nil s)
  write_all-fits (p ∷ ps) s fit =
      ap (written_on quoted (write_all quoted ps) s)
        (v.extend_fits message_capacity s p (omega (arith, length-append p (joined ps))))
      ∙ write_all-fits ps (s ++ p) (omega (arith, length-append p (joined ps), length-append s p))
      ∙ append_assoc s p (joined ps)

  -- A buffer within its capacity stays there, and takes a first part of the strings.
  write_all-part :
      (ps : List Bytes) (s : Bytes)
      → length s ≤ message_capacity
      → (t u : Bytes) × (write_all quoted ps s ≡ s ++ t)
        × (joined ps ≡ t ++ u)
        × (length (write_all quoted ps s) ≤ message_capacity)
  unfolding write_all
  write_all-part [] s fit = ([], [], sym (append-nil s), refl, fit)
  write_all-part (p ∷ ps) s fit = elim (Bool-cases (ltb message_capacity (length s + length p))) [
    | inl over ↦
        let e =
          ap (written_on quoted (write_all quoted ps) s)
            (v.extend_full message_capacity s p (ltb→lt _ _ over)) in
        ([], p ++ joined ps, e ∙ sym (append-nil s), refl, omega (arith, ap length e))
    | inr room ↦
        let e =
          ap (written_on quoted (write_all quoted ps) s)
            (v.extend_fits message_capacity s p (ltb→le _ _ room)) in
        let (t, u, all, parts, short) =
          write_all-part ps (s ++ p) (omega (arith, length-append s p, ltb→le _ _ room)) in
        (
          p ++ t,
          u,
          e ∙ all ∙ append_assoc s p t,
          ap (λ r. p ++ r) parts ∙ sym (append_assoc p t u),
          omega (arith, ap length e, short),
        )
  ]

  -- The line of a well-typed `Recv` has at most 160 bytes: all of the summary, and then a first part
  -- of what is to be written for the payload.
  pub event_line-part :
      (from : ℕ) (payload : Bytes) (rssi snr : ℤ)
      → IsEvent (Event.recv from payload rssi snr)
      → (t u : Bytes) × (event_line quoted (Event.recv from payload rssi snr)
          ≡ joined (summary from payload rssi snr) ++ t)
        × (joined (shown quoted payload) ≡ t ++ u)
        × (length (event_line quoted (Event.recv from payload rssi snr)) ≤ 160)
  unfolding event_line
  event_line-part from payload rssi snr h =
      let k = length-summary from payload rssi snr h in
      let first = write_all-fits (summary from payload rssi snr) [] (omega (arith, k)) in
      let e = ap (write_all quoted (shown quoted payload)) first in
      let (t, u, all, parts, short) =
        write_all-part (shown quoted payload) (joined (summary from payload rssi snr))
          (omega (arith, k)) in
      (t, u, e ∙ all, parts, omega (arith, ap length e, short))
