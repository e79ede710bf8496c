-- ===== src/Decode/Short.antt =====
-- rylr998-core/src/decode.rs and driver.rs: the line of a response is one line and fits the line buffer.
use rylr998_rs.Base.{
  ℕ, ◌≤◌, ◌≡◌, ◌≢◌, true, ◌⊎◌, inl, inr, refl, [], ◌∷◌, ◌++◌, arith, Bytes, codes, length,
  All-append, Lacks, position-none,
}
use rylr998_rs.Types.{RfParams, Response}
use rylr998_rs.Decimal.{decimal}
use rylr998_rs.Decimal.RoundTrip.{decimal-IsDigit}
use rylr998_rs.Decimal.Bounds.{length-decimal}
use rylr998_rs.Encode.Wire.{comma, params_text}
use rylr998_rs.Encode.Fits.{length-params_text}
use rylr998_rs.Decode.{is_ascii_hexdigit, all}
use rylr998_rs.Decode.Numbers.{All-weaken}
use rylr998_rs.Decode.Text.{IsPassword, cpin_text, response_text, IsResponse}

-- A text of no more than 288 bytes with no `\r` in it.
pub record IsLine (s : Bytes) : Type 0 where
  pub one_line : Lacks b'\r' s
  pub short : length s ≤ 288

-- The identifier and the version are short enough lines; nothing is asked of the other responses.
abbrev pub IsTidy : Response → Type 0
IsTidy (Response.uid s) = Lacks b'\r' s × (length s ≤ 283)
IsTidy (Response.version s) = Lacks b'\r' s × (length s ≤ 283)
IsTidy _ = Unit

decimal-LacksReturn : (n : ℕ) → Lacks b'\r' (decimal n)
decimal-LacksReturn n = All-weaken (decimal n) (λ c h. omega arith) (decimal-IsDigit n)

hex-LacksReturn : (s : Bytes) → all is_ascii_hexdigit s ≡ true → Lacks b'\r' s
hex-LacksReturn [] h = tt
hex-LacksReturn (c ∷ s) h = ground (arith, hex-LacksReturn s)

params-LacksReturn : (p : RfParams) → Lacks b'\r' (params_text p)
params-LacksReturn p =
    joined p.sf _ (joined p.bw _ (joined p.cr _ (decimal-LacksReturn p.preamble)))
  where
    joined : (n : ℕ) (rest : Bytes) → Lacks b'\r' rest → Lacks b'\r' (decimal n ++ (comma ++ rest))
    joined n rest h =
        All-append (λ b. b ≢ b'\r') (decimal n) (comma ++ rest) (decimal-LacksReturn n)
          (omega arith, h)

labelled : (label s : Bytes) → Lacks b'\r' label → Lacks b'\r' s → Lacks b'\r' (label ++ s)
labelled = All-append (λ b. b ≢ b'\r')

-- A response's line is one line and fits the line buffer.
pub response_text-IsLine : (r : Response) → IsResponse r → IsTidy r → IsLine (response_text r)
response_text-IsLine Response.ok h t = record {
  one_line = position-none b'\r' (codes "+OK") refl;
  short = omega arith;
}
response_text-IsLine (Response.err n) h t = record {
  one_line =
      labelled (codes "+ERR=") _ (position-none b'\r' (codes "+ERR=") refl) (decimal-LacksReturn n);
  short = omega (arith, length-decimal 2 n (omega arith));
}
response_text-IsLine (Response.address n) h t = record {
  one_line =
      labelled (codes "+ADDRESS=") _ (position-none b'\r' (codes "+ADDRESS=") refl)
        (decimal-LacksReturn n);
  short = omega (arith, length-decimal 4 n (omega arith));
}
response_text-IsLine (Response.network_id n) h t = record {
  one_line =
      labelled (codes "+NETWORKID=") _ (position-none b'\r' (codes "+NETWORKID=") refl)
        (decimal-LacksReturn n);
  short = omega (arith, length-decimal 2 n (omega arith));
}
response_text-IsLine (Response.band n) h t = record {
  one_line =
      labelled (codes "+BAND=") _ (position-none b'\r' (codes "+BAND=") refl)
        (decimal-LacksReturn n);
  short = omega (arith, length-decimal 9 n (omega arith));
}
response_text-IsLine (Response.parameters p) h t = record {
  one_line =
      labelled (codes "+PARAMETER=") _ (position-none b'\r' (codes "+PARAMETER=") refl)
        (params-LacksReturn p);
  short = omega (arith, length-params_text p h);
}
response_text-IsLine (Response.crfop n) h t = record {
  one_line =
      labelled (codes "+CRFOP=") _ (position-none b'\r' (codes "+CRFOP=") refl)
        (decimal-LacksReturn n);
  short = omega (arith, length-decimal 2 n (omega arith));
}
response_text-IsLine (Response.uid s) h (t, k) = record {
  one_line = labelled (codes "+UID=") s (position-none b'\r' (codes "+UID=") refl) t;
  short = omega arith;
}
response_text-IsLine (Response.version s) h (t, k) = record {
  one_line = labelled (codes "+VER=") s (position-none b'\r' (codes "+VER=") refl) t;
  short = omega arith;
}
response_text-IsLine (Response.cpin pw) h t = password pw h
  where
    password : (pw : Bytes) → (pw ≡ []) ⊎ IsPassword pw → IsLine (codes "+CPIN=" ++ cpin_text pw)
    password [] h = record {
      one_line = position-none b'\r' (codes "+CPIN=No Password!") refl;
      short = omega arith;
    }
    password (c ∷ s) (inl e) = cc
    password (c ∷ s) (inr h) = record {
      one_line =
          labelled (codes "+CPIN=") (c ∷ s) (position-none b'\r' (codes "+CPIN=") refl)
            (hex-LacksReturn (c ∷ s) h.hex);
      short = omega (arith, h.eight);
    }
