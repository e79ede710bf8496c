-- ===== src/Driver/Partial.antt =====
-- `next_line_end` and `poll` of rylr998-core/src/driver.rs on a line that is not complete.
use rylr998_rs.Base.{
  ℕ, suc, ◌+◌, ◌≤◌, ◌≡◌, ◌≢◌, refl, sym, ap, false, ◌∙◌, ◌⊎◌, inl, inr, [], ◌∷◌, ◌++◌, append_assoc,
  none, some, arith, le→ltb, Bytes, length, length-append, get_elem?, position, position-append,
  Lacks,
}
use rylr998_rs.Types.{Poll}
use rylr998_rs.FixedVec.{FixedVec}
use rylr998_rs.Encode.Wire.{crlf}
use rylr998_rs.Driver.{Driver, rx_capacity, is_empty, next_line_end, push_rx}
use rylr998_rs.Driver.Turns.{done, poll_line, poll_turn, poll}
use rylr998_rs.Driver.Queues.{get_elem?-behind}
use rylr998_rs.Driver.Operations.{push_rx_fits}
use rylr998_rs.Driver.Lines.{poll_done}

-- There is no `\r`, or the first one is the last byte.
abbrev HasNoEnd : Bytes → Type 0
HasNoEnd rx =
    (position rx b'\r' ≡ none)
    ⊎ ((r : ℕ) × (position rx b'\r' ≡ some r) × (get_elem? rx (suc r) ≡ none))

HasNoEnd-cons : (x : ℕ) (rx : Bytes) → x ≢ b'\r' → HasNoEnd rx → HasNoEnd (x ∷ rx)
HasNoEnd-cons x rx h (inl absent) = inl (ground arith)
HasNoEnd-cons x rx h (inr (r, found, last)) = inr (suc r, ground arith, last)

heads : {x y : ℕ} {xs ys : Bytes} → ◌≡◌ {A = Bytes} (x ∷ xs) (y ∷ ys) → x ≡ y
heads e = cc

tails : {x y : ℕ} {xs ys : Bytes} → ◌≡◌ {A = Bytes} (x ∷ xs) (y ∷ ys) → xs ≡ ys
tails e = cc

prefix-HasNoEnd :
    (line rx : Bytes) (c : ℕ) (more : Bytes)
    → Lacks b'\r' line
    → rx ++ c ∷ more ≡ line ++ crlf
    → HasNoEnd rx
prefix-HasNoEnd line [] c more h e = inl refl
prefix-HasNoEnd [] (x ∷ []) c more h e = inr (0, ground (arith, heads e), refl)
prefix-HasNoEnd [] (x ∷ y ∷ rx) c more h e =
    absurd (omega (arith, ap length e, length-append rx (c ∷ more)))
prefix-HasNoEnd (l ∷ line) (x ∷ rx) c more (hl, h) e =
    HasNoEnd-cons x rx (λ k. hl (sym (heads e) ∙ k)) (prefix-HasNoEnd line rx c more h (tails e))

-- A proper prefix of a line and its end has no line end.
pub next_line_end-prefix :
    (line rx : Bytes) (c : ℕ) (more : Bytes)
    → Lacks b'\r' line
    → rx ++ c ∷ more ≡ line ++ crlf
    → next_line_end rx ≡ none
unfolding next_line_end
next_line_end-prefix line rx c more h e = no_end (prefix-HasNoEnd line rx c more h e)
  where
    no_end : HasNoEnd rx → next_line_end rx ≡ none
    no_end (inl absent) = rw (next_line_end, absent) refl
    no_end (inr (r, found, last)) =
        let next : r + 1 ≡ suc r = omega arith in rw (next_line_end, found, next, last) refl

-- A `\r` that no `\n` follows is no line end, and hides those behind it.
pub next_line_end-return :
    (line : Bytes) (c : ℕ) (rest : Bytes)
    → Lacks b'\r' line
    → c ≢ b'\n'
    → next_line_end (line ++ b'\r' ∷ c ∷ rest) ≡ none
unfolding next_line_end
next_line_end-return line c rest h other =
    let next : length line + 1 ≡ suc (length line) = omega arith in
    rw
      (
        next_line_end,
        position-append b'\r' line (c ∷ rest) h,
        next,
        get_elem?-behind line b'\r' c rest,
      )
      (ground arith)

pub is_empty-append : (line : Bytes) (c : ℕ) (rest : Bytes) → is_empty (line ++ c ∷ rest) ≡ false
is_empty-append [] c rest = refl
is_empty-append (b ∷ line) c rest = refl

module _ ⦃v : FixedVec⦄ where
  pub no_line_turn :
      (d : Driver)
      → d.tx_in_flight ≡ length d.tx
      → next_line_end d.rx ≡ none
      → poll_turn d ≡ done d Poll.idle
  unfolding poll_turn poll_line
  no_line_turn d sent none_yet =
      rw (le→ltb d.tx_in_flight (length d.tx) (omega arith), none_yet) (ground arith)

  -- With nothing to hand out and no line end `poll` is `Idle`, and changes nothing.
  pub poll-no_line :
      (d : Driver)
      → d.tx_in_flight ≡ length d.tx
      → next_line_end d.rx ≡ none
      → poll d ≡ done d Poll.idle
  poll-no_line d sent none_yet = poll_done d (no_line_turn d sent none_yet)

  -- If the first `\r` in the received bytes has a byte behind it that is no `\n`, it is never
  -- passed: with nothing to hand out, after any further bytes that fit `poll` is `Idle` and leaves
  -- everything received.
  pub push_rx-return :
      (line : Bytes) (c : ℕ) (rest more : Bytes) (d : Driver)
      → d.tx_in_flight ≡ length d.tx
      → d.rx ≡ line ++ b'\r' ∷ c ∷ rest
      → Lacks b'\r' line
      → c ≢ b'\n'
      → length d.rx + length more ≤ rx_capacity
      → (poll (push_rx more d).1 ≡ done (push_rx more d).1 Poll.idle)
        × ((push_rx more d).1.rx ≡ line ++ b'\r' ∷ c ∷ (rest ++ more))
  push_rx-return line c rest more d sent received h other fit =
      let pushed = ap (λ o. o.1) (push_rx_fits more d fit) in
      let rx =
        ap (λ e. e.rx) pushed
        ∙ ap (λ s. s ++ more) received
        ∙ append_assoc line (b'\r' ∷ c ∷ rest) more in
      (
        poll-no_line (push_rx more d).1
            (ap (λ e. e.tx_in_flight) pushed ∙ sent ∙ ap length (sym (ap (λ e. e.tx) pushed)))
            (ap next_line_end rx ∙ next_line_end-return line c (rest ++ more) h other),
        rx,
      )
