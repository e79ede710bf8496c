-- ===== src/Driver/Queues.antt =====
-- What the helpers of rylr998-core/src/driver.rs do to the two queues, in terms of lists.
use rylr998_rs.Base.{
  ℕ, zero, suc, ◌+◌, ◌-◌, ◌≤◌, ◌≡◌, refl, sym, ap, ◌∙◌, true, inl, inr, [], ◌∷◌, ◌++◌, Option, none,
  some, arith, lt→ltb, le→leb, ==_iff, if◌then◌else◌, Bool-cases, Option-cases, Bytes, length, take,
  drop, get_elem?, length-append, length-take, length-drop, take-append, position, position-some,
  position-append, Lacks,
}
use rylr998_rs.FixedVec.{FixedVec, copy_down}
use rylr998_rs.Driver.{Driver, release, drain_rx_line, next_line_end, is_byte}

none_ne_some : {n : ℕ} → ◌≡◌ {A = Option ℕ} none (some n) → ⊥
none_ne_some h = cc

some_injective : {n m : ℕ} → ◌≡◌ {A = Option ℕ} (some n) (some m) → n ≡ m
some_injective h = cc

module _ ⦃v : FixedVec⦄ where
  -- Moving the tail down and cutting the copy off drops the front.
  truncate-copy_down :
      (n : ℕ) (xs : Bytes) → n ≤ length xs → v.truncate (copy_down n xs) (length xs - n) ≡ drop n xs
  truncate-copy_down n xs h =
      let rest = drop (length xs - n) xs in
      let len : length xs - n ≡ length (drop n xs) = omega (arith, length-drop n xs) in
      v.truncate_short (copy_down n xs) (length xs - n)
        (omega (arith, length-append (drop n xs) rest, length-drop n xs))
      ∙ ap (λ k. take k (drop n xs ++ rest)) len
      ∙ take-append (drop n xs) rest

  pub release_lem :
      (n : ℕ) (d : Driver)
      → n ≤ length d.tx
      → release n d ≡ record d { tx = drop n d.tx; tx_in_flight = d.tx_in_flight - n }
  unfolding release
  release_lem zero d h = refl
  release_lem (suc n) d h = rw (
    lt→ltb 0 (suc n) (omega arith),
    le→leb (suc n) (length d.tx) h,
    truncate-copy_down (suc n) d.tx h,
  )

  pub drain_rx_line_lem :
      (end : ℕ) (d : Driver)
      → end + 2 ≤ length d.rx
      → drain_rx_line end d ≡ record d { rx = drop (end + 2) d.rx }
  unfolding drain_rx_line
  drain_rx_line_lem end d h = rw (truncate-copy_down (end + 2) d.rx h)

drop_at_byte :
    (c : ℕ) (s : Bytes) (n : ℕ) → is_byte c (get_elem? s n) ≡ true → drop n s ≡ c ∷ drop (suc n) s
drop_at_byte c [] n h = cc
drop_at_byte c (b ∷ s) zero h = rw ((==_iff b c).0 h)
drop_at_byte c (b ∷ s) (suc n) h = drop_at_byte c s n h

line_end_at :
    (rx : Bytes) (r : ℕ) {end : ℕ}
    → position rx b'\r' ≡ some r
    → (if is_byte b'\n' (get_elem? rx (r + 1)) then some r else none) ≡ some end
    → rx ≡ take end rx ++ b'\r' ∷ b'\n' ∷ drop (end + 2) rx
line_end_at rx r {end} found h = elim (Bool-cases (is_byte b'\n' (get_elem? rx (r + 1)))) [
  | inl newline ↦
      let same : end ≡ r = some_injective (sym (rw newline at h)) in
      let next : r + 1 ≡ suc r = omega arith in
      let behind : suc (suc r) ≡ r + 2 = omega arith in
      rw same (
        position-some b'\r' rx found
        ∙ ap (λ t. take r rx ++ b'\r' ∷ t)
            (drop_at_byte b'\n' rx (suc r) (rw next at newline)
              ∙ ap (λ k. b'\n' ∷ drop k rx) behind))
  | inr other ↦ absurd (none_ne_some (rw other at h))
]

-- A line end that is found is a `\r\n` in the queue.
pub next_line_end-some :
    (rx : Bytes) {end : ℕ}
    → next_line_end rx ≡ some end
    → rx ≡ take end rx ++ b'\r' ∷ b'\n' ∷ drop (end + 2) rx
unfolding next_line_end
next_line_end-some rx {end} h = elim (Option-cases (position rx b'\r')) [
  | inl absent ↦ absurd (none_ne_some (rw (absent, next_line_end) at h))
  | inr (r, found) ↦ line_end_at rx r found (rw (found, next_line_end) at h)
]

pub next_line_end-le : (rx : Bytes) {end : ℕ} → next_line_end rx ≡ some end → end + 2 ≤ length rx
next_line_end-le rx {end} h = omega (
  arith,
  ap length (next_line_end-some rx h),
  length-append (take end rx) (b'\r' ∷ b'\n' ∷ drop (end + 2) rx),
  length-take end rx,
  length-drop (end + 2) rx,
)

pub get_elem?-behind :
    (p : Bytes) (c d : ℕ) (s : Bytes) → get_elem? (p ++ c ∷ d ∷ s) (suc (length p)) ≡ some d
get_elem?-behind [] c d s = refl
get_elem?-behind (x ∷ p) c d s = get_elem?-behind p c d s

-- A line with no `\r` ends where it is seen to end.
pub next_line_end-line :
    (line rest : Bytes)
    → Lacks b'\r' line
    → next_line_end (line ++ b'\r' ∷ b'\n' ∷ rest) ≡ some (length line)
unfolding next_line_end
next_line_end-line line rest h =
    let next : length line + 1 ≡ suc (length line) = omega arith in
    rw (
      next_line_end,
      position-append b'\r' line (b'\n' ∷ rest) h,
      next,
      get_elem?-behind line b'\r' b'\n' rest,
    )
