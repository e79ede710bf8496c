-- ===== src/Base/Search.antt =====
-- The first place of a byte in a text.
use Prim.Native.Nat.{ℕ, suc}
use mathlib.Core.Path.{◌≡◌, ap}
use mathlib.Core.Logic.{◌≢◌, inl, inr}
use mathlib.Core.List.{[], ◌∷◌, ◌++◌}
use mathlib.Core.Option.{some, none}
use native.Mathlib.Omega.{arith}
use rylr998_rs.Base.Tests.{◌==◌, ==_iff, Bool-cases, Option-cases}
use rylr998_rs.Base.Lists.{Bytes, length, take, drop, position, All}

-- A text without the byte `c`.
abbrev pub Lacks : ℕ → Bytes → Type 0
Lacks c = All (λ b. b ≢ c)

pub position-append : (c : ℕ) (p s : Bytes) → Lacks c p → position (p ++ c ∷ s) c ≡ some (length p)
position-append c [] s h = ground arith
position-append c (b ∷ p) s (hb, hp) = ground (arith, position-append c p s hp)

-- The first place of the byte splits the text.
pub position-some :
    (c : ℕ) (s : Bytes) {i : ℕ} → position s c ≡ some i → s ≡ take i s ++ c ∷ drop (suc i) s
position-some c [] h = cc
position-some c (b ∷ s) {i} h = elim (Bool-cases (b == c)) [
  | inl e ↦ let first : i ≡ 0 = ground arith in rw (first, (==_iff b c).0 e)
  | inr e ↦ elim (Option-cases (position s c)) [
    | inl none_left ↦ ground arith
    | inr (j, found) ↦
        let later : i ≡ suc j = ground arith in rw later (ap (λ t. b ∷ t) (position-some c s found))
  ]
]

-- A byte that is found nowhere is absent.
pub position-none : (c : ℕ) (s : Bytes) → position s c ≡ none → Lacks c s
position-none c [] h = tt
position-none c (b ∷ s) h = elim (Bool-cases (b == c)) [
  | inl e ↦ ground arith
  | inr e ↦ elim (Option-cases (position s c)) [
    | inl absent ↦ ground (arith, position-none c s absent)
    | inr (j, found) ↦ ground arith
  ]
]

-- Before the first place of the byte there is none.
pub position-Lacks : (c : ℕ) (s : Bytes) {i : ℕ} → position s c ≡ some i → Lacks c (take i s)
position-Lacks c [] h = cc
position-Lacks c (b ∷ s) {i} h = elim (Bool-cases (b == c)) [
  | inl e ↦ let first : i ≡ 0 = ground arith in rw first tt
  | inr e ↦ elim (Option-cases (position s c)) [
    | inl none_left ↦ ground arith
    | inr (j, found) ↦
        let later : i ≡ suc j = ground arith in
        rw later (λ k. ground arith, position-Lacks c s found)
  ]
]
