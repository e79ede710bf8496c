-- ===== src/Base/Result.antt =====
-- A `Result` whose computation may also panic: an index or a slice out of range, or an addition
-- that overflows. `panic` is an outcome of its own, so that its absence can be proved.
use mathlib.Core.Path.{◌≡◌, refl}
use mathlib.Core.Logic.{◌⊎◌, inl, inr}
use mathlib.Core.Option.{Option, none, some}

pub data Outcome (E A : Type 0) : Type 0 where
  ok : A → Outcome E A
  err : E → Outcome E A
  panic : Outcome E A

-- `?` passes an error on; a panic unwinds past everything.
infixl 5 ◌>>=◌
abbrev pub ◌>>=◌ : {E A B : Type 0} → Outcome E A → (A → Outcome E B) → Outcome E B
panic >>= next = panic
err e >>= next = err e
ok a >>= next = next a

-- `o.ok_or(e)`.
abbrev pub ok_or : {E A : Type 0} → Option A → E → Outcome E A
ok_or none e = err e
ok_or (some a) e = ok a

module _ {E A B : Type 0} where
  -- The first step returned a value, on which the second ended in `out`.
  abbrev pub Continues : Outcome E A → (A → Outcome E B) → Outcome E B → Type 0
  Continues first second out = (x : A) × (first ≡ ok x) × (second x ≡ out)

  -- A value of a chain comes from its second step.
  pub >>=-eq-ok :
      (first : Outcome E A) (second : A → Outcome E B) {y : B}
      → (first >>= second) ≡ ok y
      → Continues first second (ok y)
  >>=-eq-ok panic second e = cc
  >>=-eq-ok (err _) second e = cc
  >>=-eq-ok (ok x) second e = (x, refl, e)

  -- A panic of a chain comes from either step.
  pub >>=-eq-panic :
      (first : Outcome E A) (second : A → Outcome E B)
      → (first >>= second) ≡ panic
      → (first ≡ panic) ⊎ Continues first second panic
  >>=-eq-panic panic second e = inl refl
  >>=-eq-panic (err _) second e = cc
  >>=-eq-panic (ok x) second e = inr (x, refl, e)
