-- ===== src/Tool/Shell.antt =====
-- What the commands of rylr998-tool/src/commands.rs are made of: calls of the radio's methods with
-- `?`, and `println!`. What each call meets on the port and the clock is taken from a list.
use rylr998_rs.Base.{ℕ, List, [], ◌∷◌, ◌++◌, Option, Bytes, Outcome, ok, err, panic}
use rylr998_rs.Types.{RfParams, OwnedEvent}
use rylr998_rs.Radio.{Error, Radio, Round, Pumped}

-- The setting that `verify_failed` names.
pub data Field : Type 0 where
  address network_id cpin band parameters : Field

-- The error of a command: one of the library, or that of `verify_failed`, an `std::io::Error` whose
-- text names the field.
pub data Failure : Type 0 where
  library : Error → Failure
  verify_failed : Field → Failure

-- One call of a method: the time at which it takes its deadline, and what its rounds meet.
pub record Call : Type 0 where
  pub start : ℕ
  pub rounds : List Round

-- A line that a command prints, by its values: one constructor for each `println!` of a command and
-- for the `eprintln!` of `listen`.
pub data Line : Type 0 where
  ping : Bytes → Line
  address : ℕ → Line
  network_id : ℕ → Line
  band : ℕ → Line
  cpin : Bytes → Line
  parameters : RfParams → Line
  crfop : ℕ → Line
  uid : Bytes → Line
  version : Bytes → Line
  provisioned : ℕ → ℕ → Option Bytes → Option ℕ → Option RfParams → Line
  sent : Line
  event : OwnedEvent → Line

-- A command's radio, the calls still to be met, and what has been printed.
pub record Shell : Type 0 where
  pub radio : Radio
  pub calls : List Call
  pub printed : List Line

-- A command has ended, or still waits when the given calls or the rounds of one are over.
pub data Ran (A : Type 0) : Type 0 where
  finished : Outcome Failure A → Shell → Ran A
  pending : Shell → Ran A

abbrev pub Session : Type 0 → Type 0
Session A = Shell → Ran A

abbrev pub Method : Type 0 → Type 0
Method A = ℕ → List Round → Radio → Pumped A

abbrev pub pure : {A : Type 0} → A → Session A
pure a s = Ran.finished (ok a) s

abbrev pub fail : {A : Type 0} → Failure → Session A
fail e s = Ran.finished (err e) s

abbrev pub continue : {A B : Type 0} → Ran A → (A → Session B) → Ran B
continue (Ran.pending s) next = Ran.pending s
continue (Ran.finished panic s) next = Ran.finished panic s
continue (Ran.finished (err e) s) next = Ran.finished (err e) s
continue (Ran.finished (ok a) s) next = next a s

infixl 5 ◌>>=◌
abbrev pub ◌>>=◌ : {A B : Type 0} → Session A → (A → Session B) → Session B
◌>>=◌ first next s = continue (first s) next

abbrev pub print : Line → Session (Unit {0})
print line s = pure tt (record s { printed = s.printed ++ line ∷ [] })

-- The result of a call; a panic of the call is one of the command.
abbrev pub attempted : {A : Type 0} → Pumped A → List Call → List Line → Ran (Outcome Error A)
attempted (Pumped.waiting x) calls printed =
    Ran.pending (record { radio = x; calls = calls; printed = printed })
attempted (Pumped.returned (ok a) x) calls printed =
    Ran.finished (ok (ok a)) (record { radio = x; calls = calls; printed = printed })
attempted (Pumped.returned (err e) x) calls printed =
    Ran.finished (ok (err e)) (record { radio = x; calls = calls; printed = printed })
attempted (Pumped.returned panic x) calls printed =
    Ran.finished panic (record { radio = x; calls = calls; printed = printed })

abbrev pub next_call : {A : Type 0} → Method A → List Call → Shell → Ran (Outcome Error A)
next_call m [] s = Ran.pending s
next_call m (c ∷ calls) s = attempted (m c.start c.rounds s.radio) calls s.printed

-- A call of a method whose result is matched on.
abbrev pub attempt : {A : Type 0} → Method A → Session (Outcome Error A)
attempt m s = next_call m s.calls s

-- `?` on the result of a library call.
abbrev pub question : {A : Type 0} → Outcome Error A → Session A
question (ok a) s = Ran.finished (ok a) s
question (err e) s = Ran.finished (err (Failure.library e)) s
question panic s = Ran.finished panic s

-- A call of a method with `?`.
unfoldable pub call : {A : Type 0} → Method A → Session A
call m = attempt m >>= question
