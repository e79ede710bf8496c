-- ===== src/Embassy/Smoke.antt =====
-- rylr998-embassy/examples/pico_smoke.rs: the smoke test on a Pico. The program's actions on the
-- console, the LED and the timer are a list; what the UART of the radio and the clock answer to each
-- call of a method is an argument.
pub mod Listening
pub mod Running
pub mod Lines
use rylr998_rs.Base.{
  ℕ, zero, suc, Bool, true, false, List, [], ◌∷◌, ◌++◌, Option, none, some, map, if◌then◌else◌,
  Bytes, length, codes, Outcome, ok, err, panic,
}
use rylr998_rs.Base.Int.{ℤ, pos, negsuc}
use rylr998_rs.Types.{Event}
use rylr998_rs.Utf8.{valid_utf8}
use rylr998_rs.Decimal.{decimal}
use rylr998_rs.FixedVec.{FixedVec}
use rylr998_rs.Embassy.{UartRadio, UartRound, UartPumped, new_radio}
use rylr998_rs.Embassy.Methods.{ping, set_address, next_event}

-- `print_line` is a call of `logln`, whose errors are dropped.
pub data Action : Type 0 where
  print_line : Bytes → Action
  set_high : Action
  set_low : Action
  after_millis : ℕ → Action

-- One call of a method: the time at which it takes its deadline, and what its rounds meet.
pub record UartCall : Type 0 where
  pub start : ℕ
  pub rounds : List UartRound

-- The program never returns: it waits in a call, or it has panicked.
pub data Smoke : Type 0 where
  running : UartRadio → List Action → Smoke
  panicked : UartRadio → List Action → Smoke

-- The result of `is_ok` on what a call returns.
pub data Asked : Type 0 where
  told_that : Bool → UartRadio → Asked
  failed : UartRadio → Asked
  waits : UartRadio → Asked

abbrev pub is_ok : {R : Type 0} → UartPumped R → Asked
is_ok (UartPumped.returned (ok a) y) = told_that true y
is_ok (UartPumped.returned (err e) y) = told_that false y
is_ok (UartPumped.returned panic y) = failed y
is_ok (UartPumped.waiting y) = waits y

-- The body of a `for _ in 0..n`.
abbrev pub for_times : ℕ → List Action → List Action
for_times zero body = []
for_times (suc n) body = body ++ for_times n body

abbrev pub blink : ℕ → List Action
blink ms = set_high ∷ after_millis ms ∷ set_low ∷ after_millis ms ∷ []

-- The two branches of `if ping_ok && set_ok`.
abbrev pub report : Bool → List Action
report true =
    print_line (codes "ping + set_address ok")
    ∷ (for_times 3 (blink 500) ++ (blink 2000 ++ for_times 3 (blink 100)))
report false =
    print_line (codes "ping or set_address FAILED")
    ∷ (for_times 3 (blink 400) ++ (after_millis 2000 ∷ for_times 3 (blink 400)))

-- The strings that the `Display` of an integer writes: the sign on its own.
abbrev pub signed : ℤ → List Bytes
signed (pos n) = decimal n ∷ []
signed (negsuc n) = codes "-" ∷ decimal (suc n) ∷ []

-- The strings that the first `write!` of a `Recv` writes.
abbrev pub summary : ℕ → Bytes → ℤ → ℤ → List Bytes
summary from payload rssi snr =
    codes "recv from="
    ∷ decimal from
    ∷ codes " rssi="
    ∷ (signed rssi
        ++ codes " snr="
          ∷ (signed snr ++ codes " len=" ∷ decimal (length payload) ∷ codes " data=" ∷ []))

-- The capacity of `String<160>`.
abbrev pub message_capacity : ℕ
message_capacity = 160

-- `quoted` gives the strings that `{:?}` writes for a string, one behind the other.
module _ ⦃v : FixedVec⦄ (quoted : Bytes → List Bytes) where
  abbrev written_on : (Bytes → Bytes) → Bytes → Option Bytes → Bytes
  written_on rest s none = s
  written_on rest s (some t) = rest t

  -- `let _ = write!(line, ...)`: a string that does not fit is left out with those behind it.
  unfoldable pub write_all : List Bytes → Bytes → Bytes
  write_all [] s = s
  write_all (p ∷ ps) s = written_on (write_all ps) s (v.extend_from_slice message_capacity s p)

  -- What the `match` on `from_utf8(data)` writes.
  abbrev pub shown : Bytes → List Bytes
  shown payload =
      if valid_utf8 payload
      then quoted payload
      else codes "<" ∷ decimal (length payload) ∷ codes " bytes non-utf8>" ∷ []

  -- The line that the closure of `next_event` prints for an event.
  unfoldable pub event_line : Event → Bytes
  event_line (Event.recv from payload rssi snr) =
      write_all (shown payload) (write_all (summary from payload rssi snr) [])
  event_line Event.ready = codes "event: ready"

  abbrev pub printed : List Event → List Action
  printed es = map (λ e. print_line (event_line e)) es

  -- The loop: each call prints what its closure is told and returns nothing.
  unfoldable pub listen_loop : List UartCall → UartRadio → List Action → Smoke
  listen_loop [] x actions = running x actions
  listen_loop (c ∷ calls) x actions =
      elim (next_event {R = Unit {0}} 60000 c.start (λ e. none) c.rounds (record x { told = [] })) [
        | UartPumped.waiting y ↦ running y (actions ++ printed y.told)
        | UartPumped.returned panic y ↦ panicked y (actions ++ printed y.told)
        | UartPumped.returned (ok u) y ↦ listen_loop calls y (actions ++ printed y.told)
        | UartPumped.returned (err e) y ↦ listen_loop calls y (actions ++ printed y.told)
      ]

  -- From `if ping_ok && set_ok` on.
  abbrev pub reported_then : List UartCall → List Action → Bool → UartRadio → Smoke
  reported_then calls actions good x =
      listen_loop calls x (actions ++ (report good ++ print_line (codes "listening") ∷ []))

  abbrev pub set_then : List UartCall → List Action → Asked → Smoke
  set_then calls actions (told_that good y) = reported_then calls actions good y
  set_then calls actions (failed y) = panicked y actions
  set_then calls actions (waits y) = running y actions

  -- `set_address` is called only if `ping` was answered.
  abbrev pub pinged_then : UartCall → List UartCall → List Action → Asked → Smoke
  pinged_then set calls actions (told_that true y) =
      set_then calls actions (is_ok (set_address 5 set.start set.rounds y))
  pinged_then set calls actions (told_that false y) = reported_then calls actions false y
  pinged_then set calls actions (failed y) = panicked y actions
  pinged_then set calls actions (waits y) = running y actions

  -- `main`.
  unfoldable pub main : UartCall → UartCall → List UartCall → Smoke
  main first set calls =
      pinged_then set calls
        (print_line (codes "boot") ∷ print_line (codes "radio initialized") ∷ [])
        (is_ok (ping first.start first.rounds new_radio))
