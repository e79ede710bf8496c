-- ===== src/Driver/Panics.antt =====
-- When `poll` of rylr998-core/src/driver.rs panics.
use rylr998_rs.Base.{
  ℕ, zero, suc, ◌+◌, ◌<◌, ◌≡◌, refl, sym, ap, ◌∙◌, subst, Bool, true, false, ◌&&◌, ◌||◌, ◌⊎◌, inl,
  inr, List, [], ◌∷◌, ◌++◌, All, Option, none, some, arith, ltb, ltb→lt, ltb→le, Bool-cases,
  Option-cases, if◌then◌else◌, Bytes, codes, length, length-take, take, drop, Lacks, position,
  position-Lacks, get_elem?, starts_with, eq_bytes, Outcome, ok, err, panic,
}
use rylr998_rs.Types.{Event, Response, Poll, Error}
use rylr998_rs.FixedVec.{FixedVec}
use rylr998_rs.Encode.Wire.{crlf}
use rylr998_rs.Decode.{parse_event, parse_response}
use rylr998_rs.Decode.Bounds.{Ensures, parse_response-Ensures}
use rylr998_rs.Decode.Text.{IsResponse}
use rylr998_rs.Decode.Panics.{IsHuge, parse_event-panic_iff}
use rylr998_rs.Driver.{Driver, line_capacity, next_line_end, is_byte, state_matches}
use rylr998_rs.Driver.Turns.{
  Turn, done, again, fault, resolve, event_turn, response_turn, poll_turn, poll_loop, poll,
}
use rylr998_rs.Driver.Queues.{next_line_end-some, next_line_end-le}
use rylr998_rs.Driver.Invariant.{IsValid}
use rylr998_rs.Driver.Polling.{Keeps, poll_turn-Keeps}
use rylr998_rs.Driver.Blocked.{long_line_turn}
use rylr998_rs.Driver.Lines.{poll_turn-need_tx, consumed, loaded, line_turn, poll_turn-line}
use rylr998_rs.Driver.Partial.{no_line_turn}

-- A line that `poll` cannot take: it is longer than the line buffer, or `parse_event` panics on it.
abbrev pub IsFatal : Bytes → Type 0
IsFatal line = (line_capacity < length line) ⊎ IsHuge line

-- An intermediate line of a factory reset.
abbrev pub IsReset : Bytes → Type 0
IsReset line = Lacks b'\r' line × (starts_with line (codes "+RESET") ≡ true)

-- These lines, one behind the other, and then this text.
abbrev pub lines_then : List Bytes → Bytes → Bytes
lines_then [] rest = rest
lines_then (line ∷ lines) rest = line ++ (crlf ++ lines_then lines rest)

-- Behind `+RESET` lines, if there are any, such a line is the next one in the received bytes.
pub record HasFatal (rx : Bytes) : Type 0 where
  pub resets : List Bytes
  pub line : Bytes
  pub rest : Bytes
  pub are_resets : All IsReset resets
  pub splits : rx ≡ lines_then resets (line ++ (crlf ++ rest))
  pub one_line : Lacks b'\r' line
  pub fatal : IsFatal line

-- What a turn shows of the received bytes: it goes on behind a `+RESET` line, or a line is fatal.
abbrev Shows : Bytes → Turn → Type 0
Shows rx (done d p) = Unit
Shows rx (again d) = (line : Bytes) × IsReset line × (rx ≡ line ++ (crlf ++ d.rx))
Shows rx fault = HasFatal rx

-- Behind one more `+RESET` line the same line is fatal.
HasFatal-behind :
    (rx line tail : Bytes)
    → IsReset line
    → rx ≡ line ++ (crlf ++ tail)
    → HasFatal tail
    → HasFatal rx
HasFatal-behind rx line tail reset e h = record {
  resets = line ∷ h.resets;
  line = h.line;
  rest = h.rest;
  are_resets = (reset, h.are_resets);
  splits = e ∙ ap (λ t. line ++ (crlf ++ t)) h.splits;
  one_line = h.one_line;
  fatal = h.fatal;
}

next_line_end-Lacks :
    (rx : Bytes) {end : ℕ} → next_line_end rx ≡ some end → Lacks b'\r' (take end rx)
unfolding next_line_end
next_line_end-Lacks rx {end} h = elim (Option-cases (position rx b'\r')) [
  | inl absent ↦ absurd (none_ne_some (rw (absent, next_line_end) at h))
  | inr (r, found) ↦ at_return r found (rw (found, next_line_end) at h)
]
  where
    none_ne_some : {n : ℕ} → ◌≡◌ {A = Option ℕ} none (some n) → ⊥
    none_ne_some h = cc

    some_injective : {n m : ℕ} → ◌≡◌ {A = Option ℕ} (some n) (some m) → n ≡ m
    some_injective h = cc

    at_return :
        (r : ℕ)
        → position rx b'\r' ≡ some r
        → (if is_byte b'\n' (get_elem? rx (r + 1)) then some r else none) ≡ some end
        → Lacks b'\r' (take end rx)
    at_return r found h = elim (Bool-cases (is_byte b'\n' (get_elem? rx (r + 1)))) [
      | inl newline ↦
          let same : end ≡ r = sym (some_injective (rw newline at h)) in
          rw same (position-Lacks b'\r' rx found)
      | inr other ↦ absurd (none_ne_some (rw other at h))
    ]

response_turn-Shows :
    (rx : Bytes) (d : Driver) (o : Outcome Error Response)
    → Ensures IsResponse o
    → Shows rx (response_turn d o)
response_turn-Shows rx d (ok r) h = tt
response_turn-Shows rx d (err e) h = tt
response_turn-Shows rx d panic h = absurd h

event_turn-Shows :
    (rx : Bytes) (d : Driver) (o : Outcome Error Event)
    → (o ≡ panic → HasFatal rx)
    → Shows rx (event_turn d o)
event_turn-Shows rx d (ok r) h = tt
event_turn-Shows rx d (err e) h = tt
event_turn-Shows rx d panic h = h refl

if_true-Shows :
    (rx : Bytes) (b : Bool) (t u : Turn)
    → (b ≡ true → Shows rx t)
    → Shows rx u
    → Shows rx (if b then t else u)
if_true-Shows rx true t u h k = h refl
if_true-Shows rx false t u h k = k

and_right : (a b : Bool) → a && b ≡ true → b ≡ true
and_right true b h = h
and_right false b h = cc

if-Shows :
    (rx : Bytes) (b : Bool) (t u : Turn) → Shows rx t → Shows rx u → Shows rx (if b then t else u)
if-Shows rx true t u h k = h
if-Shows rx false t u h k = k

line_turn-Shows :
    (line rest : Bytes) (d : Driver)
    → d.rx ≡ line ++ (crlf ++ rest)
    → Lacks b'\r' line
    → Shows d.rx (line_turn line rest d)
line_turn-Shows line rest d e one_line =
    let c = consumed line rest d in
    let is_event = starts_with line (codes "+RCV") || starts_with line (codes "+READY") in
    let is_ready = d.awaiting_ready_as_ok && eq_bytes line (codes "+READY") in
    let on_ready = done (resolve c) (Poll.response Response.ok) in
    let on_event = event_turn c (parse_event line) in
    let on_answer = response_turn (resolve c) (parse_response line) in
    let stays = done (loaded line d) Poll.idle in
    let events = if is_ready then on_ready else on_event in
    let answers = if state_matches d.state line then on_answer else stays in
    let fatal_event : Shows d.rx on_event = event_turn-Shows d.rx c (parse_event line) (λ p.
      record {
        resets = [];
        line = line;
        rest = rest;
        are_resets = tt;
        splits = e;
        one_line = one_line;
        fatal = inr ((parse_event-panic_iff line).0 p);
      }) in
    let no_panic : Shows d.rx on_answer =
      response_turn-Shows d.rx (resolve c) (parse_response line) (parse_response-Ensures line) in
    let is_reset = starts_with line (codes "+RESET") in
    if_true-Shows d.rx (d.awaiting_ready_as_ok && is_reset) (again c)
      (if is_event then events else answers)
      (λ b. (line, (one_line, and_right d.awaiting_ready_as_ok is_reset b), e))
      (if-Shows d.rx is_event events answers
        (if-Shows d.rx is_ready on_ready on_event tt fatal_event)
        (if-Shows d.rx (state_matches d.state line) on_answer stays no_panic tt))

module _ ⦃v : FixedVec⦄ where
  seen_line :
      (d : Driver) (end : ℕ)
      → d.tx_in_flight ≡ length d.tx
      → next_line_end d.rx ≡ some end
      → Shows d.rx (poll_turn d)
  seen_line d end sent found =
      let line = take end d.rx in
      let rest = drop (end + 2) d.rx in
      let whole : d.rx ≡ line ++ (crlf ++ rest) = next_line_end-some d.rx found in
      let len : length line ≡ end =
        omega (arith, length-take end d.rx, next_line_end-le d.rx found) in
      elim (Bool-cases (ltb line_capacity end)) [
        | inl long ↦
            subst (λ t. Shows d.rx t)
              (sym (
                long_line_turn line rest d sent whole (next_line_end-Lacks d.rx found)
                  (omega (arith, len, ltb→lt _ _ long))))
              (record {
                resets = [];
                line = line;
                rest = rest;
                are_resets = tt;
                splits = whole;
                one_line = next_line_end-Lacks d.rx found;
                fatal = inl (omega (arith, len, ltb→lt _ _ long));
              })
        | inr short ↦
            subst (λ t. Shows d.rx t)
              (sym (
                poll_turn-line line rest d (record {
                  quiet = sent;
                  received = whole;
                  one_line = next_line_end-Lacks d.rx found;
                  short = omega (arith, len, ltb→le _ _ short);
                })))
              (line_turn-Shows line rest d whole (next_line_end-Lacks d.rx found))
      ]

  poll_turn-Shows : (d : Driver) → IsValid d → Shows d.rx (poll_turn d)
  poll_turn-Shows d h = elim (Bool-cases (ltb d.tx_in_flight (length d.tx))) [
    | inl more ↦ subst (λ t. Shows d.rx t) (sym (poll_turn-need_tx d (ltb→lt _ _ more))) tt
    | inr sent ↦ elim (Option-cases (next_line_end d.rx)) [
      | inl none_yet ↦
          subst (λ t. Shows d.rx t)
            (sym (no_line_turn d (omega (arith, h.in_flight, ltb→le _ _ sent)) none_yet)) tt
      | inr (end, found) ↦ seen_line d end (omega (arith, h.in_flight, ltb→le _ _ sent)) found
    ]
  ]

  after :
      (fuel : ℕ) (rx : Bytes) (n : ℕ) (t : Turn)
      → Keeps n t
      → Shows rx t
      → ((d : Driver) → IsValid d → poll_loop fuel d ≡ fault → HasFatal d.rx)
      → ◌≡◌ {A = Turn}
          (elim t [ done d p ↦ done d p | again d ↦ poll_loop fuel d | fault ↦ fault ])
          fault
      → HasFatal rx
  after fuel rx n (done d p) k s f e = cc
  after fuel rx n (again d) (h, fewer) (line, reset, split) f e =
      HasFatal-behind rx line d.rx reset split (f d h e)
  after fuel rx n fault k s f e = s

  poll_loop-fault : (fuel : ℕ) (d : Driver) → IsValid d → poll_loop fuel d ≡ fault → HasFatal d.rx
  unfolding poll_loop
  poll_loop-fault zero d h e = cc
  poll_loop-fault (suc fuel) d h e =
      after fuel d.rx (length d.rx) (poll_turn d) (poll_turn-Keeps d h) (poll_turn-Shows d h)
        (λ d' k e'. poll_loop-fault fuel d' k e') e

  -- `poll` on a valid driver panics only if the next line of the received bytes, behind `+RESET`
  -- lines if there are any, is longer than the line buffer, or is a `+RCV=` line that declares a
  -- payload of 2^64 - 1 bytes.
  pub poll-HasFatal : (d : Driver) → IsValid d → poll d ≡ fault → HasFatal d.rx
  unfolding poll
  poll-HasFatal d h e = poll_loop-fault (suc (length d.rx)) d h e
