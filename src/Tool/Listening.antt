-- ===== src/Tool/Listening.antt =====
-- `listen` of rylr998-tool/src/commands.rs.
use rylr998_rs.Base.{
  ℕ, ◌+◌, ◌≤◌, ◌<◌, ◌≡◌, refl, sym, ap, ◌∙◌, Bool, true, false, List, [], ◌∷◌, ◌++◌, append_assoc,
  append-nil, map, All, Outcome, ok, err, panic,
}
use rylr998_rs.Types.{Event, OwnedEvent, into_owned}
use rylr998_rs.FixedVec.{FixedVec}
use rylr998_rs.Encode.Wire.{crlf}
use rylr998_rs.Decode.Text.{event_text}
use rylr998_rs.Radio.{Error, Pumped}
use rylr998_rs.Radio.Methods.{next_event}
use rylr998_rs.Radio.Answering.{reads}
use rylr998_rs.Radio.Silence.{silent}
use rylr998_rs.Driver.Batch.{IsListening, IsHeard}
use rylr998_rs.Radio.Listening.{heard, heard-IsListening}
use rylr998_rs.Radio.NextEvent.{next_event-event, OnlyTimeout, next_event-OnlyTimeout}
use rylr998_rs.Tool.Shell.{
  Call, Line, Shell, Ran, finished, pending, continue, next_call, attempted, Session, ◌>>=◌,
}
use rylr998_rs.Tool.Commands.{match_event, listen_loop, listen}

-- An event that arrives during one call of `next_event`, and the times of the call's rounds.
pub record Arrival : Type 0 where
  pub event : Event
  pub start : ℕ
  pub now : ℕ
  pub times : List ℕ
  pub late : ℕ

pub record IsTimely (a : Arrival) : Type 0 where
  pub is_heard : IsHeard a.event
  pub soon : a.now < a.start + 1000
  pub early : All (λ t. t < a.start + 1000) a.times
  pub over : a.start + 1000 ≤ a.late

abbrev pub arrival_call : Arrival → Call
arrival_call a = record {
  start = a.start;
  rounds = reads (event_text a.event ++ crlf) a.now ∷ (map silent a.times ++ silent a.late ∷ []);
}

abbrev pub arrival_line : Arrival → Line
arrival_line a = Line.event (into_owned a.event)

abbrev pub not_stopped : List Arrival → List Bool
not_stopped arrivals = map (λ a. false) arrivals

module _ ⦃v : FixedVec⦄ where
  abbrev behind_event : List Bool → Outcome Error OwnedEvent → Session (Unit {0})
  behind_event stops r = match_event r >>= λ u. listen_loop stops

  -- One turn of the loop prints the event of its call.
  abbrev after_turn : Arrival → List Call → Shell → Shell
  after_turn a calls s = record {
    radio = record s.radio { driver = heard a.event s.radio.driver; events = [] };
    calls = calls;
    printed = s.printed ++ arrival_line a ∷ [];
  }

  listen_turn :
      (a : Arrival) (stops : List Bool) (calls : List Call) (s : Shell)
      → IsTimely a
      → IsListening s.radio.driver
      → s.radio.events ≡ []
      → s.calls ≡ arrival_call a ∷ calls
      → listen_loop (false ∷ stops) s ≡ listen_loop stops (after_turn a calls s)
  unfolding listen_loop
  listen_turn a stops calls s timely l none_kept e =
      ap (λ cs. continue (next_call (next_event 1000) cs s) (behind_event stops)) e
      ∙ ap (λ p. continue (attempted p calls s.printed) (behind_event stops))
          (next_event-event 1000 a.start a.now a.late a.times [] a.event s.radio l none_kept
            timely.is_heard timely.soon timely.early timely.over)

  -- On a radio that keeps no event, with nothing to send, nothing received and no factory reset
  -- under way, and while it is not interrupted: if the first read of each call of `next_event`
  -- brings the line of one event before the call's deadline, and its other rounds are silent until
  -- the deadline is reached, `listen` prints these events in order, and then stands where its loop
  -- goes on, with a radio that listens and has been sent nothing. The events are well-typed, and
  -- their lines have no `\r` in them and are at most 288 bytes long.
  pub listen-arrivals :
      (arrivals : List Arrival) (stops : List Bool) (calls : List Call) (s : Shell)
      → All IsTimely arrivals
      → IsListening s.radio.driver
      → s.radio.events ≡ []
      → s.calls ≡ map arrival_call arrivals ++ calls
      → (t : Shell) × (listen_loop (not_stopped arrivals ++ stops) s ≡ listen_loop stops t)
        × (t.printed ≡ s.printed ++ map arrival_line arrivals)
        × (t.calls ≡ calls)
        × IsListening t.radio.driver
        × (t.radio.events ≡ [])
        × (t.radio.written ≡ s.radio.written)
  listen-arrivals [] stops calls s timely l none_kept e =
      (s, refl, sym (append-nil s.printed), e, l, none_kept, refl)
  listen-arrivals (a ∷ arrivals) stops calls s (first, rest) l none_kept e =
      let m = after_turn a (map arrival_call arrivals ++ calls) s in
      let (t, runs, printed, calls_left, listens, none_left, written) =
        listen-arrivals arrivals stops calls m rest
          (heard-IsListening a.event s.radio.driver l first.is_heard) refl refl in
      (
        t,
        listen_turn a (not_stopped arrivals ++ stops) (map arrival_call arrivals ++ calls) s first l
              none_kept e
            ∙ runs,
        printed ∙ append_assoc s.printed (arrival_line a ∷ []) (map arrival_line arrivals),
        calls_left,
        listens,
        none_left,
        written,
      )

  -- The command has not failed: it has ended well or by a panic, or goes on.
  abbrev pub NotFailed : Ran (Unit {0}) → Type 0
  NotFailed (finished (err e) s) = ⊥
  NotFailed (finished (ok u) s) = Unit
  NotFailed (finished panic s) = Unit
  NotFailed (pending s) = Unit

  turn-NotFailed :
      (p : Pumped OwnedEvent) (stops : List Bool) (calls : List Call) (printed : List Line)
      → OnlyTimeout p
      → ((s : Shell) → NotFailed (listen_loop stops s))
      → NotFailed (continue (attempted p calls printed) (behind_event stops))
  turn-NotFailed (Pumped.waiting x) stops calls printed h f = tt
  turn-NotFailed (Pumped.returned panic x) stops calls printed h f = tt
  turn-NotFailed (Pumped.returned (ok e) x) stops calls printed h f =
      f (record { radio = x; calls = calls; printed = printed ++ Line.event e ∷ [] })
  turn-NotFailed (Pumped.returned (err Error.timeout) x) stops calls printed h f =
      f (record { radio = x; calls = calls; printed = printed })
  turn-NotFailed (Pumped.returned (err _) x) stops calls printed h f = cc

  calls-NotFailed :
      (stops : List Bool) (calls : List Call) (s : Shell)
      → ((s : Shell) → NotFailed (listen_loop stops s))
      → NotFailed (continue (next_call (next_event 1000) calls s) (behind_event stops))
  calls-NotFailed stops [] s f = tt
  calls-NotFailed stops (c ∷ calls) s f =
      turn-NotFailed (next_event 1000 c.start c.rounds s.radio) stops calls s.printed
        (next_event-OnlyTimeout 1000 c.start c.rounds s.radio) f

  loop-NotFailed : (stops : List Bool) (s : Shell) → NotFailed (listen_loop stops s)
  unfolding listen_loop
  loop-NotFailed [] s = tt
  loop-NotFailed (true ∷ stops) s = tt
  loop-NotFailed (false ∷ stops) s = calls-NotFailed stops s.calls s (loop-NotFailed stops)

  -- Once the interrupt handler is set, `listen` never returns an error, whatever the port answers: a
  -- port that fails is taken for one that is silent.
  pub listen-NotFailed : (stops : List Bool) (s : Shell) → NotFailed (listen (ok tt) stops s)
  unfolding listen
  listen-NotFailed stops s = loop-NotFailed stops s
