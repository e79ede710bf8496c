-- ===== src/Tool/Exchange.antt =====
-- The calls of rylr998-tool/src/commands.rs on a radio that answers each command before its deadline.
use rylr998_rs.Base.{
  ℕ, suc, ◌+◌, ◌<◌, ◌≡◌, refl, ap, ◌∙◌, List, [], ◌∷◌, ◌++◌, append_assoc, Option, some, Bytes,
  Outcome, ok,
}
use rylr998_rs.Types.{Command, Response, IsTyped}
use rylr998_rs.FixedVec.{FixedVec}
use rylr998_rs.Encode.Wire.{wire, crlf}
use rylr998_rs.Encode.Fits.{IsBrief, wire_fits}
use rylr998_rs.Decode.Text.{response_text, IsResponse}
use rylr998_rs.Decode.Short.{IsTidy, response_text-IsLine}
use rylr998_rs.Driver.{kind_of}
use rylr998_rs.Driver.Exchange.{IsQuiet, Answers}
use rylr998_rs.Radio.{Error, Round}
use rylr998_rs.Radio.Methods.{request}
use rylr998_rs.Radio.Answering.{reads, request-answer}
use rylr998_rs.Tool.Shell.{Call, Shell, Method, next_call, attempted, continue, question, call}
use rylr998_rs.Tool.Provision.{Gives}

-- When a call is made, when its answer is read, and what the port would have answered later.
pub record Reply : Type 0 where
  pub start : ℕ
  pub now : ℕ
  pub round : Round
  pub rounds : List Round

-- The call that meets this answer.
abbrev pub answering : Response → Reply → Call
answering r reply = record {
  start = reply.start;
  rounds = reads (response_text r ++ crlf) reply.now ∷ reply.round ∷ reply.rounds;
}

-- The calls that meet these answers.
abbrev pub answering_all : List Response → (ℕ → Reply) → List Call
answering_all [] replies = []
answering_all (r ∷ rs) replies = answering r (replies 0) ∷ answering_all rs (λ i. replies (suc i))

-- Each answer is read within this time.
abbrev pub IsPrompt : ℕ → (ℕ → Reply) → Type 0
IsPrompt timeout replies = (i : ℕ) → (replies i).now < (replies i).start + timeout

-- The radio has nothing to do, and the calls to come meet these answers in time.
pub record Ready (rs : List Response) (s : Shell) : Type 0 where
  pub quiet : IsQuiet s.radio.driver
  pub replies : ℕ → Reply
  pub prompt : IsPrompt 1000 replies
  pub calls_are : s.calls ≡ answering_all rs replies

-- Between the two states these bytes have been written to the port, and nothing has been printed.
pub record Wrote (bytes : Bytes) (s t : Shell) : Type 0 where
  pub written : t.radio.written ≡ s.radio.written ++ bytes
  pub events : t.radio.events ≡ s.radio.events
  pub printed : t.printed ≡ s.printed

pub Wrote-then : {a b : Bytes} {s m t : Shell} → Wrote a s m → Wrote b m t → Wrote (a ++ b) s t
Wrote-then {a} {b} {s} {m} {t} f g = record {
  written = g.written ∙ ap (λ w. w ++ b) f.written ∙ append_assoc s.radio.written a b;
  events = g.events ∙ f.events;
  printed = g.printed ∙ f.printed;
}

module _ ⦃v : FixedVec⦄ where
  -- A method that requests this command and makes this of an answer.
  abbrev pub Requests :
      {A : Type 0} → Method A → Command → (Response → Option (Outcome Error A)) → Type 0
  Requests m cmd want = m ≡ λ start rounds x. request cmd want 1000 start rounds x

  -- The answer to a method's command is what its call returns.
  pub call-answer :
      {A : Type 0} (m : Method A) (cmd : Command) (want : Response → Option (Outcome Error A))
      (r : Response) (rs : List Response) (s : Shell) {a : A}
      → Requests m cmd want
      → IsTyped cmd
      → IsBrief cmd
      → Answers (kind_of cmd) r
      → IsResponse r
      → IsTidy r
      → want r ≡ some (ok a)
      → Ready (r ∷ rs) s
      → (t : Shell) × Gives (call m) s a t × Ready rs t × Wrote (wire cmd) s t
  unfolding call
  call-answer m cmd want r rs s {a} is_request typed brief answers good tidy e ready =
      let line = response_text-IsLine r good tidy in
      let reply = ready.replies 0 in
      let (y, returns, quiet, written, events) =
        request-answer cmd want 1000 reply.start reply.now reply.round reply.rounds r s.radio
          ready.quiet typed (wire_fits cmd typed brief) answers good line.one_line line.short e
          (ready.prompt 0) in
      let rest = answering_all rs (λ i. ready.replies (suc i)) in
      (
        record { radio = y; calls = rest; printed = s.printed },
        ap (λ calls. continue (next_call m calls s) question) ready.calls_are
            ∙ ap (λ p. continue (attempted p rest s.printed) question)
                (ap (λ f. f reply.start (answering r reply).rounds s.radio) is_request ∙ returns),
        record {
          quiet = quiet;
          replies = λ i. ready.replies (suc i);
          prompt = λ i. ready.prompt (suc i);
          calls_are = refl;
        },
        record { written = written; events = events; printed = refl },
      )
