-- ===== src/Radio/Pieces.antt =====
-- A method of rylr998-std/src/radio.rs whose answer is read in pieces.
use rylr998_rs.Base.{
  ℕ, ◌+◌, ◌≤◌, ◌<◌, ◌≡◌, sym, ap, ◌∙◌, subst, inl, inr, List, [], ◌∷◌, ◌++◌, append_assoc,
  append-nil, Option, some, arith, All, Bytes, length, length-append, Outcome,
}
use rylr998_rs.Types.{Command, Response, IsTyped}
use rylr998_rs.FixedVec.{FixedVec}
use rylr998_rs.Encode.Wire.{wire, crlf}
use rylr998_rs.Encode.Fits.{IsBrief, wire_fits}
use rylr998_rs.Decode.Text.{response_text, IsResponse}
use rylr998_rs.Decode.Short.{IsTidy, IsLine, response_text-IsLine}
use rylr998_rs.Driver.{AwaitKind, rx_capacity, kind_of, submit, push_rx, ack_tx}
use rylr998_rs.Driver.Operations.{submit_fits}
use rylr998_rs.Driver.Exchange.{IsQuiet, Answers, handed_out, submit-IsPending, ack_tx-IsAwaiting}
use rylr998_rs.Driver.Partial.{next_line_end-prefix}
use rylr998_rs.Radio.{Error, Radio, Round, Pumped, pump_until}
use rylr998_rs.Radio.Methods.{submitted, request}
use rylr998_rs.Radio.Answering.{reads, answering_round, go_on}
use rylr998_rs.Radio.Chunks.{
  Chunk, chunk_rounds, joined, List-cases, HasGot, pushed-HasGot, chunk_round, complete,
}

module _ ⦃v : FixedVec⦄ where
  -- The pieces that are still to come make the answer complete.
  chunks-answer :
      {R : Type 0} {k : AwaitKind} (deadline : ℕ) (want : Response → Option (Outcome Error R))
      (r : Response) (chunks : List Chunk) (round : Round) (rounds : List Round) (got : Bytes)
      (x : Radio) {out : Outcome Error R}
      → HasGot k got x.driver
      → got ++ joined chunks ≡ response_text r ++ crlf
      → All (λ c. c.1 < deadline) chunks
      → Answers k r
      → IsResponse r
      → IsLine (response_text r)
      → want r ≡ some out
      → (y : Radio) × (pump_until deadline want (chunk_rounds chunks ++ round ∷ rounds) x
          ≡ Pumped.returned out y)
        × IsQuiet y.driver
        × (y.written ≡ x.written)
        × (y.events ≡ x.events)
  chunks-answer {k = k} deadline want r [] round rounds got x h whole early answers good line e =
      complete deadline want r round rounds x
        (subst (λ g. HasGot k g x.driver) (sym (append-nil got) ∙ whole) h) answers good line e
  chunks-answer {k = k} deadline want r (c ∷ chunks) round rounds got x h whole (first, rest)
        answers good line e =
      elim (List-cases (c.0 ++ joined chunks)) [
        | inl nothing ↦
            complete deadline want r (reads c.0 c.1) (chunk_rounds chunks ++ round ∷ rounds) x
              (subst (λ g. HasGot k g x.driver)
                (sym (append-nil got) ∙ ap (λ s. got ++ s) (sym nothing) ∙ whole) h)
              answers good line e
        | inr (b, more, some_) ↦
            let fit : length got + length c.0 ≤ rx_capacity = omega (
              arith,
              line.short,
              ap length whole,
              length-append (response_text r) crlf,
              length-append got (c.0 ++ joined chunks),
              length-append c.0 (joined chunks),
            ) in
            let no_end =
              next_line_end-prefix (response_text r) got b more line.one_line
                (ap (λ s. got ++ s) (sym some_) ∙ whole) in
            let next = record x { driver = (push_rx c.0 x.driver).1 } in
            let (y, returns, free, written, events) =
              chunks-answer deadline want r chunks round rounds (got ++ c.0) next
                (pushed-HasGot c.0 x.driver h fit) (append_assoc got c.0 (joined chunks) ∙ whole)
                rest answers good line e in
            (
              y,
              go_on deadline want (reads c.0 c.1) (chunk_rounds chunks ++ round ∷ rounds) x
                    (chunk_round deadline c.1 want c.0 x h no_end fit first)
                  ∙ returns,
              free,
              written,
              events,
            )
      ]

  -- A method on a radio with nothing to do that reads the line of an answer in any pieces, one in each
  -- round and all before its deadline, returns what its `want` makes of the answer, and the radio has
  -- nothing to do again.
  pub request-chunks :
      {R : Type 0} (cmd : Command) (want : Response → Option (Outcome Error R)) (timeout start : ℕ)
      (first : Chunk) (chunks : List Chunk) (round : Round) (rounds : List Round) (r : Response)
      (x : Radio) {out : Outcome Error R}
      → IsQuiet x.driver
      → IsTyped cmd
      → IsBrief cmd
      → Answers (kind_of cmd) r
      → IsResponse r
      → IsTidy r
      → want r ≡ some out
      → joined (first ∷ chunks) ≡ response_text r ++ crlf
      → All (λ c. c.1 < start + timeout) (first ∷ chunks)
      → (y : Radio) × (request cmd want timeout start
            (chunk_rounds (first ∷ chunks) ++ round ∷ rounds)
            x
          ≡ Pumped.returned out y)
        × IsQuiet y.driver
        × (y.written ≡ x.written ++ wire cmd)
        × (y.events ≡ x.events)
  unfolding request
  request-chunks cmd want timeout start first chunks round rounds r x q typed brief answers good
        tidy e whole (soon, early) =
      let deadline = start + timeout in
      let line = response_text-IsLine r good tidy in
      let short = wire_fits cmd typed brief in
      let p = submit-IsPending cmd x.driver q typed short in
      let x1 = record x { driver = (submit cmd x.driver).1 } in
      let d = ack_tx (length (wire cmd)) (handed_out x1.driver) in
      let a = ack_tx-IsAwaiting cmd x1.driver p in
      let got : HasGot (kind_of cmd) [] d = record {
        valid = a.valid;
        state_is = a.state_is;
        received = a.nothing_received;
        nothing_queued = a.nothing_queued;
      } in
      let fit : length first.0 ≤ rx_capacity = omega (
        arith,
        line.short,
        ap length whole,
        length-append (response_text r) crlf,
        length-append first.0 (joined chunks),
      ) in
      let x2 = record x { driver = (push_rx first.0 d).1; written = x.written ++ wire cmd } in
      let (y, returns, free, written, events) =
        chunks-answer deadline want r chunks round rounds first.0 x2
          (pushed-HasGot first.0 d got (omega (arith, fit))) whole early answers good line e in
      (
        y,
        ap (λ o. submitted deadline want (chunk_rounds (first ∷ chunks) ++ round ∷ rounds) x1 o)
              (ap (λ o. o.0)
                (submit_fits cmd x.driver q.is_idle typed
                  (omega (arith, ap length q.nothing_queued))))
            ∙ go_on deadline want (reads first.0 first.1) (chunk_rounds chunks ++ round ∷ rounds) x1
                (answering_round deadline want cmd first.0 first.1 x1 p soon fit)
            ∙ returns,
        free,
        written,
        events,
      )
