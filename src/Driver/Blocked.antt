-- ===== src/Driver/Blocked.antt =====
-- Lines that `poll` of rylr998-core/src/driver.rs cannot get past.
use rylr998_rs.Base.{
  ◌+◌, ◌≤◌, ◌<◌, ◌≡◌, ap, ◌∙◌, false, ◌++◌, append_assoc, arith, lt→ltb, le→ltb, Bytes, codes,
  length, Lacks, starts_with,
}
use rylr998_rs.Types.{Poll}
use rylr998_rs.FixedVec.{FixedVec}
use rylr998_rs.Encode.Wire.{crlf}
use rylr998_rs.Driver.{
  Driver, State, rx_capacity, line_capacity, is_empty, next_line_end, push_rx, state_matches,
}
use rylr998_rs.Driver.Turns.{done, fault, poll_line, poll_turn, poll}
use rylr998_rs.Driver.Queues.{next_line_end-line}
use rylr998_rs.Driver.Invariant.{IsValid, push_rx-IsValid}
use rylr998_rs.Driver.Operations.{push_rx_fits}
use rylr998_rs.Driver.Lines.{Sees, loaded, line_turn, poll-line, poll_again, not_empty, poll_fault}

-- A line that is no event and does not answer the command in flight.
pub record IsStray (s : State) (line : Bytes) : Type 0 where
  pub no_reset : starts_with line (codes "+RESET") ≡ false
  pub no_recv : starts_with line (codes "+RCV") ≡ false
  pub no_ready : starts_with line (codes "+READY") ≡ false
  pub no_answer : state_matches s line ≡ false

module _ ⦃v : FixedVec⦄ where
  stray_turn :
      (line rest : Bytes) (d : Driver)
      → IsStray d.state line
      → line_turn line rest d ≡ done (loaded line d) Poll.idle
  stray_turn line rest d n = ground (arith, n.no_reset, n.no_recv, n.no_ready, n.no_answer)

  -- A stray line is never drained: `poll` returns `Idle` and leaves all of `rx` as it was.
  pub poll-stray :
      (line rest : Bytes) (d : Driver)
      → IsValid d
      → Sees d line rest
      → IsStray d.state line
      → poll d ≡ done (loaded line d) Poll.idle
  poll-stray line rest d h s n =
      poll-line line rest d s h ∙ ap poll_again (stray_turn line rest d n)

  -- With nothing to hand out, a first line with no `\r` in it, of at most 288 bytes, that does not
  -- begin with `+RESET`, `+RCV` or `+READY` and does not answer the command in flight stays in
  -- `rx` of a valid driver: after any further bytes that fit `poll` is `Idle`, and the line is
  -- still the first one.
  pub push_rx-stray :
      (line rest more : Bytes) (d : Driver)
      → IsValid d
      → Sees d line rest
      → IsStray d.state line
      → length d.rx + length more ≤ rx_capacity
      → (poll (push_rx more d).1 ≡ done (loaded line (push_rx more d).1) Poll.idle)
        × Sees (push_rx more d).1 line (rest ++ more)
  push_rx-stray line rest more d h s n fit =
      let pushed = push_rx_fits more d fit in
      let after : Sees (push_rx more d).1 line (rest ++ more) = rw pushed (record {
        quiet = s.quiet;
        received = ap (λ r. r ++ more) s.received ∙ append_assoc line (crlf ++ rest) more;
        one_line = s.one_line;
        short = s.short;
      }) in
      (
        poll-stray line (rest ++ more) (push_rx more d).1 (push_rx-IsValid more d h) after
            (rw pushed n),
        after,
      )

  pub long_line_turn :
      (line rest : Bytes) (d : Driver)
      → d.tx_in_flight ≡ length d.tx
      → d.rx ≡ line ++ (crlf ++ rest)
      → Lacks b'\r' line
      → line_capacity < length line
      → poll_turn d ≡ fault
  unfolding poll_turn poll_line
  long_line_turn line rest d quiet e one_line long = rw (
    le→ltb d.tx_in_flight (length d.tx) (omega arith),
    ap is_empty e ∙ not_empty line rest,
    ap next_line_end e ∙ next_line_end-line line rest one_line,
    lt→ltb line_capacity (length line) long,
  )

  -- With nothing to hand out, a first line that is longer than the line buffer makes `poll` panic,
  -- whatever stands on it.
  pub poll-long_line :
      (line rest : Bytes) (d : Driver)
      → d.tx_in_flight ≡ length d.tx
      → d.rx ≡ line ++ (crlf ++ rest)
      → Lacks b'\r' line
      → line_capacity < length line
      → poll d ≡ fault
  poll-long_line line rest d quiet e one_line long =
      poll_fault d (long_line_turn line rest d quiet e one_line long)
