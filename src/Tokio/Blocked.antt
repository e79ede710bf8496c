-- ===== src/Tokio/Blocked.antt =====
-- `process_job` of rylr998-tokio/src/lib.rs when the channel of the events is full.
use rylr998_rs.Base.{◌≤◌, ◌≡◌, refl, ap, ◌∙◌, false, List, [], ◌∷◌, ◌++◌, arith, length}
use rylr998_rs.Types.{Event, IsTyped}
use rylr998_rs.FixedVec.{FixedVec}
use rylr998_rs.Encode.Wire.{wire, crlf}
use rylr998_rs.Encode.Fits.{IsBrief, wire_fits}
use rylr998_rs.Decode.Text.{event_text}
use rylr998_rs.Driver.{is_factory_reset, submit, ack_tx}
use rylr998_rs.Driver.Operations.{submit_fits}
use rylr998_rs.Driver.Exchange.{IsQuiet, handed_out, submit-IsPending, ack_tx-IsAwaiting, sent-flag}
use rylr998_rs.Driver.Batch.{IsHeard, Holds, reported, poll-Holds}
use rylr998_rs.Owned.{OwnedCommand, as_command}
use rylr998_rs.Radio.{Radio, drain_fuel}
use rylr998_rs.Tokio.{
  Channel, never, JobRound, Processed, job_event_step, job_step, behind_job_drain, job_loop,
  job_submitted, process_job,
}
use rylr998_rs.Tokio.Exchange.{
  job_reads, received_line, received-IsValid, job_stop, behind_round, first_round,
}

module _ ⦃v : FixedVec⦄ ⦃c : Channel⦄ where
  -- The round in which the inner loop meets an event that finds no room.
  blocked_round :
      (e : Event) (round : JobRound) (rounds : List JobRound) (x : Radio)
      → Holds (e ∷ []) [] x.driver
      → IsHeard e
      → c.send x.events ≡ never
      → job_loop (round ∷ rounds) x
        ≡ Processed.blocked (record x { driver = reported e [] [] x.driver })
  unfolding job_loop
  blocked_round e round rounds x h heard full =
      let w = round.write_error in
      ap (λ u. behind_round rounds (behind_job_drain round.read u))
        (job_stop (drain_fuel x) w x (omega arith) (
          ap (λ t. job_step w t x) (poll-Holds e [] [] x.driver h heard)
          ∙ ap (λ o. job_event_step o e (reported e [] [] x.driver) x) full))

  -- A job that reads the line of an event while the channel is full, and nobody takes anything out of
  -- it, never returns: it waits in the send, whatever its port and its deadline would do.
  pub process_job-blocked :
      (owned : OwnedCommand) (e : Event) (round : JobRound) (rounds : List JobRound) (x : Radio)
      → IsQuiet x.driver
      → IsTyped (as_command owned)
      → IsBrief (as_command owned)
      → is_factory_reset (as_command owned) ≡ false
      → IsHeard e
      → length (event_text e ++ (crlf ++ [])) ≤ 512
      → c.send x.events ≡ never
      → (y : Radio) × (process_job owned
            (job_reads (event_text e ++ (crlf ++ [])) ∷ round ∷ rounds)
            x
          ≡ Processed.blocked y)
        × (y.events ≡ x.events)
  unfolding process_job
  process_job-blocked owned e round rounds x q typed brief plain heard fit full =
      let cmd = as_command owned in
      let short = wire_fits cmd typed brief in
      let p = submit-IsPending cmd x.driver q typed short in
      let x1 = record x { driver = (submit cmd x.driver).1 } in
      let a = ack_tx-IsAwaiting cmd x1.driver p in
      let d = received_line (event_text e) [] (ack_tx (length (wire cmd)) (handed_out x1.driver)) in
      let holds : Holds (e ∷ []) [] d = record {
        valid = received-IsValid (event_text e) [] _ a.valid fit;
        received = refl;
        nothing_queued = a.nothing_queued;
        no_reset = sent-flag cmd x.driver q typed short ∙ plain;
      } in
      let all = job_reads (event_text e ++ (crlf ++ [])) ∷ round ∷ rounds in
      let x2 = record x1 { driver = d; written = x.written ++ wire cmd } in
      (
        record x2 { driver = reported e [] [] d },
        ap (λ o. job_submitted all x1 o)
              (ap (λ o. o.0)
                (submit_fits cmd x.driver q.is_idle typed
                  (omega (arith, ap length q.nothing_queued))))
            ∙ first_round cmd (event_text e) [] (round ∷ rounds) x1 p fit
            ∙ blocked_round e round rounds x2 holds heard full,
        refl,
      )
