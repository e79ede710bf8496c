-- ===== src/Tokio/Same.antt =====
-- The inner loop of `process_job` in rylr998-tokio/src/lib.rs beside that of `pump_until` in
-- rylr998-std/src/radio.rs.
use rylr998_rs.Base.{
  ℕ, zero, suc, ◌≡◌, refl, sym, subst, List, Option, none, some, Outcome, ok, err, panic,
}
use rylr998_rs.Types.{Response, OwnedEvent, Poll}
use rylr998_rs.FixedVec.{FixedVec}
use rylr998_rs.Driver.{Driver}
use rylr998_rs.Driver.Turns.{Turn, done, again, fault, poll}
use rylr998_rs.Radio.{Radio, Drained, Step, poll_step, turn_step, drain}
use rylr998_rs.Owned.{Error, OwnedResponse, from_response}
use rylr998_rs.Tokio.{
  Channel, taken, job_event_step, JobDrained, JobStep, job_poll_step, job_step, job_drain,
}

-- Two ends of the loops are the same: the same outcome, and the same radio.
abbrev pub Same : Drained OwnedResponse → JobDrained → Type 0
Same (Drained.quiet x) (JobDrained.quiet y) = x ≡ y
Same (Drained.returned (ok r) x) (JobDrained.returned (ok q) y) = (r ≡ q) × (x ≡ y)
Same (Drained.returned (err (rylr998_rs.Radio.Error.io e)) x)
      (JobDrained.returned (err (Error.io f)) y) =
    (e ≡ f) × (x ≡ y)
Same (Drained.returned panic x) (JobDrained.returned panic y) = x ≡ y
Same (Drained.unfinished x) (JobDrained.unfinished y) = x ≡ y
Same _ _ = ⊥

abbrev SameStep : Step OwnedResponse → JobStep → Type 0
SameStep (Step.stop t) (JobStep.stop u) = Same t u
SameStep (Step.next x) (JobStep.next y) = x ≡ y
SameStep _ _ = ⊥

-- The `want` of a task: it takes any response.
abbrev pub want_any : Response → Option (Outcome rylr998_rs.Radio.Error OwnedResponse)
want_any r = some (ok (from_response r))

-- Every event finds room in the channel, and its receiver is there.
abbrev pub HasRoom : Channel → Type 0
HasRoom c = (sent : List OwnedEvent) → c.send sent ≡ taken

module _ ⦃v : FixedVec⦄ ⦃c : Channel⦄ where
  same_poll :
      (w : Option ℕ) (p : Poll) (d : Driver) (x : Radio)
      → HasRoom c
      → SameStep (poll_step want_any w p d x) (job_poll_step w p d x)
  same_poll w Poll.idle d x room = refl
  same_poll w (Poll.event e) d x room =
      subst (λ o. SameStep (poll_step want_any w (Poll.event e) d x) (job_event_step o e d x))
        (sym (room x.events)) refl
  same_poll w (Poll.response r) d x room = (refl, refl)
  same_poll none (Poll.need_tx bytes) d x room = refl
  same_poll (some e) (Poll.need_tx bytes) d x room = (refl, refl)

  same_step :
      (w : Option ℕ) (t : Turn) (x : Radio)
      → HasRoom c
      → SameStep (turn_step want_any w t x) (job_step w t x)
  same_step w (done d p) x room = same_poll w p d x room
  same_step w (again d) x room = refl
  same_step w fault x room = refl

  after :
      (fuel : ℕ) (w : Option ℕ) (s : Step OwnedResponse) (t : JobStep)
      → SameStep s t
      → ((x : Radio) → Same (drain fuel want_any w x) (job_drain fuel w x))
      → Same
          (elim s [ Step.stop out ↦ out | Step.next y ↦ drain fuel want_any w y ])
          (elim t [ JobStep.stop out ↦ out | JobStep.next y ↦ job_drain fuel w y ])
  after fuel w (Step.stop a) (JobStep.stop b) e f = e
  after fuel w (Step.stop a) (JobStep.next b) e f = absurd e
  after fuel w (Step.next a) (JobStep.stop b) e f = absurd e
  after fuel w (Step.next a) (JobStep.next b) e f = rw e (f b)

  -- As long as the bounded channel takes every event, the inner loop of Tokio's `process_job`
  -- does, on any radio and with any fuel, what the blocking one's does with a `want` that takes
  -- every response: the same outcome, the same bytes to the port, the same events, the same
  -- driver.
  pub job_drain-Same :
      (fuel : ℕ) (w : Option ℕ) (x : Radio)
      → HasRoom c
      → Same (drain fuel want_any w x) (job_drain fuel w x)
  unfolding drain job_drain
  job_drain-Same zero w x room = refl
  job_drain-Same (suc fuel) w x room =
      after fuel w (turn_step want_any w (poll x.driver) x) (job_step w (poll x.driver) x)
        (same_step w (poll x.driver) x room) (λ y. job_drain-Same fuel w y room)
