-- ===== src/Tokio/Answers.antt =====
-- The methods of `AsyncRadio` in rylr998-tokio/src/lib.rs behind the driver: a method understands every
-- response that its command can get.
use rylr998_rs.Base.{ℕ, ◌≡◌, ◌≢◌, sym, false, subst, Bytes, Outcome, ok, err, panic, ◌>>=◌}
use rylr998_rs.Types.{Response, RfParams, Poll}
use rylr998_rs.FixedVec.{FixedVec}
use rylr998_rs.Owned.{Error, OwnedResponse, OwnedCommand, from_response, as_command}
use rylr998_rs.Driver.{Driver, State, AwaitKind, QueryKey, ack, query, kind_of}
use rylr998_rs.Driver.Turns.{done, poll}
use rylr998_rs.Driver.Exchange.{Answers}
use rylr998_rs.Driver.Answered.{poll-Answers}
use rylr998_rs.Tokio.Methods.{
  Request, ping, set_address, set_network_id, set_band, set_cpin, set_parameters, factory_reset,
  send, address, network_id, band, cpin, parameters, crfop, uid, version, unexpected, expect_ok,
  expect_address, expect_network_id, expect_band, expect_cpin, expect_parameters, expect_crfop,
  expect_uid, expect_version,
}

-- The method whose command waits for this does not take the last arm of its `match`.
abbrev pub Expects : AwaitKind → Response → Type 0
Expects ack r = expect_ok (from_response r) ≢ unexpected
Expects (query QueryKey.address) r = expect_address (from_response r) ≢ unexpected
Expects (query QueryKey.network_id) r = expect_network_id (from_response r) ≢ unexpected
Expects (query QueryKey.band) r = expect_band (from_response r) ≢ unexpected
Expects (query QueryKey.parameters) r = expect_parameters (from_response r) ≢ unexpected
Expects (query QueryKey.crfop) r = expect_crfop (from_response r) ≢ unexpected
Expects (query QueryKey.uid) r = expect_uid (from_response r) ≢ unexpected
Expects (query QueryKey.version) r = expect_version (from_response r) ≢ unexpected
Expects (query QueryKey.cpin) r = expect_cpin (from_response r) ≢ unexpected

Expects-error : (k : AwaitKind) (n : ℕ) → Expects k (Response.err n)
unfolding from_response expect_ok expect_address expect_network_id expect_band expect_cpin
    expect_parameters expect_crfop expect_uid expect_version
Expects-error ack n = λ e. cc
Expects-error (query QueryKey.address) n = λ e. cc
Expects-error (query QueryKey.network_id) n = λ e. cc
Expects-error (query QueryKey.band) n = λ e. cc
Expects-error (query QueryKey.parameters) n = λ e. cc
Expects-error (query QueryKey.crfop) n = λ e. cc
Expects-error (query QueryKey.uid) n = λ e. cc
Expects-error (query QueryKey.version) n = λ e. cc
Expects-error (query QueryKey.cpin) n = λ e. cc

Answers-Expects : (k : AwaitKind) (r : Response) → Answers k r → Expects k r
unfolding from_response expect_ok expect_address expect_network_id expect_band expect_cpin
    expect_parameters expect_crfop expect_uid expect_version
Answers-Expects k (Response.err n) h = Expects-error k n
Answers-Expects k Response.ok h = subst (λ j. Expects j Response.ok) (sym h) (λ e. cc)
Answers-Expects k (Response.address n) h =
    subst (λ j. Expects j (Response.address n)) (sym h) (λ e. cc)
Answers-Expects k (Response.network_id n) h =
    subst (λ j. Expects j (Response.network_id n)) (sym h) (λ e. cc)
Answers-Expects k (Response.band n) h = subst (λ j. Expects j (Response.band n)) (sym h) (λ e. cc)
Answers-Expects k (Response.parameters p) h =
    subst (λ j. Expects j (Response.parameters p)) (sym h) (λ e. cc)
Answers-Expects k (Response.crfop n) h = subst (λ j. Expects j (Response.crfop n)) (sym h) (λ e. cc)
Answers-Expects k (Response.uid s) h = subst (λ j. Expects j (Response.uid s)) (sym h) (λ e. cc)
Answers-Expects k (Response.version s) h =
    subst (λ j. Expects j (Response.version s)) (sym h) (λ e. cc)
Answers-Expects k (Response.cpin s) h = subst (λ j. Expects j (Response.cpin s)) (sym h) (λ e. cc)

module _ ⦃v : FixedVec⦄ where
  -- Outside a factory reset, a response that `poll` reports for the command in flight is never one
  -- that the command's own method turns into a parse error.
  pub poll-Expects :
      (k : AwaitKind) (d : Driver) {e : Driver} {r : Response}
      → d.awaiting_ready_as_ok ≡ false
      → d.state ≡ State.awaiting k
      → poll d ≡ done e (Poll.response r)
      → Expects k r
  poll-Expects k d {e} {r} plain state eq = Answers-Expects k r (poll-Answers k d plain state eq)

-- What `request` may return for a command: an answer of the kind that the command waits for, as the
-- driver reports it, or an error other than that of the last arm of a method's `match`.
abbrev pub IsAnswer : OwnedCommand → Outcome Error OwnedResponse → Type 0
IsAnswer cmd (ok q) = (r : Response) × (q ≡ from_response r) × Answers (kind_of (as_command cmd)) r
IsAnswer cmd (err e) = e ≢ Error.core rylr998_rs.Types.Error.parse
IsAnswer cmd panic = Unit

abbrev pub OnlyAnswers : Request → Type 0
OnlyAnswers request = (cmd : OwnedCommand) (timeout : ℕ) → IsAnswer cmd (request cmd timeout)

understood :
    {A : Type 0} (cmd : OwnedCommand) (f : OwnedResponse → Outcome Error A)
    (o : Outcome Error OwnedResponse)
    → ((r : Response) → Answers (kind_of (as_command cmd)) r → f (from_response r) ≢ unexpected)
    → IsAnswer cmd o
    → (o >>= f) ≢ unexpected
understood cmd f (ok q) h (r, e, a) = subst (λ s. f s ≢ unexpected) (sym e) (h r a)
understood cmd f (err e) h k = λ same. k cc
understood cmd f panic h k = λ same. cc

-- No method of `AsyncRadio` returns the parse error of the last arm of its `match`, if `request`
-- gives each command only answers of the kind that the driver waits for after that command, or
-- errors other than a parse error: each method sends the command whose answer it reads.
pub methods-OnlyAnswers :
    (request : Request) (n hz to : ℕ) (password payload : Bytes) (p : RfParams)
    → OnlyAnswers request
    → (ping request ≢ unexpected)
      × (set_address request n ≢ unexpected)
      × (set_network_id request n ≢ unexpected)
      × (set_band request hz ≢ unexpected)
      × (set_cpin request password ≢ unexpected)
      × (set_parameters request p ≢ unexpected)
      × (factory_reset request ≢ unexpected)
      × (send request to payload ≢ unexpected)
      × (address request ≢ unexpected)
      × (network_id request ≢ unexpected)
      × (band request ≢ unexpected)
      × (cpin request ≢ unexpected)
      × (parameters request ≢ unexpected)
      × (crfop request ≢ unexpected)
      × (uid request ≢ unexpected)
      × (version request ≢ unexpected)
unfolding ping set_address set_network_id set_band set_cpin set_parameters factory_reset send
    address network_id band cpin parameters crfop uid version as_command kind_of
methods-OnlyAnswers request n hz to password payload p only = (
  understood OwnedCommand.ping expect_ok _ (Answers-Expects ack) (only OwnedCommand.ping _),
  understood (OwnedCommand.set_address n) expect_ok _ (Answers-Expects ack)
      (only (OwnedCommand.set_address n) _),
  understood (OwnedCommand.set_network_id n) expect_ok _ (Answers-Expects ack)
      (only (OwnedCommand.set_network_id n) _),
  understood (OwnedCommand.set_band hz) expect_ok _ (Answers-Expects ack)
      (only (OwnedCommand.set_band hz) _),
  understood (OwnedCommand.set_cpin password) expect_ok _ (Answers-Expects ack)
      (only (OwnedCommand.set_cpin password) _),
  understood (OwnedCommand.set_parameters p) expect_ok _ (Answers-Expects ack)
      (only (OwnedCommand.set_parameters p) _),
  understood OwnedCommand.factory_reset expect_ok _ (Answers-Expects ack)
      (only OwnedCommand.factory_reset _),
  understood (OwnedCommand.send to payload) expect_ok _ (Answers-Expects ack)
      (only (OwnedCommand.send to payload) _),
  understood OwnedCommand.get_address expect_address _ (Answers-Expects (query QueryKey.address))
      (only OwnedCommand.get_address _),
  understood OwnedCommand.get_network_id expect_network_id _
      (Answers-Expects (query QueryKey.network_id)) (only OwnedCommand.get_network_id _),
  understood OwnedCommand.get_band expect_band _ (Answers-Expects (query QueryKey.band))
      (only OwnedCommand.get_band _),
  understood OwnedCommand.get_cpin expect_cpin _ (Answers-Expects (query QueryKey.cpin))
      (only OwnedCommand.get_cpin _),
  understood OwnedCommand.get_parameters expect_parameters _
      (Answers-Expects (query QueryKey.parameters)) (only OwnedCommand.get_parameters _),
  understood OwnedCommand.get_crfop expect_crfop _ (Answers-Expects (query QueryKey.crfop))
      (only OwnedCommand.get_crfop _),
  understood OwnedCommand.get_uid expect_uid _ (Answers-Expects (query QueryKey.uid))
      (only OwnedCommand.get_uid _),
  understood OwnedCommand.get_version expect_version _ (Answers-Expects (query QueryKey.version))
      (only OwnedCommand.get_version _),
)
