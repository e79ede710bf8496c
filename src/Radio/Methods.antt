-- ===== src/Radio/Methods.antt =====
-- The methods of `Radio` in rylr998-std/src/radio.rs. A method submits its command and pumps until its
-- answer; `start` is the time at which it takes its deadline.
use rylr998_rs.Base.{ℕ, ◌+◌, List, [], ◌∷◌, Option, none, some, Bytes, Outcome, ok, err, panic}
use rylr998_rs.Types.{Command, Response, RfParams, OwnedEvent}
use rylr998_rs.FixedVec.{FixedVec}
use rylr998_rs.Driver.{submit}
use rylr998_rs.Radio.{Error, Radio, Round, Pumped, returned, waiting, pump_until}

-- `DEFAULT_TIMEOUT`, in milliseconds.
abbrev pub default_timeout : ℕ
default_timeout = 1000

-- `FACTORY_RESET_TIMEOUT`, in milliseconds.
abbrev pub factory_reset_timeout : ℕ
factory_reset_timeout = 4000

-- `wait_ok`.
unfoldable pub wait_ok : Response → Option (Outcome Error (Unit {0}))
wait_ok Response.ok = some (ok tt)
wait_ok (Response.err n) = some (err (Error.radio n))
wait_ok _ = none

-- The `want` of `address`.
unfoldable pub wait_address : Response → Option (Outcome Error ℕ)
wait_address (Response.address n) = some (ok n)
wait_address (Response.err n) = some (err (Error.radio n))
wait_address _ = none

-- The `want` of `network_id`.
unfoldable pub wait_network_id : Response → Option (Outcome Error ℕ)
wait_network_id (Response.network_id n) = some (ok n)
wait_network_id (Response.err n) = some (err (Error.radio n))
wait_network_id _ = none

-- The `want` of `band`.
unfoldable pub wait_band : Response → Option (Outcome Error ℕ)
wait_band (Response.band n) = some (ok n)
wait_band (Response.err n) = some (err (Error.radio n))
wait_band _ = none

-- The `want` of `cpin`.
unfoldable pub wait_cpin : Response → Option (Outcome Error Bytes)
wait_cpin (Response.cpin n) = some (ok n)
wait_cpin (Response.err n) = some (err (Error.radio n))
wait_cpin _ = none

-- The `want` of `parameters`.
unfoldable pub wait_parameters : Response → Option (Outcome Error RfParams)
wait_parameters (Response.parameters n) = some (ok n)
wait_parameters (Response.err n) = some (err (Error.radio n))
wait_parameters _ = none

-- The `want` of `crfop`.
unfoldable pub wait_crfop : Response → Option (Outcome Error ℕ)
wait_crfop (Response.crfop n) = some (ok n)
wait_crfop (Response.err n) = some (err (Error.radio n))
wait_crfop _ = none

-- The `want` of `uid`.
unfoldable pub wait_uid : Response → Option (Outcome Error Bytes)
wait_uid (Response.uid n) = some (ok n)
wait_uid (Response.err n) = some (err (Error.radio n))
wait_uid _ = none

-- The `want` of `version`.
unfoldable pub wait_version : Response → Option (Outcome Error Bytes)
wait_version (Response.version n) = some (ok n)
wait_version (Response.err n) = some (err (Error.radio n))
wait_version _ = none

module _ ⦃v : FixedVec⦄ where
  abbrev pub submitted :
      {R : Type 0}
      → ℕ
      → (Response → Option (Outcome Error R))
      → List Round
      → Radio
      → Outcome rylr998_rs.Types.Error (Unit {0})
      → Pumped R
  submitted deadline want rounds x (ok u) = pump_until deadline want rounds x
  submitted deadline want rounds x (err e) = Pumped.returned (err (Error.core e)) x
  submitted deadline want rounds x panic = Pumped.returned panic x

  -- `self.driver.submit(cmd)?; self.pump_until(Self::deadline(timeout), want)`.
  unfoldable pub request :
      {R : Type 0}
      → Command
      → (Response → Option (Outcome Error R))
      → ℕ
      → ℕ
      → List Round
      → Radio
      → Pumped R
  request cmd want timeout start rounds x =
      let (o, d) = submit cmd x.driver in
      submitted (start + timeout) want rounds (record x { driver = d }) o

  -- `ping`.
  unfoldable pub ping : ℕ → List Round → Radio → Pumped (Unit {0})
  ping start rounds x = request Command.ping wait_ok default_timeout start rounds x

  -- `factory_reset`.
  unfoldable pub factory_reset : ℕ → List Round → Radio → Pumped (Unit {0})
  factory_reset start rounds x =
      request Command.factory_reset wait_ok factory_reset_timeout start rounds x

  -- `set_address`.
  unfoldable pub set_address : ℕ → ℕ → List Round → Radio → Pumped (Unit {0})
  set_address n start rounds x =
      request (Command.set_address n) wait_ok default_timeout start rounds x

  -- `set_network_id`.
  unfoldable pub set_network_id : ℕ → ℕ → List Round → Radio → Pumped (Unit {0})
  set_network_id n start rounds x =
      request (Command.set_network_id n) wait_ok default_timeout start rounds x

  -- `set_band`.
  unfoldable pub set_band : ℕ → ℕ → List Round → Radio → Pumped (Unit {0})
  set_band hz start rounds x = request (Command.set_band hz) wait_ok default_timeout start rounds x

  -- `set_cpin`.
  unfoldable pub set_cpin : Bytes → ℕ → List Round → Radio → Pumped (Unit {0})
  set_cpin password start rounds x =
      request (Command.set_cpin password) wait_ok default_timeout start rounds x

  -- `set_parameters`.
  unfoldable pub set_parameters : RfParams → ℕ → List Round → Radio → Pumped (Unit {0})
  set_parameters p start rounds x =
      request (Command.set_parameters p) wait_ok default_timeout start rounds x

  -- `send`.
  unfoldable pub send : ℕ → Bytes → ℕ → List Round → Radio → Pumped (Unit {0})
  send to payload start rounds x =
      request (Command.send to payload) wait_ok default_timeout start rounds x

  -- `address`.
  unfoldable pub address : ℕ → List Round → Radio → Pumped ℕ
  address start rounds x = request Command.get_address wait_address default_timeout start rounds x

  -- `network_id`.
  unfoldable pub network_id : ℕ → List Round → Radio → Pumped ℕ
  network_id start rounds x =
      request Command.get_network_id wait_network_id default_timeout start rounds x

  -- `band`.
  unfoldable pub band : ℕ → List Round → Radio → Pumped ℕ
  band start rounds x = request Command.get_band wait_band default_timeout start rounds x

  -- `cpin`.
  unfoldable pub cpin : ℕ → List Round → Radio → Pumped Bytes
  cpin start rounds x = request Command.get_cpin wait_cpin default_timeout start rounds x

  -- `parameters`.
  unfoldable pub parameters : ℕ → List Round → Radio → Pumped RfParams
  parameters start rounds x =
      request Command.get_parameters wait_parameters default_timeout start rounds x

  -- `crfop`.
  unfoldable pub crfop : ℕ → List Round → Radio → Pumped ℕ
  crfop start rounds x = request Command.get_crfop wait_crfop default_timeout start rounds x

  -- `uid`.
  unfoldable pub uid : ℕ → List Round → Radio → Pumped Bytes
  uid start rounds x = request Command.get_uid wait_uid default_timeout start rounds x

  -- `version`.
  unfoldable pub version : ℕ → List Round → Radio → Pumped Bytes
  version start rounds x = request Command.get_version wait_version default_timeout start rounds x

  -- `self.events.pop_front().ok_or(Error::Timeout)`.
  abbrev pub pop_event : Radio → List OwnedEvent → Pumped OwnedEvent
  pop_event x [] = Pumped.returned (err Error.timeout) x
  pop_event x (e ∷ es) = Pumped.returned (ok e) (record x { events = es })

  -- `pump_until(deadline, |_| None).ok()`, whose errors are dropped, then the pop.
  abbrev pub pumped_event : Pumped (Unit {0}) → Pumped OwnedEvent
  pumped_event (waiting x) = Pumped.waiting x
  pumped_event (returned (ok u) x) = pop_event x x.events
  pumped_event (returned (err e) x) = pop_event x x.events
  pumped_event (returned panic x) = Pumped.returned panic x

  -- `next_event`.
  unfoldable pub next_event : ℕ → ℕ → List Round → Radio → Pumped OwnedEvent
  next_event timeout start rounds x = elim x.events [
    | [] ↦ pumped_event (pump_until (start + timeout) (λ r. none) rounds x)
    | e ∷ es ↦ Pumped.returned (ok e) (record x { events = es })
  ]
