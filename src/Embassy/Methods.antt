-- ===== src/Embassy/Methods.antt =====
-- The methods of `Radio` in rylr998-embassy/src/lib.rs. A method submits its command and pumps until its
-- answer; `start` is the time at which it takes its deadline.
use rylr998_rs.Base.{
  ℕ, ◌+◌, List, Option, none, some, map_option, ltb, if◌then◌else◌, Bytes, length, Outcome, ok, err,
  panic,
}
use rylr998_rs.Types.{Command, Response, Event, RfParams}
use rylr998_rs.FixedVec.{FixedVec}
use rylr998_rs.Driver.{submit}
use rylr998_rs.Embassy.{UartError, UartRadio, UartRound, UartPumped, uart_loop}

-- `DEFAULT_TIMEOUT`, in milliseconds.
abbrev pub default_timeout : ℕ
default_timeout = 1000

-- `FACTORY_RESET_TIMEOUT`, in milliseconds.
abbrev pub factory_reset_timeout : ℕ
factory_reset_timeout = 2000

-- `wait_ok`.
unfoldable pub wait_ok : Response → Option (Outcome UartError (Unit {0}))
wait_ok Response.ok = some (ok tt)
wait_ok (Response.err n) = some (err (UartError.radio n))
wait_ok _ = none

-- The `want` of `address`.
unfoldable pub wait_address : Response → Option (Outcome UartError ℕ)
wait_address (Response.address n) = some (ok n)
wait_address (Response.err n) = some (err (UartError.radio n))
wait_address _ = none

-- The `want` of `network_id`.
unfoldable pub wait_network_id : Response → Option (Outcome UartError ℕ)
wait_network_id (Response.network_id n) = some (ok n)
wait_network_id (Response.err n) = some (err (UartError.radio n))
wait_network_id _ = none

-- The `want` of `band`.
unfoldable pub wait_band : Response → Option (Outcome UartError ℕ)
wait_band (Response.band n) = some (ok n)
wait_band (Response.err n) = some (err (UartError.radio n))
wait_band _ = none

-- The `want` of `parameters`.
unfoldable pub wait_parameters : Response → Option (Outcome UartError RfParams)
wait_parameters (Response.parameters n) = some (ok n)
wait_parameters (Response.err n) = some (err (UartError.radio n))
wait_parameters _ = none

-- The `want` of `crfop`.
unfoldable pub wait_crfop : Response → Option (Outcome UartError ℕ)
wait_crfop (Response.crfop n) = some (ok n)
wait_crfop (Response.err n) = some (err (UartError.radio n))
wait_crfop _ = none

-- `push_str` into an empty string of eight bytes.
abbrev pub into_eight : Bytes → Outcome UartError Bytes
into_eight s = if ltb 8 (length s) then err (UartError.core rylr998_rs.Types.Error.parse) else ok s

-- The `want` of `cpin`.
unfoldable pub wait_cpin : Response → Option (Outcome UartError Bytes)
wait_cpin (Response.cpin s) = some (into_eight s)
wait_cpin (Response.err n) = some (err (UartError.radio n))
wait_cpin _ = none

module _ ⦃v : FixedVec⦄ where
  -- `pump_until`: an event is only logged.
  unfoldable pub pump_until :
      {R : Type 0}
      → ℕ
      → (Response → Option (Outcome UartError R))
      → List UartRound
      → UartRadio
      → UartPumped R
  pump_until deadline want rounds x =
      uart_loop deadline (record { on_response = want; on_event = λ e. none }) rounds x

  -- `next_event`: a response is passed over.
  unfoldable pub next_event :
      {R : Type 0} → ℕ → ℕ → (Event → Option R) → List UartRound → UartRadio → UartPumped R
  next_event timeout start handler rounds x =
      uart_loop (start + timeout)
        (record { on_response = λ r. none; on_event = λ e. map_option (λ r. ok r) (handler e) })
        rounds x

  abbrev pub submitted :
      {R : Type 0}
      → ℕ
      → (Response → Option (Outcome UartError R))
      → List UartRound
      → UartRadio
      → Outcome rylr998_rs.Types.Error (Unit {0})
      → UartPumped R
  submitted deadline want rounds x (ok u) = pump_until deadline want rounds x
  submitted deadline want rounds x (err e) = UartPumped.returned (err (UartError.core e)) x
  submitted deadline want rounds x panic = UartPumped.returned panic x

  -- `self.driver.submit(cmd)?; self.pump_until(Self::deadline(timeout), want).await`.
  unfoldable pub request :
      {R : Type 0}
      → Command
      → (Response → Option (Outcome UartError R))
      → ℕ
      → ℕ
      → List UartRound
      → UartRadio
      → UartPumped R
  request cmd want timeout start rounds x =
      let (o, d) = submit cmd x.driver in
      submitted (start + timeout) want rounds (record x { driver = d }) o

  -- `ping`.
  unfoldable pub ping : ℕ → List UartRound → UartRadio → UartPumped (Unit {0})
  ping start rounds x = request Command.ping wait_ok default_timeout start rounds x

  -- `set_address`.
  unfoldable pub set_address : ℕ → ℕ → List UartRound → UartRadio → UartPumped (Unit {0})
  set_address n start rounds x =
      request (Command.set_address n) wait_ok default_timeout start rounds x

  -- `set_network_id`.
  unfoldable pub set_network_id : ℕ → ℕ → List UartRound → UartRadio → UartPumped (Unit {0})
  set_network_id n start rounds x =
      request (Command.set_network_id n) wait_ok default_timeout start rounds x

  -- `set_band`.
  unfoldable pub set_band : ℕ → ℕ → List UartRound → UartRadio → UartPumped (Unit {0})
  set_band hz start rounds x = request (Command.set_band hz) wait_ok default_timeout start rounds x

  -- `set_cpin`.
  unfoldable pub set_cpin : Bytes → ℕ → List UartRound → UartRadio → UartPumped (Unit {0})
  set_cpin password start rounds x =
      request (Command.set_cpin password) wait_ok default_timeout start rounds x

  -- `set_parameters`.
  unfoldable pub set_parameters : RfParams → ℕ → List UartRound → UartRadio → UartPumped (Unit {0})
  set_parameters p start rounds x =
      request (Command.set_parameters p) wait_ok default_timeout start rounds x

  -- `factory_reset`.
  unfoldable pub factory_reset : ℕ → List UartRound → UartRadio → UartPumped (Unit {0})
  factory_reset start rounds x =
      request Command.factory_reset wait_ok factory_reset_timeout start rounds x

  -- `send`.
  unfoldable pub send : ℕ → Bytes → ℕ → List UartRound → UartRadio → UartPumped (Unit {0})
  send to payload start rounds x =
      request (Command.send to payload) wait_ok default_timeout start rounds x

  -- `address`.
  unfoldable pub address : ℕ → List UartRound → UartRadio → UartPumped ℕ
  address start rounds x = request Command.get_address wait_address default_timeout start rounds x

  -- `network_id`.
  unfoldable pub network_id : ℕ → List UartRound → UartRadio → UartPumped ℕ
  network_id start rounds x =
      request Command.get_network_id wait_network_id default_timeout start rounds x

  -- `band`.
  unfoldable pub band : ℕ → List UartRound → UartRadio → UartPumped ℕ
  band start rounds x = request Command.get_band wait_band default_timeout start rounds x

  -- `parameters`.
  unfoldable pub parameters : ℕ → List UartRound → UartRadio → UartPumped RfParams
  parameters start rounds x =
      request Command.get_parameters wait_parameters default_timeout start rounds x

  -- `crfop`.
  unfoldable pub crfop : ℕ → List UartRound → UartRadio → UartPumped ℕ
  crfop start rounds x = request Command.get_crfop wait_crfop default_timeout start rounds x

  -- `cpin`.
  unfoldable pub cpin : ℕ → List UartRound → UartRadio → UartPumped Bytes
  cpin start rounds x = request Command.get_cpin wait_cpin default_timeout start rounds x
