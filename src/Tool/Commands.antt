-- ===== src/Tool/Commands.antt =====
-- rylr998-tool/src/commands.rs. What the standard input and the interrupt handler do is an argument.
use rylr998_rs.Base.{
  ℕ, ◌==◌, ◌&&◌, Bool, true, false, List, [], ◌∷◌, Option, none, some, if◌then◌else◌, Bytes, codes,
  eq_bytes, Outcome, ok, err, panic,
}
use rylr998_rs.Types.{RfParams, OwnedEvent}
use rylr998_rs.FixedVec.{FixedVec}
use rylr998_rs.Radio.{Error}
use rylr998_rs.Radio.Methods
use rylr998_rs.Tool.Ascii.{eq_ignore_ascii_case}
use rylr998_rs.Tool.Shell.{
  Field, Failure, Line, Ran, Session, Method, pure, fail, ◌>>=◌, print, attempt, question, call,
}

-- `marker`. It is given no panic.
abbrev pub marker : Outcome Error (Unit {0}) → Bytes
marker (ok u) = codes "ok"
marker _ = codes "fail"

-- `p == q` on the parameters.
abbrev pub eq_params : RfParams → RfParams → Bool
eq_params p q = p.sf == q.sf && (p.bw == q.bw && (p.cr == q.cr && p.preamble == q.preamble))

-- `if read != wanted { return Err(verify_failed(field)) }`.
abbrev pub verify : Field → Bool → Session (Unit {0})
verify field true = pure tt
verify field false = fail (Failure.verify_failed field)

-- A block of `provision`: set, read back, compare.
unfoldable pub set_and_verify :
    {A : Type 0}
    → Field
    → (A → Method (Unit {0}))
    → Method A
    → (A → A → Bool)
    → A
    → Session (Unit {0})
set_and_verify field set get same wanted = do
  u ← call (set wanted)
  a ← call get
  verify field (same a wanted)

-- `if let Some(wanted) = ...`.
abbrev pub if_some : {A : Type 0} → Option A → (A → Session (Unit {0})) → Session (Unit {0})
if_some none run = pure tt
if_some (some a) run = run a

module _ ⦃v : FixedVec⦄ where
  -- `info`.
  unfoldable pub info : Session (Unit {0})
  info = do
    r ← attempt Methods.ping
    u ← print (Line.ping (marker r))
    address ← call Methods.address
    u ← print (Line.address address)
    network_id ← call Methods.network_id
    u ← print (Line.network_id network_id)
    band ← call Methods.band
    u ← print (Line.band band)
    cpin ← call Methods.cpin
    u ← print (Line.cpin cpin)
    p ← call Methods.parameters
    u ← print (Line.parameters p)
    crfop ← call Methods.crfop
    u ← print (Line.crfop crfop)
    uid ← call Methods.uid
    u ← print (Line.uid uid)
    version ← call Methods.version
    print (Line.version version)

  -- The blocks of `provision`.
  abbrev pub address_block : ℕ → Session (Unit {0})
  address_block = set_and_verify Field.address Methods.set_address Methods.address ◌==◌

  abbrev pub network_id_block : ℕ → Session (Unit {0})
  network_id_block = set_and_verify Field.network_id Methods.set_network_id Methods.network_id ◌==◌

  abbrev pub cpin_block : Bytes → Session (Unit {0})
  cpin_block = set_and_verify Field.cpin Methods.set_cpin Methods.cpin eq_ignore_ascii_case

  abbrev pub band_block : ℕ → Session (Unit {0})
  band_block = set_and_verify Field.band Methods.set_band Methods.band ◌==◌

  abbrev pub params_block : RfParams → Session (Unit {0})
  params_block = set_and_verify Field.parameters Methods.set_parameters Methods.parameters eq_params

  -- `provision`.
  unfoldable pub provision : ℕ → ℕ → Option Bytes → Option ℕ → Option RfParams → Session (Unit {0})
  provision address net cpin band params = do
    u ← address_block address
    u ← network_id_block net
    u ← if_some cpin cpin_block
    u ← if_some band band_block
    u ← if_some params params_block
    print (Line.provisioned address net cpin band params)

  -- `reset`.
  unfoldable pub reset : Session (Unit {0})
  reset = call Methods.factory_reset

  -- The outcome of `read_to_end` on the standard input, with `?`.
  abbrev pub read_stdin : Outcome ℕ Bytes → Session Bytes
  read_stdin (ok bytes) = pure bytes
  read_stdin (err e) = fail (Failure.library (Error.io e))
  read_stdin panic = question panic

  -- `send`, on what the standard input holds.
  unfoldable pub send : Outcome ℕ Bytes → ℕ → Bytes → Session (Unit {0})
  send stdin to message = do
    bytes ← (if eq_bytes message (codes "-") then read_stdin stdin else pure message)
    u ← call (Methods.send to bytes)
    print Line.sent

  -- The `match` of `listen` on what `next_event` returns.
  abbrev pub match_event : Outcome Error OwnedEvent → Session (Unit {0})
  match_event (ok e) = print (Line.event e)
  match_event (err Error.timeout) = pure tt
  match_event (err e) = fail (Failure.library e)
  match_event panic = question panic

  -- The loop of `listen`, on the values of `stop` at its turns.
  unfoldable pub listen_loop : List Bool → Session (Unit {0})
  listen_loop [] = Ran.pending
  listen_loop (true ∷ stops) = pure tt
  listen_loop (false ∷ stops) = do
    r ← attempt (Methods.next_event 1000)
    u ← match_event r
    listen_loop stops

  -- The outcome of `set_handler`, with `?`.
  abbrev pub handler_set : Outcome ℕ (Unit {0}) → Session (Unit {0})
  handler_set (ok u) = pure tt
  handler_set (err e) = fail (Failure.library (Error.io e))
  handler_set panic = question panic

  -- `listen`.
  unfoldable pub listen : Outcome ℕ (Unit {0}) → List Bool → Session (Unit {0})
  listen set_handler stops = handler_set set_handler >>= λ u. listen_loop stops
