-- ===== src/Tool/Main.antt =====
-- The command line and `main` of rylr998-tool/src/main.rs, behind the parser of clap. What the
-- terminal, the interrupt handler and the serial port do is an argument.
use rylr998_rs.Base.{ℕ, Bool, List, [], Option, none, some, Bytes, Outcome, ok, err, panic}
use rylr998_rs.Types.{RfParams}
use rylr998_rs.FixedVec.{FixedVec}
use rylr998_rs.Radio.{Error, Radio}
use rylr998_rs.Radio.Discovery.{discover}
use rylr998_rs.Tool.Shell.{Failure, Call, Line, Ran, Session}
use rylr998_rs.Tool.Commands

-- `Cmd`.
pub data Cmd : Type 0 where
  info : Cmd
  provision : ℕ → ℕ → Option Bytes → Option ℕ → Option RfParams → Cmd
  reset : Cmd
  send : ℕ → Bytes → Cmd
  listen : Cmd

-- `Cli`.
pub record Cli : Type 0 where
  pub port : Option Bytes
  pub cmd : Cmd

-- What a run of the program meets outside the radio.
pub record Terminal : Type 0 where
  pub stdin : Outcome ℕ Bytes
  pub set_handler : Outcome ℕ (Unit {0})
  pub stops : List Bool

module _ ⦃v : FixedVec⦄ where
  -- The `match` of `main` on the command.
  unfoldable pub run_command : Cmd → Terminal → Session (Unit {0})
  run_command Cmd.info t = Commands.info
  run_command (Cmd.provision address net cpin band params) t =
      Commands.provision address net cpin band params
  run_command Cmd.reset t = Commands.reset
  run_command (Cmd.send to message) t = Commands.send t.stdin to message
  run_command Cmd.listen t = Commands.listen t.set_handler t.stops

  abbrev pub opened : (Bytes → Outcome Error Radio) → Outcome Error Bytes → Outcome Error Radio
  opened open_port (ok path) = open_port path
  opened open_port (err e) = err e
  opened open_port panic = panic

  -- The radio of `main`: `Radio::open`, on the given path or on that of `discover`.
  unfoldable pub open_radio :
      (Bytes → Outcome Error Radio) → Outcome ℕ (List Bytes) → Option Bytes → Outcome Error Radio
  open_radio open_port names (some path) = open_port path
  open_radio open_port names none = opened open_port (discover names)

  -- The exit code of a result: that of `exit(1)`, or of a panic.
  abbrev pub exit_code : Outcome Failure (Unit {0}) → ℕ
  exit_code (ok u) = 0
  exit_code (err e) = 1
  exit_code panic = 101

  -- What has been printed, and the exit code, if the command has ended.
  abbrev pub ended : Ran (Unit {0}) → List Line × Option ℕ
  ended (Ran.finished out s) = (s.printed, some (exit_code out))
  ended (Ran.pending s) = (s.printed, none)

  abbrev pub start_command : Cmd → Terminal → List Call → Outcome Error Radio → List Line × Option ℕ
  start_command cmd t calls (ok radio) =
      ended (run_command cmd t (record { radio = radio; calls = calls; printed = [] }))
  start_command cmd t calls (err e) = ([], some (exit_code (err (Failure.library e))))
  start_command cmd t calls panic = ([], some (exit_code panic))

  -- `main`.
  unfoldable pub main :
      (Bytes → Outcome Error Radio)
      → Outcome ℕ (List Bytes)
      → Cli
      → Terminal
      → List Call
      → List Line × Option ℕ
  main open_port names cli t calls =
      start_command cli.cmd t calls (open_radio open_port names cli.port)
