-- ===== src/Supervisor/Settings.antt =====
-- src/supervisor/supervisor.ts: the settings, their defaults and `validateSupervisor`.
use opiumo.Number.{Number, nought}
use opiumo.Base.{
  Bool, List, Option, Result, Text, [], codes, err, if◌then◌else◌, none, ok, some, true, ◌*◌, ◌>>=◌,
  ◌∷◌,
}

pub record SupervisorConfig (R : Type 0) : Type 0 where
  pub enabled : Bool
  pub heartbeat_file : Text
  pub heartbeat_write_interval_ms : R
  pub ws_silence_window_ms : R
  pub check_interval_ms : R
  pub startup_grace_ms : R
  pub kill_grace_ms : R
  pub start_command : List Text
  pub bot_stdout_file : Text
  pub log_file : Text

-- What the file holds: `none` is a value of another type than the declared one.
pub record RawSupervisor (R : Type 0) : Type 0 where
  pub heartbeat_write_interval_ms : Option R
  pub ws_silence_window_ms : Option R
  pub check_interval_ms : Option R
  pub startup_grace_ms : Option R
  pub kill_grace_ms : Option R
  pub start_command : Option (List Text)

pub data SupervisorError : Type 0 where
  not_positive : Text → SupervisorError
  window_too_short no_command : SupervisorError

abbrev pub check_command : Option (List Text) → Result SupervisorError (Unit {0})
check_command none = err no_command
check_command (some []) = err no_command
check_command (some (w ∷ ws)) = ok tt

module _ {R : Type 0} ⦃n : Number R⦄ where
  open n use {of_nat, le, lt}

  abbrev pub default_supervisor : SupervisorConfig R
  default_supervisor = record {
    enabled = true;
    heartbeat_file = codes "logs/heartbeat.json";
    heartbeat_write_interval_ms = of_nat 5_000;
    ws_silence_window_ms = of_nat (5 * 60_000);
    check_interval_ms = of_nat 30_000;
    startup_grace_ms = of_nat (5 * 60_000);
    kill_grace_ms = of_nat 35_000;
    start_command = codes "node" ∷ codes "dist/src/index.js" ∷ [];
    bot_stdout_file = codes "logs/bot-stdout.log";
    log_file = codes "logs/supervisor.jsonl";
  }

  unfoldable pub positive : Text → Option R → Result SupervisorError R
  positive k none = err (not_positive k)
  positive k (some v) = if lt nought v then ok v else err (not_positive k)

  abbrev pub check_window : R → R → Result SupervisorError (Unit {0})
  check_window window interval = if le window interval then err window_too_short else ok tt

  unfoldable pub validate_supervisor : RawSupervisor R → Result SupervisorError (Unit {0})
  validate_supervisor s = do
    interval ← positive (codes "heartbeatWriteIntervalMs") s.heartbeat_write_interval_ms
    window ← positive (codes "wsSilenceWindowMs") s.ws_silence_window_ms
    check ← positive (codes "checkIntervalMs") s.check_interval_ms
    startup ← positive (codes "startupGraceMs") s.startup_grace_ms
    kill ← positive (codes "killGraceMs") s.kill_grace_ms
    exceeds ← check_window window interval
    check_command s.start_command
