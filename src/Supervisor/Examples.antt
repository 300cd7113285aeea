-- ===== src/Supervisor/Examples.antt =====
-- A supervisor's tick over a dead socket, and the theorems at it.
use opiumo.Number.Integers.{ℤ_number}
use opiumo.Int.{pos, ℤ}
use opiumo.Schedule.Windows.{ScheduleConfig, validate_windows, evaluate_schedule, validate_schedule}
use opiumo.Base.{[], codes, false, none, ok, refl, some, text_eq, true, ◌∷◌, ◌≡◌}
use opiumo.Supervisor.Deciding.{
  HeartbeatFile, SupervisorDecision, SupervisorInput, dead_socket, decide_supervisor, decision,
  detection_off, judge_bot, judge_heartbeat, okay, restart,
}
use opiumo.Supervisor.Settings.{RawSupervisor}

-- A scheduler that is switched off: the bot is always on.
abbrev always : ScheduleConfig
always = record {
  enabled = false;
  timezone = codes "UTC";
  active_windows = [];
  outside_window = codes "idle";
}

abbrev beat : HeartbeatFile
beat = record {
  pid = 7;
  started_at = 1000;
  last_ws_message_at = some 400_000;
  last_detection_at = none;
  updated_at = 899_000;
  ws_messages = 5;
  detections = 0;
  write_failures = 0;
}

abbrev tick : SupervisorInput
tick = record {
  now_ms = 900_000;
  heartbeat = some beat;
  bot_alive = some true;
  last_restart_at_ms = some 100_000;
  supervisor_started_at_ms = 0;
  last_readable_at_ms = some 890_000;
  watcher_enabled = true;
  schedule = always;
  ignore_schedule = false;
  ws_silence_window_ms = 300_000;
  startup_grace_ms = 300_000;
  heartbeat_write_interval_ms = 5_000;
}

abbrev restarted : SupervisorDecision
restarted = decision restart dead_socket (some (pos 500_000)) (some (pos 1_000))

-- Without detection the same tick is fine.
no_socket_to_watch :
    decide_supervisor (record tick { watcher_enabled = false })
    ≡ ok (decision okay detection_off none (some (pos 1_000)))
unfolding decide_supervisor judge_bot judge_heartbeat evaluate_schedule
no_socket_to_watch = refl

always_is_valid : validate_schedule always ≡ ok tt
unfolding validate_schedule validate_windows text_eq
always_is_valid = refl

abbrev settings : RawSupervisor ℤ
settings = record {
  heartbeat_write_interval_ms = some (pos 5_000);
  ws_silence_window_ms = some (pos 300_000);
  check_interval_ms = some (pos 30_000);
  startup_grace_ms = some (pos 300_000);
  kill_grace_ms = some (pos 35_000);
  start_command = some (codes "node" ∷ []);
}
