-- ===== src/Supervisor/Restarts.antt =====
-- When the supervisor restarts the bot.
use opiumo.Schedule.Windows.{evaluate_schedule, ScheduleDecision}
use opiumo.Base.{Option, none, ok, some, true, ℕ, ◌+◌, ◌≡◌, ◌≤◌, ◌⊎◌}
use opiumo.Supervisor.Deciding.{HeartbeatFile, SupervisorInput, last_ws, reference}

-- The bot has given no sign of life for the whole window.
abbrev pub IsSilent : SupervisorInput → Option HeartbeatFile → Type 0
IsSilent i none = reference i + i.ws_silence_window_ms ≤ i.now_ms
IsSilent i (some h) =
    (h.updated_at + i.ws_silence_window_ms ≤ i.now_ms)
    ⊎ ((i.watcher_enabled ≡ true) × (last_ws i h + i.ws_silence_window_ms ≤ i.now_ms))

abbrev pub IsSettled : SupervisorInput → Option ℕ → Type 0
IsSettled i none = Unit
IsSettled i (some t) = t + i.startup_grace_ms ≤ i.now_ms

-- The schedule is ignored, or it says that the bot is on.
abbrev pub IsOn : SupervisorInput → Type 0
IsOn i =
    (i.ignore_schedule ≡ true)
    ⊎ ((d : ScheduleDecision) × (evaluate_schedule i.schedule i.now_ms ≡ ok d) × (d.active ≡ true))
