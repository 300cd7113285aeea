-- ===== src/Supervisor/Deciding.antt =====
-- src/supervisor/supervisor.ts: `decideSupervisor`. Times are what `Date.parse` gives of valid ones,
-- in milliseconds; of the reasons, which are prose, the kind is kept. An input that leaves out
-- `watcherEnabled`, `ignoreSchedule` or `lastReadableAtMs` has true, false and none there.
use opiumo.Schedule.Windows.{evaluate_schedule, ScheduleConfig, ScheduleDecision}
use opiumo.Schedule.Parsing.{ScheduleError}
use opiumo.Int.{ℤ, sub_ℕ}
use opiumo.Base.{
  Bool, Option, Result, false, if◌then◌else◌, is_some, leb, ltb, none, not, ok, some, ℕ, ◌+◌, ◌>>=◌,
}

pub record HeartbeatFile : Type 0 where
  pub pid : ℕ
  pub started_at : ℕ
  pub last_ws_message_at : Option ℕ
  pub last_detection_at : Option ℕ
  pub updated_at : ℕ
  pub ws_messages : ℕ
  pub detections : ℕ
  pub write_failures : ℕ

pub data SupervisorAction : Type 0 where
  restart wait off_hours grace okay : SupervisorAction

pub data SupervisorReason : Type 0 where
  schedule_off just_restarted unreadable still_unreadable frozen detection_off : SupervisorReason
  never_came_up dead_socket heard : SupervisorReason

pub record SupervisorInput : Type 0 where
  pub now_ms : ℕ
  pub heartbeat : Option HeartbeatFile
  pub bot_alive : Option Bool
  pub last_restart_at_ms : Option ℕ
  pub supervisor_started_at_ms : ℕ
  pub last_readable_at_ms : Option ℕ
  pub watcher_enabled : Bool
  pub schedule : ScheduleConfig
  pub ignore_schedule : Bool
  pub ws_silence_window_ms : ℕ
  pub startup_grace_ms : ℕ
  pub heartbeat_write_interval_ms : ℕ

pub record SupervisorDecision : Type 0 where
  pub action : SupervisorAction
  pub reason : SupervisorReason
  pub silent_for_ms : Option ℤ
  pub heartbeat_age_ms : Option ℤ

abbrev pub or_zero : Option ℕ → ℕ
or_zero none = 0
or_zero (some t) = t

abbrev pub later_of : ℕ → ℕ → ℕ
later_of a b = if ltb a b then b else a

abbrev pub or_else : Option ℕ → ℕ → ℕ
or_else none t = t
or_else (some s) t = s

abbrev pub decision : SupervisorAction → SupervisorReason → Option ℤ → Option ℤ → SupervisorDecision
decision action reason silent age = record {
  action = action;
  reason = reason;
  silent_for_ms = silent;
  heartbeat_age_ms = age;
}

-- Whether `window` has passed at `now` since `from`.
abbrev pub passed : ℕ → ℕ → ℕ → Bool
passed window from now = leb (from + window) now

module _ (i : SupervisorInput) where
  abbrev pub age_of : Option HeartbeatFile → Option ℤ
  age_of none = none
  age_of (some h) = some (sub_ℕ i.now_ms h.updated_at)

  -- The reference against which a missing heartbeat is judged.
  abbrev pub reference : ℕ
  reference =
      later_of (later_of i.supervisor_started_at_ms (or_zero i.last_restart_at_ms))
        (or_zero i.last_readable_at_ms)

  abbrev pub last_ws : HeartbeatFile → ℕ
  last_ws h = or_else h.last_ws_message_at h.started_at

  unfoldable pub judge_heartbeat : Option HeartbeatFile → SupervisorDecision
  judge_heartbeat none =
      let since = some (sub_ℕ i.now_ms reference) in
      if passed i.ws_silence_window_ms reference i.now_ms
      then decision restart unreadable since none
      else decision wait still_unreadable since none
  judge_heartbeat (some h) =
      let age = sub_ℕ i.now_ms h.updated_at in
      let silent = sub_ℕ i.now_ms (last_ws h) in
      if passed i.ws_silence_window_ms h.updated_at i.now_ms
      then decision restart frozen (some age) (some age)
      else (if not i.watcher_enabled
          then decision okay detection_off none (some age)
          else (if passed i.ws_silence_window_ms (last_ws h) i.now_ms
              then decision restart
                  (if is_some h.last_ws_message_at then dead_socket else never_came_up)
                  (some silent) (some age)
              else decision okay heard (some silent) (some age)))

  abbrev pub within_grace : Option ℕ → Bool
  within_grace none = false
  within_grace (some t) = ltb i.now_ms (t + i.startup_grace_ms)

  -- The decision in ON hours.
  unfoldable pub judge_bot : SupervisorDecision
  unfolding judge_heartbeat
  judge_bot =
      if within_grace i.last_restart_at_ms
      then decision grace just_restarted none (age_of i.heartbeat)
      else judge_heartbeat i.heartbeat

  abbrev pub scheduled : ScheduleDecision → Result ScheduleError SupervisorDecision
  scheduled sched = ok (
      if not sched.active
      then decision off_hours schedule_off none (age_of i.heartbeat)
      else judge_bot)

  unfoldable pub decide_supervisor : Result ScheduleError SupervisorDecision
  unfolding judge_bot
  decide_supervisor =
      if i.ignore_schedule
      then ok judge_bot
      else (do sched ← evaluate_schedule i.schedule i.now_ms; scheduled sched)
