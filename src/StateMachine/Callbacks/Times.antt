-- ===== src/StateMachine/Callbacks/Times.antt =====
-- Processing times and results of warehouse orders: the _log_ methods of statemachine.py, the
-- start of the measurement, and the methods that run before and after each state change.
use ewm_cloud_robotics.Prelude.{
  ℕ, ◌+◌, String, Option, none, some, not, ◌&&◌, List, ◌∷◌, ◌==◌, ltb, if◌then◌else◌,
}
use ewm_cloud_robotics.Types.{WarehouseTask, WarehouseOrder}
use ewm_cloud_robotics.StateMachine.Config.{State, get_process_type, state_eq, trigger_eq, Trigger}
use ewm_cloud_robotics.StateMachine.Machine.{
  Clock, Event, WarehouseOrderTimestamps, RobotConfigurationStatus, Activity, completed, Outcome,
  succeeded, failed, Effect, save_robot_state, observe_who_time, count_who, observe_retention,
  Machine,
}

abbrev lgnum_of : Option WarehouseOrder → String
lgnum_of none = ""
lgnum_of (some o) = o.lgnum

abbrev who_of : Option WarehouseOrder → String
who_of none = ""
who_of (some o) = o.who

abbrev tanum_of : Option WarehouseTask → String
tanum_of none = ""
tanum_of (some t) = t.tanum

-- The clock is read only while a measurement runs.
unfoldable pub read_if : Option WarehouseOrderTimestamps → ℕ → ℕ
read_if none n = n
read_if (some ts) n = n + 1

module _ (w : Clock) where
  unfoldable pub save_warehouse_order_start : Machine → Machine
  save_warehouse_order_start m = record m {
    who_ts = some (record { start = w.time m.reads; end = 0; get_trolley = 0; return_trolley = 0 });
    reads = m.reads + 1;
  }

  unfoldable pub completed_time :
      Event → ℕ → Option WarehouseOrderTimestamps → List Effect → List Effect
  completed_time e n none es = es
  completed_time e n (some ts) es =
      observe_who_time (get_process_type e.state) completed ts.start (w.time n) ∷ es

  unfoldable pub log_warehouse_order_completed : Event → Machine → Machine
  log_warehouse_order_completed e m = record m {
    effects = completed_time e m.reads m.who_ts m.effects;
    who_ts = none;
    reads = read_if m.who_ts m.reads;
  }

  unfoldable pub got_trolley : ℕ → Option WarehouseOrderTimestamps → Option WarehouseOrderTimestamps
  got_trolley n none = none
  got_trolley n (some ts) = some (record ts { get_trolley = w.time n })

  -- Measured from the last return, if there was one, and else from the start.
  unfoldable pub get_trolley_time :
      Event → ℕ → Option WarehouseOrderTimestamps → List Effect → List Effect
  get_trolley_time e n none es = es
  get_trolley_time e n (some ts) es =
      observe_who_time (get_process_type e.state) Activity.get_trolley
        (if ts.return_trolley == 0 then ts.start else ts.return_trolley) (w.time n)
      ∷ es

  unfoldable pub log_get_trolley_completed : Event → Machine → Machine
  log_get_trolley_completed e m = record m {
    effects = get_trolley_time e m.reads m.who_ts m.effects;
    who_ts = got_trolley m.reads m.who_ts;
    reads = read_if m.who_ts m.reads;
  }

  unfoldable pub returned_trolley :
      ℕ → Option WarehouseOrderTimestamps → Option WarehouseOrderTimestamps
  returned_trolley n none = none
  returned_trolley n (some ts) = some (record ts { return_trolley = w.time n })

  unfoldable pub return_trolley_time :
      Event → ℕ → Option WarehouseOrderTimestamps → List Effect → List Effect
  return_trolley_time e n none es = es
  return_trolley_time e n (some ts) es =
      observe_who_time (get_process_type e.state) Activity.return_trolley ts.get_trolley (w.time n)
      ∷ es

  unfoldable pub log_return_trolley_completed : Event → Machine → Machine
  log_return_trolley_completed e m = record m {
    effects = return_trolley_time e m.reads m.who_ts m.effects;
    who_ts = returned_trolley m.reads m.who_ts;
    reads = read_if m.who_ts m.reads;
  }

  abbrev count : Event → Outcome → Machine → Machine
  count e r m = record m { effects = count_who (get_process_type e.state) r ∷ m.effects }

  unfoldable pub log_warehouse_order_fail : Event → Machine → Machine
  unfolding log_warehouse_order_completed
  log_warehouse_order_fail e m = count e failed (
      log_warehouse_order_completed e
        (record m { failed_warehouseorders = m.failed_warehouseorders + 1 }))

  unfoldable pub log_warehouse_order_success : Event → Machine → Machine
  unfolding log_warehouse_order_completed
  log_warehouse_order_success e m =
      count e succeeded (log_warehouse_order_completed e (record m { failed_warehouseorders = 0 }))

  -- `maxIdleTime` replaces the timeout of the state `idle`, if it is set.
  unfoldable pub next_timeout : ℕ → ℕ → ℕ
  next_timeout max_idle_time timeout = if ltb 0 max_idle_time then max_idle_time else timeout

  -- _run_before_state_change
  unfoldable pub run_before_state_change : Machine → Machine
  run_before_state_change m = record m {
    effects = observe_retention m.state m.state_enter_ts (w.time m.reads) ∷ m.effects;
    idle_timeout = next_timeout m.robot_config.conf.max_idle_time m.idle_timeout;
    reads = m.reads + 1;
  }

  -- The error counter of the state that was left is reset, unless a failed mission caused it.
  abbrev reset_errors : Event → State → (State → ℕ) → State → ℕ
  reset_errors e now count s =
      if not (state_eq now e.state)
        && not (trigger_eq e.cause.trigger Trigger.mission_failed)
        && state_eq s e.state
      then 0
      else count s

  abbrev status_of : Machine → String → RobotConfigurationStatus
  status_of m date = record {
    statemachine = m.state;
    mission = m.active_mission;
    lgnum = lgnum_of m.active_who;
    who = who_of m.active_who;
    tanum = tanum_of m.active_wht;
    subwho = who_of m.active_sub_who;
    update_time = date;
  }

  -- _run_after_state_change
  unfoldable pub run_after_state_change : Event → Machine → Machine
  run_after_state_change e m = record m {
    state_enter_ts = w.time m.reads;
    error_count = reset_errors e m.state m.error_count;
    effects = save_robot_state (status_of m (w.isoformat (m.reads + 1))) ∷ m.effects;
    reads = m.reads + 2;
  }
