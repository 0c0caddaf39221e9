-- ===== src/OrderManager/RobotConfig.antt =====
-- process_robotconfig_cr of manager.py: orders are taken from a robot that cannot work on them, and
-- work is requested for one that waits. Times are in seconds; `isoparse` reads one from a text.
use ewm_cloud_robotics.Prelude.{
  ℕ, ◌+◌, String, str_eq, Bool, true, false, not, ◌&&◌, Option, none, some, List, [], ◌∷◌,
  if◌then◌else◌, any, leb, ltb, Result, ok, err,
}
use ewm_cloud_robotics.Types.{
  ConfirmWarehouseTask, ConfirmationNumber, first_conf, ConfirmationType, conf_success, Mode, run,
  stop,
}
use ewm_cloud_robotics.StateMachine.Config.{
  State, charging, state_eq, idle_states, error_states, among,
}
use ewm_cloud_robotics.OrderManager.Controller.{OrderSpec}
use ewm_cloud_robotics.OrderManager.Orders.{get_running_whos, check_for_running_whos}
use ewm_cloud_robotics.OrderManager.Manager.{
  EwmError, no_order_found, key_error, unassign_robot_warehouseorder, Ewm, EwmOrderManager, Outcome,
  done, failure, send, cleanup,
}
use ewm_cloud_robotics.OrderManager.Work.{◌and_then◌, get_and_send_robot_whos}
use ewm_cloud_robotics.OrderManager.Auctions.{Dict, get, put, Running, is_running}

-- `statemachine` is `none` for a text that names no state.
pub record RobotConfigurationStatus : Type 0 where
  pub statemachine : Option State
  pub mission : String
  pub lgnum : String
  pub who : String
  pub tanum : String
  pub subwho : String
  pub update_time : String

abbrev same_state : Option State → Option State → Bool
same_state none none = true
same_state (some s) (some t) = state_eq s t
same_state _ _ = false

unfoldable pub conf_status_eq : RobotConfigurationStatus → RobotConfigurationStatus → Bool
conf_status_eq a b =
    same_state a.statemachine b.statemachine
    && str_eq a.mission b.mission
    && str_eq a.lgnum b.lgnum
    && str_eq a.who b.who
    && str_eq a.tanum b.tanum
    && str_eq a.subwho b.subwho
    && str_eq a.update_time b.update_time

abbrev pub default_status : RobotConfigurationStatus
default_status = record {
  statemachine = none;
  mission = "";
  lgnum = "";
  who = "";
  tanum = "";
  subwho = "";
  update_time = "1970-01-01T00:00:00.000000Z";
}

abbrev pub status_or_default : Option RobotConfigurationStatus → RobotConfigurationStatus
status_or_default none = default_status
status_or_default (some s) = s

-- What the spec of the resource and the status of the robot hold.
pub record RobotConfig : Type 0 where
  pub lgnum : String
  pub mode : Mode
  pub battery_min : ℕ

pub record RobotStatus : Type 0 where
  pub is_available : Bool
  pub battery_percentage : ℕ
  pub update_time : String

abbrev pub state_among : List State → Option State → Bool
state_among states none = false
state_among states (some s) = among states s

abbrev pub is_charging : Option State → Bool
is_charging none = false
is_charging (some s) = state_eq s charging

abbrev pub is_stop : Mode → Bool
is_stop stop = true
is_stop _ = false

abbrev pub is_run : Mode → Bool
is_run run = true
is_run _ = false

abbrev pub is_first : ConfirmationNumber → Bool
is_first first_conf = true
is_first _ = false

abbrev pub is_success : ConfirmationType → Bool
is_success conf_success = true
is_success _ = false

-- A confirmation after which an order stays with its robot.
abbrev pub is_first_success : ConfirmWarehouseTask → Bool
is_first_success c = is_first c.confirmationnumber && is_success c.confirmationtype

-- The manager with the statuses that were processed before.
pub record ConfigManager : Type 0 where
  pub manager : EwmOrderManager
  pub robot_conf_status : Dict RobotConfigurationStatus

pub record ConfigOutcome : Type 0 where
  pub raised : Option EwmError
  pub after : ConfigManager

module _ (lower upper : String → String) (time : ℕ → ℕ) (isoparse : String → Option ℕ)
    (ewm : Ewm) where
  abbrev older : ℕ → Option ℕ → ℕ → Bool
  older age none now = true
  older age (some t) now = ltb (t + age) now

  -- An update time that cannot be read counts as old.
  unfoldable pub must_unassign : RobotConfig → RobotConfigurationStatus → ℕ → Bool
  must_unassign spec s now =
      if is_charging s.statemachine
      then true
      else if is_stop spec.mode && state_among idle_states s.statemachine
      then true
      else state_among error_states s.statemachine && older 600 (isoparse s.update_time) now

  -- After EWM was asked to take the order from its robot.
  unfoldable pub unassigned : OrderSpec → Option EwmError → EwmOrderManager → Outcome
  unassigned o none m =
      cleanup lower time ewm (record { lgnum = o.data'.lgnum; who = o.data'.who }) m
  unassigned o (some no_order_found) m =
      cleanup lower time ewm (record { lgnum = o.data'.lgnum; who = o.data'.who }) m
  unassigned o (some e) m = failure e m

  unfoldable pub unassign_one : OrderSpec → List ConfirmWarehouseTask → EwmOrderManager → Outcome
  unfolding unassigned
  unassign_one o confs m =
      let d = o.data' in
      let n = send (unassign_robot_warehouseorder d.lgnum d.rsrc d.who) m in
      if any is_first_success confs then done m else unassigned o (ewm.confirm n.ewm_requests) n

  unfoldable pub unassign_all :
      List (OrderSpec × List ConfirmWarehouseTask) → EwmOrderManager → Outcome
  unfolding unassign_one
  unassign_all [] m = done m
  unassign_all ((o, confs) ∷ whos) m = unassign_one o confs m and_then λ n. unassign_all whos n

  unfoldable pub unassign_found :
      Result (List (OrderSpec × List ConfirmWarehouseTask)) → EwmOrderManager → Outcome
  unfolding unassign_all
  unassign_found (ok whos) m = unassign_all whos m
  unassign_found (err e) m = failure key_error m

  unfoldable pub unassign_robot : String → EwmOrderManager → Outcome
  unfolding unassign_found
  unassign_robot robot m = unassign_found (get_running_whos robot m.ordercontroller.cr_cache) m

  -- The robot waits for work: it may be asked for.
  abbrev pub may_work : RobotConfig → RobotConfigurationStatus → RobotStatus → Bool
  may_work spec s r =
      is_run spec.mode
      && state_among idle_states s.statemachine
      && r.is_available
      && leb spec.battery_min r.battery_percentage

  request_new : ℕ → RobotConfig → String → Option ℕ → EwmOrderManager → Outcome
  unfolding get_and_send_robot_whos
  request_new fuel spec robot none m = done m
  request_new fuel spec robot (some t) m =
      if ltb (t + 120) (time m.reads)
      then done (record m { reads = m.reads + 1 })
      else get_and_send_robot_whos lower time ewm fuel spec.lgnum (upper robot) false true
          (record m { reads = m.reads + 1 })

  -- Unless the robot has a running order or gets its orders by auction.
  unfoldable pub after_check :
      ℕ → RobotConfig → String → RobotStatus → Result Bool → Running → EwmOrderManager → Outcome
  unfolding request_new
  after_check fuel spec robot r (ok false) (is_running false) m =
      request_new fuel spec robot (isoparse r.update_time) m
  after_check fuel spec robot r (ok false) (is_running true) m = done m
  after_check fuel spec robot r (ok false) Running.key_error m = failure key_error m
  after_check fuel spec robot r (ok true) auction m = done m
  after_check fuel spec robot r (err e) auction m = failure key_error m

  unfoldable pub request_work :
      ℕ
      → RobotConfig
      → String
      → RobotConfigurationStatus
      → RobotStatus
      → Running
      → EwmOrderManager
      → Outcome
  unfolding after_check
  request_work fuel spec robot s r auction m =
      if may_work spec s r
      then after_check fuel spec robot r (check_for_running_whos robot m.ordercontroller.cr_cache)
          auction m
      else done m

  abbrev remembered :
      Bool
      → String
      → RobotConfigurationStatus
      → Dict RobotConfigurationStatus
      → Dict RobotConfigurationStatus
  remembered b robot s d = if b then put robot s d else d

  -- The status is remembered after the orders were unassigned, and after work was requested.
  unfoldable pub second_part :
      ℕ
      → RobotConfig
      → String
      → RobotConfigurationStatus
      → RobotStatus
      → Running
      → Bool
      → Dict RobotConfigurationStatus
      → Option EwmError
      → EwmOrderManager
      → ConfigOutcome
  unfolding request_work
  second_part fuel spec robot s r auction unassign d (some e) m = record {
    raised = some e;
    after = record { manager = m; robot_conf_status = d };
  }
  second_part fuel spec robot s r auction unassign d none m =
      let d' = remembered unassign robot s d in
      let o = request_work fuel spec robot s r auction m in
      record {
        raised = o.raised;
        after = record {
          manager = o.manager;
          robot_conf_status = elim o.raised [
            | none ↦ remembered (may_work spec s r) robot s d'
            | some e ↦ d'
          ];
        };
      }

  -- The first reading of the clock is counted whether it is made or not.
  unfoldable pub process_robotconfig_cr :
      ℕ
      → RobotConfig
      → String
      → RobotConfigurationStatus
      → RobotStatus
      → Running
      → ConfigManager
      → ConfigOutcome
  unfolding must_unassign unassign_robot second_part conf_status_eq get
  process_robotconfig_cr fuel spec robot s r auction c =
      let m = c.manager in
      let first = not (conf_status_eq s (status_or_default (get robot c.robot_conf_status))) in
      let unassign = first && must_unassign spec s (time m.reads) in
      let n = record m { reads = m.reads + 1 } in
      let o = if unassign then unassign_robot robot n else done n in
      second_part fuel spec robot s r auction unassign c.robot_conf_status o.raised o.manager
