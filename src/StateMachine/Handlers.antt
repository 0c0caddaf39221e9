-- ===== src/StateMachine/Handlers.antt =====
-- The methods of statemachine.py that react to custom resources. A handler runs while no trigger
-- is processed; the triggers that it calls are put into the empty queue, in its order. Where a
-- handler goes on after a trigger and reads the state again, the part behind the trigger is a
-- handler of its own (`check_awaited_who`, `check_awaited_wht`).
-- The comparison of the resource's label with the robot's name is `own`. What other controllers
-- have found out is an argument: the mission's state, whether the resource's spec was processed
-- before (`seen`) and whether the order handler admits the order (`admitted`).
use ewm_cloud_robotics.Prelude.{
  ℕ, String, Option, none, some, Bool, false, not, ◌&&◌, ◌||◌, ltb, leb, str_eq, if◌then◌else◌,
}
use ewm_cloud_robotics.Types.{
  WarehouseTask, WarehouseOrder, WhoIdentifier, WarehouseOrderCrdSpec, OrderStatus,
  RobotConfigurationSpec, is_run,
}
use ewm_cloud_robotics.StateMachine.Config.{
  State, Trigger, among, error_states, awaiting_who_completion_states,
  awaiting_wht_completion_states, state_eq,
}
use ewm_cloud_robotics.StateMachine.Machine.{call, crd_spec, Machine, post, first, pop}
use ewm_cloud_robotics.StateMachine.Callbacks.{process}
use ewm_cloud_robotics.StateMachine.Entry.{percent_100}

-- RobotMission's states.
pub data MissionState : Type 0 where
  accepted running succeeded failed canceled queued deleted unknown : MissionState

abbrev end_mission : Trigger → Machine → Machine
end_mission t m = post (call t) (record m { active_mission = "" })

-- `docking`: the mission's active action is DOCKING.
mission_changed : MissionState → Bool → Machine → Machine
mission_changed MissionState.succeeded docking m = end_mission Trigger.mission_succeeded m
mission_changed MissionState.canceled docking m = end_mission Trigger.mission_failed m
mission_changed MissionState.deleted docking m = end_mission Trigger.mission_failed m
mission_changed MissionState.failed docking m = end_mission Trigger.mission_failed m
mission_changed _ docking m = if docking then post (call Trigger.mission_docking) m else m

unfoldable pub mission_cb : Bool → MissionState → Bool → Machine → Machine
unfolding mission_changed
mission_cb own state docking m =
    if own && not (str_eq m.active_mission "") then mission_changed state docking m else m

abbrev battery_or : Option ℕ → ℕ → ℕ
battery_or none n = n
battery_or (some b) n = b

abbrev process_first : Option WarehouseOrder → Machine → Machine
process_first none m = m
process_first (some o) m = post (process o) (post (call Trigger.cancel_active_mission) m)

-- The battery percentage in the robot's status, which may be missing, by the machine's state.
robot_changed : State → Option ℕ → Machine → Machine
robot_changed State.at_staging battery m =
    if ltb (battery_or battery percent_100) m.robot_config.conf.battery_idle
    then post (call Trigger.charge_battery) m
    else m
robot_changed State.charging battery m =
    if ltb m.robot_config.conf.battery_min (battery_or battery 0)
    then process_first (first m.warehouseorders) m
    else m
robot_changed s battery m =
    if (state_eq s State.moving_to_staging || state_eq s State.robot_error)
      && ltb (battery_or battery percent_100) m.robot_config.conf.battery_min
    then post (call Trigger.charge_battery) (post (call Trigger.cancel_active_mission) m)
    else m

-- `status`: the robot's status is set.
unfoldable pub robot_cb : Bool → Bool → Option ℕ → Machine → Machine
unfolding robot_changed
robot_cb own status battery m = if own && status then robot_changed m.state battery m else m

-- `recover`: the flag recoverFromRobotError of the resource.
unfoldable pub cfg_recover_cb : Bool → Bool → Machine → Machine
cfg_recover_cb own recover m =
    if own && among error_states m.state && recover then post (call Trigger.recover_robot) m else m

unfoldable pub cfg_idle_charge_states_cb : Bool → Machine → Machine
cfg_idle_charge_states_cb own m =
    if not (own && is_run m.robot_config.conf.mode)
    then m
    else if state_eq m.state State.at_staging
    then post (call Trigger.staging_timeout) m
    else if state_eq m.state State.charging
        && leb m.robot_config.conf.battery_ok m.battery_percentage
    then post (call Trigger.charging_canceled) (post (call Trigger.cancel_active_mission) m)
    else m

-- check_awaited_warehouseorder_completion, the first test.
abbrev is_order : String → String → Option WarehouseOrder → Bool
is_order lgnum who none = false
is_order lgnum who (some a) = str_eq lgnum a.lgnum && str_eq who a.who

abbrev is_task_of : String → String → Option WarehouseTask → Bool
is_task_of lgnum who none = false
is_task_of lgnum who (some a) = str_eq lgnum a.lgnum && str_eq who a.who

unfoldable pub check_awaited_who : String → String → Machine → Machine
check_awaited_who lgnum who m =
    if among awaiting_who_completion_states m.state && is_order lgnum who m.active_who
    then post (call Trigger.warehouseorder_confirmed) m
    else m

-- check_awaited_warehouseorder_completion, the second test.
unfoldable pub check_awaited_wht : String → String → Machine → Machine
check_awaited_wht lgnum who m =
    if among awaiting_wht_completion_states m.state && is_task_of lgnum who m.active_wht
    then post (call Trigger.warehousetask_confirmed) m
    else m

order_changed : OrderStatus → WarehouseOrderCrdSpec → Machine → Machine
unfolding check_awaited_who
order_changed OrderStatus.processed spec m = check_awaited_who spec.data'.lgnum spec.data'.who m
order_changed OrderStatus.running spec m =
    post (record (call Trigger.update_warehouseorder) { warehouseorder = crd_spec spec }) m

unfoldable pub warehouseorder_cb : Bool → Bool → Bool → WarehouseOrderCrdSpec → Machine → Machine
unfolding order_changed
warehouseorder_cb own seen admitted spec m =
    if own && not seen && admitted then order_changed spec.order_status spec m else m

-- `who`: the two parts of the resource's name in upper case, if it has two.
order_deleted : Option WhoIdentifier → Machine → Machine
unfolding check_awaited_who
order_deleted none m = m
order_deleted (some who) m =
    check_awaited_who who.lgnum who.who (record m { warehouseorders = pop who m.warehouseorders })

unfoldable pub warehouseorder_deleted_cb : Bool → Option WhoIdentifier → Machine → Machine
unfolding order_deleted
warehouseorder_deleted_cb own who m = if own then order_deleted who m else m

-- on_timeout of the state `idle`, and of `atStaging`.
unfoldable pub state_timeout : Machine → Machine
state_timeout m =
    if state_eq m.state State.idle
    then post (call Trigger.go_staging) m
    else if state_eq m.state State.at_staging
    then post (call Trigger.staging_timeout) m
    else m

-- What can happen to the machine from outside. The last two are done by the other controllers:
-- they take over the robot's configuration and its battery percentage.
pub data Stimulus : Type 0 where
  mission_changes : Bool → MissionState → Bool → Stimulus
  robot_changes : Bool → Bool → Option ℕ → Stimulus
  recovery_is_asked : Bool → Bool → Stimulus
  config_changes : Bool → Stimulus
  order_changes : Bool → Bool → Bool → WarehouseOrderCrdSpec → Stimulus
  order_is_deleted : Bool → Option WhoIdentifier → Stimulus
  task_is_checked : String → String → Stimulus
  time_passes : Stimulus
  set_config : RobotConfigurationSpec → Stimulus
  set_battery : ℕ → Stimulus

unfoldable pub receive : Stimulus → Machine → Machine
unfolding mission_cb robot_cb cfg_recover_cb cfg_idle_charge_states_cb warehouseorder_cb
    warehouseorder_deleted_cb check_awaited_wht state_timeout
receive (mission_changes own state docking) m = mission_cb own state docking m
receive (robot_changes own status battery) m = robot_cb own status battery m
receive (recovery_is_asked own recover) m = cfg_recover_cb own recover m
receive (config_changes own) m = cfg_idle_charge_states_cb own m
receive (order_changes own seen admitted spec) m = warehouseorder_cb own seen admitted spec m
receive (order_is_deleted own who) m = warehouseorder_deleted_cb own who m
receive (task_is_checked lgnum who) m = check_awaited_wht lgnum who m
receive time_passes m = state_timeout m
receive (set_config conf) m = record m { robot_config = record m.robot_config { conf = conf } }
receive (set_battery b) m = record m { battery_percentage = b }
