-- ===== src/StateMachine/Config.antt =====
-- RobotEWMConfig of robcoewmtypes/statemachine_config.py: the states, the triggers and the table
-- of transitions, row by row. Rows name their conditions and callbacks; the methods behind the
-- names stand in Guards and Callbacks. A nested state `moveTrolley_loadingTrolley` is one
-- constructor; the two parent states are never occupied and left out.
use ewm_cloud_robotics.Prelude.{ℕ, Bool, Option, none, some, List, [], ◌∷◌, ◌==◌, any}

pub data State : Type 0 where
  robot_error moving_to_staging charging at_staging idle : State
  move_trolley_moving_to_source_bin move_trolley_moving_to_target_bin : State
  move_trolley_loading_trolley move_trolley_unloading_trolley : State
  move_trolley_waiting_for_error_recovery : State
  pick_pack_pass_moving_to_pick_location pick_pack_pass_moving_to_target_location : State
  pick_pack_pass_waiting_at_pick pick_pack_pass_waiting_at_target : State
  pick_pack_pass_waiting_for_error_recovery : State

pub data Trigger : Type 0 where
  start_fresh_machine process_warehouseorder update_warehouseorder : Trigger
  create_move_mission create_charge_mission create_staging_mission : Trigger
  create_get_trolley_mission create_return_trolley_mission cancel_active_mission : Trigger
  mission_docking mission_succeeded mission_failed : Trigger
  warehouseorder_aborted warehouseorder_confirmed warehousetask_confirmed : Trigger
  pickpackpass_who_with_tasks new_active_sub_who charge_battery charging_canceled : Trigger
  go_staging too_many_failed_whos staging_timeout recover_robot invalid_warehousetask : Trigger

abbrev state_index : State → ℕ
state_index robot_error = 0
state_index moving_to_staging = 1
state_index charging = 2
state_index at_staging = 3
state_index idle = 4
state_index move_trolley_moving_to_source_bin = 5
state_index move_trolley_moving_to_target_bin = 6
state_index move_trolley_loading_trolley = 7
state_index move_trolley_unloading_trolley = 8
state_index move_trolley_waiting_for_error_recovery = 9
state_index pick_pack_pass_moving_to_pick_location = 10
state_index pick_pack_pass_moving_to_target_location = 11
state_index pick_pack_pass_waiting_at_pick = 12
state_index pick_pack_pass_waiting_at_target = 13
state_index pick_pack_pass_waiting_for_error_recovery = 14

abbrev trigger_index : Trigger → ℕ
trigger_index start_fresh_machine = 0
trigger_index process_warehouseorder = 1
trigger_index update_warehouseorder = 2
trigger_index create_move_mission = 3
trigger_index create_charge_mission = 4
trigger_index create_staging_mission = 5
trigger_index create_get_trolley_mission = 6
trigger_index create_return_trolley_mission = 7
trigger_index cancel_active_mission = 8
trigger_index mission_docking = 9
trigger_index mission_succeeded = 10
trigger_index mission_failed = 11
trigger_index warehouseorder_aborted = 12
trigger_index warehouseorder_confirmed = 13
trigger_index warehousetask_confirmed = 14
trigger_index pickpackpass_who_with_tasks = 15
trigger_index new_active_sub_who = 16
trigger_index charge_battery = 17
trigger_index charging_canceled = 18
trigger_index go_staging = 19
trigger_index too_many_failed_whos = 20
trigger_index staging_timeout = 21
trigger_index recover_robot = 22
trigger_index invalid_warehousetask = 23

-- The names are equal; the rows compare them.
abbrev pub state_eq : State → State → Bool
state_eq a b = state_index a == state_index b

abbrev pub trigger_eq : Trigger → Trigger → Bool
trigger_eq a b = trigger_index a == trigger_index b

pub data Process : Type 0 where
  move_trolley pick_pack_pass : Process

-- The prefix of the state's name up to its last underscore, if it is a process.
abbrev pub get_process_type : State → Option Process
get_process_type move_trolley_moving_to_source_bin = some move_trolley
get_process_type move_trolley_moving_to_target_bin = some move_trolley
get_process_type move_trolley_loading_trolley = some move_trolley
get_process_type move_trolley_unloading_trolley = some move_trolley
get_process_type move_trolley_waiting_for_error_recovery = some move_trolley
get_process_type pick_pack_pass_moving_to_pick_location = some pick_pack_pass
get_process_type pick_pack_pass_moving_to_target_location = some pick_pack_pass
get_process_type pick_pack_pass_waiting_at_pick = some pick_pack_pass
get_process_type pick_pack_pass_waiting_at_target = some pick_pack_pass
get_process_type pick_pack_pass_waiting_for_error_recovery = some pick_pack_pass
get_process_type _ = none

abbrev pub idle_states : List State
idle_states = at_staging ∷ idle ∷ []

abbrev pub awaiting_who_completion_states : List State
awaiting_who_completion_states =
    move_trolley_waiting_for_error_recovery ∷ pick_pack_pass_waiting_for_error_recovery
    ∷ pick_pack_pass_waiting_at_target ∷ []

abbrev pub awaiting_wht_completion_states : List State
awaiting_wht_completion_states = pick_pack_pass_waiting_at_pick ∷ []

abbrev pub error_states : List State
error_states =
    move_trolley_waiting_for_error_recovery ∷ pick_pack_pass_waiting_for_error_recovery
    ∷ robot_error ∷ []

-- `state in states`
abbrev pub among : List State → State → Bool
among states s = any (state_eq s) states

-- Methods that a row names as conditions.
pub data Condition : Type 0 where
  check_who_kwarg battery_empty max_mission_errors_reached : Condition
  is_move_trolley_order is_pickpackpass_order : Condition
  more_warehouse_tasks more_sub_warehouse_tasks : Condition

-- Methods that a row names as callbacks.
pub data Callback : Type 0 where
  update_who create_move_mission create_charge_mission create_staging_mission : Callback
  create_get_trolley_mission create_return_trolley_mission cancel_active_mission : Callback
  increase_mission_errorcount set_next_charger : Callback
  save_active_warehouse_order save_active_sub_warehouse_order : Callback
  save_warehouse_order_start : Callback
  log_warehouse_order_fail log_warehouse_order_success : Callback
  log_get_trolley_completed log_return_trolley_completed : Callback
  close_active_who close_active_subwho close_active_wht : Callback
  send_first_wht_confirmation send_second_wht_confirmation : Callback
  send_first_wht_confirmation_error send_second_wht_confirmation_error : Callback

-- '*', or the states that are named.
pub data Source : Type 0 where
  anywhere : Source
  sources : List State → Source

-- None (the state stays and is not entered again), '=' (it is entered again), or a state.
pub data Dest : Type 0 where
  internal reflexive : Dest
  to : State → Dest

pub record Transition : Type 0 where
  pub trigger : Trigger
  pub source : Source
  pub dest : Dest
  pub conditions : List Condition
  pub unless : List Condition
  pub before : List Callback
  pub after : List Callback

-- A row with no condition and no callback.
abbrev pub row : Trigger → List State → Dest → Transition
row t s d = record {
  trigger = t;
  source = sources s;
  dest = d;
  conditions = [];
  unless = [];
  before = [];
  after = [];
}

-- A row that runs one callback in every state and changes none.
abbrev pub command : Trigger → Callback → Transition
command t cb = record {
  trigger = t;
  source = anywhere;
  dest = internal;
  conditions = [];
  unless = [];
  before = [];
  after = cb ∷ [];
}

abbrev pub when : Condition → Transition → Transition
when c t = record t { conditions = c ∷ t.conditions }

abbrev pub unless : List Condition → Transition → Transition
unless cs t = record t { unless = cs }

abbrev pub before : List Callback → Transition → Transition
before cbs t = record t { before = cbs }

abbrev pub after : Callback → Transition → Transition
after cb t = record t { after = cb ∷ [] }
