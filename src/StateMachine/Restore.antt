-- ===== src/StateMachine/Restore.antt =====
-- EWMRobot of robcoewmrobotcontroller/robot.py: how a state machine is started from the status that
-- was saved, and that it satisfies the invariant. `exists` says which missions have a resource,
-- `orders` gives the order that get_warehouseorder of ordercontroller.py finds for the robot.
use ewm_cloud_robotics.Prelude.{
  ℕ, String, str_eq, Bool, not, ◌&&◌, ◌||◌, Option, none, some, is_some, List, [], ◌∷◌,
  if◌then◌else◌, Result, ok, err, attribute_error, ◌>>=◌,
}
use ewm_cloud_robotics.Types.{WarehouseTask, WarehouseOrder, WarehouseOrderCrdSpec}
use ewm_cloud_robotics.StateMachine.Config.{State, Trigger, idle_states, error_states, among}
use ewm_cloud_robotics.StateMachine.Machine.{
  Clock, call, RobotConfigurationStatus, RobotConfig, Machine, new_machine, post, put,
}

pub record ValidStateRestore : Type 0 where
  pub state : RobotConfigurationStatus
  pub warehouseorder : Option WarehouseOrderCrdSpec
  pub sub_warehouseorder : Option WarehouseOrderCrdSpec

-- The first task with the number.
unfoldable pub find_task : String → List WarehouseTask → Option WarehouseTask
find_task tanum [] = none
find_task tanum (t ∷ ts) =
    let rest = find_task tanum ts in if str_eq t.tanum tanum then some t else rest

-- An order is looked up if the status names one.
abbrev pub look_up :
    (String → String → Option WarehouseOrderCrdSpec)
    → String
    → String
    → Option WarehouseOrderCrdSpec
look_up orders lgnum who = if str_eq who "" then none else orders lgnum who

abbrev pub is_there : String → Option WarehouseOrderCrdSpec → Bool
is_there who o = str_eq who "" || is_some o

-- A state that is neither idle nor one of error needs a mission.
abbrev pub has_mission : RobotConfigurationStatus → Bool
has_mission s =
    not (str_eq s.mission "")
    || among idle_states s.statemachine
    || among error_states s.statemachine

-- A mission without a resource is forgotten.
abbrev pub existing : (String → Bool) → String → String
existing exists mission = if str_eq mission "" then "" else if exists mission then mission else ""

module _ (orders : String → String → Option WarehouseOrderCrdSpec) where
  unfoldable pub validate : RobotConfigurationStatus → Option ValidStateRestore
  validate s =
      let who = look_up orders s.lgnum s.who in
      let sub = look_up orders s.lgnum s.subwho in
      if is_there s.who who && is_there s.subwho sub && has_mission s
      then some (record { state = s; warehouseorder = who; sub_warehouseorder = sub })
      else none

  -- `none`: there is no status, or it names no state.
  unfoldable pub get_validated_state_restore :
      (String → Bool) → Option RobotConfigurationStatus → Option ValidStateRestore
  unfolding validate
  get_validated_state_restore exists none = none
  get_validated_state_restore exists (some s) =
      if among idle_states s.statemachine
      then none
      else validate (record s { mission = existing exists s.mission })

-- Unless a task is there already.
abbrev pub or_task : Option WarehouseTask → Option WarehouseTask → Option WarehouseTask
or_task none t = t
or_task (some u) t = some u

unfoldable pub restore_sub :
    RobotConfigurationStatus → Option WarehouseOrderCrdSpec → Machine → Result Machine
unfolding find_task put
restore_sub s none m = if str_eq s.subwho "" then ok m else err attribute_error
restore_sub s (some o) m =
    if str_eq s.subwho ""
    then ok m
    else ok (record m {
      sub_warehouseorders =
          put (record { lgnum = s.lgnum; who = s.subwho }) o m.sub_warehouseorders;
      active_sub_who = some o.data';
      active_wht = or_task (find_task s.tanum o.data'.warehousetasks) m.active_wht;
    })

abbrev pub with_task : String → WarehouseOrder → Machine → Machine
with_task tanum o m = record m {
  active_wht = or_task m.active_wht (find_task tanum o.warehousetasks);
}

unfoldable pub restore_who :
    RobotConfigurationStatus
    → Option WarehouseOrderCrdSpec
    → Option WarehouseOrderCrdSpec
    → Machine
    → Result Machine
unfolding restore_sub find_task put
restore_who s none sub m = if str_eq s.who "" then ok m else err attribute_error
restore_who s (some o) sub m =
    let n = record m {
      warehouseorders = put (record { lgnum = s.lgnum; who = s.who }) o m.warehouseorders;
      active_who = some o.data';
    } in
    if str_eq s.who ""
    then ok m
    else restore_sub s sub n >>= λ n'. ok (with_task s.tanum o.data' n')

module _ (w : Clock) (config : RobotConfig) (battery : ℕ) where
  unfoldable pub restored : Option ValidStateRestore → Result Machine
  unfolding restore_who new_machine
  restored none =
      ok (post (call Trigger.start_fresh_machine) (new_machine w config battery State.idle))
  restored (some v) =
      restore_who v.state v.warehouseorder v.sub_warehouseorder
        (record (new_machine w config battery v.state.statemachine) {
          active_mission = v.state.mission;
        })

  -- _init_robot_state_machine, without the registration of callbacks.
  unfoldable pub init_robot_state_machine :
      (String → String → Option WarehouseOrderCrdSpec)
      → (String → Bool)
      → Option RobotConfigurationStatus
      → Result Machine
  unfolding restored get_validated_state_restore
  init_robot_state_machine orders exists s = restored (get_validated_state_restore orders exists s)
