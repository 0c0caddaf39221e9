-- ===== src/StateMachine/Guards.antt =====
-- The conditions of the rows: methods of RobotEWMMachine that read the machine and the trigger.
use ewm_cloud_robotics.Prelude.{
  String, Bool, true, false, not, ◌&&◌, Option, none, some, any, every, leb, ltb, str_eq,
}
use ewm_cloud_robotics.Types.{WarehouseTask, WarehouseOrder}
use ewm_cloud_robotics.StateMachine.Config.{
  Condition, check_who_kwarg, battery_empty, max_mission_errors_reached, is_move_trolley_order,
  is_pickpackpass_order, more_warehouse_tasks, more_sub_warehouse_tasks, Source, anywhere, sources,
  Transition, among, State, trigger_eq,
}
use ewm_cloud_robotics.StateMachine.Machine.{Argument, missing, order, crd_spec, Call, Machine}

abbrev active_tanum : Option WarehouseTask → String
active_tanum none = ""
active_tanum (some t) = t.tanum

-- A task of the order other than the active one.
abbrev pub more_tasks : Option WarehouseOrder → Option WarehouseTask → Bool
more_tasks none wht = false
more_tasks (some who) wht = any (λ t. not (str_eq t.tanum (active_tanum wht))) who.warehousetasks

abbrev flag_is : Bool → Bool → Bool
flag_is true b = b
flag_is false b = not b

abbrev order_with : Bool → Argument → Bool
order_with flag (order o) = flag_is flag o.flgwho
order_with flag missing = false
order_with flag (crd_spec s) = false

abbrev is_crd_spec : Argument → Bool
is_crd_spec (crd_spec s) = true
is_crd_spec missing = false
is_crd_spec (order o) = false

unfoldable pub holds : Condition → Call → Machine → Bool
holds check_who_kwarg c m = is_crd_spec c.warehouseorder
holds battery_empty c m = ltb m.battery_percentage m.robot_config.conf.battery_min
holds max_mission_errors_reached c m = leb m.robot_config.max_retry_count (m.error_count m.state)
holds is_move_trolley_order c m = order_with false c.warehouseorder
holds is_pickpackpass_order c m = order_with true c.warehouseorder
holds more_warehouse_tasks c m = more_tasks m.active_who m.active_wht
holds more_sub_warehouse_tasks c m = more_tasks m.active_sub_who m.active_wht

abbrev pub from : Source → State → Bool
from anywhere s = true
from (sources states) s = among states s

-- The row is for this trigger and this state.
unfoldable pub is_valid : Call → Machine → Transition → Bool
is_valid c m t = trigger_eq t.trigger c.trigger && from t.source m.state

-- All conditions hold, and none of `unless`.
unfoldable pub is_eligible : Call → Machine → Transition → Bool
unfolding is_valid holds
is_eligible c m t =
    is_valid c m t
    && every (λ g. holds g c m) t.conditions
    && every (λ g. not (holds g c m)) t.unless
