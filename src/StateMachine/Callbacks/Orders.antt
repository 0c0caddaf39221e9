-- ===== src/StateMachine/Callbacks/Orders.antt =====
-- Warehouse orders of the robot: the _update_ and _save_active_ methods of statemachine.py,
-- _close_active_who and _close_active_subwho.
use ewm_cloud_robotics.Prelude.{
  Option, none, some, Bool, false, not, ◌&&◌, List, ◌∷◌, any, is_empty, is_none, str_eq, leb,
  if◌then◌else◌, Result, ok, err, attribute_error,
}
use ewm_cloud_robotics.Types.{WarehouseTask, WarehouseOrder, WarehouseOrderCrdSpec, is_run, who_eq}
use ewm_cloud_robotics.StateMachine.Config.{
  process_warehouseorder, cancel_active_mission, pickpackpass_who_with_tasks, new_active_sub_who,
  warehousetask_confirmed, moving_to_staging, charging, pick_pack_pass_waiting_at_pick,
  pick_pack_pass_moving_to_pick_location, idle_states, among, awaiting_wht_completion_states,
  state_eq,
}
use ewm_cloud_robotics.StateMachine.Machine.{
  Argument, missing, order, crd_spec, Call, call, Effect, add_who_finalizer, remove_who_finalizer,
  WhoDict, Machine, post, identify, pop, put, sort_warehouseorders,
}

-- self.process_warehouseorder(warehouseorder=o)
abbrev pub process : WarehouseOrder → Call
process o = record (call process_warehouseorder) { warehouseorder = order o }

-- The active order is to be left for `o`: the running mission is cancelled first.
abbrev cancel_and_process : WarehouseOrder → Machine → Machine
cancel_and_process o m = post (process o) (post (call cancel_active_mission) m)

-- An order arrives while none is active.
unfoldable pub start_on_order : WarehouseOrder → Machine → Machine
start_on_order o m =
    if not (is_run m.robot_config.conf.mode)
    then m
    else if state_eq m.state moving_to_staging
    then cancel_and_process o m
    else if state_eq m.state charging && leb m.robot_config.conf.battery_min m.battery_percentage
    then cancel_and_process o m
    else if among idle_states m.state
    then post (process o) m
    else m

-- The order that the machine works on, or has to start on.
unfoldable pub update_active : Option WarehouseOrder → WarehouseOrder → Machine → Machine
update_active none o m = start_on_order o m
update_active (some a) o m =
    if str_eq o.who a.who && not (who_eq o a) then record m { active_who = some o } else m

-- A top order that has got its tasks while the robot waits at the pick location.
unfoldable pub target_found : Option WarehouseOrder → WarehouseOrder → Machine → Machine
target_found none o m = m
target_found (some a) o m =
    if who_eq o a
      && a.flgwho
      && state_eq m.state pick_pack_pass_waiting_at_pick
      && not (is_empty a.warehousetasks)
      && is_none m.active_wht
    then post (call pickpackpass_who_with_tasks) m
    else m

unfoldable pub enqueue : WarehouseOrderCrdSpec → Machine → Machine
enqueue spec m = record m {
  warehouseorders = sort_warehouseorders (put (identify spec.data') spec m.warehouseorders);
}

unfoldable pub update_robot_who : WarehouseOrderCrdSpec → Machine → Machine
update_robot_who spec m =
    let m' = update_active m.active_who spec.data' (enqueue spec m) in
    target_found m'.active_who spec.data' m'

-- The log message of the second branch reads `warehouseorder_spec.who`, which the class does not
-- have.
unfoldable pub update_spec : Argument → Machine → Result Machine
update_spec (crd_spec spec) m =
    if str_eq spec.data'.lgnum m.robot_config.conf.lgnum
      && str_eq spec.data'.rsrc m.robot_config.rsrc
    then ok (update_robot_who spec m)
    else err attribute_error
update_spec missing m = err attribute_error
update_spec (order o) m = err attribute_error

unfoldable pub update_who : Call → Machine → Result Machine
update_who c m = update_spec c.warehouseorder m

abbrev is_task : WarehouseTask → WarehouseTask → Bool
is_task a t = str_eq t.tanum a.tanum

-- The active task is gone from the new version of its order.
abbrev is_task_done : WarehouseOrder → Option WarehouseTask → Bool
is_task_done o none = false
is_task_done o (some a) =
    str_eq o.lgnum a.lgnum && str_eq o.who a.who && not (any (is_task a) o.warehousetasks)

update_active_sub : Option WarehouseOrder → WarehouseOrder → Machine → Machine
update_active_sub none o m =
    if state_eq m.state pick_pack_pass_moving_to_pick_location
    then post (record (call new_active_sub_who) { sub_warehouseorder = order o }) m
    else m
update_active_sub (some a) o m =
    if str_eq o.who a.who
      && not (who_eq o a)
      && among awaiting_wht_completion_states m.state
      && is_task_done o m.active_wht
    then post (call warehousetask_confirmed) m
    else m

sub_order : Option WarehouseOrder → WarehouseOrder → Machine → Machine
unfolding update_active_sub
sub_order none o m = m
sub_order (some top) o m =
    if str_eq o.topwhoid top.who then update_active_sub m.active_sub_who o m else m

-- Present in the source; `update_who` does not reach it.
unfoldable pub update_sub_who : WarehouseOrderCrdSpec → Machine → Machine
unfolding sub_order
update_sub_who spec m =
    sub_order m.active_who spec.data'
      (record m { sub_warehouseorders = put (identify spec.data') spec m.sub_warehouseorders })

save_order : Argument → Machine → Machine
save_order (order o) m = record m {
  active_who = some o;
  effects = add_who_finalizer o.lgnum o.who ∷ m.effects;
}
save_order missing m = m
save_order (crd_spec s) m = m

unfoldable pub save_active_warehouse_order : Call → Machine → Machine
unfolding save_order
save_active_warehouse_order c m = save_order c.warehouseorder m

save_sub_order : Argument → Machine → Machine
save_sub_order (order o) m = record m {
  active_sub_who = some o;
  effects = add_who_finalizer o.lgnum o.who ∷ m.effects;
}
save_sub_order missing m = m
save_sub_order (crd_spec s) m = m

unfoldable pub save_active_sub_warehouse_order : Call → Machine → Machine
unfolding save_sub_order
save_active_sub_warehouse_order c m = save_sub_order c.sub_warehouseorder m

unfoldable pub drop_entry : Option WarehouseOrder → WhoDict → WhoDict
drop_entry none d = d
drop_entry (some a) d = pop (identify a) d

unfoldable pub drop_finalizer : Option WarehouseOrder → List Effect → List Effect
drop_finalizer none es = es
drop_finalizer (some a) es = remove_who_finalizer a.lgnum a.who ∷ es

unfoldable pub close_active_who : Machine → Machine
close_active_who m = record m {
  warehouseorders = drop_entry m.active_who m.warehouseorders;
  effects = drop_finalizer m.active_who m.effects;
  active_who = none;
}

-- The sub order is looked for in `warehouseorders`.
unfoldable pub close_active_subwho : Machine → Machine
close_active_subwho m = record m {
  warehouseorders = drop_entry m.active_sub_who m.warehouseorders;
  effects = drop_finalizer m.active_sub_who m.effects;
  active_sub_who = none;
}
