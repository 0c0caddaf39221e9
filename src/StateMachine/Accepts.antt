-- ===== src/StateMachine/Accepts.antt =====
-- Which triggers a state takes, said state by state, against the table that says it row by row.
use ewm_cloud_robotics.Prelude.{◌≡◌, refl, Bool, true, false, ◌&&◌, any}
use ewm_cloud_robotics.StateMachine.Config.{State, Trigger, Transition, trigger_eq}
use ewm_cloud_robotics.StateMachine.Table.{transitions}
use ewm_cloud_robotics.StateMachine.Guards.{from}

-- Orders to the machine itself, which every state takes.
abbrev is_command : Trigger → Bool
is_command Trigger.update_warehouseorder = true
is_command Trigger.create_move_mission = true
is_command Trigger.create_charge_mission = true
is_command Trigger.create_staging_mission = true
is_command Trigger.create_get_trolley_mission = true
is_command Trigger.create_return_trolley_mission = true
is_command Trigger.cancel_active_mission = true
is_command _ = false

abbrev pub accepts : State → Trigger → Bool
accepts State.idle Trigger.start_fresh_machine = true
accepts State.idle Trigger.go_staging = true
accepts State.idle Trigger.too_many_failed_whos = true
accepts State.idle Trigger.charge_battery = true
accepts State.idle Trigger.process_warehouseorder = true
accepts State.at_staging Trigger.staging_timeout = true
accepts State.at_staging Trigger.too_many_failed_whos = true
accepts State.at_staging Trigger.charge_battery = true
accepts State.at_staging Trigger.process_warehouseorder = true
accepts State.moving_to_staging Trigger.mission_succeeded = true
accepts State.moving_to_staging Trigger.mission_failed = true
accepts State.moving_to_staging Trigger.charge_battery = true
accepts State.moving_to_staging Trigger.process_warehouseorder = true
accepts State.charging Trigger.mission_succeeded = true
accepts State.charging Trigger.mission_failed = true
accepts State.charging Trigger.charging_canceled = true
accepts State.charging Trigger.process_warehouseorder = true
accepts State.robot_error Trigger.mission_succeeded = true
accepts State.robot_error Trigger.mission_failed = true
accepts State.robot_error Trigger.charge_battery = true
accepts State.robot_error Trigger.recover_robot = true
accepts State.move_trolley_moving_to_source_bin Trigger.warehouseorder_aborted = true
accepts State.move_trolley_moving_to_source_bin Trigger.invalid_warehousetask = true
accepts State.move_trolley_moving_to_source_bin Trigger.mission_docking = true
accepts State.move_trolley_moving_to_source_bin Trigger.mission_succeeded = true
accepts State.move_trolley_moving_to_source_bin Trigger.mission_failed = true
accepts State.move_trolley_loading_trolley Trigger.mission_succeeded = true
accepts State.move_trolley_loading_trolley Trigger.mission_failed = true
accepts State.move_trolley_moving_to_target_bin Trigger.mission_docking = true
accepts State.move_trolley_moving_to_target_bin Trigger.mission_succeeded = true
accepts State.move_trolley_moving_to_target_bin Trigger.mission_failed = true
accepts State.move_trolley_unloading_trolley Trigger.mission_succeeded = true
accepts State.move_trolley_unloading_trolley Trigger.mission_failed = true
accepts State.move_trolley_unloading_trolley Trigger.process_warehouseorder = true
accepts State.move_trolley_waiting_for_error_recovery Trigger.recover_robot = true
accepts State.move_trolley_waiting_for_error_recovery Trigger.warehouseorder_confirmed = true
accepts State.pick_pack_pass_moving_to_pick_location Trigger.new_active_sub_who = true
accepts State.pick_pack_pass_moving_to_pick_location Trigger.warehouseorder_aborted = true
accepts State.pick_pack_pass_moving_to_pick_location Trigger.mission_failed = true
accepts State.pick_pack_pass_moving_to_pick_location Trigger.mission_succeeded = true
accepts State.pick_pack_pass_moving_to_target_location Trigger.mission_failed = true
accepts State.pick_pack_pass_moving_to_target_location Trigger.mission_succeeded = true
accepts State.pick_pack_pass_moving_to_target_location Trigger.invalid_warehousetask = true
accepts State.pick_pack_pass_waiting_at_pick Trigger.warehousetask_confirmed = true
accepts State.pick_pack_pass_waiting_at_pick Trigger.pickpackpass_who_with_tasks = true
accepts State.pick_pack_pass_waiting_at_target Trigger.warehouseorder_confirmed = true
accepts State.pick_pack_pass_waiting_at_target Trigger.process_warehouseorder = true
accepts State.pick_pack_pass_waiting_for_error_recovery Trigger.recover_robot = true
accepts State.pick_pack_pass_waiting_for_error_recovery Trigger.warehouseorder_confirmed = true
accepts _ t = is_command t

-- Some row of the table is for the trigger and the state.
unfoldable pub has_row : Trigger → State → Bool
has_row t s = any (λ (r : Transition). trigger_eq r.trigger t && from r.source s) transitions

-- The table has a row for a trigger and a state exactly when the state accepts the trigger: the
-- commands in every state, and else the triggers that are listed for the state.
pub has_row-eq-accepts : (t : Trigger) (s : State) → has_row t s ≡ accepts s t
unfolding has_row
has_row-eq-accepts Trigger.start_fresh_machine State.idle = refl
has_row-eq-accepts Trigger.start_fresh_machine _ = refl
has_row-eq-accepts _ State.idle = refl
has_row-eq-accepts _ _ = refl
