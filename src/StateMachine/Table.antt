-- ===== src/StateMachine/Table.antt =====
-- The table `transitions` of RobotEWMConfig (robcoewmtypes/statemachine_config.py), in its three
-- parts and in the order of the source, which is the order in which rows are tried.
use ewm_cloud_robotics.Prelude.{List, [], ◌∷◌, ◌++◌}
use ewm_cloud_robotics.StateMachine.Config.{
  State, robot_error, moving_to_staging, charging, at_staging, idle,
  move_trolley_moving_to_source_bin, move_trolley_moving_to_target_bin,
  move_trolley_loading_trolley, move_trolley_unloading_trolley,
  move_trolley_waiting_for_error_recovery, pick_pack_pass_moving_to_pick_location,
  pick_pack_pass_moving_to_target_location, pick_pack_pass_waiting_at_pick,
  pick_pack_pass_waiting_at_target, pick_pack_pass_waiting_for_error_recovery, Trigger,
  start_fresh_machine, process_warehouseorder, update_warehouseorder, mission_docking,
  mission_succeeded, mission_failed, warehouseorder_aborted, warehouseorder_confirmed,
  warehousetask_confirmed, pickpackpass_who_with_tasks, new_active_sub_who, charge_battery,
  charging_canceled, go_staging, too_many_failed_whos, staging_timeout, recover_robot,
  invalid_warehousetask, idle_states, Callback, update_who, check_who_kwarg, battery_empty,
  max_mission_errors_reached, is_move_trolley_order, is_pickpackpass_order, more_warehouse_tasks,
  more_sub_warehouse_tasks, increase_mission_errorcount, set_next_charger,
  save_active_warehouse_order, save_active_sub_warehouse_order, save_warehouse_order_start,
  log_warehouse_order_fail, log_warehouse_order_success, log_get_trolley_completed,
  log_return_trolley_completed, close_active_who, close_active_subwho, close_active_wht,
  send_first_wht_confirmation, send_second_wht_confirmation, send_first_wht_confirmation_error,
  send_second_wht_confirmation_error, internal, reflexive, to, Transition, row, command, when,
  unless, before, after,
}

-- Input of the order manager.
abbrev pub order_updated : Transition
order_updated = when check_who_kwarg (command update_warehouseorder update_who)

-- The part up to the start of EWM processes, with the starts of both processes.
abbrev pub mission_commands : List Transition
mission_commands =
    row start_fresh_machine (idle ∷ []) (to idle)
    ∷ order_updated
    ∷ command Trigger.create_move_mission Callback.create_move_mission
    ∷ command Trigger.create_charge_mission Callback.create_charge_mission
    ∷ command Trigger.create_staging_mission Callback.create_staging_mission
    ∷ command Trigger.create_get_trolley_mission Callback.create_get_trolley_mission
    ∷ command Trigger.create_return_trolley_mission Callback.create_return_trolley_mission
    ∷ command Trigger.cancel_active_mission Callback.cancel_active_mission
    ∷ []

abbrev pub staging_transitions : List Transition
staging_transitions =
    row go_staging (idle ∷ []) (to moving_to_staging)
    ∷ row too_many_failed_whos idle_states (to robot_error)
    ∷ row mission_succeeded (moving_to_staging ∷ []) (to at_staging)
    ∷ unless (max_mission_errors_reached ∷ []) (
        before (increase_mission_errorcount ∷ [])
          (row mission_failed (moving_to_staging ∷ []) reflexive))
    ∷ when max_mission_errors_reached (row mission_failed (moving_to_staging ∷ []) (to idle))
    ∷ row staging_timeout (at_staging ∷ []) (to at_staging)
    ∷ []

abbrev pub charging_transitions : List Transition
charging_transitions =
    when battery_empty
      (row charge_battery (at_staging ∷ idle ∷ moving_to_staging ∷ robot_error ∷ []) (to charging))
    ∷ unless (battery_empty ∷ []) (
        row charge_battery (at_staging ∷ idle ∷ moving_to_staging ∷ robot_error ∷ []) (to charging))
    ∷ row mission_succeeded (charging ∷ []) (to idle)
    ∷ unless (max_mission_errors_reached ∷ []) (
        before (set_next_charger ∷ increase_mission_errorcount ∷ [])
          (row mission_failed (charging ∷ []) reflexive))
    ∷ when max_mission_errors_reached
        (before (set_next_charger ∷ []) (row mission_failed (charging ∷ []) (to idle)))
    ∷ row charging_canceled (charging ∷ []) (to idle)
    ∷ row mission_succeeded (robot_error ∷ []) internal
    ∷ unless (max_mission_errors_reached ∷ []) (
        before (increase_mission_errorcount ∷ []) (row mission_failed (robot_error ∷ []) reflexive))
    ∷ row recover_robot (robot_error ∷ []) (to idle)
    ∷ []

abbrev pub process_sources : List State
process_sources =
    idle ∷ charging ∷ at_staging ∷ moving_to_staging ∷ move_trolley_unloading_trolley
    ∷ pick_pack_pass_waiting_at_target ∷ []

abbrev pub start_transitions : List Transition
start_transitions =
    when is_move_trolley_order (
      before (save_active_warehouse_order ∷ []) (
        after save_warehouse_order_start
          (row process_warehouseorder process_sources (to move_trolley_moving_to_source_bin))))
    ∷ when is_pickpackpass_order (
        before (save_active_warehouse_order ∷ []) (
          after save_warehouse_order_start (
            row process_warehouseorder process_sources
              (to pick_pack_pass_moving_to_pick_location))))
    ∷ []

-- The order has no task: it fails.
abbrev pub source_order_aborted : Transition
source_order_aborted =
    before (log_warehouse_order_fail ∷ close_active_who ∷ [])
      (row warehouseorder_aborted (move_trolley_moving_to_source_bin ∷ []) (to idle))

-- The task moves no handling unit: the order fails.
abbrev pub source_task_invalid : Transition
source_task_invalid =
    before
      (send_first_wht_confirmation_error ∷ close_active_wht ∷ log_get_trolley_completed
        ∷ log_warehouse_order_fail ∷ close_active_who ∷ [])
      (row invalid_warehousetask (move_trolley_moving_to_source_bin ∷ []) (to idle))

-- The order is confirmed by hand while the robot waits for recovery.
abbrev pub order_confirmed_in_recovery : Transition
order_confirmed_in_recovery =
    before
      (close_active_wht ∷ log_return_trolley_completed ∷ log_warehouse_order_fail ∷ close_active_who
        ∷ [])
      (row warehouseorder_confirmed (move_trolley_waiting_for_error_recovery ∷ []) (to idle))

-- The trolley cannot be got: the order fails.
abbrev pub get_trolley_given_up : Transition
get_trolley_given_up = when max_mission_errors_reached (
    before
      (send_first_wht_confirmation_error ∷ close_active_wht ∷ log_get_trolley_completed
        ∷ log_warehouse_order_fail ∷ close_active_who ∷ [])
      (row mission_failed (move_trolley_moving_to_source_bin ∷ move_trolley_loading_trolley ∷ [])
        (to idle)))

-- The last trolley of the order is returned: the order succeeds.
abbrev pub order_completed : Transition
order_completed = unless (more_warehouse_tasks ∷ []) (
    before
      (send_second_wht_confirmation ∷ close_active_wht ∷ log_return_trolley_completed
        ∷ log_warehouse_order_success ∷ close_active_who ∷ [])
      (row mission_succeeded (move_trolley_unloading_trolley ∷ []) (to idle)))

abbrev pub move_trolley_failures : List Transition
move_trolley_failures =
    source_order_aborted
    ∷ source_task_invalid
    ∷ unless (max_mission_errors_reached ∷ []) (
        before (increase_mission_errorcount ∷ []) (
          row mission_failed (move_trolley_moving_to_source_bin ∷ move_trolley_loading_trolley ∷ [])
            (to move_trolley_moving_to_source_bin)))
    ∷ unless (max_mission_errors_reached ∷ []) (
        before (increase_mission_errorcount ∷ []) (
          row mission_failed
            (move_trolley_moving_to_target_bin ∷ move_trolley_unloading_trolley ∷ [])
            (to move_trolley_moving_to_target_bin)))
    ∷ get_trolley_given_up
    ∷ when max_mission_errors_reached (
        before (send_second_wht_confirmation_error ∷ []) (
          row mission_failed
            (move_trolley_moving_to_target_bin ∷ move_trolley_unloading_trolley ∷ [])
            (to move_trolley_waiting_for_error_recovery)))
    ∷ []

abbrev pub move_trolley_progress : List Transition
move_trolley_progress =
    row recover_robot (move_trolley_waiting_for_error_recovery ∷ [])
      (to move_trolley_moving_to_target_bin)
    ∷ row mission_docking (move_trolley_moving_to_source_bin ∷ []) (to move_trolley_loading_trolley)
    ∷ row mission_succeeded (move_trolley_moving_to_source_bin ∷ [])
        (to move_trolley_loading_trolley)
    ∷ before (send_first_wht_confirmation ∷ log_get_trolley_completed ∷ []) (
        row mission_succeeded (move_trolley_loading_trolley ∷ [])
          (to move_trolley_moving_to_target_bin))
    ∷ row mission_docking (move_trolley_moving_to_target_bin ∷ [])
        (to move_trolley_unloading_trolley)
    ∷ row mission_succeeded (move_trolley_moving_to_target_bin ∷ [])
        (to move_trolley_unloading_trolley)
    ∷ when more_warehouse_tasks (
        before (send_second_wht_confirmation ∷ close_active_wht ∷ []) (
          row mission_succeeded (move_trolley_unloading_trolley ∷ [])
            (to move_trolley_moving_to_source_bin)))
    ∷ order_completed
    ∷ order_confirmed_in_recovery
    ∷ []

abbrev pub pick_pack_pass_failures : List Transition
pick_pack_pass_failures =
    before (save_active_sub_warehouse_order ∷ [])
      (row new_active_sub_who (pick_pack_pass_moving_to_pick_location ∷ []) reflexive)
    ∷ row warehouseorder_aborted (pick_pack_pass_moving_to_pick_location ∷ [])
        (to pick_pack_pass_waiting_for_error_recovery)
    ∷ unless (max_mission_errors_reached ∷ []) (
        before (increase_mission_errorcount ∷ []) (
          row mission_failed
            (pick_pack_pass_moving_to_pick_location ∷ pick_pack_pass_moving_to_target_location ∷ [])
            reflexive))
    ∷ when max_mission_errors_reached (
        row mission_failed (pick_pack_pass_moving_to_pick_location ∷ [])
          (to pick_pack_pass_waiting_for_error_recovery))
    ∷ when max_mission_errors_reached (
        before (send_second_wht_confirmation_error ∷ []) (
          row mission_failed (pick_pack_pass_moving_to_target_location ∷ [])
            (to pick_pack_pass_waiting_for_error_recovery)))
    ∷ before (send_second_wht_confirmation_error ∷ []) (
        row invalid_warehousetask (pick_pack_pass_moving_to_target_location ∷ [])
          (to pick_pack_pass_waiting_for_error_recovery))
    ∷ unless (more_warehouse_tasks ∷ []) (
        row recover_robot (pick_pack_pass_waiting_for_error_recovery ∷ [])
          (to pick_pack_pass_moving_to_pick_location))
    ∷ when more_warehouse_tasks (
        row recover_robot (pick_pack_pass_waiting_for_error_recovery ∷ [])
          (to pick_pack_pass_moving_to_target_location))
    ∷ []

abbrev pub pick_pack_pass_progress : List Transition
pick_pack_pass_progress =
    row mission_succeeded (pick_pack_pass_moving_to_pick_location ∷ [])
      (to pick_pack_pass_waiting_at_pick)
    ∷ when more_sub_warehouse_tasks (
        before (close_active_wht ∷ []) (
          row warehousetask_confirmed (pick_pack_pass_waiting_at_pick ∷ [])
            (to pick_pack_pass_moving_to_pick_location)))
    ∷ unless (more_sub_warehouse_tasks ∷ more_warehouse_tasks ∷ []) (
        before (close_active_wht ∷ [])
          (row warehousetask_confirmed (pick_pack_pass_waiting_at_pick ∷ []) reflexive))
    ∷ when more_warehouse_tasks (
        unless (more_sub_warehouse_tasks ∷ []) (
          before (close_active_wht ∷ []) (
            after send_first_wht_confirmation (
              row pickpackpass_who_with_tasks (pick_pack_pass_waiting_at_pick ∷ [])
                (to pick_pack_pass_moving_to_target_location)))))
    ∷ row mission_succeeded (pick_pack_pass_moving_to_target_location ∷ [])
        (to pick_pack_pass_waiting_at_target)
    ∷ before
        (close_active_wht ∷ log_warehouse_order_success ∷ close_active_who ∷ close_active_subwho
          ∷ [])
        (row warehouseorder_confirmed (pick_pack_pass_waiting_at_target ∷ []) (to idle))
    ∷ before
        (close_active_wht ∷ log_warehouse_order_fail ∷ close_active_who ∷ close_active_subwho ∷ [])
        (row warehouseorder_confirmed (pick_pack_pass_waiting_for_error_recovery ∷ []) (to idle))
    ∷ []

abbrev pub transitions : List Transition
transitions =
    mission_commands
    ++ (staging_transitions
        ++ (charging_transitions
            ++ (start_transitions
                ++ (move_trolley_failures
                    ++ (move_trolley_progress
                        ++ (pick_pack_pass_failures ++ pick_pack_pass_progress))))))
