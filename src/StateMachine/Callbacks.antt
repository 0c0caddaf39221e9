-- ===== src/StateMachine/Callbacks.antt =====
-- The callbacks that rows name, as methods of RobotEWMMachine (statemachine.py) that take the
-- event. A method that raises returns `err`; Process.antt says how the machine goes on then.
-- `active_who` and the `data` of its queue entry may be one object in Python. The entry is not
-- read while its order is active, so the model keeps them apart.
mod Confirmations
mod Orders
mod Times
unfoldable pub use Confirmations.{
  without_tanum, close_task, confirmation, close_active_wht, send_first_wht_confirmation,
  send_second_wht_confirmation, send_first_wht_confirmation_error,
  send_second_wht_confirmation_error,
}
unfoldable pub use Orders.{
  process, start_on_order, update_robot_who, update_who, update_sub_who,
  save_active_warehouse_order, save_active_sub_warehouse_order, close_active_who,
  close_active_subwho, update_active, target_found, enqueue, update_spec, drop_entry,
  drop_finalizer,
}
unfoldable pub use Times.{
  save_warehouse_order_start, log_warehouse_order_completed, log_get_trolley_completed,
  log_return_trolley_completed, log_warehouse_order_fail, log_warehouse_order_success,
  run_before_state_change, run_after_state_change, read_if, completed_time, got_trolley,
  get_trolley_time, returned_trolley, return_trolley_time, next_timeout,
}
use ewm_cloud_robotics.Prelude.{
  ◌+◌, Option, none, some, not, List, [], ◌∷◌, str_eq, if◌then◌else◌, Result, ok, err, ◌>>=◌,
}
use ewm_cloud_robotics.StateMachine.Config
use ewm_cloud_robotics.StateMachine.Config.{Callback, state_eq}
use ewm_cloud_robotics.StateMachine.Machine.{
  Clock, Call, Event, Mission, move_to, staging, charge, Effect, create_mission, cancel_mission,
  set_next_charger, Machine, emit,
}

module _ (w : Clock) where
  -- A mission is named by the time of its creation; a mission that was active is overwritten.
  unfoldable pub start_mission : Mission → Machine → Machine
  start_mission k m = record m {
    active_mission = w.show m.reads;
    effects = create_mission k (w.show m.reads) ∷ m.effects;
    reads = m.reads + 1;
  }

  unfoldable pub cancel_active_mission : Machine → Machine
  cancel_active_mission m = record m {
    active_mission = "";
    effects =
        if str_eq m.active_mission ""
        then m.effects
        else cancel_mission m.active_mission ∷ m.effects;
  }

  unfoldable pub increase_mission_errorcount : Event → Machine → Machine
  increase_mission_errorcount e m = record m {
    error_count = λ s. if state_eq s e.state then m.error_count s + 1 else m.error_count s;
  }

  unfoldable pub run_callback : Callback → Event → Machine → Result Machine
  unfolding start_mission cancel_active_mission increase_mission_errorcount
      save_active_warehouse_order save_active_sub_warehouse_order save_warehouse_order_start
      log_warehouse_order_fail log_warehouse_order_success log_get_trolley_completed
      log_return_trolley_completed close_active_who close_active_subwho close_active_wht
      send_first_wht_confirmation send_second_wht_confirmation send_first_wht_confirmation_error
      send_second_wht_confirmation_error
  run_callback Callback.update_who e m = update_who e.cause m
  run_callback Callback.create_move_mission e m = ok (start_mission (move_to e.cause.target) m)
  run_callback Callback.create_charge_mission e m =
      ok (start_mission (charge e.cause.target_battery) m)
  run_callback Callback.create_staging_mission e m = ok (start_mission staging m)
  run_callback Callback.create_get_trolley_mission e m =
      ok (start_mission (Mission.get_trolley e.cause.target) m)
  run_callback Callback.create_return_trolley_mission e m =
      ok (start_mission (Mission.return_trolley e.cause.target) m)
  run_callback Callback.cancel_active_mission e m = ok (cancel_active_mission m)
  run_callback Callback.increase_mission_errorcount e m = ok (increase_mission_errorcount e m)
  run_callback Callback.set_next_charger e m = ok (emit set_next_charger m)
  run_callback Callback.save_active_warehouse_order e m = ok (save_active_warehouse_order e.cause m)
  run_callback Callback.save_active_sub_warehouse_order e m =
      ok (save_active_sub_warehouse_order e.cause m)
  run_callback Callback.save_warehouse_order_start e m = ok (save_warehouse_order_start w m)
  run_callback Callback.log_warehouse_order_fail e m = ok (log_warehouse_order_fail w e m)
  run_callback Callback.log_warehouse_order_success e m = ok (log_warehouse_order_success w e m)
  run_callback Callback.log_get_trolley_completed e m = ok (log_get_trolley_completed w e m)
  run_callback Callback.log_return_trolley_completed e m = ok (log_return_trolley_completed w e m)
  run_callback Callback.close_active_who e m = ok (close_active_who m)
  run_callback Callback.close_active_subwho e m = ok (close_active_subwho m)
  run_callback Callback.close_active_wht e m = ok (close_active_wht m)
  run_callback Callback.send_first_wht_confirmation e m = send_first_wht_confirmation w m
  run_callback Callback.send_second_wht_confirmation e m = send_second_wht_confirmation w m
  run_callback Callback.send_first_wht_confirmation_error e m =
      send_first_wht_confirmation_error w m
  run_callback Callback.send_second_wht_confirmation_error e m =
      send_second_wht_confirmation_error w m

  -- The callbacks of a row run in their order; the first that raises ends the row.
  unfoldable pub run_callbacks : List Callback → Event → Machine → Result Machine
  unfolding run_callback
  run_callbacks [] e m = ok m
  run_callbacks (c ∷ cs) e m = run_callback c e m >>= λ m'. run_callbacks cs e m'
