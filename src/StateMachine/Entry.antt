-- ===== src/StateMachine/Entry.antt =====
-- What runs when a state is entered: the on_enter_ methods of statemachine.py and
-- _decide_whats_next.
use ewm_cloud_robotics.Prelude.{
  ℕ, Option, none, some, Bool, true, false, List, [], ◌∷◌, ltb, if◌then◌else◌, Result, ok, err,
  type_error,
}
use ewm_cloud_robotics.Types.{WarehouseTask, WarehouseOrder, Mode, run, charge, stop}
use ewm_cloud_robotics.StateMachine.Config.{State, Trigger, idle_states, among, trigger_eq}
use ewm_cloud_robotics.StateMachine.Machine.{call, Event, Machine, post, first}
use ewm_cloud_robotics.StateMachine.Callbacks.{process}

abbrev dest_is_idle : Option State → Bool
dest_is_idle none = false
dest_is_idle (some s) = among idle_states s

-- The mission that may run is cancelled before charging, unless the state entered is idle.
abbrev cancel_unless_idle : Event → Machine → Machine
cancel_unless_idle e m =
    if dest_is_idle e.dest then m else post (call Trigger.cancel_active_mission) m

-- A percentage of 90, and of 100, in thousandths.
abbrev percent_90 : ℕ
percent_90 = 90000

abbrev pub percent_100 : ℕ
percent_100 = 100000

-- The first order of the queue is started, unless the robot is in mode CHARGE or STOP.
start_queued : Option WarehouseOrder → Mode → Machine → Machine
start_queued none mode m = m
start_queued (some o) run m = post (process o) m
start_queued (some o) Mode.idle m = post (process o) m
start_queued (some o) charge m = m
start_queued (some o) stop m = m

abbrev is_charge : Mode → Bool
is_charge charge = true
is_charge _ = false

unfoldable pub decide_whats_next : Event → Machine → Machine
unfolding start_queued
decide_whats_next e m =
    if is_charge m.robot_config.conf.mode
    then (if ltb m.battery_percentage percent_90
        then post (record (call Trigger.charge_battery) { target_battery = some percent_100 })
            (cancel_unless_idle e m)
        else m)
    else if ltb m.battery_percentage m.robot_config.conf.battery_min
    then post (call Trigger.charge_battery) (cancel_unless_idle e m)
    else if ltb 3 m.failed_warehouseorders
    then post (call Trigger.too_many_failed_whos) m
    else start_queued (first m.warehouseorders) m.robot_config.conf.mode m

unfoldable pub on_enter_idle : Event → Machine → Machine
unfolding decide_whats_next
on_enter_idle e m =
    decide_whats_next e (record m { active_who = none; active_sub_who = none; active_wht = none })

-- A mission to the source bin of the first task, if the task moves a handling unit.
source_bin : List WarehouseTask → Machine → Machine
source_bin [] m = post (call Trigger.warehouseorder_aborted) m
source_bin (t ∷ ts) m =
    post
      (if t.flghuto
        then record (call Trigger.create_get_trolley_mission) { target = some t.vlpla }
        else call Trigger.invalid_warehousetask)
      (record m { active_wht = some t })

source_bin_of : Option WarehouseOrder → Machine → Result Machine
unfolding source_bin
source_bin_of none m = err type_error
source_bin_of (some who) m = ok (source_bin who.warehousetasks m)

unfoldable pub on_enter_moving_to_source_bin : Machine → Result Machine
unfolding source_bin_of
on_enter_moving_to_source_bin m = source_bin_of m.active_who (record m { active_wht = none })

-- The mission may have succeeded before its docking was noticed.
abbrev pass_on_success : Event → Machine → Machine
pass_on_success e m =
    if trigger_eq e.cause.trigger Trigger.mission_succeeded
    then post (call Trigger.mission_succeeded) m
    else m

loading : Option WarehouseTask → Event → Machine → Result Machine
loading none e m = err type_error
loading (some t) e m = ok (pass_on_success e m)

unfoldable pub on_enter_loading_trolley : Event → Machine → Result Machine
unfolding loading
on_enter_loading_trolley e m = loading m.active_wht e m

unfoldable pub on_enter_unloading_trolley : Event → Machine → Result Machine
unfolding loading
on_enter_unloading_trolley e m = loading m.active_wht e m

target_bin : Option WarehouseTask → Machine → Result Machine
target_bin none m = err type_error
target_bin (some t) m =
    ok (post (record (call Trigger.create_return_trolley_mission) { target = some t.nlpla }) m)

unfoldable pub on_enter_moving_to_target_bin : Machine → Result Machine
unfolding target_bin
on_enter_moving_to_target_bin m = target_bin m.active_wht m

pick_location : List WarehouseTask → Machine → Machine
pick_location [] m = post (call Trigger.warehouseorder_aborted) m
pick_location (t ∷ ts) m =
    post (record (call Trigger.create_move_mission) { target = some t.vlpla })
      (record m { active_wht = some t })

pick_location_of : Option WarehouseOrder → Machine → Machine
unfolding pick_location
pick_location_of none m = m
pick_location_of (some who) m = pick_location who.warehousetasks m

unfoldable pub on_enter_moving_to_pick_location : Machine → Machine
unfolding pick_location_of
on_enter_moving_to_pick_location m =
    pick_location_of m.active_sub_who (record m { active_wht = none })

target_location : List WarehouseTask → Machine → Machine
target_location [] m = m
target_location (t ∷ ts) m =
    post
      (if t.flghuto
        then record (call Trigger.create_move_mission) { target = some t.nlpla }
        else call Trigger.invalid_warehousetask)
      (record m { active_wht = some t })

target_location_of : Option WarehouseOrder → Machine → Result Machine
unfolding target_location
target_location_of none m = err type_error
target_location_of (some who) m = ok (target_location who.warehousetasks m)

unfoldable pub on_enter_moving_to_target_location : Machine → Result Machine
unfolding target_location_of
on_enter_moving_to_target_location m =
    target_location_of m.active_who (record m { active_wht = none })

-- The method `on_enter_<state>`; those that only write a log message leave the machine as it is.
unfoldable pub on_enter : State → Event → Machine → Result Machine
unfolding on_enter_moving_to_source_bin on_enter_loading_trolley on_enter_unloading_trolley
    on_enter_moving_to_target_bin on_enter_moving_to_pick_location
    on_enter_moving_to_target_location
on_enter State.robot_error e m =
    ok (post (call Trigger.create_staging_mission) (record m { failed_warehouseorders = 0 }))
on_enter State.moving_to_staging e m = ok (post (call Trigger.create_staging_mission) m)
on_enter State.charging e m = ok (
    post (record (call Trigger.create_charge_mission) { target_battery = e.cause.target_battery })
      m)
on_enter State.at_staging e m = ok (decide_whats_next e m)
on_enter State.idle e m = ok (on_enter_idle e m)
on_enter State.move_trolley_moving_to_source_bin e m = on_enter_moving_to_source_bin m
on_enter State.move_trolley_moving_to_target_bin e m = on_enter_moving_to_target_bin m
on_enter State.move_trolley_loading_trolley e m = on_enter_loading_trolley e m
on_enter State.move_trolley_unloading_trolley e m = on_enter_unloading_trolley e m
on_enter State.move_trolley_waiting_for_error_recovery e m = ok m
on_enter State.pick_pack_pass_moving_to_pick_location e m = ok (on_enter_moving_to_pick_location m)
on_enter State.pick_pack_pass_moving_to_target_location e m = on_enter_moving_to_target_location m
on_enter State.pick_pack_pass_waiting_at_pick e m = ok m
on_enter State.pick_pack_pass_waiting_at_target e m = ok m
on_enter State.pick_pack_pass_waiting_for_error_recovery e m = ok m
