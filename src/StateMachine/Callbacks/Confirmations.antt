-- ===== src/StateMachine/Callbacks/Confirmations.antt =====
-- Confirmations of warehouse tasks: the _send_ methods of statemachine.py, and _close_active_wht.
use ewm_cloud_robotics.Prelude.{
  ◌+◌, Option, none, some, List, [], ◌∷◌, str_eq, if◌then◌else◌, Result, ok, err, type_error,
}
use ewm_cloud_robotics.Types.{
  WarehouseTask, WarehouseOrder, ConfirmationNumber, first_conf, second_conf, ConfirmationType,
  conf_success, conf_error, ConfirmWarehouseTask,
}
use ewm_cloud_robotics.StateMachine.Machine.{Clock, confirm_wht, Machine}

unfoldable pub without_tanum : WarehouseTask → List WarehouseTask → List WarehouseTask
without_tanum a [] = []
without_tanum a (t ∷ ts) =
    let rest = without_tanum a ts in if str_eq t.tanum a.tanum then rest else t ∷ rest

abbrev pub close_in : WarehouseTask → Option WarehouseOrder → Option WarehouseOrder
unfolding without_tanum
close_in a none = none
close_in a (some who) = some (record who { warehousetasks = without_tanum a who.warehousetasks })

unfoldable pub close_task : Option WarehouseTask → Option WarehouseOrder → Option WarehouseOrder
unfolding without_tanum
close_task none who = who
close_task (some a) who = close_in a who

unfoldable pub close_active_wht : Machine → Machine
unfolding close_task
close_active_wht m = record m {
  active_who = close_task m.active_wht m.active_who;
  active_sub_who = close_task m.active_wht m.active_sub_who;
  active_wht = none;
}

-- The source bin of the confirmed task is deleted in the active order.
clear_source : WarehouseTask → List WarehouseTask → List WarehouseTask
clear_source a [] = []
clear_source a (t ∷ ts) =
    (if str_eq t.tanum a.tanum then record t { vltyp = ""; vlber = ""; vlpla = "" } else t)
    ∷ clear_source a ts

abbrev clear_source_in : WarehouseTask → Option WarehouseOrder → Option WarehouseOrder
unfolding clear_source
clear_source_in a none = none
clear_source_in a (some who) =
    some (record who { warehousetasks = clear_source a who.warehousetasks })

module _ (w : Clock) where
  unfoldable pub confirmation :
      ConfirmationNumber → ConfirmationType → WarehouseTask → Machine → ConfirmWarehouseTask
  confirmation n t a m = record {
    lgnum = a.lgnum;
    tanum = a.tanum;
    confirmationnumber = n;
    confirmationtype = t;
    confirmationdate = w.isoformat m.reads;
    who = a.who;
    rsrc = m.robot_config.rsrc;
  }

  -- The part that the four methods share.
  abbrev send : ConfirmationNumber → ConfirmationType → WarehouseTask → Machine → Machine
  unfolding confirmation
  send n t a m = record m {
    effects = confirm_wht (confirmation n t a m) ∷ m.effects;
    reads = m.reads + 1;
  }

  first_confirmation : Option WarehouseTask → Machine → Result Machine
  unfolding clear_source confirmation
  first_confirmation none m = err type_error
  first_confirmation (some a) m =
      let m' = send first_conf conf_success a m in
      ok (record m' { active_who = clear_source_in a m.active_who })

  unfoldable pub send_first_wht_confirmation : Machine → Result Machine
  unfolding first_confirmation
  send_first_wht_confirmation m = first_confirmation m.active_wht m

  send_for : ConfirmationNumber → ConfirmationType → Option WarehouseTask → Machine → Result Machine
  unfolding confirmation
  send_for n t none m = err type_error
  send_for n t (some a) m = ok (send n t a m)

  unfoldable pub send_second_wht_confirmation : Machine → Result Machine
  unfolding send_for
  send_second_wht_confirmation m = send_for second_conf conf_success m.active_wht m

  unfoldable pub send_first_wht_confirmation_error : Machine → Result Machine
  unfolding send_for
  send_first_wht_confirmation_error m = send_for first_conf conf_error m.active_wht m

  unfoldable pub send_second_wht_confirmation_error : Machine → Result Machine
  unfolding send_for
  send_second_wht_confirmation_error m = send_for second_conf conf_error m.active_wht m
