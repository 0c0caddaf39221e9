-- ===== src/OrderManager/Reservations/Processing.antt =====
-- _process_orderres_cr_... of manager.py: how the order manager processes order reservations. The
-- requests of a thread pool are made one after the other. `now` is a reading of the clock, `later`
-- adds the timeout of a reservation to one and writes it as a text, which `isoparse` reads.
use Prim.Native.String.{◌++◌ as concat}
use ewm_cloud_robotics.Prelude.{
  ℕ, ◌+◌, ◌-◌, String, str_eq, Bool, true, false, ◌||◌, Option, none, some, List, [], ◌∷◌, ◌++◌,
  if◌then◌else◌, length, is_empty, ltb,
}
use ewm_cloud_robotics.Types.{WarehouseOrder, WhoIdentifier}
use ewm_cloud_robotics.OrderManager.Manager.{
  EwmError, no_order_found, resource_type_is_no_robot, get_warehouseorder,
  get_in_process_warehouseorders, getnew_rtype_warehouseorders, unset_warehouseorder_in_process,
  OrderAnswer, returns, raises, OrdersAnswer, returns_all, raises_all, Ewm, EwmOrderManager, send,
}
use ewm_cloud_robotics.OrderManager.Reservations.Types.{
  accepted, reservations, failed, OrderRequest, OrderReservationStatus, ident_of, is_in,
  ReservationManager,
}
use ewm_cloud_robotics.OrderManager.Reservations.Open.{get_reserved_warehouseorders}

abbrev pub message_is : Option String → String → Bool
message_is none t = false
message_is (some s) t = str_eq s t

abbrev pub none_found_message : String → String
none_found_message name =
    concat "No warehouse orders found for order request " (concat name ". Trying again")

abbrev pub all_assigned_message : String
all_assigned_message = "All warehouse orders assigned to robots"

abbrev pub not_all_message : String
not_all_message = "Not all warehouse orders assigned to robots, cancel remaining reservations"

abbrev pub timeout_message : String
timeout_message = "Warehouse order reservations timed out, set status open in EWM again"

unfoldable pub update_cr_status :
    String → OrderReservationStatus → ReservationManager → ReservationManager
update_cr_status name s m = record m { updates = (name, s) ∷ m.updates }

-- ODATA_ERROR_CODES has no key ResourceTypeIsNoRobot: the message is None.
unfoldable pub resource_failed : OrderReservationStatus → OrderReservationStatus
resource_failed s = record s { message = none; status = failed }

abbrev pub ask : ReservationManager → EwmOrderManager → ReservationManager
ask m n = record m { manager = n }

-- The orders that no other auction has reserved.
unfoldable pub not_reserved : List WhoIdentifier → List WarehouseOrder → List WarehouseOrder
not_reserved reserved [] = []
not_reserved reserved (o ∷ os) =
    let rest = not_reserved reserved os in if is_in (ident_of o) reserved then rest else o ∷ rest

-- The end of _process_orderres_cr_new.
unfoldable pub attach :
    String → List WarehouseOrder → OrderReservationStatus → ReservationManager → ReservationManager
unfolding update_cr_status
attach name [] s m =
    let s' = record s { message = some (none_found_message name) } in
    if message_is s.message (none_found_message name) then m else update_cr_status name s' m
attach name (o ∷ os) s m =
    update_cr_status name (record s { warehouseorders = o ∷ os; status = accepted }) m

-- After more orders were asked for. That the type of the resource is no robot does not end the
-- processing.
unfoldable pub more_orders :
    String
    → List WarehouseOrder
    → OrdersAnswer
    → OrderReservationStatus
    → ReservationManager
    → ReservationManager
unfolding attach update_cr_status resource_failed
more_orders name whos (returns_all os) s m = attach name (whos ++ os) s m
more_orders name whos (raises_all no_order_found) s m = attach name whos s m
more_orders name whos (raises_all resource_type_is_no_robot) s m =
    attach name whos (resource_failed s) (update_cr_status name (resource_failed s) m)
more_orders name whos (raises_all e) s m = m

module _ (ewm : Ewm) where
  unfoldable pub fill :
      String
      → OrderRequest
      → List WarehouseOrder
      → OrderReservationStatus
      → ReservationManager
      → ReservationManager
  unfolding more_orders attach
  fill name q whos s m =
      let n =
        send (getnew_rtype_warehouseorders q.lgnum q.rsrcgrp q.rsrctype (q.quantity - length whos))
          m.manager in
      if ltb (length whos) q.quantity
      then more_orders name whos (ewm.orders n.ewm_requests) s (ask m n)
      else attach name whos s m

  -- After the orders in process were asked for.
  unfoldable pub in_process :
      String
      → OrderRequest
      → OrdersAnswer
      → OrderReservationStatus
      → ReservationManager
      → ReservationManager
  unfolding fill not_reserved update_cr_status resource_failed get_reserved_warehouseorders
  in_process name q (returns_all os) s m =
      fill name q (not_reserved (get_reserved_warehouseorders m.cr_cache) os) s m
  in_process name q (raises_all no_order_found) s m = fill name q [] s m
  in_process name q (raises_all resource_type_is_no_robot) s m =
      update_cr_status name (resource_failed s) m
  in_process name q (raises_all e) s m = m

  unfoldable pub process_new :
      String → OrderRequest → OrderReservationStatus → ReservationManager → ReservationManager
  unfolding in_process
  process_new name q s m =
      let n = send (get_in_process_warehouseorders q.lgnum q.rsrcgrp q.rsrctype) m.manager in
      in_process name q (ewm.orders n.ewm_requests) s (ask m n)

  -- The orders with what was read, whether an exception was raised, and the manager.
  abbrev pub ReadTasks : Type 0
  ReadTasks = List WarehouseOrder × Bool × EwmOrderManager

  abbrev pub keep_order : WarehouseOrder → ReadTasks → ReadTasks
  keep_order o (os, e, m) = (o ∷ os, e, m)

  abbrev pub read_order : WarehouseOrder → OrderAnswer → ReadTasks → ReadTasks
  read_order o (returns p) (os, e, m) = (p ∷ os, e, m)
  read_order o (raises x) (os, e, m) = (o ∷ os, true, m)

  -- Only orders without tasks are read.
  unfoldable pub read_tasks : List WarehouseOrder → EwmOrderManager → ReadTasks
  read_tasks [] m = ([], false, m)
  read_tasks (o ∷ os) m =
      let n = send (get_warehouseorder o.lgnum o.who true) m in
      let read = read_order o (ewm.order n.ewm_requests) (read_tasks os n) in
      let kept = keep_order o (read_tasks os m) in if is_empty o.warehousetasks then read else kept

  module _ (later : ℕ → String) (time : ℕ → ℕ) where
    unfoldable pub process_accepted :
        String → OrderReservationStatus → ReservationManager → ReservationManager
    unfolding read_tasks update_cr_status
    process_accepted name s m =
        let (whos, connection_error, n) = read_tasks s.warehouseorders m.manager in
        update_cr_status name
          (record s {
            warehouseorders = whos;
            status = if connection_error then s.status else reservations;
            validuntil = later (time n.reads);
          })
          (ask m (record n { reads = n.reads + 1 }))

  -- Reservations are cancelled; whether there was an error, and the manager.
  abbrev pub cancel_failed : Option EwmError → Bool
  cancel_failed none = false
  cancel_failed (some no_order_found) = false
  cancel_failed (some e) = true

  unfoldable pub cancel : List WhoIdentifier → EwmOrderManager → Bool × EwmOrderManager
  cancel [] m = (false, m)
  cancel (w ∷ ws) m =
      let n = send (unset_warehouseorder_in_process w.lgnum w.who) m in
      let (e, n') = cancel ws n in (cancel_failed (ewm.confirm n.ewm_requests) || e, n')
