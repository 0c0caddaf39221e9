-- ===== src/OrderManager/Manager.antt =====
-- EWMOrderManager of manager.py: confirmations of warehouse tasks are passed on to EWM, and orders
-- that are done are closed. EWM, which is asked over HTTP, is the parameter `Ewm`.
use ewm_cloud_robotics.Prelude.{
  ℕ, ◌+◌, String, str_eq, Bool, true, false, ◌&&◌, Option, none, some, List, [], ◌∷◌, if◌then◌else◌,
  any, is_empty,
}
use ewm_cloud_robotics.Types.{
  WarehouseTask, WarehouseOrder, WhoIdentifier, ConfirmWarehouseTask, ConfirmationNumber,
  first_conf, second_conf, ConfirmationType, conf_success, conf_error,
}
use ewm_cloud_robotics.OrderManager.Controller.{OrderController}
use ewm_cloud_robotics.OrderManager.Orders.{cleanup_who}
use ewm_cloud_robotics.OrderManager.Memory.{
  ProcessedMessageMemory, whoident, delete_who_from_memory,
}

-- The exceptions of a call of EWM: `odata_error` stands for any other ODataAPIException, and
-- `key_error` for the KeyError on a resource that lacks its spec. `diverges` is no exception: a
-- loop that does not end in its fuel.
pub data EwmError : Type 0 where
  connection_error io_error already_confirmed not_found odata_error : EwmError
  no_order_found robot_has_order resource_type_is_no_robot robot_not_found : EwmError
  order_assigned task_assigned key_error diverges : EwmError

pub data EwmRequest : Type 0 where
  get_warehouseorder : String → String → Bool → EwmRequest
  first_step second_step : String → String → String → EwmRequest
  confirmation_error : ConfirmWarehouseTask → EwmRequest
  get_robot_warehouseorders getnew_robot_warehouseorder : String → String → EwmRequest
  get_warehouseorders : String → String → EwmRequest
  get_in_process_warehouseorders : String → String → String → EwmRequest
  getnew_rtype_warehouseorders : String → String → String → ℕ → EwmRequest
  assign_robot_warehouseorder unassign_robot_warehouseorder : String → String → String → EwmRequest
  unset_warehouseorder_in_process : String → String → EwmRequest

pub data OrderAnswer : Type 0 where
  returns : WarehouseOrder → OrderAnswer
  raises : EwmError → OrderAnswer

pub data OrdersAnswer : Type 0 where
  returns_all : List WarehouseOrder → OrdersAnswer
  raises_all : EwmError → OrdersAnswer

-- What EWM answers to the latest of a list of requests: an order, orders, or `none` for a success.
pub record Ewm : Type 0 where
  pub order : List EwmRequest → OrderAnswer
  pub orders : List EwmRequest → OrdersAnswer
  pub confirm : List EwmRequest → Option EwmError

-- `ewm_requests`, the latest first; `succeeded` and `failed` are the robots that who_counter
-- counted; `reads` counts the readings of the clock.
pub record EwmOrderManager : Type 0 where
  pub ewm_requests : List EwmRequest
  pub ordercontroller : OrderController
  pub msg_mem : ProcessedMessageMemory
  pub succeeded : List String
  pub failed : List String
  pub reads : ℕ

-- An exception, if one is raised, and the manager after it.
pub record Outcome : Type 0 where
  pub raised : Option EwmError
  pub manager : EwmOrderManager

abbrev pub done : EwmOrderManager → Outcome
done m = record { raised = none; manager = m }

abbrev pub failure : EwmError → EwmOrderManager → Outcome
failure e m = record { raised = some e; manager = m }

abbrev pub send : EwmRequest → EwmOrderManager → EwmOrderManager
send r m = record m { ewm_requests = r ∷ m.ewm_requests }

-- The task of a confirmation is one of the open tasks of an order.
abbrev pub is_task : ConfirmWarehouseTask → WarehouseTask → Bool
is_task c t = str_eq c.lgnum t.lgnum && str_eq c.tanum t.tanum

-- The last entry for the task is removed.
unfoldable pub pop_open : ConfirmWarehouseTask → List WarehouseTask → List WarehouseTask
pop_open c [] = []
pop_open c (t ∷ ts) =
    let rest = pop_open c ts in
    if any (is_task c) ts then t ∷ rest else if is_task c t then ts else t ∷ ts

abbrev default_order : WhoIdentifier → WarehouseOrder
default_order w = record {
  lgnum = w.lgnum;
  who = w.who;
  status = "";
  areawho = "";
  lgtyp = "";
  lgpla = "";
  queue = "";
  rsrc = "";
  lsd = 0;
  topwhoid = "";
  refwhoid = "";
  flgwho = false;
  flgto = false;
  warehousetasks = [];
}

module _ (lower : String → String) (time : ℕ → ℕ) (ewm : Ewm) where
  close : WhoIdentifier → WarehouseOrder → EwmOrderManager → Outcome
  close w who m = done (record m {
    ordercontroller = cleanup_who lower who m.ordercontroller;
    msg_mem = delete_who_from_memory w (time m.reads) m.msg_mem;
    reads = m.reads + 1;
  })

  unfoldable pub close_answer : WhoIdentifier → OrderAnswer → EwmOrderManager → Outcome
  unfolding close
  close_answer w (returns who) m = close w who m
  close_answer w (raises not_found) m = close w (default_order w) m
  close_answer w (raises e) m = failure e m

  -- cleanup_who of the manager
  unfoldable pub cleanup : WhoIdentifier → EwmOrderManager → Outcome
  unfolding close_answer
  cleanup w m =
      let m' = send (get_warehouseorder w.lgnum w.who false) m in
      close_answer w (ewm.order m'.ewm_requests) m'

  -- After the first confirmation; that it was made before is no failure.
  unfoldable pub first_answer : Option EwmError → EwmOrderManager → Outcome
  first_answer none m = done m
  first_answer (some already_confirmed) m = done m
  first_answer (some e) m = failure e m

  unfoldable pub second_done : ConfirmWarehouseTask → List WarehouseTask → EwmOrderManager → Outcome
  second_done c left m =
      let m' = record m { succeeded = lower c.rsrc ∷ m.succeeded } in
      if is_empty left then cleanup (whoident c) m' else done m'

  -- After the second confirmation; `left` are the tasks that stay open.
  unfoldable pub second_answer :
      Option EwmError → ConfirmWarehouseTask → List WarehouseTask → EwmOrderManager → Outcome
  unfolding second_done
  second_answer none c left m = second_done c left m
  second_answer (some already_confirmed) c left m = second_done c left m
  second_answer (some e) c left m = failure e m

  unfoldable pub error_done : ConfirmationNumber → ConfirmWarehouseTask → EwmOrderManager → Outcome
  error_done first_conf c m = cleanup (whoident c) m
  error_done second_conf c m = done m

  -- After EWM was told of an error of the robot.
  unfoldable pub error_answer :
      Option EwmError → ConfirmationNumber → ConfirmWarehouseTask → EwmOrderManager → Outcome
  unfolding error_done
  error_answer none n c m = error_done n c (record m { failed = lower c.rsrc ∷ m.failed })
  error_answer (some e) n c m = failure e m

  unfoldable pub confirm_open :
      ConfirmationType
      → ConfirmationNumber
      → ConfirmWarehouseTask
      → List WarehouseTask
      → EwmOrderManager
      → Outcome
  unfolding first_answer second_answer error_answer
  confirm_open conf_success first_conf c left m =
      let m' = send (first_step c.lgnum c.tanum c.rsrc) m in
      first_answer (ewm.confirm m'.ewm_requests) m'
  confirm_open conf_success second_conf c left m =
      let m' = send (second_step c.lgnum c.tanum c.rsrc) m in
      second_answer (ewm.confirm m'.ewm_requests) c left m'
  confirm_open conf_error n c left m =
      let m' = send (confirmation_error c) m in error_answer (ewm.confirm m'.ewm_requests) n c m'

  unfoldable pub confirm_answer : OrderAnswer → ConfirmWarehouseTask → EwmOrderManager → Outcome
  unfolding confirm_open pop_open
  confirm_answer (raises e) c m = failure e m
  confirm_answer (returns who) c m =
      if any (is_task c) who.warehousetasks
      then confirm_open c.confirmationtype c.confirmationnumber c (pop_open c who.warehousetasks) m
      else done m

  unfoldable pub confirm_warehousetask : ConfirmWarehouseTask → EwmOrderManager → Outcome
  unfolding confirm_answer
  confirm_warehousetask c m =
      let m' = send (get_warehouseorder c.lgnum c.who true) m in
      confirm_answer (ewm.order m'.ewm_requests) c m'
