-- ===== src/OrderManager/Confirming.antt =====
-- A confirmation that the order manager passes on to EWM: the theorems at a concrete order.
use ewm_cloud_robotics.Prelude.{
  ◌≡◌, refl, ◌+◌, String, true, false, none, [], ◌∷◌, any, if◌then◌else◌,
}
use ewm_cloud_robotics.Types.{
  WarehouseTask, WarehouseOrder, ConfirmWarehouseTask, second_conf, conf_success,
}
use ewm_cloud_robotics.OrderManager.Controller.{new_controller}
use ewm_cloud_robotics.OrderManager.Manager.{
  Ewm, EwmOrderManager, returns, returns_all, is_task, pop_open, confirm_warehousetask,
}
use ewm_cloud_robotics.OrderManager.Confirmed.{
  confirmations, confirm_warehousetask-confirmations, confirm_warehousetask-kept,
}

abbrev task : String → WarehouseTask
task tanum = record {
  lgnum = "1710";
  tanum = tanum;
  procty = "";
  flghuto = true;
  tostat = "";
  priority = 0;
  weight = 0;
  unitw = "";
  volum = 0;
  unitv = "";
  vltyp = "";
  vlber = "";
  vlpla = "SOURCE";
  vlenr = "T1";
  nltyp = "";
  nlber = "";
  nlpla = "TARGET";
  nlenr = "T1";
  who = "2000";
}

abbrev two_tasks : WarehouseOrder
two_tasks = record {
  lgnum = "1710";
  who = "2000";
  status = "D";
  areawho = "";
  lgtyp = "";
  lgpla = "";
  queue = "";
  rsrc = "ROBOT";
  lsd = 0;
  topwhoid = "";
  refwhoid = "";
  flgwho = false;
  flgto = false;
  warehousetasks = task "1" ∷ task "2" ∷ [];
}

abbrev ewm : Ewm
ewm = record {
  order = λ rs. returns two_tasks;
  orders = λ rs. returns_all [];
  confirm = λ rs. none;
}

abbrev second : ConfirmWarehouseTask
second = record {
  lgnum = "1710";
  tanum = "2";
  confirmationnumber = second_conf;
  confirmationtype = conf_success;
  confirmationdate = "";
  who = "2000";
  rsrc = "ROBOT";
}

abbrev manager : EwmOrderManager
manager = record {
  ewm_requests = [];
  ordercontroller = new_controller;
  msg_mem = record { who_confirmations = []; deleted_whos = [] };
  succeeded = [];
  failed = [];
  reads = 0;
}

-- The other task stays open.
one_left : pop_open second two_tasks.warehousetasks ≡ task "1" ∷ []
unfolding pop_open
one_left = refl

confirm_warehousetask-confirmations_example :
    confirmations (confirm_warehousetask (λ s. s) (λ n. n) ewm second manager).manager.ewm_requests
    ≡ (if any (is_task second) two_tasks.warehousetasks then 1 else 0)
      + confirmations manager.ewm_requests
confirm_warehousetask-confirmations_example =
    confirm_warehousetask-confirmations (λ s. s) (λ n. n) ewm second two_tasks manager refl

confirm_warehousetask-kept_example :
    (confirm_warehousetask (λ s. s) (λ n. n) ewm second manager).manager.ordercontroller
    ≡ new_controller
unfolding pop_open
confirm_warehousetask-kept_example =
    confirm_warehousetask-kept (λ s. s) (λ n. n) ewm second two_tasks manager refl refl
