-- ===== src/OrderManager/Processing.antt =====
-- Resources of warehouse orders that the order manager processes, and orders that it reads: runs,
-- and the theorems at a concrete order.
use ewm_cloud_robotics.Prelude.{◌≡◌, refl, String, true, false, none, some, List, [], ◌∷◌, arith}
use ewm_cloud_robotics.Types.{
  WarehouseTask, WarehouseOrder, ConfirmWarehouseTask, first_conf, conf_success, running,
}
use ewm_cloud_robotics.OrderManager.Controller.{new_controller}
use ewm_cloud_robotics.OrderManager.Orders.{send_who_to_robot}
use ewm_cloud_robotics.OrderManager.Memory.{check_who_conf_processed}
use ewm_cloud_robotics.OrderManager.Confirmations.{get_who_confirmations}
use ewm_cloud_robotics.OrderManager.Manager.{
  EwmRequest, get_warehouseorders, Ewm, EwmOrderManager, OrdersAnswer, returns, returns_all,
  confirm_warehousetask,
}
use ewm_cloud_robotics.OrderManager.Work.{get_robot_whos}
use ewm_cloud_robotics.OrderManager.WhoCr.{WhoResource, confirmations_to_process, process_who_cr}
use ewm_cloud_robotics.OrderManager.Once.{IsIdle, process_who_cr_again}
use ewm_cloud_robotics.OrderManager.Ends.{Answers, Several, Subs, Ends, get_robot_whos-Ends}

abbrev pub task : WarehouseTask
task = record {
  lgnum = "1710";
  tanum = "1";
  procty = "";
  flghuto = true;
  tostat = "";
  priority = 0;
  weight = 0;
  unitw = "";
  volum = 0;
  unitv = "";
  vltyp = "";
  vlber = "";
  vlpla = "SOURCE";
  vlenr = "T1";
  nltyp = "";
  nlber = "";
  nlpla = "TARGET";
  nlenr = "T1";
  who = "2000";
}

abbrev pub order : WarehouseOrder
order = record {
  lgnum = "1710";
  who = "2000";
  status = "D";
  areawho = "";
  lgtyp = "";
  lgpla = "";
  queue = "";
  rsrc = "ROBOT";
  lsd = 0;
  topwhoid = "";
  refwhoid = "";
  flgwho = false;
  flgto = false;
  warehousetasks = task ∷ [];
}

-- A robot has a top order with one sub order.
abbrev answer : List EwmRequest → OrdersAnswer
answer (get_warehouseorders lgnum who ∷ rs) = returns_all (record order { who = "2001" } ∷ [])
answer _ = returns_all (record order { flgwho = true } ∷ [])

abbrev ewm : Ewm
ewm = record { order = λ rs. returns order; orders = answer; confirm = λ rs. none }

abbrev pub manager : EwmOrderManager
manager = record {
  ewm_requests = [];
  ordercontroller = new_controller;
  msg_mem = record { who_confirmations = []; deleted_whos = [] };
  succeeded = [];
  failed = [];
  reads = 0;
}

abbrev pub first : ConfirmWarehouseTask
first = record {
  lgnum = "1710";
  tanum = "1";
  confirmationnumber = first_conf;
  confirmationtype = conf_success;
  confirmationdate = "";
  who = "2000";
  rsrc = "ROBOT";
}

abbrev confirmed : WhoResource
confirmed = record {
  name = "1710.2000";
  lgnum = "1710";
  who = "2000";
  order_status = running;
  process_status = none;
  status = some (first ∷ []);
}

one_new : confirmations_to_process confirmed ≡ first ∷ []
unfolding get_who_confirmations
one_new = refl

processed_well : (process_who_cr (λ s. s) (λ n. n) ewm 6 confirmed manager).raised ≡ none
unfolding process_who_cr get_who_confirmations confirm_warehousetask new_controller
    check_who_conf_processed send_who_to_robot
processed_well = refl

process_who_cr_again_example :
    IsIdle (process_who_cr (λ s. s) (λ n. n) ewm 6 confirmed manager).manager (
      process_who_cr
        (λ s. s)
        (λ n. n)
        ewm
        6
        confirmed
        (process_who_cr (λ s. s) (λ n. n) ewm 6 confirmed manager).manager)
unfolding get_who_confirmations
process_who_cr_again_example =
    process_who_cr_again (λ s. s) (λ n. n) ewm 6 confirmed manager refl (refl, tt) (omega arith)
      processed_well

subs :
    (lgnum who : String) (rs : List EwmRequest) → Subs (answer (get_warehouseorders lgnum who ∷ rs))
subs lgnum who rs = refl

several : (rs : List EwmRequest) → Several 1 (answer rs)
several [] = omega arith
several (get_warehouseorders lgnum who ∷ rs) = omega arith
several (r ∷ rs) = omega arith

abbrev answers : Answers ewm 1
answers = record { several = several; subs = subs; one = λ rs. tt }

get_robot_whos-Ends_example :
    Ends (get_robot_whos (λ s. s) (λ n. n) ewm 5 "1710" "ROBOT" false false manager)
get_robot_whos-Ends_example =
    get_robot_whos-Ends (λ s. s) (λ n. n) ewm 1 answers 5 "1710" "ROBOT" false false manager
      (omega arith)
