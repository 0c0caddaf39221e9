-- ===== src/OrderManager/Scenarios.antt =====
-- The order manager on concrete orders: tests, and the theorems at inputs where they apply.
use ewm_cloud_robotics.Prelude.{
  ◌≡◌, any, refl, String, ◌≤◌, ◌<◌, ◌||◌, true, false, some, List, [], ◌∷◌, length, ok, arith,
}
use ewm_cloud_robotics.Types.{
  WarehouseOrder, WhoIdentifier, ConfirmWarehouseTask, first_conf, conf_success, running, processed,
  OrderStatus,
}
use ewm_cloud_robotics.OrderManager.Controller.{
  OrderSpec, OrderResource, close_cr, CrEvent, changes, deletes, checks_deleted, caches, handle_all,
  new_controller,
}
use ewm_cloud_robotics.OrderManager.Cleanup.{IsTidy, handle_all-IsTidy}
use ewm_cloud_robotics.OrderManager.Deletion.{deletions, deletions-handle_all}
use ewm_cloud_robotics.OrderManager.Orders.{
  cleanup_who, get_running_whos, check_for_running_whos, check_for_running_whos-get_running_whos,
}
use ewm_cloud_robotics.OrderManager.Memory.{
  ProcessedMessageMemory, conf_eq, check_who_conf_processed, memorize_who_conf,
  delete_who_from_memory, check_who_conf_processed-memorize_who_conf, length-delete_who_from_memory,
  check_who_conf_processed-delete_who_from_memory,
}
use ewm_cloud_robotics.OrderManager.Confirmations.{get_who_confirmations, any-get_who_confirmations}

abbrev order : String → String → WarehouseOrder
order who topwhoid = record {
  lgnum = "1710";
  who = who;
  status = "D";
  areawho = "";
  lgtyp = "";
  lgpla = "";
  queue = "";
  rsrc = "ROBOT";
  lsd = 0;
  topwhoid = topwhoid;
  refwhoid = "";
  flgwho = false;
  flgto = false;
  warehousetasks = [];
}

abbrev with_status : OrderStatus → OrderSpec
with_status status = record { data' = order "2000" ""; order_status = some status; sequence = 7 }

abbrev top_and_sub : List OrderResource
top_and_sub =
    record {
      name = "1710.2000";
      robot = some "robot";
      spec = some (with_status running);
      status = [];
    }
    ∷ record {
      name = "1710.2001";
      robot = some "other";
      spec =
          some (record { data' = order "2001" "2000"; order_status = some running; sequence = 8 });
      status = [];
    }
    ∷ []

-- A sub order is closed with the data of its top order.
subs_are_closed :
    (cleanup_who
      (λ s. s)
      (order "2000" "")
      (record new_controller { cr_cache = top_and_sub })).requests
    ≡ close_cr "1710.2001" (order "2000" "") ∷ close_cr "1710.2000" (order "2000" "") ∷ []
unfolding cleanup_who new_controller
subs_are_closed = refl

abbrev events : List CrEvent
events =
    caches top_and_sub
    ∷ changes "1710.2000" (some (with_status processed))
    ∷ changes "1710.2001" (some (with_status running))
    ∷ checks_deleted
    ∷ deletes "1710.2000"
    ∷ []

handle_all-IsTidy_example : IsTidy (handle_all events new_controller)
handle_all-IsTidy_example = handle_all-IsTidy events

abbrev later : List CrEvent
later =
    caches top_and_sub ∷ changes "1710.2000" (some (with_status processed)) ∷ checks_deleted ∷ []

deletions-handle_all_example :
    deletions "1710.2001"
      (handle_all
        (changes "1710.2001" (some (with_status running)) ∷ later)
        new_controller).requests
    ≡ deletions "1710.2001" new_controller.requests
deletions-handle_all_example =
    deletions-handle_all "1710.2001" (with_status running) later new_controller refl refl

read : get_running_whos "robot" top_and_sub ≡ ok ((with_status running, []) ∷ [])
unfolding get_running_whos
read = refl

check_for_running_whos-get_running_whos_example :
    check_for_running_whos "robot" top_and_sub ≡ ok true
check_for_running_whos-get_running_whos_example =
    check_for_running_whos-get_running_whos "robot" top_and_sub ((with_status running, []) ∷ [])
      read

abbrev first_of : String → ConfirmWarehouseTask
first_of who = record {
  lgnum = "1710";
  tanum = "1";
  confirmationnumber = first_conf;
  confirmationtype = conf_success;
  confirmationdate = "";
  who = who;
  rsrc = "ROBOT";
}

abbrev memory : ProcessedMessageMemory
memory = memorize_who_conf (first_of "2000") (record { who_confirmations = []; deleted_whos = [] })

check_who_conf_processed-memorize_who_conf_example :
    (check_who_conf_processed (first_of "2000") (memorize_who_conf (first_of "2001") memory)).0 ≡ (
      (check_who_conf_processed (first_of "2000") memory).0
      || conf_eq (first_of "2000") (first_of "2001"))
check_who_conf_processed-memorize_who_conf_example =
    check_who_conf_processed-memorize_who_conf (first_of "2000") (first_of "2001") memory

any-get_who_confirmations_example :
    any
      (conf_eq (first_of "2001"))
      (get_who_confirmations (first_of "2000" ∷ first_of "2001" ∷ []) (first_of "2000" ∷ []))
    ≡ true
unfolding conf_eq
any-get_who_confirmations_example =
    any-get_who_confirmations (first_of "2001") (first_of "2000" ∷ first_of "2001" ∷ [])
      (first_of "2000" ∷ [])

abbrev who_2000 : WhoIdentifier
who_2000 = record { lgnum = "1710"; who = "2000" }

length-delete_who_from_memory_example :
    length (delete_who_from_memory who_2000 9 memory).deleted_whos ≤ 500
length-delete_who_from_memory_example = length-delete_who_from_memory who_2000 9 memory

few_deleted : length memory.deleted_whos < 500
unfolding memorize_who_conf
few_deleted = omega arith

check_who_conf_processed-delete_who_from_memory_example :
    (check_who_conf_processed (first_of "2000") (delete_who_from_memory who_2000 9 memory)).0
    ≡ (check_who_conf_processed (first_of "2000") memory).0
check_who_conf_processed-delete_who_from_memory_example =
    check_who_conf_processed-delete_who_from_memory (first_of "2000") who_2000 9 memory few_deleted
