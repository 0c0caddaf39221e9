-- ===== src/RobotController/Scenarios.antt =====
-- The missions and chargers of a robot: runs, and the theorems at concrete inputs.
use ewm_cloud_robotics.Prelude.{
  ◌≤◌, String, ◌≡◌, refl, true, false, Option, none, some, List, [], ◌∷◌, length,
}
use ewm_cloud_robotics.Types.{running}
use ewm_cloud_robotics.OrderManager.Auctions.{get}
use ewm_cloud_robotics.OrderManager.Orders.{cr_name}
use ewm_cloud_robotics.OrderManager.Processing.{order, first}
use ewm_cloud_robotics.RobotController.Orders.{
  OrderCr, OrderHandler, warehouse_order_precheck, get_warehouseorder, confirm_wht, report_modified,
}
use ewm_cloud_robotics.RobotController.Confirmed.{get_warehouseorder-confirm_wht}
use ewm_cloud_robotics.RobotController.Chargers.{new_generator, names_eq}
use ewm_cloud_robotics.RobotController.Missions.{
  RobotMission, delete_cr, MissionController, MissionStatus, put_status, update_mission_status_cb,
  update_chargers_cb,
}
use ewm_cloud_robotics.RobotController.Trimmed.{finished, finished-update_mission_status_cb}
use ewm_cloud_robotics.RobotController.Kept.{deletions, deletions-update_mission_status_cb}
use ewm_cloud_robotics.RobotController.Turns.{set_chargers, rounds, set_chargers-update_chargers_cb}

abbrev ended : String → RobotMission
ended name = record { name = name; status = "SUCCEEDED"; active_action = "" }

-- The oldest of nineteen missions that have ended is called 1.
abbrev missions : List RobotMission
missions =
    ended "19"
    ∷ ended "18"
    ∷ ended "17"
    ∷ ended "16"
    ∷ ended "15"
    ∷ ended "14"
    ∷ ended "13"
    ∷ ended "12"
    ∷ ended "11"
    ∷ ended "10"
    ∷ ended "9"
    ∷ ended "8"
    ∷ ended "7"
    ∷ ended "6"
    ∷ ended "5"
    ∷ ended "4"
    ∷ ended "3"
    ∷ ended "2"
    ∷ ended "1"
    ∷ []

abbrev controller : MissionController
controller = record {
  robot_name = "robot";
  mission_status = missions;
  requests = [];
  reads = 0;
  battery_percentage = 50;
  robot_state = "AVAILABLE";
  trolley_attached = false;
  chargers = [];
  chargers_generator = new_generator;
  charger = "";
}

abbrev news : Option MissionStatus
news = some (record { status = "FAILED"; active_action = "" })

-- A twentieth mission ends: the resource of the oldest is deleted, no other one.
oldest_deleted :
    (update_mission_status_cb (λ n. true) "20" (some "robot") news controller).requests
    ≡ delete_cr "1" ∷ []
unfolding update_mission_status_cb
oldest_deleted = refl

finished-update_mission_status_cb_example :
    finished
      (update_mission_status_cb (λ n. true) "20" (some "robot") news controller).mission_status
    ≤ 19
finished-update_mission_status_cb_example =
    finished-update_mission_status_cb (λ n. true) "20" (some "robot") news controller refl

deletions-update_mission_status_cb_example :
    deletions "0"
      (update_mission_status_cb (λ n. true) "20" (some "robot") news controller).requests
    ≡ 0
unfolding put_status
deletions-update_mission_status_cb_example =
    deletions-update_mission_status_cb (λ n. true) "0" "20" (some "robot") news controller refl

set_chargers-update_chargers_cb_example :
    set_chargers
      (length (rounds 2 ("a" ∷ "b" ∷ [])))
      (update_chargers_cb ("a" ∷ "b" ∷ []) (some "robot") controller)
    ≡ some ("a" ∷ "b" ∷ "a" ∷ "b" ∷ [])
unfolding names_eq
set_chargers-update_chargers_cb_example =
    set_chargers-update_chargers_cb 2 "a" ("b" ∷ []) (some "robot") controller refl refl

-- A robot without chargers: the first call of the generator yields '', the second runs forever.
no_charger : set_chargers 2 controller ≡ none
unfolding set_chargers
no_charger = refl

-- The resource of an order without confirmations.
abbrev resource : OrderCr
resource = record {
  robot = some "robot";
  spec = record { data' = order; order_status = running; process_status = []; sequence = 1 };
  data' = [];
}

abbrev handler : OrderHandler
handler = record { cluster = ("1710.2000", resource) ∷ []; cache = ("1710.2000", resource) ∷ [] }

abbrev confirmed : OrderHandler
confirmed = record handler { cluster = ("1710.2000", record resource { data' = first ∷ [] }) ∷ [] }

get_warehouseorder-confirm_wht_example :
    (get_warehouseorder (λ s. s) "1710" "2000" (some "robot") confirmed
      ≡ get_warehouseorder (λ s. s) "1710" "2000" (some "robot") handler)
    × (get_warehouseorder
          (λ s. s)
          "1710"
          "2000"
          (some "robot")
          (report_modified "1710.2000" confirmed)
        ≡ none)
unfolding cr_name get warehouse_order_precheck confirm_wht
get_warehouseorder-confirm_wht_example =
    get_warehouseorder-confirm_wht (λ s. s) (some "robot") (some "robot") first resource handler
      confirmed refl refl refl refl refl

-- Before the watcher reports the confirmation, the order is found.
found_before :
    get_warehouseorder (λ s. s) "1710" "2000" (some "robot") confirmed ≡ some resource.spec
unfolding get_warehouseorder warehouse_order_precheck cr_name
found_before = refl
