-- ===== src/OrderManager/Reserving.antt =====
-- Order reservations, auctions and robot configurations that the order manager processes: runs, and
-- the theorems at concrete resources.
use ewm_cloud_robotics.Prelude.{
  ℕ, ◌≡◌, ◌≢◌, refl, String, str_eq, true, false, ◌&&◌, Option, none, some, List, [], ◌∷◌,
  if◌then◌else◌, ok, arith,
}
use ewm_cloud_robotics.Types.{WhoIdentifier, ident_eq, conf_error, running, run}
use ewm_cloud_robotics.StateMachine.Config.{State}
use ewm_cloud_robotics.OrderManager.Controller.{OrderResource, new_controller}
use ewm_cloud_robotics.OrderManager.Orders.{send_who_to_robot, get_running_whos}
use ewm_cloud_robotics.OrderManager.Manager.{
  cleanup, EwmRequest, getnew_rtype_warehouseorders, Ewm, EwmOrderManager, OrdersAnswer, returns,
  returns_all, raises_all, no_order_found,
}
use ewm_cloud_robotics.OrderManager.Reservations.Types.{
  ReservationState, new, accepted, reservations, succeeded, OrderReservationSpec,
  OrderReservationStatus, OrderReservation, ReservationManager, Handled, handled, manager_after,
}
use ewm_cloud_robotics.OrderManager.Reservations.Open.{
  get_reserved_warehouseorders, get_open_reservations_cb, is_listed, is_open, owns, owners_or_empty,
  is_listed-get_open_reservations_cb,
}
use ewm_cloud_robotics.OrderManager.Reservations.Processing.{process_new}
use ewm_cloud_robotics.OrderManager.Reservations.Assigning.{
  process_reservations, orderreservation_cb,
}
use ewm_cloud_robotics.OrderManager.Reservations.Steps.{Writes, orderreservation_cb-Writes}
use ewm_cloud_robotics.OrderManager.Reservations.Settled.{is_settled, process_reservations-settled}
use ewm_cloud_robotics.OrderManager.Reservations.Fresh.{AllUnheld, process_new-AllUnheld}
use ewm_cloud_robotics.OrderManager.Auctions.{
  AuctioneerStatus, waiting, is_orderauction_running, is_running, key_error,
}
use ewm_cloud_robotics.OrderManager.Scope.{
  changes, deletes, handle_all, new_controller as new_auctioneers,
  is_orderauction_running-ne-key_error,
}
use ewm_cloud_robotics.OrderManager.RobotConfig.{
  RobotConfig, RobotConfigurationStatus, default_status, RobotStatus, ConfigManager, unassign_robot,
  process_robotconfig_cr,
}
use ewm_cloud_robotics.OrderManager.Requested.{news, process_robotconfig_cr-news}
use ewm_cloud_robotics.OrderManager.Taken.{unassigns, unassigns-unassign_robot}
use ewm_cloud_robotics.OrderManager.Processing.{order, manager, first}

abbrev spec : OrderReservationSpec
spec = record {
  orderrequest = record { lgnum = "1710"; rsrctype = "RB01"; rsrcgrp = "RB02"; quantity = 2 };
  orderassignments = record { lgnum = "1710"; who = "2000"; rsrc = "ROBOT" } ∷ [];
}

abbrev status : ReservationState → OrderReservationStatus
status s = record {
  status = s;
  validuntil = "later";
  message = some "";
  warehouseorders = order ∷ [];
  orderassignments = [];
}

-- A reservation of another order is in process.
abbrev other : OrderReservation
other = record {
  name = "other";
  owners = some (("Auctioneer", "a") ∷ []);
  status = some (record (status accepted) { warehouseorders = record order { who = "3000" } ∷ [] });
}

abbrev reservation_manager : ReservationManager
reservation_manager = record { manager = manager; cr_cache = other ∷ []; updates = [] }

-- Two orders are in process, of which one is reserved, and there are no new ones.
abbrev answer : List EwmRequest → OrdersAnswer
answer (getnew_rtype_warehouseorders lgnum rsrcgrp rsrctype n ∷ rs) = raises_all no_order_found
answer _ = returns_all (order ∷ record order { who = "3000" } ∷ [])

abbrev ewm : Ewm
ewm = record { order = λ rs. returns order; orders = answer; confirm = λ rs. none }

orderreservation_cb-Writes_example :
    Writes "r" new []
      (manager_after (
        orderreservation_cb
          (λ s. s)
          (λ n. n)
          ewm
          5
          (λ s. none)
          (λ n. "later")
          "r"
          spec
          none
          reservation_manager)).updates
orderreservation_cb-Writes_example =
    orderreservation_cb-Writes ewm (λ s. s) (λ n. n) 5 (λ s. none) (λ n. "later") "r" spec none
      reservation_manager

abbrev settled_order : WhoIdentifier
settled_order = record { lgnum = "1710"; who = "2000" }

abbrev ended : Handled
ended =
    process_reservations (λ s. s) (λ n. n) ewm 5 (λ s. none) "r" spec (status reservations)
      reservation_manager

abbrev ended_status : OrderReservationStatus
ended_status = record (status succeeded) {
  message = some "All warehouse orders assigned to robots";
  orderassignments = spec.orderassignments;
}

written : (manager_after ended).updates ≡ ("r", ended_status) ∷ []
unfolding process_reservations new_controller send_who_to_robot
written = refl

ended_well : ended ≡ handled (manager_after ended)
unfolding process_reservations new_controller send_who_to_robot
ended_well = refl

process_reservations-settled_example :
    is_settled settled_order ended_status (manager_after ended).manager ≡ true
unfolding ident_eq
process_reservations-settled_example =
    process_reservations-settled (λ s. s) (λ n. n) ewm 5 settled_order (λ s. none) "r" spec
      (status reservations) ended_status reservation_manager (manager_after ended) refl refl
      ended_well written (λ e. cc)

abbrev new_status : OrderReservationStatus
new_status = record (status new) { warehouseorders = [] }

abbrev accepted_status : OrderReservationStatus
accepted_status = record new_status { warehouseorders = order ∷ []; status = accepted }

accepts :
    (process_new ewm "r" spec.orderrequest new_status reservation_manager).updates
    ≡ ("r", accepted_status) ∷ []
unfolding process_new get_reserved_warehouseorders ident_eq
accepts = refl

process_new-AllUnheld_example : AllUnheld (other ∷ []) (order ∷ [])
process_new-AllUnheld_example =
    process_new-AllUnheld ewm "r" spec.orderrequest new_status accepted_status reservation_manager
      [] (λ l g t n rs. tt) refl accepts (omega arith) refl

is_listed-get_open_reservations_cb_example :
    is_listed "a" "other" (get_open_reservations_cb other []) ≡ (
      if str_eq "other" other.name
      then is_open other.status && owns "a" (owners_or_empty other.owners)
      else is_listed "a" "other" [])
is_listed-get_open_reservations_cb_example = is_listed-get_open_reservations_cb "a" "other" other []

abbrev auctioneer : AuctioneerStatus
auctioneer = record { robots_in_scope = "robot" ∷ []; status = waiting }

is_orderauction_running-ne-key_error_example :
    is_orderauction_running "robot"
      (handle_all (changes "a" (some auctioneer) ∷ deletes "b" ∷ []) new_auctioneers)
      []
      []
    ≢ key_error
is_orderauction_running-ne-key_error_example =
    is_orderauction_running-ne-key_error (changes "a" (some auctioneer) ∷ deletes "b" ∷ []) "robot"
      [] []

-- The first confirmation of the running order 2000 of a robot reports an error.
abbrev resource : OrderResource
resource = record {
  name = "1710.2000";
  robot = some "robot";
  spec = some (record { data' = order; order_status = some running; sequence = 1 });
  status = record first { confirmationtype = conf_error } ∷ [];
}

abbrev busy : EwmOrderManager
busy = record manager {
  ordercontroller = record (manager.ordercontroller) { cr_cache = resource ∷ [] };
}

-- The battery is below the minimum.
abbrev config : RobotConfig
config = record { lgnum = "1710"; mode = run; battery_min = 60 }

abbrev robot_status : RobotStatus
robot_status = record { is_available = true; battery_percentage = 50; update_time = "now" }

abbrev at_rest : RobotConfigurationStatus
at_rest = record default_status { statemachine = some State.idle }

abbrev config_manager : ConfigManager
config_manager = record { manager = manager; robot_conf_status = [] }

abbrev read_time : String → Option ℕ
read_time s = some 0

one_running :
    get_running_whos "robot" (resource ∷ [])
    ≡ ok (
        (record { data' = order; order_status = some running; sequence = 1 }, resource.status) ∷ [])
unfolding get_running_whos
one_running = refl

taken_well : (unassign_robot (λ s. s) (λ s. s) (λ n. n) read_time ewm "robot" busy).raised ≡ none
unfolding unassign_robot get_running_whos cleanup
taken_well = refl

unassigns-unassign_robot_example :
    unassigns
      (record { lgnum = "1710"; who = "2000" })
      (unassign_robot (λ s. s) (λ s. s) (λ n. n) read_time ewm "robot" busy).manager.ewm_requests
    ≡ 1
unfolding ident_eq
unassigns-unassign_robot_example =
    unassigns-unassign_robot (λ s. s) (λ s. s) (λ n. n) read_time ewm
      (record { lgnum = "1710"; who = "2000" }) "robot" busy
      ((record { data' = order; order_status = some running; sequence = 1 }, resource.status) ∷ [])
      one_running taken_well

process_robotconfig_cr-news_example :
    news
      (process_robotconfig_cr
        (λ s. s)
        (λ s. s)
        (λ n. n)
        read_time
        ewm
        5
        config
        "robot"
        at_rest
        robot_status
        (is_running false)
        config_manager).after.manager.ewm_requests
    ≡ 0
process_robotconfig_cr-news_example =
    process_robotconfig_cr-news (λ s. s) (λ s. s) (λ n. n) read_time ewm 5 config "robot" at_rest
      robot_status (is_running false) config_manager refl
