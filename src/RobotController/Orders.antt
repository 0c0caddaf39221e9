-- ===== src/RobotController/Orders.antt =====
-- OrderHandler of robcoewmrobotcontroller's ordercontroller.py: when an order may be processed, and
-- how the robot tells of its tasks. Resources are read from the cache, and changes go to the
-- cluster, from where the watcher reports them; requests of a resource that is there are taken to
-- succeed. `lower` puts a text in lower case.
use ewm_cloud_robotics.Prelude.{
  String, str_eq, Bool, true, false, not, ◌&&◌, Option, none, some, List, [], ◌∷◌, ◌++◌,
  if◌then◌else◌, any, every,
}
use ewm_cloud_robotics.Types.{
  WarehouseTask, ConfirmationNumber, first_conf, second_conf, ConfirmationType, conf_success,
  conf_error, ConfirmWarehouseTask, WarehouseOrderCrdSpec,
}
use ewm_cloud_robotics.OrderManager.Memory.{conf_eq}
use ewm_cloud_robotics.OrderManager.WhoCr.{confs_eq}
use ewm_cloud_robotics.OrderManager.Orders.{cr_name}
use ewm_cloud_robotics.OrderManager.Auctions.{Dict, get, put}

-- A resource: its label cloudrobotics.com/robot-name, its spec, and the confirmations in its status.
pub record OrderCr : Type 0 where
  pub robot : Option String
  pub spec : WarehouseOrderCrdSpec
  pub data' : List ConfirmWarehouseTask

-- The resources in the cluster, and those that the handler has in its cache.
pub record OrderHandler : Type 0 where
  pub cluster : Dict OrderCr
  pub cache : Dict OrderCr

abbrev pub has_label : String → Option String → Bool
has_label name none = false
has_label name (some robot) = str_eq robot name

-- No name: any robot will do.
abbrev pub is_for : Option String → Option String → Bool
is_for none label = true
is_for (some name) label = has_label name label

-- A confirmation after which the task needs no more work, or not from its source bin.
abbrev pub is_done : WarehouseTask → ConfirmationNumber → ConfirmationType → Bool
is_done t first_conf conf_success = not (str_eq t.vlpla "")
is_done t second_conf conf_success = true
is_done t _ conf_error = false

abbrev pub is_confirmed : WarehouseTask → ConfirmWarehouseTask → Bool
is_confirmed t c =
    str_eq t.tanum c.tanum
    && str_eq t.lgnum c.lgnum
    && is_done t c.confirmationnumber c.confirmationtype

module _ (lower : String → String) where
  -- The entries of the order manager for the robot of the resource.
  unfoldable pub own_process_status :
      Option String → List ConfirmWarehouseTask → List ConfirmWarehouseTask
  own_process_status label [] = []
  own_process_status label (s ∷ ss) =
      let rest = own_process_status label ss in
      if has_label (lower s.rsrc) label then s ∷ rest else rest

  unfoldable pub warehouse_order_precheck : Option String → OrderCr → Bool
  unfolding own_process_status confs_eq
  warehouse_order_precheck robot_name r =
      is_for robot_name r.robot
      && confs_eq r.data' (own_process_status r.robot r.spec.process_status)
      && every (λ t. not (any (is_confirmed t) r.data')) r.spec.data'.warehousetasks

  abbrev pub checked : Option String → Option OrderCr → Option WarehouseOrderCrdSpec
  checked robot_name none = none
  checked robot_name (some r) = if warehouse_order_precheck robot_name r then some r.spec else none

  unfoldable pub get_warehouseorder :
      String → String → Option String → OrderHandler → Option WarehouseOrderCrdSpec
  unfolding get cr_name
  get_warehouseorder lgnum who robot_name h =
      checked robot_name (get (cr_name lower lgnum who) h.cache)

  -- The status in the cluster is replaced; the cache stays. `none`: the cluster has no resource.
  unfoldable pub update_status :
      String → List ConfirmWarehouseTask → Option OrderCr → OrderHandler → Option OrderHandler
  unfolding put
  update_status name confs none h = none
  update_status name confs (some q) h =
      some (record h { cluster = put name (record q { data' = confs }) h.cluster })

  -- The confirmations that the cache holds, with the new one at their end.
  unfoldable pub confirm_in :
      String → ConfirmWarehouseTask → Option OrderCr → OrderHandler → Option OrderHandler
  unfolding update_status get conf_eq
  confirm_in name c none h = none
  confirm_in name c (some r) h =
      let updated = update_status name (r.data' ++ (c ∷ [])) (get name h.cluster) h in
      if any (λ d. conf_eq d c) r.data' then some h else updated

  -- `none`: an exception, because the order has no resource.
  unfoldable pub confirm_wht : ConfirmWarehouseTask → OrderHandler → Option OrderHandler
  unfolding confirm_in get cr_name
  confirm_wht c h = let name = cr_name lower c.lgnum c.who in confirm_in name c (get name h.cache) h

-- The watcher reports that a resource was modified.
unfoldable pub reported : String → Option OrderCr → OrderHandler → OrderHandler
unfolding put
reported name none h = h
reported name (some q) h = record h { cache = put name q h.cache }

unfoldable pub report_modified : String → OrderHandler → OrderHandler
unfolding reported get
report_modified name h = reported name (get name h.cluster) h
