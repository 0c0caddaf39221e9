-- ===== src/OrderManager/WhoCr.antt =====
-- process_who_cr_cb of manager.py: the confirmations of a resource of a warehouse order are
-- processed, and those are saved in its spec.
use ewm_cloud_robotics.Prelude.{
  ℕ, String, str_eq, Bool, true, false, not, ◌&&◌, ◌||◌, Option, none, some, List, [], ◌∷◌,
  if◌then◌else◌, is_empty,
}
use ewm_cloud_robotics.Types.{WhoIdentifier, ConfirmWarehouseTask, OrderStatus, running, processed}
use ewm_cloud_robotics.OrderManager.Controller.{OrderController, check_cr_exists, save_cr}
use ewm_cloud_robotics.OrderManager.Memory.{conf_eq}
use ewm_cloud_robotics.OrderManager.Confirmations.{get_who_confirmations}
use ewm_cloud_robotics.OrderManager.Manager.{
  EwmError, not_found, key_error, diverges, get_warehouseorder, OrderAnswer, returns, raises, Ewm,
  EwmOrderManager, Outcome, done, failure, send, cleanup,
}
use ewm_cloud_robotics.OrderManager.Work.{◌and_then◌, process_confs}

-- What a resource of a warehouse order holds; `status` is the list `data` of its status.
pub record WhoResource : Type 0 where
  pub name : String
  pub lgnum : String
  pub who : String
  pub order_status : OrderStatus
  pub process_status : Option (List ConfirmWarehouseTask)
  pub status : Option (List ConfirmWarehouseTask)

abbrev or_empty : Option (List ConfirmWarehouseTask) → List ConfirmWarehouseTask
or_empty none = []
or_empty (some cs) = cs

abbrev pub confirmations_to_process : WhoResource → List ConfirmWarehouseTask
confirmations_to_process r = get_who_confirmations (or_empty r.status) (or_empty r.process_status)

unfoldable pub confs_eq : List ConfirmWarehouseTask → List ConfirmWarehouseTask → Bool
unfolding conf_eq
confs_eq [] [] = true
confs_eq (c ∷ cs) (d ∷ ds) = conf_eq c d && confs_eq cs ds
confs_eq _ _ = false

abbrev unchanged : Option (List ConfirmWarehouseTask) → List ConfirmWarehouseTask → Bool
unchanged none cs = false
unchanged (some ds) cs = confs_eq ds cs

-- Only if there is a status, the resource exists and what it holds changes.
unfoldable pub save_processed_status :
    String
    → Option (List ConfirmWarehouseTask)
    → Option (List ConfirmWarehouseTask)
    → OrderController
    → OrderController
unfolding confs_eq
save_processed_status name process_status none c = c
save_processed_status name process_status (some confs) c = record c {
  requests =
      if check_cr_exists name c.cr_cache && not (unchanged process_status confs)
      then save_cr name confs ∷ c.requests
      else c.requests;
}

module _ (lower : String → String) (time : ℕ → ℕ) (ewm : Ewm) where
  -- The order is closed if EWM does not have it or has it in another status than open.
  verified : WhoIdentifier → OrderAnswer → EwmOrderManager → Outcome
  verified w (returns o) m =
      if str_eq o.status "D" || str_eq o.status "" then done m else cleanup lower time ewm w m
  verified w (raises not_found) m = cleanup lower time ewm w m
  verified w (raises e) m = failure e m

  verify : OrderStatus → WhoIdentifier → EwmOrderManager → Outcome
  unfolding verified
  verify processed w m = done m
  verify running w m =
      let m' = send (get_warehouseorder w.lgnum w.who false) m in
      verified w (ewm.order m'.ewm_requests) m'

  unfoldable pub process_who_cr : ℕ → WhoResource → EwmOrderManager → Outcome
  unfolding process_confs verify
  process_who_cr fuel r m =
      let confirmations = confirmations_to_process r in
      process_confs lower time ewm fuel confirmations m and_then (λ m'.
        if is_empty confirmations
        then verify r.order_status (record { lgnum = r.lgnum; who = r.who }) m'
        else done m')

  -- Exceptions of EWM and of the connection to it are logged; nothing is saved after them.
  saved : WhoResource → Option EwmError → EwmOrderManager → Outcome
  unfolding save_processed_status
  saved r none m = done (record m {
    ordercontroller = save_processed_status r.name r.process_status r.status m.ordercontroller;
  })
  saved r (some key_error) m = failure key_error m
  saved r (some diverges) m = failure diverges m
  saved r (some e) m = done m

  cr_cb : ℕ → OrderStatus → WhoResource → EwmOrderManager → Outcome
  unfolding process_who_cr saved
  cr_cb fuel processed r m = done m
  cr_cb fuel running r m = let o = process_who_cr fuel r m in saved r o.raised o.manager

  unfoldable pub process_who_cr_cb : ℕ → WhoResource → EwmOrderManager → Outcome
  unfolding cr_cb
  process_who_cr_cb fuel r m = cr_cb fuel r.order_status r m
