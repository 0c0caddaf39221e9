-- ===== src/OrderManager/Work.antt =====
-- EWMOrderManager of manager.py: the orders of a robot are read from EWM and sent to it, and the
-- confirmations of a resource are processed. The arguments that only steer log messages are left
-- out.
use ewm_cloud_robotics.Prelude.{
  ℕ, zero, suc, ◌+◌, ◌≡◌, refl, String, Bool, true, false, ◌&&◌, ◌||◌, Option, none, some, List, [],
  ◌∷◌, ◌++◌, if◌then◌else◌, is_empty, Result, ok, err,
}
use ewm_cloud_robotics.Types.{
  WarehouseOrder, ConfirmWarehouseTask, ConfirmationNumber, first_conf, ConfirmationType,
  conf_success,
}
use ewm_cloud_robotics.OrderManager.Controller.{OrderController}
use ewm_cloud_robotics.OrderManager.Orders.{send_who_to_robot}
use ewm_cloud_robotics.OrderManager.Memory.{check_who_conf_processed, memorize_who_conf}
use ewm_cloud_robotics.OrderManager.Manager.{
  EwmError, no_order_found, robot_has_order, key_error, diverges, get_warehouseorder,
  get_robot_warehouseorders, getnew_robot_warehouseorder, get_warehouseorders, OrderAnswer, returns,
  raises, OrdersAnswer, returns_all, raises_all, Ewm, EwmOrderManager, Outcome, done, failure, send,
  confirm_warehousetask,
}

-- The orders of a robot, or an exception.
pub data Whos : Type 0 where
  got : List WarehouseOrder → EwmOrderManager → Whos
  lost : EwmError → EwmOrderManager → Whos

abbrev pub add_first : WarehouseOrder → Whos → Whos
add_first o (got os m) = got (o ∷ os) m
add_first o (lost e m) = lost e m

infixl 5 ◌and_then◌ ◌with◌
-- An exception ends what follows.
abbrev pub ◌with◌ : Whos → (List WarehouseOrder → EwmOrderManager → Whos) → Whos
got os m with f = f os m
lost e m with f = lost e m

abbrev pub continue : Option EwmError → EwmOrderManager → (EwmOrderManager → Outcome) → Outcome
continue none m f = f m
continue (some e) m f = failure e m

abbrev pub ◌and_then◌ : Outcome → (EwmOrderManager → Outcome) → Outcome
o and_then f = continue o.raised o.manager f

-- A step without an exception goes on from where it ended.
pub finishes :
    (o : Outcome) (f : EwmOrderManager → Outcome)
    → (o and_then f).raised ≡ none
    → (o.raised ≡ none) × ((o and_then f) ≡ f o.manager)
finishes o f h = go o.raised h
  where
    go :
        (r : Option EwmError)
        → (continue r o.manager f).raised ≡ none
        → (r ≡ none) × (continue r o.manager f ≡ f o.manager)
    go none e = (refl, refl)
    go (some x) e = (e, cc)

module _ (lower : String → String) (time : ℕ → ℕ) (ewm : Ewm) where
  -- The orders that are assigned to the robot already.
  unfoldable pub assigned : OrdersAnswer → EwmOrderManager → Whos
  assigned (returns_all os) m = got os m
  assigned (raises_all no_order_found) m = got [] m
  assigned (raises_all e) m = lost e m

  unfoldable pub one_order : OrderAnswer → EwmOrderManager → Whos
  one_order (returns o) m = got (o ∷ []) m
  one_order (raises e) m = lost e m

  -- A new order is read once more, with its open tasks.
  unfoldable pub new_order : OrderAnswer → EwmOrderManager → Whos
  unfolding one_order
  new_order (raises no_order_found) m = got [] m
  new_order (raises robot_has_order) m = got [] m
  new_order (raises e) m = lost e m
  new_order (returns o) m =
      let m' = send (get_warehouseorder o.lgnum o.who true) m in
      one_order (ewm.order m'.ewm_requests) m'

  unfoldable pub request_new : String → String → EwmOrderManager → Whos
  unfolding new_order
  request_new lgnum rsrc m =
      let m' = send (getnew_robot_warehouseorder lgnum rsrc) m in
      new_order (ewm.order m'.ewm_requests) m'

  -- What the rest of the loop, `go`, does after a top order is asked for its sub orders.
  abbrev pub extended :
      (List WarehouseOrder → EwmOrderManager → Whos)
      → WarehouseOrder
      → List WarehouseOrder
      → OrdersAnswer
      → EwmOrderManager
      → Whos
  extended go o os (returns_all subs) m = add_first o (go (os ++ subs) m)
  extended go o os (raises_all e) m = lost e m

  -- The loop over the orders, which appends the sub orders of a top order to the list that it
  -- runs over. `fuel` bounds its rounds.
  unfoldable pub add_sub_orders : ℕ → List WarehouseOrder → EwmOrderManager → Whos
  add_sub_orders zero os m = lost diverges m
  add_sub_orders (suc fuel) [] m = got [] m
  add_sub_orders (suc fuel) (o ∷ os) m =
      let plain = add_first o (add_sub_orders fuel os m) in
      let m' = send (get_warehouseorders o.lgnum o.who) m in
      let top = extended (add_sub_orders fuel) o os (ewm.orders m'.ewm_requests) m' in
      if o.flgwho then top else plain

  abbrev pub with_tasks : (EwmOrderManager → Whos) → OrderAnswer → EwmOrderManager → Whos
  with_tasks go (returns o) m = add_first o (go m)
  with_tasks go (raises e) m = lost e m

  -- Orders without tasks are read once more, with their open tasks.
  unfoldable pub add_open_tasks : List WarehouseOrder → EwmOrderManager → Whos
  add_open_tasks [] m = got [] m
  add_open_tasks (o ∷ os) m =
      let kept = add_first o (add_open_tasks os m) in
      let m' = send (get_warehouseorder o.lgnum o.who true) m in
      let read = with_tasks (λ m. add_open_tasks os m) (ewm.order m'.ewm_requests) m' in
      if is_empty o.warehousetasks then read else kept

  -- `newwho`, `onlynewwho`: whether a new order may be asked for, and whether nothing else is.
  unfoldable pub get_robot_whos : ℕ → String → String → Bool → Bool → EwmOrderManager → Whos
  unfolding assigned request_new add_sub_orders add_open_tasks
  get_robot_whos fuel lgnum rsrc newwho onlynewwho m =
      let m' = send (get_robot_warehouseorders lgnum rsrc) m in
      (if onlynewwho then got [] m else assigned (ewm.orders m'.ewm_requests) m')
      with (λ os m.
          if is_empty os && (newwho || onlynewwho) then request_new lgnum rsrc m else got os m)
      with (λ os m. add_sub_orders fuel os m)
      with (λ os m. add_open_tasks os m)

  abbrev pub sent : Result OrderController → EwmOrderManager → Outcome
  sent (ok c) m = done (record m { ordercontroller = c; reads = m.reads + 2 })
  sent (err e) m = failure key_error m

  -- The readings of the clock are counted as two for each order, whether the second is made or
  -- not.
  unfoldable pub send_robot_whos : String → List WarehouseOrder → EwmOrderManager → Outcome
  send_robot_whos rsrc [] m = done m
  send_robot_whos rsrc (o ∷ os) m =
      sent (send_who_to_robot lower rsrc o (time m.reads) (time (m.reads + 1)) m.ordercontroller) m
      and_then (λ m'. send_robot_whos rsrc os m')

  abbrev pub send_got : String → Whos → Outcome
  send_got rsrc (got os m) = send_robot_whos rsrc os m
  send_got rsrc (lost e m) = failure e m

  -- The answer, whether there are orders, is only logged.
  unfoldable pub get_and_send_robot_whos :
      ℕ → String → String → Bool → Bool → EwmOrderManager → Outcome
  unfolding get_robot_whos send_robot_whos
  get_and_send_robot_whos fuel lgnum rsrc newwho onlynewwho m =
      send_got rsrc (get_robot_whos fuel lgnum rsrc newwho onlynewwho m)

  abbrev pub memorize : ConfirmWarehouseTask → EwmOrderManager → Outcome
  memorize c m = done (record m { msg_mem = memorize_who_conf c m.msg_mem })

  -- After a successful first confirmation the robot gets its orders anew.
  abbrev pub send_update :
      ℕ → ConfirmationNumber → ConfirmationType → ConfirmWarehouseTask → EwmOrderManager → Outcome
  send_update fuel first_conf conf_success c m =
      get_and_send_robot_whos fuel c.lgnum c.rsrc false false m
  send_update fuel _ _ c m = done m

  -- A confirmation that was not processed before.
  unfoldable pub process_new : ℕ → ConfirmWarehouseTask → EwmOrderManager → Outcome
  unfolding get_and_send_robot_whos
  process_new fuel c m =
      confirm_warehousetask lower time ewm c m
      and_then send_update fuel c.confirmationnumber c.confirmationtype c
      and_then memorize c

  unfoldable pub process_conf : ℕ → ConfirmWarehouseTask → EwmOrderManager → Outcome
  unfolding process_new
  process_conf fuel c m =
      let (known, memory) = check_who_conf_processed c m.msg_mem in
      let m' = record m { msg_mem = memory } in if known then done m' else process_new fuel c m'

  unfoldable pub process_confs : ℕ → List ConfirmWarehouseTask → EwmOrderManager → Outcome
  unfolding process_conf
  process_confs fuel [] m = done m
  process_confs fuel (c ∷ cs) m = process_conf fuel c m and_then (λ m'. process_confs fuel cs m')
