-- ===== src/OrderManager/Reads.antt =====
-- get_and_send_robot_whos of manager.py reads orders and sends them: what the order manager
-- remembers stays as it is.
use ewm_cloud_robotics.Prelude.{
  ℕ, zero, suc, ◌+◌, ◌≡◌, refl, ◌∙◌, String, Bool, true, false, ◌&&◌, ◌||◌, List, [], ◌∷◌,
  if◌then◌else◌, is_empty, Result, ok, err, arith,
}
use ewm_cloud_robotics.Types.{WarehouseOrder}
use ewm_cloud_robotics.OrderManager.Controller.{OrderController}
use ewm_cloud_robotics.OrderManager.Orders.{send_who_to_robot}
use ewm_cloud_robotics.OrderManager.Manager.{
  get_robot_warehouseorders, get_warehouseorder, get_warehouseorders, OrderAnswer, returns, raises,
  OrdersAnswer, returns_all, raises_all, Ewm, EwmOrderManager, Outcome, send,
}
use ewm_cloud_robotics.OrderManager.Work.{
  Whos, got, lost, ◌with◌, ◌and_then◌, add_first, assigned, one_order, new_order, request_new,
  extended, add_sub_orders, with_tasks, add_open_tasks, get_robot_whos, sent, send_robot_whos,
  send_got, get_and_send_robot_whos,
}

-- The manager after some orders were read.
abbrev manager_of : Whos → EwmOrderManager
manager_of (got os m) = m
manager_of (lost e m) = m

-- What was read leaves the memory of `m` as it is.
record Keeps (m : EwmOrderManager) (ws : Whos) : Type 0 where
  memory : (manager_of ws).msg_mem ≡ m.msg_mem

kept : {m n : EwmOrderManager} {ws : Whos} → Keeps n ws → n.msg_mem ≡ m.msg_mem → Keeps m ws
kept k e = record { memory = k.memory ∙ e }

add_first-Keeps :
    (o : WarehouseOrder) (ws : Whos) (m : EwmOrderManager) → Keeps m ws → Keeps m (add_first o ws)
add_first-Keeps o (got os m') m h = record { memory = h.memory }
add_first-Keeps o (lost e m') m h = record { memory = h.memory }

with-Keeps :
    (ws : Whos) (f : List WarehouseOrder → EwmOrderManager → Whos) (m : EwmOrderManager)
    → Keeps m ws
    → ((os : List WarehouseOrder) (n : EwmOrderManager) → Keeps n (f os n))
    → Keeps m (ws with f)
with-Keeps (got os m') f m h k = kept (k os m') h.memory
with-Keeps (lost e m') f m h k = record { memory = h.memory }

if-Keeps :
    (b : Bool) (x y : Whos) (m : EwmOrderManager)
    → Keeps m x
    → Keeps m y
    → Keeps m (if b then x else y)
if-Keeps true x y m p q = p
if-Keeps false x y m p q = q

module _ (lower : String → String) (time : ℕ → ℕ) (ewm : Ewm) where
  assigned-Keeps : (a : OrdersAnswer) (m : EwmOrderManager) → Keeps m (assigned lower time ewm a m)
  unfolding assigned
  assigned-Keeps a m = ground arith

  request_new-Keeps :
      (lgnum rsrc : String) (m : EwmOrderManager)
      → Keeps m (request_new lower time ewm lgnum rsrc m)
  unfolding request_new new_order one_order
  request_new-Keeps lgnum rsrc m = ground arith

  extended-Keeps :
      (go : List WarehouseOrder → EwmOrderManager → Whos) (o : WarehouseOrder)
      (os : List WarehouseOrder) (a : OrdersAnswer) (m : EwmOrderManager)
      → ((l : List WarehouseOrder) (n : EwmOrderManager) → Keeps n (go l n))
      → Keeps m (extended lower time ewm go o os a m)
  extended-Keeps go o os (returns_all subs) m k = add_first-Keeps o _ m (k _ m)
  extended-Keeps go o os (raises_all e) m k = record { memory = refl }

  add_sub_orders-Keeps :
      (fuel : ℕ) (os : List WarehouseOrder) (m : EwmOrderManager)
      → Keeps m (add_sub_orders lower time ewm fuel os m)
  unfolding add_sub_orders
  add_sub_orders-Keeps zero os m = record { memory = refl }
  add_sub_orders-Keeps (suc fuel) [] m = record { memory = refl }
  add_sub_orders-Keeps (suc fuel) (o ∷ os) m =
      let m' : EwmOrderManager = send (get_warehouseorders o.lgnum o.who) m in
      if-Keeps o.flgwho _ _ m
        (kept
          (extended-Keeps (add_sub_orders lower time ewm fuel) o os (ewm.orders m'.ewm_requests) m'
            (add_sub_orders-Keeps fuel))
          refl)
        (add_first-Keeps o _ m (add_sub_orders-Keeps fuel os m))

  with_tasks-Keeps :
      (go : EwmOrderManager → Whos) (a : OrderAnswer) (m : EwmOrderManager)
      → Keeps m (go m)
      → Keeps m (with_tasks lower time ewm go a m)
  with_tasks-Keeps go (returns o) m k = add_first-Keeps o _ m k
  with_tasks-Keeps go (raises e) m k = record { memory = refl }

  add_open_tasks-Keeps :
      (os : List WarehouseOrder) (m : EwmOrderManager)
      → Keeps m (add_open_tasks lower time ewm os m)
  unfolding add_open_tasks
  add_open_tasks-Keeps [] m = record { memory = refl }
  add_open_tasks-Keeps (o ∷ os) m =
      let m' : EwmOrderManager = send (get_warehouseorder o.lgnum o.who true) m in
      if-Keeps (is_empty o.warehousetasks) _ _ m
        (kept
          (with_tasks-Keeps (add_open_tasks lower time ewm os) (ewm.order m'.ewm_requests) m'
            (add_open_tasks-Keeps os m'))
          refl)
        (add_first-Keeps o _ m (add_open_tasks-Keeps os m))

  get_robot_whos-Keeps :
      (fuel : ℕ) (lgnum rsrc : String) (newwho onlynewwho : Bool) (m : EwmOrderManager)
      → Keeps m (get_robot_whos lower time ewm fuel lgnum rsrc newwho onlynewwho m)
  unfolding get_robot_whos
  get_robot_whos-Keeps fuel lgnum rsrc newwho onlynewwho m =
      let m' : EwmOrderManager = send (get_robot_warehouseorders lgnum rsrc) m in
      with-Keeps _ _ m
        (with-Keeps _ _ m
          (with-Keeps _ _ m
            (if-Keeps onlynewwho _ _ m (record { memory = refl })
              (kept (assigned-Keeps (ewm.orders m'.ewm_requests) m') refl))
            (λ os n.
              if-Keeps (is_empty os && (newwho || onlynewwho)) _ _ n
                (request_new-Keeps lgnum rsrc n) (record { memory = refl })))
          (λ os n. add_sub_orders-Keeps fuel os n))
        (λ os n. add_open_tasks-Keeps os n)

  sent-memory :
      (r : Result OrderController) (m : EwmOrderManager) (f : EwmOrderManager → Outcome)
      → ((n : EwmOrderManager) → (f n).manager.msg_mem ≡ n.msg_mem)
      → (sent lower time ewm r m and_then f).manager.msg_mem ≡ m.msg_mem
  sent-memory (ok c) m f k = k _
  sent-memory (err e) m f k = refl

  send_robot_whos-memory :
      (rsrc : String) (os : List WarehouseOrder) (m : EwmOrderManager)
      → (send_robot_whos lower time ewm rsrc os m).manager.msg_mem ≡ m.msg_mem
  unfolding send_robot_whos
  send_robot_whos-memory rsrc [] m = refl
  send_robot_whos-memory rsrc (o ∷ os) m =
      sent-memory
        (send_who_to_robot lower rsrc o (time m.reads) (time (m.reads + 1)) m.ordercontroller) m
        (send_robot_whos lower time ewm rsrc os) (send_robot_whos-memory rsrc os)

  send_got-memory :
      (rsrc : String) (ws : Whos) (m : EwmOrderManager)
      → Keeps m ws
      → (send_got lower time ewm rsrc ws).manager.msg_mem ≡ m.msg_mem
  send_got-memory rsrc (got os m') m k = send_robot_whos-memory rsrc os m' ∙ k.memory
  send_got-memory rsrc (lost e m') m k = k.memory

  pub get_and_send_robot_whos-memory :
      (fuel : ℕ) (lgnum rsrc : String) (newwho onlynewwho : Bool) (m : EwmOrderManager)
      → (get_and_send_robot_whos lower time ewm fuel lgnum rsrc newwho onlynewwho m).manager.msg_mem
        ≡ m.msg_mem
  unfolding get_and_send_robot_whos
  get_and_send_robot_whos-memory fuel lgnum rsrc newwho onlynewwho m =
      send_got-memory rsrc (get_robot_whos lower time ewm fuel lgnum rsrc newwho onlynewwho m) m
        (get_robot_whos-Keeps fuel lgnum rsrc newwho onlynewwho m)
