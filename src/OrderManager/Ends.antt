-- ===== src/OrderManager/Ends.antt =====
-- The loop over a list that grows in get_robot_whos of manager.py ends.
use Prim.Native.Nat.{◌*◌}
use native.Mathlib.Nat.{mul-le-mul_right}
use ewm_cloud_robotics.Prelude.{
  ℕ, zero, suc, ◌+◌, ◌≤◌, ◌<◌, ◌≡◌, ◌≢◌, refl, String, Bool, true, false, not, ◌&&◌, ◌||◌, List, [],
  ◌∷◌, ◌++◌, if◌then◌else◌, is_empty, length, every, arith,
}
use ewm_cloud_robotics.Types.{WarehouseOrder}
use ewm_cloud_robotics.OrderManager.Manager.{
  no_order_found, robot_has_order, diverges, EwmRequest, get_robot_warehouseorders,
  getnew_robot_warehouseorder, get_warehouseorder, get_warehouseorders, OrderAnswer, returns,
  raises, OrdersAnswer, returns_all, raises_all, Ewm, EwmOrderManager, send,
}
use ewm_cloud_robotics.OrderManager.Work.{
  Whos, got, lost, ◌with◌, add_first, assigned, one_order, new_order, request_new, extended,
  add_sub_orders, with_tasks, add_open_tasks, get_robot_whos,
}

-- The orders are read, or EWM raises an exception.
abbrev pub Ends : Whos → Type 0
Ends (got os m) = Unit
Ends (lost e m) = e ≢ diverges

abbrev pub NoTop : List WarehouseOrder → Type 0
NoTop os = every (λ o. not o.flgwho) os ≡ true

abbrev pub Several : ℕ → OrdersAnswer → Type 0
Several k (returns_all os) = length os ≤ k
Several k (raises_all e) = e ≢ diverges

abbrev pub Subs : OrdersAnswer → Type 0
Subs (returns_all os) = NoTop os
Subs (raises_all e) = Unit

abbrev pub One : OrderAnswer → Type 0
One (returns o) = Unit
One (raises e) = e ≢ diverges

-- EWM answers with at most `k` orders, and no sub order is a top order.
pub record Answers (ewm : Ewm) (k : ℕ) : Type 0 where
  pub several : (rs : List EwmRequest) → Several k (ewm.orders rs)
  pub subs :
      (lgnum who : String) (rs : List EwmRequest)
      → Subs (ewm.orders (get_warehouseorders lgnum who ∷ rs))
  pub one : (rs : List EwmRequest) → One (ewm.order rs)

-- The rounds that the orders take.
abbrev rounds : ℕ → List WarehouseOrder → ℕ
rounds k [] = 0
rounds k (o ∷ os) = (if o.flgwho then k + 1 else 1) + rounds k os

rounds-append :
    (k : ℕ) (os ps : List WarehouseOrder) → rounds k (os ++ ps) ≡ rounds k os + rounds k ps
rounds-append k [] ps = omega arith
rounds-append k (o ∷ os) ps = omega (arith, rounds-append k os ps)

rounds-NoTop : (k : ℕ) (os : List WarehouseOrder) → NoTop os → rounds k os ≡ length os
rounds-NoTop k [] h = refl
rounds-NoTop k (o ∷ os) h = ground (arith, rounds-NoTop k os)

rounds-le : (k : ℕ) (os : List WarehouseOrder) → rounds k os ≤ length os * (k + 1)
rounds-le k [] = omega arith
rounds-le k (o ∷ os) = ground (arith, rounds-le k os)

add_first-Ends : (o : WarehouseOrder) (ws : Whos) → Ends ws → Ends (add_first o ws)
add_first-Ends o (got os m) h = tt
add_first-Ends o (lost e m) h = h

if-Ends :
    (b : Bool) (x y : Whos) → (b ≡ true → Ends x) → (b ≡ false → Ends y) → Ends (if b then x else y)
if-Ends true x y p q = p refl
if-Ends false x y p q = q refl

-- The orders that are read satisfy `P`.
abbrev EndsWith : (List WarehouseOrder → Type 0) → Whos → Type 0
EndsWith P (got os m) = P os
EndsWith P (lost e m) = e ≢ diverges

with-Ends :
    (P : List WarehouseOrder → Type 0) (ws : Whos)
    (f : List WarehouseOrder → EwmOrderManager → Whos)
    → EndsWith P ws
    → ((os : List WarehouseOrder) (m : EwmOrderManager) → P os → Ends (f os m))
    → Ends (ws with f)
with-Ends P (got os m) f h k = k os m h
with-Ends P (lost e m) f h k = h

with-EndsWith :
    (P : List WarehouseOrder → Type 0) (ws : Whos)
    (f : List WarehouseOrder → EwmOrderManager → Whos)
    → EndsWith P ws
    → ((os : List WarehouseOrder) (m : EwmOrderManager) → P os → EndsWith P (f os m))
    → EndsWith P (ws with f)
with-EndsWith P (got os m) f h k = k os m h
with-EndsWith P (lost e m) f h k = h

if-EndsWith :
    (P : List WarehouseOrder → Type 0) (b : Bool) (x y : Whos)
    → EndsWith P x
    → EndsWith P y
    → EndsWith P (if b then x else y)
if-EndsWith P true x y p q = p
if-EndsWith P false x y p q = q

mul_le : (n k : ℕ) → n ≤ k + 1 → n * (k + 1) ≤ (k + 1) * (k + 1)
mul_le n k h = mul-le-mul_right (k + 1) h

module _ (lower : String → String) (time : ℕ → ℕ) (ewm : Ewm) (k : ℕ)
    (answers : Answers ewm k) where
  with_tasks-Ends :
      (go : EwmOrderManager → Whos) (a : OrderAnswer) (m : EwmOrderManager)
      → One a
      → Ends (go m)
      → Ends (with_tasks lower time ewm go a m)
  with_tasks-Ends go (returns o) m h e = add_first-Ends o (go m) e
  with_tasks-Ends go (raises x) m h e = h

  add_open_tasks-Ends :
      (os : List WarehouseOrder) (m : EwmOrderManager) → Ends (add_open_tasks lower time ewm os m)
  unfolding add_open_tasks
  add_open_tasks-Ends [] m = tt
  add_open_tasks-Ends (o ∷ os) m =
      let m' : EwmOrderManager = send (get_warehouseorder o.lgnum o.who true) m in
      if-Ends (is_empty o.warehousetasks) _ _
        (λ b.
          with_tasks-Ends (add_open_tasks lower time ewm os) (ewm.order m'.ewm_requests) m'
            (answers.one m'.ewm_requests) (add_open_tasks-Ends os m'))
        (λ b. add_first-Ends o _ (add_open_tasks-Ends os m))

  extended-Ends :
      (fuel : ℕ) (go : List WarehouseOrder → EwmOrderManager → Whos) (o : WarehouseOrder)
      (os : List WarehouseOrder) (a : OrdersAnswer) (m : EwmOrderManager)
      → Several k a
      → Subs a
      → rounds k os + k < fuel
      → ((l : List WarehouseOrder) (n : EwmOrderManager) → rounds k l < fuel → Ends (go l n))
      → Ends (extended lower time ewm go o os a m)
  extended-Ends fuel go o os (returns_all subs) m s t b h =
      add_first-Ends o (go (os ++ subs) m)
        (h (os ++ subs) m (omega (arith, rounds-append k os subs, rounds-NoTop k subs t)))
  extended-Ends fuel go o os (raises_all e) m s t b h = s

  add_sub_orders-Ends :
      (fuel : ℕ) (os : List WarehouseOrder) (m : EwmOrderManager)
      → rounds k os < fuel
      → Ends (add_sub_orders lower time ewm fuel os m)
  unfolding add_sub_orders
  add_sub_orders-Ends zero os m b = absurd (omega arith)
  add_sub_orders-Ends (suc fuel) [] m b = tt
  add_sub_orders-Ends (suc fuel) (o ∷ os) m b =
      let m' : EwmOrderManager = send (get_warehouseorders o.lgnum o.who) m in
      if-Ends o.flgwho _ _
        (λ top.
          extended-Ends fuel (add_sub_orders lower time ewm fuel) o os (ewm.orders m'.ewm_requests)
            m' (answers.several m'.ewm_requests) (answers.subs o.lgnum o.who m.ewm_requests)
            (ground arith) (add_sub_orders-Ends fuel))
        (λ plain. add_first-Ends o _ (add_sub_orders-Ends fuel os m (ground arith)))

  abbrev Few : Whos → Type 0
  Few = EndsWith (λ os. length os ≤ k + 1)

  assigned-Few :
      (a : OrdersAnswer) (m : EwmOrderManager) → Several k a → Few (assigned lower time ewm a m)
  unfolding assigned
  assigned-Few (returns_all os) m s = omega arith
  assigned-Few (raises_all no_order_found) m s = omega arith
  assigned-Few (raises_all e) m s = s

  one_order-Few :
      (a : OrderAnswer) (m : EwmOrderManager) → One a → Few (one_order lower time ewm a m)
  unfolding one_order
  one_order-Few (returns o) m s = omega arith
  one_order-Few (raises e) m s = s

  new_order-Few :
      (a : OrderAnswer) (m : EwmOrderManager) → One a → Few (new_order lower time ewm a m)
  unfolding new_order
  new_order-Few (raises no_order_found) m s = omega arith
  new_order-Few (raises robot_has_order) m s = omega arith
  new_order-Few (raises e) m s = s
  new_order-Few (returns o) m s =
      let m' : EwmOrderManager = send (get_warehouseorder o.lgnum o.who true) m in
      one_order-Few (ewm.order m'.ewm_requests) m' (answers.one m'.ewm_requests)

  request_new-Few :
      (lgnum rsrc : String) (m : EwmOrderManager) → Few (request_new lower time ewm lgnum rsrc m)
  unfolding request_new
  request_new-Few lgnum rsrc m =
      let m' : EwmOrderManager = send (getnew_robot_warehouseorder lgnum rsrc) m in
      new_order-Few (ewm.order m'.ewm_requests) m' (answers.one m'.ewm_requests)

  -- If EWM answers with at most `k` orders, and no order that it returns as a sub order is a top
  -- order, then more than (k + 1) * (k + 1) rounds are enough for the loop over the orders of a
  -- robot, which appends sub orders to the list that it runs over: the orders are returned, or an
  -- exception of EWM is raised.
  pub get_robot_whos-Ends :
      (fuel : ℕ) (lgnum rsrc : String) (newwho onlynewwho : Bool) (m : EwmOrderManager)
      → (k + 1) * (k + 1) < fuel
      → Ends (get_robot_whos lower time ewm fuel lgnum rsrc newwho onlynewwho m)
  unfolding get_robot_whos
  get_robot_whos-Ends fuel lgnum rsrc newwho onlynewwho m b =
      let m' : EwmOrderManager = send (get_robot_warehouseorders lgnum rsrc) m in
      let found : Whos =
        if onlynewwho then got [] m else assigned lower time ewm (ewm.orders m'.ewm_requests) m' in
      let more : List WarehouseOrder → EwmOrderManager → Whos = λ os n.
        if is_empty os && (newwho || onlynewwho)
        then request_new lower time ewm lgnum rsrc n
        else got os n in
      with-Ends (λ os. Unit {0}) (found with more with add_sub_orders lower time ewm fuel)
        (add_open_tasks lower time ewm)
        (with-Ends (λ os. length os ≤ k + 1) (found with more) (add_sub_orders lower time ewm fuel)
          (with-EndsWith (λ os. length os ≤ k + 1) found more
            (if-EndsWith (λ os. length os ≤ k + 1) onlynewwho _ _ (omega arith)
              (assigned-Few (ewm.orders m'.ewm_requests) m' (answers.several m'.ewm_requests)))
            (λ os n few.
              if-EndsWith (λ l. length l ≤ k + 1) (is_empty os && (newwho || onlynewwho)) _ _
                (request_new-Few lgnum rsrc n) few))
          (λ os n few.
            add_sub_orders-Ends fuel os n
              (omega (arith, rounds-le k os, mul_le (length os) k few))))
        (λ os n u. add_open_tasks-Ends os n)
