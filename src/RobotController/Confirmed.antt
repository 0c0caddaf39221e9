-- ===== src/RobotController/Confirmed.antt =====
-- Confirmations that a robot sends (ordercontroller.py of robcoewmrobotcontroller): the order is not
-- handed out again once the watcher has reported them.
use ewm_cloud_robotics.Prelude.{
  String, eq_iff, ◌≡◌, refl, sym, ap, ◌∙◌, true, false, Option, none, some, List, [], ◌∷◌, ◌++◌,
  if◌then◌else◌, if-false, any, arith,
}
use ewm_cloud_robotics.Types.{ConfirmWarehouseTask}
use ewm_cloud_robotics.OrderManager.Memory.{conf_eq}
use ewm_cloud_robotics.OrderManager.WhoCr.{confs_eq}
use ewm_cloud_robotics.OrderManager.Orders.{cr_name}
use ewm_cloud_robotics.OrderManager.Auctions.{Dict, get, put}
use ewm_cloud_robotics.OrderManager.Scope.{get-put}
use ewm_cloud_robotics.RobotController.Orders.{
  OrderCr, OrderHandler, own_process_status, warehouse_order_precheck, checked, get_warehouseorder,
  update_status, confirm_in, confirm_wht, reported, report_modified,
}

confs_eq-append :
    (c : ConfirmWarehouseTask) (xs ys : List ConfirmWarehouseTask)
    → confs_eq xs ys ≡ true
    → confs_eq (xs ++ (c ∷ [])) ys ≡ false
unfolding confs_eq
confs_eq-append c [] [] h = refl
confs_eq-append c [] (y ∷ ys) h = ground arith
confs_eq-append c (x ∷ xs) [] h = refl
confs_eq-append c (x ∷ xs) (y ∷ ys) h = ground (arith, confs_eq-append c xs ys)

get-put_same : (k : String) (r : OrderCr) (d : Dict OrderCr) → get k (put k r d) ≡ some r
get-put_same k r d = get-put k k r d ∙ ap (λ b. if b then some r else get k d) ((eq_iff k k).1 refl)

abbrev or_old : Option OrderHandler → OrderHandler → OrderHandler
or_old none h = h
or_old (some n) h = n

module _ (lower : String → String) where
  precheck_fails :
      (robot_name other : Option String) (c : ConfirmWarehouseTask) (r : OrderCr)
      → warehouse_order_precheck lower other r ≡ true
      → warehouse_order_precheck lower robot_name (record r { data' = r.data' ++ (c ∷ []) }) ≡ false
  unfolding warehouse_order_precheck
  precheck_fails robot_name other c r h =
      ground
        (arith, confs_eq-append c r.data' (own_process_status lower r.robot r.spec.process_status))

  confirmed_handler :
      (c : ConfirmWarehouseTask) (r : OrderCr) (h h' : OrderHandler)
      → get (cr_name lower c.lgnum c.who) h.cache ≡ some r
      → get (cr_name lower c.lgnum c.who) h.cluster ≡ some r
      → any (λ d. conf_eq d c) r.data' ≡ false
      → confirm_wht lower c h ≡ some h'
      → record h {
        cluster =
            put (cr_name lower c.lgnum c.who) (record r { data' = r.data' ++ (c ∷ []) }) h.cluster;
      }
        ≡ h'
  unfolding confirm_wht confirm_in update_status
  confirmed_handler c r h h' g k n e =
      let name : String = cr_name lower c.lgnum c.who in
      ap (λ o. or_old o h)
        (sym (
            ap (λ o. confirm_in lower name c o h) g
            ∙ if-false _ _ n
            ∙ ap (λ o. update_status lower name (r.data' ++ (c ∷ [])) o h) k)
          ∙ e)

  -- If a robot sends a confirmation that its order does not hold yet, of an order that may be
  -- processed and whose resource in the cache is that in the cluster, then the order is found as
  -- before until the watcher reports the change of its resource, and for no robot after that.
  pub get_warehouseorder-confirm_wht :
      (robot_name other : Option String) (c : ConfirmWarehouseTask) (r : OrderCr)
      (h h' : OrderHandler)
      → get (cr_name lower c.lgnum c.who) h.cache ≡ some r
      → get (cr_name lower c.lgnum c.who) h.cluster ≡ some r
      → warehouse_order_precheck lower other r ≡ true
      → any (λ d. conf_eq d c) r.data' ≡ false
      → confirm_wht lower c h ≡ some h'
      → (get_warehouseorder lower c.lgnum c.who robot_name h'
          ≡ get_warehouseorder lower c.lgnum c.who robot_name h)
        × (get_warehouseorder lower c.lgnum c.who robot_name
              (report_modified (cr_name lower c.lgnum c.who) h')
            ≡ none)
  unfolding get_warehouseorder report_modified reported
  get_warehouseorder-confirm_wht robot_name other c r h h' g k p n e =
      let name : String = cr_name lower c.lgnum c.who in
      let r' : OrderCr = record r { data' = r.data' ++ (c ∷ []) } in
      let q : record h { cluster = put name r' h.cluster } ≡ h' =
        confirmed_handler c r h h' g k n e in
      (
        ap (λ d. checked lower robot_name (get name d.cache)) (sym q),
        ap (λ d. checked lower robot_name (get name (report_modified name d).cache)) (sym q)
            ∙ ap
                (λ o.
                  checked lower robot_name (
                    get name
                      (reported name o (record h { cluster = put name r' h.cluster })).cache))
                (get-put_same name r' h.cluster)
            ∙ ap (checked lower robot_name) (get-put_same name r' h.cache)
            ∙ if-false (some r.spec) none (precheck_fails robot_name other c r p),
      )
