-- ===== src/OrderManager/Taken.antt =====
-- Which orders the order manager takes from a robot when its configuration changes (manager.py).
use ewm_cloud_robotics.Prelude.{
  ℕ, suc, ◌+◌, ◌≡◌, refl, sym, ap, ap₂, ◌∙◌, String, Bool, true, false, not, ◌&&◌, ◌||◌, Bool-cases,
  inl, inr, Option, none, List, [], ◌∷◌, if◌then◌else◌, any, ok, arith,
}
use ewm_cloud_robotics.Types.{
  WhoIdentifier, ident_eq, ConfirmWarehouseTask, ConfirmationNumber, first_conf, second_conf,
  ConfirmationType, conf_success, conf_error,
}
use ewm_cloud_robotics.OrderManager.Controller.{OrderSpec}
use ewm_cloud_robotics.OrderManager.Orders.{get_running_whos}
use ewm_cloud_robotics.OrderManager.Manager.{
  EwmRequest, unassign_robot_warehouseorder, Ewm, EwmOrderManager, Outcome, send,
}
use ewm_cloud_robotics.OrderManager.Work.{finishes}
use ewm_cloud_robotics.OrderManager.Asks.{ident_of_spec, unassigned-Asks}
use ewm_cloud_robotics.OrderManager.RobotConfig.{
  is_first, is_success, is_first_success, unassign_one, unassign_all, unassign_found,
  unassign_robot,
}

abbrev is_unassign : WhoIdentifier → EwmRequest → ℕ
is_unassign w (unassign_robot_warehouseorder lgnum rsrc who) =
    if ident_eq w (record { lgnum = lgnum; who = who }) then 1 else 0
is_unassign w _ = 0

-- How often EWM was asked to take the order from its robot.
abbrev pub unassigns : WhoIdentifier → List EwmRequest → ℕ
unassigns w [] = 0
unassigns w (r ∷ rs) = is_unassign w r + unassigns w rs

abbrev succeeded_first : ConfirmationNumber → ConfirmationType → Bool
succeeded_first first_conf conf_success = true
succeeded_first first_conf conf_error = false
succeeded_first second_conf t = false

-- The order is `w`, and no first confirmation of it succeeded.
abbrev is_due : WhoIdentifier → OrderSpec × List ConfirmWarehouseTask → Bool
is_due w (o, confs) =
    ident_eq w (ident_of_spec o)
    && not (any (λ c. succeeded_first c.confirmationnumber c.confirmationtype) confs)

-- How many of the orders are `w` with no first confirmation that succeeded.
abbrev pub dues : WhoIdentifier → List (OrderSpec × List ConfirmWarehouseTask) → ℕ
dues w [] = 0
dues w (x ∷ whos) = if is_due w x then suc (dues w whos) else dues w whos

module _ (lower upper : String → String) (time : ℕ → ℕ) (isoparse : String → Option ℕ)
    (ewm : Ewm) where
  any-is_first_success :
      (confs : List ConfirmWarehouseTask)
      → any is_first_success confs
        ≡ any (λ c. succeeded_first c.confirmationnumber c.confirmationtype) confs
  any-is_first_success [] = refl
  any-is_first_success (c ∷ confs) =
      ap₂ (λ x y. x || y) (same c.confirmationnumber c.confirmationtype)
        (any-is_first_success confs)
    where
      same :
          (n : ConfirmationNumber) (t : ConfirmationType)
          → (is_first n && is_success t) ≡ succeeded_first n t
      same first_conf conf_success = refl
      same first_conf conf_error = refl
      same second_conf t = refl

  unassigns-unassign_one :
      (w : WhoIdentifier) (o : OrderSpec) (confs : List ConfirmWarehouseTask) (m : EwmOrderManager)
      → unassigns w (unassign_one lower upper time isoparse ewm o confs m).manager.ewm_requests ≡ (
          if is_due w (o, confs)
          then suc (unassigns w m.ewm_requests)
          else unassigns w m.ewm_requests)
  unfolding unassign_one
  unassigns-unassign_one w o confs m =
      let d = o.data' in
      let n : EwmOrderManager = send (unassign_robot_warehouseorder d.lgnum d.rsrc d.who) m in
      let a =
        unassigned-Asks lower upper time isoparse ewm (unassigns w) (λ l h b rs. omega arith) o
          (ewm.confirm n.ewm_requests) n in
      let e = any-is_first_success confs in
      elim (Bool-cases (any is_first_success confs)) [
        | inl y ↦ rw y (ground (arith, e))
        | inr x ↦ rw x (a.asked ∙ ground (arith, e))
      ]

  unassigns-unassign_all :
      (w : WhoIdentifier) (whos : List (OrderSpec × List ConfirmWarehouseTask))
      (m : EwmOrderManager)
      → (unassign_all lower upper time isoparse ewm whos m).raised ≡ none
      → unassigns w (unassign_all lower upper time isoparse ewm whos m).manager.ewm_requests
        ≡ dues w whos + unassigns w m.ewm_requests
  unfolding unassign_all
  unassigns-unassign_all w [] m h = omega arith
  unassigns-unassign_all w ((o, confs) ∷ whos) m h =
      let one : Outcome = unassign_one lower upper time isoparse ewm o confs m in
      let all = λ (n : EwmOrderManager). unassign_all lower upper time isoparse ewm whos n in
      let (a, e) = finishes one all h in
      let k : unassigns w (all one.manager).manager.ewm_requests
          ≡ dues w whos + unassigns w one.manager.ewm_requests =
        unassigns-unassign_all w whos one.manager (sym (ap (λ p. p.raised) e) ∙ h) in
      ap (λ p. unassigns w p.manager.ewm_requests) e
      ∙ k
      ∙ ground (arith, unassigns-unassign_one w o confs m)

  -- If the running orders of a robot can be read and are taken from it without an exception, EWM is
  -- asked to take an order `w` from it exactly once for each of them that is `w` with no first
  -- confirmation that succeeded.
  pub unassigns-unassign_robot :
      (w : WhoIdentifier) (robot : String) (m : EwmOrderManager)
      (whos : List (OrderSpec × List ConfirmWarehouseTask))
      → get_running_whos robot m.ordercontroller.cr_cache ≡ ok whos
      → (unassign_robot lower upper time isoparse ewm robot m).raised ≡ none
      → unassigns w (unassign_robot lower upper time isoparse ewm robot m).manager.ewm_requests
        ≡ dues w whos + unassigns w m.ewm_requests
  unfolding unassign_robot unassign_found
  unassigns-unassign_robot w robot m whos e h =
      let same = ap (λ r. unassign_found lower upper time isoparse ewm r m) e in
      ap (λ o. unassigns w o.manager.ewm_requests) same
      ∙ unassigns-unassign_all w whos m (sym (ap (λ o. o.raised) same) ∙ h)
