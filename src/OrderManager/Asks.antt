-- ===== src/OrderManager/Asks.antt =====
-- What the order manager asks of EWM while it takes orders from a robot (manager.py), counted by a
-- function of the requests.
use ewm_cloud_robotics.Prelude.{
  ℕ, ◌≡◌, refl, ap, ◌∙◌, String, Bool, true, false, Option, none, some, List, [], ◌∷◌,
  if◌then◌else◌, any,
}
use ewm_cloud_robotics.Types.{WhoIdentifier, ConfirmWarehouseTask}
use ewm_cloud_robotics.OrderManager.Controller.{OrderSpec}
use ewm_cloud_robotics.OrderManager.Orders.{cr_cache-cleanup_who}
use ewm_cloud_robotics.OrderManager.Manager.{
  EwmError, no_order_found, not_found, EwmRequest, get_warehouseorder,
  unassign_robot_warehouseorder, OrderAnswer, returns, raises, Ewm, EwmOrderManager, Outcome, done,
  send, close_answer, cleanup,
}
use ewm_cloud_robotics.OrderManager.Confirmed.{close_answer-sent}
use ewm_cloud_robotics.OrderManager.Work.{◌and_then◌, continue}
use ewm_cloud_robotics.OrderManager.RobotConfig.{
  is_first_success, unassigned, unassign_one, unassign_all,
}

abbrev pub ident_of_spec : OrderSpec → WhoIdentifier
ident_of_spec o = record { lgnum = o.data'.lgnum; who = o.data'.who }

-- What a step asks changes no count `f`, and the cache stays.
pub record Asks (f : List EwmRequest → ℕ) (m : EwmOrderManager) (o : Outcome) : Type 0 where
  pub asked : f o.manager.ewm_requests ≡ f m.ewm_requests
  pub cached : o.manager.ordercontroller.cr_cache ≡ m.ordercontroller.cr_cache

pub after-Asks :
    (f : List EwmRequest → ℕ) (m n : EwmOrderManager) (o : Outcome)
    → Asks f m (done n)
    → Asks f n o
    → Asks f m o
after-Asks f m n o a b = record { asked = b.asked ∙ a.asked; cached = b.cached ∙ a.cached }

pub if-Asks :
    (f : List EwmRequest → ℕ) (m : EwmOrderManager) (b : Bool) (x y : Outcome)
    → (b ≡ true → Asks f m x)
    → (b ≡ false → Asks f m y)
    → Asks f m (if b then x else y)
if-Asks f m true x y p q = p refl
if-Asks f m false x y p q = q refl

then-Asks :
    (f : List EwmRequest → ℕ) (m : EwmOrderManager) (o : Outcome) (g : EwmOrderManager → Outcome)
    → Asks f m o
    → ((n : EwmOrderManager) → Asks f n (g n))
    → Asks f m (o and_then g)
then-Asks f m o g a k = go o.raised
  where
    go : (r : Option EwmError) → Asks f m (continue r o.manager g)
    go none =
        after-Asks f m o.manager (g o.manager) (record { asked = a.asked; cached = a.cached })
          (k o.manager)
    go (some e) = record { asked = a.asked; cached = a.cached }

module _ (lower upper : String → String) (time : ℕ → ℕ) (isoparse : String → Option ℕ)
    (ewm : Ewm) where
  close_answer-cached :
      (w : WhoIdentifier) (a : OrderAnswer) (m : EwmOrderManager)
      → (close_answer lower time ewm w a m).manager.ordercontroller.cr_cache
        ≡ m.ordercontroller.cr_cache
  unfolding close_answer
  close_answer-cached w (returns who) m = cr_cache-cleanup_who lower who m.ordercontroller
  close_answer-cached w (raises not_found) m = cr_cache-cleanup_who lower _ m.ordercontroller
  close_answer-cached w (raises e) m = refl

  cleanup-Asks :
      (f : List EwmRequest → ℕ) (w : WhoIdentifier) (m : EwmOrderManager)
      → f (get_warehouseorder w.lgnum w.who false ∷ m.ewm_requests) ≡ f m.ewm_requests
      → Asks f m (cleanup lower time ewm w m)
  unfolding cleanup
  cleanup-Asks f w m h =
      let n : EwmOrderManager = send (get_warehouseorder w.lgnum w.who false) m in
      record {
        asked = ap f (close_answer-sent lower time ewm w (ewm.order n.ewm_requests) n) ∙ h;
        cached = close_answer-cached w (ewm.order n.ewm_requests) n;
      }

  -- Readings of single orders do not count.
  module _ (f : List EwmRequest → ℕ)
      (reads : (lgnum who : String) (b : Bool) (rs : List EwmRequest)
        → f (get_warehouseorder lgnum who b ∷ rs) ≡ f rs) where
    pub unassigned-Asks :
        (o : OrderSpec) (e : Option EwmError) (m : EwmOrderManager)
        → Asks f m (unassigned lower upper time isoparse ewm o e m)
    unfolding unassigned
    unassigned-Asks o none m = cleanup-Asks f (ident_of_spec o) m (reads _ _ _ m.ewm_requests)
    unassigned-Asks o (some no_order_found) m =
        cleanup-Asks f (ident_of_spec o) m (reads _ _ _ m.ewm_requests)
    unassigned-Asks o (some e) m = record { asked = refl; cached = refl }

    -- The order is not asked for, unless a first confirmation succeeded.
    abbrev pub Uncounted : OrderSpec → List ConfirmWarehouseTask → Type 0
    Uncounted o confs =
        any is_first_success confs ≡ false
        → (rs : List EwmRequest)
        → f (unassign_robot_warehouseorder o.data'.lgnum o.data'.rsrc o.data'.who ∷ rs) ≡ f rs

    abbrev pub AllUncounted : List (OrderSpec × List ConfirmWarehouseTask) → Type 0
    AllUncounted [] = Unit
    AllUncounted ((o, confs) ∷ whos) = Uncounted o confs × AllUncounted whos

    unassign_one-Asks :
        (o : OrderSpec) (confs : List ConfirmWarehouseTask) (m : EwmOrderManager)
        → Uncounted o confs
        → Asks f m (unassign_one lower upper time isoparse ewm o confs m)
    unfolding unassign_one
    unassign_one-Asks o confs m u =
        let d = o.data' in
        let n : EwmOrderManager = send (unassign_robot_warehouseorder d.lgnum d.rsrc d.who) m in
        if-Asks f m (any is_first_success confs) _ _ (λ e. record { asked = refl; cached = refl })
          (λ e.
            after-Asks f m n _ (record { asked = u e m.ewm_requests; cached = refl })
              (unassigned-Asks o (ewm.confirm n.ewm_requests) n))

    pub unassign_all-Asks :
        (whos : List (OrderSpec × List ConfirmWarehouseTask)) (m : EwmOrderManager)
        → AllUncounted whos
        → Asks f m (unassign_all lower upper time isoparse ewm whos m)
    unfolding unassign_all
    unassign_all-Asks [] m u = record { asked = refl; cached = refl }
    unassign_all-Asks ((o, confs) ∷ whos) m u =
        then-Asks f m (unassign_one lower upper time isoparse ewm o confs m)
          (unassign_all lower upper time isoparse ewm whos) (unassign_one-Asks o confs m u.0)
          (λ n. unassign_all-Asks whos n u.1)
