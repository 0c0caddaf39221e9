-- ===== src/OrderManager/Reservations/Steps.antt =====
-- The life of an order reservation: which statuses the order manager writes (manager.py).
use ewm_cloud_robotics.Prelude.{
  ℕ, ◌≡◌, refl, ap, ◌∙◌, String, Bool, true, false, not, Option, none, some, List, [], ◌∷◌, ◌++◌,
  if◌then◌else◌, is_empty, length, ltb,
}
use ewm_cloud_robotics.Types.{WarehouseOrder}
use ewm_cloud_robotics.OrderManager.Manager.{
  no_order_found, resource_type_is_no_robot, get_in_process_warehouseorders,
  getnew_rtype_warehouseorders, OrdersAnswer, returns_all, raises_all, Ewm, EwmOrderManager, send,
}
use ewm_cloud_robotics.OrderManager.Reservations.Types.{
  ReservationState, new, accepted, reservations, failed, succeeded, timeout, OrderRequest,
  OrderReservationSpec, OrderReservationStatus, ReservationManager, Handled, manager_after,
}
use ewm_cloud_robotics.OrderManager.Reservations.Open.{get_reserved_warehouseorders}
use ewm_cloud_robotics.OrderManager.Reservations.Processing.{
  update_cr_status, resource_failed, ask, not_reserved, attach, more_orders, fill, in_process,
  process_new, process_accepted,
}
use ewm_cloud_robotics.OrderManager.Reservations.Assigning.{
  AssignResult, assigns, aborts, after_assignments, cancel_all, process_reservations,
  process_status, orderreservation_cb,
}

-- The statuses that may be written over a status.
abbrev pub can_follow : ReservationState → ReservationState → Bool
can_follow new new = true
can_follow new accepted = true
can_follow new failed = true
can_follow accepted accepted = true
can_follow accepted reservations = true
can_follow reservations reservations = true
can_follow reservations succeeded = true
can_follow reservations timeout = true
can_follow _ _ = false

abbrev pub Updates : Type 0
Updates = List (String × OrderReservationStatus)

-- To some updates are added updates of one reservation to statuses that may follow `s`.
pub data Writes (name : String) (s : ReservationState) (us : Updates) : Updates → Type 0 where
  stay : Writes name s us us
  write :
      {vs : Updates} (u : OrderReservationStatus)
      → Writes name s us vs
      → can_follow s u.status ≡ true
      → Writes name s us ((name, u) ∷ vs)

if-Writes :
    (b : Bool) {name : String} {s : ReservationState} {us : Updates} (m n : ReservationManager)
    → Writes name s us m.updates
    → Writes name s us n.updates
    → Writes name s us (if b then m else n).updates
if-Writes true m n v w = v
if-Writes false m n v w = w

if_handled-Writes :
    (b : Bool) {name : String} {s : ReservationState} {us : Updates} (x y : Handled)
    → Writes name s us (manager_after x).updates
    → Writes name s us (manager_after y).updates
    → Writes name s us (manager_after (if b then x else y)).updates
if_handled-Writes true x y v w = v
if_handled-Writes false x y v w = w

attach-Writes :
    (name : String) (os : List WarehouseOrder) (s : OrderReservationStatus) (us : Updates)
    (m : ReservationManager)
    → can_follow new s.status ≡ true
    → Writes name new us m.updates
    → Writes name new us (attach name os s m).updates
unfolding attach update_cr_status
attach-Writes name [] s us m f w = if-Writes _ m _ w (write _ w f)
attach-Writes name (o ∷ os) s us m f w = write _ w refl

more_orders-Writes :
    (name : String) (os : List WarehouseOrder) (a : OrdersAnswer) (s : OrderReservationStatus)
    (m : ReservationManager)
    → can_follow new s.status ≡ true
    → Writes name new m.updates (more_orders name os a s m).updates
unfolding more_orders update_cr_status resource_failed
more_orders-Writes name os (returns_all ps) s m f =
    attach-Writes name (os ++ ps) s m.updates m f stay
more_orders-Writes name os (raises_all no_order_found) s m f =
    attach-Writes name os s m.updates m f stay
more_orders-Writes name os (raises_all resource_type_is_no_robot) s m f =
    attach-Writes name os (resource_failed s) m.updates
      (update_cr_status name (resource_failed s) m) refl (write _ stay refl)
more_orders-Writes name os (raises_all e) s m f = stay

module _ (ewm : Ewm) where
  fill-Writes :
      (name : String) (q : OrderRequest) (os : List WarehouseOrder) (s : OrderReservationStatus)
      (m : ReservationManager)
      → can_follow new s.status ≡ true
      → Writes name new m.updates (fill ewm name q os s m).updates
  unfolding fill
  fill-Writes name q os s m f =
      let n : EwmOrderManager =
        send (getnew_rtype_warehouseorders q.lgnum q.rsrcgrp q.rsrctype _) m.manager in
      if-Writes (ltb (length os) q.quantity) _ _
        (more_orders-Writes name os (ewm.orders n.ewm_requests) s (ask m n) f)
        (attach-Writes name os s m.updates m f stay)

  in_process-Writes :
      (name : String) (q : OrderRequest) (a : OrdersAnswer) (s : OrderReservationStatus)
      (m : ReservationManager)
      → can_follow new s.status ≡ true
      → Writes name new m.updates (in_process ewm name q a s m).updates
  unfolding in_process update_cr_status resource_failed
  in_process-Writes name q (returns_all os) s m f =
      fill-Writes name q (not_reserved (get_reserved_warehouseorders m.cr_cache) os) s m f
  in_process-Writes name q (raises_all no_order_found) s m f = fill-Writes name q [] s m f
  in_process-Writes name q (raises_all resource_type_is_no_robot) s m f = write _ stay refl
  in_process-Writes name q (raises_all e) s m f = stay

  process_new-Writes :
      (name : String) (q : OrderRequest) (s : OrderReservationStatus) (m : ReservationManager)
      → can_follow new s.status ≡ true
      → Writes name new m.updates (process_new ewm name q s m).updates
  unfolding process_new
  process_new-Writes name q s m f =
      let n : EwmOrderManager =
        send (get_in_process_warehouseorders q.lgnum q.rsrcgrp q.rsrctype) m.manager in
      in_process-Writes name q (ewm.orders n.ewm_requests) s (ask m n) f

  -- A status is kept, or replaced by one that may follow.
  follows_if :
      (old s d : ReservationState) (b : Bool)
      → s ≡ old
      → can_follow old old ≡ true
      → can_follow old d ≡ true
      → can_follow old (if b then s else d) ≡ true
  follows_if old s d true e k f = ap (can_follow old) e ∙ k
  follows_if old s d false e k f = f

  process_accepted-Writes :
      (later : ℕ → String) (time : ℕ → ℕ) (name : String) (s : OrderReservationStatus)
      (m : ReservationManager)
      → s.status ≡ accepted
      → Writes name accepted m.updates (process_accepted ewm later time name s m).updates
  unfolding process_accepted update_cr_status
  process_accepted-Writes later time name s m e =
      write _ stay (follows_if accepted s.status reservations _ e refl refl)

  module _ (lower : String → String) (time : ℕ → ℕ) (fuel : ℕ) where
    after_assignments-Writes :
        (name : String) (s : OrderReservationStatus) (a : AssignResult) (m : ReservationManager)
        → s.status ≡ reservations
        → Writes name reservations m.updates
            (manager_after (after_assignments lower time ewm fuel name s a m)).updates
    unfolding after_assignments update_cr_status
    after_assignments-Writes name s (aborts x n) m e = stay
    after_assignments-Writes name s (assigns a) m e =
        write _ stay (follows_if reservations s.status succeeded _ e refl refl)

    cancel_all-Writes :
        (name : String) (s : OrderReservationStatus) (m : ReservationManager)
        → s.status ≡ reservations
        → Writes name reservations m.updates (cancel_all lower time ewm fuel name s m).updates
    unfolding cancel_all update_cr_status
    cancel_all-Writes name s m e =
        write _ stay (follows_if reservations s.status timeout _ e refl refl)

    module _ (isoparse : String → Option ℕ) where
      process_reservations-Writes :
          (name : String) (spec : OrderReservationSpec) (s : OrderReservationStatus)
          (m : ReservationManager)
          → s.status ≡ reservations
          → Writes name reservations m.updates
              (manager_after
                (process_reservations lower time ewm fuel isoparse name spec s m)).updates
      unfolding process_reservations
      process_reservations-Writes name spec s m e =
          if_handled-Writes (not (is_empty spec.orderassignments)) _ _
            (after_assignments-Writes name s _ m e)
            (if-Writes _ _ (ask m _) (cancel_all-Writes name s (ask m _) e) stay)

      module _ (later : ℕ → String) where
        process_status-Writes :
            (name : String) (spec : OrderReservationSpec) (s : OrderReservationStatus)
            (t : ReservationState) (m : ReservationManager)
            → s.status ≡ t
            → Writes name t m.updates
                (manager_after
                  (process_status lower time ewm fuel isoparse later name spec s t m)).updates
        unfolding process_status
        process_status-Writes name spec s new m e =
            process_new-Writes name spec.orderrequest s m (ap (can_follow new) e)
        process_status-Writes name spec s accepted m e =
            process_accepted-Writes later time name s m e
        process_status-Writes name spec s reservations m e =
            process_reservations-Writes name spec s m e
        process_status-Writes name spec s t m e = stay

        abbrev pub state_of : Option OrderReservationStatus → ReservationState
        state_of none = new
        state_of (some s) = s.status

        -- Whatever EWM answers, a reservation that is new is written as new, accepted or failed, an
        -- accepted one as accepted or reserved, a reserved one as reserved, succeeded or timed out;
        -- one that has ended is not written, and no other reservation is.
        pub orderreservation_cb-Writes :
            (name : String) (spec : OrderReservationSpec) (s : Option OrderReservationStatus)
            (m : ReservationManager)
            → Writes name
                (state_of s)
                m.updates
                (manager_after
                  (orderreservation_cb lower time ewm fuel isoparse later name spec s m)).updates
        unfolding orderreservation_cb
        orderreservation_cb-Writes name spec none m = process_status-Writes name spec _ new _ refl
        orderreservation_cb-Writes name spec (some s) m =
            process_status-Writes name spec s s.status m refl
