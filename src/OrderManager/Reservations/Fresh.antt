-- ===== src/OrderManager/Reservations/Fresh.antt =====
-- _process_orderres_cr_new of manager.py: a new reservation takes no order of another one.
use ewm_cloud_robotics.Prelude.{
  Option, none, some, Bool, List, String, [], any, ap, ap₂, arith, every, false, if◌then◌else◌,
  length, ltb, not, refl, some, sym, true, ℕ, ◌&&◌, ◌++◌, ◌-◌, ◌||◌, ◌∙◌, ◌∷◌, ◌≡◌, ◌≢◌, ◌≤◌,
}
use ewm_cloud_robotics.Types.{WarehouseOrder, WhoIdentifier, ident_eq}
use ewm_cloud_robotics.OrderManager.Manager.{
  no_order_found, resource_type_is_no_robot, EwmRequest, get_in_process_warehouseorders,
  getnew_rtype_warehouseorders, OrdersAnswer, returns_all, raises_all, Ewm, EwmOrderManager, send,
}
use ewm_cloud_robotics.OrderManager.Reservations.Types.{
  ReservationState, new, accepted, reservations, failed, succeeded, timeout, is_in_process,
  OrderRequest, OrderReservationStatus, OrderReservation, ReservationManager, ident_of, is_in,
  idents_of,
}
use ewm_cloud_robotics.OrderManager.Reservations.Open.{reserved_by, get_reserved_warehouseorders}
use ewm_cloud_robotics.OrderManager.Reservations.Processing.{
  message_is, none_found_message, update_cr_status, resource_failed, ask, not_reserved, attach,
  more_orders, fill, in_process, process_new,
}

-- No order of the list is reserved.
abbrev pub AllFree : List WhoIdentifier → List WarehouseOrder → Type 0
AllFree reserved os = every (λ o. not (is_in (ident_of o) reserved)) os ≡ true

-- If the latest status was written over `k` others and is accepted, its orders were not reserved.
abbrev FreeIn : List WhoIdentifier → ℕ → List (String × OrderReservationStatus) → Type 0
FreeIn reserved k [] = Unit
FreeIn reserved k ((name, u) ∷ vs) =
    k ≤ length vs → u.status ≡ accepted → AllFree reserved u.warehouseorders

FreeIn-same :
    (reserved : List WhoIdentifier) (us : List (String × OrderReservationStatus))
    → FreeIn reserved (length us) us
FreeIn-same reserved [] = tt
FreeIn-same reserved ((name, u) ∷ vs) = λ h. absurd (omega arith)

not_reserved-AllFree :
    (reserved : List WhoIdentifier) (os : List WarehouseOrder)
    → AllFree reserved (not_reserved reserved os)
unfolding not_reserved
not_reserved-AllFree reserved [] = refl
not_reserved-AllFree reserved (o ∷ os) = ground (arith, not_reserved-AllFree reserved os)

append-AllFree :
    (reserved : List WhoIdentifier) (os ps : List WarehouseOrder)
    → AllFree reserved os
    → AllFree reserved ps
    → AllFree reserved (os ++ ps)
append-AllFree reserved [] ps h k = k
append-AllFree reserved (o ∷ os) ps h k = ground (arith, append-AllFree reserved os ps)

abbrev pub AnswerFree : List WhoIdentifier → OrdersAnswer → Type 0
AnswerFree reserved (returns_all os) = AllFree reserved os
AnswerFree reserved (raises_all e) = Unit

if-FreeIn :
    (reserved : List WhoIdentifier) (k : ℕ) (b : Bool) (m n : ReservationManager)
    → FreeIn reserved k m.updates
    → FreeIn reserved k n.updates
    → FreeIn reserved k (if b then m else n).updates
if-FreeIn reserved k true m n v w = v
if-FreeIn reserved k false m n v w = w

module _ (reserved : List WhoIdentifier) where
  attach-FreeIn :
      (name : String) (os : List WarehouseOrder) (s : OrderReservationStatus) (k : ℕ)
      (m : ReservationManager)
      → s.status ≢ accepted
      → AllFree reserved os
      → FreeIn reserved k m.updates
      → FreeIn reserved k (attach name os s m).updates
  unfolding attach update_cr_status
  attach-FreeIn name [] s k m ne f w =
      let message = none_found_message name in
      if-FreeIn reserved k (message_is s.message message) m
        (update_cr_status name (record s { message = some message }) m) w (λ h e. absurd (ne e))
  attach-FreeIn name (o ∷ os) s k m ne f w = λ h e. f

  more_orders-FreeIn :
      (name : String) (os : List WarehouseOrder) (a : OrdersAnswer) (s : OrderReservationStatus)
      (m : ReservationManager)
      → s.status ≢ accepted
      → AllFree reserved os
      → AnswerFree reserved a
      → FreeIn reserved (length m.updates) (more_orders name os a s m).updates
  unfolding more_orders update_cr_status resource_failed
  more_orders-FreeIn name os (returns_all ps) s m ne f g =
      attach-FreeIn name (os ++ ps) s (length m.updates) m ne (append-AllFree reserved os ps f g)
        (FreeIn-same reserved m.updates)
  more_orders-FreeIn name os (raises_all no_order_found) s m ne f g =
      attach-FreeIn name os s (length m.updates) m ne f (FreeIn-same reserved m.updates)
  more_orders-FreeIn name os (raises_all resource_type_is_no_robot) s m ne f g =
      attach-FreeIn name os (resource_failed s) (length m.updates)
        (update_cr_status name (resource_failed s) m) (λ e. cc) f (λ h e. cc)
  more_orders-FreeIn name os (raises_all e) s m ne f g = FreeIn-same reserved m.updates

  module _ (ewm : Ewm)
      (free : (lgnum rsrcgrp rsrctype : String) (n : ℕ) (rs : List EwmRequest)
        → AnswerFree reserved
            (ewm.orders (getnew_rtype_warehouseorders lgnum rsrcgrp rsrctype n ∷ rs))) where
    fill-FreeIn :
        (name : String) (q : OrderRequest) (os : List WarehouseOrder) (s : OrderReservationStatus)
        (m : ReservationManager)
        → s.status ≢ accepted
        → AllFree reserved os
        → FreeIn reserved (length m.updates) (fill ewm name q os s m).updates
    unfolding fill
    fill-FreeIn name q os s m ne f =
        let left : ℕ = q.quantity - length os in
        let n : EwmOrderManager =
          send (getnew_rtype_warehouseorders q.lgnum q.rsrcgrp q.rsrctype left) m.manager in
        if-FreeIn reserved (length m.updates) (ltb (length os) q.quantity) _ _
          (more_orders-FreeIn name os (ewm.orders n.ewm_requests) s (ask m n) ne f
            (free q.lgnum q.rsrcgrp q.rsrctype left m.manager.ewm_requests))
          (attach-FreeIn name os s (length m.updates) m ne f (FreeIn-same reserved m.updates))

    in_process-FreeIn :
        (name : String) (q : OrderRequest) (a : OrdersAnswer) (s : OrderReservationStatus)
        (m : ReservationManager)
        → s.status ≢ accepted
        → get_reserved_warehouseorders m.cr_cache ≡ reserved
        → FreeIn reserved (length m.updates) (in_process ewm name q a s m).updates
    unfolding in_process update_cr_status resource_failed
    in_process-FreeIn name q (returns_all os) s m ne e =
        fill-FreeIn name q (not_reserved (get_reserved_warehouseorders m.cr_cache) os) s m ne
          (rw e (not_reserved-AllFree reserved os))
    in_process-FreeIn name q (raises_all no_order_found) s m ne e =
        fill-FreeIn name q [] s m ne refl
    in_process-FreeIn name q (raises_all resource_type_is_no_robot) s m ne e = λ h d. cc
    in_process-FreeIn name q (raises_all x) s m ne e = FreeIn-same reserved m.updates

  process_new-AllFree :
      (ewm : Ewm)
      → ((lgnum rsrcgrp rsrctype : String) (n : ℕ) (rs : List EwmRequest)
          → AnswerFree reserved
              (ewm.orders (getnew_rtype_warehouseorders lgnum rsrcgrp rsrctype n ∷ rs)))
      → (name : String) (q : OrderRequest) (s u : OrderReservationStatus) (m : ReservationManager)
        (us : List (String × OrderReservationStatus))
      → s.status ≡ new
      → get_reserved_warehouseorders m.cr_cache ≡ reserved
      → (process_new ewm name q s m).updates ≡ (name, u) ∷ us
      → length m.updates ≤ length us
      → u.status ≡ accepted
      → AllFree reserved u.warehouseorders
  unfolding process_new
  process_new-AllFree ewm free name q s u m us t e p l a =
      let n : EwmOrderManager =
        send (get_in_process_warehouseorders q.lgnum q.rsrcgrp q.rsrctype) m.manager in
      (rw p at
          (in_process-FreeIn ewm free name q (ewm.orders n.ewm_requests) s (ask m n) (λ d. cc) e))
        l a

-- The statuses of a reservation that holds its orders: it has neither failed nor ended.
abbrev holds_orders : ReservationState → Bool
holds_orders new = true
holds_orders accepted = true
holds_orders reservations = true
holds_orders failed = false
holds_orders succeeded = false
holds_orders timeout = false

abbrev is_holding : WhoIdentifier → Option OrderReservationStatus → Bool
is_holding w none = false
is_holding w (some s) =
    holds_orders s.status && any (λ o. ident_eq w (ident_of o)) s.warehouseorders

-- Some reservation that has neither failed nor ended holds the order.
abbrev pub is_held : WhoIdentifier → List OrderReservation → Bool
is_held w rs = any (λ r. is_holding w r.status) rs

abbrev pub AllUnheld : List OrderReservation → List WarehouseOrder → Type 0
AllUnheld rs os = every (λ o. not (is_held (ident_of o) rs)) os ≡ true

-- EWM hands out no order that is held.
abbrev pub AnswerUnheld : List OrderReservation → OrdersAnswer → Type 0
AnswerUnheld rs (returns_all os) = AllUnheld rs os
AnswerUnheld rs (raises_all e) = Unit

is_in-append :
    (w : WhoIdentifier) (xs ys : List WhoIdentifier)
    → is_in w (xs ++ ys) ≡ (is_in w xs || is_in w ys)
is_in-append w [] ys = refl
is_in-append w (x ∷ xs) ys = ground (arith, is_in-append w xs ys)

is_in-idents_of :
    (w : WhoIdentifier) (os : List WarehouseOrder)
    → is_in w (idents_of os) ≡ any (λ o. ident_eq w (ident_of o)) os
is_in-idents_of w [] = refl
is_in-idents_of w (o ∷ os) = ap (λ b. ident_eq w (ident_of o) || b) (is_in-idents_of w os)

is_in-in_process :
    (w : WhoIdentifier) (t : ReservationState) (os : List WarehouseOrder)
    → is_in w (if is_in_process t then idents_of os else [])
      ≡ (holds_orders t && any (λ o. ident_eq w (ident_of o)) os)
is_in-in_process w new os = is_in-idents_of w os
is_in-in_process w accepted os = is_in-idents_of w os
is_in-in_process w reservations os = is_in-idents_of w os
is_in-in_process w failed os = refl
is_in-in_process w succeeded os = refl
is_in-in_process w timeout os = refl

is_in-reserved_by :
    (w : WhoIdentifier) (s : Option OrderReservationStatus)
    → is_in w (reserved_by s) ≡ is_holding w s
is_in-reserved_by w none = refl
is_in-reserved_by w (some s) = is_in-in_process w s.status s.warehouseorders

is_in-get_reserved_warehouseorders :
    (w : WhoIdentifier) (rs : List OrderReservation)
    → is_in w (get_reserved_warehouseorders rs) ≡ is_held w rs
unfolding get_reserved_warehouseorders
is_in-get_reserved_warehouseorders w [] = refl
is_in-get_reserved_warehouseorders w (r ∷ rs) =
    is_in-append w (reserved_by r.status) (get_reserved_warehouseorders rs)
    ∙ ap₂ (λ x y. x || y) (is_in-reserved_by w r.status) (is_in-get_reserved_warehouseorders w rs)

AllFree-eq-AllUnheld :
    (rs : List OrderReservation) (os : List WarehouseOrder)
    → every (λ o. not (is_in (ident_of o) (get_reserved_warehouseorders rs))) os
      ≡ every (λ o. not (is_held (ident_of o) rs)) os
AllFree-eq-AllUnheld rs [] = refl
AllFree-eq-AllUnheld rs (o ∷ os) =
    ap₂ (λ x y. not x && y) (is_in-get_reserved_warehouseorders (ident_of o) rs)
      (AllFree-eq-AllUnheld rs os)

AnswerUnheld-AnswerFree :
    (rs : List OrderReservation) (a : OrdersAnswer)
    → AnswerUnheld rs a
    → AnswerFree (get_reserved_warehouseorders rs) a
AnswerUnheld-AnswerFree rs (returns_all os) h = AllFree-eq-AllUnheld rs os ∙ h
AnswerUnheld-AnswerFree rs (raises_all e) h = tt

-- If a new reservation is accepted, its orders are held by no reservation that is known and has
-- neither failed nor ended, provided that EWM hands out no order that is held when it is asked for
-- new ones. Of the orders that EWM reports as in process nothing is assumed.
pub process_new-AllUnheld :
    (ewm : Ewm) (name : String) (q : OrderRequest) (s u : OrderReservationStatus)
    (m : ReservationManager) (us : List (String × OrderReservationStatus))
    → ((lgnum rsrcgrp rsrctype : String) (n : ℕ) (rs : List EwmRequest)
        → AnswerUnheld m.cr_cache
            (ewm.orders (getnew_rtype_warehouseorders lgnum rsrcgrp rsrctype n ∷ rs)))
    → s.status ≡ new
    → (process_new ewm name q s m).updates ≡ (name, u) ∷ us
    → length m.updates ≤ length us
    → u.status ≡ accepted
    → AllUnheld m.cr_cache u.warehouseorders
process_new-AllUnheld ewm name q s u m us free t p l a =
    sym (AllFree-eq-AllUnheld m.cr_cache u.warehouseorders)
    ∙ process_new-AllFree (get_reserved_warehouseorders m.cr_cache) ewm
        (λ lgnum rsrcgrp rsrctype n rs.
          AnswerUnheld-AnswerFree m.cr_cache _ (free lgnum rsrcgrp rsrctype n rs))
        name q s u m us t refl p l a
