-- ===== src/OrderManager/Reservations/Settled.antt =====
-- Reserved orders are not forgotten (manager.py): what holds of each order of a reservation when
-- the order manager ends it.
use ewm_cloud_robotics.Prelude.{
  ℕ, ◌+◌, ◌≡◌, ◌≢◌, sym, ap, ap₂, ◌∙◌, String, Bool, true, false, not, ◌||◌, Bool-cases, inl, inr,
  Option, some, List, [], ◌∷◌, if◌then◌else◌, is_empty, length, any, arith,
}
use ewm_cloud_robotics.Types.{WhoIdentifier}
use ewm_cloud_robotics.OrderManager.Manager.{Ewm, EwmOrderManager}
use ewm_cloud_robotics.OrderManager.Reservations.Accounted.{
  assigned_to, is_cancel, Accounted, Holds, assign_all-Accounted, cancel-requests,
}
use ewm_cloud_robotics.OrderManager.Reservations.Types.{
  ReservationState, reservations, succeeded, timeout, OrderAssignment, OrderReservationSpec,
  OrderReservationStatus, is_in, idents_of, ReservationManager, Handled, handled, manager_after,
}
use ewm_cloud_robotics.OrderManager.Reservations.Processing.{update_cr_status, ask}
use ewm_cloud_robotics.OrderManager.Reservations.Assigning.{
  Assigning, AssignResult, assigns, aborts, cancel_left, end_message, ended, after_assignments,
  cancel_all, start_assigning, readings, process_reservations,
}

-- The order is assigned to a robot, or it was requested that EWM cancels its reservation.
abbrev pub is_settled : WhoIdentifier → OrderReservationStatus → EwmOrderManager → Bool
is_settled w s m = any (assigned_to w) s.orderassignments || any (is_cancel w) m.ewm_requests

no_update {ℓ} : {A : Type ℓ} (x : A) (us : List A) → us ≡ x ∷ us → ⊥
no_update x us e = omega (arith, ap length e)

if_cases {ℓ} :
    {A C : Type ℓ} (b : Bool) (x y : A) {z : A}
    → (if b then x else y) ≡ z
    → (x ≡ z → C)
    → (y ≡ z → C)
    → C
if_cases true x y p f g = f p
if_cases false x y p f g = g p

handled_cases :
    {C : Type 0} (b : Bool) (x y : ReservationManager) {z : Handled}
    → handled (if b then x else y) ≡ z
    → (handled x ≡ z → C)
    → (handled y ≡ z → C)
    → C
handled_cases true x y p f g = f p
handled_cases false x y p f g = g p

module _ (lower : String → String) (time : ℕ → ℕ) (ewm : Ewm) (fuel : ℕ) (w : WhoIdentifier) where
  -- The order is settled by what was assigned and requested.
  abbrev Settled : List OrderAssignment → EwmOrderManager → Type 0
  Settled os m = (any (assigned_to w) os || any (is_cancel w) m.ewm_requests) ≡ true

  cancel_left-Settled :
      (a : Assigning)
      → Accounted w a
      → (cancel_left lower time ewm fuel a).0 ≡ false
      → Settled a.assigned (cancel_left lower time ewm fuel a).1
  unfolding cancel_left
  cancel_left-Settled a h e =
      ground (arith, cancel-requests lower time ewm fuel w a.reserved a.ewm_manager)

  abbrev latest :
      OrderReservationStatus → List (String × OrderReservationStatus) → OrderReservationStatus
  latest s [] = s
  latest s ((name, u) ∷ us) = u

  ended-Settled :
      (name : String) (done : ReservationState) (error : Bool) (message : String)
      (s u : OrderReservationStatus) (n : EwmOrderManager) (m m' : ReservationManager)
      → s.status ≡ reservations
      → (error ≡ false → Settled s.orderassignments n)
      → handled (ended lower time ewm fuel name done error message s n m) ≡ handled m'
      → m'.updates ≡ (name, u) ∷ m.updates
      → u.status ≢ reservations
      → is_settled w u m'.manager ≡ true
  unfolding update_cr_status
  ended-Settled name done error message s u n m m' r k p q ne =
      let e : latest s (
            (name, record s { status = if error then s.status else done; message = some message })
            ∷ m.updates)
          ≡ u =
        ap (λ h. latest s (manager_after h).updates) p ∙ ap (latest s) q in
      let f : n ≡ m'.manager = ap (λ h. (manager_after h).manager) p in
      elim (Bool-cases error) [
        | inl b ↦ absurd (ne (sym (ap (λ v. v.status) e) ∙ rw b r))
        | inr b ↦ ap₂ (λ v x. is_settled w v x) (sym e) (sym f) ∙ k b
      ]

  after_assignments-Settled :
      (name : String) (s u : OrderReservationStatus) (r : AssignResult) (m m' : ReservationManager)
      → s.status ≡ reservations
      → Holds (Accounted w) r
      → after_assignments lower time ewm fuel name s r m ≡ handled m'
      → m'.updates ≡ (name, u) ∷ m.updates
      → u.status ≢ reservations
      → is_settled w u m'.manager ≡ true
  unfolding after_assignments
  after_assignments-Settled name s u (aborts e n) m m' r h p q ne = cc
  after_assignments-Settled name s u (assigns a) m m' r h p q ne =
      ended-Settled name succeeded (cancel_left lower time ewm fuel a).0
        (end_message lower time ewm fuel a) (record s { orderassignments = a.assigned }) u
        (cancel_left lower time ewm fuel a).1 m m' r (cancel_left-Settled a h) p q ne

  cancel_all-Settled :
      (name : String) (s u : OrderReservationStatus) (m m' : ReservationManager)
      → s.status ≡ reservations
      → is_in w (idents_of s.warehouseorders) ≡ true
      → handled (cancel_all lower time ewm fuel name s m) ≡ handled m'
      → m'.updates ≡ (name, u) ∷ m.updates
      → u.status ≢ reservations
      → is_settled w u m'.manager ≡ true
  unfolding cancel_all
  cancel_all-Settled name s u m m' r h p q ne =
      ended-Settled name timeout _ _ s u _ m m' r
        (λ b.
          ground (
            arith,
            cancel-requests lower time ewm fuel w (idents_of s.warehouseorders) m.manager h,
          ))
        p q ne

  reserved_at_start :
      (isoparse : String → Option ℕ) (s : OrderReservationStatus) (n : EwmOrderManager)
      → is_in w (idents_of s.warehouseorders) ≡ true
      → Accounted w (start_assigning lower time ewm fuel isoparse s n)
  reserved_at_start isoparse s n h = ground arith

  -- If a reservation with the status RESERVATIONS is processed and another status is written for
  -- it, each of its orders is assigned to a robot in that status, or EWM was requested to cancel its
  -- reservation.
  pub process_reservations-settled :
      (isoparse : String → Option ℕ) (name : String) (spec : OrderReservationSpec)
      (s u : OrderReservationStatus) (m m' : ReservationManager)
      → s.status ≡ reservations
      → is_in w (idents_of s.warehouseorders) ≡ true
      → process_reservations lower time ewm fuel isoparse name spec s m ≡ handled m'
      → m'.updates ≡ (name, u) ∷ m.updates
      → u.status ≢ reservations
      → is_settled w u m'.manager ≡ true
  unfolding process_reservations
  process_reservations-settled isoparse name spec s u m m' r h p q ne =
      let n : EwmOrderManager = record (m.manager) {
        reads = m.manager.reads + readings lower time ewm fuel isoparse (isoparse s.validuntil);
      } in
      let n' : EwmOrderManager = record n { reads = n.reads + 1 } in
      if_cases (not (is_empty spec.orderassignments)) _ _ p
        (λ p'.
          after_assignments-Settled name s u _ m m' r
            (assign_all-Accounted lower time ewm fuel w spec.orderassignments
              (start_assigning lower time ewm fuel isoparse s n) (reserved_at_start isoparse s n h))
            p' q ne)
        (λ p'.
          handled_cases _ _ (ask m n') p'
            (λ e. cancel_all-Settled name s u (ask m n') m' r h e q ne)
            (λ e.
              absurd (no_update (name, u) m.updates (ap (λ v. (manager_after v).updates) e ∙ q))))
