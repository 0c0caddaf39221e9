-- ===== src/OrderManager/Reservations/Assigning.antt =====
-- _process_orderres_cr_reservations and orderreservation_cb of manager.py: the reserved orders are
-- assigned to robots, or the reservations are cancelled.
use ewm_cloud_robotics.Prelude.{
  ℕ, ◌+◌, String, Bool, true, false, not, ◌&&◌, Option, none, some, List, [], ◌∷◌, ◌++◌,
  if◌then◌else◌, any, is_empty, ltb,
}
use ewm_cloud_robotics.Types.{WhoIdentifier}
use ewm_cloud_robotics.OrderManager.Manager.{
  EwmError, no_order_found, robot_not_found, order_assigned, task_assigned, key_error, diverges,
  assign_robot_warehouseorder, Ewm, EwmOrderManager, send,
}
use ewm_cloud_robotics.OrderManager.Work.{get_and_send_robot_whos}
use ewm_cloud_robotics.OrderManager.Reservations.Types.{
  ReservationState, new, accepted, reservations, succeeded, timeout, OrderAssignment, assignment_eq,
  OrderReservationSpec, OrderReservationStatus, assignment_ident, is_in, idents_of, remove_ident,
  ReservationManager, Handled, handled, fails,
}
use ewm_cloud_robotics.OrderManager.Reservations.Processing.{
  all_assigned_message, not_all_message, timeout_message, update_cr_status, ask, process_new,
  process_accepted, cancel,
}

-- While orders are assigned: `reserved` are those that are left, `assigned` the assignments that
-- the status holds.
pub record Assigning : Type 0 where
  pub reserved : List WhoIdentifier
  pub assigned : List OrderAssignment
  pub connection_error : Bool
  pub ewm_manager : EwmOrderManager

pub data AssignResult : Type 0 where
  assigns : Assigning → AssignResult
  aborts : EwmError → EwmOrderManager → AssignResult

infixl 5 ◌next◌
abbrev pub ◌next◌ : AssignResult → (Assigning → AssignResult) → AssignResult
assigns a next f = f a
aborts e m next f = aborts e m

-- After the orders of the robot were sent to it.
unfoldable pub after_send : Option EwmError → EwmOrderManager → Assigning → AssignResult
after_send none m a = assigns (record a { ewm_manager = m })
after_send (some key_error) m a = aborts key_error m
after_send (some diverges) m a = aborts diverges m
after_send (some e) m a = assigns (record a { ewm_manager = m; connection_error = true })

abbrev pub is_assigned : OrderAssignment → Assigning → Assigning
is_assigned o a = record a {
  reserved = remove_ident (assignment_ident o) a.reserved;
  assigned = a.assigned ++ (o ∷ []);
}

module _ (lower : String → String) (time : ℕ → ℕ) (ewm : Ewm) (fuel : ℕ) where
  unfoldable pub after_assign : Option EwmError → OrderAssignment → Assigning → AssignResult
  unfolding after_send get_and_send_robot_whos remove_ident
  after_assign none o a =
      let sent =
        get_and_send_robot_whos lower time ewm fuel o.lgnum o.rsrc false false a.ewm_manager in
      after_send sent.raised sent.manager (is_assigned o a)
  after_assign (some no_order_found) o a = assigns a
  after_assign (some robot_not_found) o a = assigns a
  after_assign (some order_assigned) o a = assigns a
  after_assign (some task_assigned) o a = assigns a
  after_assign (some e) o a = assigns (record a { connection_error = true })

  unfoldable pub assign_one : OrderAssignment → Assigning → AssignResult
  unfolding after_assign assignment_eq remove_ident
  assign_one o a =
      let n = send (assign_robot_warehouseorder o.lgnum o.rsrc o.who) a.ewm_manager in
      let w = assignment_ident o in
      if not (is_in w a.reserved)
      then assigns a
      else if any (assignment_eq o) a.assigned
      then assigns (record a { reserved = remove_ident w a.reserved })
      else after_assign (ewm.confirm n.ewm_requests) o (record a { ewm_manager = n })

  unfoldable pub assign_all : List OrderAssignment → Assigning → AssignResult
  unfolding assign_one
  assign_all [] a = assigns a
  assign_all (o ∷ os) a = assign_one o a next λ b. assign_all os b

  -- What is left is cancelled, unless there was an error.
  unfoldable pub cancel_left : Assigning → Bool × EwmOrderManager
  unfolding cancel
  cancel_left a =
      let cancelled = cancel ewm a.reserved a.ewm_manager in
      if not (is_empty a.reserved) && not a.connection_error
      then cancelled
      else (a.connection_error, a.ewm_manager)

  abbrev pub end_message : Assigning → String
  end_message a =
      if not (is_empty a.reserved) && not a.connection_error
      then not_all_message
      else all_assigned_message

  -- The status that is written at the end, `done` unless there was an error.
  abbrev pub ended :
      String
      → ReservationState
      → Bool
      → String
      → OrderReservationStatus
      → EwmOrderManager
      → ReservationManager
      → ReservationManager
  ended name done connection_error message s n m =
      update_cr_status name
        (record s { status = if connection_error then s.status else done; message = some message })
        (ask m n)

  unfoldable pub after_assignments :
      String → OrderReservationStatus → AssignResult → ReservationManager → Handled
  unfolding cancel_left update_cr_status
  after_assignments name s (aborts e n) m = fails e (ask m n)
  after_assignments name s (assigns a) m =
      let (error, n) = cancel_left a in
      handled (
        ended name succeeded error (end_message a) (record s { orderassignments = a.assigned }) n m)

  unfoldable pub cancel_all :
      String → OrderReservationStatus → ReservationManager → ReservationManager
  unfolding cancel update_cr_status
  cancel_all name s m =
      let (error, n) = cancel ewm (idents_of s.warehouseorders) m.manager in
      ended name timeout error timeout_message s n m

  module _ (isoparse : String → Option ℕ) where
    -- Two readings of the clock, the first only if the text is no time.
    unfoldable pub is_over : Option ℕ → ℕ → Bool
    is_over none reads = ltb (time reads) (time (reads + 1))
    is_over (some t) reads = ltb t (time reads)

    abbrev pub readings : Option ℕ → ℕ
    readings none = 1
    readings (some t) = 0

    abbrev pub start_assigning : OrderReservationStatus → EwmOrderManager → Assigning
    start_assigning s n = record {
      reserved = idents_of s.warehouseorders;
      assigned = s.orderassignments;
      connection_error = false;
      ewm_manager = n;
    }

    -- The first reading is made before it is known whether there are assignments.
    unfoldable pub process_reservations :
        String → OrderReservationSpec → OrderReservationStatus → ReservationManager → Handled
    unfolding after_assignments assign_all cancel_all is_over
    process_reservations name spec s m =
        let end = isoparse s.validuntil in
        let reads = m.manager.reads in
        let n = record (m.manager) { reads = reads + readings end } in
        let m' = ask m (record (m.manager) { reads = reads + readings end + 1 }) in
        if not (is_empty spec.orderassignments)
        then after_assignments name s (assign_all spec.orderassignments (start_assigning s n)) m
        else handled (if is_over end reads then cancel_all name s m' else m')

    module _ (later : ℕ → String) where
      unfoldable pub process_status :
          String
          → OrderReservationSpec
          → OrderReservationStatus
          → ReservationState
          → ReservationManager
          → Handled
      unfolding process_reservations process_new process_accepted
      process_status name spec s new m = handled (process_new ewm name spec.orderrequest s m)
      process_status name spec s accepted m = handled (process_accepted ewm later time name s m)
      process_status name spec s reservations m = process_reservations name spec s m
      process_status name spec s _ m = handled m

      abbrev pub new_status : ℕ → OrderReservationStatus
      new_status now = record {
        status = new;
        validuntil = later now;
        message = some "";
        warehouseorders = [];
        orderassignments = [];
      }

      unfoldable pub orderreservation_cb :
          String
          → OrderReservationSpec
          → Option OrderReservationStatus
          → ReservationManager
          → Handled
      unfolding process_status
      orderreservation_cb name spec none m =
          let n = m.manager in
          process_status name spec (new_status (time n.reads)) new
            (ask m (record n { reads = n.reads + 1 }))
      orderreservation_cb name spec (some s) m = process_status name spec s s.status m
