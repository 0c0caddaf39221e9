-- ===== src/OrderManager/Confirmed.antt =====
-- What the order manager asks of EWM for a confirmation, and when it closes an order: proofs about
-- confirm_warehousetask of manager.py.
use ewm_cloud_robotics.Prelude.{
  ℕ, ◌+◌, ◌≡◌, refl, ap, ◌∙◌, String, Bool, true, false, ◌&&◌, Option, none, some, List, [], ◌∷◌,
  if◌then◌else◌, any, is_empty, arith,
}
use ewm_cloud_robotics.Types.{
  WarehouseTask, WarehouseOrder, WhoIdentifier, ConfirmWarehouseTask, ConfirmationNumber,
  first_conf, second_conf, ConfirmationType, conf_success, conf_error,
}
use ewm_cloud_robotics.OrderManager.Memory.{whoident}
use ewm_cloud_robotics.OrderManager.Manager.{
  EwmError, EwmRequest, get_warehouseorder, first_step, second_step, OrderAnswer, returns, raises,
  Ewm, EwmOrderManager, is_task, pop_open, send, close_answer, cleanup, first_answer, second_done,
  confirmation_error, second_answer, error_done, error_answer, confirm_open, confirm_answer,
  confirm_warehousetask,
}

abbrev is_confirmation : EwmRequest → ℕ
is_confirmation (first_step lgnum tanum rsrc) = 1
is_confirmation (second_step lgnum tanum rsrc) = 1
is_confirmation (confirmation_error c) = 1
is_confirmation _ = 0

-- How many requests confirm a task or tell EWM of an error of the robot.
abbrev pub confirmations : List EwmRequest → ℕ
confirmations [] = 0
confirmations (r ∷ rs) = is_confirmation r + confirmations rs

-- The confirmation ends its order: it is the second one of the last open task, or an error before
-- a first one.
abbrev pub ends : ConfirmationType → ConfirmationNumber → List WarehouseTask → Bool
ends conf_success first_conf left = false
ends conf_success second_conf left = is_empty left
ends conf_error first_conf left = true
ends conf_error second_conf left = false

abbrev pub ends_order : ConfirmWarehouseTask → WarehouseOrder → Bool
ends_order c who =
    any (is_task c) who.warehousetasks
    && ends c.confirmationtype c.confirmationnumber (pop_open c who.warehousetasks)

module _ (lower : String → String) (time : ℕ → ℕ) (ewm : Ewm) where
  pub close_answer-sent :
      (w : WhoIdentifier) (a : OrderAnswer) (m : EwmOrderManager)
      → (close_answer lower time ewm w a m).manager.ewm_requests ≡ m.ewm_requests
  unfolding close_answer
  close_answer-sent w (returns who) m = refl
  close_answer-sent w (raises e) m = ground arith

  cleanup-confirmations :
      (w : WhoIdentifier) (m : EwmOrderManager)
      → confirmations (cleanup lower time ewm w m).manager.ewm_requests
        ≡ confirmations m.ewm_requests
  unfolding cleanup
  cleanup-confirmations w m =
      let r = get_warehouseorder w.lgnum w.who false in
      ap confirmations (close_answer-sent w (ewm.order (r ∷ m.ewm_requests)) (send r m))
      ∙ omega arith

  first_answer-confirmations :
      (a : Option EwmError) (m : EwmOrderManager)
      → confirmations (first_answer lower time ewm a m).manager.ewm_requests
        ≡ confirmations m.ewm_requests
  unfolding first_answer
  first_answer-confirmations a m = ground arith

  second_answer-confirmations :
      (a : Option EwmError) (c : ConfirmWarehouseTask) (left : List WarehouseTask)
      (m : EwmOrderManager)
      → confirmations (second_answer lower time ewm a c left m).manager.ewm_requests
        ≡ confirmations m.ewm_requests
  unfolding second_answer second_done
  second_answer-confirmations a c left m = ground (
    arith,
    cleanup-confirmations (whoident c) (record m { succeeded = lower c.rsrc ∷ m.succeeded }),
  )

  error_done-confirmations :
      (n : ConfirmationNumber) (c : ConfirmWarehouseTask) (m : EwmOrderManager)
      → confirmations (error_done lower time ewm n c m).manager.ewm_requests
        ≡ confirmations m.ewm_requests
  unfolding error_done
  error_done-confirmations first_conf c m = cleanup-confirmations (whoident c) m
  error_done-confirmations second_conf c m = refl

  error_answer-confirmations :
      (a : Option EwmError) (n : ConfirmationNumber) (c : ConfirmWarehouseTask)
      (m : EwmOrderManager)
      → confirmations (error_answer lower time ewm a n c m).manager.ewm_requests
        ≡ confirmations m.ewm_requests
  unfolding error_answer
  error_answer-confirmations none n c m =
      error_done-confirmations n c (record m { failed = lower c.rsrc ∷ m.failed })
  error_answer-confirmations (some e) n c m = refl

  confirm_open-confirmations :
      (t : ConfirmationType) (n : ConfirmationNumber) (c : ConfirmWarehouseTask)
      (left : List WarehouseTask) (m : EwmOrderManager)
      → confirmations (confirm_open lower time ewm t n c left m).manager.ewm_requests
        ≡ 1 + confirmations m.ewm_requests
  unfolding confirm_open
  confirm_open-confirmations conf_success first_conf c left m =
      first_answer-confirmations _ (send (first_step c.lgnum c.tanum c.rsrc) m)
  confirm_open-confirmations conf_success second_conf c left m =
      second_answer-confirmations _ c left (send (second_step c.lgnum c.tanum c.rsrc) m)
  confirm_open-confirmations conf_error n c left m =
      error_answer-confirmations _ n c (send (confirmation_error c) m)

  confirm_answer-confirmations :
      (c : ConfirmWarehouseTask) (who : WarehouseOrder) (m : EwmOrderManager)
      → confirmations (confirm_answer lower time ewm (returns who) c m).manager.ewm_requests
        ≡ (if any (is_task c) who.warehousetasks then 1 else 0) + confirmations m.ewm_requests
  unfolding confirm_answer
  confirm_answer-confirmations c who m = ground (
    arith,
    confirm_open-confirmations c.confirmationtype c.confirmationnumber c
        (pop_open c who.warehousetasks) m,
  )

  -- If EWM returns the order, exactly one confirmation request is sent when the task is still
  -- open, whatever EWM answers to it, and none otherwise.
  pub confirm_warehousetask-confirmations :
      (c : ConfirmWarehouseTask) (who : WarehouseOrder) (m : EwmOrderManager)
      → ewm.order (get_warehouseorder c.lgnum c.who true ∷ m.ewm_requests) ≡ returns who
      → confirmations (confirm_warehousetask lower time ewm c m).manager.ewm_requests
        ≡ (if any (is_task c) who.warehousetasks then 1 else 0) + confirmations m.ewm_requests
  unfolding confirm_warehousetask
  confirm_warehousetask-confirmations c who m h = rw h (
      confirm_answer-confirmations c who (send (get_warehouseorder c.lgnum c.who true) m)
      ∙ omega arith)

  confirm_open-kept :
      (t : ConfirmationType) (n : ConfirmationNumber) (c : ConfirmWarehouseTask)
      (left : List WarehouseTask) (m : EwmOrderManager)
      → ends t n left ≡ false
      → (confirm_open lower time ewm t n c left m).manager.ordercontroller ≡ m.ordercontroller
  unfolding confirm_open first_answer second_answer second_done error_answer error_done
  confirm_open-kept conf_success first_conf c left m h = ground arith
  confirm_open-kept conf_success second_conf c left m h = ground arith
  confirm_open-kept conf_error first_conf c left m h = ground arith
  confirm_open-kept conf_error second_conf c left m h = ground arith

  confirm_answer-kept :
      (c : ConfirmWarehouseTask) (who : WarehouseOrder) (m : EwmOrderManager)
      → ends_order c who ≡ false
      → (confirm_answer lower time ewm (returns who) c m).manager.ordercontroller
        ≡ m.ordercontroller
  unfolding confirm_answer
  confirm_answer-kept c who m h = ground (
    arith,
    confirm_open-kept c.confirmationtype c.confirmationnumber c (pop_open c who.warehousetasks) m,
  )

  -- If EWM returns the order, the resources of orders stay as they are unless the task is still
  -- open and its confirmation ends the order: the second confirmation of the last open task, or
  -- an error before a first one.
  pub confirm_warehousetask-kept :
      (c : ConfirmWarehouseTask) (who : WarehouseOrder) (m : EwmOrderManager)
      → ewm.order (get_warehouseorder c.lgnum c.who true ∷ m.ewm_requests) ≡ returns who
      → ends_order c who ≡ false
      → (confirm_warehousetask lower time ewm c m).manager.ordercontroller ≡ m.ordercontroller
  unfolding confirm_warehousetask
  confirm_warehousetask-kept c who m h e =
      rw h (confirm_answer-kept c who (send (get_warehouseorder c.lgnum c.who true) m) e)
