-- ===== src/OrderManager/Forgets.antt =====
-- What a confirmation that the order manager passes on takes out of its memory (manager.py): nothing,
-- or one order.
use ewm_cloud_robotics.Prelude.{
  ℕ, ◌≡◌, refl, String, Bool, true, false, Option, none, some, List, ◌∷◌, if◌then◌else◌, is_empty,
  any,
}
use ewm_cloud_robotics.Types.{
  WarehouseTask, WhoIdentifier, ConfirmWarehouseTask, ConfirmationNumber, first_conf, second_conf,
  ConfirmationType, conf_success, conf_error,
}
use ewm_cloud_robotics.OrderManager.Memory.{
  ProcessedMessageMemory, whoident, delete_who_from_memory,
}
use ewm_cloud_robotics.OrderManager.Manager.{
  EwmError, already_confirmed, not_found, get_warehouseorder, first_step, second_step,
  confirmation_error, OrderAnswer, returns, raises, Ewm, EwmOrderManager, Outcome, done, send,
  is_task, pop_open, close_answer, cleanup, first_answer, second_done, second_answer, error_done,
  error_answer, confirm_open, confirm_answer, confirm_warehousetask,
}
use ewm_cloud_robotics.OrderManager.Work.{send_update}
use ewm_cloud_robotics.OrderManager.Reads.{get_and_send_robot_whos-memory}

-- A step leaves the memory as it is, or deletes the order from it.
pub data Deletes (w : WhoIdentifier) (m : ProcessedMessageMemory) (n : ProcessedMessageMemory)
    : Type 0 where
  same : n ≡ m → Deletes w m n
  deletes : (t : ℕ) → n ≡ delete_who_from_memory w t m → Deletes w m n

if-Deletes :
    (b : Bool) (x y : Outcome) {w : WhoIdentifier} (m : ProcessedMessageMemory)
    → Deletes w m x.manager.msg_mem
    → Deletes w m y.manager.msg_mem
    → Deletes w m (if b then x else y).manager.msg_mem
if-Deletes true x y m p q = p
if-Deletes false x y m p q = q

module _ (lower : String → String) (time : ℕ → ℕ) (ewm : Ewm) where
  close_answer-Deletes :
      (w : WhoIdentifier) (a : OrderAnswer) (m : EwmOrderManager)
      → Deletes w m.msg_mem (close_answer lower time ewm w a m).manager.msg_mem
  unfolding close_answer
  close_answer-Deletes w (returns who) m = deletes (time m.reads) refl
  close_answer-Deletes w (raises not_found) m = deletes (time m.reads) refl
  close_answer-Deletes w (raises e) m = same refl

  cleanup-Deletes :
      (w : WhoIdentifier) (m : EwmOrderManager)
      → Deletes w m.msg_mem (cleanup lower time ewm w m).manager.msg_mem
  unfolding cleanup
  cleanup-Deletes w m =
      let m' : EwmOrderManager = send (get_warehouseorder w.lgnum w.who false) m in
      close_answer-Deletes w (ewm.order m'.ewm_requests) m'

  second_done-Deletes :
      (c : ConfirmWarehouseTask) (left : List WarehouseTask) (m : EwmOrderManager)
      → Deletes (whoident c) m.msg_mem (second_done lower time ewm c left m).manager.msg_mem
  unfolding second_done
  second_done-Deletes c left m =
      let m' : EwmOrderManager = record m { succeeded = lower c.rsrc ∷ m.succeeded } in
      if-Deletes (is_empty left) (cleanup lower time ewm (whoident c) m') (done m') m.msg_mem
        (cleanup-Deletes (whoident c) m') (same refl)

  second_answer-Deletes :
      (e : Option EwmError) (c : ConfirmWarehouseTask) (left : List WarehouseTask)
      (m : EwmOrderManager)
      → Deletes (whoident c) m.msg_mem (second_answer lower time ewm e c left m).manager.msg_mem
  unfolding second_answer
  second_answer-Deletes none c left m = second_done-Deletes c left m
  second_answer-Deletes (some already_confirmed) c left m = second_done-Deletes c left m
  second_answer-Deletes (some e) c left m = same refl

  first_answer-Deletes :
      (e : Option EwmError) {w : WhoIdentifier} (m : EwmOrderManager)
      → Deletes w m.msg_mem (first_answer lower time ewm e m).manager.msg_mem
  unfolding first_answer
  first_answer-Deletes none m = same refl
  first_answer-Deletes (some already_confirmed) m = same refl
  first_answer-Deletes (some e) m = same refl

  error_answer-Deletes :
      (e : Option EwmError) (n : ConfirmationNumber) (c : ConfirmWarehouseTask)
      (m : EwmOrderManager)
      → Deletes (whoident c) m.msg_mem (error_answer lower time ewm e n c m).manager.msg_mem
  unfolding error_answer error_done
  error_answer-Deletes none first_conf c m =
      cleanup-Deletes (whoident c) (record m { failed = lower c.rsrc ∷ m.failed })
  error_answer-Deletes none second_conf c m = same refl
  error_answer-Deletes (some e) n c m = same refl

  confirm_open-Deletes :
      (t : ConfirmationType) (n : ConfirmationNumber) (c : ConfirmWarehouseTask)
      (left : List WarehouseTask) (m : EwmOrderManager)
      → Deletes (whoident c) m.msg_mem (confirm_open lower time ewm t n c left m).manager.msg_mem
  unfolding confirm_open
  confirm_open-Deletes conf_success first_conf c left m =
      let m' : EwmOrderManager = send (first_step c.lgnum c.tanum c.rsrc) m in
      first_answer-Deletes (ewm.confirm m'.ewm_requests) m'
  confirm_open-Deletes conf_success second_conf c left m =
      let m' : EwmOrderManager = send (second_step c.lgnum c.tanum c.rsrc) m in
      second_answer-Deletes (ewm.confirm m'.ewm_requests) c left m'
  confirm_open-Deletes conf_error n c left m =
      let m' : EwmOrderManager = send (confirmation_error c) m in
      error_answer-Deletes (ewm.confirm m'.ewm_requests) n c m'

  confirm_answer-Deletes :
      (a : OrderAnswer) (c : ConfirmWarehouseTask) (m : EwmOrderManager)
      → Deletes (whoident c) m.msg_mem (confirm_answer lower time ewm a c m).manager.msg_mem
  unfolding confirm_answer
  confirm_answer-Deletes (raises e) c m = same refl
  confirm_answer-Deletes (returns who) c m =
      if-Deletes (any (is_task c) who.warehousetasks) _ _ m.msg_mem
        (confirm_open-Deletes c.confirmationtype c.confirmationnumber c
          (pop_open c who.warehousetasks) m)
        (same refl)

  pub confirm_warehousetask-Deletes :
      (c : ConfirmWarehouseTask) (m : EwmOrderManager)
      → Deletes (whoident c) m.msg_mem (confirm_warehousetask lower time ewm c m).manager.msg_mem
  unfolding confirm_warehousetask
  confirm_warehousetask-Deletes c m =
      let m' : EwmOrderManager = send (get_warehouseorder c.lgnum c.who true) m in
      confirm_answer-Deletes (ewm.order m'.ewm_requests) c m'

  pub send_update-memory :
      (fuel : ℕ) (n : ConfirmationNumber) (t : ConfirmationType) (c : ConfirmWarehouseTask)
      (m : EwmOrderManager)
      → (send_update lower time ewm fuel n t c m).manager.msg_mem ≡ m.msg_mem
  send_update-memory fuel first_conf conf_success c m =
      get_and_send_robot_whos-memory lower time ewm fuel c.lgnum c.rsrc false false m
  send_update-memory fuel first_conf conf_error c m = refl
  send_update-memory fuel second_conf t c m = refl
