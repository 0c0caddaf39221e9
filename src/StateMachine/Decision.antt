-- ===== src/StateMachine/Decision.antt =====
-- What an idle robot is told to do next: _decide_whats_next of statemachine.py.
use ewm_cloud_robotics.Prelude.{
  ℕ, ◌≡◌, Bool, true, false, ◌&&◌, List, [], any, is_some, leb, ltb, arith,
}
use ewm_cloud_robotics.Types.{Mode, run, charge, stop}
use ewm_cloud_robotics.StateMachine.Config.{Trigger}
use ewm_cloud_robotics.StateMachine.Machine.{Call, Event, Machine, first}
use ewm_cloud_robotics.StateMachine.Entry.{decide_whats_next}

abbrev pub is_start : Trigger → Bool
is_start Trigger.process_warehouseorder = true
is_start _ = false

abbrev pub is_charge_start : Trigger → Bool
is_charge_start Trigger.charge_battery = true
is_charge_start _ = false

abbrev pub is_error : Trigger → Bool
is_error Trigger.too_many_failed_whos = true
is_error _ = false

-- The mode lets the robot start on an order of its queue.
abbrev pub works : Mode → Bool
works run = true
works Mode.idle = true
works charge = false
works stop = false

abbrev pub not_charge : Mode → Bool
not_charge charge = false
not_charge _ = true

abbrev pub limit : Mode → ℕ → ℕ
limit charge battery_min = 90000
limit _ battery_min = battery_min

-- The charge below which the robot is sent to charge: 90 percent in mode CHARGE, else the minimum.
abbrev pub charge_limit : Machine → ℕ
charge_limit m = limit m.robot_config.conf.mode m.robot_config.conf.battery_min

-- The battery suffices, the mode is not CHARGE, and the orders failed too often.
abbrev pub gives_up : Machine → Bool
gives_up m =
    leb (charge_limit m) m.battery_percentage
    && not_charge m.robot_config.conf.mode
    && ltb 3 m.failed_warehouseorders

-- The battery suffices, at most three orders failed, and one waits that the mode lets start.
abbrev pub starts : Machine → Bool
starts m =
    leb (charge_limit m) m.battery_percentage
    && leb m.failed_warehouseorders 3
    && is_some (first m.warehouseorders)
    && works m.robot_config.conf.mode

-- What the queue holds is decided by the machine's battery, failures, mode and orders.
pub record DecidesBy (m : Machine) (q : List Call) : Type 0 where
  pub charges : any (λ c. is_charge_start c.trigger) q ≡ ltb m.battery_percentage (charge_limit m)
  pub fails : any (λ c. is_error c.trigger) q ≡ gives_up m
  pub works_on : any (λ c. is_start c.trigger) q ≡ starts m

-- From an empty queue: the robot is sent to charge exactly when its battery is below the limit of
-- its mode; it enters the error state exactly when the battery suffices, the mode is not CHARGE
-- and more than three orders failed; it starts on an order exactly when the battery suffices, at
-- most three failed, an order waits and the mode is RUN or IDLE.
pub decide_whats_next-queue :
    (e : Event) (m : Machine) → m.queue ≡ [] → DecidesBy m (decide_whats_next e m).queue
unfolding decide_whats_next
decide_whats_next-queue e m q = ground arith
