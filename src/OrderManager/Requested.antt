-- ===== src/OrderManager/Requested.antt =====
-- When the order manager asks EWM for new orders for a robot, as its configuration changes
-- (manager.py).
use ewm_cloud_robotics.Prelude.{
  ℕ, ◌+◌, ◌≡◌, refl, ap, ◌∙◌, ltb, String, Bool, true, false, not, ◌&&◌, Bool-cases, inl, inr,
  Option, none, some, List, [], ◌∷◌, if◌then◌else◌, Result, ok, err, arith,
}
use ewm_cloud_robotics.Types.{ConfirmWarehouseTask, Mode, run, idle, charge, stop}
use ewm_cloud_robotics.StateMachine.Config.{State, idle_states}
use ewm_cloud_robotics.OrderManager.Controller.{OrderSpec}
use ewm_cloud_robotics.OrderManager.Orders.{
  get_running_whos, check_for_running_whos, has_running, check_for_running_whos-none,
}
use ewm_cloud_robotics.OrderManager.Manager.{
  EwmError, EwmRequest, getnew_robot_warehouseorder, Ewm, EwmOrderManager, Outcome, done,
}
use ewm_cloud_robotics.OrderManager.Asks.{Asks, if-Asks, AllUncounted, unassign_all-Asks}
use ewm_cloud_robotics.OrderManager.Auctions.{Dict, get, Running, is_running}
use ewm_cloud_robotics.OrderManager.RobotConfig.{
  RobotConfig, RobotConfigurationStatus, conf_status_eq, status_or_default, must_unassign,
  RobotStatus, ConfigManager, is_run, state_among, unassign_found, unassign_robot, may_work,
  after_check, request_work, second_part, process_robotconfig_cr,
}

abbrev is_new : EwmRequest → ℕ
is_new (getnew_robot_warehouseorder lgnum rsrc) = 1
is_new _ = 0

-- How often EWM was asked for a new order.
abbrev pub news : List EwmRequest → ℕ
news [] = 0
news (r ∷ rs) = is_new r + news rs

abbrev in_run : Mode → Bool
in_run run = true
in_run idle = false
in_run charge = false
in_run stop = false

abbrev in_idle_state : Option State → Bool
in_idle_state none = false
in_idle_state (some State.idle) = true
in_idle_state (some State.at_staging) = true
in_idle_state (some _) = false

-- The mode is RUN, the state idle or at the staging area, the robot available, and its battery not
-- below the minimum.
abbrev pub is_ready : RobotConfig → RobotConfigurationStatus → RobotStatus → Bool
is_ready spec s r =
    in_run spec.mode
    && in_idle_state s.statemachine
    && r.is_available
    && not (ltb r.battery_percentage spec.battery_min)

abbrev has_none : Result Bool → Bool
has_none (ok b) = not b
has_none (err e) = false

abbrev pub no_auction : Running → Bool
no_auction (is_running b) = not b
no_auction Running.key_error = false

in_idle_state_same : (t : Option State) → state_among idle_states t ≡ in_idle_state t
in_idle_state_same none = refl
in_idle_state_same (some State.idle) = refl
in_idle_state_same (some State.at_staging) = refl
in_idle_state_same (some _) = refl

module _ (lower upper : String → String) (time : ℕ → ℕ) (isoparse : String → Option ℕ)
    (ewm : Ewm) where
  no_news :
      (whos : List (OrderSpec × List ConfirmWarehouseTask))
      → AllUncounted lower upper time isoparse ewm news (λ l h b rs. omega arith) whos
  no_news [] = tt
  no_news ((o, confs) ∷ whos) = (λ e rs. omega arith, no_news whos)

  unassign_found-Asks :
      (r : Result (List (OrderSpec × List ConfirmWarehouseTask))) (m : EwmOrderManager)
      → Asks news m (unassign_found lower upper time isoparse ewm r m)
  unfolding unassign_found
  unassign_found-Asks (ok whos) m =
      unassign_all-Asks lower upper time isoparse ewm news (λ l h b rs. omega arith) whos m
        (no_news whos)
  unassign_found-Asks (err e) m = record { asked = refl; cached = refl }

  unassign_robot-Asks :
      (robot : String) (m : EwmOrderManager)
      → Asks news m (unassign_robot lower upper time isoparse ewm robot m)
  unfolding unassign_robot
  unassign_robot-Asks robot m =
      unassign_found-Asks (get_running_whos robot m.ordercontroller.cr_cache) m

  after_check-asks :
      (fuel : ℕ) (spec : RobotConfig) (robot : String) (r : RobotStatus) (check : Result Bool)
      (auction : Running) (m : EwmOrderManager)
      → (has_none check && no_auction auction) ≡ false
      → (after_check lower upper time isoparse ewm fuel spec robot r check auction m).manager ≡ m
  unfolding after_check
  after_check-asks fuel spec robot r (ok false) (is_running false) m h = ground arith
  after_check-asks fuel spec robot r (ok false) (is_running true) m h = refl
  after_check-asks fuel spec robot r (ok false) Running.key_error m h = refl
  after_check-asks fuel spec robot r (ok true) auction m h = refl
  after_check-asks fuel spec robot r (err e) auction m h = refl

  request_work-asks :
      (fuel : ℕ) (spec : RobotConfig) (robot : String) (s : RobotConfigurationStatus)
      (r : RobotStatus) (auction : Running) (m : EwmOrderManager)
      → (may_work lower upper time isoparse ewm spec s r
          && has_none (check_for_running_whos robot m.ordercontroller.cr_cache)
          && no_auction auction)
        ≡ false
      → (request_work lower upper time isoparse ewm fuel spec robot s r auction m).manager ≡ m
  unfolding request_work
  request_work-asks fuel spec robot s r auction m h =
      elim (Bool-cases (may_work lower upper time isoparse ewm spec s r)) [
        | inl y ↦ rw y (
            after_check-asks fuel spec robot r
              (check_for_running_whos robot m.ordercontroller.cr_cache) auction m (ground arith))
        | inr n ↦ rw n refl
      ]

  second_part-news :
      (fuel : ℕ) (spec : RobotConfig) (robot : String) (s : RobotConfigurationStatus)
      (r : RobotStatus) (auction : Running) (b : Bool) (d : Dict RobotConfigurationStatus)
      (e : Option EwmError) (m : EwmOrderManager)
      → (may_work lower upper time isoparse ewm spec s r
          && has_none (check_for_running_whos robot m.ordercontroller.cr_cache)
          && no_auction auction)
        ≡ false
      → (second_part lower upper time isoparse ewm fuel spec robot s r auction b d e
          m).after.manager
        ≡ m
  unfolding second_part
  second_part-news fuel spec robot s r auction b d (some e) m h = refl
  second_part-news fuel spec robot s r auction b d none m h =
      request_work-asks fuel spec robot s r auction m h

  process_robotconfig_cr-asks :
      (fuel : ℕ) (spec : RobotConfig) (robot : String) (s : RobotConfigurationStatus)
      (r : RobotStatus) (auction : Running) (c : ConfigManager)
      → (may_work lower upper time isoparse ewm spec s r
          && has_none (check_for_running_whos robot c.manager.ordercontroller.cr_cache)
          && no_auction auction)
        ≡ false
      → news
          (process_robotconfig_cr lower upper time isoparse ewm fuel spec robot s r auction
            c).after.manager.ewm_requests
        ≡ news c.manager.ewm_requests
  unfolding process_robotconfig_cr
  process_robotconfig_cr-asks fuel spec robot s r auction c h =
      let n : EwmOrderManager = record (c.manager) { reads = c.manager.reads + 1 } in
      let b : Bool =
        not (conf_status_eq s (status_or_default (get robot c.robot_conf_status)))
        && must_unassign lower upper time isoparse ewm spec s (time c.manager.reads) in
      let o : Outcome =
        if b then unassign_robot lower upper time isoparse ewm robot n else done n in
      let a : Asks news n o =
        if-Asks news n b (unassign_robot lower upper time isoparse ewm robot n) (done n)
          (λ e. unassign_robot-Asks robot n) (λ e. record { asked = refl; cached = refl }) in
      ap (λ m. news m.ewm_requests)
        (second_part-news fuel spec robot s r auction b c.robot_conf_status o.raised o.manager (
          ap
            (λ crs.
              may_work lower upper time isoparse ewm spec s r
              && has_none (check_for_running_whos robot crs)
              && no_auction auction)
            a.cached
          ∙ h))
      ∙ a.asked

  may_work-is_ready :
      (spec : RobotConfig) (s : RobotConfigurationStatus) (r : RobotStatus)
      → may_work lower upper time isoparse ewm spec s r ≡ true
      → is_ready spec s r ≡ true
  may_work-is_ready spec s r h =
      let modes : is_run spec.mode ≡ in_run spec.mode = mode spec.mode in
      let states : state_among idle_states s.statemachine ≡ in_idle_state s.statemachine =
        in_idle_state_same s.statemachine in
      ground (arith, modes, states)
    where
      mode : (m : Mode) → is_run m ≡ in_run m
      mode run = refl
      mode idle = refl
      mode charge = refl
      mode stop = refl

  -- EWM is asked for a new order for a robot only if it is in the mode RUN, in the state idle or at
  -- the staging area, available, and its battery is not below the minimum, if no running order is
  -- labelled with it, and it gets its orders by no auction.
  pub process_robotconfig_cr-news :
      (fuel : ℕ) (spec : RobotConfig) (robot : String) (s : RobotConfigurationStatus)
      (r : RobotStatus) (auction : Running) (c : ConfigManager)
      → (is_ready spec s r
          && not (has_running robot c.manager.ordercontroller.cr_cache)
          && no_auction auction)
        ≡ false
      → news
          (process_robotconfig_cr lower upper time isoparse ewm fuel spec robot s r auction
            c).after.manager.ewm_requests
        ≡ news c.manager.ewm_requests
  process_robotconfig_cr-news fuel spec robot s r auction c h =
      process_robotconfig_cr-asks fuel spec robot s r auction c (
        refuses _ _ _ _ (no_auction auction) (may_work-is_ready spec s r)
          (no_running (check_for_running_whos robot c.manager.ordercontroller.cr_cache)
            (check_for_running_whos-none robot c.manager.ordercontroller.cr_cache))
          h)
    where
      no_running :
          (b : Result Bool)
          → (b ≡ ok false → has_running robot c.manager.ordercontroller.cr_cache ≡ false)
          → has_none b ≡ true
          → has_running robot c.manager.ordercontroller.cr_cache ≡ false
      no_running (ok false) k e = k refl
      no_running (ok true) k e = cc
      no_running (err x) k e = cc

      refuses :
          (x x' y z a : Bool)
          → (x ≡ true → x' ≡ true)
          → (y ≡ true → z ≡ false)
          → (x' && not z && a) ≡ false
          → (x && y && a) ≡ false
      refuses x x' y z a f g e = ground arith
