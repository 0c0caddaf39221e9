-- ===== src/StateMachine/Scenarios.antt =====
-- Runs of the state machine, and the theorems at concrete inputs.
use mathlib.Core.List.{Perm}
use ewm_cloud_robotics.Prelude.{
  ℕ, zero, suc, ◌≡◌, refl, true, false, Option, none, some, [], ◌∷◌, Result, ok, err, machine_error,
  attribute_error, ◌>>=◌, arith,
}
use ewm_cloud_robotics.Types.{
  WarehouseTask, WarehouseOrder, WarehouseOrderCrdSpec, running, who_eq, run,
}
use ewm_cloud_robotics.StateMachine.Config.{State, Trigger}
use ewm_cloud_robotics.StateMachine.Machine.{
  Clock, call, Event, RobotConfigurationStatus, RobotConfig, Machine, new_machine, post,
  sort_warehouseorders, put, identify, WhoDict,
}
use ewm_cloud_robotics.StateMachine.Entry.{on_enter_idle, decide_whats_next}
use ewm_cloud_robotics.StateMachine.Process.{process_next, left_by}
use ewm_cloud_robotics.StateMachine.Guards.{is_eligible}
use ewm_cloud_robotics.StateMachine.Process.{run_row}
use ewm_cloud_robotics.StateMachine.Callbacks.{
  update_who, update_spec, update_robot_who, enqueue, update_active, target_found, start_on_order,
  next_timeout,
}
use ewm_cloud_robotics.StateMachine.Handlers.{
  receive, mission_changes, MissionState, recovery_is_asked, order_changes,
}
use ewm_cloud_robotics.StateMachine.Reference.{first_eligible}
use ewm_cloud_robotics.StateMachine.Safety.{IsSafe}
use ewm_cloud_robotics.StateMachine.Safety.Reach.{
  receive-IsSafe, process_next-Processed, Processed, Reach, fresh, processes, raises, receives,
  Reach-IsSafe,
}
use ewm_cloud_robotics.StateMachine.Restore.{init_robot_state_machine}
use ewm_cloud_robotics.StateMachine.Resumed.{Holds, IsResumed, init_robot_state_machine-IsResumed}
use ewm_cloud_robotics.StateMachine.Sorting.{IsSorted, sort_warehouseorders-IsSorted}
use ewm_cloud_robotics.StateMachine.Decision.{DecidesBy, decide_whats_next-queue}

abbrev clock : Clock
clock = record { time = λ n. n; show = λ n. "mission"; isoformat = λ n. "today" }

abbrev config : RobotConfig
config = record {
  robot_name = "robot_1";
  rsrc = "ROBOT_1";
  max_retry_count = 1;
  conf = record {
    lgnum = "1710";
    rsrctype = "RB01";
    rsrcgrp = "RB02";
    battery_min = 20000;
    battery_ok = 80000;
    battery_idle = 40000;
    max_idle_time = 0;
    recover_from_robot_error = false;
    mode = run;
    chargers = [];
  };
}

abbrev task : WarehouseTask
task = record {
  lgnum = "1710";
  tanum = "100";
  procty = "";
  flghuto = true;
  tostat = "";
  priority = 0;
  weight = 0;
  unitw = "";
  volum = 0;
  unitv = "";
  vltyp = "";
  vlber = "";
  vlpla = "SOURCE";
  vlenr = "T1";
  nltyp = "";
  nlber = "";
  nlpla = "TARGET";
  nlenr = "T1";
  who = "200";
}

abbrev order_200 : WarehouseOrder
order_200 = record {
  lgnum = "1710";
  who = "200";
  status = "D";
  areawho = "";
  lgtyp = "";
  lgpla = "";
  queue = "";
  rsrc = "ROBOT_1";
  lsd = 0;
  topwhoid = "";
  refwhoid = "";
  flgwho = false;
  flgto = true;
  warehousetasks = task ∷ [];
}

abbrev spec_200 : WarehouseOrderCrdSpec
spec_200 = record { data' = order_200; order_status = running; process_status = []; sequence = 7 }

abbrev started : Machine
unfolding new_machine
started = post (call Trigger.start_fresh_machine) (new_machine clock config 90000 State.idle)

-- Triggers are processed until none waits, at most so many.
drain : ℕ → Machine → Result Machine
drain zero m = ok m
drain (suc n) m = process_next clock first_eligible m >>= λ m'. drain n m'

abbrev state_of : Result Machine → Option State
state_of (ok m) = some m.state
state_of (err e) = none

-- An order for an idle robot is started: a mission to the source bin runs.
order_is_started :
    state_of (drain 9 started >>= λ m. drain 9 (receive (order_changes true false true spec_200) m))
    ≡ some State.move_trolley_moving_to_source_bin
unfolding drain process_next is_eligible run_row new_machine receive on_enter_idle update_who
    update_spec update_robot_who enqueue update_active target_found start_on_order who_eq put
    sort_warehouseorders next_timeout
order_is_started = refl

-- An order that another resource has is no order of the robot: the update raises.
abbrev spec_foreign : WarehouseOrderCrdSpec
spec_foreign = record spec_200 { data' = record order_200 { rsrc = "" } }

foreign_order_raises :
    (drain 9 started >>= λ m. drain 9 (receive (order_changes true false true spec_foreign) m))
    ≡ err attribute_error
unfolding drain process_next is_eligible run_row new_machine receive on_enter_idle update_who
    update_spec
foreign_order_raises = refl

-- A robot that waits in the error state has sent itself to the staging area.
abbrev waiting : Machine
unfolding new_machine
waiting = record (new_machine clock config 90000 State.robot_error) {
  active_mission = "to_staging";
}

-- It recovers while that mission runs; the news of the mission raises a MachineError.
recovered_then_arrives :
    (drain 9 (receive (recovery_is_asked true true) waiting) >>= λ m.
    drain 9 (receive (mission_changes true MissionState.succeeded false) m))
    ≡ err machine_error
unfolding drain process_next is_eligible run_row new_machine receive on_enter_idle
recovered_then_arrives = refl

started-IsSafe : IsSafe started
unfolding new_machine
started-IsSafe = Reach-IsSafe clock first_eligible config 90000 fresh

process_next-Processed_example : Processed started.queue (process_next clock first_eligible started)
process_next-Processed_example = process_next-Processed clock first_eligible started started-IsSafe

-- One trigger is processed, or an exception leaves the machine.
abbrev after : Result Machine → Machine → Machine
after (ok n) m = n
after (err e) m = left_by clock first_eligible e m

steps : ℕ → Machine → Machine
unfolding process_next
steps zero m = m
steps (suc n) m = steps n (after (process_next clock first_eligible m) m)

abbrev Reaches : Machine → Type 0
Reaches = Reach clock first_eligible config 90000

after_reach :
    (r : Result Machine) (m : Machine)
    → process_next clock first_eligible m ≡ r
    → Reaches m
    → Reaches (after r m)
after_reach (ok n) m e h = processes h e
after_reach (err x) m e h = raises x h e

steps_reach : (n : ℕ) (m : Machine) → Reaches m → Reaches (steps n m)
unfolding steps
steps_reach zero m h = h
steps_reach (suc n) m h =
    steps_reach n _ (after_reach (process_next clock first_eligible m) m refl h)

at_rest : (steps 9 started).queue ≡ []
unfolding steps process_next is_eligible run_row new_machine on_enter_idle
at_rest = refl

-- A robot starts, and the resource of an order that is not its own raises an exception.
surprising :
    Reaches (steps 9 (receive (order_changes true false true spec_foreign) (steps 9 started)))
unfolding started
surprising =
    steps_reach 9 _
      (receives (order_changes true false true spec_foreign) (steps_reach 9 started fresh) at_rest)

Reach-IsSafe_example :
    IsSafe (steps 9 (receive (order_changes true false true spec_foreign) (steps 9 started)))
Reach-IsSafe_example = Reach-IsSafe clock first_eligible config 90000 surprising

abbrev resting : Machine
unfolding new_machine
resting = record started { queue = [] }

resting-IsSafe : IsSafe resting
unfolding new_machine
resting-IsSafe = ground arith

receive-IsSafe_example : IsSafe (receive (order_changes true false true spec_200) resting)
unfolding new_machine
receive-IsSafe_example =
    receive-IsSafe (order_changes true false true spec_200) resting refl resting-IsSafe

abbrev two_orders : WhoDict
two_orders =
    (identify order_200, spec_200)
    ∷ (record { lgnum = "1710"; who = "199" }, record spec_200 { sequence = 3 })
    ∷ []

sort_warehouseorders-IsSorted_example :
    IsSorted (sort_warehouseorders two_orders) × Perm (sort_warehouseorders two_orders) two_orders
sort_warehouseorders-IsSorted_example = sort_warehouseorders-IsSorted two_orders

abbrev idle_event : Event
idle_event = record {
  state = State.charging;
  cause = call Trigger.charging_canceled;
  dest = some State.idle;
}

decide_whats_next-queue_example : DecidesBy resting (decide_whats_next idle_event resting).queue
unfolding new_machine
decide_whats_next-queue_example = decide_whats_next-queue idle_event resting refl

-- The status of a robot on its way to a source bin.
abbrev saved_status : RobotConfigurationStatus
saved_status = record {
  statemachine = State.move_trolley_moving_to_source_bin;
  mission = "mission";
  lgnum = "1710";
  who = "200";
  tanum = "100";
  subwho = "";
  update_time = "today";
}

init_robot_state_machine-IsResumed_example : Holds IsResumed (
    init_robot_state_machine clock config 90000
      (λ lgnum who. some spec_200)
      (λ n. true)
      (some saved_status))
init_robot_state_machine-IsResumed_example =
    init_robot_state_machine-IsResumed clock config 90000 (λ lgnum who. some spec_200) (λ n. true)
      (some saved_status) refl

resumes :
    state_of (
      init_robot_state_machine clock config 90000
        (λ lgnum who. some spec_200)
        (λ n. true)
        (some saved_status))
    ≡ some State.move_trolley_moving_to_source_bin
unfolding init_robot_state_machine new_machine
resumes = refl
