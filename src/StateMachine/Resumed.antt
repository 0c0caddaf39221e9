-- ===== src/StateMachine/Resumed.antt =====
-- A state machine that is started from the status that was saved (robotcontroller/robot.py)
-- satisfies the invariant of the machine.
use ewm_cloud_robotics.Prelude.{
  ℕ, String, str_eq, ◌≡◌, inl, inr, refl, sym, ap, ◌∙◌, Bool, true, false, not, ◌&&◌, ◌||◌,
  Bool-cases, Option, none, some, is_some, List, [], ◌∷◌, if◌then◌else◌, any, Result, ok, err,
  ◌>>=◌, arith,
}
use ewm_cloud_robotics.Types.{WarehouseTask, WarehouseOrderCrdSpec}
use ewm_cloud_robotics.StateMachine.Config.{State, idle_states, error_states, among}
use ewm_cloud_robotics.StateMachine.Machine.{
  Clock, RobotConfigurationStatus, RobotConfig, Machine, new_machine,
}
use ewm_cloud_robotics.StateMachine.Reference.{first_eligible}
use ewm_cloud_robotics.StateMachine.Safety.Reach.{fresh, Reach-IsSafe}
use ewm_cloud_robotics.StateMachine.Safety.{carries_task, carries_order, IsSafe}
use ewm_cloud_robotics.StateMachine.Restore.{
  find_task, look_up, is_there, has_mission, validate, get_validated_state_restore, existing,
  or_task, restore_sub, with_task, restore_who, restored, init_robot_state_machine,
}

-- States that need the active order and the active task.
abbrev works : State → Bool
works s = carries_task s || carries_order s

abbrev task_in : String → Option WarehouseOrderCrdSpec → Bool
task_in tanum none = true
task_in tanum (some o) = any (λ t. str_eq t.tanum tanum) o.data'.warehousetasks

abbrev has_names : RobotConfigurationStatus → Option WarehouseOrderCrdSpec → Bool
has_names s o = not (works s.statemachine) || (not (str_eq s.who "") && task_in s.tanum o)

-- The status of a machine that works on a task names an order, and the order holds the task.
abbrev pub names_task :
    (String → String → Option WarehouseOrderCrdSpec) → Option RobotConfigurationStatus → Bool
names_task orders none = true
names_task orders (some s) = has_names s (look_up orders s.lgnum s.who)

abbrev pub Holds : (Machine → Type 0) → Result Machine → Type 0
Holds P (ok m) = P m
Holds P (err e) = ⊥

-- The machine satisfies the invariant and has a mission, unless its state is idle or one of error.
abbrev pub IsResumed : Machine → Type 0
IsResumed m =
    IsSafe m
    × ((not (str_eq m.active_mission "") || among idle_states m.state || among error_states m.state)
        ≡ true)

works_source : (s : State) → s ≡ State.move_trolley_moving_to_source_bin → works s ≡ true
works_source s e = ap works e

works_target : (s : State) → s ≡ State.pick_pack_pass_moving_to_target_location → works s ≡ true
works_target s e = ap works e

works-IsSafe :
    (m : Machine)
    → m.queue ≡ []
    → (works m.state ≡ true → (is_some m.active_wht ≡ true) × (is_some m.active_who ≡ true))
    → IsSafe m
works-IsSafe m q h = record {
  short = rw q tt;
  quiet = rw q (λ e. ground arith);
  at_source = λ e. inl (h (works_source m.state e)).0;
  accepted = rw q refl;
  with_task = λ e. (h (ground arith)).0;
  at_target = λ e. inl (h (works_target m.state e)).0;
  with_order = λ e. (h (ground arith)).1;
}

is_some-find_task :
    (tanum : String) (ts : List WarehouseTask)
    → is_some (find_task tanum ts) ≡ any (λ t. str_eq t.tanum tanum) ts
unfolding find_task
is_some-find_task tanum [] = refl
is_some-find_task tanum (t ∷ ts) = ground (arith, is_some-find_task tanum ts)

is_some-or_task : (t u : Option WarehouseTask) → is_some u ≡ true → is_some (or_task t u) ≡ true
is_some-or_task none u h = h
is_some-or_task (some t) u h = refl

-- A machine in the state of the status, with its mission.
abbrev Starts : RobotConfigurationStatus → Machine → Type 0
Starts s m = (m.queue ≡ []) × (m.state ≡ s.statemachine) × (m.active_mission ≡ s.mission)

idle-IsResumed :
    (s : RobotConfigurationStatus) (m : Machine)
    → Starts s m
    → works s.statemachine ≡ false
    → has_mission s ≡ true
    → IsResumed m
idle-IsResumed s m (q, t, a) h k = (works-IsSafe m q (λ e. ground arith), ground arith)

with_task-IsResumed :
    (s : RobotConfigurationStatus) (o : WarehouseOrderCrdSpec) (m : Machine)
    → Starts s m
    → is_some m.active_who ≡ true
    → has_names s (some o) ≡ true
    → has_mission s ≡ true
    → IsResumed (with_task s.tanum o.data' m)
with_task-IsResumed s o m (q, t, a) i h k =
    let found : works s.statemachine ≡ true
        → is_some (or_task m.active_wht (find_task s.tanum o.data'.warehousetasks)) ≡ true =
      λ e.
        is_some-or_task m.active_wht (find_task s.tanum o.data'.warehousetasks)
          (is_some-find_task s.tanum o.data'.warehousetasks ∙ ground arith) in
    (
      works-IsSafe (with_task s.tanum o.data' m) q (λ e. (found (ap works (sym t) ∙ e), i)),
      ground arith,
    )

bind-Holds :
    (P Q : Machine → Type 0) (r : Result Machine) (f : Machine → Result Machine)
    → Holds P r
    → ((m : Machine) → P m → Holds Q (f m))
    → Holds Q (r >>= f)
bind-Holds P Q (ok m) f h k = k m h
bind-Holds P Q (err e) f h k = absurd h

restore_sub-Holds :
    (s : RobotConfigurationStatus) (sub : Option WarehouseOrderCrdSpec) (m : Machine)
    → is_there s.subwho sub ≡ true
    → Starts s m
    → is_some m.active_who ≡ true
    → Holds (λ n. Starts s n × (is_some n.active_who ≡ true)) (restore_sub s sub m)
unfolding restore_sub
restore_sub-Holds s none m h st i = let e : str_eq s.subwho "" ≡ true = ground arith in rw e (st, i)
restore_sub-Holds s (some o) m h st i = elim (Bool-cases (str_eq s.subwho "")) [
  | inl y ↦ rw y (st, i)
  | inr n ↦ rw n (st, i)
]

restore_who-Holds :
    (s : RobotConfigurationStatus) (who sub : Option WarehouseOrderCrdSpec) (m : Machine)
    → is_there s.who who ≡ true
    → is_there s.subwho sub ≡ true
    → has_mission s ≡ true
    → has_names s who ≡ true
    → Starts s m
    → Holds IsResumed (restore_who s who sub m)
unfolding restore_who
restore_who-Holds s none sub m h k l n st =
    let e : str_eq s.who "" ≡ true = ground arith in rw e (idle-IsResumed s m st (ground arith) l)
restore_who-Holds s (some o) sub m h k l n st = elim (Bool-cases (str_eq s.who "")) [
  | inl y ↦ rw y (idle-IsResumed s m st (ground arith) l)
  | inr x ↦ rw x (
      bind-Holds (λ p. Starts s p × (is_some p.active_who ≡ true)) IsResumed _ _
        (restore_sub-Holds s sub _ k st refl) (λ p (t, i). with_task-IsResumed s o p t i n l))
]

fresh-IsResumed :
    (w : Clock) (config : RobotConfig) (battery : ℕ)
    → Holds IsResumed (restored w config battery none)
unfolding restored new_machine
fresh-IsResumed w config battery = (Reach-IsSafe w first_eligible config battery fresh, refl)

-- What is looked up in a status that is restored.
validate-Holds :
    (w : Clock) (config : RobotConfig) (battery : ℕ)
    (orders : String → String → Option WarehouseOrderCrdSpec) (s : RobotConfigurationStatus)
    → has_names s (look_up orders s.lgnum s.who) ≡ true
    → Holds IsResumed (restored w config battery (validate orders s))
unfolding restored validate new_machine
validate-Holds w config battery orders s n =
    let who : Option WarehouseOrderCrdSpec = look_up orders s.lgnum s.who in
    let sub : Option WarehouseOrderCrdSpec = look_up orders s.lgnum s.subwho in
    elim (Bool-cases (is_there s.who who && is_there s.subwho sub && has_mission s)) [
      | inl y ↦ rw y (
          restore_who-Holds s who sub _ (ground arith) (ground arith) (ground arith) n
            (refl, refl, refl))
      | inr x ↦ rw x (fresh-IsResumed w config battery)
    ]

if-Holds : {A : Type 0} (P : A → Type 0) (b : Bool) (x y : A) → P x → P y → P (if b then x else y)
if-Holds P true x y p q = p
if-Holds P false x y p q = q

-- If the status that was saved names a task of the order that it names, where its state works on
-- one, the start of the robot raises no exception, and the machine that is started satisfies the
-- invariant of the state machine and has a mission, unless its state is idle or one of error.
pub init_robot_state_machine-IsResumed :
    (w : Clock) (config : RobotConfig) (battery : ℕ)
    (orders : String → String → Option WarehouseOrderCrdSpec) (exists : String → Bool)
    (s : Option RobotConfigurationStatus)
    → names_task orders s ≡ true
    → Holds IsResumed (init_robot_state_machine w config battery orders exists s)
unfolding init_robot_state_machine get_validated_state_restore
init_robot_state_machine-IsResumed w config battery orders exists none n =
    fresh-IsResumed w config battery
init_robot_state_machine-IsResumed w config battery orders exists (some s) n =
    if-Holds (λ v. Holds IsResumed (restored w config battery v)) (among idle_states s.statemachine)
      none (validate orders (record s { mission = existing exists s.mission }))
      (fresh-IsResumed w config battery)
      (validate-Holds w config battery orders (record s { mission = existing exists s.mission }) n)
