-- ===== src/StateMachine/Machine.antt =====
-- The attributes of RobotEWMMachine (robcoewmrobotcontroller/statemachine.py), the triggers that
-- wait in its queue, and what it asks of the other controllers.
-- `robot_config` and `battery_percentage` are the attributes of the robot configuration and
-- mission controllers that the machine reads. `effects` lists its calls on the controllers and on
-- the metrics, the newest first. `reads` counts the readings of the clock.
use ewm_cloud_robotics.Prelude.{
  ℕ, String, Option, none, some, List, [], ◌∷◌, ◌++◌, leb, if◌then◌else◌,
}
use ewm_cloud_robotics.Types.{
  WarehouseTask, WarehouseOrder, WhoIdentifier, ConfirmWarehouseTask, WarehouseOrderCrdSpec,
  RobotConfigurationSpec, ident_eq,
}
use ewm_cloud_robotics.StateMachine.Config.{State, Trigger, Process}

-- The clock that the program reads: the n-th reading of time.time(), its text by str(), and the
-- text of the n-th date.
pub record Clock : Type 0 where
  pub time : ℕ → ℕ
  pub show : ℕ → String
  pub isoformat : ℕ → String

-- An object that is handed over as a keyword argument, or no such argument.
pub data Argument : Type 0 where
  missing : Argument
  order : WarehouseOrder → Argument
  crd_spec : WarehouseOrderCrdSpec → Argument

-- A trigger with the keyword arguments that callbacks read.
pub record Call : Type 0 where
  pub trigger : Trigger
  pub warehouseorder : Argument
  pub sub_warehouseorder : Argument
  pub target : Option String
  pub target_battery : Option ℕ

abbrev pub call : Trigger → Call
call t = record {
  trigger = t;
  warehouseorder = missing;
  sub_warehouseorder = missing;
  target = none;
  target_battery = none;
}

-- EventData of the transitions library, as far as callbacks read it: the state in which the
-- trigger was processed, the trigger with its arguments, and the transition's destination.
pub record Event : Type 0 where
  pub state : State
  pub cause : Call
  pub dest : Option State

pub record WarehouseOrderTimestamps : Type 0 where
  pub start : ℕ
  pub end : ℕ
  pub get_trolley : ℕ
  pub return_trolley : ℕ

pub record RobotConfigurationStatus : Type 0 where
  pub statemachine : State
  pub mission : String
  pub lgnum : String
  pub who : String
  pub tanum : String
  pub subwho : String
  pub update_time : String

pub data Mission : Type 0 where
  move_to : Option String → Mission
  staging : Mission
  charge : Option ℕ → Mission
  get_trolley : Option String → Mission
  return_trolley : Option String → Mission

pub data Activity : Type 0 where
  completed get_trolley return_trolley : Activity

pub data Outcome : Type 0 where
  succeeded failed : Outcome

pub data Effect : Type 0 where
  create_mission : Mission → String → Effect
  cancel_mission : String → Effect
  set_next_charger : Effect
  confirm_wht : ConfirmWarehouseTask → Effect
  add_who_finalizer : String → String → Effect
  remove_who_finalizer : String → String → Effect
  save_robot_state : RobotConfigurationStatus → Effect
  observe_who_time : Option Process → Activity → ℕ → ℕ → Effect
  count_who : Option Process → Outcome → Effect
  observe_retention : State → ℕ → ℕ → Effect

pub record RobotConfig : Type 0 where
  pub robot_name : String
  pub rsrc : String
  pub max_retry_count : ℕ
  pub conf : RobotConfigurationSpec

-- An OrderedDict keyed by warehouse order.
abbrev pub WhoDict : Type 0
WhoDict = List (WhoIdentifier × WarehouseOrderCrdSpec)

pub record Machine : Type 0 where
  pub state : State
  pub queue : List Call
  pub robot_config : RobotConfig
  pub battery_percentage : ℕ
  pub warehouseorders : WhoDict
  pub sub_warehouseorders : WhoDict
  pub active_who : Option WarehouseOrder
  pub active_wht : Option WarehouseTask
  pub active_sub_who : Option WarehouseOrder
  pub active_mission : String
  pub error_count : State → ℕ
  pub failed_warehouseorders : ℕ
  pub state_enter_ts : ℕ
  pub who_ts : Option WarehouseOrderTimestamps
  pub idle_timeout : ℕ
  pub reads : ℕ
  pub effects : List Effect

-- The machine that the constructor builds in the state `initial`. The table gives `idle` a
-- timeout of 15 seconds.
unfoldable pub new_machine : Clock → RobotConfig → ℕ → State → Machine
new_machine w config battery initial = record {
  state = initial;
  queue = [];
  robot_config = config;
  battery_percentage = battery;
  warehouseorders = [];
  sub_warehouseorders = [];
  active_who = none;
  active_wht = none;
  active_sub_who = none;
  active_mission = "";
  error_count = λ s. 0;
  failed_warehouseorders = 0;
  state_enter_ts = w.time 0;
  who_ts = none;
  idle_timeout = 15;
  reads = 1;
  effects = [];
}

-- A trigger that a callback calls waits until the present one is done (queued=True).
abbrev pub post : Call → Machine → Machine
post c m = record m { queue = m.queue ++ c ∷ [] }

abbrev pub emit : Effect → Machine → Machine
emit e m = record m { effects = e ∷ m.effects }

abbrev pub identify : WarehouseOrder → WhoIdentifier
identify o = record { lgnum = o.lgnum; who = o.who }

-- d.pop(k, None)
unfoldable pub pop : WhoIdentifier → WhoDict → WhoDict
unfolding ident_eq
pop k [] = []
pop k ((j, v) ∷ d) = let rest = pop k d in if ident_eq j k then rest else (j, v) ∷ rest

-- d[k] = v keeps the place of a key that is there.
unfoldable pub put : WhoIdentifier → WarehouseOrderCrdSpec → WhoDict → WhoDict
unfolding ident_eq
put k v [] = (k, v) ∷ []
put k v ((j, u) ∷ d) = let rest = put k v d in if ident_eq j k then (j, v) ∷ d else (j, u) ∷ rest

-- next(iter(d.values()))
abbrev pub first : WhoDict → Option WarehouseOrder
first [] = none
first ((k, v) ∷ d) = some v.data'

unfoldable pub insert_sorted : WhoIdentifier × WarehouseOrderCrdSpec → WhoDict → WhoDict
insert_sorted (k, v) [] = (k, v) ∷ []
insert_sorted (k, v) ((j, u) ∷ d) =
    let rest = insert_sorted (k, v) d in
    if leb v.sequence u.sequence then (k, v) ∷ (j, u) ∷ d else (j, u) ∷ rest

-- sorted(..., key=sequence), which keeps the order of equal keys.
unfoldable pub sort_warehouseorders : WhoDict → WhoDict
unfolding insert_sorted
sort_warehouseorders [] = []
sort_warehouseorders ((k, v) ∷ d) = insert_sorted (k, v) (sort_warehouseorders d)
