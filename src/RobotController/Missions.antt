-- ===== src/RobotController/Missions.antt =====
-- MissionController of missioncontroller.py: the missions of one robot, its status and its chargers.
-- `mission_status` lists the missions, the latest that was added first. The requests to the cluster
-- are listed too, the latest first, and are taken to succeed; `exists` says which missions have a
-- resource.
use ewm_cloud_robotics.Prelude.{
  ℕ, ◌+◌, String, str_eq, Bool, false, not, ◌&&◌, ◌||◌, Option, none, some, List, [], ◌∷◌,
  if◌then◌else◌, leb,
}
use ewm_cloud_robotics.OrderManager.Controller.{has_key}
use ewm_cloud_robotics.RobotController.Chargers.{names_eq, Generator, new_generator}

pub record RobotMission : Type 0 where
  pub name : String
  pub status : String
  pub active_action : String

abbrev pub new_mission : String → RobotMission
new_mission name = record { name = name; status = "UNKNOWN"; active_action = "UNKNOWN" }

abbrev pub is_finished : String → Bool
is_finished s = str_eq s "SUCCEEDED" || str_eq s "CANCELED" || str_eq s "FAILED"

abbrev pub is_deleted : String → Bool
is_deleted s = str_eq s "DELETED"

pub data Action : Type 0 where
  move_to_named_position get_trolley return_trolley : String → Action
  charge : String → ℕ → ℕ → Action

pub data MissionRequest : Type 0 where
  create_cr : String → Action → MissionRequest
  delete_cr : String → MissionRequest

pub record MissionController : Type 0 where
  pub robot_name : String
  pub mission_status : List RobotMission
  pub requests : List MissionRequest
  pub reads : ℕ
  pub battery_percentage : ℕ
  pub robot_state : String
  pub trolley_attached : Bool
  pub chargers : List String
  pub chargers_generator : Generator
  pub charger : String

-- The label of a resource is the name of the robot.
abbrev pub is_own : Option String → MissionController → Bool
is_own none c = false
is_own (some robot) c = str_eq robot c.robot_name

-- The status of a mission, '' for what it lacks.
pub record MissionStatus : Type 0 where
  pub status : String
  pub active_action : String

abbrev pub has_mission : String → List RobotMission → Bool
has_mission name [] = false
has_mission name (m ∷ ms) = str_eq name m.name || has_mission name ms

-- A mission that is known keeps its place.
unfoldable pub set_mission : RobotMission → List RobotMission → List RobotMission
set_mission new [] = []
set_mission new (m ∷ ms) =
    let rest = set_mission new ms in (if str_eq new.name m.name then new else m) ∷ rest

unfoldable pub put_status : String → Option MissionStatus → List RobotMission → List RobotMission
unfolding set_mission
put_status name none ms = ms
put_status name (some s) ms =
    let new : RobotMission = record {
      name = name;
      status = s.status;
      active_action = s.active_action;
    } in
    if has_mission name ms then set_mission new ms else new ∷ ms

-- The missions that satisfy `p`, from the one on that is the `limit`-th; `n` were counted before.
unfoldable pub beyond : (String → Bool) → ℕ → ℕ → List RobotMission → List String
beyond p limit n [] = []
beyond p limit n (m ∷ ms) =
    let counted = beyond p limit (n + 1) ms in
    let rest = beyond p limit n ms in
    if p m.status then if leb limit (n + 1) then m.name ∷ counted else counted else rest

-- self.mission_status[name].status = DELETED
unfoldable pub mark_deleted : String → List RobotMission → List RobotMission
mark_deleted name [] = []
mark_deleted name (m ∷ ms) =
    let rest = mark_deleted name ms in
    (if str_eq name m.name then record m { status = "DELETED" } else m) ∷ rest

abbrev pub request_delete : (String → Bool) → String → List MissionRequest → List MissionRequest
request_delete exists name rs = if exists name then delete_cr name ∷ rs else rs

unfoldable pub delete_missions :
    (String → Bool) → List String → MissionController → MissionController
unfolding mark_deleted
delete_missions exists [] c = c
delete_missions exists (name ∷ names) c = delete_missions exists names (record c {
  mission_status = mark_deleted name c.mission_status;
  requests = request_delete exists name c.requests;
})

unfoldable pub pop_mission : String → List RobotMission → List RobotMission
pop_mission name [] = []
pop_mission name (m ∷ ms) =
    let rest = pop_mission name ms in if str_eq name m.name then rest else m ∷ rest

unfoldable pub pop_missions : List String → List RobotMission → List RobotMission
unfolding pop_mission
pop_missions [] ms = ms
pop_missions (name ∷ names) ms = pop_missions names (pop_mission name ms)

-- What is counted and cleaned up once the status of a mission is known.
unfoldable pub clean_up : (String → Bool) → MissionController → MissionController
unfolding beyond delete_missions pop_missions
clean_up exists c =
    let d = delete_missions exists (beyond is_finished 20 0 c.mission_status) c in
    record d {
      mission_status = pop_missions (beyond is_deleted 50 0 c.mission_status) d.mission_status;
    }

unfoldable pub update_mission_status_cb :
    (String → Bool)
    → String
    → Option String
    → Option MissionStatus
    → MissionController
    → MissionController
unfolding clean_up put_status
update_mission_status_cb exists name label status c =
    if is_own label c
    then clean_up exists (record c { mission_status = put_status name status c.mission_status })
    else c

unfoldable pub mission_deleted_cb : String → Option String → MissionController → MissionController
unfolding mark_deleted
mission_deleted_cb name label c =
    if is_own label c then record c { mission_status = mark_deleted name c.mission_status } else c

-- Marks the missions that are not among the names.
unfoldable pub mark_missing : List String → List RobotMission → List RobotMission
mark_missing names [] = []
mark_missing names (m ∷ ms) =
    let rest = mark_missing names ms in
    (if has_key m.name names then m else record m { status = "DELETED" }) ∷ rest

-- The resources of the cluster: the name, and whether there is a spec.
unfoldable pub mission_crs : List (String × Bool) → List String
mission_crs [] = []
mission_crs ((name, spec) ∷ crs) = let rest = mission_crs crs in if spec then name ∷ rest else rest

unfoldable pub check_deleted_missions : List (String × Bool) → MissionController → MissionController
unfolding mark_missing mission_crs
check_deleted_missions crs c = record c {
  mission_status = mark_missing (mission_crs crs) c.mission_status;
}

-- The status of the robot; `none` for what it lacks.
pub record RobotStatus : Type 0 where
  pub battery_percentage : Option ℕ
  pub state : Option String
  pub trolley_attached : Option Bool

abbrev or_else {ℓ} : {A : Type ℓ} → Option A → A → A
or_else none x = x
or_else (some y) x = y

unfoldable pub update_robot_status_cb :
    Option String → Option RobotStatus → MissionController → MissionController
update_robot_status_cb label none c = c
update_robot_status_cb label (some s) c =
    if is_own label c
    then record c {
      battery_percentage = or_else s.battery_percentage c.battery_percentage;
      robot_state = or_else s.state c.robot_state;
      trolley_attached = or_else s.trolley_attached false;
    }
    else c

-- `conf`: the chargers of the configuration.
unfoldable pub update_chargers_cb :
    List String → Option String → MissionController → MissionController
unfolding names_eq
update_chargers_cb conf label c =
    if is_own label c && not (names_eq c.chargers conf)
    then record c { chargers = conf; chargers_generator = new_generator }
    else c
