-- ===== src/RobotController/Commands.antt =====
-- The commands of MissionController (missioncontroller.py): what the state machine calls. The name of a
-- new mission is the text of a reading of the clock.
use ewm_cloud_robotics.Prelude.{
  ℕ, ◌+◌, String, str_eq, Bool, Option, none, some, List, [], ◌∷◌, if◌then◌else◌,
}
use ewm_cloud_robotics.StateMachine.Machine.{Clock}
use ewm_cloud_robotics.RobotController.Chargers.{Generator, next_charger}
use ewm_cloud_robotics.RobotController.Missions.{
  RobotMission, new_mission, Action, move_to_named_position, get_trolley, return_trolley, charge,
  create_cr, MissionController, request_delete,
}

module _ (w : Clock) where
  unfoldable pub create_mission : Action → MissionController → String × MissionController
  create_mission a c =
      let name = w.show c.reads in
      (name, record c { requests = create_cr name a ∷ c.requests; reads = c.reads + 1 })

  abbrev pub api_moveto_named_position : String → MissionController → String × MissionController
  unfolding create_mission
  api_moveto_named_position target c = create_mission (move_to_named_position target) c

  abbrev pub api_get_trolley : String → MissionController → String × MissionController
  unfolding create_mission
  api_get_trolley dock c = create_mission (get_trolley dock) c

  abbrev pub api_return_trolley : String → MissionController → String × MissionController
  unfolding create_mission
  api_return_trolley dock c = create_mission (return_trolley dock) c

  abbrev pub api_moveto_staging_position : MissionController → String × MissionController
  unfolding create_mission
  api_moveto_staging_position c = create_mission (move_to_named_position "Staging") c

  -- The configuration holds the level from which a battery is charged and the one at which it is.
  abbrev pub api_charge_robot : ℕ → ℕ → Option ℕ → MissionController → String × MissionController
  unfolding create_mission
  api_charge_robot battery_idle battery_ok none c =
      create_mission (charge c.charger battery_idle battery_ok) c
  api_charge_robot battery_idle battery_ok (some b) c = create_mission (charge c.charger b b) c

abbrev pub api_cancel_mission :
    (String → Bool) → String → MissionController → Bool × MissionController
api_cancel_mission exists name c =
    (exists name, record c { requests = request_delete exists name c.requests })

abbrev set_next : Option (String × Generator) → MissionController → Option MissionController
set_next none c = none
set_next (some (x, g)) c = some (record c { charger = x; chargers_generator = g })

-- `none`: it runs forever.
unfoldable pub api_set_next_charger : MissionController → Option MissionController
unfolding next_charger
api_set_next_charger c = set_next (next_charger c.chargers c.chargers_generator) c

-- self.mission_status.get(name)
unfoldable pub get_mission : String → List RobotMission → Option RobotMission
get_mission name [] = none
get_mission name (m ∷ ms) =
    let rest = get_mission name ms in if str_eq name m.name then some m else rest

abbrev known : String → Option RobotMission → MissionController → RobotMission × MissionController
known name none c =
    (new_mission name, record c { mission_status = new_mission name ∷ c.mission_status })
known name (some m) c = (m, c)

unfoldable pub api_return_mission_activeaction :
    String → MissionController → String × MissionController
unfolding get_mission
api_return_mission_activeaction name c =
    let (m, d) = known name (get_mission name c.mission_status) c in (m.active_action, d)

unfoldable pub api_return_mission_state : String → MissionController → String × MissionController
unfolding get_mission
api_return_mission_state name c =
    let (m, d) = known name (get_mission name c.mission_status) c in (m.status, d)

abbrev pub api_check_state_ok : MissionController → Bool
api_check_state_ok c = str_eq c.robot_state "AVAILABLE"
