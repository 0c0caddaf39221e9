-- ===== src/RobotController/Kept.antt =====
-- update_mission_status_cb of missioncontroller.py: which missions it deletes from the cluster.
use ewm_cloud_robotics.Prelude.{
  ℕ, ◌+◌, String, str_eq, ◌≡◌, refl, ◌∙◌, Bool, false, ◌&&◌, Bool-cases, inl, inr, Option, List, [],
  ◌∷◌, if◌then◌else◌, any, arith,
}
use ewm_cloud_robotics.OrderManager.Controller.{has_key}
use ewm_cloud_robotics.RobotController.Missions.{
  RobotMission, is_finished, MissionRequest, create_cr, delete_cr, MissionController, MissionStatus,
  is_own, put_status, beyond, delete_missions, request_delete, clean_up, update_mission_status_cb,
}

abbrev is_delete : String → MissionRequest → ℕ
is_delete name (delete_cr x) = if str_eq name x then 1 else 0
is_delete name (create_cr x a) = 0

-- How often the resource of the mission was deleted.
abbrev pub deletions : String → List MissionRequest → ℕ
deletions name [] = 0
deletions name (r ∷ rs) = is_delete name r + deletions name rs

-- The mission is known and has ended.
abbrev pub has_ended : String → List RobotMission → Bool
has_ended name ms = any (λ m. str_eq name m.name && is_finished m.status) ms

beyond-has_ended :
    (name : String) (limit n : ℕ) (ms : List RobotMission)
    → has_ended name ms ≡ false
    → has_key name (beyond is_finished limit n ms) ≡ false
unfolding beyond
beyond-has_ended name limit n [] h = refl
beyond-has_ended name limit n (m ∷ ms) h =
    ground (arith, beyond-has_ended name limit (n + 1) ms, beyond-has_ended name limit n ms)

deletions-request_delete :
    (exists : String → Bool) (name x : String) (rs : List MissionRequest)
    → str_eq name x ≡ false
    → deletions name (request_delete exists x rs) ≡ deletions name rs
deletions-request_delete exists name x rs h = elim (Bool-cases (exists x)) [
  | inl y ↦ rw y (rw h (omega arith))
  | inr n ↦ rw n refl
]

deletions-delete_missions :
    (exists : String → Bool) (name : String) (names : List String) (c : MissionController)
    → has_key name names ≡ false
    → deletions name (delete_missions exists names c).requests ≡ deletions name c.requests
unfolding delete_missions
deletions-delete_missions exists name [] c h = refl
deletions-delete_missions exists name (x ∷ xs) c h =
    deletions-delete_missions exists name xs _ (ground arith)
    ∙ deletions-request_delete exists name x c.requests (ground arith)

-- After news of a mission, no resource of a mission is deleted that has not ended.
pub deletions-update_mission_status_cb :
    (exists : String → Bool) (x name : String) (label : Option String)
    (status : Option MissionStatus) (c : MissionController)
    → has_ended x (put_status name status c.mission_status) ≡ false
    → deletions x (update_mission_status_cb exists name label status c).requests
      ≡ deletions x c.requests
unfolding update_mission_status_cb clean_up
deletions-update_mission_status_cb exists x name label status c h =
    elim (Bool-cases (is_own label c)) [
      | inl y ↦ rw y (
          deletions-delete_missions exists x
            (beyond is_finished 20 0 (put_status name status c.mission_status)) _
            (beyond-has_ended x 20 0 (put_status name status c.mission_status) h))
      | inr n ↦ rw n refl
    ]
