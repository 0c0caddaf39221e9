-- ===== src/RobotController/Trimmed.antt =====
-- update_mission_status_cb of missioncontroller.py: how many missions that ended it keeps.
use ewm_cloud_robotics.Prelude.{
  ℕ, suc, ◌+◌, ◌-◌, ◌≤◌, String, str_eq, eq_iff, ◌≡◌, refl, sym, ap, ◌∙◌, Bool, true, not, ◌&&◌,
  Bool-cases, inl, inr, Option, List, [], ◌∷◌, if◌then◌else◌, every, arith,
}
use ewm_cloud_robotics.OrderManager.Controller.{has_key}
use ewm_cloud_robotics.RobotController.Missions.{
  RobotMission, is_finished, is_deleted, MissionController, MissionStatus, is_own, put_status,
  beyond, mark_deleted, delete_missions, pop_mission, pop_missions, clean_up,
  update_mission_status_cb,
}

-- How many missions have ended.
abbrev pub finished : List RobotMission → ℕ
finished [] = 0
finished (m ∷ ms) = if is_finished m.status then suc (finished ms) else finished ms

abbrev mark : List String → RobotMission → RobotMission
mark names m = if has_key m.name names then record m { status = "DELETED" } else m

abbrev mark_each : List String → List RobotMission → List RobotMission
mark_each names [] = []
mark_each names (m ∷ ms) = mark names m ∷ mark_each names ms

mark_none : (ms : List RobotMission) → mark_each [] ms ≡ ms
mark_none [] = refl
mark_none (m ∷ ms) = ap (λ xs. m ∷ xs) (mark_none ms)

mark_one :
    (name : String) (names : List String) (m : RobotMission)
    → mark names (if str_eq name m.name then record m { status = "DELETED" } else m)
      ≡ mark (name ∷ names) m
mark_one name names m = ground (arith, eq_iff name m.name, eq_iff m.name name)

mark_each-mark_deleted :
    (name : String) (names : List String) (ms : List RobotMission)
    → mark_each names (mark_deleted name ms) ≡ mark_each (name ∷ names) ms
unfolding mark_deleted
mark_each-mark_deleted name names [] = refl
mark_each-mark_deleted name names (m ∷ ms) =
    ap (λ x. x ∷ mark_each names (mark_deleted name ms)) (mark_one name names m)
    ∙ ap (λ xs. mark (name ∷ names) m ∷ xs) (mark_each-mark_deleted name names ms)

mission_status-delete_missions :
    (exists : String → Bool) (names : List String) (c : MissionController)
    → (delete_missions exists names c).mission_status ≡ mark_each names c.mission_status
unfolding delete_missions
mission_status-delete_missions exists [] c = sym (mark_none c.mission_status)
mission_status-delete_missions exists (name ∷ names) c =
    mission_status-delete_missions exists names _
    ∙ mark_each-mark_deleted name names c.mission_status

-- All names are marked.
abbrev AllKeys : List String → List String → Type 0
AllKeys names xs = every (λ x. has_key x names) xs ≡ true

AllKeys-more : (y : String) (names xs : List String) → AllKeys names xs → AllKeys (y ∷ names) xs
AllKeys-more y names [] h = refl
AllKeys-more y names (x ∷ xs) h = ground (arith, AllKeys-more y names xs)

AllKeys-same : (names : List String) → AllKeys names names
AllKeys-same [] = refl
AllKeys-same (x ∷ xs) = ground (arith, AllKeys-more x xs xs (AllKeys-same xs), eq_iff x x)

is_finished-mark :
    (names : List String) (m : RobotMission)
    → is_finished (mark names m).status ≡ (not (has_key m.name names) && is_finished m.status)
is_finished-mark names m = elim (Bool-cases (has_key m.name names)) [
  | inl y ↦ rw y refl
  | inr n ↦ rw n refl
]

-- The first of the missions counts, unless it is marked.
finished-marked :
    (names : List String) (m : RobotMission) (ms : List RobotMission)
    → finished (mark names m ∷ ms) ≡ (
        if not (has_key m.name names) && is_finished m.status
        then suc (finished ms)
        else finished ms)
finished-marked names m ms =
    ap (λ b. if b then suc (finished ms) else finished ms) (is_finished-mark names m)

finished-mark_each :
    (names : List String) (n : ℕ) (ms : List RobotMission)
    → AllKeys names (beyond is_finished 20 n ms)
    → finished (mark_each names ms) ≤ 19 - n
unfolding beyond
finished-mark_each names n [] h = omega arith
finished-mark_each names n (m ∷ ms) h =
    rw (finished-marked names m (mark_each names ms))
      (ground (arith, finished-mark_each names (n + 1) ms, finished-mark_each names n ms))

finished-pop_mission :
    (name : String) (ms : List RobotMission) → finished (pop_mission name ms) ≤ finished ms
unfolding pop_mission
finished-pop_mission name [] = omega arith
finished-pop_mission name (m ∷ ms) = ground (arith, finished-pop_mission name ms)

finished-pop_missions :
    (names : List String) (ms : List RobotMission) → finished (pop_missions names ms) ≤ finished ms
unfolding pop_missions
finished-pop_missions [] ms = omega arith
finished-pop_missions (name ∷ names) ms =
    let h : finished (pop_missions names (pop_mission name ms)) ≤ finished (pop_mission name ms) =
      finished-pop_missions names (pop_mission name ms) in
    let k : finished (pop_mission name ms) ≤ finished ms = finished-pop_mission name ms in
    omega arith

finished-clean_up :
    (exists : String → Bool) (c : MissionController)
    → finished (clean_up exists c).mission_status ≤ 19
unfolding clean_up
finished-clean_up exists c =
    let ended : List String = beyond is_finished 20 0 c.mission_status in
    let d : List RobotMission = (delete_missions exists ended c).mission_status in
    let h : finished (pop_missions (beyond is_deleted 50 0 c.mission_status) d) ≤ finished d =
      finished-pop_missions (beyond is_deleted 50 0 c.mission_status) d in
    let k : finished (mark_each ended c.mission_status) ≤ 19 =
      finished-mark_each ended 0 c.mission_status (AllKeys-same ended) in
    let e : finished d ≡ finished (mark_each ended c.mission_status) =
      ap finished (mission_status-delete_missions exists ended c) in
    omega arith

-- After news of a mission of the robot, at most 19 missions that have ended are kept.
pub finished-update_mission_status_cb :
    (exists : String → Bool) (name : String) (label : Option String) (status : Option MissionStatus)
    (c : MissionController)
    → is_own label c ≡ true
    → finished (update_mission_status_cb exists name label status c).mission_status ≤ 19
unfolding update_mission_status_cb
finished-update_mission_status_cb exists name label status c h = rw h (
    finished-clean_up exists
      (record c { mission_status = put_status name status c.mission_status }))
