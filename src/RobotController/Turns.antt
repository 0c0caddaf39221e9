-- ===== src/RobotController/Turns.antt =====
-- The chargers of a robot (missioncontroller.py) are used in turn.
use ewm_cloud_robotics.Prelude.{
  ℕ, zero, suc, String, ◌≡◌, refl, ap, Bool, true, false, Option, none, some, List, [], ◌∷◌, ◌++◌,
  length,
}
use ewm_cloud_robotics.RobotController.Chargers.{names_eq, next_pass, next_charger}
use ewm_cloud_robotics.RobotController.Commands.{api_set_next_charger}
use ewm_cloud_robotics.RobotController.Missions.{MissionController, is_own, update_chargers_cb}

abbrev after_charger : String → Option (List String) → Option (List String)
after_charger x none = none
after_charger x (some xs) = some (x ∷ xs)

-- The chargers that this many calls of api_set_next_charger set; `none` if a call runs forever.
unfoldable pub set_chargers : ℕ → MissionController → Option (List String)
unfolding api_set_next_charger
set_chargers zero c = some []
set_chargers (suc n) c = elim (api_set_next_charger c) [
  | none ↦ none
  | some d ↦ after_charger d.charger (set_chargers n d)
]

-- So many passes over the chargers.
abbrev pub rounds : ℕ → List String → List String
rounds zero xs = []
rounds (suc k) xs = xs ++ rounds k xs

set_chargers-rest :
    (x : String) (xs : List String) (k : ℕ) (b : Bool) (rest : List String) (c : MissionController)
    → c.chargers ≡ x ∷ xs
    → c.chargers_generator ≡ record { started = b; rest = rest }
    → set_chargers (length (rest ++ rounds k (x ∷ xs))) c ≡ some (rest ++ rounds k (x ∷ xs))
unfolding set_chargers next_charger next_pass
set_chargers-rest x xs k b (y ∷ ys) c e g =
    rw g (ap (after_charger y) (set_chargers-rest x xs k true ys _ e refl))
set_chargers-rest x xs zero b [] c e g = refl
set_chargers-rest x xs (suc k) b [] c e g =
    let d : MissionController = record c {
      chargers = x ∷ xs;
      chargers_generator = record { started = true; rest = xs };
      charger = x;
    } in
    rw g (rw e (ap (after_charger x) (set_chargers-rest x xs k true xs d refl refl)))

-- After a change of the chargers of a robot to other ones, at least one, calls of
-- api_set_next_charger return and set them in turn, in their order, pass after pass.
pub set_chargers-update_chargers_cb :
    (k : ℕ) (x : String) (xs : List String) (label : Option String) (c : MissionController)
    → is_own label c ≡ true
    → names_eq c.chargers (x ∷ xs) ≡ false
    → set_chargers (length (rounds k (x ∷ xs))) (update_chargers_cb (x ∷ xs) label c)
      ≡ some (rounds k (x ∷ xs))
unfolding update_chargers_cb
set_chargers-update_chargers_cb k x xs label c h n =
    rw h (rw n (set_chargers-rest x xs k false [] _ refl refl))
