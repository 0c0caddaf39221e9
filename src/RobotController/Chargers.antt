-- ===== src/RobotController/Chargers.antt =====
-- The chargers of MissionController (missioncontroller.py) and the generator that goes through them.
use ewm_cloud_robotics.Prelude.{
  String, str_eq, Bool, true, false, ◌&&◌, Option, none, some, List, [], ◌∷◌,
}

unfoldable pub names_eq : List String → List String → Bool
names_eq [] [] = true
names_eq (x ∷ xs) (y ∷ ys) = str_eq x y && names_eq xs ys
names_eq _ _ = false

-- The generator: what is left of the present pass, and whether it yielded something.
pub record Generator : Type 0 where
  pub started : Bool
  pub rest : List String

-- _iterate_chargers
abbrev pub new_generator : Generator
new_generator = record { started = false; rest = [] }

-- A new pass. Without chargers the text '' is yielded once; `none`: the next pass has no end.
unfoldable pub next_pass : List String → Bool → Option (String × Generator)
next_pass [] false = some ("", record { started = true; rest = [] })
next_pass [] true = none
next_pass (x ∷ xs) started = some (x, record { started = true; rest = xs })

-- next(generator) over these chargers
unfoldable pub next_charger : List String → Generator → Option (String × Generator)
unfolding next_pass
next_charger chargers g = elim g.rest [
  | [] ↦ next_pass chargers g.started
  | x ∷ xs ↦ some (x, record { started = true; rest = xs })
]
