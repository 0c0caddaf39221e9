-- ===== src/CrHandler/Events.antt =====
-- What a watch on the cluster delivers: resources and the types of events (k8scrhandler.py). The
-- content of a resource is a parameter, `A`.
use ewm_cloud_robotics.Prelude.{String, Bool, true, false, Option, List}

-- The four valid types of events, and any other text.
pub data Operation : Type 0 where
  added modified deleted reprocess : Operation
  other : String → Operation

abbrev pub is_valid_operation : Operation → Bool
is_valid_operation (other s) = false
is_valid_operation _ = true

-- An event of another type than the four finds no callbacks.
abbrev pub operation_eq : Operation → Operation → Bool
operation_eq added added = true
operation_eq modified modified = true
operation_eq deleted deleted = true
operation_eq reprocess reprocess = true
operation_eq _ _ = false

-- `robot`: the label cloudrobotics.com/robot-name.
pub record Resource {ℓ} (A : Type ℓ) : Type ℓ where
  pub name : String
  pub resource_version : Option String
  pub robot : Option String
  pub finalizers : List String
  pub body : A

-- An object of the stream: an error of code 410, with the version that its message names, if it
-- names one; an object without metadata; or an event.
pub data WatchItem {ℓ} (A : Type ℓ) : Type ℓ where
  too_old : Option String → WatchItem A
  no_metadata : WatchItem A
  event : Operation → Resource A → WatchItem A
