-- ===== src/CrHandler/Callbacks.antt =====
-- Callbacks of K8sCRHandler: registered under a name, for types of events, for all resources or
-- for those of one robot. A callback is a value of a parameter `C`; only what is callable is.
use ewm_cloud_robotics.Prelude.{
  String, str_eq, Bool, false, not, ◌||◌, Option, none, some, List, [], ◌∷◌, ◌++◌, if◌then◌else◌,
  every,
}
use ewm_cloud_robotics.CrHandler.Events.{
  Operation, added, modified, deleted, reprocess, is_valid_operation, operation_eq, Resource,
}

-- register_callback raises a ValueError.
pub data Registration {ℓ} (A : Type ℓ) : Type ℓ where
  registered : A → Registration A
  value_error : Registration A

-- An ordered dictionary of callbacks by name.
abbrev pub Named {ℓ} : Type ℓ → Type ℓ
Named C = List (String × C)

-- One for each type of event; a type that is not valid has none.
abbrev pub CallbackDict {ℓ} : Type ℓ → Type ℓ
CallbackDict C = Operation → Named C

pub record Callbacks {ℓ} (C : Type ℓ) : Type ℓ where
  pub callbacks : CallbackDict C
  pub robot_callbacks : List (String × CallbackDict C)

abbrev pub label_or_empty : Option String → String
label_or_empty none = ""
label_or_empty (some r) = r

module _ {ℓ} {C : Type ℓ} where
  abbrev pub get_callback_dict : CallbackDict C
  get_callback_dict op = []

  abbrev pub has_name : String → Named C → Bool
  has_name x [] = false
  has_name x ((y, c) ∷ d) = str_eq x y || has_name x d

  unfoldable pub set_name : String → C → Named C → Named C
  set_name x c [] = (x, c) ∷ []
  set_name x c ((y, b) ∷ d) =
      let rest = set_name x c d in if str_eq x y then (y, c) ∷ d else (y, b) ∷ rest

  unfoldable pub pop_name : String → Named C → Named C
  pop_name x [] = []
  pop_name x ((y, b) ∷ d) = let rest = pop_name x d in if str_eq x y then rest else (y, b) ∷ rest

  unfoldable pub robot_dict : String → List (String × CallbackDict C) → Option (CallbackDict C)
  robot_dict x [] = none
  robot_dict x ((y, d) ∷ ds) = let rest = robot_dict x ds in if str_eq x y then some d else rest

  unfoldable pub set_robot_dict :
      String → CallbackDict C → List (String × CallbackDict C) → List (String × CallbackDict C)
  set_robot_dict x d [] = (x, d) ∷ []
  set_robot_dict x d ((y, e) ∷ ds) =
      let rest = set_robot_dict x d ds in if str_eq x y then (y, d) ∷ ds else (y, e) ∷ rest

  -- The callback is registered in some of the four dictionaries.
  abbrev pub is_registered : String → CallbackDict C → Bool
  is_registered x d =
      has_name x (d added)
      || has_name x (d modified)
      || has_name x (d deleted)
      || has_name x (d reprocess)

  unfoldable pub add_to : List Operation → String → C → CallbackDict C → CallbackDict C
  unfolding set_name
  add_to [] x c d = d
  add_to (op ∷ ops) x c d =
      add_to ops x c (λ o. if operation_eq op o then set_name x c (d o) else d o)

  unfoldable pub add_callback :
      List Operation → String → C → CallbackDict C → Registration (CallbackDict C)
  unfolding add_to
  add_callback ops x c d =
      if not (every is_valid_operation ops) || is_registered x d
      then value_error
      else registered (add_to ops x c d)

  abbrev pub set_callbacks :
      Callbacks C → Registration (CallbackDict C) → Registration (Callbacks C)
  set_callbacks h (registered d) = registered (record h { callbacks = d })
  set_callbacks h value_error = value_error

  abbrev pub set_for_robot :
      String → Callbacks C → Registration (CallbackDict C) → Registration (Callbacks C)
  set_for_robot robot h (registered d) =
      registered (record h { robot_callbacks = set_robot_dict robot d h.robot_callbacks })
  set_for_robot robot h value_error = value_error

  abbrev pub dict_or_new : Option (CallbackDict C) → CallbackDict C
  dict_or_new none = get_callback_dict
  dict_or_new (some d) = d

  -- `robot`: a callback for the resources of one robot. An error leaves nothing behind that a
  -- later call could tell from what was before.
  unfoldable pub register_callback :
      String → List Operation → C → Option String → Callbacks C → Registration (Callbacks C)
  unfolding add_callback robot_dict set_robot_dict
  register_callback x ops c none h = set_callbacks h (add_callback ops x c h.callbacks)
  register_callback x ops c (some robot) h =
      set_for_robot robot h
        (add_callback ops x c (dict_or_new (robot_dict robot h.robot_callbacks)))

  abbrev pub drop_from : String → CallbackDict C → CallbackDict C
  drop_from x d op = pop_name x (d op)

  unfoldable pub unregister_robot :
      String → String → Option (CallbackDict C) → Callbacks C → Callbacks C
  unfolding set_robot_dict pop_name
  unregister_robot x robot none h = h
  unregister_robot x robot (some d) h = record h {
    robot_callbacks = set_robot_dict robot (drop_from x d) h.robot_callbacks;
  }

  unfoldable pub unregister_callback : String → Option String → Callbacks C → Callbacks C
  unfolding unregister_robot pop_name robot_dict
  unregister_callback x none h = record h { callbacks = drop_from x h.callbacks }
  unregister_callback x (some robot) h =
      unregister_robot x robot (robot_dict robot h.robot_callbacks) h

  abbrev pub values : Named C → List C
  values [] = []
  values ((x, c) ∷ d) = c ∷ values d

  abbrev pub robot_values : Operation → Option (CallbackDict C) → List C
  robot_values op none = []
  robot_values op (some d) = values (d op)

  -- The callbacks for an event of a resource, those for all resources first.
  unfoldable pub callbacks_for : Operation → Option String → Callbacks C → List C
  unfolding robot_dict
  callbacks_for op label h =
      values (h.callbacks op)
      ++ robot_values op (robot_dict (label_or_empty label) h.robot_callbacks)

-- A callback acts on a state, and may raise; an exception is logged and ends the processing of the
-- resource.
module _ {ℓ κ} {C A : Type ℓ} {S : Type κ} (invoke : C → Resource A → S → Bool × S) where
  unfoldable pub run_all : List C → Resource A → S → S
  run_all [] r s = s
  run_all (c ∷ cs) r s =
      let (raised, s') = invoke c r s in let rest = run_all cs r s' in if raised then s' else rest

  unfoldable pub callback : Operation → Resource A → Callbacks C → S → S
  unfolding run_all callbacks_for
  callback op r h s = run_all (callbacks_for op r.robot h) r s
