-- ===== src/CrHandler/Registered.antt =====
-- Registration of callbacks (k8scrhandler.py): what is called after it, and that it is undone.
use mathlib.Core.Logic.{Lift}
use ewm_cloud_robotics.Prelude.{
  String, str_eq, ◌≡◌, refl, ◌∙◌, ap, Bool, true, false, not, ◌||◌, Bool-cases, inl, inr, Option,
  none, some, List, [], ◌∷◌, ◌++◌, if◌then◌else◌, every, any, or_true, arith,
}
use ewm_cloud_robotics.CrHandler.Events.{Operation, modified, is_valid_operation, operation_eq}
use ewm_cloud_robotics.CrHandler.Callbacks.{
  Registration, registered, value_error, CallbackDict, Callbacks, robot_dict, set_robot_dict,
  is_registered, add_to, add_callback, register_callback, dict_or_new, drop_from,
  unregister_callback, unregister_robot, values, callbacks_for, label_or_empty, robot_values,
}
use ewm_cloud_robotics.CrHandler.Names.{
  absent, add_to_lem, is_registered-add_to, is_registered-drop_from, restored, robot_dict_self,
  same_robot, set_twice, values-set_name,
}

module _ {ℓ} {C : Type ℓ} where
  -- The registration fails because `refused` holds, or succeeds with what satisfies `P`.
  abbrev pub Answers : Bool → (Callbacks C → Type ℓ) → Registration (Callbacks C) → Type ℓ
  Answers refused P (registered h) = P h
  Answers refused P value_error = Lift (refused ≡ true)

  -- The dictionary that a registration is about.
  abbrev pub dict_of : Option String → Callbacks C → CallbackDict C
  dict_of none h = h.callbacks
  dict_of (some robot) h = dict_or_new (robot_dict robot h.robot_callbacks)

  abbrev pub is_refused : String → List Operation → Option String → Callbacks C → Bool
  is_refused x ops robot h = not (every is_valid_operation ops) || is_registered x (dict_of robot h)

  -- A callback is registered unless an operation is not valid or its name is taken among the
  -- callbacks of the same robot; once it is unregistered again, the callbacks for every valid
  -- event of every resource are those of before.
  pub unregister_callback-register_callback :
      (x : String) (ops : List Operation) (c : C) (robot : Option String) (h : Callbacks C)
      (o : Operation) (label : Option String)
      → is_valid_operation o ≡ true
      → Answers
          (is_refused x ops robot h)
          (λ h'. callbacks_for o label (unregister_callback x robot h') ≡ callbacks_for o label h)
          (register_callback x ops c robot h)
  unfolding register_callback add_callback unregister_callback unregister_robot callbacks_for
  unregister_callback-register_callback x ops c none h o label v =
      elim (Bool-cases (is_refused x ops none h)) [
        | inl yes' ↦ rw yes' (record { lower = refl })
        | inr no' ↦ rw no' (
            ap
              (λ d.
                values d ++ robot_values o (robot_dict (label_or_empty label) h.robot_callbacks))
              (restored ops x c h.callbacks o v (ground arith)))
      ]
  unregister_callback-register_callback x ops c (some robot) h o label v =
      elim (Bool-cases (is_refused x ops (some robot) h)) [
        | inl yes' ↦ rw yes' (record { lower = refl })
        | inr no' ↦
            let ds = h.robot_callbacks in
            let d : CallbackDict C = dict_or_new (robot_dict robot ds) in
            let a : CallbackDict C = add_to ops x c d in
            let l : String = label_or_empty label in
            rw (no', robot_dict_self robot a ds)
              (ap (λ vs. values (h.callbacks o) ++ vs)
                (ap (robot_values o) (set_twice l robot (drop_from x a) a ds)
                  ∙ same_robot l robot o (drop_from x a) ds
                      (restored ops x c d o v (ground arith))))
      ]

  -- A callback for all resources is refused only if an operation is not valid or its name is taken;
  -- else it is called for exactly the events that were named, after the callbacks for all resources
  -- that were there before and before those of the robot.
  pub callbacks_for-register_callback :
      (x : String) (ops : List Operation) (c : C) (h : Callbacks C) (o : Operation)
      (label : Option String)
      → is_valid_operation o ≡ true
      → Answers
          (is_refused x ops none h)
          (λ h'.
            callbacks_for o label h'
            ≡ (if any (λ p. operation_eq p o) ops
                then values (h.callbacks o) ++ (c ∷ [])
                else values (h.callbacks o))
              ++ robot_values o (robot_dict (label_or_empty label) h.robot_callbacks))
          (register_callback x ops c none h)
  unfolding register_callback add_callback callbacks_for
  callbacks_for-register_callback x ops c h o label v =
      elim (Bool-cases (is_refused x ops none h)) [
        | inl yes' ↦ rw yes' (record { lower = refl })
        | inr no' ↦ rw no' (
            ap (λ vs. vs ++ robot_values o (robot_dict (label_or_empty label) h.robot_callbacks))
              (ap values (add_to_lem ops x c h.callbacks o)
                ∙ ground (arith, values-set_name x c (h.callbacks o), absent x h.callbacks o)))
      ]

  taken_robot :
      (x y robot : String) (a : CallbackDict C) (h : Callbacks C) (b : Option (CallbackDict C))
      → robot_dict robot h.robot_callbacks ≡ b
      → b ≡ some a
      → str_eq x y ≡ false
      → is_registered x a ≡ true
      → is_registered x (dict_of (some robot) (unregister_robot y robot b h)) ≡ true
  unfolding unregister_robot
  taken_robot x y robot a h none e s n t = ground arith
  taken_robot x y robot a h (some d) e s n t =
      rw (robot_dict_self robot (drop_from y d) h.robot_callbacks)
        (is_registered-drop_from x y d n ∙ ground arith)

  register_callback_taken :
      (x robot : String) (ops : List Operation) (c : C) (h : Callbacks C)
      → is_registered x (dict_of (some robot) h) ≡ true
      → register_callback x ops c (some robot) h ≡ value_error
  unfolding register_callback add_callback
  register_callback_taken x robot ops c h t =
      rw (t, or_true (not (every is_valid_operation ops))) refl

  -- A callback of a robot that is told of modified resources stays registered when another name
  -- is unregistered: to register it once more is refused.
  pub register_callback_again :
      (x y robot : String) (ops : List Operation) (c : C) (h : Callbacks C)
      → str_eq x y ≡ false
      → any (λ p. operation_eq p modified) ops ≡ true
      → Answers
          (is_refused x ops (some robot) h)
          (λ h'.
            register_callback x ops c (some robot) (unregister_callback y (some robot) h')
            ≡ value_error)
          (register_callback x ops c (some robot) h)
  unfolding register_callback add_callback unregister_callback
  register_callback_again x y robot ops c h n m =
      elim (Bool-cases (is_refused x ops (some robot) h)) [
        | inl yes' ↦ rw yes' (record { lower = refl })
        | inr no' ↦
            let ds = h.robot_callbacks in
            let a : CallbackDict C = add_to ops x c (dict_or_new (robot_dict robot ds)) in
            let h' : Callbacks C = record h { robot_callbacks = set_robot_dict robot a ds } in
            rw no' (
              register_callback_taken x robot ops c (unregister_callback y (some robot) h') (
                taken_robot x y robot a h' (robot_dict robot h'.robot_callbacks) refl
                  (robot_dict_self robot a ds) n
                  (is_registered-add_to x ops c (dict_or_new (robot_dict robot ds)) m)))
      ]
