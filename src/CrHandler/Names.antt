-- ===== src/CrHandler/Names.antt =====
-- Dictionaries of callbacks (k8scrhandler.py): how a name that is set or popped shows.
use ewm_cloud_robotics.Prelude.{
  String, str_eq, eq_iff, ◌≡◌, refl, sym, ◌∙◌, ap, true, false, Bool-cases, inl, inr, Option, none,
  some, List, [], ◌∷◌, ◌++◌, if◌then◌else◌, any, arith,
}
use ewm_cloud_robotics.CrHandler.Events.{
  Operation, added, modified, deleted, reprocess, other, is_valid_operation, operation_eq,
}
use ewm_cloud_robotics.CrHandler.Callbacks.{
  Named, CallbackDict, has_name, set_name, pop_name, robot_dict, set_robot_dict, is_registered,
  add_to, dict_or_new, drop_from, values, robot_values,
}

module _ {ℓ} {C : Type ℓ} where
  pop_name-set_name :
      (x : String) (c : C) (d : Named C) → pop_name x (set_name x c d) ≡ pop_name x d
  unfolding pop_name set_name
  pop_name-set_name x c [] = ground (arith, eq_iff x x)
  pop_name-set_name x c ((y, b) ∷ d) = ground (arith, pop_name-set_name x c d)

  pop_name_absent : (x : String) (d : Named C) → has_name x d ≡ false → pop_name x d ≡ d
  unfolding pop_name
  pop_name_absent x [] h = refl
  pop_name_absent x ((y, b) ∷ d) h = ground (arith, pop_name_absent x d)

  pop_name-add_to :
      (ops : List Operation) (x : String) (c : C) (d : CallbackDict C) (o : Operation)
      → pop_name x (add_to ops x c d o) ≡ pop_name x (d o)
  unfolding add_to
  pop_name-add_to [] x c d o = refl
  pop_name-add_to (op ∷ ops) x c d o =
      pop_name-add_to ops x c _ o ∙ (ground (arith, pop_name-set_name x c (d o)))

  -- What is registered under no name is in none of the dictionaries.
  pub absent :
      (x : String) (d : CallbackDict C) (o : Operation)
      → is_valid_operation o ≡ true
      → is_registered x d ≡ false
      → has_name x (d o) ≡ false
  absent x d added v h = ground arith
  absent x d modified v h = ground arith
  absent x d deleted v h = ground arith
  absent x d reprocess v h = ground arith
  absent x d (other s) v h = ground arith

  pub values-set_name :
      (x : String) (c : C) (d : Named C)
      → has_name x d ≡ false
      → values (set_name x c d) ≡ values d ++ (c ∷ [])
  unfolding set_name
  values-set_name x c [] h = refl
  values-set_name x c ((y, b) ∷ d) h = ground (arith, values-set_name x c d)

  set_name_twice :
      (x : String) (c : C) (d : Named C) → set_name x c (set_name x c d) ≡ set_name x c d
  unfolding set_name
  set_name_twice x c [] = ground (arith, eq_iff x x)
  set_name_twice x c ((y, b) ∷ d) = ground (arith, set_name_twice x c d)

  -- The dictionary of an event gets the callback if the event is among the operations.
  pub add_to_lem :
      (ops : List Operation) (x : String) (c : C) (d : CallbackDict C) (o : Operation)
      → add_to ops x c d o ≡ (if any (λ p. operation_eq p o) ops then set_name x c (d o) else d o)
  unfolding add_to
  add_to_lem [] x c d o = refl
  add_to_lem (op ∷ ops) x c d o = add_to_lem ops x c _ o ∙ ground (arith, set_name_twice x c (d o))

  robot_dict-set :
      (x y : String) (d : CallbackDict C) (ds : List (String × CallbackDict C))
      → robot_dict x (set_robot_dict y d ds) ≡ (if str_eq x y then some d else robot_dict x ds)
  unfolding robot_dict set_robot_dict
  robot_dict-set x y d [] = refl
  robot_dict-set x y d ((z, e) ∷ ds) =
      ground (arith, robot_dict-set x y d ds, eq_iff x y, eq_iff x z, eq_iff y z)

  pub restored :
      (ops : List Operation) (x : String) (c : C) (d : CallbackDict C) (o : Operation)
      → is_valid_operation o ≡ true
      → is_registered x d ≡ false
      → pop_name x (add_to ops x c d o) ≡ d o
  restored ops x c d o v h =
      pop_name-add_to ops x c d o ∙ pop_name_absent x (d o) (absent x d o v h)

  values_or_new :
      (o : Operation) (d : Option (CallbackDict C)) → robot_values o d ≡ values (dict_or_new d o)
  values_or_new o none = refl
  values_or_new o (some d) = refl

  pub robot_dict_self :
      (x : String) (d : CallbackDict C) (ds : List (String × CallbackDict C))
      → robot_dict x (set_robot_dict x d ds) ≡ some d
  robot_dict_self x d ds = robot_dict-set x x d ds ∙ ground (arith, eq_iff x x)

  pub set_twice :
      (x y : String) (d e : CallbackDict C) (ds : List (String × CallbackDict C))
      → robot_dict x (set_robot_dict y d (set_robot_dict y e ds))
        ≡ (if str_eq x y then some d else robot_dict x ds)
  set_twice x y d e ds =
      robot_dict-set x y d (set_robot_dict y e ds) ∙ ground (arith, robot_dict-set x y e ds)

  pub same_robot :
      (x y : String) (o : Operation) (d : CallbackDict C) (ds : List (String × CallbackDict C))
      → d o ≡ dict_or_new (robot_dict y ds) o
      → robot_values o (if str_eq x y then some d else robot_dict x ds)
        ≡ robot_values o (robot_dict x ds)
  same_robot x y o d ds h = elim (Bool-cases (str_eq x y)) [
    | inl e ↦
        let p : x ≡ y = (eq_iff x y).0 e in
        rw e (ap values h ∙ sym (values_or_new o (robot_dict y ds)) ∙ rw p refl)
    | inr n ↦ rw n refl
  ]

  has_name-set_name : (x : String) (c : C) (d : Named C) → has_name x (set_name x c d) ≡ true
  unfolding set_name
  has_name-set_name x c [] = ground (arith, eq_iff x x)
  has_name-set_name x c ((y, b) ∷ d) = ground (arith, has_name-set_name x c d)

  has_name-pop_name :
      (x y : String) (d : Named C) → str_eq x y ≡ false → has_name x (pop_name y d) ≡ has_name x d
  unfolding pop_name
  has_name-pop_name x y [] h = refl
  has_name-pop_name x y ((z, b) ∷ d) h =
      ground (arith, has_name-pop_name x y d, eq_iff y z, eq_iff x z, eq_iff x y)

  pub is_registered-drop_from :
      (x y : String) (d : CallbackDict C)
      → str_eq x y ≡ false
      → is_registered x (drop_from y d) ≡ is_registered x d
  is_registered-drop_from x y d h = ground (
    arith,
    has_name-pop_name x y (d added),
    has_name-pop_name x y (d modified),
    has_name-pop_name x y (d deleted),
    has_name-pop_name x y (d reprocess),
  )

  pub is_registered-add_to :
      (x : String) (ops : List Operation) (c : C) (d : CallbackDict C)
      → any (λ p. operation_eq p modified) ops ≡ true
      → is_registered x (add_to ops x c d) ≡ true
  is_registered-add_to x ops c d h =
      ground (arith, add_to_lem ops x c d modified, has_name-set_name x c (d modified))
