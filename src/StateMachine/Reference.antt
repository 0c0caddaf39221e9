-- ===== src/StateMachine/Reference.antt =====
-- The documented behaviour of the `transitions` package can be met: the first eligible row is
-- taken. Tests and examples run on this library.
use ewm_cloud_robotics.Prelude.{
  ◌≡◌, refl, sym, subst, Bool, true, false, Bool-cases, inl, inr, Option, none, some, List, [], ◌∷◌,
  Memᴰ, if◌then◌else◌, Result, ok, err, machine_error, ◌>>=◌, arith,
}
use ewm_cloud_robotics.StateMachine.Config.{Transition}
use ewm_cloud_robotics.StateMachine.Machine.{Machine}
use ewm_cloud_robotics.StateMachine.Process.{Library}

abbrev first_row : (Transition → Bool) → List Transition → Option Transition
first_row p [] = none
first_row p (t ∷ ts) = let rest = first_row p ts in if p t then some t else rest

pub first_row_eligible :
    (p : Transition → Bool) (ts : List Transition) (t : Transition)
    → first_row p ts ≡ some t
    → (p t ≡ true) × Memᴰ t ts
first_row_eligible p [] t h = cc
first_row_eligible p (u ∷ ts) t h = elim (Bool-cases (p u)) [
  | inl y ↦ let e : u ≡ t = ground arith in (subst (λ v. p v ≡ true) e y, Memᴰ.head (sym e))
  | inr n ↦ let (e, m) = first_row_eligible p ts t (rw n at h) in (e, Memᴰ.tail m)
]

pub first_row-none :
    (p : Transition → Bool) (ts : List Transition) (t : Transition)
    → first_row p ts ≡ none
    → Memᴰ t ts
    → p t ≡ false
first_row-none p (u ∷ ts) t h (Memᴰ.head e) = rw e (ground arith)
first_row-none p (u ∷ ts) t h (Memᴰ.tail m) = first_row-none p ts t (ground arith) m
first_row-none p [] t h m = elim m [ ]

abbrev refuse_unless : Bool → Machine → Result Machine
refuse_unless true m = ok m
refuse_unless false m = err machine_error

abbrev pub first_eligible : Library
first_eligible = record {
  select = first_row;
  select_eligible = first_row_eligible;
  select_none = first_row-none;
  execute = λ before change after m. before m >>= change >>= after;
  execute_order = λ before change after m. refl;
  refuse = refuse_unless;
  refuse_valid = λ m. refl;
  refuse_invalid = λ m. refl;
  give_up = λ m. record m { queue = [] };
  give_up_clears = λ m. refl;
}
