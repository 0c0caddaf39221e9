-- ===== src/StateMachine/Process.antt =====
-- How a queued trigger is processed. The class is built on the Python package `transitions`
-- (LockedHierarchicalMachine, send_event=True, queued=True), which is not part of the repository:
-- it is the parameter `Library`, with the documented behaviour that the class relies on.
use ewm_cloud_robotics.Prelude.{
  ◌≡◌, Bool, true, false, Option, none, some, List, [], ◌∷◌, Memᴰ, any, Error, Result, ok, err,
  machine_error, ◌>>=◌,
}
use ewm_cloud_robotics.StateMachine.Config.{State, Dest, internal, reflexive, to, Transition}
use ewm_cloud_robotics.StateMachine.Table.{transitions}
use ewm_cloud_robotics.StateMachine.Machine.{Clock, Call, Event, Machine}
use ewm_cloud_robotics.StateMachine.Guards.{is_valid, is_eligible}
use ewm_cloud_robotics.StateMachine.Callbacks.{
  run_callbacks, run_before_state_change, run_after_state_change,
}
use ewm_cloud_robotics.StateMachine.Entry.{on_enter}

-- `select` picks, among the rows of a table, the one that is executed: an eligible one, if there
-- is any. `execute` runs a row's callbacks: what stands before the state change, the change, and
-- what comes after it; an exception ends the row. `refuse` ends a trigger for which no row is
-- eligible: without effect if some row is valid for the state, and with a MachineError if not.
-- `give_up` is what becomes of the machine when an exception leaves the package: the queue is
-- cleared.
pub record Library : Type 0 where
  pub select : (Transition → Bool) → List Transition → Option Transition
  pub select_eligible :
      (p : Transition → Bool) (ts : List Transition) (t : Transition)
      → select p ts ≡ some t
      → (p t ≡ true) × Memᴰ t ts
  pub select_none :
      (p : Transition → Bool) (ts : List Transition) (t : Transition)
      → select p ts ≡ none
      → Memᴰ t ts
      → p t ≡ false
  pub execute :
      (Machine → Result Machine)
      → (Machine → Result Machine)
      → (Machine → Result Machine)
      → Machine
      → Result Machine
  pub execute_order :
      (before change after : Machine → Result Machine) (m : Machine)
      → execute before change after m ≡ (before m >>= change >>= after)
  pub refuse : Bool → Machine → Result Machine
  pub refuse_valid : (m : Machine) → refuse true m ≡ ok m
  pub refuse_invalid : (m : Machine) → refuse false m ≡ err machine_error
  pub give_up : Machine → Machine
  pub give_up_clears : (m : Machine) → give_up m ≡ record m { queue = [] }

abbrev pub dest_name : Dest → State → Option State
dest_name internal s = none
dest_name reflexive s = some s
dest_name (to d) s = some d

abbrev pub event_of : Call → State → Transition → Event
event_of c s t = record { state = s; cause = c; dest = dest_name t.dest s }

module _ (w : Clock) where
  abbrev pub before_row : Transition → Event → Machine → Result Machine
  before_row t e m = run_callbacks w t.before e (run_before_state_change w m)

  abbrev pub change_row : Option State → Event → Machine → Result Machine
  change_row none e m = ok m
  change_row (some s) e m = on_enter s e (record m { state = s })

  abbrev pub after_row : Transition → Event → Machine → Result Machine
  after_row t e m = run_callbacks w t.after e m >>= λ m'. ok (run_after_state_change w e m')

  unfoldable pub run_row : Transition → Event → Machine → Result Machine
  unfolding run_callbacks run_before_state_change run_after_state_change on_enter
  run_row t e m = before_row t e m >>= change_row e.dest e >>= after_row t e

  module _ (lib : Library) where
    abbrev pub process_selected : Option Transition → Call → Machine → Result Machine
    process_selected none c m = lib.refuse (any (is_valid c m) transitions) m
    process_selected (some t) c m =
        let e = event_of c m.state t in
        lib.execute (before_row t e) (change_row e.dest e) (after_row t e) m

    abbrev pub process_queue : List Call → Machine → Result Machine
    process_queue [] m = ok m
    process_queue (c ∷ cs) m =
        process_selected (lib.select (is_eligible c m) transitions) c (record m { queue = cs })

    -- The trigger at the head of the queue is processed; those that callbacks call are appended.
    unfoldable pub process_next : Machine → Result Machine
    process_next m = process_queue m.queue m

    -- Where an exception leaves the machine, which goes on with the next event: the resource
    -- handlers log what a callback raises. A MachineError is raised before any callback is called,
    -- the AttributeError of _update_who, the one callback of its row, before it changes anything.
    abbrev pub left_by : Error → Machine → Machine
    left_by machine_error m = lib.give_up m
    left_by e m = lib.give_up (run_before_state_change w m)
