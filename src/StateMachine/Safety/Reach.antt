-- ===== src/StateMachine/Safety/Reach.antt =====
-- Every machine that the program reaches satisfies the invariant, whatever comes from outside.
use ewm_cloud_robotics.Prelude.{
  ◌≡◌, ◌∙◌, sym, refl, Bool, true, false, ◌||◌, Bool-cases, inl, inr, ℕ, Option, none, some, List,
  [], ◌∷◌, Memᴰ, any, every, ◌++◌, subst, eq_iff, Error, Result, ok, err, attribute_error,
  machine_error, type_error, key_error, arith,
}
use ewm_cloud_robotics.StateMachine.Config.{State, Trigger, Transition}
use ewm_cloud_robotics.StateMachine.Table.{
  transitions, mission_commands, staging_transitions, charging_transitions, start_transitions,
  source_order_aborted,
}
use ewm_cloud_robotics.StateMachine.Machine.{
  Clock, Call, call, RobotConfig, Machine, new_machine, post,
}
use ewm_cloud_robotics.StateMachine.Callbacks.{run_before_state_change}
use ewm_cloud_robotics.StateMachine.Guards.{is_valid, is_eligible}
use ewm_cloud_robotics.StateMachine.Accepts.{accepts, has_row, has_row-eq-accepts}
use ewm_cloud_robotics.StateMachine.Process.{
  Library, event_of, run_row, before_row, change_row, after_row, process_selected, process_queue,
  process_next, left_by,
}
use ewm_cloud_robotics.StateMachine.Handlers.{Stimulus, receive, mission_changes}
use ewm_cloud_robotics.StateMachine.Safety.{IsSafe, Succeeds, AllRows-mem, is_mission_event}
use ewm_cloud_robotics.StateMachine.Safety.Rows.{transitions-KeepsSafe}

-- Whatever comes from outside while no trigger waits keeps the invariant.
pub receive-IsSafe : (s : Stimulus) (m : Machine) → m.queue ≡ [] → IsSafe m → IsSafe (receive s m)
unfolding receive
receive-IsSafe (mission_changes own state docking) m q h =
    ground (arith, eq_iff m.active_mission "")
receive-IsSafe _ m q h = ground arith

abbrev starts_with : (Trigger → Bool) → List Call → Bool
starts_with p [] = false
starts_with p (c ∷ cs) = p c.trigger

abbrev is_update : Trigger → Bool
is_update Trigger.update_warehouseorder = true
is_update _ = false

abbrev is_aborted : Trigger → Bool
is_aborted Trigger.warehouseorder_aborted = true
is_aborted _ = false

-- The outcome of processing the head of a queue: a machine that satisfies the invariant, an
-- AttributeError of an update, or a MachineError on news of a mission. Nothing else is raised.
abbrev pub Processed : List Call → Result Machine → Type 0
Processed q (ok m) = IsSafe m
Processed q (err attribute_error) = starts_with is_update q ≡ true
Processed q (err machine_error) = starts_with is_mission_event q ≡ true
Processed q (err _) = ⊥

Processed-of_Succeeds :
    (c : Call) (cs : List Call) (r : Result Machine)
    → Succeeds c.trigger IsSafe r
    → Processed (c ∷ cs) r
Processed-of_Succeeds c cs (ok m) h = h
Processed-of_Succeeds c cs (err attribute_error) h = ground arith
Processed-of_Succeeds c cs (err type_error) h = h
Processed-of_Succeeds c cs (err machine_error) h = elim h [ ]
Processed-of_Succeeds c cs (err key_error) h = h

mem_right :
    {t : Transition} (ts : List Transition) {us : List Transition} → Memᴰ t us → Memᴰ t (ts ++ us)
mem_right [] h = h
mem_right (t ∷ ts) h = Memᴰ.tail (mem_right ts h)

source_order_aborted-mem : Memᴰ source_order_aborted transitions
source_order_aborted-mem = mem_right mission_commands (
    mem_right staging_transitions
      (mem_right charging_transitions (mem_right start_transitions (Memᴰ.head refl))))

-- A trigger that has no eligible row is dropped; it is not the one that the state waits for.
drop-IsSafe :
    (m : Machine) (c : Call) (cs : List Call)
    → is_eligible c m source_order_aborted ≡ false
    → IsSafe m
    → m.queue ≡ c ∷ cs
    → IsSafe (record m { queue = cs })
unfolding is_eligible
drop-IsSafe m c cs n safe q = ground arith

contradict :
    (s : State) (c : Call) (cs : List Call)
    → is_mission_event c.trigger ≡ false
    → accepts s c.trigger ≡ false
    → every (λ d. is_mission_event d.trigger || accepts s d.trigger) (c ∷ cs) ≡ true
    → ⊥
contradict s c cs n e h = ground arith

unaccepted :
    (s : State) (c : Call) (cs : List Call)
    → accepts s c.trigger ≡ false
    → every (λ d. is_mission_event d.trigger || accepts s d.trigger) (c ∷ cs) ≡ true
    → is_mission_event c.trigger ≡ true
unaccepted s c cs e h = elim (Bool-cases (is_mission_event c.trigger)) [
  | inl y ↦ y
  | inr n ↦ absurd (contradict s c cs n e h)
]

-- A trigger for which the table has no row is news of a mission.
no_row :
    (m : Machine) (c : Call) (cs : List Call)
    → IsSafe m
    → m.queue ≡ c ∷ cs
    → any (is_valid c m) transitions ≡ false
    → is_mission_event c.trigger ≡ true
no_row m c cs safe q h =
    let e : accepts m.state c.trigger ≡ false =
      sym (has_row-eq-accepts c.trigger m.state) ∙ (unfold is_valid has_row in h) in
    unaccepted m.state c cs e (
      subst (λ l. every (λ d. is_mission_event d.trigger || accepts m.state d.trigger) l ≡ true) q
        safe.accepted)

-- One trigger of the queue after another, with any library that behaves as documented.
module _ (w : Clock) (lib : Library) where
  execute-Succeeds :
      (t : Transition) (m : Machine) (c : Call) (cs : List Call)
      → Memᴰ t transitions
      → IsSafe m
      → m.queue ≡ c ∷ cs
      → is_eligible c m t ≡ true
      → let e = event_of c m.state t in
        Succeeds c.trigger IsSafe (
          lib.execute
            (before_row w t e)
            (change_row w e.dest e)
            (after_row w t e)
            (record m { queue = cs }))
  unfolding run_row
  execute-Succeeds t m c cs mem safe q h =
      rw lib.execute_order (AllRows-mem (transitions-KeepsSafe w) mem m c cs safe q h)

  refused :
      (m : Machine) (c : Call) (cs : List Call)
      → is_eligible c m source_order_aborted ≡ false
      → IsSafe m
      → m.queue ≡ c ∷ cs
      → Processed (c ∷ cs) (lib.refuse (any (is_valid c m) transitions) (record m { queue = cs }))
  refused m c cs n safe q = elim (Bool-cases (any (is_valid c m) transitions)) [
    | inl valid ↦ rw (valid, lib.refuse_valid) (drop-IsSafe m c cs n safe q)
    | inr invalid ↦ rw (invalid, lib.refuse_invalid) (no_row m c cs safe q invalid)
  ]

  selected :
      (m : Machine) (c : Call) (cs : List Call) (o : Option Transition)
      → lib.select (is_eligible c m) transitions ≡ o
      → IsSafe m
      → m.queue ≡ c ∷ cs
      → Processed (c ∷ cs) (process_selected w lib o c (record m { queue = cs }))
  unfolding is_valid
  selected m c cs none e safe q =
      refused m c cs
        (lib.select_none (is_eligible c m) transitions source_order_aborted e
          source_order_aborted-mem)
        safe q
  selected m c cs (some t) e safe q =
      let (eligible, mem) = lib.select_eligible (is_eligible c m) transitions t e in
      Processed-of_Succeeds c cs _ (execute-Succeeds t m c cs mem safe q eligible)

  queued :
      (m : Machine) (cs : List Call)
      → IsSafe m
      → m.queue ≡ cs
      → Processed cs (process_queue w lib cs m)
  queued m [] safe q = safe
  queued m (c ∷ cs) safe q = selected m c cs (lib.select (is_eligible c m) transitions) refl safe q

  -- In a machine that satisfies the invariant the next trigger is processed to a machine that
  -- satisfies it, or an update raises an AttributeError, or news of a mission a MachineError.
  pub process_next-Processed : (m : Machine) → IsSafe m → Processed m.queue (process_next w lib m)
  unfolding process_next
  process_next-Processed m safe = queued m m.queue safe refl

-- The machines that the program reaches: it starts a fresh machine, which processes the trigger
-- `start_fresh_machine`; triggers are processed one after the other, an exception leaves the
-- machine with an empty queue, and while no trigger waits something may come from outside.
pub data Reach (w : Clock) (lib : Library) (config : RobotConfig) (battery : ℕ)
    : Machine → Type 0 where
  fresh :
      Reach w lib config battery
        (post (call Trigger.start_fresh_machine) (new_machine w config battery State.idle))
  processes :
      {m m' : Machine}
      → Reach w lib config battery m
      → process_next w lib m ≡ ok m'
      → Reach w lib config battery m'
  raises :
      {m : Machine} (e : Error)
      → Reach w lib config battery m
      → process_next w lib m ≡ err e
      → Reach w lib config battery (left_by w lib e m)
  receives :
      {m : Machine} (s : Stimulus)
      → Reach w lib config battery m
      → m.queue ≡ []
      → Reach w lib config battery (receive s m)

fresh-IsSafe :
    (w : Clock) (config : RobotConfig) (battery : ℕ)
    → IsSafe (post (call Trigger.start_fresh_machine) (new_machine w config battery State.idle))
unfolding new_machine
fresh-IsSafe w config battery = ground arith

-- A machine whose first trigger does not end its order stays safe if its queue is cleared.
cleared-IsSafe :
    (m : Machine)
    → IsSafe m
    → starts_with is_aborted m.queue ≡ false
    → IsSafe (record m { queue = [] })
cleared-IsSafe m safe h = record {
  short = tt;
  quiet = λ e. cc;
  at_source = λ e. elim (safe.at_source e) [ inl y ↦ inl y | inr q ↦ absurd (aborts m.queue q h) ];
  accepted = refl;
  with_task = safe.with_task;
  at_target = λ e. elim (safe.at_target e) [ inl y ↦ inl y | inr (a, c) ↦ inr (a, refl) ];
  with_order = safe.with_order;
}
  where
    aborts :
        (q : List Call)
        → q ≡ call Trigger.warehouseorder_aborted ∷ []
        → starts_with is_aborted q ≡ false
        → ⊥
    aborts q e k = cc (e, k)

no_abort :
    (p : Trigger → Bool) (q : List Call)
    → ((t : Trigger) → p t ≡ true → is_aborted t ≡ false)
    → starts_with p q ≡ true
    → starts_with is_aborted q ≡ false
no_abort p [] f h = refl
no_abort p (c ∷ cs) f h = f c.trigger h

is_update-not_aborted : (t : Trigger) → is_update t ≡ true → is_aborted t ≡ false
is_update-not_aborted Trigger.warehouseorder_aborted h = cc
is_update-not_aborted _ h = refl

is_mission_event-not_aborted : (t : Trigger) → is_mission_event t ≡ true → is_aborted t ≡ false
is_mission_event-not_aborted Trigger.warehouseorder_aborted h = cc
is_mission_event-not_aborted _ h = refl

left_by-IsSafe :
    (w : Clock) (lib : Library) (e : Error) (m : Machine)
    → IsSafe m
    → Processed m.queue (err e)
    → IsSafe (left_by w lib e m)
unfolding run_before_state_change
left_by-IsSafe w lib machine_error m safe h =
    rw lib.give_up_clears
      (cleared-IsSafe m safe (no_abort is_mission_event m.queue is_mission_event-not_aborted h))
left_by-IsSafe w lib attribute_error m safe h =
    let kept : IsSafe (record m { queue = [] }) =
      cleared-IsSafe m safe (no_abort is_update m.queue is_update-not_aborted h) in
    rw lib.give_up_clears (record {
      short = tt;
      quiet = λ e. cc;
      at_source = kept.at_source;
      accepted = refl;
      with_task = kept.with_task;
      at_target = kept.at_target;
      with_order = kept.with_order;
    })
left_by-IsSafe w lib type_error m safe h = absurd h
left_by-IsSafe w lib key_error m safe h = absurd h

-- Every machine that the program reaches from a fresh start satisfies the invariant: by processing
-- triggers, by exceptions, after which it goes on with the machine that is left, and by whatever
-- arrives from outside while no trigger waits.
pub Reach-IsSafe :
    (w : Clock) (lib : Library) (config : RobotConfig) (battery : ℕ) {m : Machine}
    → Reach w lib config battery m
    → IsSafe m
Reach-IsSafe w lib config battery fresh = fresh-IsSafe w config battery
Reach-IsSafe w lib config battery (processes {m = m} r e) =
    subst (Processed m.queue) e
      (process_next-Processed w lib m (Reach-IsSafe w lib config battery r))
Reach-IsSafe w lib config battery (raises {m = m} x r e) =
    let safe : IsSafe m = Reach-IsSafe w lib config battery r in
    left_by-IsSafe w lib x m safe
      (subst (Processed m.queue) e (process_next-Processed w lib m safe))
Reach-IsSafe w lib config battery (receives {m = m} s r q) =
    receive-IsSafe s m q (Reach-IsSafe w lib config battery r)
