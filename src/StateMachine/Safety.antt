-- ===== src/StateMachine/Safety.antt =====
-- The invariant of the machine between two triggers, and what a row owes to it.
mod Update
pub mod Rows
pub mod Reach
use ewm_cloud_robotics.Prelude.{
  ◌≡◌, ◌⊎◌, Bool, true, false, not, ◌&&◌, List, [], ◌∷◌, ◌++◌, Memᴰ, sym, subst, any, every,
  is_some, attribute_error, ◌||◌, Result, ok, err,
}
use ewm_cloud_robotics.StateMachine.Config.{State, Trigger, Transition}
use ewm_cloud_robotics.StateMachine.Accepts.{accepts}
use ewm_cloud_robotics.StateMachine.Machine.{Clock, Call, call, Machine}
use ewm_cloud_robotics.StateMachine.Guards.{is_eligible}
use ewm_cloud_robotics.StateMachine.Process.{run_row, event_of}

-- States in which a task is under way.
abbrev pub carries_task : State → Bool
carries_task State.move_trolley_loading_trolley = true
carries_task State.move_trolley_unloading_trolley = true
carries_task State.move_trolley_moving_to_target_bin = true
carries_task State.move_trolley_waiting_for_error_recovery = true
carries_task _ = false

-- States that are left for one that works on the active order, and those that do so.
abbrev pub carries_order : State → Bool
carries_order State.move_trolley_moving_to_source_bin = true
carries_order State.move_trolley_loading_trolley = true
carries_order State.pick_pack_pass_moving_to_target_location = true
carries_order _ = false

-- At most one trigger waits, but for a cancellation before it.
abbrev pub IsShort : List Call → Type 0
IsShort [] = Unit
IsShort (c ∷ []) = Unit
IsShort (c ∷ d ∷ []) = c.trigger ≡ Trigger.cancel_active_mission
IsShort (c ∷ d ∷ x ∷ cs) = ⊥

-- Triggers that neither start a mission nor end one in failure.
abbrev pub is_calm : Trigger → Bool
is_calm Trigger.mission_failed = false
is_calm Trigger.invalid_warehousetask = false
is_calm Trigger.create_move_mission = false
is_calm Trigger.create_charge_mission = false
is_calm Trigger.create_staging_mission = false
is_calm Trigger.create_get_trolley_mission = false
is_calm Trigger.create_return_trolley_mission = false
is_calm _ = true

abbrev pub is_mission_failed : Trigger → Bool
is_mission_failed Trigger.mission_failed = true
is_mission_failed _ = false

-- Triggers by which the machine learns of its mission. They come from outside at any time.
abbrev pub is_mission_event : Trigger → Bool
is_mission_event Trigger.mission_docking = true
is_mission_event Trigger.mission_succeeded = true
is_mission_event Trigger.mission_failed = true
is_mission_event _ = false

-- `short`: what waits. `quiet`: a mission that failed is no longer active. `accepted`: a trigger
-- that waits is accepted in the present state, unless it tells of the mission. The others: the
-- order and the task that the state works on are there.
pub record IsSafe (m : Machine) : Type 0 where
  pub short : IsShort m.queue
  pub quiet : any (λ c. is_mission_failed c.trigger) m.queue ≡ true → m.active_mission ≡ ""
  pub at_source :
      m.state ≡ State.move_trolley_moving_to_source_bin
      → (is_some m.active_wht ≡ true) ⊎ (m.queue ≡ call Trigger.warehouseorder_aborted ∷ [])
  pub accepted : every (λ c. is_mission_event c.trigger || accepts m.state c.trigger) m.queue ≡ true
  pub with_task : carries_task m.state ≡ true → is_some m.active_wht ≡ true
  pub at_target :
      m.state ≡ State.pick_pack_pass_moving_to_target_location
      → (is_some m.active_wht ≡ true)
        ⊎ (m.active_mission ≡ "") × (every (λ c. is_calm c.trigger) m.queue ≡ true)
  pub with_order : carries_order m.state ≡ true → is_some m.active_who ≡ true

-- A machine that comes out satisfies `P`. The only exception is an AttributeError, and only an
-- update raises it.
abbrev pub Succeeds : Trigger → (Machine → Type 0) → Result Machine → Type 0
Succeeds t P (ok m) = P m
Succeeds t P (err attribute_error) = t ≡ Trigger.update_warehouseorder
Succeeds t P (err _) = ⊥

-- The row, run on the trigger at the head of the queue, keeps the invariant.
abbrev pub KeepsSafe : Clock → Transition → Type 0
KeepsSafe w t =
    (m : Machine) (c : Call) (cs : List Call)
    → IsSafe m
    → m.queue ≡ c ∷ cs
    → is_eligible c m t ≡ true
    → Succeeds c.trigger IsSafe (run_row w t (event_of c m.state t) (record m { queue = cs }))

-- Every row of a part of the table keeps the invariant.
infixr 20 ◌&◌
pub data AllRows (P : Transition → Type 0) : List Transition → Type 0 where
  nil : AllRows P []
  ◌&◌ : {t : Transition} {ts : List Transition} → P t → AllRows P ts → AllRows P (t ∷ ts)

pub AllRows-append :
    {P : Transition → Type 0} {ts us : List Transition}
    → AllRows P ts
    → AllRows P us
    → AllRows P (ts ++ us)
AllRows-append nil qs = qs
AllRows-append (p & ps) qs = p & AllRows-append ps qs

pub AllRows-mem :
    {P : Transition → Type 0} {t : Transition} {ts : List Transition}
    → AllRows P ts
    → Memᴰ t ts
    → P t
AllRows-mem {P} (p & ps) (Memᴰ.head e) = subst P (sym e) p
AllRows-mem (p & ps) (Memᴰ.tail h) = AllRows-mem ps h
AllRows-mem nil h = elim h [ ]
