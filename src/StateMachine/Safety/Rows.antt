-- ===== src/StateMachine/Safety/Rows.antt =====
-- Each row of the table keeps the invariant: one proof for a row, in the order of the table.
use ewm_cloud_robotics.Prelude.{
  ◌≡◌, refl, true, false, not, Bool, Option, none, some, List, [], ◌∷◌, any, is_empty, str_eq,
  Result, ok, err, type_error, attribute_error, machine_error, key_error, ◌>>=◌, arith,
}
use ewm_cloud_robotics.Types.{WarehouseTask, WarehouseOrder}
use ewm_cloud_robotics.StateMachine.Config.{State, Trigger}
use ewm_cloud_robotics.StateMachine.Table.{
  order_updated, source_order_aborted, source_task_invalid, get_trolley_given_up, order_completed,
  order_confirmed_in_recovery, mission_commands, staging_transitions, charging_transitions,
  start_transitions, move_trolley_failures, move_trolley_progress, pick_pack_pass_failures,
  pick_pack_pass_progress, transitions,
}
use ewm_cloud_robotics.StateMachine.Machine.{Clock, Call, Event, Machine}
use ewm_cloud_robotics.StateMachine.Guards.{more_tasks, is_eligible}
use ewm_cloud_robotics.StateMachine.Callbacks.{
  without_tanum, close_task, update_who, run_before_state_change, run_after_state_change,
}
use ewm_cloud_robotics.StateMachine.Entry.{on_enter, on_enter_idle}
use ewm_cloud_robotics.StateMachine.Process.{event_of, before_row, run_row}
use ewm_cloud_robotics.StateMachine.Safety.{
  IsSafe, Succeeds, KeepsSafe, AllRows, nil, ◌&◌, AllRows-append,
}
use ewm_cloud_robotics.StateMachine.Safety.Update.{update_who-Succeeds, finish_update}

abbrev has_tasks : Option WarehouseOrder → Bool
has_tasks none = false
has_tasks (some who) = not (is_empty who.warehousetasks)

without_tanum-nonempty :
    (a : WarehouseTask) (ts : List WarehouseTask)
    → any (λ t. not (str_eq t.tanum a.tanum)) ts ≡ true
    → is_empty (without_tanum a ts) ≡ false
unfolding without_tanum
without_tanum-nonempty a [] h = cc
without_tanum-nonempty a (t ∷ ts) h = ground (arith, without_tanum-nonempty a ts)

nonempty_of_any :
    (p : WarehouseTask → Bool) (ts : List WarehouseTask) → any p ts ≡ true → is_empty ts ≡ false
nonempty_of_any p [] h = cc
nonempty_of_any p (t ∷ ts) h = refl

-- An order with a task besides the active one still has tasks when the active one is closed.
close_task-has_tasks :
    (who : Option WarehouseOrder) (wht : Option WarehouseTask)
    → more_tasks who wht ≡ true
    → has_tasks (close_task wht who) ≡ true
unfolding close_task
close_task-has_tasks none wht h = cc
close_task-has_tasks (some who) none h =
    ground (arith, nonempty_of_any (λ t. not (str_eq t.tanum "")) who.warehousetasks)
close_task-has_tasks (some who) (some a) h =
    ground (arith, without_tanum-nonempty a who.warehousetasks)

-- The robot becomes idle with no trigger left in the queue, after whatever the row has done.
finish_idle :
    (w : Clock) (e : Event) (r : Result Machine)
    → e.dest ≡ some State.idle
    → Succeeds e.cause.trigger (λ m. m.queue ≡ []) r
    → Succeeds e.cause.trigger IsSafe (
        (r >>= λ m. on_enter State.idle e (record m { state = State.idle })) >>= λ m'.
        ok (run_after_state_change w e m'))
unfolding on_enter on_enter_idle run_after_state_change
finish_idle w e (ok m) d h = ground arith
finish_idle w e (err attribute_error) d h = h
finish_idle w e (err type_error) d h = elim h [ ]
finish_idle w e (err machine_error) d h = elim h [ ]
finish_idle w e (err key_error) d h = elim h [ ]

order_updated-queue :
    (m : Machine) (c : Call) (cs : List Call)
    → IsSafe m
    → m.queue ≡ c ∷ cs
    → is_eligible c m order_updated ≡ true
    → (c.trigger ≡ Trigger.update_warehouseorder) × (cs ≡ [])
unfolding is_eligible
order_updated-queue m c cs safe q h = ground arith

before-IsSafe :
    (w : Clock) (m : Machine) (c : Call)
    → IsSafe m
    → m.queue ≡ c ∷ []
    → c.trigger ≡ Trigger.update_warehouseorder
    → IsSafe (run_before_state_change w (record m { queue = [] }))
unfolding run_before_state_change
before-IsSafe w m c safe q t = ground arith

order_updated-KeepsSafe : (w : Clock) → KeepsSafe w order_updated
unfolding run_row
order_updated-KeepsSafe w m c [] safe q h =
    let (t, _) = order_updated-queue m c [] safe q h in
    let m' = run_before_state_change w (record m { queue = [] }) in
    finish_update w (event_of c m.state order_updated) (update_who c m')
      (update_who-Succeeds c m' t refl (before-IsSafe w m c safe q t))
order_updated-KeepsSafe w m c (d ∷ ds) safe q h =
    absurd (ground (arith, order_updated-queue m c (d ∷ ds) safe q h))

source_order_aborted-KeepsSafe : (w : Clock) → KeepsSafe w source_order_aborted
unfolding is_eligible run_row
source_order_aborted-KeepsSafe w m c cs safe q h =
    let e = event_of c m.state source_order_aborted in
    finish_idle w e (before_row w source_order_aborted e (record m { queue = cs })) refl
      (ground arith)

source_task_invalid-KeepsSafe : (w : Clock) → KeepsSafe w source_task_invalid
unfolding is_eligible run_row
source_task_invalid-KeepsSafe w m c cs safe q h =
    let e = event_of c m.state source_task_invalid in
    finish_idle w e (before_row w source_task_invalid e (record m { queue = cs })) refl
      (ground arith)

get_trolley_given_up-KeepsSafe : (w : Clock) → KeepsSafe w get_trolley_given_up
unfolding is_eligible run_row
get_trolley_given_up-KeepsSafe w m c cs safe q h =
    let e = event_of c m.state get_trolley_given_up in
    finish_idle w e (before_row w get_trolley_given_up e (record m { queue = cs })) refl
      (ground arith)

order_completed-KeepsSafe : (w : Clock) → KeepsSafe w order_completed
unfolding is_eligible run_row
order_completed-KeepsSafe w m c cs safe q h =
    let e = event_of c m.state order_completed in
    finish_idle w e (before_row w order_completed e (record m { queue = cs })) refl (ground arith)

order_confirmed_in_recovery-KeepsSafe : (w : Clock) → KeepsSafe w order_confirmed_in_recovery
unfolding is_eligible run_row
order_confirmed_in_recovery-KeepsSafe w m c cs safe q h =
    let e = event_of c m.state order_confirmed_in_recovery in
    finish_idle w e (before_row w order_confirmed_in_recovery e (record m { queue = cs })) refl
      (ground arith)

mission_commands-KeepsSafe : (w : Clock) → AllRows (KeepsSafe w) mission_commands
unfolding is_eligible run_row on_enter_idle
mission_commands-KeepsSafe w =
    ground arith
    & order_updated-KeepsSafe w
    & ground arith
    & ground arith
    & ground arith
    & ground arith
    & ground arith
    & ground arith
    & nil

staging_transitions-KeepsSafe : (w : Clock) → AllRows (KeepsSafe w) staging_transitions
unfolding is_eligible run_row on_enter_idle
staging_transitions-KeepsSafe w =
    ground arith & ground arith & ground arith & ground arith & ground arith & ground arith & nil

charging_transitions-KeepsSafe : (w : Clock) → AllRows (KeepsSafe w) charging_transitions
unfolding is_eligible run_row on_enter_idle
charging_transitions-KeepsSafe w =
    ground arith
    & ground arith
    & ground arith
    & ground arith
    & ground arith
    & ground arith
    & ground arith
    & ground arith
    & ground arith
    & nil

start_transitions-KeepsSafe : (w : Clock) → AllRows (KeepsSafe w) start_transitions
unfolding is_eligible run_row on_enter_idle
start_transitions-KeepsSafe w = ground arith & ground arith & nil

move_trolley_failures-KeepsSafe : (w : Clock) → AllRows (KeepsSafe w) move_trolley_failures
unfolding is_eligible run_row on_enter_idle
move_trolley_failures-KeepsSafe w =
    source_order_aborted-KeepsSafe w
    & source_task_invalid-KeepsSafe w
    & ground arith
    & ground arith
    & get_trolley_given_up-KeepsSafe w
    & ground arith
    & nil

move_trolley_progress-KeepsSafe : (w : Clock) → AllRows (KeepsSafe w) move_trolley_progress
unfolding is_eligible run_row on_enter_idle
move_trolley_progress-KeepsSafe w =
    ground arith
    & ground arith
    & ground arith
    & ground arith
    & ground arith
    & ground arith
    & ground arith
    & order_completed-KeepsSafe w
    & order_confirmed_in_recovery-KeepsSafe w
    & nil

pick_pack_pass_failures-KeepsSafe : (w : Clock) → AllRows (KeepsSafe w) pick_pack_pass_failures
unfolding is_eligible run_row on_enter_idle
pick_pack_pass_failures-KeepsSafe w =
    ground arith
    & ground arith
    & ground arith
    & ground arith
    & ground arith
    & ground arith
    & ground arith
    & ground arith
    & nil

pick_pack_pass_progress-KeepsSafe : (w : Clock) → AllRows (KeepsSafe w) pick_pack_pass_progress
unfolding is_eligible run_row on_enter_idle
pick_pack_pass_progress-KeepsSafe w =
    ground arith
    & ground arith
    & ground arith
    & (λ m c cs safe q e. ground (arith, close_task-has_tasks m.active_who m.active_wht))
    & ground arith
    & ground arith
    & ground arith
    & nil

pub transitions-KeepsSafe : (w : Clock) → AllRows (KeepsSafe w) transitions
transitions-KeepsSafe w = AllRows-append (mission_commands-KeepsSafe w) (
    AllRows-append (staging_transitions-KeepsSafe w) (
      AllRows-append (charging_transitions-KeepsSafe w) (
        AllRows-append (start_transitions-KeepsSafe w) (
          AllRows-append (move_trolley_failures-KeepsSafe w) (
            AllRows-append (move_trolley_progress-KeepsSafe w) (
              AllRows-append (pick_pack_pass_failures-KeepsSafe w)
                (pick_pack_pass_progress-KeepsSafe w)))))))
