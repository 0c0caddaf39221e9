-- ===== src/StateMachine/Safety/Update.antt =====
-- An update of a warehouse order keeps the invariant. It is processed with nothing else waiting.
use ewm_cloud_robotics.Prelude.{
  ◌≡◌, ◌∙◌, refl, Option, none, some, [], Result, ok, err, type_error, attribute_error,
  machine_error, key_error, ◌>>=◌, arith,
}
use ewm_cloud_robotics.Types.{WarehouseOrder, WarehouseOrderCrdSpec}
use ewm_cloud_robotics.StateMachine.Config.{Trigger}
use ewm_cloud_robotics.StateMachine.Machine.{
  Clock, Argument, missing, order, crd_spec, Call, Event, Machine,
}
use ewm_cloud_robotics.StateMachine.Callbacks.{
  start_on_order, update_active, target_found, enqueue, update_robot_who, update_spec, update_who,
  run_after_state_change,
}
use ewm_cloud_robotics.StateMachine.Safety.{IsSafe, Succeeds}

start_on_order-IsSafe :
    (o : WarehouseOrder) (m : Machine) → m.queue ≡ [] → IsSafe m → IsSafe (start_on_order o m)
unfolding start_on_order
start_on_order-IsSafe o m q h = ground arith

active_who-start_on_order :
    (o : WarehouseOrder) (m : Machine) → (start_on_order o m).active_who ≡ m.active_who
unfolding start_on_order
active_who-start_on_order o m = ground arith

target_found-IsSafe :
    (a : Option WarehouseOrder) (o : WarehouseOrder) (m : Machine)
    → m.queue ≡ []
    → IsSafe m
    → IsSafe (target_found a o m)
unfolding target_found
target_found-IsSafe none o m q h = h
target_found-IsSafe (some a) o m q h = ground arith

target_found-none :
    (a : Option WarehouseOrder) (o : WarehouseOrder) (m : Machine)
    → a ≡ none
    → IsSafe m
    → IsSafe (target_found a o m)
unfolding target_found
target_found-none none o m e h = h
target_found-none (some a) o m e h = cc

enqueue-IsSafe : (spec : WarehouseOrderCrdSpec) (m : Machine) → IsSafe m → IsSafe (enqueue spec m)
unfolding enqueue
enqueue-IsSafe spec m h = ground arith

-- The two stages, for the order that was active before the update.
update_stages-IsSafe :
    (who : Option WarehouseOrder) (o : WarehouseOrder) (m : Machine)
    → m.active_who ≡ who
    → m.queue ≡ []
    → IsSafe m
    → IsSafe (let m' = update_active who o m in target_found m'.active_who o m')
unfolding update_active
update_stages-IsSafe none o m a q h =
    target_found-none (start_on_order o m).active_who o (start_on_order o m)
      (active_who-start_on_order o m ∙ a) (start_on_order-IsSafe o m q h)
update_stages-IsSafe (some old) o m a q h =
    let m' = update_active (some old) o m in
    target_found-IsSafe m'.active_who o m' (ground arith) (ground arith)

pub update_robot_who-IsSafe :
    (spec : WarehouseOrderCrdSpec) (m : Machine)
    → m.queue ≡ []
    → IsSafe m
    → IsSafe (update_robot_who spec m)
unfolding update_robot_who enqueue
update_robot_who-IsSafe spec m q h =
    update_stages-IsSafe m.active_who spec.data' (enqueue spec m) refl q (enqueue-IsSafe spec m h)

update_spec-Succeeds :
    (a : Argument) (m : Machine)
    → m.queue ≡ []
    → IsSafe m
    → Succeeds Trigger.update_warehouseorder IsSafe (update_spec a m)
unfolding update_spec
update_spec-Succeeds missing m q h = refl
update_spec-Succeeds (order o) m q h = refl
update_spec-Succeeds (crd_spec spec) m q h = ground (arith, update_robot_who-IsSafe spec m)

-- What follows the update in its row.
pub finish_update :
    (w : Clock) (e : Event) (r : Result Machine)
    → Succeeds e.cause.trigger IsSafe r
    → Succeeds e.cause.trigger IsSafe
        ((r >>= λ m. ok m) >>= λ m'. ok (run_after_state_change w e m'))
unfolding run_after_state_change
finish_update w e (ok m) h = ground arith
finish_update w e (err attribute_error) h = h
finish_update w e (err type_error) h = elim h [ ]
finish_update w e (err machine_error) h = elim h [ ]
finish_update w e (err key_error) h = elim h [ ]

pub update_who-Succeeds :
    (c : Call) (m : Machine)
    → c.trigger ≡ Trigger.update_warehouseorder
    → m.queue ≡ []
    → IsSafe m
    → Succeeds c.trigger IsSafe (update_who c m)
unfolding update_who
update_who-Succeeds c m t q h = rw t (update_spec-Succeeds c.warehouseorder m q h)
