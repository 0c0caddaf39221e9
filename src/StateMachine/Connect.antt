-- ===== src/StateMachine/Connect.antt =====
-- connect_external_events and disconnect_external_events of statemachine.py: the callbacks of the
-- state machine in the handlers of the four kinds of resources.
use Prim.Native.String.{◌++◌ as concat}
use ewm_cloud_robotics.Prelude.{String, ◌≡◌, some, [], ◌∷◌}
use ewm_cloud_robotics.CrHandler.Events.{added, modified, deleted, reprocess}
use ewm_cloud_robotics.CrHandler.Callbacks.{
  Callbacks, Registration, registered, value_error, register_callback, unregister_callback,
}

-- The methods that are registered.
pub data EventMethod : Type 0 where
  robot_cb warehouseorder_cb warehouseorder_deleted_cb mission_cb : EventMethod
  cfg_recover_cb cfg_idle_charge_states_cb : EventMethod

pub record CrHandlers : Type 0 where
  pub robot_handler : Callbacks EventMethod
  pub order_handler : Callbacks EventMethod
  pub mission_handler : Callbacks EventMethod
  pub config_handler : Callbacks EventMethod

infixl 5 ◌then◌
abbrev ◌then◌ {ℓ κ} :
    {A : Type ℓ} {B : Type κ} → Registration A → (A → Registration B) → Registration B
registered a then f = f a
value_error then f = value_error

abbrev pub name_of : String → String
name_of robot = concat "ewm_statemachine_" robot

abbrev pub old_name_of : String → String
old_name_of robot = concat "ewm-statemachine-" robot

-- The registrations after the one with the robots: orders, missions and configurations.
unfoldable pub connect_others :
    String
    → CrHandlers
    → Registration (Callbacks EventMethod × Callbacks EventMethod × Callbacks EventMethod)
unfolding register_callback
connect_others robot h =
    let name = name_of robot in
    register_callback name (added ∷ modified ∷ reprocess ∷ []) warehouseorder_cb (some robot)
      h.order_handler
    then λ orders.
        register_callback (concat name "_deleted") (deleted ∷ []) warehouseorder_deleted_cb
          (some robot) orders
        then λ orders'.
            register_callback name (modified ∷ deleted ∷ reprocess ∷ []) mission_cb (some robot)
              h.mission_handler
            then λ missions.
                register_callback (concat name "_recover") (added ∷ modified ∷ reprocess ∷ [])
                  cfg_recover_cb (some robot) h.config_handler
                then λ configs.
                    register_callback (concat name "_staging_timeout") (added ∷ modified ∷ [])
                      cfg_idle_charge_states_cb (some robot) configs
                    then λ configs'. registered (orders', missions, configs')

abbrev all_handlers :
    Callbacks EventMethod
    → Callbacks EventMethod × Callbacks EventMethod × Callbacks EventMethod
    → CrHandlers
all_handlers robots (orders, missions, configs) = record {
  robot_handler = robots;
  order_handler = orders;
  mission_handler = missions;
  config_handler = configs;
}

-- An error leaves the program without a machine.
unfoldable pub connect_external_events : String → CrHandlers → Registration CrHandlers
unfolding register_callback connect_others
connect_external_events robot h =
    register_callback (name_of robot) (added ∷ modified ∷ reprocess ∷ []) robot_cb (some robot)
      h.robot_handler
    then λ robots. connect_others robot h then λ others. registered (all_handlers robots others)

unfoldable pub disconnect_external_events : String → CrHandlers → CrHandlers
unfolding unregister_callback
disconnect_external_events robot h =
    let name = old_name_of robot in
    record {
      robot_handler = unregister_callback name (some robot) h.robot_handler;
      order_handler =
          unregister_callback (concat name "_deleted") (some robot)
            (unregister_callback name (some robot) h.order_handler);
      mission_handler = unregister_callback name (some robot) h.mission_handler;
      config_handler = unregister_callback name (some robot) h.config_handler;
    }

-- To connect once more is refused.
abbrev Stays : String → Registration CrHandlers → Type 0
Stays robot (registered h) =
    connect_external_events robot (disconnect_external_events robot h) ≡ value_error
Stays robot value_error = Unit
