-- ===== src/StateMachine/Connecting.antt =====
-- A state machine that is connected and disconnected: the theorem at a concrete robot.
use ewm_cloud_robotics.Prelude.{[]}
use ewm_cloud_robotics.CrHandler.Callbacks.{
  Callbacks, Registration, registered, value_error, get_callback_dict,
}
use ewm_cloud_robotics.StateMachine.Connect.{EventMethod, CrHandlers, connect_external_events}

abbrev nothing : Callbacks EventMethod
nothing = record { callbacks = get_callback_dict; robot_callbacks = [] }

abbrev handlers : CrHandlers
handlers = record {
  robot_handler = nothing;
  order_handler = nothing;
  mission_handler = nothing;
  config_handler = nothing;
}

abbrev handlers_of : Registration CrHandlers → CrHandlers
handlers_of (registered h) = h
handlers_of value_error = handlers

abbrev connected : CrHandlers
connected = handlers_of (connect_external_events "robot-1" handlers)
