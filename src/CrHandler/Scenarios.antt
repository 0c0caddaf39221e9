-- ===== src/CrHandler/Scenarios.antt =====
-- Runs of the handler of custom resources, and the theorems about it at concrete resources.
use ewm_cloud_robotics.Prelude.{
  ℕ, ◌≡◌, refl, String, true, none, some, List, [], ◌∷◌, ◌++◌, if◌then◌else◌, any,
}
use ewm_cloud_robotics.CrHandler.Events.{
  Operation, added, modified, deleted, operation_eq, Resource, event,
}
use ewm_cloud_robotics.CrHandler.Cache.{
  get_cr, Watcher, ListResponse, cache_of, refresh_custom_resource_cache, init_watcher,
  watch_on_crs, set_cr,
}
use ewm_cloud_robotics.CrHandler.Mirror.{
  Cluster, replay, stream, view, listed, refresh-converges, init_watcher-mirrors,
}
use ewm_cloud_robotics.CrHandler.Loop.{closed, api_gone, watch_round, watch_round-recovers}
use ewm_cloud_robotics.CrHandler.Callbacks.{
  Callbacks, get_callback_dict, register_callback, unregister_callback, callbacks_for, values,
  robot_values, robot_dict, label_or_empty,
}
use ewm_cloud_robotics.CrHandler.Registered.{
  Answers, is_refused, unregister_callback-register_callback, callbacks_for-register_callback,
}
use ewm_cloud_robotics.CrHandler.Owners.{
  Owner, set_controller_reference, controllers, is_controlled, add_finalizer, remove_finalizer,
  set_controller_reference_once, remove_finalizer-add_finalizer,
}

abbrev order : String → ℕ → Resource ℕ
order name n = record {
  name = name;
  resource_version = some "7";
  robot = some "robot-1";
  finalizers = [];
  body = n;
}

abbrev watcher : Watcher ℕ
watcher = record { cr_cache = []; resv_watcher = "5"; submitted = []; thread_run = true }

abbrev response : ListResponse ℕ
response = record { items = some (order "a" 1) ∷ []; version = some "6" }

abbrev changes : List (Operation × Resource ℕ)
changes = (modified, order "a" 2) ∷ (deleted, order "a" 2) ∷ []

abbrev cluster : Cluster ℕ
cluster = listed response

abbrev empty : Cluster ℕ
empty x = none

-- A list that is ahead of the first event of the stream.
ahead : listed response ≡ replay ((added, order "a" 1) ∷ []) empty
unfolding cache_of set_cr get_cr
ahead = refl

refresh-converges_example :
    view (
      watch_on_crs
        (stream ((added, order "a" 1) ∷ (modified, order "a" 2) ∷ []))
        (refresh_custom_resource_cache response watcher))
    ≡ replay ((added, order "a" 1) ∷ (modified, order "a" 2) ∷ []) empty
refresh-converges_example =
    refresh-converges ((added, order "a" 1) ∷ []) ((modified, order "a" 2) ∷ []) empty response
      watcher refl ahead

init_watcher-mirrors_example :
    view (watch_on_crs (stream changes) (init_watcher response watcher)) ≡ replay changes cluster
init_watcher-mirrors_example = init_watcher-mirrors changes cluster response watcher refl refl

watch_round-recovers_example :
    view (
      watch_round response
        (stream changes)
        closed
        (watch_round response (event added (order "b" 3) ∷ []) (api_gone none) watcher))
    ≡ replay changes cluster
watch_round-recovers_example =
    watch_round-recovers response (event added (order "b" 3) ∷ []) (api_gone none) watcher changes
      cluster response refl refl refl refl

abbrev no_callbacks : Callbacks ℕ
no_callbacks = record { callbacks = get_callback_dict; robot_callbacks = [] }

unregister_callback-register_callback_example :
    Answers
      (is_refused "cb" (added ∷ []) (some "robot-1") no_callbacks)
      (λ h.
        callbacks_for added (some "robot-1") (unregister_callback "cb" (some "robot-1") h)
        ≡ callbacks_for added (some "robot-1") no_callbacks)
      (register_callback "cb" (added ∷ []) 4 (some "robot-1") no_callbacks)
unregister_callback-register_callback_example =
    unregister_callback-register_callback "cb" (added ∷ []) 4 (some "robot-1") no_callbacks added
      (some "robot-1") refl

callbacks_for-register_callback_example :
    Answers
      (is_refused "cb" (added ∷ []) none no_callbacks)
      (λ h.
        callbacks_for added none h
        ≡ (if any (λ p. operation_eq p added) (added ∷ [])
            then values (no_callbacks.callbacks added) ++ (4 ∷ [])
            else values (no_callbacks.callbacks added))
          ++ robot_values added (robot_dict (label_or_empty none) no_callbacks.robot_callbacks))
      (register_callback "cb" (added ∷ []) 4 none no_callbacks)
callbacks_for-register_callback_example =
    callbacks_for-register_callback "cb" (added ∷ []) 4 no_callbacks added none refl

abbrev owner : String → Owner
owner uid = record { api_version = "v1"; kind = "Auctioneer"; name = "auctioneer"; uid = uid }

set_controller_reference_once_example :
    (set_controller_reference (set_controller_reference [] (owner "1")) (owner "2")
      ≡ set_controller_reference [] (owner "1"))
    × (controllers (set_controller_reference [] (owner "1"))
        ≡ (if is_controlled [] then controllers [] else 1))
set_controller_reference_once_example = set_controller_reference_once [] (owner "1") (owner "2")

one_finalizer : add_finalizer "a" "f" (order "a" 1 ∷ []) ≡ some ("f" ∷ [])
unfolding add_finalizer
one_finalizer = refl

remove_finalizer-add_finalizer_example :
    remove_finalizer "a" "f"
      (record (order "a" 1) { finalizers = "f" ∷ []; name = "a" } ∷ order "a" 1 ∷ [])
    ≡ some []
unfolding get_cr
remove_finalizer-add_finalizer_example =
    remove_finalizer-add_finalizer "a" "f" ("f" ∷ []) (order "a" 1) (order "a" 1 ∷ []) refl refl
      one_finalizer
