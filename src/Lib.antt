-- ===== src/Lib.antt =====
-- The core of EWM cloud robotics: the state machine that a robot controller runs for one robot, the
-- order manager between EWM and the robots, and the handler of custom resources that both use.
--
-- A warehouse order reaches a robot as a custom resource. The robot controller watches these
-- resources, the mission of its robot, the status of the robot and its configuration, and turns each
-- change into a trigger of a state machine. Triggers wait in a queue and are processed one after the
-- other. A trigger takes the first row of a table that fits the state and whose conditions hold: it
-- runs the callbacks of the row, changes the state and enters the next one, which may trigger more.
-- The callbacks start and cancel missions, confirm warehouse tasks and keep the orders of the robot.
--
-- The order manager creates the resources that the robot controller watches, closes them when EWM has
-- the confirmations of their tasks, and deletes the oldest of the closed ones. It requests orders for
-- robots that wait, takes them from robots that cannot work, and reserves orders for auctions.
--
-- Files, and the code they are about (all of it under python-modules):
--   Types.antt                 robcoewmtypes/robcoewmtypes/warehouseorder.py and robot.py
--   StateMachine/Config.antt   states, triggers and state lists of robcoewmtypes/statemachine_config.py
--   StateMachine/Table.antt    its transition table, row by row and in its order
--   the rest of StateMachine   robcoewmrobotcontroller/robcoewmrobotcontroller/statemachine.py:
--     Machine                  the attributes of RobotEWMMachine, the queue of orders and its order
--     Guards                   the methods named as conditions, and which rows fit a trigger
--     Callbacks                the methods named in before and after, with the parts Confirmations,
--                              Orders (update, save and close orders) and Times (logs and status)
--     Entry                    the methods on_enter_STATE and _decide_whats_next
--     Process                  how one trigger of the queue is processed
--     Handlers                 mission_cb, robot_cb, cfg_recover_cb, cfg_idle_charge_states_cb,
--                              warehouseorder_cb, warehouseorder_deleted_cb, check_awaited_..., timeouts
--     Connect                  connect_external_events and disconnect_external_events
--     Restore                  EWMRobot of robot.py: the start from the status that was saved
--   Accepts, Prefixes, Sorting, Decision, Safety, Resumed hold proofs, Scenarios and Connecting runs
--   and concrete cases.
--   RobotController            robcoewmrobotcontroller/robcoewmrobotcontroller:
--     Chargers, Missions,
--     Commands                 MissionController of missioncontroller.py
--     Orders                   OrderHandler of ordercontroller.py
--     Trimmed, Kept, Turns, Confirmed hold proofs, Scenarios runs and concrete cases.
--   OrderManager               robcoewmordermanager/robcoewmordermanager:
--     Controller, Orders       OrderController of ordercontroller.py
--     Memory                   ProcessedMessageMemory of helper.py, with the proofs about it
--     Confirmations            _get_who_confirmations of manager.py, with the proofs about it
--     Manager                  confirm_warehousetask and cleanup_who of manager.py
--     Work                     get_robot_whos and get_and_send_robot_whos of manager.py, and how it
--                              processes one confirmation
--     WhoCr                    process_who_cr and process_who_cr_cb of manager.py
--     Reservations             robcoewmtypes/robcoewmtypes/auction.py (Types),
--                              OrderReservationController of orderreservationcontroller.py (Open),
--                              _process_orderres_cr_... and orderreservation_cb of manager.py
--                              (Processing, Assigning)
--     Auctions                 AuctioneerController of auctioneercontroller.py, OrderAuctionController
--                              of orderauctioncontroller.py, is_orderauction_running of manager.py
--     RobotConfig              process_robotconfig_cr of manager.py
--     Keys, Fifty, Cleanup, Deletion, Confirmed, Reads, Forgets, Oldest, Once, Ends, Scope, Asks, Taken,
--     Requested and Steps, Fresh, Accounted, Settled of Reservations hold proofs; Scenarios, Confirming,
--     Processing and Reserving runs and concrete cases.
--   CrHandler                  k8scrhandler/k8scrhandler/k8scrhandler.py:
--     Events                   what a list or a watch of the cluster delivers
--     Cache                    the cache of resources and what changes it
--     Loop                     the loop of the watcher thread
--     Callbacks                the registry of callbacks and the order in which they are called
--     Owners, Patches          finalizers, references to owners, and the bodies of requests
--     Mirror, Names, Registered hold proofs, Scenarios runs and concrete cases.
--
-- A method of a class is a function of the same name from a machine to a machine, or to a result
-- whose errors are the exceptions of Python. Calls of the cluster are appended to the list of effects
-- of the machine, the latest first, and are taken to succeed. A mission is named by the time of
-- its creation, as in missioncontroller.py. A dictionary is an association list in the
-- order of its keys. Numbers with decimals are counted in thousandths.
--
-- The package transitions is a parameter, the record Library of StateMachine/Process.antt: which row
-- it selects, the order in which a row is executed, what it does when no row fits, and that it gives
-- up the triggers that wait when an exception is raised, with the documented behaviour as its laws.
-- The program goes on after an exception, with the machine that is left: the handler of resources
-- logs what a callback raises. StateMachine/Reference.antt has a library that takes the first row. The
-- clock is a parameter too, the record Clock of StateMachine/Machine.antt: what the n-th reading
-- gives. The state machine needs no fuel: each trigger is processed by structural recursion on
-- callbacks.
--
-- The handler warehouseorder_cb has two Boolean arguments: whether the spec was processed before, and
-- the precheck of the order, which RobotController/Orders.antt models, with the resources of the
-- cluster apart from the cache of the handler, which only the watcher changes.
--
-- EWM is the parameter Ewm of OrderManager/Manager.antt: what it answers to the requests so far. The
-- time of the order manager is a parameter too, as are lower and upper (the case of a text) and
-- isoparse (a text read as a time). The loop of get_robot_whos appends to the list that it runs over
-- and is the one loop on fuel: each of at most k orders of EWM adds at most k sub orders, which add
-- none, so that (k + 1) * (k + 1) rounds are enough.
--
-- Not modelled: the memory of specs that were processed before, two handlers that run at the same
-- time, threads, their locks and sleeps, requests over HTTP and their failures in the handler of
-- resources, log messages, and that the active order of Python is the same object as an entry of the
-- queue. The mission controllers of robots (dummycontroller, mircontroller, fetchcontroller), the
-- OData interface, the Go services and the ABAP backend are outside.
pub mod Prelude
pub mod Types
pub mod CrHandler
pub mod OrderManager
pub mod RobotController
pub mod StateMachine
