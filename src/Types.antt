-- ===== src/Types.antt =====
-- The data classes of python-modules/robcoewmtypes/robcoewmtypes: warehouse orders and tasks with
-- their confirmations (warehouseorder.py), and the robot's configuration (robot.py). The
-- converters and validators of the classes run when an object is built and are not modelled;
-- decimal values (weights, battery percentages) are numbers in a fixed unit, thousandths.
use ewm_cloud_robotics.Prelude.{ℕ, String, Bool, true, false, ◌&&◌, List, [], ◌∷◌, str_eq, ◌==◌}

pub record WarehouseTask : Type 0 where
  pub lgnum : String
  pub tanum : String
  pub procty : String
  pub flghuto : Bool
  pub tostat : String
  pub priority : ℕ
  pub weight : ℕ
  pub unitw : String
  pub volum : ℕ
  pub unitv : String
  pub vltyp : String
  pub vlber : String
  pub vlpla : String
  pub vlenr : String
  pub nltyp : String
  pub nlber : String
  pub nlpla : String
  pub nlenr : String
  pub who : String

pub record WarehouseOrder : Type 0 where
  pub lgnum : String
  pub who : String
  pub status : String
  pub areawho : String
  pub lgtyp : String
  pub lgpla : String
  pub queue : String
  pub rsrc : String
  pub lsd : ℕ
  pub topwhoid : String
  pub refwhoid : String
  pub flgwho : Bool
  pub flgto : Bool
  pub warehousetasks : List WarehouseTask

-- The named tuple by which the queues are keyed.
pub record WhoIdentifier : Type 0 where
  pub lgnum : String
  pub who : String

pub data ConfirmationNumber : Type 0 where
  first_conf second_conf : ConfirmationNumber

pub data ConfirmationType : Type 0 where
  conf_success conf_error : ConfirmationType

pub record ConfirmWarehouseTask : Type 0 where
  pub lgnum : String
  pub tanum : String
  pub confirmationnumber : ConfirmationNumber
  pub confirmationtype : ConfirmationType
  pub confirmationdate : String
  pub who : String
  pub rsrc : String

pub data OrderStatus : Type 0 where
  running processed : OrderStatus

pub record WarehouseOrderCrdSpec : Type 0 where
  pub data' : WarehouseOrder
  pub order_status : OrderStatus
  pub process_status : List ConfirmWarehouseTask
  pub sequence : ℕ

-- The `mode` of a robot's configuration.
pub data Mode : Type 0 where
  run idle charge stop : Mode

abbrev pub is_run : Mode → Bool
is_run run = true
is_run _ = false

-- `conf`, the spec of the robot's configuration.
pub record RobotConfigurationSpec : Type 0 where
  pub lgnum : String
  pub rsrctype : String
  pub rsrcgrp : String
  pub battery_min : ℕ
  pub battery_ok : ℕ
  pub battery_idle : ℕ
  pub max_idle_time : ℕ
  pub recover_from_robot_error : Bool
  pub mode : Mode
  pub chargers : List String

flag_eq : Bool → Bool → Bool
flag_eq true b = b
flag_eq false true = false
flag_eq false false = true

-- Two tasks are equal if all attributes are.
pub task_eq : WarehouseTask → WarehouseTask → Bool
unfolding flag_eq
task_eq a b =
    str_eq a.lgnum b.lgnum
    && str_eq a.tanum b.tanum
    && str_eq a.procty b.procty
    && flag_eq a.flghuto b.flghuto
    && str_eq a.tostat b.tostat
    && a.priority == b.priority
    && a.weight == b.weight
    && str_eq a.unitw b.unitw
    && a.volum == b.volum
    && str_eq a.unitv b.unitv
    && str_eq a.vltyp b.vltyp
    && str_eq a.vlber b.vlber
    && str_eq a.vlpla b.vlpla
    && str_eq a.vlenr b.vlenr
    && str_eq a.nltyp b.nltyp
    && str_eq a.nlber b.nlber
    && str_eq a.nlpla b.nlpla
    && str_eq a.nlenr b.nlenr
    && str_eq a.who b.who

tasks_eq : List WarehouseTask → List WarehouseTask → Bool
unfolding task_eq
tasks_eq [] [] = true
tasks_eq (a ∷ as') (b ∷ bs) = task_eq a b && tasks_eq as' bs
tasks_eq _ _ = false

-- Two warehouse orders are equal if all attributes are, the tasks in their order.
unfoldable pub who_eq : WarehouseOrder → WarehouseOrder → Bool
unfolding tasks_eq
who_eq a b =
    str_eq a.lgnum b.lgnum
    && str_eq a.who b.who
    && str_eq a.status b.status
    && str_eq a.areawho b.areawho
    && str_eq a.lgtyp b.lgtyp
    && str_eq a.lgpla b.lgpla
    && str_eq a.queue b.queue
    && str_eq a.rsrc b.rsrc
    && a.lsd == b.lsd
    && str_eq a.topwhoid b.topwhoid
    && str_eq a.refwhoid b.refwhoid
    && flag_eq a.flgwho b.flgwho
    && flag_eq a.flgto b.flgto
    && tasks_eq a.warehousetasks b.warehousetasks

unfoldable pub ident_eq : WhoIdentifier → WhoIdentifier → Bool
ident_eq a b = str_eq a.lgnum b.lgnum && str_eq a.who b.who
