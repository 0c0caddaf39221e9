-- ===== src/OrderManager/Reservations/Types.antt =====
-- Order reservations (robcoewmtypes/auction.py) and the state that the order manager needs to
-- process them.
use ewm_cloud_robotics.Prelude.{
  ℕ, String, str_eq, Bool, true, false, ◌&&◌, Option, List, [], ◌∷◌, if◌then◌else◌, any,
}
use ewm_cloud_robotics.Types.{WarehouseOrder, WhoIdentifier, ident_eq}
use ewm_cloud_robotics.OrderManager.Manager.{EwmError, EwmOrderManager}

pub data ReservationState : Type 0 where
  new accepted reservations failed succeeded timeout : ReservationState

-- IN_PROCESS_STATUS
abbrev pub is_in_process : ReservationState → Bool
is_in_process new = true
is_in_process accepted = true
is_in_process reservations = true
is_in_process _ = false

pub record OrderAssignment : Type 0 where
  pub lgnum : String
  pub who : String
  pub rsrc : String

unfoldable pub assignment_eq : OrderAssignment → OrderAssignment → Bool
assignment_eq a b = str_eq a.lgnum b.lgnum && str_eq a.who b.who && str_eq a.rsrc b.rsrc

pub record OrderRequest : Type 0 where
  pub lgnum : String
  pub rsrctype : String
  pub rsrcgrp : String
  pub quantity : ℕ

pub record OrderReservationSpec : Type 0 where
  pub orderrequest : OrderRequest
  pub orderassignments : List OrderAssignment

-- `message` is `none` for None.
pub record OrderReservationStatus : Type 0 where
  pub status : ReservationState
  pub validuntil : String
  pub message : Option String
  pub warehouseorders : List WarehouseOrder
  pub orderassignments : List OrderAssignment

-- `owners`: the kind and name of each owner reference, `none` if there are none.
pub record OrderReservation : Type 0 where
  pub name : String
  pub owners : Option (List (String × String))
  pub status : Option OrderReservationStatus

abbrev pub ident_of : WarehouseOrder → WhoIdentifier
ident_of o = record { lgnum = o.lgnum; who = o.who }

abbrev pub assignment_ident : OrderAssignment → WhoIdentifier
assignment_ident a = record { lgnum = a.lgnum; who = a.who }

abbrev pub is_in : WhoIdentifier → List WhoIdentifier → Bool
is_in w ws = any (ident_eq w) ws

abbrev pub idents_of : List WarehouseOrder → List WhoIdentifier
idents_of [] = []
idents_of (o ∷ os) = ident_of o ∷ idents_of os

-- list.remove
unfoldable pub remove_ident : WhoIdentifier → List WhoIdentifier → List WhoIdentifier
unfolding ident_eq
remove_ident w [] = []
remove_ident w (v ∷ vs) = let rest = remove_ident w vs in if ident_eq w v then vs else v ∷ rest

-- `cr_cache`: the resources of reservations; `updates`: the statuses that were written, the latest
-- first.
pub record ReservationManager : Type 0 where
  pub manager : EwmOrderManager
  pub cr_cache : List OrderReservation
  pub updates : List (String × OrderReservationStatus)

-- A KeyError of the resources of orders ends the processing.
pub data Handled : Type 0 where
  handled : ReservationManager → Handled
  fails : EwmError → ReservationManager → Handled

abbrev pub manager_after : Handled → ReservationManager
manager_after (handled m) = m
manager_after (fails e m) = m
