-- ===== src/OrderManager/Reservations/Open.antt =====
-- OrderReservationController of orderreservationcontroller.py: which orders are reserved, and the
-- open reservations of each auctioneer.
use ewm_cloud_robotics.Prelude.{
  String, str_eq, eq_iff, ◌≡◌, ap, Bool, true, not, ◌&&◌, ◌||◌, Option, none, some, List, [], ◌∷◌,
  ◌++◌, if◌then◌else◌, any, arith,
}
use ewm_cloud_robotics.Types.{WhoIdentifier}
use ewm_cloud_robotics.OrderManager.Controller.{has_key, pop_key}
use ewm_cloud_robotics.OrderManager.Reservations.Types.{
  is_in_process, OrderReservationStatus, OrderReservation, idents_of,
}

abbrev pub reserved_by : Option OrderReservationStatus → List WhoIdentifier
reserved_by none = []
reserved_by (some s) = if is_in_process s.status then idents_of s.warehouseorders else []

unfoldable pub get_reserved_warehouseorders : List OrderReservation → List WhoIdentifier
get_reserved_warehouseorders [] = []
get_reserved_warehouseorders (r ∷ rs) = reserved_by r.status ++ get_reserved_warehouseorders rs

-- The dictionary of open reservations: for each auctioneer the names of the reservations.
abbrev pub Reservations : Type 0
Reservations = List (String × List String)

-- The reservation is removed from all entries.
unfoldable pub delete_open_reservations_cb : String → Reservations → Reservations
unfolding pop_key
delete_open_reservations_cb name [] = []
delete_open_reservations_cb name ((a, names) ∷ d) =
    (a, pop_key name names) ∷ delete_open_reservations_cb name d

-- self._open_reservations[auctioneer][name] = True
unfoldable pub open_reservation : String → String → Reservations → Reservations
open_reservation a name [] = (a, name ∷ []) ∷ []
open_reservation a name ((b, names) ∷ d) =
    let rest = open_reservation a name d in
    if str_eq a b
    then (b, if has_key name names then names else names ++ (name ∷ [])) ∷ d
    else (b, names) ∷ rest

unfoldable pub open_for_owners : List (String × String) → String → Reservations → Reservations
unfolding open_reservation
open_for_owners [] name d = d
open_for_owners ((kind, owner) ∷ refs) name d =
    open_for_owners refs name
      (if str_eq kind "Auctioneer" then open_reservation owner name d else d)

abbrev pub is_open : Option OrderReservationStatus → Bool
is_open none = true
is_open (some s) = is_in_process s.status

abbrev pub owners_or_empty : Option (List (String × String)) → List (String × String)
owners_or_empty none = []
owners_or_empty (some refs) = refs

unfoldable pub get_open_reservations_cb : OrderReservation → Reservations → Reservations
unfolding delete_open_reservations_cb open_for_owners
get_open_reservations_cb r d =
    let d' = delete_open_reservations_cb r.name d in
    if is_open r.status then open_for_owners (owners_or_empty r.owners) r.name d' else d'

-- open_reservations[auctioneer], of a defaultdict.
unfoldable pub open_of : String → Reservations → List String
open_of a [] = []
open_of a ((b, names) ∷ d) = let rest = open_of a d in if str_eq a b then names else rest

-- A reservation is listed for an auctioneer.
abbrev pub is_listed : String → String → Reservations → Bool
is_listed a name d = has_key name (open_of a d)

abbrev pub owns : String → List (String × String) → Bool
owns a refs = any (λ (kind, owner). str_eq kind "Auctioneer" && str_eq a owner) refs

has_key_popped :
    (x y : String) (ys : List String)
    → has_key x (pop_key y ys) ≡ (not (str_eq x y) && has_key x ys)
unfolding pop_key
has_key_popped x y [] = ground arith
has_key_popped x y (z ∷ zs) =
    ground (arith, has_key_popped x y zs, eq_iff x y, eq_iff x z, eq_iff z y)

has_key_snoc :
    (x y : String) (ys : List String) → has_key x (ys ++ (y ∷ [])) ≡ (has_key x ys || str_eq x y)
has_key_snoc x y [] = ground arith
has_key_snoc x y (z ∷ zs) = ground (arith, has_key_snoc x y zs)

has_key_equal : (x y : String) (ys : List String) → str_eq x y ≡ true → has_key x ys ≡ has_key y ys
has_key_equal x y ys e = ap (λ z. has_key z ys) ((eq_iff x y).0 e)

listed_deleted :
    (a x name : String) (d : Reservations)
    → is_listed a x (delete_open_reservations_cb name d) ≡ (not (str_eq x name) && is_listed a x d)
unfolding delete_open_reservations_cb open_of
listed_deleted a x name [] = ground arith
listed_deleted a x name ((b, names) ∷ d) =
    ground (arith, listed_deleted a x name d, has_key_popped x name names)

listed_opened :
    (a x owner name : String) (d : Reservations)
    → is_listed a x (open_reservation owner name d)
      ≡ (is_listed a x d || (str_eq a owner && str_eq x name))
unfolding open_reservation open_of
listed_opened a x owner name [] = ground arith
listed_opened a x owner name ((b, names) ∷ d) = ground (
  arith,
  listed_opened a x owner name d,
  has_key_snoc x name names,
  has_key_equal x name names,
  eq_iff a b,
  eq_iff owner b,
  eq_iff a owner,
)

listed_owned :
    (a x name : String) (refs : List (String × String)) (d : Reservations)
    → is_listed a x (open_for_owners refs name d)
      ≡ (is_listed a x d || (owns a refs && str_eq x name))
unfolding open_for_owners
listed_owned a x name [] d = ground arith
listed_owned a x name ((kind, owner) ∷ refs) d = ground (
  arith,
  listed_owned a x name refs
      (if str_eq kind "Auctioneer" then open_reservation owner name d else d),
  listed_opened a x owner name d,
)

-- After news of a reservation it is listed for exactly the auctioneers that own it, if it has no
-- status or is in process, and for none otherwise; every other reservation is listed for the same
-- auctioneers as before.
pub is_listed-get_open_reservations_cb :
    (a x : String) (r : OrderReservation) (d : Reservations)
    → is_listed a x (get_open_reservations_cb r d) ≡ (
        if str_eq x r.name
        then is_open r.status && owns a (owners_or_empty r.owners)
        else is_listed a x d)
unfolding get_open_reservations_cb
is_listed-get_open_reservations_cb a x r d = ground (
  arith,
  listed_deleted a x r.name d,
  listed_owned a x r.name (owners_or_empty r.owners) (delete_open_reservations_cb r.name d),
)
