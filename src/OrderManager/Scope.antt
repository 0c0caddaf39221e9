-- ===== src/OrderManager/Scope.antt =====
-- The robots in scope of auctioneers (auctioneercontroller.py): the question whether an auction is
-- running finds the status of the auctioneer.
use ewm_cloud_robotics.Prelude.{
  String, str_eq, eq_iff, ◌≡◌, ◌≢◌, refl, Bool, true, Option, none, some, is_some, List, [], ◌∷◌,
  if◌then◌else◌, every, arith,
}
use ewm_cloud_robotics.OrderManager.Reservations.Open.{Reservations, open_of}
use ewm_cloud_robotics.OrderManager.Auctions.{
  AuctioneerState, AuctioneerStatus, Dict, get, put, pop, AuctioneerController, without_auctioneer,
  put_all, delete_robots_in_scope_cb, get_robots_in_scope_cb, key_error, with_status,
  with_auctioneer, is_orderauction_running,
}

-- What is reported of an auctioneer.
pub data AuctioneerEvent : Type 0 where
  changes : String → Option AuctioneerStatus → AuctioneerEvent
  deletes : String → AuctioneerEvent

unfoldable pub handle : AuctioneerEvent → AuctioneerController → AuctioneerController
unfolding get_robots_in_scope_cb delete_robots_in_scope_cb
handle (changes name s) c = get_robots_in_scope_cb name s c
handle (deletes name) c = delete_robots_in_scope_cb name c

unfoldable pub handle_all : List AuctioneerEvent → AuctioneerController → AuctioneerController
unfolding handle
handle_all [] c = c
handle_all (e ∷ es) c = handle_all es (handle e c)

unfoldable pub new_controller : AuctioneerController
new_controller = record { robots_in_scope = []; auctioneer_status = [] }

abbrev Knows : Dict AuctioneerState → Dict String → Type 0
Knows st d = every (λ (robot, a). is_some (get a st)) d ≡ true

-- The auctioneer of each robot has a status.
abbrev IsKnown : AuctioneerController → Type 0
IsKnown c = Knows c.auctioneer_status c.robots_in_scope

module _ {ℓ} {A : Type ℓ} where
  pub get-put :
      (k j : String) (v : A) (d : Dict A)
      → get k (put j v d) ≡ (if str_eq k j then some v else get k d)
  unfolding get put
  get-put k j v [] = refl
  get-put k j v ((i, w) ∷ d) = ground (arith, get-put k j v d, eq_iff k j, eq_iff k i, eq_iff j i)

  get-pop : (k j : String) (d : Dict A) → get k (pop j d) ≡ (if str_eq k j then none else get k d)
  unfolding get pop
  get-pop k j [] = ground arith
  get-pop k j ((i, w) ∷ d) = ground (arith, get-pop k j d, eq_iff k j, eq_iff k i, eq_iff j i)

-- Robots of other auctioneers keep a status.
without-Knows :
    (name : String) (st : Dict AuctioneerState) (d : Dict String)
    → Knows st d
    → Knows st (without_auctioneer name d)
unfolding without_auctioneer
without-Knows name st [] h = refl
without-Knows name st ((r, a) ∷ d) h = ground (arith, without-Knows name st d)

without-Knows_popped :
    (name : String) (st : Dict AuctioneerState) (d : Dict String)
    → Knows st d
    → Knows (pop name st) (without_auctioneer name d)
unfolding without_auctioneer
without-Knows_popped name st [] h = refl
without-Knows_popped name st ((r, a) ∷ d) h =
    ground (arith, without-Knows_popped name st d, get-pop a name st)

put-Knows :
    (name : String) (s : AuctioneerState) (st : Dict AuctioneerState) (d : Dict String)
    → Knows st d
    → Knows (put name s st) d
put-Knows name s st [] h = refl
put-Knows name s st ((r, a) ∷ d) h = ground (arith, put-Knows name s st d, get-put a name s st)

put_robot-Knows :
    (robot name : String) (st : Dict AuctioneerState) (d : Dict String)
    → is_some (get name st) ≡ true
    → Knows st d
    → Knows st (put robot name d)
unfolding put
put_robot-Knows robot name st [] k h = ground arith
put_robot-Knows robot name st ((r, a) ∷ d) k h = ground (arith, put_robot-Knows robot name st d)

put_all-Knows :
    (robots : List String) (name : String) (st : Dict AuctioneerState) (d : Dict String)
    → is_some (get name st) ≡ true
    → Knows st d
    → Knows st (put_all robots name d)
unfolding put_all
put_all-Knows [] name st d k h = h
put_all-Knows (robot ∷ robots) name st d k h =
    put_all-Knows robots name st (put robot name d) k (put_robot-Knows robot name st d k h)

has_status :
    (name : String) (s : AuctioneerState) (st : Dict AuctioneerState)
    → is_some (get name (put name s st)) ≡ true
has_status name s st = ground (arith, get-put name name s st, eq_iff name name)

handle-IsKnown : (e : AuctioneerEvent) (c : AuctioneerController) → IsKnown c → IsKnown (handle e c)
unfolding handle
handle-IsKnown (changes name none) c h = without-Knows name c.auctioneer_status c.robots_in_scope h
handle-IsKnown (changes name (some s)) c h =
    put_all-Knows s.robots_in_scope name (put name s.status c.auctioneer_status)
      (without_auctioneer name c.robots_in_scope) (has_status name s.status c.auctioneer_status)
      (put-Knows name s.status c.auctioneer_status (without_auctioneer name c.robots_in_scope)
        (without-Knows name c.auctioneer_status c.robots_in_scope h))
handle-IsKnown (deletes name) c h =
    without-Knows_popped name c.auctioneer_status c.robots_in_scope h

handle_all-IsKnown :
    (es : List AuctioneerEvent) (c : AuctioneerController) → IsKnown c → IsKnown (handle_all es c)
unfolding handle_all
handle_all-IsKnown [] c h = h
handle_all-IsKnown (e ∷ es) c h = handle_all-IsKnown es (handle e c) (handle-IsKnown e c h)

get-Knows :
    (robot : String) (st : Dict AuctioneerState) (d : Dict String) (a : String)
    → Knows st d
    → get robot d ≡ some a
    → is_some (get a st) ≡ true
unfolding get
get-Knows robot st [] a h e = ground arith
get-Knows robot st ((r, b) ∷ d) a h e = ground (arith, get-Knows robot st d a)

found_status :
    (o : Option AuctioneerState) (open_res : List String) (agent : Bool)
    → is_some o ≡ true
    → with_status o open_res agent ≢ key_error
found_status (some s) open_res agent h = λ e. cc
found_status none open_res agent h = ground arith

found_auctioneer :
    (c : AuctioneerController) (robot : String) (b : Option String) (open_res : Reservations)
    (agent : Bool)
    → IsKnown c
    → get robot c.robots_in_scope ≡ b
    → with_auctioneer b c open_res agent ≢ key_error
found_auctioneer c robot none open_res agent h e = λ p. cc
found_auctioneer c robot (some a) open_res agent h e =
    found_status (get a c.auctioneer_status) (open_of a open_res) agent
      (get-Knows robot c.auctioneer_status c.robots_in_scope a h e)

-- Whatever is reported on auctioneers, in whatever order, from a fresh start, the question whether
-- an auction is running for a robot raises no KeyError: every auctioneer that has a robot in scope
-- has a status.
pub is_orderauction_running-ne-key_error :
    (es : List AuctioneerEvent) (robot : String) (open_res : Reservations) (agents : Dict Bool)
    → is_orderauction_running robot (handle_all es new_controller) open_res agents ≢ key_error
unfolding is_orderauction_running new_controller
is_orderauction_running-ne-key_error es robot open_res agents =
    found_auctioneer (handle_all es new_controller) robot _ open_res _
      (handle_all-IsKnown es new_controller refl) refl
