-- ===== src/OrderManager/Auctions.antt =====
-- AuctioneerController of auctioneercontroller.py, OrderAuctionController of
-- orderauctioncontroller.py, and is_orderauction_running of manager.py: whether a robot gets its
-- orders by auction.
use ewm_cloud_robotics.Prelude.{
  String, str_eq, Bool, true, false, not, ◌&&◌, Option, none, some, List, [], ◌∷◌, if◌then◌else◌,
  is_empty,
}
use ewm_cloud_robotics.OrderManager.Reservations.Open.{Reservations, open_of}

pub data AuctioneerState : Type 0 where
  watching waiting auction error : AuctioneerState

pub record AuctioneerStatus : Type 0 where
  pub robots_in_scope : List String
  pub status : AuctioneerState

-- A dictionary with texts for its keys.
abbrev pub Dict {ℓ} : Type ℓ → Type ℓ
Dict A = List (String × A)

module _ {ℓ} {A : Type ℓ} where
  unfoldable pub get : String → Dict A → Option A
  get k [] = none
  get k ((j, v) ∷ d) = let rest = get k d in if str_eq k j then some v else rest

  unfoldable pub put : String → A → Dict A → Dict A
  put k v [] = (k, v) ∷ []
  put k v ((j, w) ∷ d) = let rest = put k v d in if str_eq k j then (j, v) ∷ d else (j, w) ∷ rest

  unfoldable pub pop : String → Dict A → Dict A
  pop k [] = []
  pop k ((j, w) ∷ d) = let rest = pop k d in if str_eq k j then rest else (j, w) ∷ rest

pub record AuctioneerController : Type 0 where
  pub robots_in_scope : Dict String
  pub auctioneer_status : Dict AuctioneerState

-- {k: v for k, v in robots.items() if v != name}
unfoldable pub without_auctioneer : String → Dict String → Dict String
without_auctioneer name [] = []
without_auctioneer name ((robot, a) ∷ d) =
    let rest = without_auctioneer name d in if str_eq a name then rest else (robot, a) ∷ rest

unfoldable pub put_all : List String → String → Dict String → Dict String
unfolding put
put_all [] name d = d
put_all (robot ∷ robots) name d = put_all robots name (put robot name d)

unfoldable pub delete_robots_in_scope_cb : String → AuctioneerController → AuctioneerController
unfolding without_auctioneer pop
delete_robots_in_scope_cb name c = record {
  robots_in_scope = without_auctioneer name c.robots_in_scope;
  auctioneer_status = pop name c.auctioneer_status;
}

unfoldable pub get_robots_in_scope_cb :
    String → Option AuctioneerStatus → AuctioneerController → AuctioneerController
unfolding without_auctioneer put_all put
get_robots_in_scope_cb name none c = record c {
  robots_in_scope = without_auctioneer name c.robots_in_scope;
}
get_robots_in_scope_cb name (some s) c = record {
  robots_in_scope = put_all s.robots_in_scope name (without_auctioneer name c.robots_in_scope);
  auctioneer_status = put name s.status c.auctioneer_status;
}

pub data AuctionStatus : Type 0 where
  open' closed completed : AuctionStatus

pub data BidStatus : Type 0 where
  running completed : BidStatus

-- What becomes of the flag of the robot; `none` where it stays.
abbrev pub bid_agent_flag : AuctionStatus → BidStatus → Option Bool
bid_agent_flag open' completed = some true
bid_agent_flag completed completed = some true
bid_agent_flag closed completed = some true
bid_agent_flag open' running = none
bid_agent_flag _ _ = some false

abbrev set_flag : String → Option Bool → Dict Bool → Dict Bool
set_flag robot none d = d
set_flag robot (some b) d = put robot b d

-- `status`: the bid status, `none` if the resource has no status.
unfoldable pub check_bid_agent_status_cb :
    Option String → AuctionStatus → Option BidStatus → Dict Bool → Dict Bool
unfolding put
check_bid_agent_status_cb none spec status d = d
check_bid_agent_status_cb (some robot) spec none d = put robot false d
check_bid_agent_status_cb (some robot) spec (some status) d =
    set_flag robot (bid_agent_flag spec status) d

-- robot_bid_agent_working[robot], of a defaultdict.
abbrev working_or_true : Option Bool → Bool
working_or_true none = true
working_or_true (some b) = b

-- The auctioneer has work, or none is left to have.
abbrev pub auctioneer_works : AuctioneerState → List String → Bool
auctioneer_works error open_res = false
auctioneer_works watching open_res = true
auctioneer_works _ open_res = not (is_empty open_res)

-- A KeyError where the auctioneer of the robot has no status.
pub data Running : Type 0 where
  is_running : Bool → Running
  key_error : Running

abbrev pub with_status : Option AuctioneerState → List String → Bool → Running
with_status none open_res agent = key_error
with_status (some s) open_res agent = is_running (auctioneer_works s open_res && agent)

abbrev pub with_auctioneer : Option String → AuctioneerController → Reservations → Bool → Running
with_auctioneer none c open_res agent = is_running false
with_auctioneer (some a) c open_res agent =
    with_status (get a c.auctioneer_status) (open_of a open_res) agent

unfoldable pub is_orderauction_running :
    String → AuctioneerController → Reservations → Dict Bool → Running
unfolding get open_of
is_orderauction_running robot c open_res agents =
    with_auctioneer (get robot c.robots_in_scope) c open_res (working_or_true (get robot agents))
