-- ===== src/OrderManager/Controller.antt =====
-- OrderController of ordercontroller.py: the custom resources of warehouse orders. The requests to
-- the cluster are appended to `requests`, the latest first, and are taken to succeed; the cache of
-- resources, which the watch on the cluster fills, is the field `cr_cache`.
use ewm_cloud_robotics.Prelude.{
  ℕ, zero, ◌+◌, ◌-◌, suc, String, str_eq, Bool, false, ◌||◌, Option, none, some, List, [], ◌∷◌,
  ◌++◌, if◌then◌else◌, length, ltb,
}
use ewm_cloud_robotics.Types.{WarehouseOrder, ConfirmWarehouseTask, OrderStatus, running, processed}

-- The spec of a resource; `order_status` is `none` if it is missing or is neither of the two.
pub record OrderSpec : Type 0 where
  pub data' : WarehouseOrder
  pub order_status : Option OrderStatus
  pub sequence : ℕ

-- A resource; `robot` is its label cloudrobotics.com/robot-name, `status` the confirmations that
-- its status holds.
pub record OrderResource : Type 0 where
  pub name : String
  pub robot : Option String
  pub spec : Option OrderSpec
  pub status : List ConfirmWarehouseTask

pub data Request : Type 0 where
  delete_cr : String → Request
  create_cr update_cr : String → String → WarehouseOrder → OrderStatus → ℕ → Request
  close_cr : String → WarehouseOrder → Request
  save_cr : String → List ConfirmWarehouseTask → Request

-- `processed_orders` and `deleted_orders` are the keys of the two ordered dictionaries, the oldest
-- first; every value of the first is PROCESSED and of the second True.
pub record OrderController : Type 0 where
  pub processed_orders : List String
  pub deleted_orders : List String
  pub cr_cache : List OrderResource
  pub requests : List Request

abbrev pub has_key : String → List String → Bool
has_key x [] = false
has_key x (y ∷ ys) = str_eq x y || has_key x ys

-- A new key comes last, an old one keeps its place.
abbrev pub set_key : String → List String → List String
set_key x ys = if has_key x ys then ys else ys ++ (x ∷ [])

unfoldable pub pop_key : String → List String → List String
pop_key x [] = []
pop_key x (y ∷ ys) = let rest = pop_key x ys in if str_eq y x then rest else y ∷ rest

-- popitem(last=False), this many times.
unfoldable pub pop_items : ℕ → List String → List String
pop_items zero ys = ys
pop_items (suc n) [] = []
pop_items (suc n) (y ∷ ys) = pop_items n ys

unfoldable pub reversed : List String → List String
reversed [] = []
reversed (x ∷ xs) = reversed xs ++ (x ∷ [])

abbrev pub find_cr : String → List OrderResource → Option OrderResource
find_cr x [] = none
find_cr x (r ∷ rs) = let rest = find_cr x rs in if str_eq x r.name then some r else rest

abbrev pub check_cr_exists : String → List OrderResource → Bool
check_cr_exists x [] = false
check_cr_exists x (r ∷ rs) = str_eq x r.name || check_cr_exists x rs

-- The keys that are passed once more than 50 are counted; `n` of them were counted before.
unfoldable pub beyond_fifty : ℕ → List String → List String
beyond_fifty n [] = []
beyond_fifty n (x ∷ xs) =
    let rest = beyond_fifty (n + 1) xs in if ltb 50 (n + 1) then x ∷ rest else rest

unfoldable pub delete_order : String → OrderController → OrderController
unfolding pop_key
delete_order name c = record c {
  requests = if check_cr_exists name c.cr_cache then delete_cr name ∷ c.requests else c.requests;
  deleted_orders = set_key name c.deleted_orders;
  processed_orders = pop_key name c.processed_orders;
}

unfoldable pub delete_orders : List String → OrderController → OrderController
unfolding delete_order
delete_orders [] c = c
delete_orders (x ∷ xs) c = delete_orders xs (delete_order x c)

unfoldable pub trim_deleted : OrderController → OrderController
unfolding pop_items
trim_deleted c = record c {
  deleted_orders = pop_items (length c.deleted_orders - 500) c.deleted_orders;
}

unfoldable pub add_processed : String → OrderController → OrderController
unfolding delete_orders trim_deleted beyond_fifty reversed
add_processed name c =
    let c' = record c { processed_orders = set_key name c.processed_orders } in
    trim_deleted (delete_orders (beyond_fifty 0 (reversed c'.processed_orders)) c')

unfoldable pub cleanup_status : Option OrderStatus → String → OrderController → OrderController
unfolding add_processed pop_key
cleanup_status none name c = c
cleanup_status (some running) name c = record c {
  processed_orders = pop_key name c.processed_orders;
  deleted_orders = pop_key name c.deleted_orders;
}
cleanup_status (some processed) name c =
    if has_key name c.deleted_orders || has_key name c.processed_orders
    then c
    else add_processed name c

unfoldable pub cleanup_orders_cb : String → Option OrderSpec → OrderController → OrderController
unfolding cleanup_status
cleanup_orders_cb name none c = c
cleanup_orders_cb name (some spec) c = cleanup_status spec.order_status name c

unfoldable pub order_deleted_cb : String → OrderController → OrderController
unfolding pop_key
order_deleted_cb name c = record c {
  deleted_orders = set_key name c.deleted_orders;
  processed_orders = pop_key name c.processed_orders;
}

-- The processed orders for which no resource with a spec is listed.
unfoldable pub missing_orders : List String → List String → List String
missing_orders names [] = []
missing_orders names (x ∷ xs) =
    let rest = missing_orders names xs in if has_key x names then rest else x ∷ rest

abbrev add_name : String → Option OrderSpec → List String → List String
add_name name none names = names
add_name name (some spec) names = name ∷ names

unfoldable pub names_with_spec : List OrderResource → List String
names_with_spec [] = []
names_with_spec (r ∷ rs) = add_name r.name r.spec (names_with_spec rs)

unfoldable pub forget_orders : List String → OrderController → OrderController
unfolding order_deleted_cb
forget_orders [] c = c
forget_orders (x ∷ xs) c = forget_orders xs (order_deleted_cb x c)

-- The list of all resources is read from the cache.
unfoldable pub check_deleted_orders : OrderController → OrderController
unfolding missing_orders names_with_spec forget_orders
check_deleted_orders c =
    forget_orders (missing_orders (names_with_spec c.cr_cache) c.processed_orders) c

unfoldable pub new_controller : OrderController
new_controller = record { processed_orders = []; deleted_orders = []; cr_cache = []; requests = [] }

-- What reaches the controller: a resource was added or changed, or deleted; the thread that looks
-- for deleted resources runs; the cache was filled.
pub data CrEvent : Type 0 where
  changes : String → Option OrderSpec → CrEvent
  deletes : String → CrEvent
  checks_deleted : CrEvent
  caches : List OrderResource → CrEvent

unfoldable pub handle : CrEvent → OrderController → OrderController
unfolding cleanup_orders_cb order_deleted_cb check_deleted_orders
handle (changes name spec) c = cleanup_orders_cb name spec c
handle (deletes name) c = order_deleted_cb name c
handle checks_deleted c = check_deleted_orders c
handle (caches crs) c = record c { cr_cache = crs }

unfoldable pub handle_all : List CrEvent → OrderController → OrderController
unfolding handle
handle_all [] c = c
handle_all (e ∷ es) c = handle_all es (handle e c)
