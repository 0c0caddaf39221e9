-- ===== src/OrderManager/Orders.antt =====
-- OrderController of ordercontroller.py: orders are sent to robots, closed and looked up. `lower`
-- is the method lower of a Python string.
use Prim.Native.String.{◌++◌ as concat}
use ewm_cloud_robotics.Prelude.{
  ℕ, ◌≡◌, refl, ◌∙◌, subst, String, str_eq, Bool, true, false, not, ◌&&◌, Option, none, some, List,
  [], ◌∷◌, if◌then◌else◌, is_empty, any, Result, ok, err, key_error, ◌>>=◌, arith,
}
use ewm_cloud_robotics.Types.{WarehouseOrder, ConfirmWarehouseTask, OrderStatus, running, processed}
use ewm_cloud_robotics.OrderManager.Controller.{
  OrderSpec, OrderResource, create_cr, update_cr, close_cr, OrderController, find_cr,
  check_cr_exists,
}

abbrev is_running : Option OrderStatus → Bool
is_running (some running) = true
is_running _ = false

abbrev is_robot : String → Option String → Bool
is_robot robot none = false
is_robot robot (some r) = str_eq r robot

module _ (lower : String → String) where
  unfoldable pub cr_name : String → String → String
  cr_name lgnum who = lower (concat lgnum (concat "." who))

  -- An order that its robot still works on keeps its place in the sequence.
  sequence_of : String → OrderResource → OrderSpec → ℕ → ℕ
  sequence_of robot old spec now =
      if is_robot robot old.robot && is_running spec.order_status then spec.sequence else now

  update_old :
      String
      → String
      → WarehouseOrder
      → ℕ
      → OrderResource
      → Option OrderSpec
      → OrderController
      → Result OrderController
  unfolding sequence_of
  update_old name robot who now old none c = err key_error
  update_old name robot who now old (some spec) c = ok (record c {
    requests = update_cr name robot who running (sequence_of robot old spec now) ∷ c.requests;
  })

  send_to :
      String
      → String
      → WarehouseOrder
      → ℕ
      → ℕ
      → Option OrderResource
      → OrderController
      → Result OrderController
  unfolding update_old
  send_to name robot who now later none c =
      ok (record c { requests = create_cr name robot who running later ∷ c.requests })
  send_to name robot who now later (some old) c = update_old name robot who now old old.spec c

  -- `now` and `later` are the two readings of the clock.
  unfoldable pub send_who_to_robot :
      String → WarehouseOrder → ℕ → ℕ → OrderController → Result OrderController
  unfolding send_to cr_name
  send_who_to_robot rsrc who now later c =
      let name = cr_name who.lgnum who.who in
      send_to name (lower rsrc) who now later (find_cr name c.cr_cache) c

  unfoldable pub close_order : String → WarehouseOrder → OrderController → OrderController
  close_order name who c = record c {
    requests =
        if check_cr_exists name c.cr_cache then close_cr name who ∷ c.requests else c.requests;
  }

  -- A sub order is closed with the data of its top order.
  close_sub : Option OrderSpec → WarehouseOrder → OrderController → OrderController
  unfolding close_order cr_name
  close_sub none who c = c
  close_sub (some spec) who c =
      if str_eq spec.data'.topwhoid who.who && str_eq spec.data'.lgnum who.lgnum
      then close_order (cr_name spec.data'.lgnum spec.data'.who) who c
      else c

  close_subs : List OrderResource → WarehouseOrder → OrderController → OrderController
  unfolding close_sub
  close_subs [] who c = c
  close_subs (r ∷ rs) who c = close_subs rs who (close_sub r.spec who c)

  unfoldable pub cleanup_who : WarehouseOrder → OrderController → OrderController
  unfolding close_subs close_order cr_name
  cleanup_who who c =
      let c' = close_order (cr_name who.lgnum who.who) who c in close_subs c'.cr_cache who c'

  cr_cache-close_subs :
      (rs : List OrderResource) (who : WarehouseOrder) (c : OrderController)
      → (close_subs rs who c).cr_cache ≡ c.cr_cache
  unfolding close_subs close_sub close_order
  cr_cache-close_subs [] who c = refl
  cr_cache-close_subs (r ∷ rs) who c =
      cr_cache-close_subs rs who (close_sub r.spec who c) ∙ closed r.spec
    where
      closed : (spec : Option OrderSpec) → (close_sub spec who c).cr_cache ≡ c.cr_cache
      closed none = refl
      closed (some spec) = ground arith

  pub cr_cache-cleanup_who :
      (who : WarehouseOrder) (c : OrderController) → (cleanup_who who c).cr_cache ≡ c.cr_cache
  unfolding cleanup_who close_order
  cr_cache-cleanup_who who c = cr_cache-close_subs c.cr_cache who _

-- The spec is read only of resources with the label of the robot.
running_spec : Bool → Option OrderSpec → Result (Option OrderSpec)
running_spec false spec = ok none
running_spec true none = err key_error
running_spec true (some spec) = ok (if is_running spec.order_status then some spec else none)

answer : Option OrderSpec → Result Bool → Result Bool
answer none rest = rest
answer (some spec) rest = ok true

unfoldable pub check_for_running_whos : String → List OrderResource → Result Bool
unfolding running_spec answer
check_for_running_whos robot [] = ok false
check_for_running_whos robot (r ∷ rs) =
    let rest = check_for_running_whos robot rs in
    running_spec (is_robot robot r.robot) r.spec >>= λ s. answer s rest

abbrev pub Whos : Type 0
Whos = List (OrderSpec × List ConfirmWarehouseTask)

add_who : Option OrderSpec → List ConfirmWarehouseTask → Whos → Whos
add_who none status whos = whos
add_who (some spec) status whos = (spec, status) ∷ whos

unfoldable pub get_running_whos : String → List OrderResource → Result Whos
unfolding running_spec add_who
get_running_whos robot [] = ok []
get_running_whos robot (r ∷ rs) =
    let rest = get_running_whos robot rs in
    running_spec (is_robot robot r.robot) r.spec >>= λ s.
    rest >>= λ whos. ok (add_who s r.status whos)

-- Unless the orders cannot be read, the answer says whether there are some.
abbrev Agrees : Result Whos → Result Bool → Type 0
Agrees (ok whos) b = b ≡ ok (not (is_empty whos))
Agrees (err e) b = Unit

Agrees-step :
    (s : Result (Option OrderSpec)) (status : List ConfirmWarehouseTask) (rest : Result Whos)
    (b : Result Bool)
    → Agrees rest b
    → Agrees (s >>= λ o. rest >>= λ whos. ok (add_who o status whos)) (s >>= λ o. answer o b)
unfolding add_who answer
Agrees-step (err e) status rest b h = tt
Agrees-step (ok none) status (ok whos) b h = h
Agrees-step (ok (some spec)) status (ok whos) b h = refl
Agrees-step (ok o) status (err e) b h = tt

Agrees-running :
    (robot : String) (crs : List OrderResource)
    → Agrees (get_running_whos robot crs) (check_for_running_whos robot crs)
unfolding get_running_whos check_for_running_whos
Agrees-running robot [] = refl
Agrees-running robot (r ∷ rs) =
    Agrees-step (running_spec (is_robot robot r.robot) r.spec) r.status (get_running_whos robot rs)
      (check_for_running_whos robot rs) (Agrees-running robot rs)

-- If the running orders of a robot can be read, it has one exactly when the check says so.
pub check_for_running_whos-get_running_whos :
    (robot : String) (crs : List OrderResource) (whos : Whos)
    → get_running_whos robot crs ≡ ok whos
    → check_for_running_whos robot crs ≡ ok (not (is_empty whos))
check_for_running_whos-get_running_whos robot crs whos h =
    subst (λ r. Agrees r (check_for_running_whos robot crs)) h (Agrees-running robot crs)

abbrev label_is : String → Option String → Bool
label_is robot none = false
label_is robot (some label) = str_eq label robot

abbrev has_run : Option OrderStatus → Bool
has_run none = false
has_run (some running) = true
has_run (some processed) = false

abbrev order_runs : Option OrderSpec → Bool
order_runs none = false
order_runs (some s) = has_run s.order_status

-- Some resource is labelled with the robot and its order is running.
abbrev pub has_running : String → List OrderResource → Bool
has_running robot crs = any (λ r. label_is robot r.robot && order_runs r.spec) crs

one_idle :
    (robot : String) (label : Option String) (s : Option OrderSpec) (rest : Result Bool)
    → (running_spec (is_robot robot label) s >>= λ o. answer o rest) ≡ ok false
    → ((label_is robot label && order_runs s) ≡ false) × (rest ≡ ok false)
unfolding running_spec answer
one_idle robot none s rest h = (refl, h)
one_idle robot (some x) s rest h = go (str_eq x robot) s h
  where
    go :
        (b : Bool) (o : Option OrderSpec)
        → (running_spec b o >>= λ o'. answer o' rest) ≡ ok false
        → ((b && order_runs o) ≡ false) × (rest ≡ ok false)
    go false o k = (refl, k)
    go true none k = cc
    go true (some v) k = status v v.order_status k
      where
        status :
            (v : OrderSpec) (t : Option OrderStatus)
            → (answer (if is_running t then some v else none) rest) ≡ ok false
            → (has_run t ≡ false) × (rest ≡ ok false)
        status v none k = (refl, k)
        status v (some running) k = cc
        status v (some processed) k = (refl, k)

-- If the check finds no running order, there is none.
pub check_for_running_whos-none :
    (robot : String) (crs : List OrderResource)
    → check_for_running_whos robot crs ≡ ok false
    → has_running robot crs ≡ false
unfolding check_for_running_whos
check_for_running_whos-none robot [] h = refl
check_for_running_whos-none robot (r ∷ rs) h =
    let (a, k) = one_idle robot r.robot r.spec (check_for_running_whos robot rs) h in
    rw a (check_for_running_whos-none robot rs k)
