-- ===== src/OrderManager/Deletion.antt =====
-- Which resources the clean-up of ordercontroller.py deletes.
use ewm_cloud_robotics.Prelude.{
  ℕ, ◌+◌, ◌≡◌, refl, String, str_eq, eq_iff, Bool, true, false, ◌&&◌, ◌||◌, Bool-cases, inl, inr,
  List, [], ◌∷◌, ◌++◌, Option, none, some, if◌then◌else◌, any, arith,
}
use ewm_cloud_robotics.Types.{OrderStatus, running, processed}
use ewm_cloud_robotics.OrderManager.Controller.{
  OrderSpec, Request, delete_cr, OrderController, CrEvent, changes, deletes, checks_deleted, caches,
  handle, handle_all, has_key, set_key, pop_key, reversed, beyond_fifty, delete_order,
  delete_orders, trim_deleted, add_processed, cleanup_status, cleanup_orders_cb, order_deleted_cb,
  forget_orders, missing_orders, names_with_spec, check_deleted_orders,
}
use ewm_cloud_robotics.OrderManager.Keys.{has_key-pop_key}

abbrev is_deletion : String → Request → ℕ
is_deletion x (delete_cr y) = if str_eq x y then 1 else 0
is_deletion x _ = 0

-- How often the deletion of a resource was requested.
abbrev pub deletions : String → List Request → ℕ
deletions x [] = 0
deletions x (r ∷ rs) = is_deletion x r + deletions x rs

abbrev is_processed : Option OrderStatus → Bool
is_processed (some processed) = true
is_processed _ = false

-- The event reports the resource as PROCESSED.
abbrev pub reports_processed : String → CrEvent → Bool
reports_processed x (changes y (some s)) = str_eq x y && is_processed s.order_status
reports_processed x _ = false

-- The order is not remembered as processed, and its deletion was requested `n` times.
record Spares (x : String) (n : ℕ) (c : OrderController) : Type 0 where
  pub absent : has_key x c.processed_orders ≡ false
  pub same : deletions x c.requests ≡ n

str_eq_sym : (x y : String) → str_eq x y ≡ str_eq y x
str_eq_sym x y = ground (arith, eq_iff x y, eq_iff y x)

popped : (x : String) (ys : List String) → has_key x (pop_key x ys) ≡ false
unfolding pop_key
popped x [] = refl
popped x (y ∷ ys) = ground (arith, str_eq_sym x y, popped x ys)

has_key_snoc :
    (x z : String) (ys : List String)
    → str_eq x z ≡ false
    → has_key x ys ≡ false
    → has_key x (ys ++ (z ∷ [])) ≡ false
has_key_snoc x z [] e h = ground arith
has_key_snoc x z (y ∷ ys) e h = ground (arith, has_key_snoc x z ys)

has_key-reversed :
    (x : String) (ys : List String) → has_key x ys ≡ false → has_key x (reversed ys) ≡ false
unfolding reversed
has_key-reversed x [] h = refl
has_key-reversed x (y ∷ ys) h =
    ground (arith, has_key_snoc x y (reversed ys), has_key-reversed x ys)

has_key-beyond_fifty :
    (x : String) (n : ℕ) (ys : List String)
    → has_key x ys ≡ false
    → has_key x (beyond_fifty n ys) ≡ false
unfolding beyond_fifty
has_key-beyond_fifty x n [] h = refl
has_key-beyond_fifty x n (y ∷ ys) h = ground (arith, has_key-beyond_fifty x (n + 1) ys)

module _ (x : String) (n : ℕ) where
  delete_order-Spares :
      (y : String) (c : OrderController)
      → str_eq x y ≡ false
      → Spares x n c
      → Spares x n (delete_order y c)
  unfolding delete_order
  delete_order-Spares y c e s = record {
    absent = has_key-pop_key x y c.processed_orders s.absent;
    same = ground (arith, s.same);
  }

  delete_orders-Spares :
      (ys : List String) (c : OrderController)
      → has_key x ys ≡ false
      → Spares x n c
      → Spares x n (delete_orders ys c)
  unfolding delete_orders
  delete_orders-Spares [] c h s = s
  delete_orders-Spares (y ∷ ys) c h s =
      delete_orders-Spares ys (delete_order y c) (ground arith)
        (delete_order-Spares y c (ground arith) s)

  add_processed-Spares :
      (y : String) (c : OrderController)
      → str_eq x y ≡ false
      → Spares x n c
      → Spares x n (add_processed y c)
  unfolding add_processed trim_deleted
  add_processed-Spares y c e s =
      let c' : OrderController = record c { processed_orders = set_key y c.processed_orders } in
      let h : has_key x c'.processed_orders ≡ false =
        ground (arith, has_key_snoc x y c.processed_orders, s.absent) in
      let spared =
        delete_orders-Spares (beyond_fifty 0 (reversed c'.processed_orders)) c'
          (has_key-beyond_fifty x 0 (reversed c'.processed_orders)
            (has_key-reversed x c'.processed_orders h))
          (record { absent = h; same = s.same }) in
      record { absent = spared.absent; same = spared.same }

  cleanup_status-Spares :
      (status : Option OrderStatus) (y : String) (c : OrderController)
      → (str_eq x y && is_processed status) ≡ false
      → Spares x n c
      → Spares x n (cleanup_status status y c)
  unfolding cleanup_status
  cleanup_status-Spares none y c e s = s
  cleanup_status-Spares (some running) y c e s = record {
    absent = has_key-pop_key x y c.processed_orders s.absent;
    same = s.same;
  }
  cleanup_status-Spares (some processed) y c e s =
      elim (Bool-cases (has_key y c.deleted_orders || has_key y c.processed_orders)) [
        | inl k ↦ rw k s
        | inr m ↦ rw m (add_processed-Spares y c (ground arith) s)
      ]

  order_deleted_cb-Spares :
      (y : String) (c : OrderController) → Spares x n c → Spares x n (order_deleted_cb y c)
  unfolding order_deleted_cb
  order_deleted_cb-Spares y c s = record {
    absent = has_key-pop_key x y c.processed_orders s.absent;
    same = s.same;
  }

  forget_orders-Spares :
      (ys : List String) (c : OrderController) → Spares x n c → Spares x n (forget_orders ys c)
  unfolding forget_orders
  forget_orders-Spares [] c s = s
  forget_orders-Spares (y ∷ ys) c s =
      forget_orders-Spares ys (order_deleted_cb y c) (order_deleted_cb-Spares y c s)

  handle-Spares :
      (e : CrEvent) (c : OrderController)
      → reports_processed x e ≡ false
      → Spares x n c
      → Spares x n (handle e c)
  unfolding handle check_deleted_orders cleanup_orders_cb
  handle-Spares (changes y none) c e s = s
  handle-Spares (changes y (some spec)) c e s = cleanup_status-Spares spec.order_status y c e s
  handle-Spares (deletes y) c e s = order_deleted_cb-Spares y c s
  handle-Spares checks_deleted c e s =
      forget_orders-Spares (missing_orders (names_with_spec c.cr_cache) c.processed_orders) c s
  handle-Spares (caches crs) c e s = record { absent = s.absent; same = s.same }

  handle_all-Spares :
      (es : List CrEvent) (c : OrderController)
      → any (reports_processed x) es ≡ false
      → Spares x n c
      → Spares x n (handle_all es c)
  unfolding handle_all
  handle_all-Spares [] c h s = s
  handle_all-Spares (e ∷ es) c h s =
      handle_all-Spares es (handle e c) (ground arith) (handle-Spares e c (ground arith) s)

-- After an order was reported as RUNNING, no clean-up requests the deletion of its resource until
-- it is reported as PROCESSED, whatever else is reported.
pub deletions-handle_all :
    (x : String) (spec : OrderSpec) (es : List CrEvent) (c : OrderController)
    → spec.order_status ≡ some running
    → any (reports_processed x) es ≡ false
    → deletions x (handle_all (changes x (some spec) ∷ es) c).requests ≡ deletions x c.requests
unfolding handle_all handle cleanup_orders_cb cleanup_status
deletions-handle_all x spec es c r h =
    let start : Spares x (deletions x c.requests) (cleanup_status spec.order_status x c) =
      rw r (record { absent = popped x c.processed_orders; same = refl }) in
    (handle_all-Spares x (deletions x c.requests) es (cleanup_status spec.order_status x c) h
      start).same
