-- ===== src/OrderManager/Cleanup.antt =====
-- The bounds of the clean-up of processed orders: _cleanup_orders_cb and the methods that change
-- the same dictionaries (ordercontroller.py).
use ewm_cloud_robotics.Prelude.{
  ◌-◌, ◌≤◌, ◌≡◌, refl, String, true, false, ◌||◌, Bool-cases, inl, inr, List, [], ◌∷◌, Option, none,
  some, length, arith,
}
use ewm_cloud_robotics.Types.{OrderStatus, running, processed}
use ewm_cloud_robotics.OrderManager.Controller.{
  OrderSpec, CrEvent, changes, deletes, checks_deleted, caches, handle, handle_all, new_controller,
  OrderController, has_key, set_key, pop_key, reversed, beyond_fifty, delete_order, delete_orders,
  trim_deleted, add_processed, cleanup_status, cleanup_orders_cb, order_deleted_cb, forget_orders,
  check_deleted_orders, missing_orders, names_with_spec,
}
use ewm_cloud_robotics.OrderManager.Fifty.{length-deleted}
use ewm_cloud_robotics.OrderManager.Keys.{
  apart, apart-pop_items, apart-pop_key, apart-set_key, apart-weaken, apart_new, has_key-pop_key,
  length-pop_key,
}

-- At most 50 processed orders are remembered, and none of them as deleted.
pub record IsTidy (c : OrderController) : Type 0 where
  pub limit : length c.processed_orders ≤ 50
  pub disjoint : apart c.deleted_orders c.processed_orders ≡ true

delete_orders-apart :
    (xs : List String) (c : OrderController)
    → apart c.deleted_orders c.processed_orders ≡ true
    → apart (delete_orders xs c).deleted_orders (delete_orders xs c).processed_orders ≡ true
unfolding delete_orders
delete_orders-apart [] c h = h
delete_orders-apart (x ∷ xs) c h =
    delete_orders-apart xs (delete_order x c)
      (unfold delete_order in apart-set_key x c.deleted_orders c.processed_orders h)

order_deleted_cb-IsTidy :
    (name : String) (c : OrderController) → IsTidy c → IsTidy (order_deleted_cb name c)
unfolding order_deleted_cb
order_deleted_cb-IsTidy name c t = record {
  limit = omega (t.limit, length-pop_key name c.processed_orders, arith);
  disjoint = apart-set_key name c.deleted_orders c.processed_orders t.disjoint;
}

forget_orders-IsTidy :
    (xs : List String) (c : OrderController) → IsTidy c → IsTidy (forget_orders xs c)
unfolding forget_orders
forget_orders-IsTidy [] c t = t
forget_orders-IsTidy (x ∷ xs) c t =
    forget_orders-IsTidy xs (order_deleted_cb x c) (order_deleted_cb-IsTidy x c t)

trim_deleted-IsTidy : (c : OrderController) → IsTidy c → IsTidy (trim_deleted c)
unfolding trim_deleted
trim_deleted-IsTidy c t = record {
  limit = t.limit;
  disjoint =
      apart-weaken c.deleted_orders _ c.processed_orders
        (apart-pop_items (length c.deleted_orders - 500) c.deleted_orders) t.disjoint;
}

-- Whatever was kept, the clean-up ends with at most 50 processed orders.
add_processed-IsTidy :
    (name : String) (c : OrderController)
    → has_key name c.deleted_orders ≡ false
    → IsTidy c
    → IsTidy (add_processed name c)
unfolding add_processed
add_processed-IsTidy name c d t =
    let c' : OrderController = record c { processed_orders = set_key name c.processed_orders } in
    trim_deleted-IsTidy _ (record {
      limit = length-deleted c'.processed_orders c' refl;
      disjoint =
          delete_orders-apart (beyond_fifty 0 (reversed c'.processed_orders)) c'
            (apart_new name c.deleted_orders c.processed_orders d t.disjoint);
    })

cleanup_running-IsTidy :
    (name : String) (c : OrderController) → IsTidy c → IsTidy (cleanup_status (some running) name c)
unfolding cleanup_status
cleanup_running-IsTidy name c t = record {
  limit = omega (t.limit, length-pop_key name c.processed_orders, arith);
  disjoint =
      apart-weaken c.deleted_orders _ (pop_key name c.processed_orders)
        (λ x. has_key-pop_key x name c.deleted_orders)
        (apart-pop_key name c.deleted_orders c.processed_orders t.disjoint);
}

cleanup_processed-IsTidy :
    (name : String) (c : OrderController)
    → IsTidy c
    → IsTidy (cleanup_status (some processed) name c)
unfolding cleanup_status
cleanup_processed-IsTidy name c t =
    elim (Bool-cases (has_key name c.deleted_orders || has_key name c.processed_orders)) [
      | inl y ↦ rw y t
      | inr n ↦ rw n (add_processed-IsTidy name c (ground arith) t)
    ]

cleanup_status-IsTidy :
    (status : Option OrderStatus) (name : String) (c : OrderController)
    → IsTidy c
    → IsTidy (cleanup_status status name c)
unfolding cleanup_status
cleanup_status-IsTidy none name c t = t
cleanup_status-IsTidy (some running) name c t = cleanup_running-IsTidy name c t
cleanup_status-IsTidy (some processed) name c t = cleanup_processed-IsTidy name c t

cleanup_orders_cb-IsTidy :
    (name : String) (spec : Option OrderSpec) (c : OrderController)
    → IsTidy c
    → IsTidy (cleanup_orders_cb name spec c)
unfolding cleanup_orders_cb
cleanup_orders_cb-IsTidy name none c t = t
cleanup_orders_cb-IsTidy name (some s) c t = cleanup_status-IsTidy s.order_status name c t

handle-IsTidy : (e : CrEvent) (c : OrderController) → IsTidy c → IsTidy (handle e c)
unfolding handle check_deleted_orders
handle-IsTidy (changes name spec) c t = cleanup_orders_cb-IsTidy name spec c t
handle-IsTidy (deletes name) c t = order_deleted_cb-IsTidy name c t
handle-IsTidy checks_deleted c t =
    forget_orders-IsTidy (missing_orders (names_with_spec c.cr_cache) c.processed_orders) c t
handle-IsTidy (caches crs) c t = record { limit = t.limit; disjoint = t.disjoint }

handle_all-kept : (es : List CrEvent) (c : OrderController) → IsTidy c → IsTidy (handle_all es c)
unfolding handle_all
handle_all-kept [] c t = t
handle_all-kept (e ∷ es) c t = handle_all-kept es (handle e c) (handle-IsTidy e c t)

-- Whatever is reported on the resources, in whatever order, at most 50 processed orders are
-- remembered and none of them is remembered as deleted.
pub handle_all-IsTidy : (es : List CrEvent) → IsTidy (handle_all es new_controller)
unfolding new_controller
handle_all-IsTidy es =
    handle_all-kept es new_controller (record { limit = omega arith; disjoint = refl })
