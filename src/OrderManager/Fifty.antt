-- ===== src/OrderManager/Fifty.antt =====
-- _cleanup_orders_cb (ordercontroller.py) counts the processed orders from the latest: what it
-- leaves.
use ewm_cloud_robotics.Prelude.{
  ℕ, ◌+◌, ◌≤◌, ◌≡◌, refl, sym, ap, ◌∙◌, String, str_eq, eq_iff, true, Bool-cases, inl, inr, List,
  [], ◌∷◌, ◌++◌, if◌then◌else◌, length, arith, ltb,
}
use ewm_cloud_robotics.OrderManager.Controller.{
  OrderController, has_key, pop_key, reversed, beyond_fifty, delete_order, delete_orders,
}

abbrev keep : List String → List String → List String
keep xs [] = []
keep xs (y ∷ ys) = let rest = keep xs ys in if has_key y xs then rest else y ∷ rest

str_eq_refl : (x : String) → str_eq x x ≡ true
str_eq_refl x = ground (arith, eq_iff x x)

keep-pop_key : (x : String) (xs ys : List String) → keep xs (pop_key x ys) ≡ keep (x ∷ xs) ys
unfolding pop_key
keep-pop_key x xs [] = refl
keep-pop_key x xs (y ∷ ys) = ground (arith, keep-pop_key x xs ys)

keep_none : (ys : List String) → keep [] ys ≡ ys
keep_none [] = refl
keep_none (y ∷ ys) = ap (λ l. y ∷ l) (keep_none ys)

delete_orders-keep :
    (xs : List String) (c : OrderController)
    → (delete_orders xs c).processed_orders ≡ keep xs c.processed_orders
unfolding delete_orders
delete_orders-keep [] c = sym (keep_none c.processed_orders)
delete_orders-keep (x ∷ xs) c =
    delete_orders-keep xs (delete_order x c) ∙ keep-pop_key x xs c.processed_orders

length-keep_more :
    (x : String) (xs ys : List String) → length (keep (x ∷ xs) ys) ≤ length (keep xs ys)
length-keep_more x xs [] = omega arith
length-keep_more x xs (y ∷ ys) = ground (arith, length-keep_more x xs ys)

length-keep_all : (xs : List String) → length (keep xs xs) ≤ 0
length-keep_all [] = omega arith
length-keep_all (x ∷ xs) =
    ground (arith, str_eq_refl x, length-keep_more x xs xs, length-keep_all xs)

length-keep_snoc :
    (xs ys : List String) (z : String)
    → length (keep xs (ys ++ (z ∷ []))) ≡ length (keep xs (z ∷ ys))
length-keep_snoc xs [] z = refl
length-keep_snoc xs (y ∷ ys) z = ground (arith, length-keep_snoc xs ys z)

length-keep-reversed : (xs ys : List String) → length (keep xs (reversed ys)) ≡ length (keep xs ys)
unfolding reversed
length-keep-reversed xs [] = refl
length-keep-reversed xs (y ∷ ys) =
    length-keep_snoc xs (reversed ys) y ∙ ground (arith, length-keep-reversed xs ys)

beyond_fifty_all : (n : ℕ) (xs : List String) → 50 ≤ n → beyond_fifty n xs ≡ xs
unfolding beyond_fifty
beyond_fifty_all n [] h = refl
beyond_fifty_all n (x ∷ xs) h = ground (arith, beyond_fifty_all (n + 1) xs)

-- From 50 on, every key is deleted.
length-keep_full : (n : ℕ) (xs : List String) → 50 ≤ n → length (keep (beyond_fifty n xs) xs) ≤ 0
length-keep_full n xs h = rw (beyond_fifty_all n xs h) (length-keep_all xs)

length-keep_fifty :
    (n : ℕ) (xs : List String) → n ≤ 50 → length (keep (beyond_fifty n xs) xs) + n ≤ 50
unfolding beyond_fifty
length-keep_fifty n [] h = omega arith
length-keep_fifty n (x ∷ xs) h = elim (Bool-cases (ltb 50 (n + 1))) [
  | inl y ↦
      let full : length (keep (beyond_fifty n (x ∷ xs)) (x ∷ xs)) ≤ 0 =
        length-keep_full n (x ∷ xs) (ground arith) in
      omega (full, arith)
  | inr m ↦ ground (arith, length-keep_fifty (n + 1) xs)
]

pub length-deleted :
    (l : List String) (c : OrderController)
    → c.processed_orders ≡ l
    → length (delete_orders (beyond_fifty 0 (reversed l)) c).processed_orders ≤ 50
length-deleted l c e =
    rw (delete_orders-keep (beyond_fifty 0 (reversed l)) c, e)
      (omega (
        length-keep-reversed (beyond_fifty 0 (reversed l)) l,
        length-keep_fifty 0 (reversed l) (omega arith),
        arith,
      ))
