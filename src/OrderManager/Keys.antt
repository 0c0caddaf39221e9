-- ===== src/OrderManager/Keys.antt =====
-- The keys of the dictionaries of ordercontroller.py: lists of keys that share none.
use ewm_cloud_robotics.Prelude.{
  ℕ, zero, ◌≤◌, suc, ◌≡◌, refl, String, str_eq, Bool, true, false, not, ◌||◌, List, [], ◌∷◌, ◌++◌,
  length, every, arith,
}
use ewm_cloud_robotics.OrderManager.Controller.{has_key, set_key, pop_key, pop_items}

-- The keys of a list that are not in a second one.
abbrev pub apart : List String → List String → Bool
apart ys xs = every (λ x. not (has_key x ys)) xs

pub length-pop_key : (x : String) (ys : List String) → length (pop_key x ys) ≤ length ys
unfolding pop_key
length-pop_key x [] = omega arith
length-pop_key x (y ∷ ys) = ground (arith, length-pop_key x ys)

has_key_snoc :
    (x z : String) (ys : List String) → has_key x (ys ++ (z ∷ [])) ≡ (has_key x ys || str_eq x z)
has_key_snoc x z [] = ground arith
has_key_snoc x z (y ∷ ys) = ground (arith, has_key_snoc x z ys)

pub apart-set_key :
    (x : String) (ys zs : List String)
    → apart ys zs ≡ true
    → apart (set_key x ys) (pop_key x zs) ≡ true
unfolding pop_key
apart-set_key x ys [] h = refl
apart-set_key x ys (z ∷ zs) h = ground (arith, has_key_snoc z x ys, apart-set_key x ys zs)

pub apart-pop_items :
    (n : ℕ) (ys : List String) (x : String)
    → has_key x ys ≡ false
    → has_key x (pop_items n ys) ≡ false
unfolding pop_items
apart-pop_items zero ys x h = h
apart-pop_items (suc n) [] x h = refl
apart-pop_items (suc n) (y ∷ ys) x h = ground (arith, apart-pop_items n ys x)

pub has_key-pop_key :
    (x y : String) (ys : List String) → has_key x ys ≡ false → has_key x (pop_key y ys) ≡ false
unfolding pop_key
has_key-pop_key x y [] h = refl
has_key-pop_key x y (z ∷ zs) h = ground (arith, has_key-pop_key x y zs)

pub apart-weaken :
    (ys ws zs : List String)
    → ((x : String) → has_key x ys ≡ false → has_key x ws ≡ false)
    → apart ys zs ≡ true
    → apart ws zs ≡ true
apart-weaken ys ws [] f h = refl
apart-weaken ys ws (z ∷ zs) f h = ground (arith, f z, apart-weaken ys ws zs f)

pub apart-pop_key :
    (x : String) (ys zs : List String) → apart ys zs ≡ true → apart ys (pop_key x zs) ≡ true
unfolding pop_key
apart-pop_key x ys [] h = refl
apart-pop_key x ys (z ∷ zs) h = ground (arith, apart-pop_key x ys zs)

apart_snoc :
    (x : String) (ys zs : List String)
    → has_key x ys ≡ false
    → apart ys zs ≡ true
    → apart ys (zs ++ (x ∷ [])) ≡ true
apart_snoc x ys [] n h = ground arith
apart_snoc x ys (z ∷ zs) n h = ground (arith, apart_snoc x ys zs)

pub apart_new :
    (name : String) (ys zs : List String)
    → has_key name ys ≡ false
    → apart ys zs ≡ true
    → apart ys (set_key name zs) ≡ true
apart_new name ys zs n h = ground (arith, apart_snoc name ys zs)
