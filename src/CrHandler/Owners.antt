-- ===== src/CrHandler/Owners.antt =====
-- Finalizers and owner references of resources (k8scrhandler.py). Calls of the cluster are taken
-- to succeed: what is patched is the result, and `none` where the method returns False.
use ewm_cloud_robotics.Prelude.{
  ℕ, ◌+◌, String, str_eq, eq_iff, ◌≡◌, refl, Bool, true, false, ◌||◌, Option, none, some, List, [],
  ◌∷◌, ◌++◌, if◌then◌else◌, any, arith,
}
use ewm_cloud_robotics.CrHandler.Events.{Resource}
use ewm_cloud_robotics.CrHandler.Cache.{get_cr}

abbrev keep_head : String → Option (List String) → Option (List String)
keep_head y none = none
keep_head y (some ys) = some (y ∷ ys)

-- list.remove: the first entry that is equal, if there is one.
unfoldable pub remove : String → List String → Option (List String)
remove x [] = none
remove x (y ∷ ys) = let rest = keep_head y (remove x ys) in if str_eq x y then some ys else rest

module _ {ℓ} {A : Type ℓ} where
  abbrev with_finalizer : String → Option (Resource A) → Option (List String)
  with_finalizer f none = none
  with_finalizer f (some r) = some (r.finalizers ++ (f ∷ []))

  -- A resource that is not in the cache is left alone.
  unfoldable pub add_finalizer : String → String → List (Resource A) → Option (List String)
  unfolding get_cr
  add_finalizer name f cache = with_finalizer f (get_cr name cache)

  abbrev without_finalizer : String → Option (Resource A) → Option (List String)
  without_finalizer f none = none
  without_finalizer f (some r) = remove f r.finalizers

  unfoldable pub remove_finalizer : String → String → List (Resource A) → Option (List String)
  unfolding get_cr remove
  remove_finalizer name f cache = without_finalizer f (get_cr name cache)

abbrev pub has_finalizer : String → List String → Bool
has_finalizer f [] = false
has_finalizer f (x ∷ xs) = str_eq f x || has_finalizer f xs

remove_snoc :
    (f : String) (fs : List String)
    → has_finalizer f fs ≡ false
    → remove f (fs ++ (f ∷ [])) ≡ some fs
unfolding remove
remove_snoc f [] h = ground (arith, eq_iff f f)
remove_snoc f (x ∷ xs) h = ground (arith, remove_snoc f xs)

-- An owner of a resource; `controller` is missing or not true where it is false.
pub record OwnerReference : Type 0 where
  pub api_version : String
  pub block_owner_deletion : Bool
  pub controller : Bool
  pub kind : String
  pub name : String
  pub uid : String

pub record Owner : Type 0 where
  pub api_version : String
  pub kind : String
  pub name : String
  pub uid : String

abbrev pub controller_reference : Owner → OwnerReference
controller_reference o = record {
  api_version = o.api_version;
  block_owner_deletion = true;
  controller = true;
  kind = o.kind;
  name = o.name;
  uid = o.uid;
}

abbrev pub is_controlled : List OwnerReference → Bool
is_controlled refs = any (λ r. r.controller) refs

-- The owner references of the controlled resource.
unfoldable pub set_controller_reference : List OwnerReference → Owner → List OwnerReference
set_controller_reference refs owner =
    if is_controlled refs then refs else refs ++ (controller_reference owner ∷ [])

-- How many owners control a resource.
abbrev pub controllers : List OwnerReference → ℕ
controllers [] = 0
controllers (r ∷ rs) = (if r.controller then 1 else 0) + controllers rs

controllers_snoc :
    (refs : List OwnerReference) (o : Owner)
    → controllers (refs ++ (controller_reference o ∷ [])) ≡ controllers refs + 1
controllers_snoc [] o = omega arith
controllers_snoc (r ∷ rs) o = ground (arith, controllers_snoc rs o)

controllers_none : (refs : List OwnerReference) → is_controlled refs ≡ false → controllers refs ≡ 0
controllers_none [] h = refl
controllers_none (r ∷ rs) h = ground (arith, controllers_none rs)

is_controlled_snoc :
    (refs : List OwnerReference) (o : Owner)
    → is_controlled (refs ++ (controller_reference o ∷ [])) ≡ true
is_controlled_snoc [] o = refl
is_controlled_snoc (r ∷ rs) o = ground (arith, is_controlled_snoc rs o)

-- A resource that no owner controls gets exactly one that does, and a second owner changes
-- nothing.
pub set_controller_reference_once :
    (refs : List OwnerReference) (o p : Owner)
    → (set_controller_reference (set_controller_reference refs o) p
        ≡ set_controller_reference refs o)
      × (controllers (set_controller_reference refs o)
          ≡ (if is_controlled refs then controllers refs else 1))
unfolding set_controller_reference
set_controller_reference_once refs o p = (
  ground (arith, is_controlled_snoc refs o),
  ground (arith, controllers_snoc refs o, controllers_none refs),
)

module _ {ℓ} {A : Type ℓ} where
  -- What a finalizer was added to has, once it is removed, the finalizers of before, unless it
  -- was there already.
  pub remove_finalizer-add_finalizer :
      (name f : String) (fs : List String) (r : Resource A) (cache : List (Resource A))
      → get_cr name cache ≡ some r
      → has_finalizer f r.finalizers ≡ false
      → add_finalizer name f cache ≡ some fs
      → remove_finalizer name f (record r { finalizers = fs; name = name } ∷ cache)
        ≡ some r.finalizers
  unfolding add_finalizer remove_finalizer get_cr
  remove_finalizer-add_finalizer name f fs r cache h n e =
      ground (arith, eq_iff name name, remove_snoc f r.finalizers)
