-- ===== src/OrderManager/Confirmations.antt =====
-- Which confirmations of a resource the order manager has still to process:
-- _get_who_confirmations of manager.py.
use ewm_cloud_robotics.Prelude.{
  ◌≡◌, refl, ap₂, eq_iff, ap, ◌∙◌, Bool, true, false, Bool-cases, inl, inr, not, ◌&&◌, ◌||◌, List,
  [], ◌∷◌, if◌then◌else◌, any, arith,
}
use ewm_cloud_robotics.Types.{
  ConfirmWarehouseTask, ConfirmationNumber, first_conf, second_conf, ConfirmationType, conf_success,
  conf_error,
}
use ewm_cloud_robotics.OrderManager.Memory.{conf_eq, number_eq, type_eq}

-- `confs`: the data of the status; `processed_confs`: process_status of the spec. A missing list
-- is empty.
unfoldable pub get_who_confirmations :
    List ConfirmWarehouseTask → List ConfirmWarehouseTask → List ConfirmWarehouseTask
unfolding conf_eq
get_who_confirmations [] processed_confs = []
get_who_confirmations (c ∷ confs) processed_confs =
    let rest = get_who_confirmations confs processed_confs in
    if any (conf_eq c) processed_confs then rest else c ∷ rest

number_eq_sound : (m n : ConfirmationNumber) → number_eq m n ≡ true → m ≡ n
unfolding number_eq
number_eq_sound first_conf first_conf h = refl
number_eq_sound second_conf second_conf h = refl
number_eq_sound first_conf second_conf h = cc
number_eq_sound second_conf first_conf h = cc

type_eq_sound : (s t : ConfirmationType) → type_eq s t ≡ true → s ≡ t
unfolding type_eq
type_eq_sound conf_success conf_success h = refl
type_eq_sound conf_error conf_error h = refl
type_eq_sound conf_success conf_error h = cc
type_eq_sound conf_error conf_success h = cc

-- Confirmations that are equal are equal to the same ones.
conf_eq-same : (c d e : ConfirmWarehouseTask) → conf_eq c d ≡ true → conf_eq d e ≡ conf_eq c e
unfolding conf_eq
conf_eq-same c d e h = ground (
  arith,
  eq_iff c.lgnum d.lgnum,
  eq_iff c.tanum d.tanum,
  number_eq_sound c.confirmationnumber d.confirmationnumber,
  type_eq_sound c.confirmationtype d.confirmationtype,
  eq_iff c.confirmationdate d.confirmationdate,
  eq_iff c.who d.who,
  eq_iff c.rsrc d.rsrc,
)

any-conf_eq_same :
    (c d : ConfirmWarehouseTask) (ps : List ConfirmWarehouseTask)
    → conf_eq c d ≡ true
    → any (conf_eq d) ps ≡ any (conf_eq c) ps
any-conf_eq_same c d [] h = refl
any-conf_eq_same c d (p ∷ ps) h =
    ap₂ (λ x y. x || y) (conf_eq-same c d p h) (any-conf_eq_same c d ps h)

skipped : (e x p q : Bool) → (e ≡ true → q ≡ p) → q ≡ true → (x && not p) ≡ ((e || x) && not p)
skipped true x p q h k = ground arith
skipped false x p q h k = refl

taken :
    (e x p q : Bool) → (e ≡ true → q ≡ p) → q ≡ false → (e || (x && not p)) ≡ ((e || x) && not p)
taken true x p q h k = ground arith
taken false x p q h k = refl

-- A confirmation is among those that are to be processed exactly if the status of the resource holds
-- it and its spec does not hold it as processed.
pub any-get_who_confirmations :
    (c : ConfirmWarehouseTask) (confs processed_confs : List ConfirmWarehouseTask)
    → any (conf_eq c) (get_who_confirmations confs processed_confs)
      ≡ (any (conf_eq c) confs && not (any (conf_eq c) processed_confs))
unfolding get_who_confirmations
any-get_who_confirmations c [] ps = refl
any-get_who_confirmations c (d ∷ cs) ps =
    let rest = any-get_who_confirmations c cs ps in
    let same = any-conf_eq_same c d ps in
    elim (Bool-cases (any (conf_eq d) ps)) [
      | inl y ↦ rw y (rest ∙ skipped (conf_eq c d) _ _ _ same y)
      | inr n ↦ rw n (ap (λ b. conf_eq c d || b) rest ∙ taken (conf_eq c d) _ _ _ same n)
    ]
