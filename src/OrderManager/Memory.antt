-- ===== src/OrderManager/Memory.antt =====
-- ProcessedMessageMemory of helper.py: the confirmations that the order manager has processed.
-- A dictionary is an association list; `robot_conf_status` is left out, no method here uses it.
use ewm_cloud_robotics.Prelude.{
  ℕ, zero, suc, ◌+◌, ◌-◌, ◌≤◌, ◌<◌, ◌≡◌, refl, ap, str_eq, eq_iff, Bool, true, false, ◌&&◌, ◌||◌,
  List, [], ◌∷◌, ◌++◌, if◌then◌else◌, length, any, arith,
}
use ewm_cloud_robotics.Types.{
  WhoIdentifier, ident_eq, ConfirmWarehouseTask, ConfirmationNumber, first_conf, second_conf,
  ConfirmationType, conf_success, conf_error,
}

unfoldable pub number_eq : ConfirmationNumber → ConfirmationNumber → Bool
number_eq first_conf first_conf = true
number_eq second_conf second_conf = true
number_eq _ _ = false

unfoldable pub type_eq : ConfirmationType → ConfirmationType → Bool
type_eq conf_success conf_success = true
type_eq conf_error conf_error = true
type_eq _ _ = false

-- Two confirmations are equal if all attributes are.
unfoldable pub conf_eq : ConfirmWarehouseTask → ConfirmWarehouseTask → Bool
unfolding number_eq type_eq
conf_eq a b =
    str_eq a.lgnum b.lgnum
    && str_eq a.tanum b.tanum
    && number_eq a.confirmationnumber b.confirmationnumber
    && type_eq a.confirmationtype b.confirmationtype
    && str_eq a.confirmationdate b.confirmationdate
    && str_eq a.who b.who
    && str_eq a.rsrc b.rsrc

abbrev pub Confirmations : Type 0
Confirmations = List (WhoIdentifier × List ConfirmWarehouseTask)

abbrev pub DeletedWhos : Type 0
DeletedWhos = List (WhoIdentifier × ℕ)

pub record ProcessedMessageMemory : Type 0 where
  pub who_confirmations : Confirmations
  pub deleted_whos : DeletedWhos

abbrev pub whoident : ConfirmWarehouseTask → WhoIdentifier
whoident conf = record { lgnum = conf.lgnum; who = conf.who }

-- A missing key stands for the empty list.
unfoldable pub confirmations_of : WhoIdentifier → Confirmations → List ConfirmWarehouseTask
unfolding ident_eq
confirmations_of w [] = []
confirmations_of w ((k, cs) ∷ d) =
    let rest = confirmations_of w d in if ident_eq w k then cs else rest

-- self.who_confirmations[whoident].append(conf)
unfoldable pub append_conf : WhoIdentifier → ConfirmWarehouseTask → Confirmations → Confirmations
unfolding ident_eq
append_conf w c [] = (w, c ∷ []) ∷ []
append_conf w c ((k, cs) ∷ d) =
    let rest = append_conf w c d in if ident_eq w k then (k, cs ++ (c ∷ [])) ∷ d else (k, cs) ∷ rest

-- Reading a missing key of a defaultdict stores the empty list under it.
unfoldable pub touch : WhoIdentifier → Confirmations → Confirmations
unfolding ident_eq
touch w [] = (w, []) ∷ []
touch w ((k, cs) ∷ d) = let rest = touch w d in if ident_eq w k then (k, cs) ∷ d else (k, cs) ∷ rest

unfoldable pub memorize_who_conf :
    ConfirmWarehouseTask → ProcessedMessageMemory → ProcessedMessageMemory
unfolding append_conf
memorize_who_conf conf m = record m {
  who_confirmations = append_conf (whoident conf) conf m.who_confirmations;
}

-- The answer, and the memory after the question.
unfoldable pub check_who_conf_processed :
    ConfirmWarehouseTask → ProcessedMessageMemory → Bool × ProcessedMessageMemory
unfolding touch confirmations_of conf_eq
check_who_conf_processed conf m = (
  any (conf_eq conf) (confirmations_of (whoident conf) m.who_confirmations),
  record m { who_confirmations = touch (whoident conf) m.who_confirmations },
)

unfoldable pub pop_who : WhoIdentifier → Confirmations → Confirmations
unfolding ident_eq
pop_who w [] = []
pop_who w ((k, cs) ∷ d) = let rest = pop_who w d in if ident_eq w k then rest else (k, cs) ∷ rest

-- A new order comes last, an old one keeps its place.
unfoldable pub set_deleted : WhoIdentifier → ℕ → DeletedWhos → DeletedWhos
unfolding ident_eq
set_deleted w time [] = (w, time) ∷ []
set_deleted w time ((k, t) ∷ d) =
    let rest = set_deleted w time d in if ident_eq w k then (k, time) ∷ d else (k, t) ∷ rest

-- The oldest entries are removed, this many, with what is memorized of their orders.
unfoldable pub pop_oldest : ℕ → DeletedWhos → Confirmations → ProcessedMessageMemory
unfolding pop_who
pop_oldest zero ds confs = record { who_confirmations = confs; deleted_whos = ds }
pop_oldest (suc n) [] confs = record { who_confirmations = confs; deleted_whos = [] }
pop_oldest (suc n) ((k, t) ∷ ds) confs = pop_oldest n ds (pop_who k confs)

unfoldable pub delete_who_from_memory :
    WhoIdentifier → ℕ → ProcessedMessageMemory → ProcessedMessageMemory
unfolding set_deleted pop_oldest
delete_who_from_memory w time m =
    let ds = set_deleted w time m.deleted_whos in
    pop_oldest (length ds - 500) ds m.who_confirmations

-- Confirmations that are equal are of one order.
conf_eq-whoident :
    (c d : ConfirmWarehouseTask) (k : WhoIdentifier)
    → conf_eq c d ≡ true
    → ident_eq (whoident d) k ≡ ident_eq (whoident c) k
unfolding conf_eq ident_eq
conf_eq-whoident c d k h = ground (arith, eq_iff c.lgnum d.lgnum, eq_iff c.who d.who)

ident_eq_refl : (w : WhoIdentifier) → ident_eq w w ≡ true
unfolding ident_eq
ident_eq_refl w = ground (arith, eq_iff w.lgnum w.lgnum, eq_iff w.who w.who)

number_eq_refl : (n : ConfirmationNumber) → number_eq n n ≡ true
unfolding number_eq
number_eq_refl first_conf = refl
number_eq_refl second_conf = refl

type_eq_refl : (t : ConfirmationType) → type_eq t t ≡ true
unfolding type_eq
type_eq_refl conf_success = refl
type_eq_refl conf_error = refl

pub conf_eq_refl : (c : ConfirmWarehouseTask) → conf_eq c c ≡ true
unfolding conf_eq
conf_eq_refl c = ground (
  arith,
  eq_iff c.lgnum c.lgnum,
  eq_iff c.tanum c.tanum,
  number_eq_refl c.confirmationnumber,
  type_eq_refl c.confirmationtype,
  eq_iff c.confirmationdate c.confirmationdate,
  eq_iff c.who c.who,
  eq_iff c.rsrc c.rsrc,
)

any_snoc :
    (c d : ConfirmWarehouseTask) (cs : List ConfirmWarehouseTask)
    → any (conf_eq c) (cs ++ (d ∷ [])) ≡ (any (conf_eq c) cs || conf_eq c d)
any_snoc c d [] = ground arith
any_snoc c d (e ∷ cs) = ground (arith, any_snoc c d cs)

found :
    (c d : ConfirmWarehouseTask) (m : Confirmations)
    → any (conf_eq c) (confirmations_of (whoident c) (append_conf (whoident d) d m))
      ≡ (any (conf_eq c) (confirmations_of (whoident c) m) || conf_eq c d)
unfolding append_conf confirmations_of
found c d [] = ground (arith, conf_eq-whoident c d (whoident d), ident_eq_refl (whoident d))
found c d ((k, cs) ∷ m) = ground (arith, conf_eq-whoident c d k, any_snoc c d cs, found c d m)

-- After a confirmation is memorized, exactly it and what was known before count as processed.
pub check_who_conf_processed-memorize_who_conf :
    (c d : ConfirmWarehouseTask) (m : ProcessedMessageMemory)
    → (check_who_conf_processed c (memorize_who_conf d m)).0
      ≡ ((check_who_conf_processed c m).0 || conf_eq c d)
unfolding check_who_conf_processed memorize_who_conf
check_who_conf_processed-memorize_who_conf c d m = found c d m.who_confirmations

touched :
    (w v : WhoIdentifier) (m : Confirmations)
    → confirmations_of w (touch v m) ≡ confirmations_of w m
unfolding touch confirmations_of
touched w v [] = ground arith
touched w v ((k, cs) ∷ m) = ground (arith, touched w v m)

-- A question does not change any answer.
pub check_who_conf_processed_twice :
    (c d : ConfirmWarehouseTask) (m : ProcessedMessageMemory)
    → (check_who_conf_processed c (check_who_conf_processed d m).1).0
      ≡ (check_who_conf_processed c m).0
unfolding check_who_conf_processed
check_who_conf_processed_twice c d m =
    ap (any (conf_eq c)) (touched (whoident c) (whoident d) m.who_confirmations)

length-pop_oldest :
    (n : ℕ) (ds : DeletedWhos) (confs : Confirmations)
    → length (pop_oldest n ds confs).deleted_whos ≡ length ds - n
unfolding pop_oldest
length-pop_oldest zero ds confs = omega arith
length-pop_oldest (suc n) [] confs = omega arith
length-pop_oldest (suc n) ((k, t) ∷ ds) confs =
    ground (arith, length-pop_oldest n ds (pop_who k confs))

pub length-set_deleted :
    (w : WhoIdentifier) (time : ℕ) (ds : DeletedWhos)
    → length (set_deleted w time ds) ≤ length ds + 1
unfolding set_deleted
length-set_deleted w time [] = omega arith
length-set_deleted w time ((k, t) ∷ ds) = ground (arith, length-set_deleted w time ds)

pub pop_oldest_none :
    (n : ℕ) (ds : DeletedWhos) (confs : Confirmations)
    → n ≡ 0
    → (pop_oldest n ds confs).who_confirmations ≡ confs
unfolding pop_oldest
pop_oldest_none zero ds confs h = refl
pop_oldest_none (suc n) ds confs h = ground arith

-- After the deletion of an order at most 500 deleted orders are remembered.
pub length-delete_who_from_memory :
    (w : WhoIdentifier) (time : ℕ) (m : ProcessedMessageMemory)
    → length (delete_who_from_memory w time m).deleted_whos ≤ 500
unfolding delete_who_from_memory
length-delete_who_from_memory w time m =
    let ds = set_deleted w time m.deleted_whos in
    ground (arith, length-pop_oldest (length ds - 500) ds m.who_confirmations)

-- The deletion of an order adds at most one to those that are remembered.
pub length-delete_who_from_memory_step :
    (w : WhoIdentifier) (time : ℕ) (m : ProcessedMessageMemory)
    → length (delete_who_from_memory w time m).deleted_whos ≤ length m.deleted_whos + 1
unfolding delete_who_from_memory
length-delete_who_from_memory_step w time m =
    let ds = set_deleted w time m.deleted_whos in
    omega (
      arith,
      length-pop_oldest (length ds - 500) ds m.who_confirmations,
      length-set_deleted w time m.deleted_whos,
    )

kept :
    (w : WhoIdentifier) (time : ℕ) (m : ProcessedMessageMemory)
    → length m.deleted_whos < 500
    → (delete_who_from_memory w time m).who_confirmations ≡ m.who_confirmations
unfolding delete_who_from_memory
kept w time m h =
    let ds = set_deleted w time m.deleted_whos in
    pop_oldest_none (length ds - 500) ds m.who_confirmations
      (omega (h, length-set_deleted w time m.deleted_whos, arith))

-- While fewer than 500 deleted orders are remembered, the deletion of an order changes no answer
-- on whether a confirmation was processed.
pub check_who_conf_processed-delete_who_from_memory :
    (c : ConfirmWarehouseTask) (w : WhoIdentifier) (time : ℕ) (m : ProcessedMessageMemory)
    → length m.deleted_whos < 500
    → (check_who_conf_processed c (delete_who_from_memory w time m)).0
      ≡ (check_who_conf_processed c m).0
unfolding check_who_conf_processed
check_who_conf_processed-delete_who_from_memory c w time m h =
    ap (λ d. any (conf_eq c) (confirmations_of (whoident c) d)) (kept w time m h)
