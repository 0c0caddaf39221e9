-- ===== src/OrderManager/Oldest.antt =====
-- The memory of processed messages (helper.py): the deletion of an order forgets no confirmation of
-- this order, however many orders are remembered.
use ewm_cloud_robotics.Prelude.{
  ℕ, zero, suc, ◌+◌, ◌-◌, ◌≤◌, ◌≡◌, refl, ap, ◌∙◌, eq_iff, Bool-cases, inl, inr, false, [], ◌∷◌,
  length, any, arith,
}
use ewm_cloud_robotics.Types.{WhoIdentifier, ident_eq, ConfirmWarehouseTask}
use ewm_cloud_robotics.OrderManager.Memory.{
  Confirmations, DeletedWhos, ProcessedMessageMemory, whoident, confirmations_of, pop_who,
  set_deleted, pop_oldest, delete_who_from_memory, check_who_conf_processed, conf_eq,
  pop_oldest_none, length-set_deleted,
}

-- A removal of another order.
confirmations_of-pop_who :
    (w k : WhoIdentifier) (d : Confirmations)
    → ident_eq w k ≡ false
    → confirmations_of w (pop_who k d) ≡ confirmations_of w d
unfolding confirmations_of pop_who ident_eq
confirmations_of-pop_who w k [] h = refl
confirmations_of-pop_who w k ((j, cs) ∷ d) h = ground (
  arith,
  confirmations_of-pop_who w k d,
  eq_iff w.lgnum k.lgnum,
  eq_iff w.lgnum j.lgnum,
  eq_iff k.lgnum j.lgnum,
  eq_iff w.who k.who,
  eq_iff w.who j.who,
  eq_iff k.who j.who,
)

single_pop : (n l : ℕ) → l ≤ 500 → suc n ≡ suc l - 500 → n ≡ 0
single_pop n l h e = omega arith

-- At most the oldest entry is removed, and that is not the one of `w`, which is new then.
confirmations_of-pop_oldest :
    (w : WhoIdentifier) (time n : ℕ) (ds : DeletedWhos) (confs : Confirmations)
    → length ds ≤ 500
    → n ≡ length (set_deleted w time ds) - 500
    → confirmations_of w (pop_oldest n (set_deleted w time ds) confs).who_confirmations
      ≡ confirmations_of w confs
unfolding pop_oldest set_deleted
confirmations_of-pop_oldest w time zero ds confs h e = refl
confirmations_of-pop_oldest w time (suc n) [] confs h e = absurd (omega arith)
confirmations_of-pop_oldest w time (suc n) ((k, t) ∷ ds) confs h e =
    elim (Bool-cases (ident_eq w k)) [
      | inl y ↦ absurd (omega (arith, h, rw y at e))
      | inr x ↦
          let l : length (set_deleted w time ds) ≤ length ds + 1 = length-set_deleted w time ds in
          let one : n ≡ 0 =
            single_pop n (length (set_deleted w time ds)) (omega arith) (rw x at e) in
          rw x (
            ap (confirmations_of w)
              (pop_oldest_none n (set_deleted w time ds) (pop_who k confs) one)
            ∙ confirmations_of-pop_who w k confs x)
    ]

-- While at most 500 deleted orders are remembered, the deletion of an order changes no answer on
-- whether a confirmation of this order was processed.
pub check_who_conf_processed-delete_own :
    (c : ConfirmWarehouseTask) (time : ℕ) (m : ProcessedMessageMemory)
    → length m.deleted_whos ≤ 500
    → (check_who_conf_processed c (delete_who_from_memory (whoident c) time m)).0
      ≡ (check_who_conf_processed c m).0
unfolding check_who_conf_processed delete_who_from_memory
check_who_conf_processed-delete_own c time m h =
    ap (any (conf_eq c))
      (confirmations_of-pop_oldest (whoident c) time _ m.deleted_whos m.who_confirmations h refl)
