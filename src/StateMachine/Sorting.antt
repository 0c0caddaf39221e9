-- ===== src/StateMachine/Sorting.antt =====
-- The queue of warehouse orders is worked on by sequence: _sort_warehouseorders and the update
-- that calls it (statemachine.py).
use mathlib.Core.List.{Perm}
use mathlib.Core.List.Perm
use ewm_cloud_robotics.Prelude.{ℕ, ◌≤◌, inl, inr, Bool-cases, [], ◌∷◌, leb, arith}
use ewm_cloud_robotics.Types.{WhoIdentifier, WarehouseOrderCrdSpec}
use ewm_cloud_robotics.StateMachine.Machine.{WhoDict, insert_sorted, sort_warehouseorders}

-- Every entry has at least this sequence.
abbrev pub AllFrom : ℕ → WhoDict → Type 0
AllFrom n [] = Unit
AllFrom n ((k, v) ∷ d) = (n ≤ v.sequence) × AllFrom n d

abbrev pub IsSorted : WhoDict → Type 0
IsSorted [] = Unit
IsSorted ((k, v) ∷ d) = AllFrom v.sequence d × IsSorted d

AllFrom-mono : (n l : ℕ) (d : WhoDict) → l ≤ n → AllFrom n d → AllFrom l d
AllFrom-mono n l [] h a = tt
AllFrom-mono n l ((k, v) ∷ d) h a = (omega arith, AllFrom-mono n l d h a.1)

AllFrom-insert_sorted :
    (n : ℕ) (k : WhoIdentifier) (v : WarehouseOrderCrdSpec) (d : WhoDict)
    → n ≤ v.sequence
    → AllFrom n d
    → AllFrom n (insert_sorted (k, v) d)
unfolding insert_sorted
AllFrom-insert_sorted n k v [] h a = (h, tt)
AllFrom-insert_sorted n k v ((j, u) ∷ d) h a = ground (arith, AllFrom-insert_sorted n k v d)

insert_sorted-IsSorted :
    (k : WhoIdentifier) (v : WarehouseOrderCrdSpec) (d : WhoDict)
    → IsSorted d
    → IsSorted (insert_sorted (k, v) d)
unfolding insert_sorted
insert_sorted-IsSorted k v [] s = (tt, tt)
insert_sorted-IsSorted k v ((j, u) ∷ d) s = elim (Bool-cases (leb v.sequence u.sequence)) [
  | inl y ↦ rw y ((ground arith, AllFrom-mono u.sequence v.sequence d (ground arith) s.0), s)
  | inr n ↦
      rw n (
        AllFrom-insert_sorted u.sequence k v d (ground arith) s.0,
        insert_sorted-IsSorted k v d s.1,
      )
]

sorted : (d : WhoDict) → IsSorted (sort_warehouseorders d)
unfolding sort_warehouseorders
sorted [] = tt
sorted ((k, v) ∷ d) = insert_sorted-IsSorted k v (sort_warehouseorders d) (sorted d)

insert_sorted-perm :
    (k : WhoIdentifier) (v : WarehouseOrderCrdSpec) (d : WhoDict)
    → Perm (insert_sorted (k, v) d) ((k, v) ∷ d)
unfolding insert_sorted
insert_sorted-perm k v [] = Perm.refl ((k, v) ∷ [])
insert_sorted-perm k v ((j, u) ∷ d) = elim (Bool-cases (leb v.sequence u.sequence)) [
  | inl y ↦ rw y (Perm.refl ((k, v) ∷ (j, u) ∷ d))
  | inr n ↦
      rw n (Perm.trans (Perm.cons (j, u) (insert_sorted-perm k v d)) (Perm.swap (k, v) (j, u) d))
]

permuted : (d : WhoDict) → Perm (sort_warehouseorders d) d
unfolding sort_warehouseorders
permuted [] = Perm.refl []
permuted ((k, v) ∷ d) =
    Perm.trans (insert_sorted-perm k v (sort_warehouseorders d)) (Perm.cons (k, v) (permuted d))

-- Sorting the queue orders it by sequence, and neither loses an entry nor adds one.
pub sort_warehouseorders-IsSorted :
    (d : WhoDict) → IsSorted (sort_warehouseorders d) × Perm (sort_warehouseorders d) d
sort_warehouseorders-IsSorted d = (sorted d, permuted d)
