-- ===== src/OrderManager/Reservations/Accounted.antt =====
-- While the order manager assigns reserved orders (manager.py), each of them is left or assigned, and
-- those that it cancels are requested to be.
use ewm_cloud_robotics.Prelude.{
  ℕ, ◌≡◌, refl, String, eq_iff, Bool, true, false, not, ◌||◌, Bool-cases, inl, inr, Option, none,
  some, List, [], ◌∷◌, ◌++◌, if◌then◌else◌, any, arith,
}
use ewm_cloud_robotics.Types.{WhoIdentifier, ident_eq}
use ewm_cloud_robotics.OrderManager.Manager.{
  EwmError, no_order_found, robot_not_found, order_assigned, task_assigned, key_error, diverges,
  EwmRequest, assign_robot_warehouseorder, unset_warehouseorder_in_process, Ewm, EwmOrderManager,
  send,
}
use ewm_cloud_robotics.OrderManager.Reservations.Types.{
  OrderAssignment, assignment_eq, assignment_ident, is_in, remove_ident,
}
use ewm_cloud_robotics.OrderManager.Reservations.Processing.{cancel}
use ewm_cloud_robotics.OrderManager.Reservations.Assigning.{
  Assigning, AssignResult, assigns, aborts, ◌next◌, after_send, is_assigned, after_assign,
  assign_one, assign_all,
}

abbrev pub assigned_to : WhoIdentifier → OrderAssignment → Bool
assigned_to w o = ident_eq w (assignment_ident o)

abbrev pub is_cancel : WhoIdentifier → EwmRequest → Bool
is_cancel w (unset_warehouseorder_in_process lgnum who) =
    ident_eq w (record { lgnum = lgnum; who = who })
is_cancel w _ = false

is_in-remove_ident :
    (w v : WhoIdentifier) (ws : List WhoIdentifier)
    → is_in w ws ≡ true
    → (is_in w (remove_ident v ws) || ident_eq w v) ≡ true
unfolding remove_ident ident_eq
is_in-remove_ident w v [] h = ground arith
is_in-remove_ident w v (u ∷ us) h = ground (
  arith,
  is_in-remove_ident w v us,
  eq_iff v.lgnum u.lgnum,
  eq_iff v.who u.who,
  eq_iff w.lgnum u.lgnum,
  eq_iff w.who u.who,
  eq_iff w.lgnum v.lgnum,
  eq_iff w.who v.who,
)

assigned_before :
    (w : WhoIdentifier) (o : OrderAssignment) (os : List OrderAssignment)
    → any (assignment_eq o) os ≡ true
    → ident_eq w (assignment_ident o) ≡ true
    → any (assigned_to w) os ≡ true
unfolding assignment_eq ident_eq
assigned_before w o [] h e = ground arith
assigned_before w o (p ∷ ps) h e = ground (
  arith,
  assigned_before w o ps,
  eq_iff o.lgnum p.lgnum,
  eq_iff o.who p.who,
  eq_iff w.lgnum p.lgnum,
  eq_iff w.who p.who,
  eq_iff w.lgnum o.lgnum,
  eq_iff w.who o.who,
)

any_snoc :
    (w : WhoIdentifier) (os : List OrderAssignment) (o : OrderAssignment)
    → any (assigned_to w) (os ++ (o ∷ [])) ≡ (any (assigned_to w) os || assigned_to w o)
any_snoc w [] o = ground arith
any_snoc w (p ∷ ps) o = ground (arith, any_snoc w ps o)

-- The order is left, or it was assigned.
abbrev pub Accounted : WhoIdentifier → Assigning → Type 0
Accounted w a = (is_in w a.reserved || any (assigned_to w) a.assigned) ≡ true

abbrev pub Holds : (Assigning → Type 0) → AssignResult → Type 0
Holds P (assigns a) = P a
Holds P (aborts e m) = Unit

if-Holds :
    (P : Assigning → Type 0) (b : Bool) (x y : AssignResult)
    → (b ≡ true → Holds P x)
    → (b ≡ false → Holds P y)
    → Holds P (if b then x else y)
if-Holds P true x y p q = p refl
if-Holds P false x y p q = q refl

next-Holds :
    (P : Assigning → Type 0) (r : AssignResult) (f : Assigning → AssignResult)
    → Holds P r
    → ((a : Assigning) → P a → Holds P (f a))
    → Holds P (r next f)
next-Holds P (assigns a) f h k = k a h
next-Holds P (aborts e m) f h k = tt

after_send-Accounted :
    (w : WhoIdentifier) (e : Option EwmError) (m : EwmOrderManager) (a : Assigning)
    → Accounted w a
    → Holds (Accounted w) (after_send e m a)
unfolding after_send
after_send-Accounted w none m a h = h
after_send-Accounted w (some key_error) m a h = tt
after_send-Accounted w (some diverges) m a h = tt
after_send-Accounted w (some e) m a h = h

is_assigned-Accounted :
    (w : WhoIdentifier) (o : OrderAssignment) (a : Assigning)
    → Accounted w a
    → Accounted w (is_assigned o a)
is_assigned-Accounted w o a h =
    ground (arith, is_in-remove_ident w (assignment_ident o) a.reserved, any_snoc w a.assigned o)

module _ (lower : String → String) (time : ℕ → ℕ) (ewm : Ewm) (fuel : ℕ) (w : WhoIdentifier) where
  after_assign-Accounted :
      (e : Option EwmError) (o : OrderAssignment) (a : Assigning)
      → Accounted w a
      → Holds (Accounted w) (after_assign lower time ewm fuel e o a)
  unfolding after_assign
  after_assign-Accounted none o a h =
      after_send-Accounted w _ _ (is_assigned o a) (is_assigned-Accounted w o a h)
  after_assign-Accounted (some no_order_found) o a h = h
  after_assign-Accounted (some robot_not_found) o a h = h
  after_assign-Accounted (some order_assigned) o a h = h
  after_assign-Accounted (some task_assigned) o a h = h
  after_assign-Accounted (some e) o a h = h

  assign_one-Accounted :
      (o : OrderAssignment) (a : Assigning)
      → Accounted w a
      → Holds (Accounted w) (assign_one lower time ewm fuel o a)
  unfolding assign_one
  assign_one-Accounted o a h =
      let v : WhoIdentifier = assignment_ident o in
      let n : EwmOrderManager =
        send (assign_robot_warehouseorder o.lgnum o.rsrc o.who) a.ewm_manager in
      if-Holds (Accounted w) (not (is_in v a.reserved)) _ _ (λ b. h)
        λ b.
          if-Holds (Accounted w) (any (assignment_eq o) a.assigned) _ _
            (λ c.
              ground (arith, is_in-remove_ident w v a.reserved, assigned_before w o a.assigned c))
            (λ c.
              after_assign-Accounted (ewm.confirm n.ewm_requests) o (record a { ewm_manager = n })
                h)

  pub assign_all-Accounted :
      (os : List OrderAssignment) (a : Assigning)
      → Accounted w a
      → Holds (Accounted w) (assign_all lower time ewm fuel os a)
  unfolding assign_all
  assign_all-Accounted [] a h = h
  assign_all-Accounted (o ∷ os) a h =
      next-Holds (Accounted w) (assign_one lower time ewm fuel o a)
        (assign_all lower time ewm fuel os) (assign_one-Accounted o a h) (assign_all-Accounted os)

  cancel_keeps :
      (ws : List WhoIdentifier) (m : EwmOrderManager)
      → any (is_cancel w) m.ewm_requests ≡ true
      → any (is_cancel w) (cancel ewm ws m).1.ewm_requests ≡ true
  unfolding cancel
  cancel_keeps [] m h = h
  cancel_keeps (v ∷ vs) m h =
      cancel_keeps vs (send (unset_warehouseorder_in_process v.lgnum v.who) m) (ground arith)

  pub cancel-requests :
      (ws : List WhoIdentifier) (m : EwmOrderManager)
      → is_in w ws ≡ true
      → any (is_cancel w) (cancel ewm ws m).1.ewm_requests ≡ true
  unfolding cancel
  cancel-requests [] m h = ground arith
  cancel-requests (v ∷ vs) m h =
      let n : EwmOrderManager = send (unset_warehouseorder_in_process v.lgnum v.who) m in
      elim (Bool-cases (ident_eq w v)) [
        | inl e ↦ cancel_keeps vs n (ground arith)
        | inr d ↦ cancel-requests vs n (ground arith)
      ]
