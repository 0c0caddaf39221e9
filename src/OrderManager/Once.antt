-- ===== src/OrderManager/Once.antt =====
-- Each confirmation is passed on to EWM once: proofs about process_who_cr of manager.py.
use ewm_cloud_robotics.Prelude.{
  ℕ, ◌≤◌, ◌≡◌, refl, sym, ap, subst, ◌∙◌, String, Bool, true, false, Option, none, some, List, [],
  ◌∷◌, if◌then◌else◌, length, is_empty, arith,
}
use ewm_cloud_robotics.Types.{WhoIdentifier, ConfirmWarehouseTask}
use ewm_cloud_robotics.OrderManager.Memory.{
  ProcessedMessageMemory, check_who_conf_processed, memorize_who_conf, conf_eq_refl,
  check_who_conf_processed-memorize_who_conf, check_who_conf_processed_twice, whoident,
  delete_who_from_memory, length-delete_who_from_memory,
}
use ewm_cloud_robotics.OrderManager.Oldest.{check_who_conf_processed-delete_own}
use ewm_cloud_robotics.OrderManager.Manager.{
  EwmError, Ewm, EwmOrderManager, Outcome, done, confirm_warehousetask,
}
use ewm_cloud_robotics.OrderManager.Work.{
  finishes, continue, ◌and_then◌, memorize, send_update, process_new, process_conf, process_confs,
}
use ewm_cloud_robotics.OrderManager.WhoCr.{WhoResource, confirmations_to_process, process_who_cr}
use ewm_cloud_robotics.OrderManager.Forgets.{
  Deletes, same, deletes, confirm_warehousetask-Deletes, send_update-memory,
}

-- The confirmation counts as processed.
abbrev pub known : ConfirmWarehouseTask → ProcessedMessageMemory → Bool
known c p = (check_who_conf_processed c p).0

abbrev pub Known : List ConfirmWarehouseTask → ProcessedMessageMemory → Type 0
Known [] p = Unit
Known (c ∷ cs) p = (known c p ≡ true) × Known cs p

-- The confirmations are of one order.
abbrev pub AllOf : WhoIdentifier → List ConfirmWarehouseTask → Type 0
AllOf w [] = Unit
AllOf w (c ∷ cs) = (whoident c ≡ w) × AllOf w cs

abbrev pub deleted : ProcessedMessageMemory → ℕ
deleted p = length p.deleted_whos

-- What is remembered of the order stays remembered, while at most 500 deleted orders are.
record Remembers (w : WhoIdentifier) (p q : ProcessedMessageMemory) : Type 0 where
  few : deleted p ≤ 500 → deleted q ≤ 500
  remembers :
      (c : ConfirmWarehouseTask)
      → whoident c ≡ w
      → deleted p ≤ 500
      → known c p ≡ true
      → known c q ≡ true

Deletes-Remembers :
    {w : WhoIdentifier} {p q : ProcessedMessageMemory} → Deletes w p q → Remembers w p q
Deletes-Remembers {w} {p} {q} (same e) = record {
  few = λ h. omega (arith, ap (λ r. length r.deleted_whos) e);
  remembers = λ c i h k. ap (known c) e ∙ k;
}
Deletes-Remembers {w} {p} {q} (deletes t e) = record {
  few = λ h. omega (arith, ap (λ r. length r.deleted_whos) e, length-delete_who_from_memory w t p);
  remembers = λ c i h k.
      ap (known c) e
      ∙ ap (λ v. known c (delete_who_from_memory v t p)) (sym i)
      ∙ check_who_conf_processed-delete_own c t p h
      ∙ k;
}

and_then-done : (o : Outcome) → (o and_then done) ≡ o
and_then-done o = go o.raised
  where
    go :
        (r : Option EwmError)
        → continue r o.manager done ≡ record { raised = r; manager = o.manager }
    go none = refl
    go (some e) = refl

deleted-memorize_who_conf :
    (c : ConfirmWarehouseTask) (p : ProcessedMessageMemory)
    → deleted (memorize_who_conf c p) ≡ deleted p
unfolding memorize_who_conf
deleted-memorize_who_conf c p = refl

deleted-check_who_conf_processed :
    (c : ConfirmWarehouseTask) (p : ProcessedMessageMemory)
    → deleted (check_who_conf_processed c p).1 ≡ deleted p
unfolding check_who_conf_processed
deleted-check_who_conf_processed c p = refl

-- The question whether a confirmation was processed may come first.
asked :
    (d : ConfirmWarehouseTask) {w : WhoIdentifier} {p q : ProcessedMessageMemory}
    → Remembers w (check_who_conf_processed d p).1 q
    → Remembers w p q
asked d {p} r = record {
  few = λ h. r.few (omega (arith, deleted-check_who_conf_processed d p));
  remembers = λ c i h k.
      r.remembers c i (omega (arith, deleted-check_who_conf_processed d p))
        (check_who_conf_processed_twice c d p ∙ k);
}

memorized :
    (c : ConfirmWarehouseTask) {w : WhoIdentifier} (p q : ProcessedMessageMemory)
    → Remembers w p q
    → Remembers w p (memorize_who_conf c q) × (known c (memorize_who_conf c q) ≡ true)
memorized c p q r = (
  record {
    few = λ h. omega (arith, r.few h, deleted-memorize_who_conf c q);
    remembers = λ d i h k.
        check_who_conf_processed-memorize_who_conf d c q ∙ ground (arith, r.remembers d i h k);
  },
  check_who_conf_processed-memorize_who_conf c c q ∙ ground (arith, conf_eq_refl c),
)

Known-check_who_conf_processed :
    (cs : List ConfirmWarehouseTask) (c : ConfirmWarehouseTask) (p : ProcessedMessageMemory)
    → Known cs p
    → Known cs (check_who_conf_processed c p).1
Known-check_who_conf_processed [] c p h = tt
Known-check_who_conf_processed (d ∷ cs) c p h =
    (check_who_conf_processed_twice d c p ∙ h.0, Known-check_who_conf_processed cs c p h.1)

-- Nothing is raised, asked or written.
pub record IsIdle (m : EwmOrderManager) (o : Outcome) : Type 0 where
  pub quiet : o.raised ≡ none
  pub asks : o.manager.ewm_requests ≡ m.ewm_requests
  pub writes : o.manager.ordercontroller ≡ m.ordercontroller

module _ (lower : String → String) (time : ℕ → ℕ) (ewm : Ewm) where
  process_new-Remembers :
      (fuel : ℕ) (c : ConfirmWarehouseTask) (m : EwmOrderManager)
      → (process_new lower time ewm fuel c m).raised ≡ none
      → Remembers (whoident c) m.msg_mem (process_new lower time ewm fuel c m).manager.msg_mem
        × (known c (process_new lower time ewm fuel c m).manager.msg_mem ≡ true)
  unfolding process_new
  process_new-Remembers fuel c m h =
      let first : Outcome = confirm_warehousetask lower time ewm c m in
      let n = c.confirmationnumber in
      let t = c.confirmationtype in
      let both : Outcome = first and_then send_update lower time ewm fuel n t c in
      let (b, e) = finishes both (memorize lower time ewm c) h in
      let (a, d) = finishes first (send_update lower time ewm fuel n t c) b in
      let kept : both.manager.msg_mem ≡ first.manager.msg_mem =
        ap (λ o. o.manager.msg_mem) d
        ∙ send_update-memory lower time ewm fuel n t c first.manager in
      subst
        (λ o.
          Remembers (whoident c) m.msg_mem o.manager.msg_mem × (known c o.manager.msg_mem ≡ true))
        (sym e)
        (memorized c m.msg_mem both.manager.msg_mem (
          Deletes-Remembers (
            subst (Deletes (whoident c) m.msg_mem) (sym kept)
              (confirm_warehousetask-Deletes lower time ewm c m))))

  branch-Remembers :
      (fuel : ℕ) (c : ConfirmWarehouseTask) (m m' : EwmOrderManager) (b : Bool)
      → m'.msg_mem ≡ (check_who_conf_processed c m.msg_mem).1
      → known c m.msg_mem ≡ b
      → (if b then done m' else process_new lower time ewm fuel c m').raised ≡ none
      → Remembers
          (whoident c)
          m.msg_mem
          (if b then done m' else process_new lower time ewm fuel c m').manager.msg_mem
        × (known c (if b then done m' else process_new lower time ewm fuel c m').manager.msg_mem
            ≡ true)
  branch-Remembers fuel c m m' true e k h = (
    asked c (Deletes-Remembers (same e)),
    ap (known c) e ∙ check_who_conf_processed_twice c c m.msg_mem ∙ k,
  )
  branch-Remembers fuel c m m' false e k h =
      let r = process_new-Remembers fuel c m' h in
      (
        asked c (
            subst
              (λ p. Remembers (whoident c) p (process_new lower time ewm fuel c m').manager.msg_mem)
              e r.0),
        r.1,
      )

  process_conf-Remembers :
      (fuel : ℕ) (c : ConfirmWarehouseTask) (m : EwmOrderManager)
      → (process_conf lower time ewm fuel c m).raised ≡ none
      → Remembers (whoident c) m.msg_mem (process_conf lower time ewm fuel c m).manager.msg_mem
        × (known c (process_conf lower time ewm fuel c m).manager.msg_mem ≡ true)
  unfolding process_conf
  process_conf-Remembers fuel c m h =
      branch-Remembers fuel c m (record m { msg_mem = (check_who_conf_processed c m.msg_mem).1 })
        (known c m.msg_mem) refl refl h

  -- What is known of the order stays known while confirmations of it are processed.
  process_confs-known :
      (fuel : ℕ) (w : WhoIdentifier) (cs : List ConfirmWarehouseTask) (d : ConfirmWarehouseTask)
      (m : EwmOrderManager)
      → AllOf w cs
      → whoident d ≡ w
      → deleted m.msg_mem ≤ 500
      → (process_confs lower time ewm fuel cs m).raised ≡ none
      → known d m.msg_mem ≡ true
      → known d (process_confs lower time ewm fuel cs m).manager.msg_mem ≡ true
  unfolding process_confs
  process_confs-known fuel w [] d m all i b h k = k
  process_confs-known fuel w (c ∷ cs) d m all i b h k =
      let go = λ (n : EwmOrderManager). process_confs lower time ewm fuel cs n in
      let (a, e) = finishes (process_conf lower time ewm fuel c m) go h in
      let r = (process_conf-Remembers fuel c m a).0 in
      ap (λ o. known d o.manager.msg_mem) e
      ∙ process_confs-known fuel w cs d (process_conf lower time ewm fuel c m).manager all.1 i
          (r.few b) (sym (ap (λ o. o.raised) e) ∙ h) (r.remembers d (i ∙ sym all.0) b k)

  process_confs-Known :
      (fuel : ℕ) (w : WhoIdentifier) (cs : List ConfirmWarehouseTask) (m : EwmOrderManager)
      → AllOf w cs
      → deleted m.msg_mem ≤ 500
      → (process_confs lower time ewm fuel cs m).raised ≡ none
      → Known cs (process_confs lower time ewm fuel cs m).manager.msg_mem
  unfolding process_confs
  process_confs-Known fuel w [] m all b h = tt
  process_confs-Known fuel w (c ∷ cs) m all b h =
      let go = λ (n : EwmOrderManager). process_confs lower time ewm fuel cs n in
      let o : Outcome = process_conf lower time ewm fuel c m in
      let (a, e) = finishes o go h in
      let (r, k) = process_conf-Remembers fuel c m a in
      let h' : (go o.manager).raised ≡ none = sym (ap (λ p. p.raised) e) ∙ h in
      subst (λ p. (known c p.manager.msg_mem ≡ true) × Known cs p.manager.msg_mem) (sym e)
        (
          process_confs-known fuel w cs c o.manager all.1 all.0 (r.few b) h' k,
          process_confs-Known fuel w cs o.manager all.1 (r.few b) h',
        )

  process_confs-IsIdle :
      (fuel : ℕ) (cs : List ConfirmWarehouseTask) (m : EwmOrderManager)
      → Known cs m.msg_mem
      → IsIdle m (process_confs lower time ewm fuel cs m)
  unfolding process_confs process_conf
  process_confs-IsIdle fuel [] m k = record { quiet = refl; asks = refl; writes = refl }
  process_confs-IsIdle fuel (c ∷ cs) m k =
      let m' = record m { msg_mem = (check_who_conf_processed c m.msg_mem).1 } in
      let rest =
        process_confs-IsIdle fuel cs m' (Known-check_who_conf_processed cs c m.msg_mem k.1) in
      rw k.0 (record { quiet = rest.quiet; asks = rest.asks; writes = rest.writes })

  -- With confirmations to process, nothing else is done.
  process_who_cr-confs :
      (fuel : ℕ) (r : WhoResource) (m : EwmOrderManager)
      → is_empty (confirmations_to_process r) ≡ false
      → process_who_cr lower time ewm fuel r m
        ≡ process_confs lower time ewm fuel (confirmations_to_process r) m
  unfolding process_who_cr
  process_who_cr-confs fuel r m n =
      rw n (and_then-done (process_confs lower time ewm fuel (confirmations_to_process r) m))

  -- A resource with confirmations of its own order, not all of them processed before, while at most
  -- 500 orders count as deleted: if they are processed without an exception, to process the same
  -- resource once more asks nothing of EWM, writes no resource and raises no exception.
  pub process_who_cr_again :
      (fuel : ℕ) (r : WhoResource) (m : EwmOrderManager)
      → is_empty (confirmations_to_process r) ≡ false
      → AllOf (record { lgnum = r.lgnum; who = r.who }) (confirmations_to_process r)
      → deleted m.msg_mem ≤ 500
      → (process_who_cr lower time ewm fuel r m).raised ≡ none
      → IsIdle
          (process_who_cr lower time ewm fuel r m).manager
          (process_who_cr lower time ewm fuel r (process_who_cr lower time ewm fuel r m).manager)
  process_who_cr_again fuel r m n all b h =
      let cs = confirmations_to_process r in
      let e = process_who_cr-confs fuel r m n in
      subst (λ o. IsIdle o.manager (process_who_cr lower time ewm fuel r o.manager)) (sym e)
        (rw (process_who_cr-confs fuel r (process_confs lower time ewm fuel cs m).manager n) (
          process_confs-IsIdle fuel cs (process_confs lower time ewm fuel cs m).manager
            (process_confs-Known fuel _ cs m all b (sym (ap (λ o. o.raised) e) ∙ h))))
