-- ===== src/LockFree/Scheduler/Invariant/Submits.antt =====
-- include/lockfree_queue_scheduler.hpp, submit: its actions keep the accounts.
use lock_free_work_stealing.Base.{
  ℕ, suc, ◌+◌, ◌^◌, ◌<◌, ◌≡◌, ◌∙◌, refl, sym, ap, subst, arith, Bool, true, Option, length, sum_to,
  sum_of, sum_of-ext, sum_to-ext, sum_to-update, update, update_ind, update_ne, update_self, add64,
  add64-one,
}
use lock_free_work_stealing.LockFree.{
  Op, idle, awaiting, storing, publishing, loading, reading, claiming, taking, returning, reloading,
  reserve,
}
use lock_free_work_stealing.LockFree.Invariant.{OpOk}
use lock_free_work_stealing.LockFree.Invariant.Enqueue.{taken_lt, reserve-Inv}
use lock_free_work_stealing.LockFree.Scheduler.{
  Phase, announcing, inserting, entering, Pool, thread_step,
}
use lock_free_work_stealing.LockFree.Scheduler.Moves.{is_enqueue, op_weight}
use lock_free_work_stealing.LockFree.Scheduler.Invariant.{
  new_weight, busy_weight, Fits, PoolInv, head-le,
}

module _ {limit : ℕ} {s : Pool} (inv : PoolInv limit s) (i : ℕ) (l : i < limit) (spurious : Bool)
    (caller : Option ℕ) where
  pub announcing-PoolInv :
      (task : ℕ)
      → s.threads i ≡ announcing caller task
      → length s.submitted < 2 ^ 62
      → PoolInv limit (thread_step s i spurious (announcing caller task))
  unfolding thread_step sum_of
  announcing-PoolInv task e small = record {
    ring = inv.ring;
    fits = λ j.
        update_ind s.threads (λ q. Fits q (s.ring.threads j)) i j p
          (λ z. subst (λ k. s.ring.threads k ≡ idle) z rest) (λ ne. inv.fits j);
    entered = λ w. omega (
      arith,
      inv.entered w,
      sum_to-update limit (new_weight w) s.threads i p l,
      ap (new_weight w) e,
    );
    taken = inv.taken;
    started = λ w. omega (
      arith,
      inv.started w,
      sum_to-update limit (busy_weight w) s.threads i p l,
      ap (busy_weight w) e,
    );
    counted = omega (arith, inv.counted, add64-one s.pending (omega (arith, inv.counted)));
    bounded = inv.bounded;
  }
    where
      p : Phase
      p = inserting caller task

      rest : s.ring.threads i ≡ idle
      rest = subst (λ q. Fits q (s.ring.threads i)) e (inv.fits i)

  pub inserting-PoolInv :
      (task : ℕ)
      → s.threads i ≡ inserting caller task
      → length s.submitted < 2 ^ 62
      → PoolInv limit (thread_step s i spurious (inserting caller task))
  unfolding thread_step reserve sum_to
  inserting-PoolInv task e small = record {
    ring = reserve-Inv inv.ring i task (omega (arith, head-le inv));
    fits = λ j.
        update_ind s.threads (λ q. Fits q (update s.ring.threads i op j)) i j p
          (λ z.
            subst (λ k. is_enqueue (update s.ring.threads i op k) ≡ true) z
              (ap is_enqueue (update_self s.ring.threads i op)))
          (λ ne.
            subst (Fits (s.threads j)) (sym (update_ne s.ring.threads i j op ne)) (inv.fits j));
    entered = λ w. omega (
      arith,
      inv.entered w,
      sum_to-update limit (new_weight w) s.threads i p l,
      ap (new_weight w) e,
      ap (λ h. sum_to h (λ q. w (after q))) up,
      one_more w,
      sum_to-ext s.ring.head (λ q. w (after q)) (λ q. w (s.ring.entered q)) (λ q b. ap w (old q b)),
      ap w (update_self s.ring.entered s.ring.head task),
    );
    taken = λ w. omega (
      arith,
      inv.taken w,
      sum_of-ext (λ q. w (after q)) (λ q. w (s.ring.entered q)) s.ring.taken
          (λ q c. ap w (old q (omega (arith, taken_lt inv.ring q c, inv.ring.ordered)))),
      sum_to-ext limit (λ j. op_weight (λ q. w (after q)) (update s.ring.threads i op j))
          (λ j. op_weight (λ q. w (s.ring.entered q)) (s.ring.threads j)) (λ j b. held w j),
    );
    started = λ w. omega (
      arith,
      inv.started w,
      sum_to-update limit (busy_weight w) s.threads i p l,
      ap (busy_weight w) e,
    );
    counted = inv.counted;
    bounded = inv.bounded;
  }
    where
      p : Phase
      p = entering caller

      op : Op
      op = awaiting s.ring.head task

      rest : s.ring.threads i ≡ idle
      rest = subst (λ q. Fits q (s.ring.threads i)) e (inv.fits i)

      after : ℕ → ℕ
      after = update s.ring.entered s.ring.head task

      up : add64 s.ring.head 1 ≡ suc s.ring.head
      up = omega (arith, add64-one s.ring.head (omega (arith, head-le inv)))

      one_more :
          (w : ℕ → ℕ)
          → sum_to (suc s.ring.head) (λ q. w (after q))
            ≡ sum_to s.ring.head (λ q. w (after q)) + w (after s.ring.head)
      one_more w = refl

      old : (q : ℕ) → q < s.ring.head → after q ≡ s.ring.entered q
      old q b = update_ne s.ring.entered s.ring.head q task (λ z. omega arith)

      weigh :
          (w : ℕ → ℕ) (o : Op)
          → OpOk s.ring o
          → op_weight (λ q. w (after q)) o ≡ op_weight (λ q. w (s.ring.entered q)) o
      weigh w (returning pos) ok = ap w (old pos (omega (arith, ok.0, inv.ring.ordered)))
      weigh w idle ok = refl
      weigh w (awaiting pos t) ok = refl
      weigh w (storing pos t) ok = refl
      weigh w (publishing pos) ok = refl
      weigh w loading ok = refl
      weigh w (reading pos) ok = refl
      weigh w (claiming pos) ok = refl
      weigh w (taking pos) ok = refl
      weigh w reloading ok = refl

      held :
          (w : ℕ → ℕ) (j : ℕ)
          → op_weight (λ q. w (after q)) (update s.ring.threads i op j)
            ≡ op_weight (λ q. w (s.ring.entered q)) (s.ring.threads j)
      held w j =
          update_ind s.ring.threads
            (λ o.
              op_weight (λ q. w (after q)) o
              ≡ op_weight (λ q. w (s.ring.entered q)) (s.ring.threads j))
            i j op
            (λ z.
              sym (ap (op_weight (λ q. w (s.ring.entered q))) (ap s.ring.threads (sym z) ∙ rest)))
            (λ ne. weigh w (s.ring.threads j) (inv.ring.each j))
