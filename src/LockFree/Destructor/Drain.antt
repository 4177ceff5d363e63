-- ===== src/LockFree/Destructor/Drain.antt =====
-- include/lockfree_queue_scheduler.hpp: what `dequeue` returns to a thread that is alone, and what the
-- destructor deletes.
use lock_free_work_stealing.Base.{
  ℕ, zero, suc, ◌+◌, ◌-◌, ◌^◌, ◌<◌, ◌≡◌, ◌∙◌, sym, ap, arith, none, some, [], ◌∷◌, ◌>>=◌,
}
use lock_free_work_stealing.LockFree.{idle, Ring, Reach}
use lock_free_work_stealing.LockFree.Invariant.Steps.{enqueued, enqueued-head, Reach-Inv}
use lock_free_work_stealing.LockFree.Invariant.Filled.{Reach-Filled}
use lock_free_work_stealing.LockFree.Queue.{queued, window}
use lock_free_work_stealing.LockFree.Destructor.{delete_next, drain}
use lock_free_work_stealing.LockFree.Destructor.Alone.{At, Front, dequeue-Front, dequeue-none}

queued_oldest :
    {s t : Ring} {i : ℕ} → Front s i t → s.tail < s.head → queued s ≡ s.entered s.tail ∷ queued t
queued_oldest {s} {t} f p =
    let one_more : s.head - s.tail ≡ suc (t.head - t.tail) = omega (arith, f.tail, f.head) in
    ap (window s.entered s.tail) one_more
    ∙ ap (λ k. s.entered s.tail ∷ window s.entered k (t.head - t.tail)) (sym f.tail)
    ∙ ap (λ g. s.entered s.tail ∷ window g t.tail (t.head - t.tail)) (sym f.entered)

-- With one round of fuel for each task and one more, the loop ends.
drain-queued :
    (n : ℕ) (s : Ring) (i : ℕ)
    → At s i idle
    → s.head ≡ s.tail + n
    → (t : Ring) × ((drain (suc n) s i ≡ some (t, queued s)) × (queued t ≡ []))
unfolding drain
drain-queued zero s i a e =
    let (t, (f, (g, h))) = dequeue-none s i a (omega arith) in
    let none_left : s.head - s.tail ≡ 0 = omega arith in
    (
      t,
      (
        ap (λ o. o >>= delete_next (λ t. none)) f
            ∙ ap (λ k. some (t, window s.entered s.tail k)) (sym none_left),
        ap (window t.entered t.tail) (let k : t.head - t.tail ≡ 0 = omega arith in k),
      ),
    )
drain-queued (suc n) s i a e =
    let (t, f) = dequeue-Front s i a (omega arith) in
    let (u, (g, h)) = drain-queued n t i f.alone (omega (arith, f.tail, f.head)) in
    (
      u,
      (
        ap (λ o. o >>= delete_next (λ r. drain (suc n) r i)) f.returns
            ∙ ap (λ o. o >>= (λ r. some (r.0, s.entered s.tail ∷ r.1))) g
            ∙ ap (λ l. some (u, l)) (sym (queued_oldest f (omega arith))),
        h,
      ),
    )

module _ {s : Ring} (r : Reach s) (small : enqueued r < 2 ^ 62)
    (quiet : (j : ℕ) → s.threads j ≡ idle) (i : ℕ) where
  alone : At s i idle
  alone = record {
    inv = Reach-Inv r small;
    filled = Reach-Filled r small;
    small = omega (arith, enqueued-head r small);
    others = λ j ne. quiet j;
    here = quiet i;
  }

  -- In every state that is reached with fewer than 2^62 calls of `enqueue` and in which no thread is
  -- in a method of the ring: a round for each task that is left and one more are enough for the
  -- loop of the destructor, it deletes these tasks in the order in which they entered, and it
  -- leaves the queue empty.
  pub drain-deletes :
      (t : Ring) × ((drain (suc (s.head - s.tail)) s i ≡ some (t, queued s)) × (queued t ≡ []))
  drain-deletes =
      drain-queued (s.head - s.tail) s i alone (omega (arith, (Reach-Inv r small).ordered))
