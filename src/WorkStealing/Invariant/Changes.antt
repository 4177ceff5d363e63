-- ===== src/WorkStealing/Invariant/Changes.antt =====
-- include/work_stealing_scheduler.hpp: the two changes of a worker that keep `pending_` as it is: of
-- its place in the loop, and the start of a task that it took from a deque.
use lock_free_work_stealing.Base.{
  ℕ, ◌+◌, ◌<◌, ◌≡◌, arith, List, update, sum_to, sum_of, sum_to-update, sum_to-term,
}
use lock_free_work_stealing.WorkStealing.{running, Thread, Scheduler, set_phase}
use lock_free_work_stealing.WorkStealing.Worker.{start_task, set_deque}
use lock_free_work_stealing.WorkStealing.Invariant.{
  one, phase_weight, busy, deques, announced, busy_count, Inv,
}

module _ {s : Scheduler} (inv : Inv s) (i : ℕ) (p : i < s.size) where
  pub thread-Inv :
      (t : Thread)
      → ((w : ℕ → ℕ) → phase_weight w t.phase ≡ phase_weight w (s.threads i).phase)
      → busy t.phase ≡ busy (s.threads i).phase
      → Inv (record s { threads = update s.threads i t })
  thread-Inv t weight same = record {
    conserve = λ w. omega (arith, inv.conserve w, a w, weight w);
    counted = omega (arith, inv.counted, a one, b, weight one);
    fewer = omega (arith, inv.fewer, b);
    quiet = λ d. omega (arith, inv.quiet d, a one, b, weight one);
    cleared = inv.cleared;
  }
    where
      a :
          (w : ℕ → ℕ)
          → sum_to s.size (λ k. phase_weight w (update s.threads i t k).phase)
              + phase_weight w (s.threads i).phase
            ≡ announced w s + phase_weight w t.phase
      a w = sum_to-update s.size (λ c. phase_weight w c.phase) s.threads i t p

      b :
          sum_to s.size (λ k. busy (update s.threads i t k).phase) + busy (s.threads i).phase
          ≡ busy_count s + busy t.phase
      b = sum_to-update s.size (λ c. busy c.phase) s.threads i t p

  pub start_task-Inv :
      (j : ℕ)
      → j < s.size
      → (rest : List ℕ) (task : ℕ)
      → ((w : ℕ → ℕ) → sum_of w (s.workers j).deque ≡ w task + sum_of w rest)
      → ((w : ℕ → ℕ) → phase_weight w (s.threads i).phase ≡ 0)
      → busy (s.threads i).phase ≡ 0
      → Inv (start_task (set_deque s j rest) i task)
  unfolding start_task set_deque set_phase sum_of
  start_task-Inv j q rest task taken weight free = record {
    conserve = λ w. omega (arith, inv.conserve w, a w, c w, weight w, taken w);
    counted = omega (arith, inv.counted, a one, b, c one, weight one, taken one);
    fewer = omega (arith, inv.fewer, b);
    quiet = λ d. absurd (
        omega (
          arith,
          inv.quiet d,
          taken one,
          sum_to-term s.size (λ k. sum_of one (s.workers k).deque) j q,
        ));
    cleared = inv.cleared;
  }
    where
      t : Thread
      t = record (s.threads i) { phase = running task }

      a :
          (w : ℕ → ℕ)
          → sum_to s.size (λ k. phase_weight w (update s.threads i t k).phase)
              + phase_weight w (s.threads i).phase
            ≡ announced w s + 0
      a w = sum_to-update s.size (λ c. phase_weight w c.phase) s.threads i t p

      b :
          sum_to s.size (λ k. busy (update s.threads i t k).phase) + busy (s.threads i).phase
          ≡ busy_count s + 1
      b = sum_to-update s.size (λ c. busy c.phase) s.threads i t p

      c :
          (w : ℕ → ℕ)
          → sum_to s.size
                (λ k. sum_of w (update s.workers j (record (s.workers j) { deque = rest }) k).deque)
              + sum_of w (s.workers j).deque
            ≡ deques w s + sum_of w rest
      c w =
          sum_to-update s.size (λ c. sum_of w c.deque) s.workers j
            (record (s.workers j) { deque = rest }) q
