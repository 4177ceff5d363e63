-- ===== src/MutexQueue/LostWakeup.antt =====
-- include/mutex_queue_scheduler.hpp: `done_cv_.notify_all` is called without `mu_`, so it can come
-- between the test of `pending_` in `run` and the block, and is lost.
use lock_free_work_stealing.Base.{
  ℕ, ◌<◌, ◌≡◌, ◌≢◌, ◌∙◌, refl, sym, ap, subst, arith, Bool, true, false, [], update, update_ind,
}
use lock_free_work_stealing.MutexQueue.{
  Phase, locking, sleeping, running, finishing, notifying, returned, blocked, Monitor, notify_one,
  take_task, worker_step, run_driver, Step, child, notice, locked, works, awakens, drives,
}

-- A worker that has nothing to do but to look into the queue.
abbrev pub is_idle : Phase → Bool
is_idle locking = true
is_idle sleeping = true
is_idle _ = false

-- `run` is blocked, no task is left, and all workers are idle.
pub record Hung (s : Monitor) : Type 0 where
  pub waits : s.driver ≡ blocked
  pub nothing : s.queue ≡ []
  pub running_on : s.shutdown ≡ false
  pub idle : (i : ℕ) → i < s.size → is_idle (s.threads i) ≡ true

pub data Steps (s : Monitor) : Monitor → Type 0 where
  none_yet : Steps s s
  also : {t u : Monitor} → Steps s t → Step t u → Steps s u

idle_change :
    (s : Monitor) (i : ℕ) (p : Phase)
    → is_idle p ≡ true
    → ((j : ℕ) → j < s.size → is_idle (s.threads j) ≡ true)
    → (j : ℕ) → j < s.size
    → is_idle (update s.threads i p j) ≡ true
idle_change s i p q h j l =
    update_ind s.threads (λ o. is_idle o ≡ true) i j p (λ e. q) (λ ne. h j l)

notify_one-Hung : {s : Monitor} → Hung s → (i : ℕ) (p : Phase) → Hung (notify_one s i p)
unfolding notify_one
notify_one-Hung {s} h i sleeping = record {
  waits = h.waits;
  nothing = h.nothing;
  running_on = h.running_on;
  idle = idle_change s i locking refl h.idle;
}
notify_one-Hung h i locking = record {
  waits = h.waits;
  nothing = h.nothing;
  running_on = h.running_on;
  idle = h.idle;
}
notify_one-Hung h i (running task) = record {
  waits = h.waits;
  nothing = h.nothing;
  running_on = h.running_on;
  idle = h.idle;
}
notify_one-Hung h i finishing = record {
  waits = h.waits;
  nothing = h.nothing;
  running_on = h.running_on;
  idle = h.idle;
}
notify_one-Hung h i notifying = record {
  waits = h.waits;
  nothing = h.nothing;
  running_on = h.running_on;
  idle = h.idle;
}
notify_one-Hung h i returned = record {
  waits = h.waits;
  nothing = h.nothing;
  running_on = h.running_on;
  idle = h.idle;
}

take_task-Hung : {s : Monitor} → Hung s → (i : ℕ) → Hung (take_task s i [])
unfolding take_task
take_task-Hung {s} h i = record {
  waits = h.waits;
  nothing = h.nothing;
  running_on = h.running_on;
  idle = idle_change s i _ (rw h.running_on refl) h.idle;
}

works-Hung :
    {s : Monitor}
    → Hung s
    → (i : ℕ) (p : Phase) → is_idle p ≡ true
    → p ≢ locking
    → Hung (worker_step s i p)
unfolding worker_step
works-Hung h i locking e ne = absurd (ne refl)
works-Hung h i sleeping e ne = h
works-Hung h i (running task) e ne = absurd (ground (arith, e))
works-Hung h i finishing e ne = absurd (ground (arith, e))
works-Hung h i notifying e ne = absurd (ground (arith, e))
works-Hung h i returned e ne = absurd (ground (arith, e))

Step-Hung : {s t : Monitor} → Hung s → Step s t → Hung t
unfolding worker_step run_driver
Step-Hung h (child i task new p e free) = absurd (ground (arith, h.idle i p, ap is_idle e))
Step-Hung {s} h (notice i p q) = notify_one-Hung h i (s.threads i)
Step-Hung {s} h (locked i p e free) =
    subst (λ q. Hung (take_task s i q)) (sym h.nothing) (take_task-Hung h i)
Step-Hung h (works i p l e ne) = works-Hung h i p (ap is_idle (sym e) ∙ h.idle i l) ne
Step-Hung {s} h (awakens i p e) = record {
  waits = h.waits;
  nothing = h.nothing;
  running_on = h.running_on;
  idle = idle_change s i locking refl h.idle;
}
Step-Hung {s} h drives = subst (λ d. Hung (run_driver s d)) (sym h.waits) h

-- Where `run` is blocked, the queue is empty and all workers are idle, whether or not `pending_` is
-- zero: without a submission by another thread and without a spurious wake-up of the thread that
-- called it, `run` never returns: in every state that follows it is blocked.
pub Hung-blocked : {s t : Monitor} → Hung s → Steps s t → (t.driver ≡ blocked) × (t.queue ≡ [])
Hung-blocked h st = let k = stays h st in (k.waits, k.nothing)
  where
    stays : {s t : Monitor} → Hung s → Steps s t → Hung t
    stays h none_yet = h
    stays h (also st step) = Step-Hung (stays h st) step
