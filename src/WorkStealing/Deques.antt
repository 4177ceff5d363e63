-- ===== src/WorkStealing/Deques.antt =====
-- include/chase_lev_deque.hpp under include/work_stealing_scheduler.hpp: the deque of the one, access
-- by access, and the lists of tasks of the other.
pub mod Replay
use lock_free_work_stealing.Base.{
  pop_back-append, last_or, front_or, true, false, ℕ, ◌+◌, ◌<◌, ◌≡◌, ◌∙◌, refl, sym, ap, subst,
  arith, Option, none, some, List, [], ◌∷◌, ◌++◌, length, update_self, pop_back, put_front,
}
use lock_free_work_stealing.WorkStealing.{
  Scheduler, Phase, popping, running, checking_pending, push_bottom, set_phase,
}
use lock_free_work_stealing.WorkStealing.Victims.{set_phase-phase}
use lock_free_work_stealing.WorkStealing.Worker.{
  worker_step, pop_task, start_task, set_deque, steal_task, try_attempt,
}
use lock_free_work_stealing.Deque.Array.{Ptr}
use lock_free_work_stealing.Deque.Machine.{fresh, Label, silent, pushed, popped, stole}
use lock_free_work_stealing.Deque.System.{System, Step, Reach, here, next, max_pushes, pushes-le}
use lock_free_work_stealing.Deque.Refine.{Effect, Stolen}
use lock_free_work_stealing.Deque.Safety.{waiting, label, Step-Effect}
use lock_free_work_stealing.WorkStealing.Deques.Replay.{
  ptrs, replay, Thieves, Changes, after_step, Reach-replay,
}

set_deque-deque : (s : Scheduler) (i : ℕ) (xs : List ℕ) → ((set_deque s i xs).workers i).deque ≡ xs
unfolding set_deque
set_deque-deque s i xs =
    ap (λ w. w.deque) (update_self s.workers i (record (s.workers i) { deque = xs }))

-- The scheduler's model of the operation that ends with the label, on a deque of worker `i`, or of
-- the victim `v`, that holds `xs`: its one action leaves `ys` there and gives the worker the task
-- that the operation returns.
module _ (s : Scheduler) (i v start attempt : ℕ) where
  abbrev got : Ptr → Phase
  got none = checking_pending
  got (some y) = running y

  abbrev PoppedAs : Ptr → List ℕ → List ℕ → Option (List ℕ × ℕ) → Type 0
  PoppedAs p xs ys o =
      let t = pop_task (set_deque s i xs) i o in
      ((t.workers i).deque ≡ ys) × ((t.threads i).phase ≡ got p)

  abbrev StolenAs : ℕ → List ℕ → List ℕ → List ℕ → Type 0
  StolenAs x xs ys held =
      let t = steal_task (set_deque s v xs) i start attempt v false held in
      ((t.workers v).deque ≡ ys) × ((t.threads i).phase ≡ running x)

  abbrev pub ActsPop : Ptr → List ℕ → List ℕ → Type 0
  ActsPop p xs ys =
      let t = worker_step (set_deque s i xs) i start false popping in
      ((t.workers i).deque ≡ ys) × ((t.threads i).phase ≡ got p)

  abbrev pub ActsSteal : Ptr → List ℕ → List ℕ → Type 0
  ActsSteal none xs ys =
      let before = set_deque s v xs in
      ((before.workers v).deque ≡ ys)
      × (steal_task before i start attempt v true xs ≡ try_attempt before i start (attempt + 1))
  ActsSteal (some x) xs ys = StolenAs x xs ys xs

  abbrev pub Acts : Label → List ℕ → List ℕ → Type 0
  Acts silent xs ys = ys ≡ xs
  Acts (pushed x) xs ys = (push_bottom (set_deque s i xs).workers i x i).deque ≡ ys
  Acts (popped p) xs ys = ActsPop p xs ys
  Acts (stole r) xs ys = ActsSteal r.task xs ys

  Changes-ActsPop : (p : Ptr) (xs ys : List ℕ) → Changes (popped p) xs ys → ActsPop p xs ys
  unfolding worker_step pop_task start_task set_phase
  Changes-ActsPop none xs ys e =
      subst (PoppedAs none xs ys) (sym (ap pop_back (set_deque-deque s i xs) ∙ e.0))
        (set_deque-deque s i xs ∙ sym e.1, set_phase-phase (set_deque s i xs) i checking_pending)
  Changes-ActsPop (some y) xs ys e =
      let before = set_deque s i xs in
      subst (PoppedAs (some y) xs ys) (sym (ap pop_back (set_deque-deque s i xs) ∙ e)) (
        set_deque-deque before i ys,
        set_phase-phase (record (set_deque before i ys) { ran = y ∷ s.ran }) i (running y),
      )

  Thieves-ActsSteal : (p : Ptr) (xs ys : List ℕ) → Thieves p xs ys → ActsSteal p xs ys
  unfolding steal_task start_task
  Thieves-ActsSteal none [] ys e = (set_deque-deque s v [] ∙ sym e, refl)
  Thieves-ActsSteal none (x ∷ xs) ys e = (set_deque-deque s v (x ∷ xs) ∙ sym e, refl)
  Thieves-ActsSteal (some x) xs ys e = subst (StolenAs x xs ys) (sym e) (
    set_deque-deque (set_deque s v xs) v ys,
    set_phase-phase (record (set_deque (set_deque s v xs) v ys) { ran = x ∷ s.ran }) i (running x),
  )

  Changes-Acts : (l : Label) (xs ys : List ℕ) → Changes l xs ys → Acts l xs ys
  unfolding push_bottom set_deque
  Changes-Acts silent xs ys e = e
  Changes-Acts (pushed x) xs ys e =
      ap (λ w. w.deque) (update_self (set_deque s i xs).workers i _)
      ∙ ap (λ ts. ts ++ x ∷ []) (set_deque-deque s i xs)
      ∙ sym e
  Changes-Acts (popped p) xs ys e = Changes-ActsPop p xs ys e
  Changes-Acts (stole r) xs ys e = Thieves-ActsSteal r.task xs ys e

-- Whatever the interleaving, in every reachable state of a deque with fewer than 2 ^ 61 pushes and
-- for every step from it: the pointers that wait in the deque, before and after, are those of two
-- lists of tasks; where the step ends no method they are one list, and where it ends `push_bottom`,
-- `pop_bottom` or `steal`, the one action that the scheduler's model has for that method turns a
-- deque that holds the first list into one that holds the second, for every scheduler and worker
-- and victim in it, and a task that the method returns is the one that the worker then runs.
pub Step-Acts :
    {s t : System} (r : Reach s) (st : Step s t) (ws : Scheduler) (i v start attempt : ℕ)
    → length s.pushes < max_pushes
    → length t.pushes < max_pushes
    → (waiting s ≡ ptrs (replay r))
      × ((waiting t ≡ ptrs (replay (next r st)))
          × Acts ws i v start attempt (label st) (replay r) (replay (next r st)))
Step-Acts {s} {t} r st ws i v start attempt small small' = (
  Reach-replay r small,
  (
    Reach-replay (next r st) small',
    Changes-Acts ws i v start attempt (label st) (replay r) (replay (next r st))
        (after_step r st small (Reach-replay r small)).1,
  ),
)
