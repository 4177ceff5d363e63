-- ===== src/LockFree/Queue.antt =====
-- include/lockfree_queue_scheduler.hpp: the ring as a first-in first-out queue.
pub mod Fifo
pub use Fifo.*
use lock_free_work_stealing.Base.{
  true, false, lt_i64, sub64, ◌≢◌, ℕ_discrete, ℕ, zero, suc, ◌+◌, ◌-◌, ◌^◌, ◌≤◌, ◌<◌, ◌≡◌, ◌∙◌,
  refl, sym, ap, ap₂, subst, arith, Option, none, some, Bool, List, [], ◌∷◌, ◌++◌, update,
  update_ne, update_self, add64, add64-one, Bool-cases, inl, inr, if◌then◌else◌, not, ◌&&◌, ◌==◌,
}
use lock_free_work_stealing.LockFree.{
  slot_of, Op, idle, awaiting, storing, publishing, loading, reading, claiming, taking, returning,
  reloading, Ring, set_op, compare_seq, reserve, op_step, Step, enqueues, dequeues, moves, Reach,
  next,
}
use lock_free_work_stealing.LockFree.Invariant.{OpOk, Inv}
use lock_free_work_stealing.LockFree.Invariant.Steps.{
  enqueued, enqueued-head, Reach-Inv, op_step-head,
}

-- The task of the position that a thread has claimed, as it was given to `enqueue`.
abbrev owed : (ℕ → ℕ) → Op → Option ℕ
owed entered (taking pos) = some (entered pos)
owed entered (returning pos) = some (entered pos)
owed entered _ = none

abbrev owes : Ring → ℕ → Option ℕ
owes s i = owed s.entered (s.threads i)

-- The payload is the task that entered there.
in_hands-owed : {s : Ring} (inv : Inv s) (o : Op) → OpOk s o → in_hands s o ≡ owed s.entered o
in_hands-owed inv (taking pos) ok = ok.1.1.0
in_hands-owed inv (returning pos) ok = inv.right pos ok.1.1
in_hands-owed inv o ok = refl

hands-owes : {s : Ring} → Inv s → hands s ≡ owes s
hands-owes {s} inv k j = in_hands-owed inv (s.threads j) (inv.each j) k

owed-later :
    (s : Ring) (task : ℕ) (o : Op)
    → s.tail ≤ s.head
    → OpOk s o
    → owed (update s.entered s.head task) o ≡ owed s.entered o
owed-later s task (taking pos) le ok =
    ap (λ x. some x) (update_ne s.entered s.head pos task (λ e. absurd (omega (arith, e, ok.0))))
owed-later s task (returning pos) le ok =
    ap (λ x. some x) (update_ne s.entered s.head pos task (λ e. absurd (omega (arith, e, ok.0))))
owed-later s task o le ok = refl

module _ (entered : ℕ → ℕ) (threads : ℕ → Op) (i : ℕ) (o : Op) where
  -- A thread that moves on with what it holds.
  owed-same :
      owed entered o ≡ owed entered (threads i)
      → (j : ℕ) → owed entered (update threads i o j) ≡ owed entered (threads j)
  owed-same e j = elim (ℕ_discrete i j) [
    | yes at ↦
        ap (λ k. owed entered (update threads i o k)) (sym at)
        ∙ ap (owed entered) (update_self threads i o)
        ∙ e
        ∙ ap (λ k. owed entered (threads k)) at
    | no ne ↦ ap (owed entered) (update_ne threads i j o ne)
  ]

  owed-Others : Others i (λ j. owed entered (threads j)) (λ j. owed entered (update threads i o j))
  owed-Others j ne = ap (owed entered) (update_ne threads i j o (λ e. ne (sym e)))

window-ext :
    (f g : ℕ → ℕ) (i n : ℕ) → ((j : ℕ) → j < i + n → g j ≡ f j) → window g i n ≡ window f i n
window-ext f g i zero h = refl
window-ext f g i (suc n) h =
    ap₂ ◌∷◌ (h i (omega arith)) (window-ext f g (i + 1) n (λ j p. h j (omega arith)))

window-suc : (f : ℕ → ℕ) (i n : ℕ) → window f i (suc n) ≡ window f i n ++ f (i + n) ∷ []
window-suc f i zero = ap (λ k. f k ∷ []) (omega arith)
window-suc f i (suc n) =
    ap (◌∷◌ (f i)) (window-suc f (i + 1) n ∙ ap (λ k. window f (i + 1) n ++ f k ∷ []) (omega arith))

window-front :
    (f : ℕ → ℕ) (i j k : ℕ) → k ≡ i + 1 → i < j → window f i (j - i) ≡ f i ∷ window f k (j - k)
window-front f i j k e p = rw e (ap (window f i) sizes)
  where
    sizes : j - i ≡ suc (j - (i + 1))
    sizes = omega arith

reserve-queued :
    (s : Ring) (i task : ℕ)
    → s.tail ≤ s.head
    → s.head < 2 ^ 62
    → queued (reserve s i task) ≡ queued s ++ task ∷ []
unfolding reserve
reserve-queued s i task ordered small =
    ap (window after s.tail) sizes
    ∙ window-suc after s.tail (s.head - s.tail)
    ∙ ap₂ (λ xs x. xs ++ x ∷ [])
        (window-ext s.entered after s.tail (s.head - s.tail)
          (λ j p. update_ne s.entered s.head j task (λ z. omega arith)))
        (ap after last ∙ update_self s.entered s.head task)
  where
    after : ℕ → ℕ
    after = update s.entered s.head task

    last : s.tail + (s.head - s.tail) ≡ s.head
    last = omega arith

    sizes : add64 s.head 1 - s.tail ≡ suc (s.head - s.tail)
    sizes = omega (arith, add64-one s.head (omega arith))

reserve-owes :
    {s : Ring} (i task : ℕ)
    → Inv s
    → s.threads i ≡ idle
    → (j : ℕ) → owes (reserve s i task) j ≡ owes s j
unfolding reserve
reserve-owes {s} i task inv e j =
    let after = update s.entered s.head task in
    owed-same after s.threads i (awaiting s.head task) (ap (owed after) (sym e)) j
    ∙ owed-later s task (s.threads j) inv.ordered (inv.each j)

module _ (s : Ring) (i : ℕ) (small : s.head < 2 ^ 62) (ordered : s.tail ≤ s.head) where
  won : ℕ → Ring
  won pos = record s { tail = add64 pos 1; threads = update s.threads i (taking pos) }

  abbrev Owes : Effect → Ring → Type 0
  Owes e t = Does e (queued s) (owes s) (queued t) (owes t)

  -- A thread that moves on and leaves the queue as it is.
  goes_on :
      (o o' : Op)
      → s.threads i ≡ o
      → owed s.entered o' ≡ owed s.entered o
      → (j : ℕ) → owed s.entered (update s.threads i o' j) ≡ owes s j
  goes_on o o' at e = owed-same s.entered s.threads i o' (e ∙ ap (owed s.entered) (sym at))

  owed-either :
      (b c : Bool) (pos : ℕ)
      → owed s.entered (if b then claiming pos else (if c then idle else reloading)) ≡ none
  owed-either true c pos = refl
  owed-either false true pos = refl
  owed-either false false pos = refl

  compare_seq-owed : (seq pos : ℕ) → owed s.entered (compare_seq seq pos) ≡ none
  unfolding compare_seq
  compare_seq-owed seq pos =
      owed-either (sub64 seq (add64 pos 1) == 0) (lt_i64 (sub64 seq (add64 pos 1)) 0) pos

  op_step-Does :
      (spurious : Bool) (o : Op)
      → s.threads i ≡ o
      → (op_step s i spurious o).tail ≤ s.head
      → Owes (op_effect s i spurious o) (op_step s i spurious o)
  unfolding op_step won
  op_step-Does spurious idle at after = (refl, λ j. refl)
  op_step-Does spurious (awaiting pos task) at after =
      elim (Bool-cases (s.sequence (slot_of pos) == pos)) [
        | inl y ↦ rw y (refl, goes_on (awaiting pos task) (storing pos task) at refl)
        | inr n ↦ rw n (refl, λ j. refl)
      ]
  op_step-Does spurious (storing pos task) at after =
      (refl, goes_on (storing pos task) (publishing pos) at refl)
  op_step-Does spurious (publishing pos) at after = (refl, goes_on (publishing pos) idle at refl)
  op_step-Does spurious loading at after = (refl, goes_on loading (reading s.tail) at refl)
  op_step-Does spurious (reading pos) at after =
      let next = compare_seq (s.sequence (slot_of pos)) pos in
      (refl, goes_on (reading pos) next at (compare_seq-owed (s.sequence (slot_of pos)) pos))
  op_step-Does spurious (claiming pos) at after =
      elim (Bool-cases (s.tail == pos && not spurious)) [
        | inl y ↦
            let first : s.tail ≡ pos = ground (arith, y) in
            let up : add64 pos 1 ≡ s.tail + 1 = add64-one pos (omega arith) ∙ omega arith in
            let below : add64 pos 1 ≤ s.head =
              subst (λ b. (if b then won pos else set_op s i (reading s.tail)).tail ≤ s.head) y
                after in
            rw y (
              (
                s.entered s.tail,
                (
                  window-front s.entered s.tail s.head (add64 pos 1) up (omega (arith, below, up)),
                  ap (owed s.entered) (update_self s.threads i (taking pos))
                      ∙ ap (λ p. some (s.entered p)) (sym first),
                ),
              ),
              (ap (owed s.entered) at, owed-Others s.entered s.threads i (taking pos)),
            )
        | inr n ↦ rw n (refl, goes_on (claiming pos) (reading s.tail) at refl)
      ]
  op_step-Does spurious (taking pos) at after = (refl, goes_on (taking pos) (returning pos) at refl)
  op_step-Does spurious (returning pos) at after = (
    refl,
    (
      (s.entered pos, ap (owed s.entered) at),
      (ap (owed s.entered) (update_self s.threads i idle), owed-Others s.entered s.threads i idle),
    ),
  )
  op_step-Does spurious reloading at after = (refl, goes_on reloading (reading s.tail) at refl)

Step-owes :
    {s t : Ring} (r : Reach s) (st : Step s t)
    → enqueued (next r st) < 2 ^ 62
    → Does (effect st) (queued s) (owes s) (queued t) (owes t)
Step-owes {s} r (enqueues i task e) small =
    let before : enqueued r < 2 ^ 62 = omega arith in
    let inv = Reach-Inv r before in
    (
      reserve-queued s i task inv.ordered (omega (arith, enqueued-head r before)),
      reserve-owes i task inv e,
    )
Step-owes {s} r (dequeues i e) small =
    (refl, owed-same s.entered s.threads i loading (ap (owed s.entered) (sym e)))
Step-owes {s} r (moves i spurious) small =
    op_step-Does s i (omega (arith, enqueued-head r small)) (Reach-Inv r small).ordered spurious
      (s.threads i) refl
      (subst (λ h. (op_step s i spurious (s.threads i)).tail ≤ h)
        (op_step-head s i spurious (s.threads i))
        (Reach-Inv (next r (moves i spurious)) small).ordered)

enqueued-le : {s t : Ring} (r : Reach s) (st : Step s t) → enqueued r ≤ enqueued (next r st)
enqueued-le r (enqueues i task e) = omega arith
enqueued-le r (dequeues i e) = omega arith
enqueued-le r (moves i spurious) = omega arith

-- The ring is a first-in first-out queue, whatever the interleaving. For every step from a state
-- that is reached with fewer than 2^62 calls of `enqueue`: a reservation adds its task at the end of
-- the queue; a compare-and-swap that succeeds removes the task at the front, and the payload in the
-- slot that its thread has claimed is that task; the last store of `dequeue` ends with the task
-- that the exchange has read; every other action, the exchange among them, leaves the queue as it
-- is and each thread with the task that it had, in the slot or read from it.
pub Step-Does :
    {s t : Ring} (r : Reach s) (st : Step s t)
    → enqueued (next r st) < 2 ^ 62
    → Does (effect st) (queued s) (hands s) (queued t) (hands t)
Step-Does {s} {t} r st small =
    let inv : Inv s = Reach-Inv r (omega (arith, enqueued-le r st)) in
    let inv' : Inv t = Reach-Inv (next r st) small in
    subst (λ h. Does (effect st) (queued s) h (queued t) (hands t)) (sym (hands-owes inv))
      (subst (λ h. Does (effect st) (queued s) (owes s) (queued t) h) (sym (hands-owes inv'))
        (Step-owes r st small))
