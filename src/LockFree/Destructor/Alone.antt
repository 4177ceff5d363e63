-- ===== src/LockFree/Destructor/Alone.antt =====
-- include/lockfree_queue_scheduler.hpp: `dequeue` by a thread that is alone, action by action.
use lock_free_work_stealing.Base.{
  ℕ, suc, ◌+◌, ◌^◌, ◌≤◌, ◌<◌, ◌≡◌, ◌≢◌, ◌∙◌, refl, sym, ap, subst, arith, inl, inr, true, false,
  none, some, update, update_self, update_ne, add64, sub64, lt_i64, add64-one, ◌==◌, ℕ_discrete,
}
use lock_free_work_stealing.LockFree.{
  slot_of, Op, idle, loading, reading, claiming, taking, returning, Ring, set_op, compare_seq,
  op_step,
}
use lock_free_work_stealing.LockFree.Invariant.{reserved, SlotOk, free, full, Inv}
use lock_free_work_stealing.LockFree.Invariant.Frame.{drained-range}
use lock_free_work_stealing.LockFree.Invariant.Enqueue.{slot_of-lt, place-Inv}
use lock_free_work_stealing.LockFree.Invariant.Steps.{op_step-Inv}
use lock_free_work_stealing.LockFree.Invariant.Filled.{Filled, idles, op_step-Filled}
use lock_free_work_stealing.LockFree.Scheduler.{is_idle, dequeued}
use lock_free_work_stealing.LockFree.Scheduler.Moves.{Moved, op_step-Moved}
use lock_free_work_stealing.LockFree.Destructor.{finish, dequeue}

-- Only thread `i` is in a method of the ring, at `op`.
pub record At (s : Ring) (i : ℕ) (op : Op) : Type 0 where
  pub inv : Inv s
  pub filled : Filled s
  pub small : s.head < 2 ^ 62
  pub others : (j : ℕ) → i ≢ j → s.threads j ≡ idle
  pub here : s.threads i ≡ op

At-step :
    {s : Ring} {i : ℕ} {op op' : Op}
    → At s i op
    → (op_step s i false op).threads i ≡ op'
    → At (op_step s i false op) i op'
At-step {s} {i} {op} a e = record {
  inv = op_step-Inv a.inv a.small i false op a.here;
  filled = op_step-Filled s a.filled i a.inv a.small false op a.here;
  small = subst (λ h. h < 2 ^ 62) (sym m.head) a.small;
  others = λ j ne. m.others j ne ∙ a.others j ne;
  here = e;
}
  where
    m : Moved s i op (op_step s i false op)
    m = op_step-Moved s i false op a.here

At-call : {s : Ring} {i : ℕ} → At s i idle → At (set_op s i loading) i loading
At-call {s} {i} a = record {
  inv =
      place-Inv a.inv i loading (λ q b. absurd (ground (arith, b)))
        (λ q b. absurd (ground (arith, b))) (omega arith);
  filled = idles s a.filled i loading (λ p b. ground (arith, sym (ap reserved a.here) ∙ b));
  small = a.small;
  others = λ j ne. update_ne s.threads i j loading ne ∙ a.others j ne;
  here = update_self s.threads i loading;
}

module _ (n : ℕ) (s : Ring) (i : ℕ) (op : Op) where
  finish-more :
      (op' : Op)
      → (op_step s i false op).threads i ≡ op'
      → is_idle op' ≡ false
      → finish (suc n) s i op ≡ finish n (op_step s i false op) i op'
  unfolding finish
  finish-more op' e busy = rw (e, busy) refl

  finish-end :
      (op_step s i false op).threads i ≡ idle
      → finish (suc n) s i op ≡ some (op_step s i false op, dequeued s op)
  unfolding finish
  finish-end e = rw e refl

compare_seq-ready :
    (seq pos : ℕ) → seq ≡ pos + 1 → pos < 2 ^ 62 → compare_seq seq pos ≡ claiming pos
unfolding compare_seq sub64 add64
compare_seq-ready seq pos e small = ground arith

compare_seq-empty : (seq pos : ℕ) → seq ≤ pos → pos < 2 ^ 62 → compare_seq seq pos ≡ idle
unfolding compare_seq sub64 add64 lt_i64
compare_seq-empty seq pos e small = ground arith

-- The slot of the next position to claim, where that position is not reserved.
sequence-behind :
    {s : Ring} → SlotOk s (slot_of s.tail) → s.head ≤ s.tail → s.sequence (slot_of s.tail) ≤ s.tail
sequence-behind (free pos a f low high) l = omega arith
sequence-behind (full pos a f below high wrap holds) l = omega arith

-- What the thread leaves where it has taken the front of the queue.
pub record Front (s : Ring) (i : ℕ) (t : Ring) : Type 0 where
  pub alone : At t i idle
  pub returns : dequeue s i ≡ some (t, some (s.entered s.tail))
  pub tail : t.tail ≡ s.tail + 1
  pub head : t.head ≡ s.head
  pub entered : t.entered ≡ s.entered

module _ (s : Ring) (i : ℕ) (a : At s i idle) where
  -- The states before the compare-and-swap and after it.
  before : Op → Ring
  before op = set_op (set_op (set_op s i loading) i (reading s.tail)) i op

  won : Ring
  won = record s {
    tail = add64 s.tail 1;
    threads = update (before (claiming s.tail)).threads i (taking s.tail);
  }

  At-reading : At (set_op (set_op s i loading) i (reading s.tail)) i (reading s.tail)
  unfolding op_step
  At-reading = At-step (At-call a) (update_self (set_op s i loading).threads i (reading s.tail))

  pub dequeue-Front : s.tail < s.head → (t : Ring) × Front s i t
  unfolding op_step dequeue finish before won
  dequeue-Front p = (
    t,
    record {
      alone = at_end;
      returns =
          finish-more 4 s1 i loading (reading s.tail) At-reading.here refl
          ∙ finish-more 3 s2 i (reading s.tail) (claiming s.tail)
              (ap (λ r. r.threads i) same3 ∙ at3.here) refl
          ∙ ap (λ r. finish 3 r i (claiming s.tail)) same3
          ∙ finish-more 2 s3 i (claiming s.tail) (taking s.tail)
              (ap (λ r. r.threads i) same4 ∙ at4.here) refl
          ∙ ap (λ r. finish 2 r i (taking s.tail)) same4
          ∙ finish-more 1 won i (taking s.tail) (returning s.tail) at5.here refl
          ∙ finish-end 0 s5 i (returning s.tail) at_end.here
          ∙ ap (λ o. some (t, o)) out;
      tail = add64-one s.tail (omega (arith, a.small, p));
      head = refl;
      entered = refl;
    },
  )
    where
      s1 : Ring
      s1 = set_op s i loading

      s2 : Ring
      s2 = set_op s1 i (reading s.tail)

      s3 : Ring
      s3 = before (claiming s.tail)

      s5 : Ring
      s5 = op_step won i false (taking s.tail)

      t : Ring
      t = op_step s5 i false (returning s.tail)

      full_slot : s.sequence (slot_of s.tail) ≡ s.tail + 1
      full_slot = elim (a.filled s.tail (omega arith) p) [
        | inl h ↦ absurd (elim (ℕ_discrete i (h.0)) [
          | yes e ↦
              ground (arith, sym (ap (λ k. reserved (s.threads k)) e ∙ h.1) ∙ ap reserved a.here)
          | no ne ↦ ground (arith, sym (h.1) ∙ ap reserved (a.others (h.0) ne))
        ])
        | inr f ↦ f
      ]

      same3 : op_step s2 i false (reading s.tail) ≡ s3
      same3 = ap (set_op s2 i) (compare_seq-ready _ s.tail full_slot (omega (arith, a.small)))

      at3 : At s3 i (claiming s.tail)
      at3 =
          subst (λ r. At r i (claiming s.tail)) same3
            (At-step At-reading
              (ap (λ r. r.threads i) same3 ∙ update_self s2.threads i (claiming s.tail)))

      same4 : op_step s3 i false (claiming s.tail) ≡ won
      same4 = let e : s.tail == s.tail ≡ true = ground arith in rw e refl

      at4 : At won i (taking s.tail)
      at4 =
          subst (λ r. At r i (taking s.tail)) same4
            (At-step at3 (ap (λ r. r.threads i) same4 ∙ update_self s3.threads i (taking s.tail)))

      at5 : At s5 i (returning s.tail)
      at5 = At-step at4 (update_self won.threads i (returning s.tail))

      at_end : At t i idle
      at_end = At-step at5 (update_self s5.threads i idle)

      out : s5.got s.tail ≡ some (s.entered s.tail)
      out =
          update_self s.got s.tail (s.payload (slot_of s.tail))
          ∙ (drained-range s s.tail full_slot
                (a.inv.slots (slot_of s.tail) (slot_of-lt s.tail))).1.1.1
              (omega arith)

  pub dequeue-none :
      s.head ≤ s.tail
      → (t : Ring) × ((dequeue s i ≡ some (t, none)) × ((t.tail ≡ s.tail) × (t.head ≡ s.head)))
  unfolding op_step dequeue finish
  dequeue-none l = (
    t,
    (
      finish-more 4 s1 i loading (reading s.tail) At-reading.here refl
          ∙ finish-end 3 s2 i (reading s.tail) done,
      (refl, refl),
    ),
  )
    where
      s1 : Ring
      s1 = set_op s i loading

      s2 : Ring
      s2 = set_op s1 i (reading s.tail)

      t : Ring
      t = op_step s2 i false (reading s.tail)

      done : t.threads i ≡ idle
      done =
          update_self s2.threads i (compare_seq (s.sequence (slot_of s.tail)) s.tail)
          ∙ compare_seq-empty _ s.tail
              (sequence-behind (a.inv.slots (slot_of s.tail) (slot_of-lt s.tail)) l)
              (omega (arith, a.small, a.inv.ordered))
