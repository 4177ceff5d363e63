-- ===== src/Deque/Invariant/Change.antt =====
-- include/chase_lev_deque.hpp: the changes of shared memory that the methods make, and what each
-- needs to keep the invariant.
use lock_free_work_stealing.Base.{ℕ, ◌+◌, ◌^◌, ◌≤◌, ◌<◌, ◌≡◌, refl, ◌∙◌, List, arith}
use lock_free_work_stealing.Deque.Array.{CircularArray, get, IsArray}
use lock_free_work_stealing.Deque.Machine.{ChaseLevDeque, Owner, Thief}
use lock_free_work_stealing.Deque.Invariant.{item, bottom, limit, OwnerOk, Inv}
use lock_free_work_stealing.Deque.Invariant.Frame.{Frame, Frame-ThiefOk}

module _ {n : ℕ} {d : ChaseLevDeque} {o : Owner} {th : ℕ → Thief} (v : Inv n d o th) where
  -- The owner moves on, and stores at most to `bot_`; no index becomes live.
  pub set_bot :
      (k : ℕ) (o' : Owner)
      → k < 2 ^ 64
      → bottom (record d { bot = k }) o' ≤ bottom d o
      → d.top ≤ limit (record d { bot = k }) o'
      → limit (record d { bot = k }) o' ≤ bottom (record d { bot = k }) o'
      → OwnerOk (record d { bot = k }) o'
      → (d.top < limit d o → d.top < limit (record d { bot = k }) o')
      → Inv n (record d { bot = k }) o' th
  set_bot k o' fits lower top-le limit-le ok live = record {
    arrays = v.arrays;
    current = v.current;
    word = fits;
    few = omega (arith, v.few);
    top-le = top-le;
    limit-le = limit-le;
    room = omega (arith, v.room);
    live = λ i p q. v.live i p (omega arith);
    owner = ok;
    thieves_ok = λ i. Frame-ThiefOk frame (th i) (v.thieves_ok i);
  }
    where
      frame : Frame d (limit d o) (record d { bot = k }) (limit (record d { bot = k }) o')
      frame = record {
        rises = omega arith;
        heap_grows = omega arith;
        stays_live = λ e. live;
        same_item = λ e h. refl;
        same_get = λ a p e h. refl;
      }

  -- The owner moves on, and nothing else changes.
  pub go_on :
      (o' : Owner)
      → bottom d o' ≡ bottom d o
      → limit d o' ≡ limit d o
      → OwnerOk d o'
      → Inv n d o' th
  go_on o' same_bottom same_limit ok =
      set_bot d.bot o' v.word (omega arith) (omega (arith, v.top-le)) (omega (arith, v.limit-le)) ok
        (λ h. omega arith)

  -- The owner moves on, with changes of the heap that show at no live index.
  pub set_heap :
      (array' next' : ℕ) (old' : List ℕ) (heap' : ℕ → CircularArray) (o' : Owner)
      → let d' = record d { array = array'; old_arrays = old'; heap = heap'; next = next' } in
        ((p : ℕ) → p < next' → IsArray (heap' p))
        → array' < next'
        → d.next ≤ next'
        → bottom d' o' ≡ bottom d o
        → limit d' o' ≡ limit d o
        → bottom d o < d.top + ((heap' array').mask + 1)
        → ((i : ℕ) → d.top ≤ i → i < bottom d o → get (heap' array') i ≡ item d i)
        → ((p : ℕ) → p < d.next → d.top < limit d o → get (heap' p) d.top ≡ get (d.heap p) d.top)
        → OwnerOk d' o'
        → Inv n d' o' th
  set_heap array' next' old' heap' o' arrays current grows bots limits room items gets ok = record {
    arrays = arrays;
    current = current;
    word = v.word;
    few = omega (arith, v.few);
    top-le = omega (arith, v.top-le);
    limit-le = omega (arith, v.limit-le);
    room = omega arith;
    live = λ i p q. let (x, e) = v.live i p (omega arith) in (x, items i p (omega arith) ∙ e);
    owner = ok;
    thieves_ok = λ i. Frame-ThiefOk frame (th i) (v.thieves_ok i);
  }
    where
      d' : ChaseLevDeque
      d' = record d { array = array'; old_arrays = old'; heap = heap'; next = next' }

      frame : Frame d (limit d o) d' (limit d' o')
      frame = record {
        rises = omega arith;
        heap_grows = grows;
        stays_live = λ e h. omega arith;
        same_item = λ e h. items d.top (omega arith) (omega (arith, v.limit-le));
        same_get = λ p q e h. gets p q h;
      }

  -- A compare-exchange on `top_` that wins hands over the oldest index.
  pub set_top :
      (k : ℕ) (o' : Owner)
      → k ≡ d.top + 1
      → d.top < limit d o
      → bottom (record d { top = k }) o' ≡ bottom d o
      → limit (record d { top = k }) o' ≡ limit d o
      → OwnerOk (record d { top = k }) o'
      → Inv n (record d { top = k }) o' th
  set_top k o' next lt bots limits ok = record {
    arrays = v.arrays;
    current = v.current;
    word = v.word;
    few = omega (arith, v.few);
    top-le = omega arith;
    limit-le = omega (arith, v.limit-le);
    room = omega (arith, v.room);
    live = λ i p q. v.live i (omega arith) (omega arith);
    owner = ok;
    thieves_ok = λ i. Frame-ThiefOk frame (th i) (v.thieves_ok i);
  }
    where
      frame : Frame d (limit d o) (record d { top = k }) (limit (record d { top = k }) o')
      frame = record {
        rises = omega arith;
        heap_grows = omega arith;
        stays_live = λ e h. absurd (omega arith);
        same_item = λ e h. refl;
        same_get = λ p q e h. refl;
      }
