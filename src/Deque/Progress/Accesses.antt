-- ===== src/Deque/Progress/Accesses.antt =====
-- include/chase_lev_deque.hpp: the accesses of push_bottom and pop_bottom, those of the loop of grow
-- included.
use lock_free_work_stealing.Base.{
  zero, suc, ◌+◌, ◌*◌, ◌^◌, true, Bool, lt_i64, sub64, add64, if◌then◌else◌, sym, ap, Option,
  add64-one, ℕ, ◌-◌, ◌≤◌, ◌<◌, ◌≡◌, refl, ◌∙◌, arith, false, none, List, [], ◌∷◌, length, some,
}
use lock_free_work_stealing.Deque.Machine.{
  ChaseLevDeque, Owner, push_bot, push_top, push_array, push_grow, pop_bot, owner_step,
}
use lock_free_work_stealing.Deque.Array.{CircularArray, make, get, put, copy_from, rounds, grow}
use lock_free_work_stealing.Deque.Progress.{owner_rank, owner_run, owner_run-idle}

-- The loop of `grow` with its own test, from index `i` on, with the number of its accesses to slots so
-- far: each round has a load from the old array and a store to the new one. None is a loop that has
-- not ended with its fuel.
unfoldable pub copy_loop :
    ℕ → ℕ → CircularArray → ℕ → CircularArray → ℕ → Option (CircularArray × ℕ)
copy_loop zero bot old i next n = if lt_i64 i bot then none else some (next, n)
copy_loop (suc fuel) bot old i next n =
    let rest = copy_loop fuel bot old (add64 i 1) (put next i (get old i)) (n + 2) in
    if lt_i64 i bot then rest else some (next, n)

loop_ends : (bot i : ℕ) → i < 2 ^ 63 → bot < 2 ^ 63 → bot - i ≡ 0 → lt_i64 i bot ≡ false
unfolding lt_i64
loop_ends bot i p q e = ground arith

loop_goes_on : (bot i k : ℕ) → i < 2 ^ 63 → bot < 2 ^ 63 → bot - i ≡ suc k → lt_i64 i bot ≡ true
unfolding lt_i64
loop_goes_on bot i k p q e = ground arith

copy_loop-copy_from :
    (fuel bot : ℕ) (old : CircularArray) (i : ℕ) (next : CircularArray) (n k : ℕ)
    → i < 2 ^ 63
    → bot < 2 ^ 63
    → bot - i ≡ k
    → k ≤ fuel
    → copy_loop fuel bot old i next n ≡ some (copy_from k old i next, n + 2 * k)
unfolding copy_loop copy_from
copy_loop-copy_from zero bot old i next n zero p q e l =
    rw (loop_ends bot i p q e) (ap (λ m. some (next, m)) (omega arith))
copy_loop-copy_from (suc fuel) bot old i next n zero p q e l =
    rw (loop_ends bot i p q e) (ap (λ m. some (next, m)) (omega arith))
copy_loop-copy_from zero bot old i next n (suc k) p q e l = absurd (omega arith)
copy_loop-copy_from (suc fuel) bot old i next n (suc k) p q e l =
    let more = loop_goes_on bot i k p q e in
    let up : add64 i 1 ≡ i + 1 = add64-one i (omega arith) in
    let h =
      copy_loop-copy_from fuel bot old (add64 i 1) (put next i (get old i)) (n + 2) k
        (omega (arith, up, e)) q (omega (arith, up, e)) (omega arith) in
    rw more
      (h ∙ ap (λ m. some (copy_from k old (add64 i 1) (put next i (get old i)), m)) (omega arith))

rounds-sub : (bot top : ℕ) → bot < 2 ^ 63 → top < 2 ^ 63 → rounds bot top ≡ bot - top
unfolding rounds lt_i64 sub64
rounds-sub bot top p q = ground arith

-- The accesses of one step of the owner.
abbrev pub accesses : Owner → ℕ
accesses Owner.idle = 0
accesses (push_grow x b t a) = 2 * rounds b t
accesses _ = 1

pub owner_accesses : List ChaseLevDeque → Owner → ℕ
owner_accesses [] o = 0
owner_accesses (d ∷ ds) o = accesses o + owner_accesses ds (owner_step d o).1

-- The accesses that are left, once `push_bottom` has loaded `bot_` and `top_`.
abbrev accesses_left : Owner → ℕ
accesses_left (push_array x b t) = 4 + 2 * rounds b t
accesses_left (push_grow x b t a) = 3 + 2 * rounds b t
accesses_left o = owner_rank o

abbrev has_loaded : Owner → Bool
has_loaded (push_bot x) = false
has_loaded (push_top x b) = false
has_loaded _ = true

owner_step-accesses :
    (d : ChaseLevDeque) (o : Owner)
    → has_loaded o ≡ true
    → (accesses o + accesses_left (owner_step d o).1 ≤ accesses_left o)
      × (has_loaded (owner_step d o).1 ≡ true)
unfolding owner_step
owner_step-accesses d (push_bot x) h = cc
owner_step-accesses d (push_top x b) h = cc
owner_step-accesses d Owner.idle h = (omega arith, refl)
owner_step-accesses d o h = ground (arith, h)

owner_accesses-le :
    (ds : List ChaseLevDeque) (o : Owner)
    → has_loaded o ≡ true
    → owner_accesses ds o ≤ accesses_left o
unfolding owner_accesses
owner_accesses-le [] o h = omega arith
owner_accesses-le (d ∷ ds) o h =
    let (a, b) = owner_step-accesses d o h in
    omega (arith, a, owner_accesses-le ds (owner_step d o).1 b)

-- `push_bottom` and `pop_bottom` are wait-free: each has returned after seven steps of the owner,
-- whatever memory it meets at each, for loaded indices below 2 ^ 63. The steps of `pop_bottom` have
-- seven accesses at most. Those of `push_bottom` have six at most, and two more for each index from
-- the value of `top_` that it loaded up to that of `bot_`, which is how many the loop of `grow`
-- makes: run with its own test, that loop ends within as many rounds as there are such indices, and
-- leaves the array that the step of `grow` makes.
pub owner_wait_free :
    (ds : List ChaseLevDeque) (d e : ChaseLevDeque) (x : ℕ) (old : CircularArray)
    → d.bot < 2 ^ 63
    → e.top < 2 ^ 63
    → 5 ≤ length ds
    → ((owner_run (d ∷ e ∷ ds) pop_bot ≡ Owner.idle) × (owner_accesses (d ∷ e ∷ ds) pop_bot ≤ 7))
      × (((owner_run (d ∷ e ∷ ds) (push_bot x) ≡ Owner.idle)
            × (owner_accesses (d ∷ e ∷ ds) (push_bot x) ≤ 6 + 2 * (d.bot - e.top)))
          × (copy_loop (d.bot - e.top) d.bot old e.top (make (add64 old.log2_cap 1)) 0
              ≡ some (grow old d.bot e.top, 2 * (d.bot - e.top))))
unfolding owner_accesses owner_step grow
owner_wait_free ds d e x old p q enough = (
  (owner_run-idle (d ∷ e ∷ ds) pop_bot (omega arith), owner_accesses-le (d ∷ e ∷ ds) pop_bot refl),
  (
    (
      owner_run-idle (d ∷ e ∷ ds) (push_bot x) (omega arith),
      omega
          (arith, owner_accesses-le ds (push_array x d.bot e.top) refl, rounds-sub d.bot e.top p q),
    ),
    copy_loop-copy_from (d.bot - e.top) d.bot old e.top (make (add64 old.log2_cap 1)) 0
          (d.bot - e.top) q p refl (omega arith)
        ∙ ap (λ m. some (copy_from (d.bot - e.top) old e.top (make (add64 old.log2_cap 1)), m))
            (omega arith)
        ∙ ap (λ k. some (copy_from k old e.top (make (add64 old.log2_cap 1)), 2 * (d.bot - e.top)))
            (sym (rounds-sub d.bot e.top p q)),
  ),
)
