-- ===== src/WorkStealing/Victims.antt =====
-- include/work_stealing_scheduler.hpp, worker_loop: the victims of a round of attempts.
use native.Mathlib.Nat.{mod-eq_of_lt, mod-eq-sub-mod}
use lock_free_work_stealing.WorkStealing.{Scheduler, Phase, stealing, set_phase}
use lock_free_work_stealing.Base.{
  zero, suc, true, ap, List, [], ◌∷◌, length, count, update_self, ℕ, ◌+◌, ◌-◌, ◌%◌, ◌≤◌, ◌<◌, ◌≡◌,
  ◌≢◌, ◌∙◌, arith, dec_lt,
}
use lock_free_work_stealing.WorkStealing.Worker.{start_victim, victim_at, worker_step}

start_victim-lt : (n id roll : ℕ) → id < n → 1 < n → start_victim n id roll < n
unfolding start_victim
start_victim-lt n id roll p q = ground arith

mod_wrap : (a n : ℕ) → a < n + n → (a < n → a % n ≡ a) × (n ≤ a → a % n ≡ a - n)
mod_wrap a n p = (λ q. mod-eq_of_lt q, λ q. mod-eq-sub-mod q ∙ mod-eq_of_lt (omega arith))

-- A thief never tries its own deque, and always one of a worker: in each attempt, whatever the
-- random number, if there is another worker.
pub victim_at-other :
    (n id roll attempt : ℕ)
    → id < n
    → 1 < n
    → (start_victim n id roll < n)
      × ((victim_at n id (start_victim n id roll) attempt < n)
          × (victim_at n id (start_victim n id roll) attempt ≢ id))
unfolding victim_at
victim_at-other n id roll attempt p q =
    let (a, b) = mod_wrap (id + 1) n (omega arith) in
    (
      start_victim-lt n id roll p q,
      (
        ground arith,
        elim (dec_lt (id + 1) n) [
          | yes l ↦ ground (arith, a l)
          | no l ↦ ground (arith, b (omega arith))
        ],
      ),
    )

-- The victims of the attempts that worker `i` makes from a phase on, where each attempt finds
-- nothing; the fuel is a bound on their number.
unfoldable pub tries : ℕ → Scheduler → ℕ → Phase → List ℕ
unfolding worker_step
tries zero s i p = []
tries (suc fuel) s i (stealing start attempt) =
    let t = worker_step s i 0 true (stealing start attempt) in
    victim_at s.size i start attempt ∷ tries fuel t i (t.threads i).phase
tries (suc fuel) s i _ = []

pub set_phase-phase : (s : Scheduler) (i : ℕ) (p : Phase) → ((set_phase s i p).threads i).phase ≡ p
unfolding set_phase
set_phase-phase s i p =
    ap (λ t. t.phase) (update_self s.threads i (record (s.threads i) { phase = p }))

-- The worker just before `start`.
abbrev pub just_before : ℕ → ℕ → ℕ
just_before n start = (start + n - 1) % n

module _ (n i start : ℕ) (p : i < n) (q : start < n) (ne : just_before n start ≢ i)
    (ne' : (i + 1) % n ≢ just_before n start) where
  abbrev Misses : ℕ → List ℕ → Type 0
  Misses attempt xs = (count (just_before n start) xs ≡ 0) × (attempt + length xs ≡ n - 1)

  abbrev tries_of : ℕ → Scheduler → List ℕ
  tries_of fuel t = tries fuel t i (t.threads i).phase
