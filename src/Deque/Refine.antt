-- ===== src/Deque/Refine.antt =====
-- include/chase_lev_deque.hpp against its contract: a sequence of tasks to which the owner adds at
-- the bottom, from which the owner takes the newest and thieves take the oldest.
pub mod Window
pub mod OwnerSide
pub mod ThiefSide
use lock_free_work_stealing.Base.{ℕ, ◌≤◌, ◌≡◌, true, false, none, some, List, [], ◌∷◌, ◌++◌, length}
use lock_free_work_stealing.Deque.Array.{Ptr}
use lock_free_work_stealing.Deque.Machine.{Label, silent, pushed, popped, stole, StealResult}

-- What a steal that returns `p`, or `is_empty`, does to the tasks that wait, oldest first.
abbrev pub Stolen : Ptr → List Ptr → List Ptr → Type 0
Stolen none before after = after ≡ before
Stolen (some x) before after = before ≡ some x ∷ after

-- What the end of an operation does to the tasks that wait. A pop that returns nothing found
-- nothing. A steal that reports emptiness found one task at most, and then it is one that the
-- owner is taking at that moment; other accesses change nothing.
abbrev pub Effect : Label → List Ptr → List Ptr → Type 0
Effect silent before after = after ≡ before
Effect (pushed x) before after = after ≡ before ++ some x ∷ []
Effect (popped none) before after = (before ≡ []) × (after ≡ [])
Effect (popped (some x)) before after = before ≡ after ++ some x ∷ []
Effect (stole r) before after =
    Stolen r.task before after × (r.empty ≡ true → (r.task ≡ none) × (length before ≤ 1))
