-- ===== src/Interface.antt =====
-- include/scheduler.hpp: the interface of a scheduler, for times in `D`. `run` is what a call makes of
-- the state, with the time that it takes; what the tasks do is in the state.
use lock_free_work_stealing.Base.{ℕ}

-- The names of the classes, for the strings that `name` returns.
pub data SchedulerName : Type 0 where
  mutex_queue : SchedulerName
  lock_free_queue : SchedulerName
  work_stealing : SchedulerName

pub record IScheduler (D : Type 0) : Type 1 where
  pub State : Type 0
  pub submit : State → ℕ → State
  pub run : ℕ → State → State × D
  pub name : SchedulerName
