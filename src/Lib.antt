-- ===== src/Lib.antt =====
-- Verification of the work-stealing runtime: a Chase-Lev deque, three schedulers and a task graph.
--
-- The program. A task (include/task.hpp) is a callable that gets the scheduler it runs on. A scheduler
-- (include/scheduler.hpp) takes tasks by `submit`, also from running tasks, and runs all of them in
-- `run`. Three classes implement it: a queue under a mutex (include/mutex_queue_scheduler.hpp), a
-- bounded ring of slots with sequence numbers (include/lockfree_queue_scheduler.hpp), and one
-- Chase-Lev deque for each worker (include/chase_lev_deque.hpp,
-- include/work_stealing_scheduler.hpp). A task graph (include/task_graph.hpp) submits each node to a
-- scheduler when its last predecessor is done.
--
-- The files.
--   Base         shared names, machine words (two's complement patterns below 2 ^ 64), lists indexed by
--                number, families that change at one index, sums.
--   Deque        include/chase_lev_deque.hpp. Array: CircularArray. Machine: push_bottom and pop_bottom
--                (owner_step), steal (thief_step), one shared access in each step, but for the loop of
--                grow, which is one step: no other thread writes what it reads or has what it fills.
--                System: one owner and any number of thieves in any interleaving. Invariant: what every
--                state keeps. Refine, Safety: the deque against a sequence of tasks. Progress: the
--                steps of steal; Accesses: those of the owner, with the loop of grow; Races: lost steals.
--                Destructor, Sequential: the destructor; a push and a pop without a thief.
--   Dag          include/task_graph.hpp. The parent file: node, depends_on, execute. Run: the tasks of
--                submit_node under a scheduler that runs them in any order and any number at once.
--                Invariant: the counters against what the tasks have done. Order, Progress, Build: the
--                results.
--   WorkStealing include/work_stealing_scheduler.hpp. The parent file: submit and run. Worker:
--                worker_loop. Invariant: pending_ against the tasks that are held. Its deques change in
--                one step, and steal may return nothing in any state, as it does when it loses a race.
--                Deques: these steps against those of Deque.
--   LockFree     include/lockfree_queue_scheduler.hpp. The parent file: enqueue and dequeue, one shared
--                access in each step, by any number of threads. Invariant: the sequence numbers. Queue:
--                the ring against a queue. Scheduler: submit, run and worker_loop over the ring, and
--                the accounts. Destructor: dequeue by a thread that is alone, and the loop over it.
--   MutexQueue   include/mutex_queue_scheduler.hpp. The parent file: the critical sections and the two
--                waits. Reached, Safety: the accounts. LostWakeup: what a lost notification leaves.
--   Interface    include/scheduler.hpp: IScheduler, the record of operations that the workloads take.
--   Contract     What a scheduler promises of submit and run, as a record of laws (include/scheduler.hpp).
--                Schedulers: the three classes keep it. Trees: recursive_spawn on any of them.
--   Workloads    include/benchmark.hpp, bench/scaling.cpp and bench/main.cpp: the trees of
--                recursive_spawn, the loops of submissions (Flat), the graph of time_dag_workload
--                (Pipeline), the sweep of thread counts, the medians, the table of scaling.cpp and
--                its summary (Table), the runs of the benchmarks and the table of speedups (Suite).
-- In each part Tests runs the definitions on small schedules.
--
-- Bounds. Machine words are numbers with their wrap-around written out. The theorems on runs assume
-- fewer than 2 ^ 61 pushes to a deque, fewer than 2 ^ 63 submissions to a scheduler, fewer than 2 ^ 62
-- calls of enqueue, and counters of a graph that fit their types: no run of the program comes near.
-- Runs are sequences of steps, without fuel. Two loops have fuel, which their theorems show to be
-- enough: the loop over thread counts, one round more than there are cores, and that of the ring's
-- destructor, one round more than there are tasks, with five actions for each call of dequeue.
--
-- What is not modelled. The memory orders: steps are sequentially consistent. Time, fairness of the
-- operating system's scheduler and allocation failure. The clocks and what prints in the benchmarks.
-- Floating-point numbers: a time is a value of any type with the operations that the code uses.
pub mod Base
pub mod Interface
pub mod Contract
pub mod Dag
pub mod Deque
pub mod LockFree
pub mod MutexQueue
pub mod WorkStealing
pub mod Workloads
