-- ===== src/Dag/Run.antt =====
-- include/task_graph.hpp, TaskGraph::submit_node: the tasks that it makes, run by a scheduler that
-- takes submitted tasks in any order and runs any number of them at once.
use lock_free_work_stealing.Base.{ℕ, ◌≡◌, List, [], ◌∷◌, ◌++◌, map, ◌==◌, if◌then◌else◌, update}
use lock_free_work_stealing.Dag.{TaskGraph, dec32, dec64, execute}

-- Where the task of a node is: in the scheduler's queue, in the user's callable, in the loop over
-- the successors that are still to do, or returned.
pub data Phase : Type 0 where
  queued : Phase
  in_fn : Phase
  decrementing : List ℕ → Phase
  done : Phase

pub record Instance : Type 0 where
  pub node : ℕ
  pub phase : Phase

-- The graph, every task that was ever submitted, and the calls of the users' callables that began
-- and that returned, newest first.
pub record Exec : Type 0 where
  pub graph : TaskGraph
  pub tasks : List Instance
  pub started : List ℕ
  pub finished : List ℕ

abbrev pub submit_node : ℕ → Instance
submit_node n = record { node = n; phase = queued }

-- `execute` up to its call of `run`.
unfoldable pub begin : TaskGraph → Exec
begin g =
    let (g', roots) = execute g in
    record { graph = g'; tasks = map submit_node roots; started = []; finished = [] }

-- `fetch_sub(1)` on the counter of a successor.
unfoldable pub decrement : TaskGraph → ℕ → TaskGraph
decrement g v = record g {
  nodes =
      update g.nodes v (record (g.nodes v) { deps_remaining = dec32 (g.nodes v).deps_remaining });
}

-- The next action of one task, which stands between `before` and `after` among the tasks.
unfoldable pub advance : Exec → List Instance → ℕ → Phase → List Instance → Exec
advance s before n queued after = record s {
  tasks = before ++ record { node = n; phase = in_fn } ∷ after;
  started = n ∷ s.started;
}
advance s before n in_fn after = record s {
  tasks = before ++ record { node = n; phase = decrementing (s.graph.nodes n).successors } ∷ after;
  finished = n ∷ s.finished;
}
advance s before n (decrementing []) after = record s {
  graph = record s.graph { remaining_nodes = dec64 s.graph.remaining_nodes };
  tasks = before ++ record { node = n; phase = done } ∷ after;
}
advance s before n (decrementing (v ∷ rest)) after = record s {
  graph = decrement s.graph v;
  tasks =
      before
      ++ record { node = n; phase = decrementing rest } ∷ after
      ++ (if (s.graph.nodes v).deps_remaining == 1 then submit_node v ∷ [] else []);
}
advance s before n done after = s

pub data Step (s : Exec) : Exec → Type 0 where
  turn :
      (before : List Instance) (n : ℕ) (p : Phase) (after : List Instance)
      → s.tasks ≡ before ++ record { node = n; phase = p } ∷ after
      → Step s (advance s before n p after)

pub data Reach (g : TaskGraph) : Exec → Type 0 where
  here : Reach g (begin g)
  next : {s t : Exec} → Reach g s → Step s t → Reach g t
