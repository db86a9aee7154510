-- ===== src/Worker/Subgraph.antt =====
-- How services/worker/src/handler.py builds the input of `cascade` from the rows of a project, and
-- how `_run_cascade` of services/api/src/main.py does, by the same code.
pub mod Known
use workfront_system.Base.{
  ℕ, ◌≡◌, ◌≢◌, refl, true, false, inl, inr, ◌&&◌, Bool, Option, some, none, List, [], ◌∷◌, map,
  foldl, Memᴰ, arith, filter, Memᴰ-filter, is_some, Option-cases, Outcome, ok, err, key_error,
  ◌>>=◌, minutes,
}
use workfront_system.Cascade.Types.{DepEdge, TaskNode, ScheduleChange, Nodes, update}
use workfront_system.Store.Models.{Task, Predecessor}
use workfront_system.Store.Database.{Dirty}

-- {str(t.id): t for t in tasks}
unfoldable pub by_id : List Task → ℕ → Option Task
by_id tasks = foldl (λ d t. update d t.id (some t)) (λ _. none) tasks

-- The node of a task that has both dates.
abbrev pub make_node : ℕ → Option ℕ → Option ℕ → Option TaskNode
make_node tid (some s) (some f) = some (record { task_id = tid; start = s; finish = f })
make_node tid _ _ = none

abbrev pub task_node : ℕ → Option Task → Option TaskNode
task_node tid none = none
task_node tid (some t) = make_node tid t.planned_start t.planned_completion

unfoldable pub nodes_of : (ℕ → Option Task) → Nodes
nodes_of tasks tid = task_node tid (tasks tid)

abbrev pub edge_of : Predecessor → DepEdge
edge_of e = record {
  predecessor_id = e.predecessor_id;
  successor_id = e.successor_id;
  type = e.type;
  lag = minutes e.lag_minutes;
}

abbrev pub has_nodes : Nodes → Predecessor → Bool
has_nodes nodes e = is_some (nodes e.predecessor_id) && is_some (nodes e.successor_id)

unfoldable pub edges_of : Nodes → List Predecessor → List DepEdge
edges_of nodes rows = map edge_of (filter (has_nodes nodes) rows)

-- by_id[tid]
abbrev pub get_by_id : (ℕ → Option Task) → ℕ → Outcome Task
get_by_id tasks tid = elim (tasks tid) [ none ↦ err key_error | some t ↦ ok t ]

-- t.planned_start = ch.new_start, t.planned_completion = ch.new_finish
abbrev pub moved : Task → ScheduleChange → Dirty
moved t ch = record {
  loaded = t;
  now = record t { planned_start = some ch.new_start; planned_completion = some ch.new_finish };
}

-- The loop that sets the new dates on the loaded tasks.
unfoldable pub assign : (ℕ → Option Task) → List ScheduleChange → Outcome (List Dirty)
assign tasks [] = ok []
assign tasks (ch ∷ changes) = do
  t ← get_by_id tasks ch.task_id
  rest ← assign tasks changes
  ok (moved t ch ∷ rest)
