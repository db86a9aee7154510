-- ===== src/Cascade/Run.antt =====
-- The function `cascade` of services/worker/src/cascade.py.
pub mod Plan
pub mod Result
pub mod Raises
pub mod Deterministic
pub mod Earliest
pub mod Again
use workfront_system.Base.{
  ℕ, suc, List, length, if◌then◌else◌, ◌==◌, Outcome, ok, err, dependency_cycle, ◌>>=◌,
}
use workfront_system.Cascade.Types.{DepEdge, ScheduleChange, Nodes, SetOrder, index_edges}
use workfront_system.Cascade.Affected.{walk, start_walk}
use workfront_system.Cascade.Kahn.{start_kahn, sort}
use workfront_system.Cascade.Recompute.{recompute}

-- Steps 1 and 2, and the test for a cycle: the affected ids in topological order.
unfoldable pub plan : SetOrder → ℕ → List DepEdge → Outcome (List ℕ)
plan order root_id edges = do
  let successors = index_edges (λ e. e.predecessor_id) edges
  affected ← walk successors (suc (length edges)) (start_walk root_id)
  topo ← sort affected successors (length affected) (start_kahn order affected edges)
  if length topo == length affected then ok topo else err dependency_cycle

-- The nodes as the function leaves them, and the changes that it returns.
unfoldable pub cascade : SetOrder → ℕ → Nodes → List DepEdge → Outcome (Nodes × List ScheduleChange)
cascade order root_id nodes edges = do
  topo ← plan order root_id edges
  recompute (index_edges (λ e. e.successor_id) edges) topo nodes
