-- ===== src/Cascade/Recompute.antt =====
-- Step 3 of `cascade` and `_earliest_start` (services/worker/src/cascade.py): new dates, task by
-- task. The nodes are mutated in place, so each function returns them.
pub mod Step
pub mod Final
pub mod Raises
pub mod Constraints
use workfront_system.Base.{
  ℕ, Option, some, none, List, [], ◌∷◌, foldl, if◌then◌else◌, ltb, ◌==◌, Outcome, ok, ◌>>=◌,
  add_delta, sub_delta,
}
use workfront_system.Cascade.Types.{
  DepType, fs, ss, ff, sf, TaskNode, DepEdge, ScheduleChange, Nodes, duration, get_node, update,
}

-- The constraint of one edge from the predecessor `p`, by the edge's type.
unfoldable pub candidate : DepType → TaskNode → TaskNode → DepEdge → Outcome ℕ
candidate fs node p e = add_delta p.finish e.lag
candidate ss node p e = add_delta p.start e.lag
candidate ff node p e = do t ← add_delta p.finish e.lag; sub_delta t (duration node)
candidate sf node p e = do t ← add_delta p.start e.lag; sub_delta t (duration node)

unfoldable pub candidates : TaskNode → List DepEdge → Nodes → Outcome (List ℕ)
candidates node [] nodes = ok []
candidates node (e ∷ preds) nodes = do
  p ← get_node nodes e.predecessor_id
  c ← candidate e.type node p e
  cs ← candidates node preds nodes
  ok (c ∷ cs)

-- max(candidates) if candidates else None
unfoldable pub maximum : List ℕ → Option ℕ
maximum [] = none
maximum (x ∷ xs) = some (foldl (λ m y. if ltb m y then y else m) x xs)

unfoldable pub earliest_start : TaskNode → List DepEdge → Nodes → Outcome (Option ℕ)
unfolding candidates maximum
earliest_start node preds nodes = do cs ← candidates node preds nodes; ok (maximum cs)

-- The second half of the loop's body: what is done with the new start.
unfoldable pub place : Nodes → ℕ → TaskNode → Option ℕ → Outcome (Nodes × Option ScheduleChange)
place nodes tid node none = ok (nodes, none)
place nodes tid node (some new_start) = if new_start == node.start then ok (nodes, none) else do
  new_finish ← add_delta new_start (duration node)
  ok (
    update nodes tid (some (record node { start = new_start; finish = new_finish })),
    some (record { task_id = tid; new_start = new_start; new_finish = new_finish }),
  )

unfoldable pub visit : (ℕ → List DepEdge) → Nodes → ℕ → Outcome (Nodes × Option ScheduleChange)
unfolding earliest_start place
visit predecessors nodes tid = do
  node ← get_node nodes tid
  new_start ← earliest_start node (predecessors tid) nodes
  place nodes tid node new_start

abbrev pub append_change : Option ScheduleChange → List ScheduleChange → List ScheduleChange
append_change none changes = changes
append_change (some c) changes = c ∷ changes

unfoldable pub recompute :
    (ℕ → List DepEdge) → List ℕ → Nodes → Outcome (Nodes × List ScheduleChange)
recompute predecessors [] nodes = ok (nodes, [])
recompute predecessors (tid ∷ topo) nodes = do
  (after, change) ← visit predecessors nodes tid
  (final, changes) ← recompute predecessors topo after
  ok (final, append_change change changes)
