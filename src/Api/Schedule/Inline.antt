-- ===== src/Api/Schedule/Inline.antt =====
-- The inline cascade of services/api/src/main.py against the worker's (services/worker/src/handler.py).
use workfront_system.Base.{◌≡◌, refl, inl, inr, map, Outcome-cases}
use workfront_system.Cascade.Types.{SetOrder}
use workfront_system.Cascade.Run.{cascade}
use workfront_system.Store.Models.{Task}
use workfront_system.Store.Database.{Database}
use workfront_system.Worker.Subgraph.{by_id, nodes_of, edges_of}
use workfront_system.Worker.Handler.{compute, flush_changes, write_changes}
use workfront_system.Api.Schedule.{save_changes, run_cascade}

module _ (db : Database) (order : SetOrder) where
  open db use {State, tasks_of_project, predecessors_into}

  -- From the same reads and the same writes of others, the inline cascade writes the same rows,
  -- returns the same changes and raises the same exceptions as the worker does for the moved task.
  pub run_cascade-write_changes :
      (s : State) (later : State → State) (origin : Task)
      → run_cascade db order s later origin ≡ write_changes db order s (later s) origin
  unfolding run_cascade write_changes compute save_changes flush_changes
  run_cascade-write_changes s later origin =
      let rows = tasks_of_project s origin.project_id in
      let nodes = nodes_of (by_id rows) in
      let edges = edges_of nodes (predecessors_into s (map (λ t. t.id) rows)) in
      elim (Outcome-cases (cascade order origin.id nodes edges)) [
        | inl (r, returned) ↦
            rw (run_cascade, write_changes, compute, save_changes, flush_changes, returned) refl
        | inr (x, raised) ↦
            rw (run_cascade, write_changes, compute, save_changes, flush_changes, raised) refl
      ]
