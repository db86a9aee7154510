-- ===== src/Tests/Deliveries.antt =====
-- A delivery to the worker (services/worker/src/handler.py) over the database in memory, and the
-- theorems at it.
use workfront_system.Base.{
  ℕ, ◌≡◌, ◌≢◌, refl, ◌⊎◌, List, [], ◌∷◌, ◌++◌, Memᴰ, some, none, ok, err, false, pos, add_delta,
  sub_delta, end_of_time, stale_data_error, overflow_error, integrity_error, dbapi_error,
  dependency_cycle,
}
use workfront_system.Cascade.Types.{fs, inserted, update, index_edges}
use workfront_system.Cascade.Affected.{offer, expand, walk}
use workfront_system.Cascade.Kahn.{count_edge, indegrees, start_kahn, relax, emit, sort}
use workfront_system.Cascade.Recompute.{
  candidate, candidates, maximum, earliest_start, place, visit, recompute,
}
use workfront_system.Cascade.Run.{plan, cascade}
use workfront_system.Store.Models.{Task, ChangePayload, OutboxEvent}
use workfront_system.Store.Tables.{Tables}
use workfront_system.Store.Memory.{memory}
use workfront_system.Worker.Subgraph.{by_id, nodes_of, edges_of, assign}
use workfront_system.Worker.Handler.{
  worker_group, changed_event, process_schedule_changed, compute, flush_changes, write_changes,
}
use workfront_system.Worker.Handler.Once.{process-redelivery, emitted}
use workfront_system.Worker.Handler.Writes.{Saved}
use workfront_system.Worker.Handler.Guarantees.{process-outbox, process-Saved, process-MayRaise}

unfoldable pub program : Unit {0}
unfolding process_schedule_changed write_changes flush_changes compute by_id nodes_of edges_of
    assign cascade plan walk expand offer index_edges start_kahn indegrees count_edge sort emit
    relax recompute visit place earliest_start candidates candidate maximum add_delta sub_delta
    end_of_time
program = tt

abbrev pub task : ℕ → ℕ → ℕ → ℕ → Task
task a s f v = record {
  id = a;
  customer_id = 9;
  project_id = 7;
  parent_id = none;
  name = "task";
  status = "new";
  planned_start = some s;
  planned_completion = some f;
  work_required_minutes = pos 0;
  calendar_id = none;
  percent_complete = 0;
  version = v;
}

-- Task 1 was moved; task 2 follows it.
abbrev pub before : Tables
before = record {
  customers = [];
  projects = λ _. none;
  task_ids = 1 ∷ 2 ∷ [];
  tasks = update (update (λ _. none) 1 (some (task 1 100 108 2))) 2 (some (task 2 50 58 1));
  predecessors =
      record {
        id = 5;
        customer_id = 9;
        predecessor_id = 1;
        successor_id = 2;
        type = fs;
        lag_minutes = pos 0;
      }
      ∷ [];
  outbox = [];
  processed = [];
}

abbrev pub changes : List ChangePayload
changes = record { task_id = 2; planned_start = 108; planned_completion = 116; version = 2 } ∷ []

abbrev event : OutboxEvent
event = changed_event 55 (task 1 100 108 2) changes

abbrev pub after : Tables
after = record before {
  tasks = update before.tasks 2 (some (task 2 108 116 2));
  outbox = event ∷ [];
  processed = record { consumer_group = worker_group; event_id = 99 } ∷ [];
}

pub delivery :
    process_schedule_changed memory inserted before (λ s. s) 55 99 1 worker_group
    ≡ ok (after, changes)
unfolding program
delivery = refl

-- Somebody moved task 2 after the handler had read it.
abbrev edited : Tables → Tables
edited s = record s { tasks = update s.tasks 2 (some (task 2 60 68 2)) }

delivery_stale :
    process_schedule_changed memory inserted before edited 55 99 1 worker_group
    ≡ err stale_data_error
unfolding program
delivery_stale = refl

process-redelivery_example :
    process_schedule_changed memory inserted after edited 56 99 1 worker_group
    ≡ ok (edited after, [])
process-redelivery_example =
    process-redelivery memory inserted inserted before (λ s. s) (λ s. s) edited 55 56 99 1 1
      worker_group (λ seen. seen) (λ seen. seen) delivery

process-outbox_example :
    (memory.get_processed before worker_group 99 ≡ false)
    × (((memory.get_task before 1 ≡ none)
          × (changes ≡ [])
          × (memory.outbox after ≡ memory.outbox before))
        ⊎ ((origin : Task) × (memory.get_task before 1 ≡ some origin)
            × (memory.outbox after ≡ memory.outbox before ++ emitted memory 55 origin changes)))
process-outbox_example =
    process-outbox memory inserted before (λ s. s) 55 99 1 worker_group delivery refl

process-Saved_example :
    ((c : ChangePayload)
      → Memᴰ c changes
      → (origin : Task) × (loaded : Task) × (memory.get_task before 1 ≡ some origin)
        × (by_id (memory.tasks_of_project before origin.project_id) c.task_id ≡ some loaded)
        × Saved memory before after loaded c)
    × ((a : ℕ)
        → ((c : ChangePayload) → Memᴰ c changes → c.task_id ≢ a)
        → memory.get_task after a ≡ memory.get_task before a)
process-Saved_example =
    process-Saved memory inserted before (λ s. s) 55 99 1 worker_group delivery refl

process-MayRaise_example :
    (stale_data_error ≡ stale_data_error)
    ⊎ (stale_data_error ≡ integrity_error)
    ⊎ (stale_data_error ≡ dbapi_error)
    ⊎ (stale_data_error ≡ overflow_error)
    ⊎ (stale_data_error ≡ dependency_cycle)
process-MayRaise_example =
    process-MayRaise memory inserted before edited 55 99 1 worker_group stale_data_error
      delivery_stale
