-- ===== src/Worker/Handler.antt =====
-- `process_schedule_changed` of services/worker/src/handler.py: one event, in one transaction. What
-- other transactions commit between its reads and its writes is the argument `others`.
pub mod Once
pub mod Writes
pub mod Guarantees
use Prim.Native.String.{String}
use workfront_system.Base.{
  ℕ, Bool, Option, some, none, List, [], ◌∷◌, map, if◌then◌else◌, is_some, Outcome, ok, ◌>>=◌,
}
use workfront_system.Cascade.Types.{DepEdge, ScheduleChange, Nodes, SetOrder}
use workfront_system.Cascade.Run.{cascade}
use workfront_system.Store.Models.{Task, ChangePayload, OutboxEvent, Payload, project_changed}
use workfront_system.Store.Database.{Database}
use workfront_system.Worker.Subgraph.{by_id, nodes_of, edges_of, assign}

abbrev pub worker_group : String
worker_group = "worker-fleet"

-- The entries of `changes`: each change with the version that the flush gave its task.
abbrev pub payloads : List ScheduleChange → List Task → List ChangePayload
payloads (ch ∷ changes) (t ∷ rows) =
    record {
      task_id = ch.task_id;
      planned_start = ch.new_start;
      planned_completion = ch.new_finish;
      version = t.version;
    }
    ∷ payloads changes rows
payloads _ _ = []

abbrev pub changed_event : ℕ → Task → List ChangePayload → OutboxEvent
changed_event new_id origin changes = record {
  id = new_id;
  customer_id = origin.customer_id;
  aggregate_type = "project";
  aggregate_id = origin.project_id;
  event_type = "project.changed";
  partition_key = origin.project_id;
  payload = project_changed origin.id changes;
}

module _ (db : Database) (order : SetOrder) where
  open db use {
    State, get_task, get_processed, tasks_of_project, predecessors_into, flush, add_outbox,
    add_processed,
  }

  -- The cascade over the project of `origin`, as the session reads it.
  unfoldable pub compute : State → Task → (ℕ → Option Task) → Outcome (List ScheduleChange)
  compute s origin tasks =
      let nodes = nodes_of tasks in
      let ids = map (λ t. t.id) (tasks_of_project s origin.project_id) in
      do
        (final, result) ← cascade order origin.id nodes (edges_of nodes (predecessors_into s ids))
        ok result

  -- Set the new dates, flush, and collect the payloads.
  unfoldable pub flush_changes :
      State → (ℕ → Option Task) → List ScheduleChange → Outcome (State × List ChangePayload)
  flush_changes now tasks result = do
    dirty ← assign tasks result
    (flushed, rows) ← flush now dirty
    ok (flushed, payloads result rows)

  -- `if str(origin.id) in nodes: …`
  unfoldable pub write_changes : State → State → Task → Outcome (State × List ChangePayload)
  write_changes s now origin =
      let tasks = by_id (tasks_of_project s origin.project_id) in
      if is_some (nodes_of tasks origin.id)
      then compute s origin tasks >>= flush_changes now tasks
      else ok (now, [])

  -- The outbox row, if there is any change.
  abbrev pub emit_changed : State → ℕ → Task → List ChangePayload → State
  emit_changed s new_id origin [] = s
  emit_changed s new_id origin (c ∷ cs) = add_outbox s (changed_event new_id origin (c ∷ cs))

  abbrev pub finish_event :
      State → ℕ → Task → String → ℕ → List ChangePayload → Outcome (State × List ChangePayload)
  finish_event s new_id origin group event_id changes = do
    marked ← add_processed s (record { consumer_group = group; event_id = event_id })
    ok (emit_changed marked new_id origin changes, changes)

  -- The task is gone: record the event, and nothing else.
  abbrev pub mark_only : State → String → ℕ → Outcome (State × List ChangePayload)
  mark_only s group event_id = do
    marked ← add_processed s (record { consumer_group = group; event_id = event_id })
    ok (marked, [])

  abbrev pub cascade_event :
      State → State → ℕ → Task → String → ℕ → Outcome (State × List ChangePayload)
  cascade_event s now new_id origin group event_id = do
    (written, changes) ← write_changes s now origin
    finish_event written new_id origin group event_id changes

  -- `new_id` is the fresh id of the outbox row.
  unfoldable pub process_schedule_changed :
      State → (State → State) → ℕ → ℕ → ℕ → String → Outcome (State × List ChangePayload)
  process_schedule_changed s others new_id event_id task_id group =
      if get_processed s group event_id then ok (others s, []) else elim (get_task s task_id) [
        | none ↦ mark_only (others s) group event_id
        | some origin ↦ cascade_event s (others s) new_id origin group event_id
      ]
