-- ===== src/Api/Schedule.antt =====
-- The schedule move of services/api/src/main.py, `reschedule_task`, with its inline cascade.
pub mod Guarantees
pub mod Inline
pub mod Refusals
use workfront_system.Base.{
  ℕ, Bool, Option, some, List, [], map, if◌then◌else◌, is_some, Outcome, ok, ◌>>=◌,
}
use workfront_system.Cascade.Types.{SetOrder, ScheduleChange}
use workfront_system.Cascade.Run.{cascade}
use workfront_system.Store.Models.{Task, ChangePayload, OutboxEvent, schedule_changed}
use workfront_system.Store.Database.{Database}
use workfront_system.Telemetry.{Carrier}
use workfront_system.Ws.Manager.{ConnectionManager, schedule_cascade}
use workfront_system.Worker.Subgraph.{by_id, nodes_of, edges_of, assign}
use workfront_system.Worker.Handler.{payloads}
use workfront_system.Api.Schemas.{TaskScheduleUpdate, TaskOut, task_out, cascade_data}
use workfront_system.Api.Guards.{
  Surroundings, Reply, load_task, require_match, flush_task, announce,
}

abbrev pub move_task : Task → TaskScheduleUpdate → Task
move_task t body = record t {
  planned_start = some body.planned_start;
  planned_completion = some body.planned_completion;
}

abbrev pub schedule_event : ℕ → ℕ → Carrier → Task → TaskScheduleUpdate → OutboxEvent
schedule_event new_id customer_id trace t body = record {
  id = new_id;
  customer_id = customer_id;
  aggregate_type = "task";
  aggregate_id = t.id;
  event_type = "task.schedule.changed";
  partition_key = t.project_id;
  payload = schedule_changed t.id body.planned_start body.planned_completion t.version trace;
}

module _ (db : Database) (order : SetOrder) where
  open db use {State, tasks_of_project, predecessors_into, flush, add_outbox}

  -- Assign the new dates and flush; the list of ScheduleChangeOut has the fields of the payloads.
  unfoldable pub save_changes :
      State → (ℕ → Option Task) → List ScheduleChange → Outcome (State × List ChangePayload)
  save_changes now tasks result = do
    dirty ← assign tasks result
    (flushed, rows) ← flush now dirty
    ok (flushed, payloads result rows)

  -- _run_cascade
  unfoldable pub run_cascade : State → (State → State) → Task → Outcome (State × List ChangePayload)
  run_cascade s later origin =
      let rows = tasks_of_project s origin.project_id in
      let tasks = by_id rows in
      let nodes = nodes_of tasks in
      let edges = edges_of nodes (predecessors_into s (map (λ t. t.id) rows)) in
      if is_some (nodes origin.id)
      then (cascade order origin.id nodes edges >>= λ r. save_changes (later s) tasks r.1)
      else ok (later s, [])

  module _ (inline_cascade : Bool) (around : Surroundings State) (s : State)
      (m : ConnectionManager) where
    -- Step 3 of the handler, from the state with the outbox row.
    abbrev pub ripple : State → Task → Outcome (Reply State TaskOut)
    ripple queued t =
        if inline_cascade
        then (run_cascade queued around.later t >>= λ r. ok (
            announce db around r.0 m t.project_id schedule_cascade (cascade_data t.id r.1)
              (task_out t)))
        else ok (record { state = queued; manager = m; events = []; body = task_out t })

    unfoldable pub reschedule_task :
        ℕ → TaskScheduleUpdate → Option ℕ → ℕ → Outcome (Reply State TaskOut)
    reschedule_task task_id body if_match customer_id = do
      t ← load_task db s task_id customer_id
      checked ← require_match t.version if_match
      (written, moved) ← flush_task db (around.others s) t (move_task t body)
      let queued =
          add_outbox written (schedule_event around.new_id customer_id around.trace moved body)
      ripple queued moved
