-- ===== src/Tests/Pipelines.antt =====
-- A schedule move and the delivery of its event to the worker, over the database in memory.
use workfront_system.Base.{
  some-injective, ◌≡◌, refl, subst, ◌++◌, true, false, some, [], ◌∷◌, List, ok,
}
use workfront_system.Cascade.Types.{inserted, update}
use workfront_system.Store.Models.{Task, ChangePayload}
use workfront_system.Store.Tables.{Tables}
use workfront_system.Store.Memory.{memory}
use workfront_system.Ws.Manager.{new_manager}
use workfront_system.Api.Schemas.{TaskOut}
use workfront_system.Api.Guards.{Reply, is_same}
use workfront_system.Api.Schedule.{move_task, reschedule_task}
use workfront_system.Worker.Handler.{worker_group, changed_event, process_schedule_changed}
use workfront_system.Pipeline.Agreement.{Agrees, pipeline-Agrees}
use workfront_system.Tests.Deliveries.{program, task, before}
use workfront_system.Tests.Requests.{around, body, moved, reply, move}

abbrev changes : List ChangePayload
changes = record { task_id = 2; planned_start = 208; planned_completion = 216; version = 2 } ∷ []

abbrev worked : Tables
worked = record reply.state {
  tasks = update reply.state.tasks 2 (some (task 2 208 216 2));
  outbox = reply.state.outbox ++ changed_event 55 moved changes ∷ [];
  processed = record { consumer_group = worker_group; event_id = 99 } ∷ [];
}

delivered :
    process_schedule_changed memory inserted reply.state around.later 55 99 1 worker_group
    ≡ ok (worked, changes)
unfolding program
delivered = refl

first_row : (t : Task) → memory.get_task before 1 ≡ some t → is_same t (move_task t body) ≡ false
first_row t e = subst (λ x. is_same x (move_task x body) ≡ false) (some-injective e) refl

pipeline-Agrees_example :
    (direct : Reply Tables TaskOut) × (reschedule_task memory inserted true around before
        new_manager 1 body
        (some 2)
        9
      ≡ ok direct)
    × Agrees memory new_manager 5000 direct reply.body worked changes
pipeline-Agrees_example =
    pipeline-Agrees memory inserted around before new_manager 1 body (some 2) 9 55 99 worker_group
      move first_row refl delivered
