-- ===== src/Tests/Following.antt =====
-- A client that follows the events of services/api/src/main.py over the database in memory.
use workfront_system.Base.{◌≡◌, refl, false, some, none, [], ◌∷◌, ok}
use workfront_system.Cascade.Types.{inserted}
use workfront_system.Store.Tables.{Tables}
use workfront_system.Store.Memory.{memory}
use workfront_system.Ws.Manager.{new_manager, task_updated}
use workfront_system.Api.Schemas.{TaskUpdate, task_out, updated_data}
use workfront_system.Api.Guards.{Surroundings, Reply}
use workfront_system.Api.Tasks.{update_task}
use workfront_system.Api.Service.{Body, patch_task, task_body, dispatch}
use workfront_system.Api.Service.Client.{shown, follow_all}
use workfront_system.Tests.Editing
use workfront_system.Tests.Editing.{body, renamed, reply, changes}
use workfront_system.Tests.Deliveries.{task, before}
use workfront_system.Tests.Requests.{around}

abbrev answer : Reply Tables Body
answer = record {
  state = reply.state;
  manager = reply.manager;
  events = reply.events;
  body = task_body (task_out renamed);
}

renames :
    dispatch memory inserted false around before new_manager (some 9) (patch_task 1 body (some 2))
    ≡ ok answer
unfolding dispatch Editing.program
renames = refl

-- The chart shows the new name.
renamed_client :
    follow_all (λ a. shown (memory.get_task before a)) answer.events 1 ≡ some (task_out renamed)
renamed_client = refl

-- Another client has renamed the task after this request has read it. A request that
-- gives the old name again writes nothing, so its version is not compared with that of the row, and
-- every client is told the old name and version.
abbrev unaware : TaskUpdate
unaware = record { name = some "task"; status = none }

abbrev overtaken : Surroundings Tables
overtaken = record around { others = λ s. reply.state }

old_name :
    update_task memory overtaken before new_manager 1 unaware (some 2) 9
    ≡ ok (record reply {
      events =
          record {
            type = task_updated;
            project_id = 7;
            seq = 1;
            ts = 5000;
            payload = updated_data 1 unaware 2;
          }
          ∷ [];
      body = task_out (task 1 100 108 2);
    })
unfolding Editing.program
old_name = refl
