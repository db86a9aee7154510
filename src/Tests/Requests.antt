-- ===== src/Tests/Requests.antt =====
-- Schedule moves (services/api/src/main.py) over the database in memory, and the theorems at them.
use workfront_system.Base.{
  ◌≡◌, refl, true, false, some, none, [], ◌∷◌, ok, err, stale_data_error, http_exception,
}
use workfront_system.Cascade.Types.{inserted, update}
use workfront_system.Telemetry.{Carrier}
use workfront_system.Store.Models.{Task}
use workfront_system.Store.Tables.{Tables}
use workfront_system.Store.Memory.{memory}
use workfront_system.Ws.Manager.{new_manager}
use workfront_system.Api.Schemas.{TaskScheduleUpdate, TaskOut, task_out}
use workfront_system.Api.Guards.{
  Surroundings, Reply, status_code, require_match, load_task, flush_task,
}
use workfront_system.Api.Schedule.{move_task, schedule_event, reschedule_task}
use workfront_system.Api.Schedule.Guarantees.{reschedule-conflict}
use workfront_system.Api.Schedule.Refusals.{Refused, reschedule-Refused}
use workfront_system.Tests.Deliveries.{task, before}

unfoldable pub program : Unit {0}
unfolding reschedule_task load_task require_match flush_task status_code
program = tt

abbrev pub traceparent : Carrier
traceparent = ("traceparent", "00-3") ∷ []

abbrev pub around : Surroundings Tables
around = record {
  new_id = 70;
  now = 5000;
  trace = traceparent;
  sends = λ ws. true;
  others = λ s. s;
  later = λ s. s;
  during = λ m. m;
}

abbrev pub body : TaskScheduleUpdate
body = record { planned_start = 200; planned_completion = 208 }

abbrev body' : TaskScheduleUpdate
body' = record { planned_start = 300; planned_completion = 308 }

abbrev pub moved : Task
moved = record (move_task (task 1 100 108 2) body) { version = 3 }

abbrev pub reply : Reply Tables TaskOut
reply = record {
  state = record before {
    tasks = update before.tasks 1 (some moved);
    outbox = schedule_event 70 9 traceparent moved body ∷ [];
  };
  manager = new_manager;
  events = [];
  body = task_out moved;
}

pub move :
    reschedule_task memory inserted false around before new_manager 1 body (some 2) 9 ≡ ok reply
unfolding program
move = refl

move_unmatched :
    reschedule_task memory inserted false around before new_manager 1 body none 9
    ≡ err (http_exception 428)
unfolding program
move_unmatched = refl

move_foreign :
    reschedule_task memory inserted false around before new_manager 1 body (some 2) 8
    ≡ err (http_exception 404)
unfolding program
move_foreign = refl

abbrev around' : Surroundings Tables
around' = record around { others = λ s. reply.state }

reschedule-conflict_example :
    (reschedule_task memory inserted false around' before new_manager 1 body' (some 2) 9
      ≡ err stale_data_error)
    × (reschedule_task memory inserted false around' reply.state new_manager 1 body' (some 2) 9
        ≡ err (http_exception 409))
reschedule-conflict_example =
    reschedule-conflict memory inserted around around' before new_manager new_manager 1 body body'
      (some 2) 9 (task 1 100 108 2) refl refl refl move refl

reschedule-Refused_example :
    Refused memory inserted (λ s. s) before 1 body none 9 (status_code (http_exception 428))
reschedule-Refused_example =
    reschedule-Refused memory inserted around before new_manager 1 body none 9 (http_exception 428)
      move_unmatched
