-- ===== src/Tests/Histories.antt =====
-- A client reads task 1, the worker moves task 2, and the client moves task 1 (services/api/src/main.py,
-- services/worker/src/handler.py), over the database in memory; and the theorem at that run.
use workfront_system.Base.{some-injective, subst, foldl, false, ◌≡◌, ◌++◌, refl, some, [], ◌∷◌, ok}
use workfront_system.Cascade.Types.{inserted, update}
use workfront_system.Store.Models.{Task}
use workfront_system.Store.Tables.{Tables}
use workfront_system.Store.Memory.{memory}
use workfront_system.Ws.Manager.{new_manager, WsEvent, schedule_cascade}
use workfront_system.Worker.Handler.{worker_group}
use workfront_system.Api.Schemas.{TaskOut, task_out, EventData, cascade_data}
use workfront_system.Api.Guards.{Reply, is_same, require_match, load_task, flush_task}
use workfront_system.Api.Schedule.{move_task, schedule_event, reschedule_task}
use workfront_system.History.{History, none_yet, delivers}
use workfront_system.History.Accepted.{accepted_move}
use workfront_system.Api.Service.Client.{shown}
use workfront_system.History.Clients.{
  Notified, event, answer, Client, obey, chart, then, client_in_step,
}
use workfront_system.Tests.Deliveries.{task, before, after, delivery, changes}
use workfront_system.Tests.Requests.{traceparent, around, body, moved}

program : Unit {0}
unfolding reschedule_task load_task require_match flush_task
program = tt

abbrev reply : Reply Tables TaskOut
reply = record {
  state = record after {
    tasks = update after.tasks 1 (some moved);
    outbox = after.outbox ++ schedule_event 70 9 traceparent moved body ∷ [];
  };
  manager = new_manager;
  events = [];
  body = task_out moved;
}

move_after :
    reschedule_task memory inserted false around after new_manager 1 body (some 2) 9 ≡ ok reply
unfolding program
move_after = refl

worked : History memory inserted 1 before after
worked = delivers before (λ s. s) 55 99 1 worker_group refl delivery

accepted_move_example :
    (memory.get_task after 1 ≡ some (task 1 100 108 2))
    × (memory.get_task reply.state 1 ≡ some moved)
accepted_move_example =
    accepted_move memory inserted around before after new_manager body 9 (task 1 100 108 2) refl
      worked none_yet refl move_after

-- The chart gets the ripple to task 2, and then the answer to the move of task 1.
abbrev ripple : WsEvent EventData
ripple = record {
  type = schedule_cascade;
  project_id = 7;
  seq = 1;
  ts = 5000;
  payload = cascade_data 1 changes;
}

dated : (t : Task) → memory.get_task after 1 ≡ some t → is_same t (move_task t body) ≡ false
dated t e = subst (λ x. is_same x (move_task x body) ≡ false) (some-injective e) refl

abbrev start : Client
start = record { view = chart memory inserted before; last = λ p. 0 }

client_in_step_example :
    shown (memory.get_task reply.state 2)
    ≡ (foldl (obey (λ p. start)) start (event ripple ∷ answer reply.body ∷ [])).view 2
client_in_step_example =
    client_in_step memory inserted (λ p. start) (λ p. 0) (event ripple ∷ answer reply.body ∷ [])
      (then
        (Notified.delivers before (λ s. s) 55 99 1 worker_group ripple (λ b t e. none_yet) refl
          delivery refl)
        (Notified.moves around after new_manager 1 body (some 2) 9 dated move_after))
      (refl, tt) 2
