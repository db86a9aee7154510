-- ===== src/Tests/Editing.antt =====
-- An update of a task (services/api/src/main.py) over the database in memory, and the theorem at it.
use workfront_system.Base.{some-injective, ◌≡◌, refl, subst, false, some, none, [], ◌∷◌, ok}
use workfront_system.Cascade.Types.{update}
use workfront_system.Store.Models.{Task}
use workfront_system.Store.Tables.{Tables}
use workfront_system.Store.Memory.{memory}
use workfront_system.Ws.Manager.{
  new_manager, task_updated, broadcast, make_event, next_seq, push_local, drop_dead, disconnect,
}
use workfront_system.Api.Schemas.{TaskUpdate, TaskOut, task_out, updated_data}
use workfront_system.Api.Guards.{Reply, is_same, require_match, load_task, flush_task, announce}
use workfront_system.Api.Tasks.{edit_task, update_task}
use workfront_system.Api.Tasks.Updates.{Updated, update-Updated}
use workfront_system.Tests.Deliveries.{task, before}
use workfront_system.Tests.Requests.{around}

unfoldable pub program : Unit {0}
unfolding update_task load_task require_match flush_task announce broadcast make_event next_seq
    push_local drop_dead disconnect
program = tt

abbrev pub body : TaskUpdate
body = record { name = some "renamed"; status = none }

abbrev pub renamed : Task
renamed = record (task 1 100 108 2) { name = "renamed"; version = 3 }

abbrev pub reply : Reply Tables TaskOut
reply = record {
  state = record before { tasks = update before.tasks 1 (some renamed) };
  manager = record new_manager { seq = update new_manager.seq 7 1 };
  events =
      record {
        type = task_updated;
        project_id = 7;
        seq = 1;
        ts = 5000;
        payload = updated_data 1 body 3;
      }
      ∷ [];
  body = task_out renamed;
}

rename : update_task memory around before new_manager 1 body (some 2) 9 ≡ ok reply
unfolding program
rename = refl

pub changes : (t : Task) → memory.get_task before 1 ≡ some t → is_same t (edit_task t body) ≡ false
changes t e = subst (λ x. is_same x (edit_task x body) ≡ false) (some-injective e) refl

update-Updated_example :
    (t : Task) × Updated memory around before new_manager 1 body (some 2) 9 t reply
update-Updated_example =
    update-Updated memory around before new_manager 1 body (some 2) 9 rename changes
