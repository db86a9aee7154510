-- ===== src/Tests/Deleting.antt =====
-- The deletion of a task with a subtask (services/api/src/main.py) over the database in memory, and
-- the theorem at it.
use workfront_system.Base.{◌≡◌, refl, none, some, [], ◌∷◌, ok}
use workfront_system.Cascade.Types.{update}
use workfront_system.Store.Models.{Task}
use workfront_system.Store.Tables.{Tables}
use workfront_system.Store.Memory.{memory}
use workfront_system.Store.Deletion.{remove}
use workfront_system.Ws.Manager.{
  new_manager, task_deleted, broadcast, make_event, next_seq, push_local, drop_dead, disconnect,
}
use workfront_system.Api.Schemas.{deleted_data}
use workfront_system.Api.Guards.{Reply, require_match, load_task, announce}
use workfront_system.Api.Tasks.{delete_task_route}
use workfront_system.Api.Tasks.Deletes.{Deleted, delete-Deleted}
use workfront_system.Tests.Deliveries.{task, before}
use workfront_system.Tests.Requests.{around}

program : Unit {0}
unfolding delete_task_route load_task require_match announce broadcast make_event next_seq
    push_local drop_dead disconnect
program = tt

-- Task 3 is a subtask of task 1.
abbrev family : Tables
family = record before {
  task_ids = 1 ∷ 2 ∷ 3 ∷ [];
  tasks = update before.tasks 3 (some (record (task 3 100 104 1) { parent_id = some 1 }));
}

abbrev reply : Reply Tables (Unit {0})
reply = record {
  state = remove family (task 1 100 108 2);
  manager = record new_manager { seq = update new_manager.seq 7 1 };
  events =
      record { type = task_deleted; project_id = 7; seq = 1; ts = 5000; payload = deleted_data 1 }
      ∷ [];
  body = tt;
}

deletes : delete_task_route memory around family new_manager 1 (some 2) 9 ≡ ok reply
unfolding program
deletes = refl

subtask_gone : memory.get_task reply.state 3 ≡ none
subtask_gone = refl

follower_stays : memory.get_task reply.state 2 ≡ some (task 2 50 58 1)
follower_stays = refl

delete-Deleted_example : (t : Task) × Deleted memory around family new_manager 1 (some 2) 9 t reply
delete-Deleted_example = delete-Deleted memory around family new_manager 1 (some 2) 9 deletes
