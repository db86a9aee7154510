-- ===== src/Api/Tasks.antt =====
-- The task routes of services/api/src/main.py, but the schedule move.
pub mod Updates
pub mod Deletes
use Prim.Native.String.{String}
use workfront_system.Base.{ℕ, Option, some, none, Outcome, ok, ◌>>=◌}
use workfront_system.Store.Models.{Task}
use workfront_system.Store.Database.{Database}
use workfront_system.Ws.Manager.{ConnectionManager, task_created, task_updated, task_deleted}
use workfront_system.Api.Schemas.{
  TaskCreate, TaskUpdate, TaskOut, task_out, created_data, updated_data, deleted_data,
}
use workfront_system.Api.Guards.{
  Surroundings, Reply, load_project, load_task, require_match, flush_task, announce,
}

-- models.Task(…), with the defaults of its columns
abbrev pub fresh_task : ℕ → ℕ → ℕ → TaskCreate → Task
fresh_task new_id customer_id project_id body = record {
  id = new_id;
  customer_id = customer_id;
  project_id = project_id;
  parent_id = body.parent_id;
  name = body.name;
  status = "new";
  planned_start = body.planned_start;
  planned_completion = body.planned_completion;
  work_required_minutes = body.work_required_minutes;
  calendar_id = none;
  percent_complete = 0;
  version = 1;
}

-- `if body.name is not None: t.name = body.name`
abbrev pub given : Option String → String → String
given none old = old
given (some new) old = new

abbrev pub edit_task : Task → TaskUpdate → Task
edit_task t body = record t { name = given body.name t.name; status = given body.status t.status }

module _ (db : Database) where
  open db use {State, add_task, delete_task}

  module _ (around : Surroundings State) (s : State) (m : ConnectionManager) where
    unfoldable pub create_task : ℕ → TaskCreate → ℕ → Outcome (Reply State TaskOut)
    create_task project_id body customer_id = do
      p ← load_project db s project_id customer_id
      let t = fresh_task around.new_id customer_id project_id body
      added ← add_task (around.others s) t
      ok (
          announce db around added m project_id task_created (created_data (task_out t))
            (task_out t))

    unfoldable pub update_task : ℕ → TaskUpdate → Option ℕ → ℕ → Outcome (Reply State TaskOut)
    update_task task_id body if_match customer_id = do
      t ← load_task db s task_id customer_id
      checked ← require_match t.version if_match
      (written, now) ← flush_task db (around.others s) t (edit_task t body)
      ok (
          announce db around written m t.project_id task_updated
            (updated_data t.id body now.version) (task_out now))

    unfoldable pub delete_task_route : ℕ → Option ℕ → ℕ → Outcome (Reply State (Unit {0}))
    delete_task_route task_id if_match customer_id = do
      t ← load_task db s task_id customer_id
      checked ← require_match t.version if_match
      deleted ← delete_task (around.others s) t
      ok (announce db around deleted m t.project_id task_deleted (deleted_data task_id) tt)
